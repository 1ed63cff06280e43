-- ===== src/Cbor/MajorType.antt =====
-- `enum cbor_major_type` of util/cbor.h.
use suscan.Prelude.{ℕ}

abbrev pub uint : ℕ
uint = 0

abbrev pub nint : ℕ
nint = 1

abbrev pub byte : ℕ
byte = 2

abbrev pub text : ℕ
text = 3

abbrev pub array : ℕ
array = 4

abbrev pub map : ℕ
map = 5

abbrev pub tag : ℕ
tag = 6

abbrev pub float : ℕ
float = 7
