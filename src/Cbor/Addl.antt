-- ===== src/Cbor/Addl.antt =====
-- The additional information in a type byte, the `CBOR_ADDL_…` of util/cbor.h.
use suscan.Prelude.{ℕ}

abbrev pub uint8 : ℕ
uint8 = 24

abbrev pub uint16 : ℕ
uint16 = 25

abbrev pub uint32 : ℕ
uint32 = 26

abbrev pub uint64 : ℕ
uint64 = 27

abbrev pub array_indef : ℕ
array_indef = 31

abbrev pub map_indef : ℕ
map_indef = 31

abbrev pub float_float32 : ℕ
float_float32 = 26

abbrev pub float_float64 : ℕ
float_float64 = 27

abbrev pub float_false : ℕ
float_false = 20

abbrev pub float_true : ℕ
float_true = 21

abbrev pub float_null : ℕ
float_null = 22

abbrev pub float_break : ℕ
float_break = 31
