-- ===== src/Cbor/Items.antt =====
-- A sequence of items as a client of util/cbor.c writes and reads it, one call for each item, and
-- the bytes that it makes. The messages of the analyzer are such sequences.
use suscan.Prelude.{
  ℕ, ◌+◌, ◌<◌, ◌^◌, ◌≡◌, List, [], ◌∷◌, ◌++◌, Bool, some, ◌==◌, if◌then◌else◌, length,
}
use suscan.Prelude.Int.{ℤ, pos, negsuc, IsI64}
use suscan.Prelude.Outcome.{Call, pure, ◌>>=◌, ◌>>◌}
use suscan.GrowBuf.{GrowBuf}
use suscan.Cbor.Format.{mktype, cpu32_to_be, cpu64_to_be, size_max, unknown_nelem}
use suscan.Cbor.Pack.{
  strlen, pack_uint, pack_nint, pack_int, pack_blob, pack_str, pack_bool, pack_null, pack_break,
  pack_single, pack_double, pack_array_start, pack_map_start,
}
use suscan.Cbor.Unpack.{
  unpack_uint, unpack_nint, unpack_int, unpack_blob, unpack_str, unpack_bool, unpack_null,
  unpack_break, unpack_single, unpack_double, unpack_array_start, unpack_map_start,
}
use suscan.Cbor.Wire.Header.{header}

pub data Item : Type 0 where
  uint nint single double array map : ℕ → Item
  int : ℤ → Item
  blob str : List ℕ → Item
  bool : Bool → Item
  null stop : Item

pub data Kind : Type 0 where
  uint_kind nint_kind single_kind double_kind array_kind map_kind : Kind
  int_kind blob_kind str_kind bool_kind null_kind stop_kind : Kind

unfoldable pub kind : Item → Kind
kind (uint v) = uint_kind
kind (nint v) = nint_kind
kind (single v) = single_kind
kind (double v) = double_kind
kind (array n) = array_kind
kind (map n) = map_kind
kind (int v) = int_kind
kind (blob bytes) = blob_kind
kind (str s) = str_kind
kind (bool b) = bool_kind
kind null = null_kind
kind stop = stop_kind

unfoldable pub kinds : List Item → List Kind
unfolding kind
kinds [] = []
kinds (i ∷ is) = kind i ∷ kinds is

-- What the C types of the values allow. A string holds no NUL, and a blob is not empty.
abbrev pub Fits : Item → Type 0
Fits (uint v) = v < 2 ^ 64
Fits (nint v) = v < 2 ^ 64
Fits (single v) = v < 2 ^ 32
Fits (double v) = v < 2 ^ 64
Fits (array n) = n < 2 ^ 64
Fits (map n) = n < 2 ^ 64
Fits (int v) = IsI64 v
Fits (blob bytes) = (0 < length bytes) × (length bytes < size_max)
Fits (str s) = (strlen s ≡ length s) × (length s < size_max)
Fits (bool b) = Unit {0}
Fits null = Unit {0}
Fits stop = Unit {0}

-- The length that a start of unknown length is reported with.
unfoldable pub given : ℕ × Bool → ℕ
given (len, end_required) = if end_required then unknown_nelem else len

-- The start of an array or a map.
unfoldable pub start_bytes : ℕ → ℕ → List ℕ
start_bytes type n = if n == unknown_nelem then mktype type 31 ∷ [] else header type n

unfoldable pub encode : Item → List ℕ
encode (uint v) = header 0 v
encode (nint v) = header 1 v
encode (single v) = mktype 7 26 ∷ cpu32_to_be v
encode (double v) = mktype 7 27 ∷ cpu64_to_be v
encode (array n) = start_bytes 4 n
encode (map n) = start_bytes 5 n
encode (int (pos n)) = header 0 n
encode (int (negsuc n)) = header 1 (n + 1)
encode (blob bytes) = header 2 (length bytes) ++ bytes
encode (str s) = header 3 (length s) ++ s
encode (bool b) = mktype 7 (if b then 21 else 20) ∷ []
encode null = mktype 7 22 ∷ []
encode stop = mktype 7 31 ∷ []

unfoldable pub encode_all : List Item → List ℕ
encode_all [] = []
encode_all (i ∷ is) = encode i ++ encode_all is

module _ ⦃g : GrowBuf⦄ where
  open g use {Buf}

  unfoldable pub pack_item : Item → Call Buf (Unit {0})
  pack_item (uint v) = pack_uint v
  pack_item (nint v) = pack_nint v
  pack_item (single v) = pack_single v
  pack_item (double v) = pack_double v
  pack_item (array n) = pack_array_start n
  pack_item (map n) = pack_map_start n
  pack_item (int v) = pack_int v
  pack_item (blob bytes) = pack_blob bytes
  pack_item (str s) = pack_str (some s)
  pack_item (bool b) = pack_bool b
  pack_item null = pack_null
  pack_item stop = pack_break

  unfoldable pub pack_items : List Item → Call Buf (Unit {0})
  pack_items [] = pure tt
  pack_items (i ∷ is) = pack_item i >> pack_items is

  -- `gives` and `cached` are those of `unpack_blob`.
  module _ (gives : ℕ → Bool) (cached : ℕ) where
    unfoldable pub unpack_item : Kind → Call Buf Item
    unpack_item uint_kind = do v ← unpack_uint; pure (uint v)
    unpack_item nint_kind = do v ← unpack_nint; pure (nint v)
    unpack_item single_kind = do v ← unpack_single; pure (single v)
    unpack_item double_kind = do v ← unpack_double; pure (double v)
    unpack_item array_kind = do n ← unpack_array_start; pure (array (given n))
    unpack_item map_kind = do n ← unpack_map_start; pure (map (given n))
    unpack_item int_kind = do v ← unpack_int; pure (int v)
    unpack_item blob_kind = do bytes ← unpack_blob gives cached; pure (blob bytes)
    unpack_item str_kind = do s ← unpack_str gives; pure (str s)
    unpack_item bool_kind = do b ← unpack_bool; pure (bool b)
    unpack_item null_kind = do unpack_null; pure null
    unpack_item stop_kind = do unpack_break; pure stop

    unfoldable pub unpack_items : List Kind → Call Buf (List Item)
    unpack_items [] = pure []
    unpack_items (k ∷ ks) = do i ← unpack_item k; is ← unpack_items ks; pure (i ∷ is)
