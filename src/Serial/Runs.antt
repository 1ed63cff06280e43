-- ===== src/Serial/Runs.antt =====
-- A run of the array deserializer (analyzer/serialize.c) on a plain buffer.
use suscan.Prelude.{ℕ, ◌+◌, ◌^◌, ◌≡◌, refl, true, List, [], ◌∷◌, arith}
use suscan.Prelude.Outcome.{err, fault}
use suscan.GrowBuf.Plain.{PlainBuf, plain}
use suscan.Cbor.Format.{cpu64_to_be}
use suscan.Cbor.Items.{encode, encode_all}
use suscan.Cbor.Wire.Header.{header}
use suscan.Serial.Arrays.{unpack_compact_single_array}
use suscan.Serial.Overrun.{unpack_array_overrun}

-- A length of 2 ^ 62 + 1, and a blob of four bytes
abbrev overrun_bytes : List ℕ
overrun_bytes = 0x1b ∷ 0x40 ∷ 0 ∷ 0 ∷ 0 ∷ 0 ∷ 0 ∷ 0 ∷ 1 ∷ 0x44 ∷ 1 ∷ 2 ∷ 3 ∷ 4 ∷ []

abbrev received : PlainBuf
received = record { done = []; bytes = overrun_bytes }

unpack_array_overrun_example : (unpack_compact_single_array (λ n. true) 0 received).0 ≡ err fault
unfolding encode encode_all header cpu64_to_be
unpack_array_overrun_example =
    unpack_array_overrun (λ n. true) (λ n. refl) 0 (2 ^ 62 + 1) (1 ∷ 2 ∷ 3 ∷ 4 ∷ []) [] received
      (omega arith) (omega arith) refl (omega arith) refl
