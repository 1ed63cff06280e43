-- ===== src/Cbor/Format.antt =====
-- The wire format of util/cbor.h: major types, additional information and byte order.
use suscan.Prelude.{ℕ, ◌+◌, ◌-◌, ◌*◌, ◌/◌, ◌%◌, ◌^◌, List, [], ◌∷◌}

-- `CBOR_UNKNOWN_NELEM`, `~0ul`
abbrev pub unknown_nelem : ℕ
unknown_nelem = 2 ^ 64 - 1

-- `SIZE_MAX` of a 64-bit machine
abbrev pub size_max : ℕ
size_max = 2 ^ 64 - 1

-- `(type << 5) | additional` in a byte. The additional information is below 32 at each call, so
-- the two share no bit and `|` adds them.
abbrev pub mktype : ℕ → ℕ → ℕ
mktype type additional = (type * 2 ^ 5 + additional) % 256

-- The bytes that `cpuN_to_be_unaligned` stores, in the order of their addresses.
unfoldable pub cpu8_to_be : ℕ → List ℕ
cpu8_to_be v = v % 256 ∷ []

unfoldable pub cpu16_to_be : ℕ → List ℕ
cpu16_to_be v = v / 2 ^ 8 % 256 ∷ v % 256 ∷ []

unfoldable pub cpu32_to_be : ℕ → List ℕ
cpu32_to_be v = v / 2 ^ 24 % 256 ∷ v / 2 ^ 16 % 256 ∷ v / 2 ^ 8 % 256 ∷ v % 256 ∷ []

unfoldable pub cpu64_to_be : ℕ → List ℕ
cpu64_to_be v =
    v / 2 ^ 56 % 256
    ∷ v / 2 ^ 48 % 256
    ∷ v / 2 ^ 40 % 256
    ∷ v / 2 ^ 32 % 256
    ∷ v / 2 ^ 24 % 256
    ∷ v / 2 ^ 16 % 256
    ∷ v / 2 ^ 8 % 256
    ∷ v % 256
    ∷ []

-- `beN_to_cpu_unaligned`. The shifted bytes share no bit, so `|` adds them. The span that a
-- caller hands over is never shorter than the word; the last clauses are not reached.
unfoldable pub be8_to_cpu : List ℕ → ℕ
be8_to_cpu (a ∷ _) = a
be8_to_cpu _ = 0

unfoldable pub be16_to_cpu : List ℕ → ℕ
be16_to_cpu (a ∷ b ∷ _) = a * 2 ^ 8 + b
be16_to_cpu _ = 0

unfoldable pub be32_to_cpu : List ℕ → ℕ
be32_to_cpu (a ∷ b ∷ c ∷ d ∷ _) = a * 2 ^ 24 + b * 2 ^ 16 + c * 2 ^ 8 + d
be32_to_cpu _ = 0

unfoldable pub be64_to_cpu : List ℕ → ℕ
be64_to_cpu (a ∷ b ∷ c ∷ d ∷ e ∷ f ∷ g ∷ h ∷ _) =
    a * 2 ^ 56 + b * 2 ^ 48 + c * 2 ^ 40 + d * 2 ^ 32 + e * 2 ^ 24 + f * 2 ^ 16 + g * 2 ^ 8 + h
be64_to_cpu _ = 0
