-- ===== src/Cbor/Wire/Endian.antt =====
-- The big-endian words of util/cbor.h: loads undo stores.
use suscan.Prelude.{ℕ, ◌^◌, ◌<◌, ◌≡◌, List, ◌++◌, arith}
use suscan.Cbor.Format.{
  cpu8_to_be, cpu16_to_be, cpu32_to_be, cpu64_to_be, be8_to_cpu, be16_to_cpu, be32_to_cpu,
  be64_to_cpu,
}

module _ (v : ℕ) (rest : List ℕ) where
  pub be8_to_cpu-cpu8_to_be : v < 2 ^ 8 → be8_to_cpu (cpu8_to_be v ++ rest) ≡ v
  unfolding be8_to_cpu cpu8_to_be
  be8_to_cpu-cpu8_to_be h = omega arith

  pub be16_to_cpu-cpu16_to_be : v < 2 ^ 16 → be16_to_cpu (cpu16_to_be v ++ rest) ≡ v
  unfolding be16_to_cpu cpu16_to_be
  be16_to_cpu-cpu16_to_be h = omega arith

  pub be32_to_cpu-cpu32_to_be : v < 2 ^ 32 → be32_to_cpu (cpu32_to_be v ++ rest) ≡ v
  unfolding be32_to_cpu cpu32_to_be
  be32_to_cpu-cpu32_to_be h = omega arith

  pub be64_to_cpu-cpu64_to_be : v < 2 ^ 64 → be64_to_cpu (cpu64_to_be v ++ rest) ≡ v
  unfolding be64_to_cpu cpu64_to_be
  be64_to_cpu-cpu64_to_be h = omega arith
