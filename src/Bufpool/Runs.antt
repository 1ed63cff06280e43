-- ===== src/Bufpool/Runs.antt =====
-- Runs of the pools of sample buffers (analyzer/bufpool.c).
use suscan.Prelude.{◌≡◌, refl, false, arith}
use suscan.Bufpool.{Pools, alloc, give_back, blocks}
use suscan.Bufpool.Sizes.{Allocated, alloc-Allocated, give_back_lem}

abbrev fresh_pools : Pools
fresh_pools = record {
  pools = λ i. record { locked = false; first = 0 };
  headers = λ p. 6;
  samples = λ p. 0;
}

alloc-Allocated_example : Allocated 4096 100 (alloc 4096 100 fresh_pools)
alloc-Allocated_example =
    alloc-Allocated 4096 100 fresh_pools (omega arith) (omega arith) (omega arith) (λ i. refl)
      (λ i. refl)

give_back_lem_example : give_back 4096 fresh_pools ≡ blocks
give_back_lem_example = give_back_lem 4096 fresh_pools (omega arith)
