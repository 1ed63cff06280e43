-- ===== src/Throttle/Runs.antt =====
-- Runs of the throttle (analyzer/throttle.c).
use suscan.Prelude.{◌+◌, ◌≤◌, ◌≡◌, refl, arith}
use suscan.Throttle.{Throttle, since, between, refresh, get_portion, advance}
use suscan.Throttle.Pace.{IsPaced, get_portion-IsPaced}

-- 48 samples in 1000 nanoseconds, none left
abbrev used_up : Throttle
used_up = record { t0 = 1000; avail = 0; delta_s = 48; delta_t = 1000 }

get_portion-IsPaced_example :
    ((get_portion 1500 used_up 10).2 ≤ 10)
    × IsPaced 0 (96 + 10) (advance (get_portion 1500 used_up 10).0 10)
unfolding get_portion refresh since between
get_portion-IsPaced_example =
    get_portion-IsPaced 0 96 1500 10 10 used_up (omega arith) (omega arith) (omega arith)

-- After a sleep that was cut short, the time before the checkpoint counts as a late reader: a whole block is
-- there again, though the last one was not waited for.
cut_short :
    refresh 1600 (record { t0 = 2000; avail = 0; delta_s = 48; delta_t = 1000 })
    ≡ record { t0 = 1600; avail = 48; delta_s = 48; delta_t = 1000 }
unfolding refresh since
cut_short = refl
