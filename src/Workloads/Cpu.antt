-- ===== src/Workloads/Cpu.antt =====
-- How often cpu_hog.c reports.
use os_jackfruit.Prelude.{ℕ, zero, suc, ◌+◌, ◌/◌, ◌^◌, ◌<◌, ◌≡◌, arith}
use os_jackfruit.Workloads.{cpu_rounds}

-- In any number of rounds before its counter wraps around, the program reports once for each
-- multiple of 1000000000 that the counter comes past.
pub cpu_reports :
    (n i : ℕ)
    → i + n < 2 ^ 64
    → let (last, reports) = cpu_rounds n i in
      (last ≡ i + n) × (reports + i / 1000000000 ≡ (i + n) / 1000000000)
unfolding cpu_rounds
cpu_reports zero i h = omega arith
cpu_reports (suc n) i h = ground (arith, cpu_reports n (i + 1))
