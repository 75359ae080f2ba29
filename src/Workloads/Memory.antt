-- ===== src/Workloads/Memory.antt =====
-- How much memory memory_hog.c uses for the number that it is given.
use os_jackfruit.Prelude.{
  ℕ, zero, suc, ◌+◌, ◌*◌, ◌^◌, ◌<◌, ◌≤◌, ◌≡◌, Bool, true, List, [], ◌∷◌, some, pos, decimal, length,
  arith, refl, ap,
}
use os_jackfruit.Cli.Number.{atoi-decimal}
use os_jackfruit.Workloads.{hog_size, touch_pages, memory_hog}

hog_size-small : (n : ℕ) → n < 2048 → hog_size (pos n) ≡ n * 1048576
unfolding hog_size
hog_size-small n h = ground arith

-- From 2048 MiB on the product does not fit an int: up to 4095 MiB the size that is asked for is
-- above 2 ^ 63, which is more than any address space.
pub hog_size-overflow : (n : ℕ) → 2048 ≤ n → n < 4096 → 2 ^ 63 < hog_size (pos n)
unfolding hog_size
hog_size-overflow n low high = ground arith

-- The loop over a number of whole pages touches each of them.
touch_whole :
    (fuel k i size : ℕ)
    → k < fuel
    → size ≡ i + k * 4096
    → (offsets : List ℕ) × (touch_pages fuel i size ≡ some offsets) × (length offsets ≡ k)
unfolding touch_pages
touch_whole zero k i size lt e = absurd (omega arith)
touch_whole (suc fuel) zero i size lt e = ([], ground arith, refl)
touch_whole (suc fuel) (suc k) i size lt e =
    let (offsets, rest, count) = touch_whole fuel k (i + 4096) size (omega arith) (omega arith) in
    (i ∷ offsets, ground arith, ap suc count)

-- For a number of MiB below 2048 that `malloc` grants, written in decimal, the program touches
-- every one of its pages, 256 for each MiB, and exits with 0.
pub memory_hog_touches :
    (fuel n : ℕ) (malloc : ℕ → Bool)
    → n < 2048
    → n * 256 < fuel
    → malloc (n * 1048576) ≡ true
    → (offsets : List ℕ) × (memory_hog fuel malloc (decimal (pos n) ∷ []) ≡ some (pos 0, offsets))
      × (length offsets ≡ n * 256)
unfolding memory_hog
memory_hog_touches fuel n malloc small enough granted =
    let (offsets, touched, count) =
      touch_whole fuel (n * 256) 0 (n * 1048576) enough (omega arith) in
    (
      offsets,
      rw ((atoi-decimal n (omega arith)).0, hog_size-small n small, granted, touched) refl,
      count,
    )
