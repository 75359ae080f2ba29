-- ===== src/Workloads.antt =====
-- The programs that are run in containers for experiments: memory_hog.c, cpu_hog.c, io_pulse.c.
pub mod Memory
pub mod Cpu
mod Tests
use os_jackfruit.Prelude.{
  ℕ, zero, suc, ◌+◌, ◌*◌, ◌%◌, ◌^◌, Bool, true, false, List, [], ◌∷◌, ◌++◌, Option, none, some, ℤ,
  pos, to_u64, CString, codes, decimal, if◌then◌else◌, ltb, ◌==◌,
}
use os_jackfruit.Cli.{atoi, int_of_bits}

-- memory_hog.c

-- The size that is asked for: `mb * 1024 * 1024` is computed as an int of 32 bits, which wraps
-- around on the machine, and then converted to size_t.
unfoldable pub hog_size : ℤ → ℕ
hog_size mb = to_u64 (int_of_bits (to_u64 mb * 1024 * 1024 % 2 ^ 32))

-- The loop that touches the memory, from `i` on: the offsets that it writes; `none` if the fuel
-- runs out. The size is a multiple of 4096, so the size_t `i` meets it before it could wrap.
unfoldable pub touch_pages : ℕ → ℕ → ℕ → Option (List ℕ)
touch_pages zero i size = none
touch_pages (suc fuel) i size =
    let rest = touch_pages fuel (i + 4096) size in
    if ltb i size then elim rest [ none ↦ none | some offsets ↦ some (i ∷ offsets) ] else some []

-- The number of MiB: 50, or the first argument.
unfoldable pub hog_megabytes : List CString → ℤ
hog_megabytes [] = pos 50
hog_megabytes (arg ∷ args) = atoi arg

-- The exit code with the offsets touched; the function says whether `malloc` grants a size.
unfoldable pub memory_hog : ℕ → (ℕ → Bool) → List CString → Option (ℤ × List ℕ)
unfolding hog_megabytes
memory_hog fuel malloc args =
    let size = hog_size (hog_megabytes args) in
    if malloc size
    then elim (touch_pages fuel 0 size) [ none ↦ none | some offsets ↦ some (pos 0, offsets) ]
    else some (pos 1, [])

-- cpu_hog.c

-- One round of the endless loop on the 64-bit counter, and whether it reports.
unfoldable pub cpu_round : ℕ → ℕ × Bool
cpu_round i = let next = (i + 1) % 2 ^ 64 in (next, next % 1000000000 == 0)

-- A number of rounds: the counter, and how many reports were made.
unfoldable pub cpu_rounds : ℕ → ℕ → ℕ × ℕ
unfolding cpu_round
cpu_rounds zero i = (i, 0)
cpu_rounds (suc n) i =
    let (next, reports) = cpu_round i in
    let (last, more) = cpu_rounds n next in (last, if reports then more + 1 else more)

-- io_pulse.c

-- The loop from `i` on, with `n` rounds left: the lines that it prints, one for each second.
unfoldable pub pulses : ℕ → ℕ → List CString
pulses zero i = []
pulses (suc n) i = (codes "Pulse " ++ (decimal (pos i) ++ codes "\n")) ∷ pulses n (i + 1)

unfoldable pub io_pulse : List CString
io_pulse = codes "Starting IO pulse...\n" ∷ (pulses 20 0 ++ codes "Finished IO pulse\n" ∷ [])
