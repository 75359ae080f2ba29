-- ===== src/Workloads/Tests.antt =====
-- The workloads on small numbers, and on one that is too large.
use os_jackfruit.Prelude.{◌^◌, ◌<◌, pos, arith}
use os_jackfruit.Workloads.{hog_size}
use os_jackfruit.Workloads.Memory.{hog_size-overflow}

hog_size-overflow_example : 2 ^ 63 < hog_size (pos 3000)
hog_size-overflow_example = hog_size-overflow 3000 (omega arith) (omega arith)
