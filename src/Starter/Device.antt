-- ===== src/Starter/Device.antt =====
-- The kernel module of boilerplate/monitor.c: what it implements of its commands, its look at a
-- process, and its loading and unloading.
use os_jackfruit.Prelude.{
  ltb, ◌^◌, ◌%◌, ◌-◌, ◌⊎◌, ℕ, ◌*◌, ◌≡◌, true, List, [], ◌∷◌, Option, none, some, ℤ, pos, negsuc,
  minus_one, is_negative, CString, if◌then◌else◌, fit, arith,
}
use os_jackfruit.Monitor.{einval, efault, enoent}

-- `struct monitor_request`
pub record MonitorRequest : Type 0 where
  pub pid : ℤ
  pub soft_limit_bytes : ℕ
  pub hard_limit_bytes : ℕ
  pub container_id : CString

-- The request that `register_with_monitor` and `unregister_from_monitor` send, the latter with
-- both limits 0; `strncpy` leaves the last byte of the name zero.
abbrev pub request_of : CString → ℤ → ℕ → ℕ → MonitorRequest
request_of container_id host_pid soft hard = record {
  pid = host_pid;
  soft_limit_bytes = soft;
  hard_limit_bytes = hard;
  container_id = fit 32 container_id;
}

-- The command, with what `copy_from_user` reads; `none`: it faults.
pub data Command : Type 0 where
  monitor_register monitor_unregister : Option MonitorRequest → Command
  unknown : Command

-- A registration is only logged, and an unregistration finds nothing: there is no list.
unfoldable pub monitor_ioctl : Command → ℤ
monitor_ioctl unknown = einval
monitor_ioctl (monitor_register none) = efault
monitor_ioctl (monitor_register (some req)) = pos 0
monitor_ioctl (monitor_unregister none) = efault
monitor_ioctl (monitor_unregister (some req)) = enoent

abbrev ioctl_code : ℤ → ℤ
ioctl_code ret = if is_negative ret then minus_one else pos 0

unfoldable pub register_with_monitor : CString → ℤ → ℕ → ℕ → ℤ
unfolding monitor_ioctl
register_with_monitor container_id host_pid soft hard =
    ioctl_code
      (monitor_ioctl (monitor_register (some (request_of container_id host_pid soft hard))))

unfoldable pub unregister_from_monitor : CString → ℤ → ℤ
unfolding monitor_ioctl
unregister_from_monitor container_id host_pid =
    ioctl_code (monitor_ioctl (monitor_unregister (some (request_of container_id host_pid 0 0))))

-- What the kernel knows of a pid: no task, a task with no memory of its own, or its pages.
pub data Task : Type 0 where
  no_task no_mm : Task
  resident : ℕ → Task

-- A long of 64 bits, which wraps around.
abbrev long_of_bits : ℕ → ℤ
long_of_bits bits = if ltb bits (2 ^ 63) then pos bits else negsuc (2 ^ 64 - 1 - bits)

-- In bytes.
unfoldable pub get_rss_bytes : ℕ → Task → ℤ
get_rss_bytes page_size no_task = minus_one
get_rss_bytes page_size no_mm = pos 0
get_rss_bytes page_size (resident pages) = long_of_bits (pages * page_size % 2 ^ 64)

-- The pids that get SIGKILL.
unfoldable pub kill_process : ℤ → Task → List ℤ
kill_process pid no_task = []
kill_process pid no_mm = pid ∷ []
kill_process pid (resident pages) = pid ∷ []

-- What the module holds.
pub data Resource : Type 0 where
  region class device cdev timer : Resource

abbrev release : Resource → List Resource → Option (List Resource)
release region (region ∷ held) = some held
release class (class ∷ held) = some held
release device (device ∷ held) = some held
release cdev (cdev ∷ held) = some held
release timer (timer ∷ held) = some held
release _ _ = none

abbrev release_all : List Resource → List Resource → Option (List Resource)
release_all [] held = some held
release_all (r ∷ rs) held = elim (release r held) [ none ↦ none | some rest ↦ release_all rs rest ]

-- Two return codes, and two pointers that may be errors: the error `n` is ERR_PTR(-(n + 1)).
pub record InitAnswers : Type 0 where
  pub alloc_chrdev_region : ℤ
  pub class_create : Option ℕ
  pub device_create : Option ℕ
  pub cdev_add : ℤ

abbrev failing : Option (List Resource) → ℤ → Option (List Resource × ℤ)
failing none code = none
failing (some held) code = some (held, code)

-- What the module holds afterwards, and the return code; `none`: a clean-up in the wrong order.
unfoldable pub monitor_init : InitAnswers → Option (List Resource × ℤ)
monitor_init a =
    if is_negative a.alloc_chrdev_region then some ([], minus_one) else elim a.class_create [
      | some n ↦ failing (release_all (region ∷ []) (region ∷ [])) (negsuc n)
      | none ↦ elim a.device_create [
        | some n ↦ failing (release_all (class ∷ region ∷ []) (class ∷ region ∷ [])) minus_one
        | none ↦
            if is_negative a.cdev_add
            then failing (release_all (device ∷ class ∷ region ∷ []) (device ∷ class ∷ region ∷ []))
                minus_one
            else some (timer ∷ cdev ∷ device ∷ class ∷ region ∷ [], pos 0)
      ]
    ]

unfoldable pub monitor_exit : List Resource → Option (List Resource)
monitor_exit held = release_all (timer ∷ cdev ∷ device ∷ class ∷ region ∷ []) held

-- A load that succeeds holds what an unload gives back, and one that fails holds nothing.
abbrev pub Loads : Option (List Resource × ℤ) → Type 0
Loads none = ⊥
Loads (some (held, code)) =
    ((code ≡ pos 0) × (monitor_exit held ≡ some [])) ⊎ ((is_negative code ≡ true) × (held ≡ []))

-- Loading never cleans up in the wrong order: it returns 0 with everything held, which unloading
-- then gives back, or an error with nothing held.
pub monitor_init-Loads : (a : InitAnswers) → Loads (monitor_init a)
unfolding monitor_init monitor_exit
monitor_init-Loads a = ground arith
