-- ===== src/KernelLink.antt =====
-- The two ioctl wrappers of engine.c: the supervisor's side of /dev/container_monitor, over the
-- model of the kernel module.
use os_jackfruit.Prelude.{
  Bool, true, false, not, List, some, ℤ, pos, minus_one, eq_ℤ, to_u64, if◌then◌else◌, ◌≡◌, ◌≢◌,
  arith, eq_ℤ_iff,
}
use os_jackfruit.Monitor.{
  MonitorEntry, MonitorRequest, register_container, unregister_container, monitor_ioctl,
  find_entry_locked, is_not_positive, new_entry,
}
use os_jackfruit.Monitor.Ioctl.{Inv, ioctl-Inv, register_tracks}

-- Whether the device opens, and whether the module's kmalloc succeeds.
pub record DeviceAnswer : Type 0 where
  pub open_ok : Bool
  pub kmalloc_ok : Bool

-- The request for the kernel: the limits are converted from int to unsigned long.
abbrev pub kernel_request : ℤ → ℤ → ℤ → MonitorRequest
kernel_request pid soft_mib hard_mib = record {
  pid = pid;
  soft_limit = to_u64 soft_mib;
  hard_limit = to_u64 hard_mib;
}

unfoldable pub register_container_with_kernel :
    DeviceAnswer → ℤ → ℤ → ℤ → List MonitorEntry → List MonitorEntry × ℤ
register_container_with_kernel a pid soft_mib hard_mib tracked =
    if not a.open_ok
    then (tracked, minus_one)
    else let (after, ret) =
        monitor_ioctl a.kmalloc_ok
          (register_container (some (kernel_request pid soft_mib hard_mib))) tracked in
      if not (eq_ℤ ret (pos 0)) then (after, minus_one) else (after, pos 0)

unfoldable pub unregister_container_from_kernel :
    DeviceAnswer → ℤ → List MonitorEntry → List MonitorEntry × ℤ
unregister_container_from_kernel a pid tracked =
    if not a.open_ok
    then (tracked, minus_one)
    else let (after, ret) = monitor_ioctl a.kmalloc_ok (unregister_container (some pid)) tracked in
      if not (eq_ℤ ret (pos 0)) then (after, minus_one) else (after, pos 0)

pub register-Inv :
    (a : DeviceAnswer) (pid soft_mib hard_mib : ℤ) (tracked : List MonitorEntry)
    → Inv tracked
    → Inv (register_container_with_kernel a pid soft_mib hard_mib tracked).0
unfolding register_container_with_kernel
register-Inv a pid soft hard tracked v = ground (
  arith,
  ioctl-Inv a.kmalloc_ok (register_container (some (kernel_request pid soft hard))) tracked v,
)

pub unregister-Inv :
    (a : DeviceAnswer) (pid : ℤ) (tracked : List MonitorEntry)
    → Inv tracked
    → Inv (unregister_container_from_kernel a pid tracked).0
unfolding unregister_container_from_kernel
unregister-Inv a pid tracked v =
    ground (arith, ioctl-Inv a.kmalloc_ok (unregister_container (some pid)) tracked v)

-- A registration that the device and the module's memory allow, for a positive pid and a non-zero
-- hard limit, returns 0 and leaves the pid tracked with the limits converted, and not warned yet.
pub register_reaches_kernel :
    (a : DeviceAnswer) (pid soft_mib hard_mib : ℤ) (tracked : List MonitorEntry)
    → a.open_ok ≡ true
    → a.kmalloc_ok ≡ true
    → is_not_positive pid ≡ false
    → to_u64 hard_mib ≢ 0
    → let (after, ret) = register_container_with_kernel a pid soft_mib hard_mib tracked in
      (ret ≡ pos 0)
      × (find_entry_locked pid after ≡ some (new_entry (kernel_request pid soft_mib hard_mib)))
unfolding register_container_with_kernel
register_reaches_kernel a pid soft hard tracked o k p h = ground (
  arith,
  register_tracks a.kmalloc_ok (kernel_request pid soft hard) tracked pid,
  eq_ℤ_iff pid pid,
)
