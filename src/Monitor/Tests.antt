-- ===== src/Monitor/Tests.antt =====
-- The kernel module on two tracked processes.
use mathlib.Core.Quot
use os_jackfruit.Prelude.{
  ◌*◌, ◌/◌, ◌<◌, ◌≤◌, ◌≡◌, ◌≢◌, refl, true, false, ◌&&◌, ◌||◌, List, [], ◌∷◌, none, some, ℤ, pos,
  eq_ℤ, ltb, if◌then◌else◌, arith,
}
use os_jackfruit.Monitor.{
  Command, unknown, negsuc, MonitorEntry, MonitorRequest, no_pid, resident, Probe,
  register_container, unregister_container, find_entry_locked, monitor_ioctl, monitor_round,
  monitor_rounds, process_exists, get_process_rss_mib, einval,
}
use os_jackfruit.Monitor.Entries.{Distinct}
use os_jackfruit.Monitor.Ioctl.{Inv, ioctl-Inv}
use os_jackfruit.Monitor.Scan.{about}
use os_jackfruit.Monitor.Limits.{kills, warnings, round_enforces_limits, round_kills_only_over}
use os_jackfruit.Monitor.Rounds.{rounds_warn_once}
use os_jackfruit.Monitor.Spec.{Happening, command, round, history, map_history, monitor_refines}
use os_jackfruit.Monitor.Unordered.{Unordered, Apart, perform, code_of, commands_commute}
use os_jackfruit.Monitor.Device.{init_all_or_nothing, InitAnswers, monitor_init}

abbrev first : MonitorEntry
first = record { pid = pos 77; soft_limit = 40; hard_limit = 64; soft_warned = false }

abbrev second : MonitorEntry
second = record { pid = pos 78; soft_limit = 10; hard_limit = 20; soft_warned = true }

abbrev both : List MonitorEntry
both = first ∷ second ∷ []

both-Distinct : Distinct both
unfolding find_entry_locked
both-Distinct = (refl, (refl, tt))

both-Inv : Inv both
both-Inv = record {
  distinct = both-Distinct;
  sane = ((refl, omega arith), ((refl, omega arith), tt));
}

-- Process 77 has 25600 pages of 4096 bytes, 100 MiB; process 78 is gone.
abbrev probe : ℤ → Probe
probe pid =
    if eq_ℤ pid (pos 77)
    then record { at_exists = resident 25600; at_rss = resident 25600; at_kill = resident 25600 }
    else record { at_exists = no_pid; at_rss = no_pid; at_kill = no_pid }

round_enforces_limits_example :
    (find_entry_locked (pos 77) (monitor_round 4096 probe both).0
      ≡ some (record first { soft_warned = false || ltb 40 (25600 * 4096 / (1024 * 1024)) }))
    × (kills (about (pos 77) (monitor_round 4096 probe both).1)
        ≡ (if ltb 64 (25600 * 4096 / (1024 * 1024)) && true then 1 else 0))
    × (warnings (about (pos 77) (monitor_round 4096 probe both).1)
        ≡ (if true && ltb 40 (25600 * 4096 / (1024 * 1024)) then 1 else 0))
unfolding find_entry_locked process_exists
round_enforces_limits_example =
    round_enforces_limits 4096 probe both first (pos 77) 25600 both-Distinct refl refl refl
      (omega arith)

round_kills_only_over_example :
    (e : MonitorEntry) × (find_entry_locked (pos 77) both ≡ some e)
    × (e.hard_limit < (get_process_rss_mib 4096 (probe (pos 77)).at_rss).1)
round_kills_only_over_example =
    round_kills_only_over 4096 probe both (pos 77) both-Distinct
      (omega (arith, round_enforces_limits_example))

rounds_warn_once_example :
    warnings (about (pos 77) (monitor_rounds 4096 (probe ∷ probe ∷ []) both).1) ≤ 1
unfolding find_entry_locked
rounds_warn_once_example =
    rounds_warn_once 4096 (probe ∷ probe ∷ []) both first (pos 77) both-Distinct refl

abbrev third : MonitorRequest
third = record { pid = pos 79; soft_limit = 1; hard_limit = 2 }

ioctl-Inv_example : Inv (monitor_ioctl true (register_container (some third)) both).0
ioctl-Inv_example = ioctl-Inv true (register_container (some third)) both both-Inv

no_limit_refused :
    (monitor_ioctl true (register_container (some (record third { hard_limit = 0 }))) both).1
    ≡ einval
unfolding monitor_ioctl
no_limit_refused = refl

einval_ne_zero : einval ≢ pos 0
einval_ne_zero e = cc

abbrev loads : InitAnswers
loads = record {
  alloc_chrdev_region = pos 0;
  cdev_add = pos 0;
  class_create = none;
  device_create = none;
  kthread_run = none;
}

-- The class cannot be created.
abbrev class_fails : InitAnswers
class_fails = record loads { class_create = some 11 }

init_all_or_nothing_example : monitor_init class_fails ≡ some ([], negsuc 11)
init_all_or_nothing_example = init_all_or_nothing class_fails

-- Two rounds, with a registration, an unregistration and a command that is not known.
abbrev happenings : List Happening
happenings =
    command true (register_container (some third))
    ∷ round 4096 probe
    ∷ command true (unregister_container (some (pos 78)))
    ∷ round 4096 probe
    ∷ command true unknown
    ∷ []

monitor_refines_example :
    history happenings both (pos 77)
    ≡ map_history happenings (λ p. find_entry_locked p both) (pos 77)
monitor_refines_example = monitor_refines happenings both (pos 77) both-Inv

-- A registration and an unregistration of different processes.
abbrev registers : Command
registers = register_container (some third)

abbrev unregisters : Command
unregisters = unregister_container (some (pos 77))

abbrev both_unordered : Unordered
both_unordered = Quot.mk (both, both-Inv)

registers-Apart : Apart registers unregisters
registers-Apart pid own other = absurd (ground arith)

commands_commute_example :
    (perform true registers (perform true unregisters both_unordered)
      ≡ perform true unregisters (perform true registers both_unordered))
    × (code_of true registers (perform true unregisters both_unordered)
        ≡ code_of true registers both_unordered)
    × (code_of true unregisters (perform true registers both_unordered)
        ≡ code_of true unregisters both_unordered)
commands_commute_example =
    commands_commute true true registers unregisters both_unordered registers-Apart
