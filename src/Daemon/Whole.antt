-- ===== src/Daemon/Whole.antt =====
-- `run_supervisor` as a whole: what a set-up that fails leaves, and that a supervisor that is set
-- up serves until a signal and then ends.
use os_jackfruit.Prelude.{
  ◌⊎◌, ◌≡◌, Bool, true, false, not, ◌&&◌, [], ◌∷◌, none, some, pos, is_negative, if◌then◌else◌,
  arith, refl,
}
use os_jackfruit.Daemon.{SetupAnswers, Finished, Life, set_up, initial_daemon, run_supervisor}
use os_jackfruit.Daemon.Accept.{any_signal, loop_ends_on_signal}

abbrev pub all_granted : SetupAnswers → Bool
all_granted a = not (is_negative a.socket) && (a.bind_ok && a.listen_ok)

set_up_lem :
    (a : SetupAnswers) (left_over : Bool)
    → let (d, ok) = set_up a (initial_daemon left_over) in
      (ok ≡ all_granted a) × (d.supervisor_running ≡ true)
unfolding set_up initial_daemon
set_up_lem a left_over = ground arith

-- The last `unlink` of a set-up that fails.
abbrev pub last_unlink : SetupAnswers → Bool
last_unlink a = if is_negative a.socket then a.unlink_ok else a.unlink_again_ok

-- When the set-up fails, the supervisor returns 1 at once; the socket is closed if it was opened,
-- and no path of it is left, not even an older one, unless the last `unlink` failed. In that case
-- a path is left only if there was an older one that could not be removed at first either, or the
-- socket had been bound.
pub failed_set_up :
    (a : Life) (left_over : Bool)
    → all_granted a.setup ≡ false
    → (f : Finished) × (run_supervisor a left_over ≡ some f)
      × (f.code ≡ pos 1)
      × (f.daemon.closed ≡ (if is_negative a.setup.socket then [] else a.setup.socket ∷ []))
      × ((f.daemon.path_exists ≡ false) ⊎ (last_unlink a.setup ≡ false))
      × ((f.daemon.path_exists ≡ false)
          ⊎ ((left_over ≡ true) × (a.setup.unlink_ok ≡ false))
          ⊎ ((is_negative a.setup.socket ≡ false) × (a.setup.bind_ok ≡ true)))
unfolding run_supervisor
failed_set_up a left_over h = (
  record {
    code = pos 1;
    stopped_pids = [];
    files = a.end.files;
    world = a.world;
    daemon = (set_up a.setup (initial_daemon left_over)).0;
  },
  ground arith,
  refl,
  ground arith,
  ground arith,
  ground arith,
)

-- A supervisor that is set up runs as long as no signal comes.
pub serves_until_signal :
    (a : Life) (left_over : Bool)
    → all_granted a.setup ≡ true
    → any_signal a.rounds ≡ false
    → run_supervisor a left_over ≡ none
unfolding run_supervisor
serves_until_signal a left_over h quiet = ground (
  arith,
  set_up_lem a.setup left_over,
  loop_ends_on_signal a.rounds (set_up a.setup (initial_daemon left_over)).0,
)
