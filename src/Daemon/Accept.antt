-- ===== src/Daemon/Accept.antt =====
-- The accept loop of `run_supervisor`: when it ends, and what it accepts.
use os_jackfruit.Prelude.{
  ◌∙◌, ◌≡◌, ◌⊎◌, Bool, true, false, not, ◌||◌, List, [], ◌∷◌, ◌++◌, is_negative, arith, refl, inl,
  inr,
}
use os_jackfruit.Daemon.{
  Daemon, Round, AcceptResult, connection, interrupted, failed, signalled,
  supervisor_signal_handler, serve, accept_round, accept_loop,
}

-- Whether a signal is handled in one of the rounds.
abbrev pub any_signal : List Round → Bool
any_signal [] = false
any_signal (r ∷ rounds) = r.signal_first || (r.signal_after || any_signal rounds)

-- A loop that was stopped makes no round.
loop_stopped :
    (rounds : List Round) (d : Daemon)
    → d.supervisor_running ≡ false
    → accept_loop rounds d ≡ (d, true)
unfolding accept_loop
loop_stopped [] d h = ground arith
loop_stopped (r ∷ rounds) d h = ground arith

pub handler_lem :
    (d : Daemon)
    → let after = supervisor_signal_handler d in
      (after.supervisor_running ≡ false)
      × (is_negative after.server_socket_fd ≡ true)
      × (after.handed_over ≡ d.handed_over)
      × (supervisor_signal_handler after ≡ after)
unfolding supervisor_signal_handler
handler_lem d = ground arith

pub serve_lem :
    (result : AcceptResult) (d : Daemon)
    → ((serve result d).supervisor_running ≡ d.supervisor_running)
      × ((serve result d).server_socket_fd ≡ d.server_socket_fd)
unfolding serve
serve_lem (connection fd malloc_ok thread_ok) d = ground arith
serve_lem interrupted d = (refl, refl)
serve_lem failed d = (refl, refl)

-- A round without a signal serves its connection, and the loop goes on.
pub quiet_round :
    (r : Round) (rounds : List Round) (d : Daemon)
    → d.supervisor_running ≡ true
    → r.signal_first ≡ false
    → r.signal_after ≡ false
    → accept_loop (r ∷ rounds) d ≡ accept_loop rounds (serve r.result d)
unfolding accept_loop accept_round
quiet_round r rounds d h p q = ground arith

-- What a round with a signal leaves.
abbrev pub last_state : Round → Daemon → Daemon
last_state r d = signalled r.signal_after (serve r.result (signalled r.signal_first d))

pub signal_round :
    (r : Round) (rounds : List Round) (d : Daemon)
    → d.supervisor_running ≡ true
    → (r.signal_first ≡ true) ⊎ (r.signal_after ≡ true)
    → accept_loop (r ∷ rounds) d ≡ (last_state r d, true)
unfolding accept_loop accept_round
signal_round r rounds d h s = ground (
  arith,
  loop_stopped rounds (last_state r d),
  handler_lem d,
  handler_lem (serve r.result d),
  handler_lem (serve r.result (supervisor_signal_handler d)),
  serve_lem r.result d,
  serve_lem r.result (supervisor_signal_handler d),
)

-- Whether a signal is handled in the round.
pub signal_cases :
    (r : Round)
    → ((r.signal_first ≡ true) ⊎ (r.signal_after ≡ true))
      ⊎ ((r.signal_first ≡ false) × (r.signal_after ≡ false))
signal_cases r = ground arith

last_state_lem :
    (r : Round) (d : Daemon)
    → (r.signal_first ≡ true) ⊎ (r.signal_after ≡ true)
    → ((last_state r d).supervisor_running ≡ false)
      × (is_negative (last_state r d).server_socket_fd ≡ true)
last_state_lem r d s = ground (
  arith,
  handler_lem d,
  handler_lem (serve r.result d),
  handler_lem (serve r.result (supervisor_signal_handler d)),
  serve_lem r.result (supervisor_signal_handler d),
)

-- The loop of a running supervisor has ended exactly when a signal was handled in one of its
-- rounds; then the supervisor is no longer running and its listening socket is closed.
pub loop_ends_on_signal :
    (rounds : List Round) (d : Daemon)
    → d.supervisor_running ≡ true
    → let (after, ended) = accept_loop rounds d in
      (ended ≡ any_signal rounds)
      × (after.supervisor_running ≡ not (any_signal rounds))
      × ((any_signal rounds ≡ false) ⊎ (is_negative after.server_socket_fd ≡ true))
unfolding accept_loop
loop_ends_on_signal [] d h = ground arith
loop_ends_on_signal (r ∷ rounds) d h = elim (signal_cases r) [
  | inl s ↦ rw (signal_round r rounds d h s) (ground (arith, last_state_lem r d s))
  | inr (p, q) ↦
      rw (quiet_round r rounds d h p q, p, q)
        (loop_ends_on_signal rounds (serve r.result d) ((serve_lem r.result d).0 ∙ h))
]

-- Nothing that would come after a round in which a signal is handled is accepted any more.
pub signal_ends_accepting :
    (before later : List Round) (r : Round) (d : Daemon)
    → d.supervisor_running ≡ true
    → (r.signal_first ≡ true) ⊎ (r.signal_after ≡ true)
    → (accept_loop (before ++ r ∷ later) d).0 ≡ (accept_loop (before ++ r ∷ []) d).0
signal_ends_accepting [] later r d h s =
    rw (signal_round r later d h s, signal_round r [] d h s) refl
signal_ends_accepting (x ∷ before) later r d h s = elim (signal_cases x) [
  | inl t ↦
      rw (signal_round x (before ++ r ∷ later) d h t, signal_round x (before ++ r ∷ []) d h t) refl
  | inr (p, q) ↦
      rw (quiet_round x (before ++ r ∷ later) d h p q, quiet_round x (before ++ r ∷ []) d h p q)
        (signal_ends_accepting before later r (serve x.result d) ((serve_lem x.result d).0 ∙ h) s)
]
