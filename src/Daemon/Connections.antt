-- ===== src/Daemon/Connections.antt =====
-- What becomes of each connection that the accept loop takes.
use os_jackfruit.Prelude.{
  append-nil, ◌∙◌, ℕ, ◌+◌, ◌≡◌, ◌≢◌, ◌⊎◌, Bool, true, false, ◌||◌, List, [], ◌∷◌, ◌++◌, ℤ,
  is_negative, eq_ℤ, eq_ℤ_iff, if◌then◌else◌, arith, inl, inr,
}
use os_jackfruit.Daemon.{
  Daemon, Round, AcceptResult, connection, interrupted, failed, signalled,
  supervisor_signal_handler, serve, accept_loop,
}
use os_jackfruit.Daemon.Accept.{
  handler_lem, serve_lem, quiet_round, last_state, signal_round, signal_cases,
}

abbrev own_connection : AcceptResult → List ℤ
own_connection (connection fd malloc_ok thread_ok) = fd ∷ []
own_connection interrupted = []
own_connection failed = []

-- The connections of the rounds up to the first one in which a signal is handled.
abbrev pub taken : List Round → List ℤ
taken [] = []
taken (r ∷ rounds) =
    own_connection r.result ++ (if r.signal_first || r.signal_after then [] else taken rounds)

-- How often a descriptor stands in a list.
abbrev pub count_fd : ℤ → List ℤ → ℕ
count_fd fd [] = 0
count_fd fd (x ∷ xs) = if eq_ℤ x fd then count_fd fd xs + 1 else count_fd fd xs

serve-count :
    (result : AcceptResult) (d : Daemon) (fd : ℤ)
    → let after = serve result d in
      count_fd fd after.handed_over + count_fd fd after.closed
      ≡ count_fd fd d.handed_over + count_fd fd d.closed + count_fd fd (own_connection result)
unfolding serve
serve-count (connection x malloc_ok thread_ok) d fd = ground arith
serve-count interrupted d fd = omega arith
serve-count failed d fd = omega arith

signalled-count :
    (signal : Bool) (d : Daemon) (fd : ℤ)
    → fd ≢ d.server_socket_fd
    → let after = signalled signal d in
      count_fd fd after.handed_over + count_fd fd after.closed
      ≡ count_fd fd d.handed_over + count_fd fd d.closed
unfolding supervisor_signal_handler
signalled-count signal d fd n = ground (arith, eq_ℤ_iff d.server_socket_fd fd)

last_state-count :
    (r : Round) (d : Daemon) (fd : ℤ)
    → fd ≢ d.server_socket_fd
    → is_negative fd ≡ false
    → let after = last_state r d in
      count_fd fd after.handed_over + count_fd fd after.closed
      ≡ count_fd fd d.handed_over + count_fd fd d.closed + count_fd fd (own_connection r.result)
last_state-count r d fd n v =
    let first = signalled r.signal_first d in
    let still : fd ≢ (serve r.result first).server_socket_fd =
      λ e. ground (arith, handler_lem d, serve_lem r.result first) in
    omega (
      arith,
      signalled-count r.signal_after (serve r.result first) fd still,
      serve-count r.result first fd,
      signalled-count r.signal_first d fd n,
    )

count_fd-append :
    (fd : ℤ) (xs ys : List ℤ) → count_fd fd (xs ++ ys) ≡ count_fd fd xs + count_fd fd ys
count_fd-append fd [] ys = omega arith
count_fd-append fd (x ∷ xs) ys = ground (arith, count_fd-append fd xs ys)

taken_signal :
    (r : Round) (rounds : List Round)
    → (r.signal_first ≡ true) ⊎ (r.signal_after ≡ true)
    → taken (r ∷ rounds) ≡ own_connection r.result
taken_signal r rounds s = ground (arith, append-nil (own_connection r.result))

-- Every connection that a running supervisor accepts before a signal ends its loop is either
-- handed to a thread or closed, and exactly once.
pub each_connection_once :
    (rounds : List Round) (d : Daemon) (fd : ℤ)
    → d.supervisor_running ≡ true
    → fd ≢ d.server_socket_fd
    → is_negative fd ≡ false
    → let after = (accept_loop rounds d).0 in
      count_fd fd after.handed_over + count_fd fd after.closed
      ≡ count_fd fd d.handed_over + count_fd fd d.closed + count_fd fd (taken rounds)
unfolding accept_loop
each_connection_once [] d fd h n v = ground arith
each_connection_once (r ∷ rounds) d fd h n v = elim (signal_cases r) [
  | inl s ↦ rw (signal_round r rounds d h s, taken_signal r rounds s) (last_state-count r d fd n v)
  | inr (p, q) ↦
      rw (quiet_round r rounds d h p q, p, q)
        (omega (
          arith,
          each_connection_once rounds (serve r.result d) fd ((serve_lem r.result d).0 ∙ h)
              (λ e. n (e ∙ (serve_lem r.result d).1)) v,
          serve-count r.result d fd,
          count_fd-append fd (own_connection r.result) (taken rounds),
        ))
]
