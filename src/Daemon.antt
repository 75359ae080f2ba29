-- ===== src/Daemon.antt =====
-- The supervisor process (engine.c): `run_supervisor` with its set-up, its accept loop and its
-- shutdown, and `supervisor_signal_handler`. What the other threads do meanwhile is in Lifecycle.
pub mod Accept
pub mod Connections
pub mod Reaping
pub mod Stopping
pub mod Shutdown
pub mod Whole
mod Tests
use os_jackfruit.Prelude.{
  ◌&&◌, ℕ, Bool, true, false, not, List, [], ◌∷◌, Option, none, some, ℤ, pos, minus_one,
  is_negative, if◌then◌else◌,
}
use os_jackfruit.LogBuffer.{LogEntry, LogBuffer, log_buffer_shutdown}
use os_jackfruit.LogBuffer.History.{drain}
use os_jackfruit.Logging.{Meeting, FileSystem, consume_all}
use os_jackfruit.Start.{World}
use os_jackfruit.Lifecycle.{stop_all_live_containers}
use os_jackfruit.Supervisor.{WaitResult, reaper_main}

-- The main thread: the two globals that the signal handler shares with it, whether the path of
-- the control socket exists, and what became of descriptors, the last one first.
pub record Daemon : Type 0 where
  pub supervisor_running : Bool
  pub server_socket_fd : ℤ
  pub path_exists : Bool
  pub closed : List ℤ
  pub handed_over : List ℤ

-- The globals as the process starts; a socket path may be left over.
unfoldable pub initial_daemon : Bool → Daemon
initial_daemon left_over = record {
  supervisor_running = true;
  server_socket_fd = minus_one;
  path_exists = left_over;
  closed = [];
  handed_over = [];
}

abbrev pub close_fd : ℤ → Daemon → Daemon
close_fd fd d = record d { closed = fd ∷ d.closed }

-- The end of the listening socket, if it is open: in the handler and at the end.
unfoldable pub close_server : Daemon → Daemon
close_server d =
    if is_negative d.server_socket_fd
    then d
    else record (close_fd d.server_socket_fd d) { server_socket_fd = minus_one }

unfoldable pub supervisor_signal_handler : Daemon → Daemon
unfolding close_server
supervisor_signal_handler d = close_server (record d { supervisor_running = false })

-- unlink of the socket's path: a failure leaves it there, and is ignored.
abbrev pub unlink_path : Bool → Daemon → Daemon
unlink_path ok d = record d { path_exists = d.path_exists && not ok }

-- What `socket`, `bind` and `listen` come to, with the `unlink` before them and the one after a
-- failure of the last two.
pub record SetupAnswers : Type 0 where
  pub socket : ℤ
  pub bind_ok : Bool
  pub listen_ok : Bool
  pub unlink_ok : Bool
  pub unlink_again_ok : Bool

-- A step of the set-up failed: the socket is closed and its path removed, if that succeeds.
abbrev give_up : Bool → Daemon → Daemon
give_up unlink_ok d = unlink_path unlink_ok (close_fd d.server_socket_fd d)

-- From the removal of the old path to `listen`; the flag says whether the loop is reached.
unfoldable pub set_up : SetupAnswers → Daemon → Daemon × Bool
set_up a d =
    let opened : Daemon = record (unlink_path a.unlink_ok d) { server_socket_fd = a.socket } in
    let bound : Daemon = record opened { path_exists = true } in
    if is_negative a.socket
    then (opened, false)
    else if not a.bind_ok
    then (give_up a.unlink_again_ok opened, false)
    else if not a.listen_ok
    then (give_up a.unlink_again_ok bound, false)
    else (bound, true)

-- What one `accept` comes to; for a connection, whether `malloc` and `pthread_create` succeed.
pub data AcceptResult : Type 0 where
  connection : ℤ → Bool → Bool → AcceptResult
  interrupted failed : AcceptResult

-- One round of the loop: its `accept`, and whether a signal is handled between the test of the
-- loop and the return of `accept`, and between that and the next test.
pub record Round : Type 0 where
  pub signal_first : Bool
  pub result : AcceptResult
  pub signal_after : Bool

abbrev pub signalled : Bool → Daemon → Daemon
signalled signal d = if signal then supervisor_signal_handler d else d

-- A connection is handed to a thread, or closed.
unfoldable pub serve : AcceptResult → Daemon → Daemon
serve (connection fd malloc_ok thread_ok) d =
    if not malloc_ok
    then close_fd fd d
    else if thread_ok
    then record d { handed_over = fd ∷ d.handed_over }
    else close_fd fd d
serve interrupted d = d
serve failed d = d

abbrev is_error : AcceptResult → Bool
is_error (connection fd malloc_ok thread_ok) = false
is_error interrupted = true
is_error failed = true

-- The body of the loop after the return of `accept`; the flag is its `break`.
unfoldable pub accept_round : AcceptResult → Daemon → Daemon × Bool
unfolding serve
accept_round result d =
    if is_error result
    then if not d.supervisor_running then (d, true) else (d, false)
    else (serve result d, false)

-- The loop, and whether it has ended; otherwise it waits in `accept`.
unfoldable pub accept_loop : List Round → Daemon → Daemon × Bool
accept_loop [] d = (d, not d.supervisor_running)
accept_loop (r ∷ rounds) d =
    let (served, breaks) = accept_round r.result (signalled r.signal_first d) in
    let rest = accept_loop rounds (signalled r.signal_after served) in
    if not d.supervisor_running then (d, true) else if breaks then (served, true) else rest

-- What the end meets: what the consumer thread finds for each entry that it still takes, the log
-- files by then, and whether the last `unlink` succeeds.
pub record EndAnswers : Type 0 where
  pub meets : ℕ → Meeting
  pub files : FileSystem
  pub unlink_ok : Bool

-- What the main thread leaves when it returns: the exit code, the pids that it sent SIGTERM, the
-- log files after the consumer thread, and the rest of the state.
pub record Finished : Type 0 where
  pub code : ℤ
  pub stopped_pids : List ℤ
  pub files : FileSystem
  pub world : World
  pub daemon : Daemon

-- After the loop: containers are stopped, the log buffer is shut down, and the consumer, which
-- writes what is left of it, and the reaper are joined. The buffer, the files and the world are
-- those that the other threads have left by then; `none`: a thread that is joined has not ended.
unfoldable pub shut_down :
    ℕ → EndAnswers → List WaitResult → LogBuffer → World → Daemon → Option Finished
unfolding close_server
shut_down fuel a waits b w d =
    let (table, pids) = stop_all_live_containers w.table in
    let (after, reaper_ended) = reaper_main waits (record w { table = table }) in
    elim (drain fuel (log_buffer_shutdown b)) [
      | none ↦ none
      | some entries ↦
          if not reaper_ended
          then none
          else some record {
            code = pos 0;
            stopped_pids = pids;
            files = consume_all a.files a.meets 0 entries;
            world = after;
            daemon =
                unlink_path a.unlink_ok (close_server (record d { supervisor_running = false }));
          }
    ]

-- What the process meets from its start to its end.
pub record Life : Type 0 where
  pub setup : SetupAnswers
  pub rounds : List Round
  pub fuel : ℕ
  pub end : EndAnswers
  pub waits : List WaitResult
  pub buffer : LogBuffer
  pub world : World

-- `none`: it is still running. A set-up that fails returns 1 at once.
unfoldable pub run_supervisor : Life → Bool → Option Finished
unfolding set_up shut_down initial_daemon
run_supervisor a left_over =
    let (ready, ok) = set_up a.setup (initial_daemon left_over) in
    let (d, ended) = accept_loop a.rounds ready in
    if not ok
    then some record {
      code = pos 1;
      stopped_pids = [];
      files = a.end.files;
      world = a.world;
      daemon = ready;
    }
    else if not ended
    then none
    else shut_down a.fuel a.end a.waits a.buffer a.world d
