-- ===== src/Daemon/Tests.antt =====
-- A supervisor that serves one client, is told to end, and ends.
use os_jackfruit.Prelude.{
  ◌⊎◌, codes, zero, suc, ◌+◌, ◌<◌, ◌≡◌, true, false, List, [], ◌∷◌, Option, str_eq, some, none, pos,
  get_elem?, is_negative, arith, refl, inl,
}
use os_jackfruit.Containers.{Container, is_live_state, stopped}
use os_jackfruit.LogBuffer.{LogBuffer, log_buffer_init, log_buffer_push}
use os_jackfruit.LogBuffer.Inv.{IsValid, init-IsValid, push-IsValid}
use os_jackfruit.Logging.{make_entry}
use os_jackfruit.Start.{World, fill_slot, commit}
use os_jackfruit.Lifecycle.{signaled}
use os_jackfruit.Supervisor.{WaitResult, reaped, no_child}
use os_jackfruit.LogBuffer.{log_chunk_size}
use os_jackfruit.Daemon.{
  SetupAnswers, EndAnswers, Daemon, Round, connection, interrupted, accept_loop, Finished,
  shut_down, Life, run_supervisor,
}
use os_jackfruit.Daemon.Connections.{count_fd, taken, each_connection_once}
use os_jackfruit.Daemon.Reaping.{Only}
use os_jackfruit.Daemon.Shutdown.{shut_down_stops, shut_down_completes}
use os_jackfruit.Daemon.Whole.{last_unlink, failed_set_up}
use os_jackfruit.Samples.{alpha_running, working_device}

abbrev listening : Daemon
listening = record {
  supervisor_running = true;
  server_socket_fd = pos 3;
  path_exists = true;
  closed = [];
  handed_over = [];
}

abbrev client : Round
client = record {
  signal_first = false;
  result = connection (pos 5) true true;
  signal_after = false;
}

-- A client for whom no thread can be made.
abbrev refused_client : Round
refused_client = record client { result = connection (pos 6) true false }

abbrev signal : Round
signal = record { signal_first = true; result = interrupted; signal_after = false }

abbrev rounds : List Round
rounds = client ∷ refused_client ∷ signal ∷ client ∷ []

each_connection_once_example :
    count_fd (pos 6) (accept_loop rounds listening).0.handed_over
      + count_fd (pos 6) (accept_loop rounds listening).0.closed
    ≡ 0 + 0 + count_fd (pos 6) (taken rounds)
each_connection_once_example = each_connection_once rounds listening (pos 6) refl (λ e. cc) refl

abbrev only_alpha : World
only_alpha = record { table = alpha_running ∷ []; tracked = [] }

abbrev waits : List WaitResult
waits = reaped (pos 77) (signaled 15) working_device ∷ no_child false ∷ []

abbrev one_stored : LogBuffer
one_stored = (log_buffer_push log_buffer_init (make_entry (pos 0) (codes "bye"))).0

one_stored-IsValid : IsValid one_stored
one_stored-IsValid = push-IsValid log_buffer_init (make_entry (pos 0) (codes "bye")) init-IsValid

-- Every log file opens, and every write takes up to a chunk.
abbrev end : EndAnswers
end = record {
  meets = λ n. record {
    table = only_alpha.table;
    answer = record { open_ok = true; written = log_chunk_size };
  };
  files = λ path. [];
  unlink_ok = true;
}

abbrev good_setup : SetupAnswers
good_setup = record {
  socket = pos 3;
  bind_ok = true;
  listen_ok = true;
  unlink_ok = true;
  unlink_again_ok = true;
}

abbrev life : Life
life = record {
  setup = good_setup;
  rounds = rounds;
  fuel = 2;
  end = end;
  waits = waits;
  buffer = one_stored;
  world = only_alpha;
}

small : one_stored.count < 2
unfolding log_buffer_push log_buffer_init
small = omega arith

abbrev no_listen : Life
no_listen = record life { setup = record good_setup { listen_ok = false } }

failed_set_up_example :
    (f : Finished) × (run_supervisor no_listen true ≡ some f)
    × (f.code ≡ pos 1)
    × (f.daemon.closed ≡ pos 3 ∷ [])
    × ((f.daemon.path_exists ≡ false) ⊎ (last_unlink no_listen.setup ≡ false))
    × ((f.daemon.path_exists ≡ false)
        ⊎ ((true ≡ true) × (no_listen.setup.unlink_ok ≡ false))
        ⊎ ((is_negative no_listen.setup.socket ≡ false) × (no_listen.setup.bind_ok ≡ true)))
failed_set_up_example = failed_set_up no_listen true refl

abbrev fallback : Finished
fallback = record {
  code = pos 1;
  stopped_pids = [];
  files = end.files;
  world = only_alpha;
  daemon = listening;
}

abbrev result_of : Option Finished → Finished
result_of none = fallback
result_of (some f) = f

some_result : (o : Option Finished) (f : Finished) → o ≡ some f → o ≡ some (result_of o)
some_result none f e = absurd cc
some_result (some g) f e = refl

-- What the shutdown of the listening supervisor leaves.
abbrev finished : Finished
finished = result_of (shut_down 2 end waits one_stored only_alpha listening)

finishes : shut_down 2 end waits one_stored only_alpha listening ≡ some finished
finishes =
    let (f, done, code, files, path, socket) =
      shut_down_completes 2 end (reaped (pos 77) (signaled 15) working_device ∷ []) [] one_stored
        only_alpha listening one_stored-IsValid small in
    some_result (shut_down 2 end waits one_stored only_alpha listening) f done

alpha_Only : Only only_alpha.table 0 (pos 77)
alpha_Only zero c at u same = refl
alpha_Only (suc k) c at u same = absurd cc

shut_down_stops_example :
    (0 < count_fd (pos 77) finished.stopped_pids)
    × ((e : Container) × (get_elem? finished.world.table 0 ≡ some e) × (e.state ≡ stopped))
unfolding commit fill_slot is_live_state str_eq
shut_down_stops_example =
    shut_down_stops 2 end waits one_stored only_alpha listening finished 0 alpha_running finishes
      refl refl refl alpha_Only (inl refl)
