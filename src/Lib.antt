-- ===== src/Lib.antt =====
-- A model of OS-Jackfruit, a small container runtime: a supervisor with a command line
-- (engine.c) and a Linux kernel module that enforces memory limits (monitor.c, monitor_ioctl.h).
--
-- The command line turns its arguments into a request (Cli), which goes through a socket (Wire) to
-- the supervisor. A thread of the supervisor serves it (Supervisor): it starts a container (Start),
-- stops one (Lifecycle), or answers with the list of containers or a log (Report). The containers
-- are the slots of one table under a mutex (Containers). What a container writes goes through the
-- bounded log buffer (LogBuffer) to its log file (Logging). The reaper thread records the end of
-- each child (Lifecycle, Supervisor). A start hands the child's pid and limits to the kernel module,
-- and the reaper takes them back (KernelLink); the module looks at the tracked processes once a
-- second, warns and kills (Monitor).
--
-- The supervisor's main thread sets up the socket, hands each connection to a thread of its own
-- until a signal comes, then stops all containers, closes the log buffer and waits for the other
-- threads (Daemon). The first process of a container enters its root and runs its command (Child);
-- three small programs are there to be such commands (Workloads).
--
-- Prelude     shared names: Boolean tests, lists, signed integers, C strings
-- Protocol    engine.c: request_t, response_t, safe_strcpy, init_response, set_response
-- Containers  engine.c: container_t, is_live_state, the find_* searches, rootfs_in_use_locked
-- LogBuffer   engine.c: log_buffer_init, _push, _pop, _shutdown with their condition variables
-- Monitor     monitor.c: the list, monitor_ioctl, monitor_thread_fn; Monitor/Device: monitor_init
--             and monitor_exit
-- KernelLink  engine.c: register_container_with_kernel, unregister_container_from_kernel
-- Start       engine.c: start_container_internal
-- Lifecycle   engine.c: the critical sections of reaper_main, stop_container_by_id and
--             stop_all_live_containers; Lifecycle/Steps: every interleaving of the threads;
--             Lifecycle/Phases, Lifecycle/Moves: the state machine of one container
-- Report      engine.c: build_ps_output, build_logs_output
-- Logging     engine.c: log_producer_main, log_consumer_main
-- Wire        engine.c: send_all, recv_all; Wire/Client: connect_to_supervisor and
--             send_request_to_supervisor
-- Cli         engine.c: init_request_defaults, parse_optional_flags, main
-- Supervisor  engine.c: client_handler_main, reaper_main
-- Daemon      engine.c: run_supervisor, supervisor_signal_handler
-- Child       engine.c: child_main
-- Workloads   memory_hog.c, cpu_hog.c, io_pulse.c
-- Starter     boilerplate/: the unfinished template that the program was developed from. Numbers:
--             the conversions of its arguments; Options, Commands, Dispatch, Buffer, Stubs:
--             engine.c; Device: monitor.c and the calls of it in engine.c; Programs: the
--             workloads
-- Samples     concrete requests and worlds for the tests
--
-- State is passed explicitly: each function takes the table, the buffer or the list and returns it
-- with the result of the call. What is done under a mutex is one step; a call that waits on a
-- condition variable returns `none` and runs again when it is woken. What the system answers
-- (pipes, memory, clone, waitpid, read, write, the kernel's view of a process) is an argument of the
-- function that asks. Numbers are natural numbers with the wrap-around of `unsigned long` and
-- `size_t` written out; strings are the bytes before the NUL, and an array cuts them.
--
-- The consumer's loop runs on fuel, and one round more than the entries stored is enough. Decimal
-- texts have fuel for 20 digits, which hold every 64-bit value. Loops over system calls run over the
-- list of their results.
--
-- The threads use the log buffer through an interface of operations and laws (LogBuffer/Interface).
-- Two abstractions forget the representation of the kernel module's list: a map from pids to entries
-- (Monitor/Spec), and the quotient of the lists by what they track (Monitor/Unordered).
--
-- Fuel also runs the loops of memory_hog (a round for each page, and one more) and of the starter's
-- logs (more than the bytes of the file).
--
-- Not modelled: format_time_string, which stands for the C library and is an argument; print_usage
-- and what else only prints a message; the mkdir of the log directory; monitor_open and
-- monitor_release, which do nothing, and logging_thread of boilerplate/engine.c, which returns at
-- once; and the scripts and documents. A signal of the supervisor's main thread may come anywhere in
-- a round of its loop, but not while its set-up or its shutdown runs.
pub mod Prelude
pub mod Protocol
pub mod Containers
pub mod LogBuffer
pub mod Monitor
pub mod KernelLink
pub mod Start
pub mod Lifecycle
pub mod Report
pub mod Logging
pub mod Wire
pub mod Cli
pub mod Supervisor
pub mod Daemon
pub mod Child
pub mod Workloads
pub mod Starter
pub mod Samples
