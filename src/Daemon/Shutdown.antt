-- ===== src/Daemon/Shutdown.antt =====
-- The end of `run_supervisor`: that it comes, and what it leaves of the containers.
use os_jackfruit.Prelude.{
  ◌≢◌, ◌⊎◌, CString, [], ℕ, ◌<◌, ◌≡◌, true, false, List, ◌∷◌, ◌++◌, some, pos, is_negative,
  get_elem?, arith, refl, inl,
}
use os_jackfruit.Containers.{Container, is_live_state, stopped}
use os_jackfruit.LogBuffer.{LogBuffer}
use os_jackfruit.LogBuffer.Inv.{IsValid}
use os_jackfruit.LogBuffer.Refine.{contents}
use os_jackfruit.LogBuffer.History.{drain_shutdown}
use os_jackfruit.Logging.{consume_all}
use os_jackfruit.Logging.Delivery.{routed, consume_all_routes}
use os_jackfruit.Start.{World}
use os_jackfruit.Lifecycle.{stop_all_live_containers}
use os_jackfruit.Supervisor.{WaitResult, no_child, reaper_main}
use os_jackfruit.Daemon.{unlink_path, EndAnswers, Daemon, Finished, shut_down, close_server}
use os_jackfruit.Daemon.Connections.{count_fd}
use os_jackfruit.Daemon.Stopping.{stop_all-Asked, stop_all_signals}
use os_jackfruit.Daemon.Reaping.{reaper_ends, Reported, Only, reaper-Asked}

-- The shutdown comes to its end when the reaper meets an ECHILD, whatever it is told before: it
-- returns 0, the listening socket is closed, its path is gone unless `unlink` failed, and each log
-- file has what the writes took of the entries that were still in the buffer and were its own, in
-- order.
pub shut_down_completes :
    (fuel : ℕ) (a : EndAnswers) (before later : List WaitResult) (b : LogBuffer) (w : World)
    (d : Daemon)
    → IsValid b
    → b.count < fuel
    → (f : Finished) × (shut_down fuel a (before ++ no_child false ∷ later) b w d ≡ some f)
      × (f.code ≡ pos 0)
      × ((path : CString)
          → path ≢ []
          → f.files path ≡ a.files path ++ routed path a.meets 0 (contents b))
      × ((f.daemon.path_exists ≡ false) ⊎ (a.unlink_ok ≡ false))
      × (is_negative f.daemon.server_socket_fd ≡ true)
unfolding shut_down close_server
shut_down_completes fuel a before later b w d v enough =
    let (table, pids) = stop_all_live_containers w.table in
    let drained = drain_shutdown b fuel v enough in
    let ended = reaper_ends before later (record w { table = table }) in
    (
      record {
        code = pos 0;
        stopped_pids = pids;
        files = consume_all a.files a.meets 0 (contents b);
        world = (reaper_main (before ++ no_child false ∷ later) (record w { table = table })).0;
        daemon = unlink_path a.unlink_ok (close_server (record d { supervisor_running = false }));
      },
      rw (shut_down, drained, ended) refl,
      refl,
      λ path named. consume_all_routes a.files a.meets 0 (contents b) path named,
      unlinked (close_server (record d { supervisor_running = false })),
      closes d,
    )
  where
    unlinked :
        (x : Daemon) → ((unlink_path a.unlink_ok x).path_exists ≡ false) ⊎ (a.unlink_ok ≡ false)
    unlinked x = ground arith

    closes :
        (x : Daemon)
        → is_negative (close_server (record x { supervisor_running = false })).server_socket_fd
          ≡ true
    closes x = ground arith

-- A shutdown that ended, with the reaper told of a container that was live and whose pid no
-- other used slot has, has sent SIGTERM to that pid, and the container's slot is STOPPED.
pub shut_down_stops :
    (fuel : ℕ) (a : EndAnswers) (waits : List WaitResult) (b : LogBuffer) (w : World) (d : Daemon)
    (f : Finished) (i : ℕ) (c : Container)
    → shut_down fuel a waits b w d ≡ some f
    → get_elem? w.table i ≡ some c
    → c.used ≡ true
    → is_live_state c.state ≡ true
    → Only w.table i c.pid
    → Reported c.pid waits
    → (0 < count_fd c.pid f.stopped_pids)
      × ((e : Container) × (get_elem? f.world.table i ≡ some e) × (e.state ≡ stopped))
unfolding shut_down
shut_down_stops fuel a waits b w d f i c ended at u live only told =
    let after : World = record w { table = (stop_all_live_containers w.table).0 } in
    let (e, there, is) =
      reaper-Asked waits after i c.pid (stop_all-Asked w.table i c at u live only) (inl told) in
    (ground (arith, stop_all_signals w.table i c at u live), (e, ground arith, is))
