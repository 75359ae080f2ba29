-- ===== src/Lifecycle/FullTests.antt =====
-- Ten containers that were started and have ended: a full table with no live container.
use os_jackfruit.Prelude.{
  ℕ, zero, suc, ◌+◌, ◌-◌, ◌<◌, ◌≡◌, ◌≢◌, ◌++◌, [], ◌∷◌, some, pos, CString, get_elem?, replicate,
  str_eq, arith, refl, subst, ap, ◌∙◌,
}
use os_jackfruit.Protocol.{Request, Fits}
use os_jackfruit.Containers.{
  Container, Table, max_containers, empty_slot, update_slot, is_live_state, init_containers,
  find_slot, find_container_by_id_locked, find_free_container_slot_locked, rootfs_in_use_locked,
}
use os_jackfruit.Monitor.{monitor_ioctl, remove_entry_locked}
use os_jackfruit.KernelLink.{unregister_container_from_kernel}
use os_jackfruit.Start.{World, fill_slot, commit, reserve, start_container_internal}
use os_jackfruit.Lifecycle.{exited_with, reap, reap_slot}
use os_jackfruit.Lifecycle.Steps.{Run, here, next, initial, reserves, commits, reaps}
use os_jackfruit.Lifecycle.Ended.{EndedAt, ended_table_refuses}
use os_jackfruit.Samples.{alpha_request, working_device, granted}

abbrev id_of : ℕ → CString
id_of n = (97 + n) ∷ []

abbrev request : ℕ → Request
request n = record alpha_request { id = id_of n; rootfs = id_of n }

request-Fits : (n : ℕ) → Fits (request n)
request-Fits n = record {
  id_fits = omega arith;
  rootfs_fits = omega arith;
  command_fits = omega arith;
}

abbrev starting_slot : ℕ → Container
starting_slot n = fill_slot 100 (request n) empty_slot

abbrev ended_slot : ℕ → Container
ended_slot n = reap_slot (exited_with 0) (commit (pos (n + 10)) 4096 (starting_slot n))

abbrev ended_from : ℕ → ℕ → Table
ended_from zero i = []
ended_from (suc n) i = ended_slot i ∷ ended_from n (i + 1)

-- The first containers have ended.
abbrev world : ℕ → World
world n = record { table = ended_from n 0 ++ replicate (10 - n) empty_slot; tracked = [] }

-- One more container starts and ends.
abbrev reserved : ℕ → World → World
reserved n w = record w { table = (reserve 100 (request n) w.table).0 }

abbrev committed : ℕ → World → World
committed n w = record w { table = update_slot w.table n (commit (pos (n + 10)) 4096) }

abbrev reaped : ℕ → World → World
reaped n w = reap working_device (pos (n + 10)) (exited_with 0) w

one_more :
    (n : ℕ)
    → get_elem? (reserved n (world n)).table n ≡ some (starting_slot n)
    → reaped n (committed n (reserved n (world n))) ≡ world (suc n)
    → Run initial (world n)
    → Run initial (world (suc n))
unfolding fill_slot
one_more n at is r =
    let reserving = next r (reserves 100 (request n) (request-Fits n)) in
    let running =
      next reserving
        (commits n (pos (n + 10)) 4096 (starting_slot n) at refl refl (ground arith)) in
    subst (Run initial) is (next running (reaps working_device (pos (n + 10)) (exited_with 0)))

full-Run : Run initial (world 10)
unfolding reserve init_containers find_container_by_id_locked find_free_container_slot_locked
    rootfs_in_use_locked find_slot update_slot reap commit fill_slot reap_slot is_live_state str_eq
    unregister_container_from_kernel monitor_ioctl remove_entry_locked
full-Run = one_more 9 refl refl (
    one_more 8 refl refl (
      one_more 7 refl refl (
        one_more 6 refl refl (
          one_more 5 refl refl (
            one_more 4 refl refl (
              one_more 3 refl refl
                (one_more 2 refl refl (one_more 1 refl refl (one_more 0 refl refl here)))))))))

ended_at :
    (i : ℕ)
    → get_elem? (world 10).table i ≡ some (ended_slot i)
    → EndedAt (world 10).table i (id_of i)
unfolding reap_slot commit fill_slot is_live_state str_eq
ended_at i there = record {
  slot = ended_slot i;
  there = there;
  ended = (refl, refl);
  same_id = refl;
}

ended_from-at :
    (n k i : ℕ) (rest : Table)
    → i < n
    → get_elem? (ended_from n k ++ rest) i ≡ some (ended_slot (k + i))
ended_from-at zero k i rest lt = absurd (omega arith)
ended_from-at (suc n) k zero rest lt =
    let same : k ≡ k + 0 = omega arith in ap (λ m. some (ended_slot m)) same
ended_from-at (suc n) k (suc i) rest lt =
    let same : k + 1 + i ≡ k + suc i = omega arith in
    ended_from-at n (k + 1) i rest (omega arith) ∙ ap (λ m. some (ended_slot m)) same

all_ended : (i : ℕ) → i < max_containers → EndedAt (world 10).table i (id_of i)
all_ended i lt =
    let same : 0 + i ≡ i = omega arith in
    ended_at i (ended_from-at 10 0 i [] lt ∙ ap (λ m. some (ended_slot m)) same)

ended_table_refuses_example :
    (start_container_internal granted alpha_request (world 10)).1.code ≢ pos 0
ended_table_refuses_example =
    ended_table_refuses full-Run here id_of granted alpha_request all_ended
