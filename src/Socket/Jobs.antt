-- ===== src/Socket/Jobs.antt =====
-- src/queues/workers/queue.worker.ts: the job that admits every five seconds, and the delayed jobs of
-- disconnects.
use ticket_queue_platform.Prelude.{ℕ, some, [], ◌∷◌, ◌++◌, Action, ◌>>=◌, pure, try_catch, for_each}
use ticket_queue_platform.Schema.{on_sale}
use ticket_queue_platform.Platform.{Platform, World, command}
use ticket_queue_platform.Concert.Repository.{find_all_concerts}
use ticket_queue_platform.Queue.Service.{admit_next_user, expire_disconnect}

module _ {p : Platform} where
  -- the handler of the admission worker
  unfoldable pub process_admission : Action (World p) (Unit {0})
  process_admission = do
    concerts ← find_all_concerts (some on_sale)
    for_each (λ concert. admit_next_user concert.0) concerts

  -- the handler of the disconnect worker
  unfoldable pub process_disconnect : ℕ × ℕ → Action (World p) (Unit {0})
  process_disconnect (concert_id, user_id) = expire_disconnect concert_id user_id

  -- Nothing waits for the call, and a failure of it is only logged.
  unfoldable pub schedule_disconnect_job : ℕ → ℕ → Action (World p) (Unit {0})
  schedule_disconnect_job concert_id user_id =
      try_catch
        (command (λ w. record w { disconnects = w.disconnects ++ (concert_id, user_id) ∷ [] }))
        (λ e. pure tt)
