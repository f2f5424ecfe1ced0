-- ===== src/Services/JobQueue.antt =====
-- A BullMQ queue of delayed jobs with ids: adding a job under an id that is taken changes nothing.
use ticket_queue_platform.Prelude.{ℕ, or_else, ◌≡◌, Option, none, some, ◌==◌, if◌then◌else◌}

-- A delayed job: its payload and its delay in milliseconds.
pub record Job (Payload : Type 0) : Type 0 where
  pub payload : Payload
  pub delay : ℕ

pub record JobQueue (Payload : Type 0) : Type 1 where
  pub Jobs : Type 0
  pub get_job : ℕ → Jobs → Option (Job Payload)
  pub add : ℕ → Job Payload → Jobs → Jobs
  pub remove : ℕ → Jobs → Jobs
  pub get_job-add :
      (i j : ℕ) (x : Job Payload) (q : Jobs)
      → get_job j (add i x q) ≡ (if i == j then some (or_else (get_job j q) x) else get_job j q)
  pub get_job-remove :
      (i j : ℕ) (q : Jobs) → get_job j (remove i q) ≡ (if i == j then none else get_job j q)
