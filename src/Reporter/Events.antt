-- ===== src/Reporter/Events.antt =====
-- What `Start` makes of the queue that the pacemaker fills: it holds events, not jobs.
use eavesdrop.Prelude.{
  ℕ, zero, suc, ◌-◌, ◌/◌, ◌<◌, ◌≡◌, refl, String, none, some, List, [], ◌∷◌, nat_eq, if◌then◌else◌,
  length, arith, ltb, ltb→lt, ltb-false→le, Bool-cases, inl, inr,
}
use eavesdrop.GoMap.{GoMap}
use eavesdrop.Jobs.DirectRequest.{DirectRequest}
use eavesdrop.Reporter.{max_rounds}
use eavesdrop.Reporter.Lifecycle.{
  QueueItem, event_item, next_jobs, add_jobs, schedule_rounds, schedule_jobs,
}

-- The events as they stand in the queue.
abbrev pub queue_of : List (String × String) → List QueueItem
queue_of [] = []
queue_of ((job_id, event) ∷ es) = event_item job_id event ∷ queue_of es

pub length-queue_of : (es : List (String × String)) → length (queue_of es) ≡ length es
length-queue_of [] = refl
length-queue_of (_ ∷ es) = omega (arith, length-queue_of es)

no_jobs_lem :
    (left i : ℕ) (q : List QueueItem) (m : GoMap ℕ (List DirectRequest))
    → schedule_rounds left i 0 q m ≡ some (m, q)
unfolding schedule_rounds next_jobs add_jobs
no_jobs_lem zero i q m = refl
no_jobs_lem (suc left) i q m = no_jobs_lem left (suc i) q m

next_jobs-queue_of :
    (n : ℕ) (es : List (String × String)) → 0 < n → next_jobs n (queue_of es) ≡ none
unfolding next_jobs
next_jobs-queue_of zero es h = elim h [ ]
next_jobs-queue_of (suc n) [] h = refl
next_jobs-queue_of (suc n) ((_, _) ∷ es) h = refl

panic_lem :
    (left i n : ℕ) (q : List QueueItem) (m : GoMap ℕ (List DirectRequest))
    → next_jobs n q ≡ none
    → schedule_rounds (suc left) i n q m ≡ none
unfolding schedule_rounds
panic_lem left i n q m e = ground arith

-- From a queue of events, fewer than 20 schedule no job and stay in the queue, and 20 or more make
-- the scheduling panic: it asks the queue for a job and finds an event.
pub schedule_jobs-queue_of :
    (es : List (String × String))
    → schedule_jobs (queue_of es) ≡ (if ltb (length es) 20 then some ([], queue_of es) else none)
unfolding schedule_jobs
schedule_jobs-queue_of es = elim (Bool-cases (ltb (length es) 20)) [
  | inl few ↦
      let none_each : length (queue_of es) / max_rounds - 1 ≡ 0 =
        omega (arith, ltb→lt (length es) 20 few, length-queue_of es) in
      rw (none_each, few) (no_jobs_lem max_rounds 0 (queue_of es) [])
  | inr many ↦
      let each = length (queue_of es) / max_rounds - 1 in
      let some_each : 0 < length (queue_of es) / max_rounds - 1 =
        omega (arith, ltb-false→le (length es) 20 many, length-queue_of es) in
      rw many (panic_lem 9 0 each (queue_of es) [] (next_jobs-queue_of each es some_each))
]
