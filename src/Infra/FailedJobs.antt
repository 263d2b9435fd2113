-- ===== src/Infra/FailedJobs.antt =====
-- infra/queue/failed-jobs.repository.ts. BullMQ is not part of the repository: a queue is any type with
-- the package's operations, and what an operation throws is in its result.
pub mod Order
use vanguard_settlement_engi.Base.{
  ℕ, String, Bool, Option, none, some, List, [], ◌∷◌, ◌++◌, map, leb, str_eq, if◌then◌else◌,
}
use vanguard_settlement_engi.Errors.{Thrown, Result, ok, err, plain, unknown_queue, job_not_found}

-- What the program reads of a `Job`. The payload is left out.
pub record JobRow : Type 0 where
  pub id : Option String
  pub name : String
  pub failed_reason : Option String
  pub attempts_made : ℕ
  pub finished_on : Option ℕ

pub record FailedJobSummary : Type 0 where
  pub id : Option String
  pub queue : String
  pub job_name : String
  pub failed_reason : String
  pub attempts_made : ℕ
  pub failed_at : Option ℕ

-- `queue.getFailed()`, `Job.fromId(queue, id)`, `job.retry()` and `job.remove()`.
pub record Bull (Q : Type 0) : Type 0 where
  pub get_failed : Q → Result (List JobRow)
  pub from_id : Q → String → Result (Option JobRow)
  pub retry : JobRow → Q → Result Q
  pub remove : JobRow → Q → Result Q

pub record Queues (Q : Type 0) : Type 0 where
  pub notification : Q
  pub document : Q

abbrev pub or_unknown : Option String → String
or_unknown none = "Unknown"
or_unknown (some reason) = reason

abbrev pub summary : String → JobRow → FailedJobSummary
summary name job = record {
  id = job.id;
  queue = name;
  job_name = job.name;
  failed_reason = or_unknown job.failed_reason;
  attempts_made = job.attempts_made;
  failed_at = job.finished_on;
}

-- `failed_at ?? 0`
abbrev pub or_zero : Option ℕ → ℕ
or_zero none = 0
or_zero (some n) = n

abbrev pub at : FailedJobSummary → ℕ
at s = or_zero s.failed_at

-- A queue that cannot be read counts as empty.
abbrev pub summaries : String → Result (List JobRow) → List FailedJobSummary
summaries name (ok jobs) = map (summary name) jobs
summaries name (err e) = []

-- `sort` is stable: of two that failed at once, the one that came first stays first.
unfoldable pub insert_latest : FailedJobSummary → List FailedJobSummary → List FailedJobSummary
insert_latest s [] = s ∷ []
insert_latest s (x ∷ xs) = if leb (at x) (at s) then s ∷ x ∷ xs else x ∷ insert_latest s xs

unfoldable pub sort_latest : List FailedJobSummary → List FailedJobSummary
unfolding insert_latest
sort_latest [] = []
sort_latest (s ∷ xs) = insert_latest s (sort_latest xs)

-- `.then` of a result.
infixl 5 ◌>>=◌
abbrev pub ◌>>=◌ : {A B : Type 0} → Result A → (A → Result B) → Result B
(ok a) >>= f = f a
(err e) >>= f = err e

module _ {Q : Type 0} (bull : Bull Q) where
  -- The queues in the order of the source, before they are sorted.
  abbrev pub collected : Queues Q → List FailedJobSummary
  collected qs =
      summaries "notification" (bull.get_failed qs.notification)
      ++ summaries "document" (bull.get_failed qs.document)

  unfoldable pub get_all_failed_jobs : Queues Q → List FailedJobSummary
  get_all_failed_jobs qs = sort_latest (collected qs)

  -- The job, where there is one, and what becomes of its queue.
  abbrev pub act_on : (JobRow → Q → Result Q) → String → String → Q → Option JobRow → Result Q
  act_on act name id q none = err (plain (job_not_found id name))
  act_on act name id q (some job) = act job q

  abbrev pub in_queue : (JobRow → Q → Result Q) → String → String → Q → Result Q
  in_queue act name id q = bull.from_id q id >>= act_on act name id q

  -- `queueMap[queueName]`, with its own keys only.
  abbrev pub with_queue : (JobRow → Q → Result Q) → String → String → Queues Q → Result (Queues Q)
  with_queue act name id qs =
      if str_eq name "notification"
      then in_queue act name id qs.notification >>= (λ q. ok (record qs { notification = q }))
      else if str_eq name "document"
      then in_queue act name id qs.document >>= (λ q. ok (record qs { document = q }))
      else err (plain (unknown_queue name))

  unfoldable pub retry_failed_job : String → String → Queues Q → Result (Queues Q)
  retry_failed_job = with_queue bull.retry

  unfoldable pub discard_failed_job : String → String → Queues Q → Result (Queues Q)
  discard_failed_job = with_queue bull.remove
