-- ===== src/Api/Routes/Admin.antt =====
-- services/routes/admin/admin.router.ts: the operations team's routes over the failed jobs, behind
-- `adminRouter.use(authenticate)` and `requireRole('platform_admin')`.
use vanguard_settlement_engi.Base.{ℕ, String, List, [], ◌∷◌, ◌≡◌, refl, length}
use vanguard_settlement_engi.Domain.{JwtPayload, platform_admin}
use vanguard_settlement_engi.Errors.{Result, ok, err}
use vanguard_settlement_engi.Api.ErrorHandler.{error_handler}
use vanguard_settlement_engi.Api.Authenticate.{
  Verified, Request, Step, passed, replied, authenticate, require_role, ◌then◌,
  require_role-authenticate,
}
use vanguard_settlement_engi.Api.Routes.{Response, success, already_recorded, refusal}
use vanguard_settlement_engi.Api.Routes.Answers.{IsFrom, IsFrom-sole}
use vanguard_settlement_engi.Infra.FailedJobs.{
  Bull, Queues, FailedJobSummary, get_all_failed_jobs, retry_failed_job, discard_failed_job,
}

pub record FailedJobs : Type 0 where
  pub count : ℕ
  pub jobs : List FailedJobSummary

-- The text of the answer names the job and its queue.
pub record JobAnswer : Type 0 where
  pub job_id : String
  pub queue : String

module _ {Q : Type 0} where
  -- `asyncHandler` around a call that changes the queues or throws.
  abbrev pub acted : JobAnswer → Queues Q → Result (Queues Q) → Response JobAnswer × Queues Q
  acted answer qs (ok qs') = (success 200 answer, qs')
  acted answer qs (err e) = (refusal (error_handler e), qs)

  abbrev pub behind : {A : Type 0} → Step → Response A × Queues Q → Queues Q → Response A × Queues Q
  behind (passed req) answer qs = answer
  behind (replied reply) answer qs = (refusal reply, qs)

abbrev pub admin_only : (String → Verified) → Request → Step
admin_only verify req = authenticate verify req then require_role (platform_admin ∷ [])

module _ {Q : Type 0} (bull : Bull Q) (verify : String → Verified) where
  -- GET /admin/failed-jobs
  unfoldable pub get_failed_jobs : Request → Queues Q → Response FailedJobs × Queues Q
  get_failed_jobs req qs =
      let jobs = get_all_failed_jobs bull qs in
      behind (admin_only verify req) (success 200 (record { count = length jobs; jobs = jobs }), qs)
        qs

  -- POST /admin/failed-jobs/:queue/:jobId/retry
  unfoldable pub post_retry : String → String → Request → Queues Q → Response JobAnswer × Queues Q
  post_retry queue job_id req qs =
      behind (admin_only verify req)
        (acted (record { job_id = job_id; queue = queue }) qs
          (retry_failed_job bull queue job_id qs))
        qs

  -- DELETE /admin/failed-jobs/:queue/:jobId
  unfoldable pub delete_job : String → String → Request → Queues Q → Response JobAnswer × Queues Q
  delete_job queue job_id req qs =
      behind (admin_only verify req)
        (acted (record { job_id = job_id; queue = queue }) qs
          (discard_failed_job bull queue job_id qs))
        qs

-- The queues are as before and nothing was disclosed, or the request has an administrator's token.
abbrev pub Admitted :
    {A Q : Type 0} → (String → Verified) → Request → Queues Q → Response A × Queues Q → Type 0
Admitted verify req qs (success status a, qs') =
    (user : JwtPayload) × IsFrom verify req platform_admin user
Admitted verify req qs (already_recorded, qs') = qs' ≡ qs
Admitted verify req qs (refusal reply, qs') = qs' ≡ qs

module _ {A Q : Type 0} (verify : String → Verified) (req : Request) (qs : Queues Q) where
  behind-Admitted :
      (answer : Response A × Queues Q)
      → ((user : JwtPayload)
          → IsFrom verify req platform_admin user
          → Admitted verify req qs answer)
      → Admitted verify req qs (behind (admin_only verify req) answer qs)
  behind-Admitted answer k = go (admin_only verify req) refl
    where
      go : (s : Step) → admin_only verify req ≡ s → Admitted verify req qs (behind s answer qs)
      go (replied reply) e = refl
      go (passed out) e =
          let (token, user, b, v, allowed, same) =
            (require_role-authenticate verify (platform_admin ∷ []) req out).0 e in
          k user (IsFrom-sole verify req platform_admin user (token, b, v, allowed))

module _ {Q : Type 0} (verify : String → Verified) (req : Request) (qs : Queues Q) where
  acted-Admitted :
      (answer : JobAnswer) (user : JwtPayload) (r : Result (Queues Q))
      → IsFrom verify req platform_admin user
      → Admitted verify req qs (acted answer qs r)
  acted-Admitted answer user (ok qs') from = (user, from)
  acted-Admitted answer user (err e) from = refl

  -- Failed jobs are listed, retried and discarded for a Bearer token of the platform's administrators
  -- only; with any other answer than a success the queues are as before.
  pub admin_routes-Admitted :
      (bull : Bull Q) (queue job_id : String)
      → Admitted verify req qs (get_failed_jobs bull verify req qs)
        × Admitted verify req qs (post_retry bull verify queue job_id req qs)
        × Admitted verify req qs (delete_job bull verify queue job_id req qs)
  unfolding get_failed_jobs post_retry delete_job
  admin_routes-Admitted bull queue job_id = (
    behind-Admitted verify req qs _ (λ user from. (user, from)),
    behind-Admitted verify req qs _
        (λ user from. acted-Admitted _ user (retry_failed_job bull queue job_id qs) from),
    behind-Admitted verify req qs _
        (λ user from. acted-Admitted _ user (discard_failed_job bull queue job_id qs) from),
  )
