-- ===== src/Workbench/Life/Leases.antt =====
-- Claims, extensions and reconciliations follow the life cycle.
use cv_match.Common.{
  ℕ, ◌≡◌, refl, ◌∙◌, inl, inr, Bool, true, false, ◌&&◌, some, List, [], ◌∷◌, arith, ◌==◌, find, All,
  select, any, Option-cases, All-both, select-All, All-select, All-map,
}
use cv_match.Common.Updates.{
  update_where-All, IsKeyed, has_key_of, update_where-IsKeyed, found_all, count-update_same,
  select-IsKeyed, sort_by-IsKeyed, find-update_where,
}
use cv_match.Common.Sorting.{sort_by, sort_by-All}
use cv_match.Workbench.Tables.{RowId, running, failed, Job, Store, job_key, job_waits, job_runs}
use cv_match.Workbench.Events.{append_event}
use cv_match.Workbench.Jobs.Claims.{
  Claim, claimable, queue, created_before, take_job, start_run, claim_job,
  claim_next_source_run_job, leased_by, extend, extend_source_run_job_lease,
}
use cv_match.Workbench.Jobs.{first}
use cv_match.Workbench.Jobs.Reconciles.{
  expire, expire_run, reconcile_row, reconcile_rows, expired_at, expires_before,
  reconcile_expired_running_jobs,
}
use cv_match.Workbench.Life.{waits_for, runs_for}
use cv_match.Workbench.Life.Evolution.{
  IsSound, IsLinked, Follows, Follows-refl, Follows-trans, Follows-quiet,
}
use cv_match.Workbench.Life.Turns.{Turn, turned-Follows, claim_counts, end-Reaches}

abbrev taking : Claim → Turn
taking claim = record {
  change = take_job claim;
  change_run = start_run;
  status = running;
  keeps_id = λ job. refl;
  keeps_run = λ job. refl;
  keeps_run_id = λ run. refl;
  sets = λ run. refl;
}

-- A queued job of the table is claimed.
pub claim_job-Follows :
    (claim : Claim) (row : Job) (s : Store)
    → IsSound s
    → find (has_key_of job_key row.job_id) s.jobs ≡ some row
    → job_waits row.status ≡ true
    → Follows s (claim_job claim row s)
unfolding append_event
claim_job-Follows claim row s v found waits =
    turned-Follows (taking claim) row _ (ground arith) (λ y h. ground arith) s v found
      (λ p status w r w' r' h ew er.
        claim_counts p status w r w' r' h (ground arith) (ground arith))
      _

-- A row that the table holds under its key, of a status.
abbrev pub IsHeld : (Job → Bool) → Store → Job → Type 0
IsHeld p s row = (find (has_key_of job_key row.job_id) s.jobs ≡ some row) × (p row ≡ true)

sort_by-IsHeld :
    (p : Job → Bool) (before : Job → Job → Bool) (s : Store)
    → IsSound s
    → All (IsHeld p s) (sort_by before (select p s.jobs))
sort_by-IsHeld p before s v = sort_by-All before (IsHeld p s) (select p s.jobs) (
    All-both _ _ (select p s.jobs) (select-All _ p s.jobs (found_all job_key s.jobs v.jobs_keyed))
      (All-select p s.jobs))

pub first-All {ℓ κ} :
    {A : Type ℓ} (P : A → Type κ) (xs : List A) (x : A) → All P xs → first xs ≡ some x → P x
first-All P [] x h e = absurd (ground arith)
first-All P (y ∷ xs) x h e = let e' : y ≡ x = ground arith in rw (← e') h.0

pub queue-IsHeld :
    (claim : Claim) (s : Store) (row : Job)
    → IsSound s
    → first (queue claim s) ≡ some row
    → IsHeld (claimable claim) s row
queue-IsHeld claim s row v e =
    first-All (IsHeld (claimable claim) s) (queue claim s) row
      (sort_by-IsHeld (claimable claim) created_before s v) e

pub claim_next-Follows :
    (claim : Claim) (s : Store) → IsSound s → Follows s (claim_next_source_run_job claim s).1
unfolding claim_next_source_run_job
claim_next-Follows claim s v = elim (Option-cases (first (queue claim s))) [
  | inl e ↦ rw e (Follows-refl s v)
  | inr (row, e) ↦
      let (found, waits) = queue-IsHeld claim s row v e in
      let step = claim_job-Follows claim row s v found (ground arith) in
      rw e (ground (arith, step, Follows-refl s v))
]

pub extend_lease-Follows :
    (job_id owner_id : RowId) (lease_expires_at now : ℕ) (s : Store)
    → IsSound s
    → Follows s (extend_source_run_job_lease job_id owner_id lease_expires_at now s).1
unfolding extend_source_run_job_lease
extend_lease-Follows job_id owner_id lease_expires_at now s v =
    Follows-quiet s _ refl
      (update_where-IsKeyed job_key (leased_by job_id owner_id) _ (λ job. refl) s.jobs v.jobs_keyed)
      (update_where-All (IsLinked s.runs) (leased_by job_id owner_id) _ (λ y e h. h) (λ y e h. h)
        s.jobs v.linked)
      (λ run.
        rw
          (
            count-update_same (waits_for run.source_run_id) (leased_by job_id owner_id)
                (extend lease_expires_at now) (λ job. refl) s.jobs,
            count-update_same (runs_for run.source_run_id) (leased_by job_id owner_id)
                (extend lease_expires_at now) (λ job. refl) s.jobs,
          )
          refl)
      v

abbrev expiring : ℕ → Turn
expiring now = record {
  change = expire now;
  change_run = expire_run;
  status = failed;
  keeps_id = λ job. refl;
  keeps_run = λ job. refl;
  keeps_run_id = λ run. refl;
  sets = λ run. refl;
}

reconcile_row-Follows :
    (now : ℕ) (row : Job) (s : Store)
    → IsSound s
    → IsHeld (λ job. job_runs job.status) s row
    → Follows s (reconcile_row now row s)
unfolding append_event
reconcile_row-Follows now row s v (found, runs) =
    turned-Follows (expiring now) row _ (ground arith) (λ y h. ground arith) s v found
      (λ p status w r w' r' h ew er.
        end-Reaches failed tt p status w r w' r' h (ground arith) (ground arith))
      _

-- Another row of the table is not touched.
reconcile_row-IsHeld :
    (now : ℕ) (row : Job) (s : Store) (rows : List Job)
    → any (λ other. other.job_id == row.job_id) rows ≡ false
    → All (IsHeld (λ job. job_runs job.status) s) rows
    → All (IsHeld (λ job. job_runs job.status) (reconcile_row now row s)) rows
unfolding append_event
reconcile_row-IsHeld now row s [] away h = tt
reconcile_row-IsHeld now row s (other ∷ rows) away h = (
  (
    find-update_where job_key (λ job. job.job_id == row.job_id && job_runs job.status) (expire now)
          (λ job. refl) other.job_id s.jobs
        ∙ rw h.0.0 (ground arith),
    h.0.1,
  ),
  reconcile_row-IsHeld now row s rows (ground arith) h.1,
)

reconcile_rows-Follows :
    (now : ℕ) (rows : List Job) (s : Store)
    → IsSound s
    → IsKeyed job_key rows
    → All (IsHeld (λ job. job_runs job.status) s) rows
    → Follows s (reconcile_rows now rows s)
unfolding reconcile_rows
reconcile_rows-Follows now [] s v d h = Follows-refl s v
reconcile_rows-Follows now (row ∷ rows) s v d h =
    let first_row = reconcile_row-Follows now row s v h.0 in
    Follows-trans s (reconcile_row now row s) (reconcile_rows now rows (reconcile_row now row s))
      first_row
      (reconcile_rows-Follows now rows (reconcile_row now row s) first_row.sound d.1
        (reconcile_row-IsHeld now row s rows d.0 h.1))

pub reconcile-Follows :
    (now : ℕ) (s : Store) → IsSound s → Follows s (reconcile_expired_running_jobs now s)
unfolding reconcile_expired_running_jobs
reconcile-Follows now s v =
    reconcile_rows-Follows now (sort_by expires_before (select (expired_at now) s.jobs)) s v
      (sort_by-IsKeyed job_key expires_before (select (expired_at now) s.jobs)
        (select-IsKeyed job_key (expired_at now) s.jobs v.jobs_keyed))
      (All-map _ (λ job h. (h.0, ground (arith, h.1)))
        (sort_by-IsHeld (expired_at now) expires_before s v))
