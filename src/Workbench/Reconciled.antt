-- ===== src/Workbench/Reconciled.antt =====
-- The loop of `reconcile_expired_running_jobs` against two UPDATEs over whole tables.
use cv_match.Common.{
  ℕ, ◌≡◌, refl, sym, ◌∙◌, ap, Bool, true, false, ◌&&◌, ◌||◌, List, [], ◌∷◌, arith, ◌==◌, All,
  All-map, any, all_of, select, find, some,
}
use cv_match.Common.Updates.{update_where, IsKeyed, has_key_of, found_all, any_at_key}
use cv_match.Common.Sorting.{sort_by, any-sort_by}
use cv_match.Workbench.Tables.{SourceRun, Job, Store, job_key, job_runs}
use cv_match.Workbench.Events.{append_event}
use cv_match.Workbench.Jobs.Reconciles.{
  expire, expire_run, expired_at, expires_before, reconcile_row, reconcile_rows,
  reconcile_expired_running_jobs,
}

module _ {ℓ} {A : Type ℓ} where
  -- Two UPDATEs, of which the first leaves nothing to the second in the rows it changes, are one.
  update_where_or :
      (p q : A → Bool) (f : A → A)
      → ((x : A) → p x ≡ true → q (f x) ≡ false)
      → (xs : List A) → update_where q f (update_where p f xs) ≡ update_where (λ x. p x || q x) f xs
  update_where_or p q f once [] = refl
  update_where_or p q f once (x ∷ xs) = ground (arith, update_where_or p q f once xs, once x)

  update_where_again :
      (p q : A → Bool) (f : A → A)
      → ((x : A) → q (f x) ≡ q x)
      → ((x : A) → f (f x) ≡ f x)
      → (xs : List A) → update_where q f (update_where p f xs) ≡ update_where (λ x. p x || q x) f xs
  update_where_again p q f same idem [] = refl
  update_where_again p q f same idem (x ∷ xs) =
      ground (arith, update_where_again p q f same idem xs, same x, idem x)

  -- Only what the test says of the rows matters.
  update_where_cong :
      (p q : A → Bool) (f : A → A) (xs : List A)
      → All (λ x. p x ≡ q x) xs
      → update_where p f xs ≡ update_where q f xs
  update_where_cong p q f [] h = refl
  update_where_cong p q f (x ∷ xs) h = ground (arith, update_where_cong p q f xs h.1, h.0)

module _ {ℓ} {A : Type ℓ} where
  update_where_none : (f : A → A) (xs : List A) → update_where (λ x. false) f xs ≡ xs
  update_where_none f [] = refl
  update_where_none f (x ∷ xs) = ap (◌∷◌ x) (update_where_none f xs)

  any_of_select : (p q : A → Bool) (xs : List A) → any q (select p xs) ≡ any (λ x. p x && q x) xs
  any_of_select p q [] = refl
  any_of_select p q (x ∷ xs) = ground (arith, any_of_select p q xs)

abbrev listed : List Job → Job → Bool
listed rows job = any (λ row. job.job_id == row.job_id) rows && job_runs job.status

abbrev pub run_listed : List Job → SourceRun → Bool
run_listed rows run = any (λ row. run.source_run_id == row.source_run_id) rows

rows_jobs :
    (now : ℕ) (rows : List Job) (s : Store)
    → (reconcile_rows now rows s).jobs ≡ update_where (listed rows) (expire now) s.jobs
unfolding reconcile_rows append_event
rows_jobs now [] s = sym (update_where_none (expire now) s.jobs)
rows_jobs now (row ∷ rows) s =
    rows_jobs now rows (reconcile_row now row s)
    ∙ (update_where_or (λ job. job.job_id == row.job_id && job_runs job.status) (listed rows)
          (expire now) (λ x h. ground arith) s.jobs
        ∙ update_where_cong _ (listed (row ∷ rows)) (expire now) s.jobs
            (all_of _ (λ x. ground arith) s.jobs))

rows_runs :
    (now : ℕ) (rows : List Job) (s : Store)
    → (reconcile_rows now rows s).runs ≡ update_where (run_listed rows) expire_run s.runs
unfolding reconcile_rows append_event
rows_runs now [] s = sym (update_where_none expire_run s.runs)
rows_runs now (row ∷ rows) s =
    rows_runs now rows (reconcile_row now row s)
    ∙ update_where_again (λ run. run.source_run_id == row.source_run_id) (run_listed rows)
        expire_run (λ x. refl) (λ x. refl) s.runs

-- the runs that a job with an expired lease is for
abbrev pub has_expired : ℕ → List Job → SourceRun → Bool
has_expired now jobs run =
    any (λ job. expired_at now job && run.source_run_id == job.source_run_id) jobs

-- A store whose jobs have unique ids is reconciled by two UPDATEs: every job whose lease has
-- expired fails and loses its lease, every run of such a job fails, and the other rows of both
-- tables stay as they are.
pub reconcile-eq_updates :
    (now : ℕ) (s : Store)
    → IsKeyed job_key s.jobs
    → ((reconcile_expired_running_jobs now s).jobs
        ≡ update_where (expired_at now) (expire now) s.jobs)
      × ((reconcile_expired_running_jobs now s).runs
          ≡ update_where (has_expired now s.jobs) expire_run s.runs)
unfolding reconcile_expired_running_jobs
reconcile-eq_updates now s d = (
  rows_jobs now rows s
      ∙ update_where_cong (listed rows) (expired_at now) (expire now) s.jobs
          (All-map s.jobs in_list (found_all job_key s.jobs d)),
  rows_runs now rows s
      ∙ update_where_cong (run_listed rows) (has_expired now s.jobs) expire_run s.runs
          (all_of _ (λ run. among (λ row. run.source_run_id == row.source_run_id)) s.runs),
)
  where
    rows : List Job
    rows = sort_by expires_before (select (expired_at now) s.jobs)

    among :
        (q : Job → Bool)
        → any q (sort_by expires_before (select (expired_at now) s.jobs))
          ≡ any (λ job. expired_at now job && q job) s.jobs
    among q =
        any-sort_by expires_before q (select (expired_at now) s.jobs)
        ∙ any_of_select (expired_at now) q s.jobs

    in_list :
        (job : Job)
        → find (has_key_of job_key job.job_id) s.jobs ≡ some job
        → listed (sort_by expires_before (select (expired_at now) s.jobs)) job ≡ expired_at now job
    in_list job found = ground (
      arith,
      among (λ row. job.job_id == row.job_id),
      any_at_key job_key (expired_at now) job s.jobs d found,
    )
