-- ===== src/Workbench/Claimed.antt =====
-- Which job `claim_next_source_run_job` claims, and what its owner gets.
use cv_match.Common.{
  suc, ◌<◌, ◌≤◌, ◌⊎◌, ltb, ltb→lt, ◌≡◌, refl, subst, any, ◌∙◌, ap, inl, inr, Bool, true, false,
  ◌&&◌, Option, none, some, List, [], ◌∷◌, arith, ◌==◌, All, All-map, length, select, Bool-cases,
  Option-cases, ok,
}
use cv_match.Common.Updates.{find-update_where}
use cv_match.Common.Sorting.{sort_by, insert_sorted, length-sort_by}
use cv_match.Workbench.Tables.{
  Store, SourceKind, cts, liepin, JobStatus, job_queued, job_running, job_completed, job_failed,
  Session, Triage, Job, transaction, job_key, job_waits,
}
use cv_match.Workbench.Events.{append_event}
use cv_match.Workbench.Jobs.Claims.{
  Claim, Context, wanted, claimable, queue, created_before, take_job, claim_job, claimed_context,
  claim_next_source_run_job, claim_found, context_of,
}
use cv_match.Workbench.Jobs.{first, job_of}
use cv_match.Workbench.Life.Evolution.{IsSound}
use cv_match.Workbench.Life.Leases.{queue-IsHeld}

module _ {ℓ} {A : Type ℓ} (before : A → A → Bool)
    (asymmetric : (x y : A) → before x y ≡ true → before y x ≡ false)
    (behind : (x y z : A) → before y x ≡ false → before z y ≡ false → before z x ≡ false) where
  abbrev NoneBefore : A → List A → Type 0
  NoneBefore x ys = All (λ y. before y x ≡ false) ys

  not_before_itself : (x : A) → before x x ≡ false
  not_before_itself x = elim (Bool-cases (before x x)) [ inl e ↦ asymmetric x x e | inr e ↦ e ]

  -- The first of a sorted list has none before it.
  first_least : (xs : List A) (x : A) → first (sort_by before xs) ≡ some x → NoneBefore x xs
  unfolding sort_by insert_sorted
  first_least [] x h = tt
  first_least (y ∷ ys) x h = step (sort_by before ys) (length-sort_by before ys) (first_least ys) h
    where
      empty : (zs : List A) → 0 ≡ length zs → NoneBefore x zs
      empty [] e = tt
      empty (z ∷ zs) e = absurd (omega (arith, e))

      step :
          (zs : List A)
          → length zs ≡ length ys
          → ((z : A) → first zs ≡ some z → NoneBefore z ys)
          → first (insert_sorted before y zs) ≡ some x
          → NoneBefore x (y ∷ ys)
      step [] e ih h = let e' : y ≡ x = ground arith in (rw e' (not_before_itself x), empty ys e)
      step (z ∷ zs) e ih h = elim (Bool-cases (before z y)) [
        | inl first_z ↦
            let e' : z ≡ x = ground arith in
            subst (λ w. NoneBefore w (y ∷ ys)) e' (asymmetric z y first_z, ih z refl)
        | inr first_y ↦
            let e' : y ≡ x = ground arith in
            subst (λ w. NoneBefore w (y ∷ ys)) e'
              (not_before_itself y, All-map ys (λ w k. behind y z w first_y k) (ih z refl))
      ]

-- What holds of the members of a selection.
selected-All {ℓ κ} :
    {A : Type ℓ} (P : A → Type κ) (p : A → Bool) (xs : List A)
    → All P (select p xs)
    → All (λ x. p x ≡ true → P x) xs
selected-All P p [] h = tt
selected-All P p (x ∷ xs) h = elim (Bool-cases (p x)) [
  | inl e ↦ let h' : All P (x ∷ select p xs) = rw e at h in (λ _. h'.0, selected-All P p xs h'.1)
  | inr e ↦
      let h' : All P (select p xs) = rw e at h in
      (λ e'. absurd (ground arith), selected-All P p xs h')
]

created_asymmetric : (x y : Job) → created_before x y ≡ true → created_before y x ≡ false
created_asymmetric x y h = ground arith

created_behind :
    (x y z : Job)
    → created_before y x ≡ false
    → created_before z y ≡ false
    → created_before z x ≡ false
created_behind x y z h k = ground arith

-- of two rows, the one that comes first in the queue
abbrev pub IsOlder : Job → Job → Type 0
IsOlder x y =
    (x.created_at < y.created_at) ⊎ ((x.created_at ≡ y.created_at) × (x.job_id ≤ y.job_id))

abbrev pub IsWanted : Option SourceKind → SourceKind → Type 0
IsWanted none kind = Unit
IsWanted (some k) kind = k ≡ kind

-- What a claim does to the row that it found, and what it returns.
pub record Takes (claim : Claim) (s : Store) (context : Context) (row : Job) : Type 0 where
  pub found : job_of row.job_id s ≡ some row
  pub queued : row.status ≡ job_queued
  pub wanted_kind : IsWanted claim.source_kind row.source_kind
  pub oldest :
      All
        (λ other.
          other.status ≡ job_queued
          → IsWanted claim.source_kind other.source_kind
          → IsOlder row other)
        s.jobs
  pub kept : job_of row.job_id (claim_next_source_run_job claim s).1 ≡ some context.job
  pub same_run : context.job.source_run_id ≡ row.source_run_id
  pub runs : context.job.status ≡ job_running
  pub owner : context.job.lease_owner ≡ some claim.owner_id
  pub lease : context.job.lease_expires_at ≡ some claim.lease_expires_at
  pub attempts : context.job.attempt_count ≡ suc row.attempt_count

waits_status : (status : JobStatus) → job_waits status ≡ true → status ≡ job_queued
waits_status job_queued h = refl
waits_status job_running h = absurd (ground arith)
waits_status job_completed h = absurd (ground arith)
waits_status job_failed h = absurd (ground arith)

wanted-IsWanted :
    (kind : Option SourceKind) (k : SourceKind) → wanted kind k ≡ true → IsWanted kind k
wanted-IsWanted none k h = tt
wanted-IsWanted (some cts) cts h = refl
wanted-IsWanted (some cts) liepin h = absurd (ground arith)
wanted-IsWanted (some liepin) cts h = absurd (ground arith)
wanted-IsWanted (some liepin) liepin h = refl

IsWanted-wanted :
    (kind : Option SourceKind) (k : SourceKind) → IsWanted kind k → wanted kind k ≡ true
IsWanted-wanted none k h = refl
IsWanted-wanted (some cts) k h = rw (← h) refl
IsWanted-wanted (some liepin) k h = rw (← h) refl

behind-IsOlder : (row other : Job) → created_before other row ≡ false → IsOlder row other
behind-IsOlder row other h = elim (Bool-cases (ltb row.created_at other.created_at)) [
  | inl e ↦ inl (ltb→lt row.created_at other.created_at e)
  | inr e ↦ inr (ground arith, ground arith)
]

job_of-claim :
    (claim : Claim) (row : Job) (s : Store)
    → job_of row.job_id s ≡ some row
    → job_waits row.status ≡ true
    → job_of row.job_id (claim_job claim row s) ≡ some (take_job claim row)
unfolding append_event
job_of-claim claim row s found waits =
    find-update_where job_key (λ job. job.job_id == row.job_id && job_waits job.status)
      (take_job claim) (λ job. refl) row.job_id s.jobs
    ∙ rw found (ground arith)

context_job :
    (s t : Store) (found : Option Job) (session : Option Session) (triage : Option Triage)
    (context : Context) (job : Job)
    → found ≡ some job
    → (transaction s (context_of t found session triage)).0 ≡ ok (some context)
    → (context.job ≡ job) × ((transaction s (context_of t found session triage)).1 ≡ t)
context_job s t none session triage context job e h = absurd (ground arith)
context_job s t (some j) (some session) (some triage) context job e h = (ground arith, refl)
context_job s t (some j) (some session) none context job e h = absurd (ground arith)
context_job s t (some j) none triage context job e h = absurd (ground arith)

claim_row :
    (claim : Claim) (context : Context) (s : Store) (row : Job)
    → job_of row.job_id s ≡ some row
    → job_waits row.status ≡ true
    → (transaction s (claim_found claim s (some row))).0 ≡ ok (some context)
    → (context.job ≡ take_job claim row)
      × (job_of row.job_id (transaction s (claim_found claim s (some row))).1
          ≡ some (take_job claim row))
claim_row claim context s row found waits h =
    elim (Bool-cases (any (λ job. job.job_id == row.job_id && job_waits job.status) s.jobs)) [
      | inr e ↦ let h' = rw e at h in absurd (ground arith)
      | inl e ↦
          let h' : (transaction s (claimed_context row (claim_job claim row s))).0
              ≡ ok (some context) =
            rw e at h in
          let kept : job_of row.job_id (claim_job claim row s) ≡ some (take_job claim row) =
            job_of-claim claim row s found waits in
          let (returned, left) =
            context_job s (claim_job claim row s) (job_of row.job_id (claim_job claim row s)) _ _
              context (take_job claim row) kept h' in
          rw e (returned, ap (job_of row.job_id) left ∙ kept)
    ]

-- In a sound store, a claim that returns a job took one that was queued and of the wanted kind,
-- with every other such job created later, or at the same time with no lower id. The store then
-- holds the returned job under the id of the one taken: for the same run, running, under the
-- claim's owner and lease, with one attempt more.
pub claim_oldest :
    (claim : Claim) (context : Context) (s : Store)
    → IsSound s
    → (claim_next_source_run_job claim s).0 ≡ ok (some context)
    → (row : Job) × Takes claim s context row
unfolding claim_next_source_run_job
claim_oldest claim context s v h = elim (Option-cases (first (queue claim s))) [
  | inl e ↦ let h' = rw e at h in absurd (ground arith)
  | inr (row, e) ↦
      let (found, waits) = queue-IsHeld claim s row v e in
      let h' : (transaction s (claim_found claim s (some row))).0 ≡ ok (some context) = rw e at h in
      let (returned, left) = claim_row claim context s row found (ground arith) h' in
      (
        row,
        record {
          found = found;
          queued = waits_status row.status (ground arith);
          wanted_kind = wanted-IsWanted claim.source_kind row.source_kind (ground arith);
          oldest =
              All-map s.jobs
                (λ other k waits' kind.
                  behind-IsOlder row other (
                    k (rw (waits', IsWanted-wanted claim.source_kind other.source_kind kind) refl)))
                (selected-All _ (claimable claim) s.jobs (
                  first_least created_before created_asymmetric created_behind
                    (select (claimable claim) s.jobs) row e));
          kept = rw (e, returned) left;
          same_run = ap (λ job. job.source_run_id) returned;
          runs = ap (λ job. job.status) returned;
          owner = ap (λ job. job.lease_owner) returned;
          lease = ap (λ job. job.lease_expires_at) returned;
          attempts = ap (λ job. job.attempt_count) returned;
        },
      )
]
