-- ===== src/Workbench/Life/Openings.antt =====
-- A new session follows the life cycle: its runs begin in a phase, and nothing else changes.
use cv_match.Common.{
  ℕ, ◌≡◌, refl, inl, inr, Bool, true, false, ◌||◌, some, List, [], ◌∷◌, ◌++◌, arith, ◌==◌, ok, err,
  All, All-map, any, any-append, Bool-cases, map,
}
use cv_match.Common.Updates.{count, count_of_all, has_key_of, IsKeyed-snoc}
use cv_match.Workbench.Tables.{
  RowId, Session, Triage, SourceKind, cts, liepin, RunStatus, queued, blocked, running, completed,
  failed, SourceRun, Job, Store, run_key, is_queued, is_blocked, transaction, User, Outcome,
  proceed,
}
use cv_match.Workbench.Events.{append_event}
use cv_match.Workbench.Sessions.{
  insert_runs, insert_session, insert_triage, new_session, new_triage, new_source_run,
  create_workbench_session, new_runs,
}
use cv_match.Workbench.Life.{Phase, idle, held, phase_of, waits_for, runs_for, IsSettled}
use cv_match.Workbench.Life.Evolution.{
  IsSound, IsLinked, Evolves, Follows, Follows-of, Follows-refl, Follows-trans, Follows-still,
  Lives-stays,
}

pub transaction-Follows :
    {A : Type 0} (s : Store) (m : Outcome A)
    → IsSound s
    → Follows s m.1
    → Follows s (transaction s m).1
transaction-Follows s (ok a, t) v h = h
transaction-Follows s (err e, t) v h = Follows-refl s v

-- The rule for statements behind one that may raise.
pub proceed_rule {ℓ κ} :
    {A B : Type 0} (P : Store → Type ℓ) (Q : Store → Type κ) (m : Outcome A)
    (f : A → Store → Outcome B)
    → P m.1
    → ((t : Store) → P t → Q t)
    → ((a : A) (t : Store) → P t → Q (f a t).1)
    → Q (proceed m f).1
proceed_rule P Q (ok a, t) f h raised then_next = then_next a t h
proceed_rule P Q (err e, t) f h raised then_next = raised t h

pub proceed-Follows :
    {A B : Type 0} (s : Store) (m : Outcome A) (f : A → Store → Outcome B)
    → Follows s m.1
    → ((a : A) (t : Store) → Follows s t → Follows s (f a t).1)
    → Follows s (proceed m f).1
proceed-Follows s m f h then_next = proceed_rule (Follows s) (Follows s) m f h (λ t k. k) then_next

-- A run that begins.
abbrev IsUnstarted : SourceRun → Type 0
IsUnstarted run = (is_blocked run.status || is_queued run.status) ≡ true

begins :
    (status : RunStatus)
    → (is_blocked status || is_queued status) ≡ true
    → (p : Phase) × (phase_of status 0 0 ≡ some p)
begins queued h = (idle, refl)
begins blocked h = (held, refl)
begins running h = absurd (ground arith)
begins completed h = absurd (ground arith)
begins failed h = absurd (ground arith)

module _ (run : SourceRun) (s : Store) (v : IsSound s)
    (fresh : any (has_key_of run_key run.source_run_id) s.runs ≡ false) where
  -- No job is for a run that is not in the table.
  no_jobs : All (λ job. (job.source_run_id == run.source_run_id) ≡ false) s.jobs
  no_jobs = All-map s.jobs distinct v.linked
    where
      same :
          (k l : ℕ)
          → k ≡ l
          → any (has_key_of run_key l) s.runs ≡ false
          → any (has_key_of run_key k) s.runs ≡ false
      same k l e h = rw e h

      distinct :
          (job : Job) → IsLinked s.runs job → (job.source_run_id == run.source_run_id) ≡ false
      distinct job h = ground (arith, same job.source_run_id run.source_run_id)

  kept :
      (runs : List SourceRun)
      → All (IsSettled s.jobs) runs
      → IsUnstarted run
      → Evolves s.jobs s.jobs runs (runs ++ run ∷ [])
  kept [] h new =
      let waits : count (waits_for run.source_run_id) s.jobs ≡ 0 =
        count_of_all _ s.jobs (All-map s.jobs (λ job k. ground arith) no_jobs) in
      let runs : count (runs_for run.source_run_id) s.jobs ≡ 0 =
        count_of_all _ s.jobs (All-map s.jobs (λ job k. ground arith) no_jobs) in
      (rw (waits, runs) (begins run.status new), tt)
  kept (x ∷ xs) h new = (Lives-stays x x h.0 refl refl, kept xs h.1 new)

  insert_run-Follows : IsUnstarted run → Follows s (record s { runs = s.runs ++ run ∷ [] })
  insert_run-Follows new =
      Follows-of s _ (IsKeyed-snoc run_key s.runs run v.runs_keyed fresh) v.jobs_keyed
        (All-map s.jobs
          (λ job h.
            ground (arith, any-append (has_key_of run_key job.source_run_id) s.runs (run ∷ []), h))
          v.linked)
        (kept s.runs v.settled new)

insert_runs-Follows :
    (runs : List SourceRun) (s : Store)
    → IsSound s
    → All IsUnstarted runs
    → Follows s (insert_runs runs s).1
unfolding insert_runs
insert_runs-Follows [] s v h = Follows-refl s v
insert_runs-Follows (run ∷ runs) s v h =
    elim (Bool-cases (any (has_key_of run_key run.source_run_id) s.runs)) [
      | inl taken ↦ rw taken (Follows-refl s v)
      | inr fresh ↦
          let one = insert_run-Follows run s v fresh h.0 in
          let rest =
            insert_runs-Follows runs (record s { runs = s.runs ++ run ∷ [] }) one.sound h.1 in
          rw fresh (
            Follows-trans s (record s { runs = s.runs ++ run ∷ [] })
              (insert_runs runs (record s { runs = s.runs ++ run ∷ [] })).1 one rest)
    ]

new_runs-IsUnstarted :
    (user : User) (session_id : RowId) (now : ℕ) (linked : Bool) (kinds : List (RowId × SourceKind))
    → All IsUnstarted (map (new_source_run user session_id linked now) kinds)
new_runs-IsUnstarted user session_id now linked [] = tt
new_runs-IsUnstarted user session_id now linked ((id, cts) ∷ kinds) =
    (refl, new_runs-IsUnstarted user session_id now linked kinds)
new_runs-IsUnstarted user session_id now true ((id, liepin) ∷ kinds) =
    (refl, new_runs-IsUnstarted user session_id now true kinds)
new_runs-IsUnstarted user session_id now false ((id, liepin) ∷ kinds) =
    (refl, new_runs-IsUnstarted user session_id now false kinds)

insert_session-Follows :
    (session : Session) (s : Store) → IsSound s → Follows s (insert_session session s).1
insert_session-Follows session s v =
    elim (Bool-cases (any (λ other. other.session_id == session.session_id) s.sessions)) [
      | inl e ↦ rw e (Follows-refl s v)
      | inr e ↦ rw e (Follows-still s _ refl refl v)
    ]

insert_triage-Follows :
    (triage : Triage) (s : Store) → IsSound s → Follows s (insert_triage triage s).1
insert_triage-Follows triage s v =
    elim (Bool-cases (any (λ other. other.session_id == triage.session_id) s.triages)) [
      | inl e ↦ rw e (Follows-refl s v)
      | inr e ↦ rw e (Follows-still s _ refl refl v)
    ]

pub create-Follows :
    (user : User) (session_id : RowId) (kinds : List (RowId × SourceKind)) (now : ℕ) (s : Store)
    → IsSound s
    → Follows s (create_workbench_session user session_id kinds now s).1
unfolding create_workbench_session append_event
create-Follows user session_id kinds now s v = transaction-Follows s _ v (
    proceed-Follows s (insert_session (new_session user session_id) s) _
      (insert_session-Follows _ s v)
      λ _ s₁ f₁.
        proceed-Follows s (insert_runs (new_runs user session_id kinds now s) s₁) _
          (Follows-trans s s₁ _ f₁ (
            insert_runs-Follows (new_runs user session_id kinds now s) s₁ f₁.sound
              (new_runs-IsUnstarted user session_id now _ kinds)))
          λ _ s₂ f₂.
            proceed-Follows s (insert_triage (new_triage user session_id now) s₂) _
              (Follows-trans s s₂ _ f₂ (insert_triage-Follows _ s₂ f₂.sound))
              λ _ s₃ f₃. Follows-trans s s₃ _ f₃ (Follows-still s₃ _ refl refl f₃.sound))
