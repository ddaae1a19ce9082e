-- ===== src/Workbench/Life/Steps/Finality.antt =====
-- What the life cycle says of a store after any sequence of steps.
use cv_match.Common.{
  ℕ, ◌≤◌, ◌+◌, ◌≡◌, refl, sym, ap, ◌∙◌, inl, inr, Bool, true, false, ◌&&◌, some, List, [], ◌∷◌,
  arith, All-map, any-eq-find, find-All, any, find, find-eq-some, Bool-cases, Option-cases, ◌==◌,
}
use cv_match.Common.Updates.{count, count_of_all, has_key_of}
use cv_match.Workbench.Tables.{
  RowId, RunStatus, SourceRun, Job, Store, empty_store, is_active, is_terminal, run_key,
}
use cv_match.Workbench.Jobs.{run_of}
use cv_match.Workbench.Life.{
  Phase, finished, broken, ◌⟶◌, ◌⟶*◌, here, next, phase_shape, status_of, waits_for, runs_for,
  IsSettled, Lives, start, restart, hold, release, claim, complete, fail, interrupt,
}
use cv_match.Workbench.Life.Evolution.{IsSound, Follows, Evolves, Follows-refl, Follows-trans}
use cv_match.Workbench.Life.Steps.{Step, Reach, Step-Follows}
use cv_match.Workbench.Life.Steps

pub Reach-Follows : {s t : Store} → Reach s t → IsSound s → Follows s t
Reach-Follows {s} Steps.here v = Follows-refl s v
Reach-Follows {s} {t} (Steps.next {t = u} r step) v =
    let before = Reach-Follows r v in Follows-trans s u t before (Step-Follows step before.sound)

pub empty-IsSound : IsSound empty_store
empty-IsSound = record { runs_keyed = tt; jobs_keyed = tt; linked = tt; settled = tt }

abbrev is_done : Phase → Bool
is_done finished = true
is_done broken = true
is_done _ = false

leaves : {p q : Phase} → p ⟶ q → is_done p ≡ false
leaves start = refl
leaves restart = refl
leaves hold = refl
leaves release = refl
leaves claim = refl
leaves complete = refl
leaves fail = refl
leaves interrupt = refl

done_stays : {p q : Phase} → p ⟶* q → is_done p ≡ true → q ≡ p
done_stays here d = refl
done_stays (next e way) d = let open_phase = leaves e in absurd (ground arith)

-- The run that an id finds lived on as the run that it finds later.
find-Evolves :
    (id : RowId) (jobs jobs' : List Job) (xs ys : List SourceRun) (x : SourceRun)
    → Evolves jobs jobs' xs ys
    → find (has_key_of run_key id) xs ≡ some x
    → (y : SourceRun) × ((find (has_key_of run_key id) ys ≡ some y) × Lives jobs jobs' x y)
find-Evolves id jobs jobs' [] ys x e h = absurd (ground arith)
find-Evolves id jobs jobs' (z ∷ xs) [] x e h = absurd e
find-Evolves id jobs jobs' (z ∷ xs) (y ∷ ys) x e h = elim (Bool-cases (z.source_run_id == id)) [
  | inl same ↦ (y, (ground (arith, e.0.same_id), let e' : z ≡ x = ground arith in rw (← e') e.0))
  | inr other ↦
      let (y', (found, lives)) = find-Evolves id jobs jobs' xs ys x e.1 (ground arith) in
      (y', (ground (arith, e.0.same_id, found), lives))
]

-- In a sound store, a run that has completed or failed keeps its status, whatever sequence follows
-- of the methods that change statuses of runs or the queue of jobs, where a completion with a
-- context is given one with the run of the context's own job.
pub Reach_final :
    {s t : Store} (source_run_id : RowId) (run : SourceRun)
    → IsSound s
    → Reach s t
    → run_of source_run_id s ≡ some run
    → is_terminal run.status ≡ true
    → (run' : SourceRun) × ((run_of source_run_id t ≡ some run') × (run'.status ≡ run.status))
Reach_final {s} {t} source_run_id run v r found terminal =
    let (run', (found', lives)) =
      find-Evolves source_run_id s.jobs t.jobs s.runs t.runs run (Reach-Follows r v).evolves
        found in
    let before : run.status ≡ status_of lives.before =
      (phase_shape _ run.status _ _ lives.in_before).0 in
    let after : run'.status ≡ status_of lives.after =
      (phase_shape _ run'.status _ _ lives.in_after).0 in
    let done : is_done lives.before ≡ true = is_done_of lives.before run.status before terminal in
    let stays : lives.after ≡ lives.before = done_stays lives.way done in
    (run', (found', after ∙ (ap status_of stays ∙ sym before)))
  where
    is_done_of :
        (p : Phase) (status : RunStatus)
        → status ≡ status_of p
        → is_terminal status ≡ true
        → is_done p ≡ true
    is_done_of p status e h = ground arith

-- the jobs of a run that are queued or running
abbrev pub active_for : RowId → Job → Bool
active_for source_run_id job = job.source_run_id == source_run_id && is_active job.status

count_active :
    (id : RowId) (jobs : List Job)
    → count (active_for id) jobs ≡ count (waits_for id) jobs + count (runs_for id) jobs
count_active id [] = refl
count_active id (job ∷ jobs) = ground (arith, count_active id jobs)

-- After any sequence, on an empty store, of the methods that change statuses of runs or the queue
-- of jobs, no source run has more than one job that is queued or running. A completion with a
-- context is given one with the run of the context's own job.
pub Reach-one_active :
    {t : Store} (source_run_id : RowId)
    → Reach empty_store t
    → count (active_for source_run_id) t.jobs ≤ 1
Reach-one_active {t} source_run_id r = elim (Option-cases (run_of source_run_id t)) [
  | inl e ↦ omega (
    arith,
    count_of_all (active_for source_run_id) t.jobs (
        All-map t.jobs
          (λ job h. ground (
            arith,
            same job.source_run_id source_run_id,
            any-eq-find (has_key_of run_key source_run_id) t.runs e,
          ))
          sound.linked),
  )
  | inr (run, e) ↦
      let (p, h) =
        find-All (IsSettled t.jobs) (has_key_of run_key source_run_id) t.runs sound.settled e in
      let id : run.source_run_id ≡ source_run_id =
        ground (arith, find-eq-some (has_key_of run_key source_run_id) t.runs run e) in
      ground (
        arith,
        count_active run.source_run_id t.jobs,
        phase_shape p run.status _ _ h,
        ap (λ k. count (active_for k) t.jobs) id,
      )
]
  where
    sound : IsSound t
    sound = (Reach-Follows r empty-IsSound).sound

    same : (k l : ℕ) → k ≡ l → any (has_key_of run_key k) t.runs ≡ any (has_key_of run_key l) t.runs
    same k l e = ap (λ x. any (has_key_of run_key x) t.runs) e
