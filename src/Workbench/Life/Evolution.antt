-- ===== src/Workbench/Life/Evolution.antt =====
-- How the tables of runs and jobs evolve together when rows of them are updated.
use cv_match.Common.{
  ◌≡◌, refl, sym, ◌∙◌, inl, inr, Bool, true, false, some, All-both, All-map, any, List, [], ◌∷◌,
  All, Bool-cases, subst, any, find,
}
use cv_match.Common.Updates.{
  update_where, IsKeyed, update_where-IsKeyed, any_key-update_where, has_key_of, found_only,
}
use cv_match.Workbench.Tables.{SourceRun, Job, Store, run_key, job_key}
use cv_match.Workbench.Life.{◌⟶*◌, here, ⟶*_trans, phase, IsSettled, Lives}

-- Every run lived on, and a new one is in a phase.
abbrev pub Evolves : List Job → List Job → List SourceRun → List SourceRun → Type 0
Evolves jobs jobs' [] ys = All (IsSettled jobs') ys
Evolves jobs jobs' (x ∷ xs) [] = ⊥
Evolves jobs jobs' (x ∷ xs) (y ∷ ys) = Lives jobs jobs' x y × Evolves jobs jobs' xs ys

-- the foreign key of a job
abbrev pub IsLinked : List SourceRun → Job → Type 0
IsLinked runs job = any (has_key_of run_key job.source_run_id) runs ≡ true

pub update_where-IsLinked :
    (p : SourceRun → Bool) (f : SourceRun → SourceRun)
    → ((run : SourceRun) → (f run).source_run_id ≡ run.source_run_id)
    → (runs : List SourceRun) (jobs : List Job) → All (IsLinked runs) jobs
    → All (IsLinked (update_where p f runs)) jobs
update_where-IsLinked p f keeps runs jobs h =
    All-map jobs (λ job e. any_key-update_where run_key p f keeps job.source_run_id runs ∙ e) h

-- The keys are unique, every job has its run, and every run is in a phase.
pub record IsSound (s : Store) : Type 0 where
  pub runs_keyed : IsKeyed run_key s.runs
  pub jobs_keyed : IsKeyed job_key s.jobs
  pub linked : All (IsLinked s.runs) s.jobs
  pub settled : All (IsSettled s.jobs) s.runs

-- What an operation does to a sound store.
pub record Follows (s t : Store) : Type 0 where
  pub sound : IsSound t
  pub evolves : Evolves s.jobs t.jobs s.runs t.runs

some_eq {ℓ} : {A : Type ℓ} {x y : A} → some x ≡ some y → x ≡ y
some_eq h = cc

Lives-trans :
    {jobs jobs' jobs'' : List Job} (x y z : SourceRun)
    → Lives jobs jobs' x y
    → Lives jobs' jobs'' y z
    → Lives jobs jobs'' x z
Lives-trans x y z a b = record {
  same_id = b.same_id ∙ a.same_id;
  before = a.before;
  after = b.after;
  in_before = a.in_before;
  in_after = b.in_after;
  way = ⟶*_trans (subst (λ p. a.before ⟶* p) (some_eq (sym a.in_after ∙ b.in_before)) a.way) b.way;
}

Lives-IsSettled :
    {jobs jobs' : List Job} (x y : SourceRun) → Lives jobs jobs' x y → IsSettled jobs' y
Lives-IsSettled x y a = (a.after, a.in_after)

pub Evolves-IsSettled :
    (jobs jobs' : List Job) (xs ys : List SourceRun)
    → Evolves jobs jobs' xs ys
    → All (IsSettled jobs') ys
Evolves-IsSettled jobs jobs' [] ys e = e
Evolves-IsSettled jobs jobs' (x ∷ xs) [] e = absurd e
Evolves-IsSettled jobs jobs' (x ∷ xs) (y ∷ ys) e =
    (Lives-IsSettled x y e.0, Evolves-IsSettled jobs jobs' xs ys e.1)

Evolves-trans :
    (jobs jobs' jobs'' : List Job) (xs ys zs : List SourceRun)
    → Evolves jobs jobs' xs ys
    → Evolves jobs' jobs'' ys zs
    → Evolves jobs jobs'' xs zs
Evolves-trans jobs jobs' jobs'' [] ys zs a b = Evolves-IsSettled jobs' jobs'' ys zs b
Evolves-trans jobs jobs' jobs'' (x ∷ xs) [] zs a b = absurd a
Evolves-trans jobs jobs' jobs'' (x ∷ xs) (y ∷ ys) [] a b = absurd b
Evolves-trans jobs jobs' jobs'' (x ∷ xs) (y ∷ ys) (z ∷ zs) a b =
    (Lives-trans x y z a.0 b.0, Evolves-trans jobs jobs' jobs'' xs ys zs a.1 b.1)

pub Follows-trans : (s t u : Store) → Follows s t → Follows t u → Follows s u
Follows-trans s t u a b = record {
  sound = b.sound;
  evolves = Evolves-trans s.jobs t.jobs u.jobs s.runs t.runs u.runs a.evolves b.evolves;
}

-- An UPDATE of runs, beside a change of the jobs.
pub Evolves-update_where {ℓ} :
    {jobs jobs' : List Job} (P : SourceRun → Type ℓ) (p : SourceRun → Bool)
    (f : SourceRun → SourceRun)
    → ((run : SourceRun) → p run ≡ true → P run → Lives jobs jobs' run (f run))
    → ((run : SourceRun) → p run ≡ false → P run → Lives jobs jobs' run run)
    → (runs : List SourceRun) → All P runs
    → Evolves jobs jobs' runs (update_where p f runs)
Evolves-update_where P p f hit miss [] h = tt
Evolves-update_where P p f hit miss (run ∷ runs) h = elim (Bool-cases (p run)) [
  | inl e ↦ rw e (hit run e h.0, Evolves-update_where P p f hit miss runs h.1)
  | inr e ↦ rw e (miss run e h.0, Evolves-update_where P p f hit miss runs h.1)
]

pub Lives-stays :
    {jobs jobs' : List Job} (run run' : SourceRun)
    → IsSettled jobs run
    → run'.source_run_id ≡ run.source_run_id
    → phase jobs' run' ≡ phase jobs run
    → Lives jobs jobs' run run'
Lives-stays run run' h e same = record {
  same_id = e;
  before = h.0;
  after = h.0;
  in_before = h.1;
  in_after = same ∙ h.1;
  way = here;
}

-- From the keys and the evolution, the rest.
pub Follows-of :
    (s t : Store)
    → IsKeyed run_key t.runs
    → IsKeyed job_key t.jobs
    → All (IsLinked t.runs) t.jobs
    → Evolves s.jobs t.jobs s.runs t.runs
    → Follows s t
Follows-of s t runs jobs linked e = record {
  sound = record {
    runs_keyed = runs;
    jobs_keyed = jobs;
    linked = linked;
    settled = Evolves-IsSettled s.jobs t.jobs s.runs t.runs e;
  };
  evolves = e;
}

-- A change of the jobs that no phase depends on.
pub Follows-quiet :
    (s t : Store)
    → t.runs ≡ s.runs
    → IsKeyed job_key t.jobs
    → All (IsLinked s.runs) t.jobs
    → ((run : SourceRun) → phase t.jobs run ≡ phase s.jobs run)
    → IsSound s
    → Follows s t
Follows-quiet s t e jobs linked same v =
    Follows-of s t (rw e v.runs_keyed) jobs (rw e linked) (rw e (still s.runs v.settled))
  where
    still : (runs : List SourceRun) → All (IsSettled s.jobs) runs → Evolves s.jobs t.jobs runs runs
    still [] h = tt
    still (run ∷ runs) h = (Lives-stays run run h.0 refl (same run), still runs h.1)

-- Tables other than those of the runs and the jobs changed, if any.
pub Follows-still : (s t : Store) → t.runs ≡ s.runs → t.jobs ≡ s.jobs → IsSound s → Follows s t
Follows-still s t runs jobs v =
    Follows-quiet s t runs (rw jobs v.jobs_keyed) (rw jobs v.linked) (λ run. rw jobs refl) v

pub Follows-refl : (s : Store) → IsSound s → Follows s s
Follows-refl s v = Follows-still s s refl refl v

-- The rows of a sound table, with what a search found of them.
abbrev pub IsRow : Store → SourceRun → SourceRun → Type 0
IsRow s found run = IsSettled s.jobs run × (run.source_run_id ≡ found.source_run_id → run ≡ found)

pub rows-IsRow :
    (s : Store) (p : SourceRun → Bool) (found : SourceRun)
    → IsSound s
    → find p s.runs ≡ some found
    → All (IsRow s found) s.runs
rows-IsRow s p found v e =
    All-both _ _ s.runs v.settled (found_only run_key p s.runs found v.runs_keyed e)

-- Runs without a change of their jobs.
pub Follows-runs {ℓ} :
    (P : SourceRun → Type ℓ) (s t : Store) (p : SourceRun → Bool) (f : SourceRun → SourceRun)
    → t.jobs ≡ s.jobs
    → t.runs ≡ update_where p f s.runs
    → ((run : SourceRun) → (f run).source_run_id ≡ run.source_run_id)
    → ((run : SourceRun)
        → p run ≡ true
        → IsSettled s.jobs run × P run
        → Lives s.jobs s.jobs run (f run))
    → IsSound s
    → All (λ run. IsSettled s.jobs run × P run) s.runs
    → Follows s t
Follows-runs P s t p f jobs runs keeps hit v rows =
    Follows-of s t (rw runs (update_where-IsKeyed run_key p f keeps s.runs v.runs_keyed))
      (rw jobs v.jobs_keyed)
      (rw (runs, jobs) (update_where-IsLinked p f keeps s.runs s.jobs v.linked))
      (rw (runs, jobs)
        (Evolves-update_where _ p f hit (λ run e h. Lives-stays run run h.0 refl refl) s.runs rows))
