-- ===== src/Workbench/Life/Lanes.antt =====
-- The end of a Liepin card search follows the life cycle.
use cv_match.Common.{
  ℕ, ◌≡◌, refl, ◌∙◌, inl, inr, Bool, true, Option, none, some, List, [], ◌∷◌, arith, ◌==◌, All-map,
  find, any, leb, Option-cases, Bool-cases, find-eq-some, find-All, ok, err, ◌&&◌,
}
use cv_match.Common.Updates.{update_where_twice, count}
use cv_match.Workbench.Tables.{RowId, Connection, SourceRun, Job, Store, EventName, job_runs}
use cv_match.Workbench.Events.{Scope, append_event}
use cv_match.Workbench.Sessions.{of_user}
use cv_match.Workbench.Jobs.{job_of, set_run}
use cv_match.Workbench.Jobs.Claims.{Context}
use cv_match.Workbench.Jobs.Endings.{end_run, finish_row}
use cv_match.Workbench.Details.{
  OpenMode, human_confirm, bypass_confirm, Request, Desk, DetailError, active_detail_open_lease,
  detail_budget_exhausted,
}
use cv_match.Workbench.Details.Leases.{
  lease_request, block_request, holds_lease, spends_on, budget_day_of, daily_limit, violates,
  new_ledger_row, same_detail_key, count_blocked, count_used,
}
use cv_match.Workbench.Details.Requests.{DeskOutcome, desk_transaction, open_mode}
use cv_match.Workbench.Details.Cards.{
  Card, LaneStatus, lane_completed, lane_partial, lane_blocked, lane_failed, lane_cancelled,
  LaneResult, auto_lease, add_request, auto_request, should_request, persist_card, persist_cards,
  see_card, on_desk, owner_connection, context_user, lane_ending, count_lane, end_lane,
  complete_lane_found, complete_lane,
}
use cv_match.Workbench.Life.Evolution.{
  IsSound, Follows, Follows-refl, Follows-trans, Follows-still, Follows-runs, Lives-stays,
}
use cv_match.Workbench.Life.Leases.{IsHeld}
use cv_match.Workbench.Life.Ends.{IsEnding, Attached, Attached-refl, Fits, held, ended-Follows}

Attached-trans : (s t u : Store) → Attached s t → (IsSound t → Attached t u) → Attached s u
Attached-trans s t u a b = let c = b a.0.sound in (Follows-trans s t u a.0 c.0, c.1 ∙ a.1)

-- an event, and a count of a run
event-Attached :
    (scope : Scope) (name : EventName) (s : Store)
    → IsSound s
    → Attached s (append_event scope name s)
unfolding append_event
event-Attached scope name s v = (Follows-still s _ refl refl v, refl)

module _ (f : SourceRun → SourceRun)
    (same_id : (run : SourceRun) → (f run).source_run_id ≡ run.source_run_id)
    (same_status : (run : SourceRun) → (f run).status ≡ run.status) where
  bump-Attached :
      (id : RowId) (scope : Scope) (name : EventName) (s : Store)
      → IsSound s
      → Attached s (append_event scope name (set_run id f s))
  unfolding append_event
  bump-Attached id scope name s v = (
    Follows-runs (λ run. Unit {0}) s (append_event scope name (set_run id f s))
        (λ run. run.source_run_id == id) f refl refl same_id
        (λ run e h.
          Lives-stays run (f run) h.0 (same_id run) (rw (same_id run, same_status run) refl))
        v (All-map s.runs (λ run h. (h, tt)) v.settled),
    refl,
  )

lease-Attached :
    (request_id ledger_id now : ℕ) (d : Desk)
    → IsSound d.store
    → Attached d.store (lease_request request_id ledger_id now d).1.store
unfolding lease_request block_request
lease-Attached request_id ledger_id now d v =
    elim (Option-cases (find (λ request. request.request_id == request_id) d.requests)) [
      | inl e ↦ rw e (Attached-refl d.store v)
      | inr (row, e) ↦ rw e (elim (Bool-cases (any (holds_lease row.connection_id now) d.ledger)) [
        | inl active ↦ rw active (refused active_detail_open_lease row)
        | inr idle ↦
            rw idle
              (elim (Bool-cases (
                leb daily_limit
                  (count (spends_on row.connection_id (budget_day_of now)) d.ledger))) [
                    | inl full ↦ rw full (refused detail_budget_exhausted row)
                    | inr below ↦
                        rw below
                          (elim (Bool-cases
                            (any (violates (new_ledger_row row ledger_id now)) d.ledger)) [
                              | inl taken ↦ rw taken (refused active_detail_open_lease row)
                              | inr fresh ↦ rw fresh (
                                  bump-Attached count_used (λ run. refl) (λ run. refl)
                                    row.source_run_id _ _ d.store v)
                            ])
                  ])
      ])
    ]
  where
    refused :
        (reason : DetailError) (row : Request)
        → Attached d.store (block_request row reason now d).store
    refused reason row =
        bump-Attached count_blocked (λ run. refl) (λ run. refl) row.source_run_id _ _ d.store v

on_desk-Attached :
    {A B : Type 0} (s : Store) (m : DeskOutcome A) (f : A → Desk → DeskOutcome B)
    → Attached s m.1.store
    → ((a : A) (e : Desk) → IsSound e.store → Attached e.store (f a e).1.store)
    → Attached s (on_desk m f).1.store
on_desk-Attached s (ok a, e) f h k = Attached-trans s e.store _ h (k a e)
on_desk-Attached s (err x, e) f h k = h

module _ (context : Context) (now : ℕ) where
  -- Requests for the details of cards change no job, and of a run no more than its counts.
  auto_lease-Attached :
      (mode : OpenMode) (c : Card) (d : Desk)
      → IsSound d.store
      → Attached d.store (auto_lease mode c now d).store
  auto_lease-Attached human_confirm c d v = Attached-refl d.store v
  auto_lease-Attached bypass_confirm c d v = lease-Attached c.request_id c.ledger_id now d v

  add_request-Attached :
      (new : Request) (c : Card) (requested : ℕ) (d : Desk)
      → IsSound d.store
      → Attached d.store (add_request new c now requested d).1.store
  add_request-Attached new c requested d v =
      elim (Bool-cases (
        any
          (λ request.
            of_user (record { user_id = new.user_id; workspace_id = new.workspace_id })
              request.workspace_id request.user_id
            && same_detail_key request.idempotency_key new.idempotency_key)
          d.requests)) [
            | inl there ↦ rw there (Attached-refl d.store v)
            | inr none_there ↦
                rw none_there
                  (elim (Bool-cases
                    (any (λ request. request.request_id == new.request_id) d.requests)) [
                      | inl taken ↦ rw taken (Attached-refl d.store v)
                      | inr fresh ↦ rw fresh (
                          Attached-trans d.store _ _ (event-Attached _ _ d.store v)
                            (auto_lease-Attached new.detail_open_mode c _))
                    ])
          ]

  persist_card-Attached :
      (uses_runtime : Bool) (mode : OpenMode) (connection : Option Connection) (requested : ℕ)
      (c : Card) (d : Desk)
      → IsSound d.store
      → Attached d.store
          (persist_card context uses_runtime mode connection now requested c d).1.store
  persist_card-Attached uses_runtime mode none requested c d v = Attached-refl d.store v
  persist_card-Attached uses_runtime mode (some connection) requested c d v =
      elim (Bool-cases (should_request uses_runtime requested c)) [
        | inl e ↦ rw e (
            add_request-Attached (auto_request context connection.connection_id mode now c) c
              requested (see_card context now c d) v)
        | inr e ↦ rw e (Attached-refl d.store v)
      ]

  persist_cards-Attached :
      (uses_runtime : Bool) (mode : OpenMode) (connection : Option Connection) (requested : ℕ)
      (cards : List Card) (d : Desk)
      → IsSound d.store
      → Attached d.store
          (persist_cards context uses_runtime mode connection now requested cards d).1.store
  unfolding persist_cards
  persist_cards-Attached uses_runtime mode connection requested [] d v = Attached-refl d.store v
  persist_cards-Attached uses_runtime mode connection requested (c ∷ cards) d v =
      on_desk-Attached d.store (persist_card context uses_runtime mode connection now requested c d)
        _ (persist_card-Attached uses_runtime mode connection requested c d v)
        (λ n e w. persist_cards-Attached uses_runtime mode connection n cards e w)

lane-IsEnding :
    (result : LaneResult) (status : LaneStatus)
    → result.status ≡ status
    → IsEnding (lane_ending result)
lane-IsEnding result lane_completed e = rw e (tt, refl)
lane-IsEnding result lane_partial e = rw e (tt, refl)
lane-IsEnding result lane_blocked e = rw e (tt, refl)
lane-IsEnding result lane_failed e = rw e (tt, refl)
lane-IsEnding result lane_cancelled e = rw e (tt, refl)

end_lane-Follows :
    (result : LaneResult) (now : ℕ) (context : Context) (row : Job) (s : Store)
    → row.source_run_id ≡ context.job.source_run_id
    → IsSound s
    → IsHeld (λ job. job_runs job.status) s row
    → Follows s (end_lane result now context row s)
unfolding finish_row append_event
end_lane-Follows result now context row s same v h =
    ended-Follows (lane_ending result) now (count_lane result) (λ run. refl) row s _
      (lane-IsEnding result result.status refl) v h refl
      (rw same (
        update_where_twice (λ run. run.source_run_id == context.job.source_run_id)
          (count_lane result) (end_run (lane_ending result)) (λ run. refl) s.runs))

pub complete_lane-Follows :
    (result : LaneResult) (now : ℕ) (context : Context) (d : Desk)
    → Fits context d.store
    → IsSound d.store
    → Follows d.store (complete_lane result now context d).1.store
unfolding complete_lane
complete_lane-Follows result now context d fits v =
    undone (complete_lane_found result now context d (job_of context.job.job_id d.store))
      (elim (Option-cases (job_of context.job.job_id d.store)) [
        | inl e ↦ rw e (Follows-refl d.store v)
        | inr (row, e) ↦ rw e (elim (Bool-cases (job_runs row.status)) [
          | inl runs ↦ rw runs (
              ends _ row e runs _ (
                persist_cards-Attached context now result.uses_runtime_recommendations
                  (open_mode (context_user context) context.session.session_id d)
                  (owner_connection context d.store) 0 result.cards d v))
          | inr stops ↦ rw stops (Follows-refl d.store v)
        ])
      ])
  where
    undone :
        {A : Type 0} (m : DeskOutcome A)
        → Follows d.store m.1.store
        → Follows d.store (desk_transaction d m).1.store
    undone (ok a, e) h = h
    undone (err x, e) h = Follows-refl d.store v

    run_of_row :
        (row : Job)
        → job_of context.job.job_id d.store ≡ some row
        → row.source_run_id ≡ context.job.source_run_id
    run_of_row row e =
        find-All _ (λ job. job.job_id == context.job.job_id) d.store.jobs fits e
          (ground
            (arith, find-eq-some (λ job. job.job_id == context.job.job_id) d.store.jobs row e))

    ends :
        {A : Type 0} (items : A) (row : Job)
        → job_of context.job.job_id d.store ≡ some row
        → job_runs row.status ≡ true
        → (m : DeskOutcome ℕ) → Attached d.store m.1.store
        → Follows d.store
            (on_desk m (λ requested e.
              (ok items, record e { store = end_lane result now context row e.store }))).1.store
    ends items row e runs (err x, f) h = h.0
    ends items row e runs (ok n, f) (follows, jobs) = Follows-trans d.store f.store _ follows (
        end_lane-Follows result now context row f.store (run_of_row row e) follows.sound
          (rw jobs (held context.job.job_id row d.store e), runs))
