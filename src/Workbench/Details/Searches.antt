-- ===== src/Workbench/Details/Searches.antt =====
-- What the end of a card search keeps of the budget of detail opens.
use cv_match.Common.{
  ℕ, Bool, refl, inl, inr, ◌&&◌, ◌==◌, Option, none, some, List, [], ◌∷◌, ok, err, any, Bool-cases,
}
use cv_match.Workbench.Tables.{Connection}
use cv_match.Workbench.Sessions.{of_user}
use cv_match.Workbench.Details.{OpenMode, human_confirm, bypass_confirm, Request, Desk}
use cv_match.Workbench.Details.Leases.{same_detail_key}
use cv_match.Workbench.Tables.{Job, job_runs}
use cv_match.Workbench.Jobs.{job_of}
use cv_match.Workbench.Jobs.Claims.{Context}
use cv_match.Workbench.Details.Cards.{
  Card, LaneResult, auto_lease, add_request, auto_request, should_request, persist_card,
  persist_cards, see_card, on_desk, owner_connection, context_user, complete_lane_found,
  complete_lane,
}
use cv_match.Workbench.Details.Requests.{DeskOutcome, desk_transaction, open_mode}
use cv_match.Workbench.Details.Spending.{IsBudgeted, same_ledger, lease_request-IsBudgeted}

on_desk-IsBudgeted :
    {A B : Type 0} (m : DeskOutcome A) (f : A → Desk → DeskOutcome B)
    → IsBudgeted m.1
    → ((a : A) (e : Desk) → IsBudgeted e → IsBudgeted (f a e).1)
    → IsBudgeted (on_desk m f).1
on_desk-IsBudgeted (ok a, e) f h k = k a e h
on_desk-IsBudgeted (err x, e) f h k = h

module _ (context : Context) (now : ℕ) where
  auto_lease-IsBudgeted :
      (mode : OpenMode) (c : Card) (d : Desk) → IsBudgeted d → IsBudgeted (auto_lease mode c now d)
  auto_lease-IsBudgeted human_confirm c d v = v
  auto_lease-IsBudgeted bypass_confirm c d v =
      lease_request-IsBudgeted c.request_id c.ledger_id now d v

  add_request-IsBudgeted :
      (new : Request) (c : Card) (requested : ℕ) (d : Desk)
      → IsBudgeted d
      → IsBudgeted (add_request new c now requested d).1
  add_request-IsBudgeted new c requested d v =
      elim (Bool-cases (
        any
          (λ request.
            of_user (record { user_id = new.user_id; workspace_id = new.workspace_id })
              request.workspace_id request.user_id
            && same_detail_key request.idempotency_key new.idempotency_key)
          d.requests)) [
            | inl there ↦ rw there v
            | inr none_there ↦
                rw none_there
                  (elim (Bool-cases
                    (any (λ request. request.request_id == new.request_id) d.requests)) [
                      | inl taken ↦ rw taken v
                      | inr fresh ↦
                          rw fresh (
                            auto_lease-IsBudgeted new.detail_open_mode c _ (same_ledger d _ refl v))
                    ])
          ]

  persist_card-IsBudgeted :
      (uses_runtime : Bool) (mode : OpenMode) (connection : Option Connection) (requested : ℕ)
      (c : Card) (d : Desk)
      → IsBudgeted d
      → IsBudgeted (persist_card context uses_runtime mode connection now requested c d).1
  persist_card-IsBudgeted uses_runtime mode none requested c d v = same_ledger d _ refl v
  persist_card-IsBudgeted uses_runtime mode (some connection) requested c d v =
      elim (Bool-cases (should_request uses_runtime requested c)) [
        | inl e ↦ rw e (
            add_request-IsBudgeted (auto_request context connection.connection_id mode now c) c
              requested (see_card context now c d) (same_ledger d _ refl v))
        | inr e ↦ rw e (same_ledger d _ refl v)
      ]

  persist_cards-IsBudgeted :
      (uses_runtime : Bool) (mode : OpenMode) (connection : Option Connection) (requested : ℕ)
      (cards : List Card) (d : Desk)
      → IsBudgeted d
      → IsBudgeted (persist_cards context uses_runtime mode connection now requested cards d).1
  unfolding persist_cards
  persist_cards-IsBudgeted uses_runtime mode connection requested [] d v = v
  persist_cards-IsBudgeted uses_runtime mode connection requested (c ∷ cards) d v =
      on_desk-IsBudgeted (persist_card context uses_runtime mode connection now requested c d) _
        (persist_card-IsBudgeted uses_runtime mode connection requested c d v)
        (λ n e w. persist_cards-IsBudgeted uses_runtime mode connection n cards e w)

pub lane-IsBudgeted :
    (result : LaneResult) (now : ℕ) (context : Context) (d : Desk)
    → IsBudgeted d
    → IsBudgeted (complete_lane result now context d).1
unfolding complete_lane
lane-IsBudgeted result now context d v =
    undone (complete_lane_found result now context d (job_of context.job.job_id d.store))
      (found (job_of context.job.job_id d.store))
  where
    undone : {A : Type 0} (m : DeskOutcome A) → IsBudgeted m.1 → IsBudgeted (desk_transaction d m).1
    undone (ok a, e) h = h
    undone (err x, e) h = v

    found : (row : Option Job) → IsBudgeted (complete_lane_found result now context d row).1
    found none = v
    found (some row) = elim (Bool-cases (job_runs row.status)) [
      | inl runs ↦ rw runs (
          on_desk-IsBudgeted
            (persist_cards context result.uses_runtime_recommendations
              (open_mode (context_user context) context.session.session_id d)
              (owner_connection context d.store) now 0 result.cards d)
            _
            (persist_cards-IsBudgeted context now result.uses_runtime_recommendations
              (open_mode (context_user context) context.session.session_id d)
              (owner_connection context d.store) 0 result.cards d v)
            (λ n e w. same_ledger e _ refl w))
      | inr stops ↦ rw stops v
    ]
