-- ===== src/Workbench/Details/Budget.antt =====
-- The budget of detail opens: at most 100 on a day, and one lease at a time, for each connection.
use cv_match.Common.{ℕ, ◌≡◌, refl, inl, inr, List, [], arith, Bool-cases}
use cv_match.Workbench.Tables.{RowId, User, Store}
use cv_match.Workbench.Sessions.{session_exists_for_user}
use cv_match.Workbench.Details.{OpenMode, Evidence, Request, Desk}
use cv_match.Workbench.Details.Leases.{reconcile_detail_leases}
use cv_match.Workbench.Jobs.Claims.{Context}
use cv_match.Workbench.Details.Cards.{LaneResult, complete_lane}
use cv_match.Workbench.Details.Requests.{
  update_source_run_policy, Ask, create_detail_open_request, create_in_transaction,
  approve_detail_open_request, approve_in_transaction, reject_detail_open_request, create_target,
  approve_row, review_target, owned_request,
}
use cv_match.Workbench.Details.Spending.{
  IsBudgeted, same_ledger, reconcile-IsBudgeted, raised-IsBudgeted, create-IsBudgeted,
  approve-IsBudgeted, reject-IsBudgeted,
}
use cv_match.Workbench.Details.Searches.{lane-IsBudgeted}

-- One call of a method that reads or writes the ledger, or any change that other methods make to
-- the other tables.
pub data DeskStep : Desk → Desk → Type 0 where
  sets_policy :
      {d : Desk} (user : User) (session_id : RowId) (mode : OpenMode) (now : ℕ)
      → DeskStep d (update_source_run_policy user session_id mode now d).1
  asks :
      {d : Desk} (reconciled_at : ℕ) (ask : Ask)
      → DeskStep d (create_detail_open_request reconciled_at ask d).1
  approves :
      {d : Desk} (reconciled_at : ℕ) (user : User) (request_id ledger_id : RowId) (now : ℕ)
      → DeskStep d (approve_detail_open_request reconciled_at user request_id ledger_id now d).1
  rejects :
      {d : Desk} (user : User) (request_id : RowId) (now : ℕ)
      → DeskStep d (reject_detail_open_request user request_id now d).1
  reconciles : {d : Desk} (now : ℕ) → DeskStep d (reconcile_detail_leases now d)
  ends_lane :
      {d : Desk} (result : LaneResult) (now : ℕ) (context : Context)
      → DeskStep d (complete_lane result now context d).1
  others :
      {d : Desk} (store : Store) (evidence : List Evidence) (requests : List Request)
      → DeskStep d (record d { store = store; evidence = evidence; requests = requests })

pub data DeskReach (d : Desk) : Desk → Type 0 where
  here : DeskReach d d
  next : {e f : Desk} → DeskReach d e → DeskStep e f → DeskReach d f

DeskStep-IsBudgeted : {d e : Desk} → DeskStep d e → IsBudgeted d → IsBudgeted e
unfolding update_source_run_policy create_detail_open_request create_in_transaction
    approve_detail_open_request approve_in_transaction reject_detail_open_request
DeskStep-IsBudgeted {d} (sets_policy user session_id mode now) v =
    elim (Bool-cases (session_exists_for_user user session_id d.store)) [
      | inl e ↦ rw e (same_ledger d _ refl v)
      | inr e ↦ rw e v
    ]
DeskStep-IsBudgeted {d} (asks reconciled_at ask) v =
    let e = reconcile_detail_leases reconciled_at d in
    let w = reconcile-IsBudgeted reconciled_at d v in
    raised-IsBudgeted e
      (create_target ask e (review_target ask.user ask.session_id ask.review_item_id e)) w
      (create-IsBudgeted ask e (review_target ask.user ask.session_id ask.review_item_id e) w)
DeskStep-IsBudgeted {d} (approves reconciled_at user request_id ledger_id now) v =
    let e = reconcile_detail_leases reconciled_at d in
    let w = reconcile-IsBudgeted reconciled_at d v in
    raised-IsBudgeted e (approve_row request_id ledger_id now e (owned_request user request_id e)) w
      (approve-IsBudgeted request_id ledger_id now e (owned_request user request_id e) w)
DeskStep-IsBudgeted {d} (rejects user request_id now) v =
    reject-IsBudgeted request_id now d (owned_request user request_id d) v
DeskStep-IsBudgeted {d} (reconciles now) v = reconcile-IsBudgeted now d v
DeskStep-IsBudgeted {d} (ends_lane result now context) v = lane-IsBudgeted result now context d v
DeskStep-IsBudgeted {d} (others store evidence requests) v = same_ledger d _ refl v

-- From a desk without leases, whatever calls follow of the methods that write the ledger of
-- details, the end of a card search with its own requests included, in any order and with any
-- changes of the other tables between them: on no day are more than 100 details of a connection leased, opened or
-- perhaps used, and a connection never has two open leases.
pub DeskReach-IsBudgeted : {d e : Desk} → d.ledger ≡ [] → DeskReach d e → IsBudgeted e
DeskReach-IsBudgeted {d} h here = record {
  spent = λ c day. rw h (omega arith);
  single = λ c. rw h (omega arith);
}
DeskReach-IsBudgeted {d} h (next r step) = DeskStep-IsBudgeted step (DeskReach-IsBudgeted h r)
