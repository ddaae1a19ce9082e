-- ===== src/Workbench/Details/Spending.antt =====
-- What the calls on requests keep of the budget of detail opens.
use cv_match.Common.{
  ℕ, ◌≤◌, ◌≡◌, refl, inl, inr, false, ◌&&◌, ◌==◌, leb, Option, none, some, List, [], ◌∷◌, ok, err,
  arith, any, find, select, All-any, All-map, Bool-cases, Option-cases,
}
use cv_match.Common.Updates.{count, count-append, count_of_all, count-update_le}
use cv_match.Common.Sorting.{sort_by}
use cv_match.Workbench.Tables.{Connection}
use cv_match.Workbench.Sessions.{of_user}
use cv_match.Workbench.Jobs.{connection_for_user}
use cv_match.Workbench.Details.{
  OpenMode, human_confirm, bypass_confirm, Evidence, Request, LedgerRow, Desk, is_leased,
  is_pending, DetailError,
}
use cv_match.Workbench.Details.Leases.{
  same_detail_key, spends_on, leased_on, new_ledger_row, violates, grant_lease, block_request,
  lease_request, daily_limit, budget_day_of, holds_lease, lapse, lapse_row, lapse_rows,
  lapses_before, lease_over, reconcile_detail_leases,
}
use cv_match.Workbench.Details.Requests.{
  Ask, DeskOutcome, desk_transaction, raise_blocked, create_target, create_new, create_connected,
  insert_request, lease_by, approve_row, reject_row, is_detail, ask_key, connected_of,
}

-- The ledger respects the daily limit, and has one open lease at most, on each connection.
pub record IsBudgeted (d : Desk) : Type 0 where
  pub spent : (connection_id day : ℕ) → count (spends_on connection_id day) d.ledger ≤ 100
  pub single : (connection_id : ℕ) → count (leased_on connection_id) d.ledger ≤ 1

pub same_ledger : (d e : Desk) → e.ledger ≡ d.ledger → IsBudgeted d → IsBudgeted e
same_ledger d e h v = record {
  spent = λ c day. rw h (v.spent c day);
  single = λ c. rw h (v.single c);
}

grant-IsBudgeted :
    (row : Request) (ledger_id now : ℕ) (d : Desk)
    → leb daily_limit (count (spends_on row.connection_id (budget_day_of now)) d.ledger) ≡ false
    → any (violates (new_ledger_row row ledger_id now)) d.ledger ≡ false
    → IsBudgeted d
    → IsBudgeted (grant_lease row ledger_id now d)
grant-IsBudgeted row ledger_id now d below fresh v = record {
  spent = λ c day. ground (
    arith,
    count-append (spends_on c day) d.ledger (new_ledger_row row ledger_id now ∷ []),
    v.spent c day,
    same_count c day,
  );
  single = λ c. ground (
    arith,
    count-append (leased_on c) d.ledger (new_ledger_row row ledger_id now ∷ []),
    v.single c,
    no_lease c,
  );
}
  where
    same_count :
        (c day : ℕ)
        → c ≡ row.connection_id
        → day ≡ budget_day_of now
        → count (spends_on c day) d.ledger
          ≡ count (spends_on row.connection_id (budget_day_of now)) d.ledger
    same_count c day e f = rw (e, f) refl

    no_lease : (c : ℕ) → c ≡ row.connection_id → count (leased_on c) d.ledger ≡ 0
    no_lease c e = count_of_all (leased_on c) d.ledger (
        All-map d.ledger (λ x h. ground arith)
          (All-any (violates (new_ledger_row row ledger_id now)) d.ledger fresh))

pub lease_request-IsBudgeted :
    (request_id ledger_id now : ℕ) (d : Desk)
    → IsBudgeted d
    → IsBudgeted (lease_request request_id ledger_id now d).1
unfolding lease_request block_request
lease_request-IsBudgeted request_id ledger_id now d v =
    elim (Option-cases (find (λ request. request.request_id == request_id) d.requests)) [
      | inl e ↦ rw e v
      | inr (row, e) ↦ rw e (elim (Bool-cases (any (holds_lease row.connection_id now) d.ledger)) [
        | inl active ↦ rw active (same_ledger d _ refl v)
        | inr idle ↦
            rw idle
              (elim (Bool-cases (
                leb daily_limit
                  (count (spends_on row.connection_id (budget_day_of now)) d.ledger))) [
                    | inl full ↦ rw full (same_ledger d _ refl v)
                    | inr below ↦
                        rw below
                          (elim (Bool-cases
                            (any (violates (new_ledger_row row ledger_id now)) d.ledger)) [
                              | inl taken ↦ rw taken (same_ledger d _ refl v)
                              | inr fresh ↦
                                  rw fresh (grant-IsBudgeted row ledger_id now d below fresh v)
                            ])
                  ])
      ])
    ]

lapse_rows-IsBudgeted :
    (now : ℕ) (rows : List LedgerRow) (d : Desk) → IsBudgeted d → IsBudgeted (lapse_rows now rows d)
unfolding lapse_rows
lapse_rows-IsBudgeted now [] d v = v
lapse_rows-IsBudgeted now (row ∷ rows) d v =
    lapse_rows-IsBudgeted now rows (lapse_row now row d) (record {
      spent = λ c day. omega (
        arith,
        v.spent c day,
        count-update_le (spends_on c day)
            (λ other. other.ledger_id == row.ledger_id && is_leased other.status) (lapse now)
            (λ x h k. ground arith) d.ledger,
      );
      single = λ c. omega (
        arith,
        v.single c,
        count-update_le (leased_on c)
            (λ other. other.ledger_id == row.ledger_id && is_leased other.status) (lapse now)
            (λ x h k. absurd (ground arith)) d.ledger,
      );
    })

pub reconcile-IsBudgeted :
    (now : ℕ) (d : Desk) → IsBudgeted d → IsBudgeted (reconcile_detail_leases now d)
unfolding reconcile_detail_leases
reconcile-IsBudgeted now d v =
    lapse_rows-IsBudgeted now (sort_by lapses_before (select (lease_over now d.requests) d.ledger))
      d v

pub raised-IsBudgeted :
    {A : Type 0} (d : Desk) (m : DeskOutcome (A × Option DetailError))
    → IsBudgeted d
    → IsBudgeted m.1
    → IsBudgeted (raise_blocked (desk_transaction d m)).1
raised-IsBudgeted d (ok (a, none), e) v h = h
raised-IsBudgeted d (ok (a, some reason), e) v h = h
raised-IsBudgeted d (err x, e) v h = v

lease_by-IsBudgeted :
    (mode : OpenMode) (ask : Ask) (d : Desk) → IsBudgeted d → IsBudgeted (lease_by mode ask d).1
lease_by-IsBudgeted human_confirm ask d v = v
lease_by-IsBudgeted bypass_confirm ask d v =
    lease_request-IsBudgeted ask.request_id ask.ledger_id ask.now d v

pub insert-IsBudgeted :
    (ask : Ask) (new : Request) (d : Desk) → IsBudgeted d → IsBudgeted (insert_request ask new d).1
insert-IsBudgeted ask new d v =
    elim (Bool-cases (any (λ request. request.request_id == ask.request_id) d.requests)) [
      | inl taken ↦ rw taken v
      | inr fresh ↦
          rw fresh (lease_by-IsBudgeted new.detail_open_mode ask _ (same_ledger d _ refl v))
    ]

pub create-IsBudgeted :
    (ask : Ask) (d : Desk) (target : Option Evidence)
    → IsBudgeted d
    → IsBudgeted (create_target ask d target).1
create-IsBudgeted ask d none v = v
create-IsBudgeted ask d (some target) v = elim (Bool-cases (is_detail target.evidence_level)) [
  | inl e ↦ rw e v
  | inr e ↦ rw e (
      found (
        find
          (λ request.
            of_user ask.user request.workspace_id request.user_id
            && same_detail_key request.idempotency_key (ask_key ask))
          d.requests))
]
  where
    with_connection :
        (connection : Option Connection) → IsBudgeted (create_connected ask target d connection).1
    with_connection none = v
    with_connection (some connection) = insert-IsBudgeted ask _ d v

    found : (request : Option Request) → IsBudgeted (create_new ask target d request).1
    found (some request) = v
    found none = with_connection (connected_of (connection_for_user ask.user d.store))

pub approve-IsBudgeted :
    (request_id ledger_id now : ℕ) (d : Desk) (row : Option Request)
    → IsBudgeted d
    → IsBudgeted (approve_row request_id ledger_id now d row).1
approve-IsBudgeted request_id ledger_id now d none v = v
approve-IsBudgeted request_id ledger_id now d (some row) v =
    elim (Bool-cases (is_pending row.status)) [
      | inl e ↦ rw e (lease_request-IsBudgeted request_id ledger_id now _ (same_ledger d _ refl v))
      | inr e ↦ rw e v
    ]

pub reject-IsBudgeted :
    (request_id now : ℕ) (d : Desk) (row : Option Request)
    → IsBudgeted d
    → IsBudgeted (desk_transaction d (reject_row request_id now d row)).1
reject-IsBudgeted request_id now d none v = v
reject-IsBudgeted request_id now d (some row) v = elim (Bool-cases (is_pending row.status)) [
  | inl e ↦ rw e (same_ledger d _ refl v)
  | inr e ↦ rw e v
]
