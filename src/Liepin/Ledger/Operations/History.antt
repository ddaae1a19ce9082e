-- ===== src/Liepin/Ledger/Operations/History.antt =====
-- The ledger over time: one committed operation is a step, whatever its arguments.
use cv_match.Common.{String, ◌≡◌, [], ok}
use cv_match.Liepin.Ledger.Tables.{Owner, DetailAttempt, Ledger}
use cv_match.Liepin.Ledger.Operations.{
  Reservation, Report, reserve_detail_attempt, transition_detail_attempt,
  apply_detail_worker_response,
}
use cv_match.Liepin.Ledger.Operations.Invariant.{
  IsConsistent, reserve-IsConsistent, transition-IsConsistent, apply-IsConsistent,
}

pub data Step (db : Ledger) : Ledger → Type 0 where
  reserve :
      (r : Reservation) (attempt_id now : String) {row : DetailAttempt} {db' : Ledger}
      → reserve_detail_attempt db r attempt_id now ≡ ok (row, db')
      → Step db db'
  transition :
      (o : Owner) (attempt_id : String) (r : Report) (now : String) {row : DetailAttempt}
      {db' : Ledger}
      → transition_detail_attempt db o attempt_id r now ≡ ok (row, db')
      → Step db db'
  respond :
      (o : Owner) (attempt_id response_id : String) (r : Report) (now : String)
      {row : DetailAttempt} {db' : Ledger}
      → apply_detail_worker_response db o attempt_id response_id r now ≡ ok (row, db')
      → Step db db'

pub data Reach (db : Ledger) : Ledger → Type 0 where
  here : Reach db db
  next : {mid db' : Ledger} → Reach db mid → Step mid db' → Reach db db'

-- the tables of a new store
abbrev pub new_ledger : Ledger
new_ledger = record { attempts = []; responses = [] }

pub new_ledger-IsConsistent : IsConsistent new_ledger
new_ledger-IsConsistent = record { ids = tt; keys = tt; fitting = tt; linked = tt }

pub Step-IsConsistent : {db db' : Ledger} → IsConsistent db → Step db db' → IsConsistent db'
Step-IsConsistent {db} c (reserve r attempt_id now e) =
    (reserve-IsConsistent db r attempt_id now c).at _ e
Step-IsConsistent {db} c (transition o attempt_id r now e) =
    (transition-IsConsistent db o attempt_id r now c).at _ e
Step-IsConsistent {db} c (respond o attempt_id response_id r now e) =
    (apply-IsConsistent db o attempt_id response_id r now c).at _ e

-- Whatever operations a consistent ledger goes through, of any owners and in any order, no two of
-- its rows share an id or a reservation key, the consumption of every row is one that its state
-- admits, and every recorded worker response names a row of its owner.
pub Reach-IsConsistent : {db db' : Ledger} → IsConsistent db → Reach db db' → IsConsistent db'
Reach-IsConsistent c here = c
Reach-IsConsistent c (next r s) = Step-IsConsistent (Reach-IsConsistent c r) s
