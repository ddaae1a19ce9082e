-- ===== src/Liepin/Gate/Decisions.antt =====
-- The three questions to the gate agree.
use cv_match.Liepin.Gate.{
  allows_live_search, denial_reason, allows_connection_handoff, ComplianceGate, GateStatus,
  is_approved, base_policy_allows, is_open_status, hash_eq, approved, pending_account_binding,
  denied, expired,
}
use cv_match.Text.{Text}
use cv_match.Common.{Option, ◌≡◌, not, is_some, true, some, ◌&&◌, ap, sym, arith, none, refl}
use cv_match.Text.Strip.{text_eq_iff}

-- A live search is allowed exactly where there is no reason to deny it, and only where the
-- connection could be handed over too. It is never allowed without the account that is bound to
-- the gate: with no account, or with another one.
pub live-denial :
    (gate : ComplianceGate) (hash : Option Text) (purpose : Text)
    → (allows_live_search gate hash purpose ≡ not (is_some (denial_reason gate hash purpose)))
      × (allows_live_search gate hash purpose ≡ true
          → allows_connection_handoff gate purpose ≡ true)
      × (allows_live_search gate hash purpose ≡ true
          → (account : Text) × (gate.provider_account_hash ≡ some account) × (hash ≡ some account))
unfolding allows_live_search denial_reason allows_connection_handoff
live-denial gate hash purpose = (
  ground arith,
  (λ h. handoff gate.status (ground arith) (ground arith)),
  (λ h. bound gate.provider_account_hash hash (ground arith) (ground arith)),
)
  where
    handoff :
        (s : GateStatus)
        → is_approved s ≡ true
        → base_policy_allows gate purpose ≡ true
        → (is_open_status s && base_policy_allows gate purpose) ≡ true
    handoff approved a b = b
    handoff pending_account_binding a b = cc
    handoff denied a b = cc
    handoff expired a b = cc

    bound :
        (g h : Option Text)
        → is_some g ≡ true
        → hash_eq g h ≡ true
        → (account : Text) × (g ≡ some account) × (h ≡ some account)
    bound none h s e = cc
    bound (some a) none s e = cc
    bound (some a) (some b) s e = (a, refl, ap some (sym ((text_eq_iff a b).0 e)))
