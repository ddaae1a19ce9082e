-- ===== src/Liepin/Gate/Tests.antt =====
-- A gate of an account, asked for this account and for another.
use cv_match.Liepin.Gate.{
  ComplianceGate, allows_live_search, denial_reason, approved, base_policy_allows,
  provider_account_mismatch, allows_connection_handoff,
}
use cv_match.Text.{Text, strip, lstrip, rstrip, is_space}
use cv_match.Common.{◌∷◌, some, [], ◌≡◌, true, not, false, is_some, refl}
use cv_match.Liepin.Gate.Decisions.{live-denial}

abbrev word : Text
word = 97 ∷ []

abbrev open_gate : ComplianceGate
open_gate = record {
  tenant_id = word;
  workspace_id = word;
  actor_id = word;
  provider_account_hash = some word;
  status = approved;
  candidate_personal_info_processing_basis = word;
  personal_information_processor = word;
  operator_audit_owner = word;
  account_holder_authorized = true;
  human_initiated_recruiting = true;
  allowed_purposes = word ∷ [];
  deletion_sla_days = 30;
  deletion_path = word;
  raw_detail_retention_allowed_after_debug = false;
  fixture_export_allowed = false;
  policy_ref = word;
}

allowed : allows_live_search open_gate (some word) word ≡ true
unfolding allows_live_search base_policy_allows strip lstrip rstrip is_space
allowed = refl

other_account : denial_reason open_gate (some (98 ∷ [])) word ≡ some provider_account_mismatch
unfolding denial_reason
other_account = refl

live-denial_example :
    (allows_live_search open_gate (some word) word
      ≡ not (is_some (denial_reason open_gate (some word) word)))
    × (allows_live_search open_gate (some word) word ≡ true
        → allows_connection_handoff open_gate word ≡ true)
    × (allows_live_search open_gate (some word) word ≡ true
        → (account : Text) × (some word ≡ some account) × (some word ≡ some account))
live-denial_example = live-denial open_gate (some word) word
