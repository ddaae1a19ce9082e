-- ===== src/Liepin/Gate.antt =====
-- The compliance gate of providers/liepin/compliance.py. The retention policy and the access scope,
-- which no test reads, are left out; a number of days below 0 is 0.
mod Decisions
mod Tests
use cv_match.Text.{Text, is_blank, mem_text, strip, text_eq}
use cv_match.Common.{
  ℕ, if◌then◌else◌, Option, Bool, List, true, not, ◌&&◌, false, is_some, some, ltb, none,
}

pub data GateStatus : Type 0 where
  pending_account_binding approved denied expired : GateStatus

pub record ComplianceGate : Type 0 where
  pub tenant_id : Text
  pub workspace_id : Text
  pub actor_id : Text
  pub provider_account_hash : Option Text
  pub status : GateStatus
  pub candidate_personal_info_processing_basis : Text
  pub personal_information_processor : Text
  pub operator_audit_owner : Text
  pub account_holder_authorized : Bool
  pub human_initiated_recruiting : Bool
  pub allowed_purposes : List Text
  pub deletion_sla_days : ℕ
  pub deletion_path : Text
  pub raw_detail_retention_allowed_after_debug : Bool
  pub fixture_export_allowed : Bool
  pub policy_ref : Text

pub data DenialReason : Type 0 where
  status_reason : GateStatus → DenialReason
  account_binding_missing provider_account_mismatch : DenialReason
  policy_requirements_not_satisfied : DenialReason

abbrev pub is_approved : GateStatus → Bool
is_approved approved = true
is_approved _ = false

abbrev pub is_open_status : GateStatus → Bool
is_open_status pending_account_binding = true
is_open_status approved = true
is_open_status _ = false

-- `bool(value.strip())`
abbrev pub is_filled : Text → Bool
is_filled value = not (is_blank (strip value))

unfoldable pub base_policy_allows : ComplianceGate → Text → Bool
base_policy_allows gate purpose =
    is_filled gate.tenant_id
    && (is_filled gate.workspace_id
        && (is_filled gate.actor_id
            && (is_filled gate.candidate_personal_info_processing_basis
                && (is_filled gate.personal_information_processor
                    && (is_filled gate.operator_audit_owner
                        && (gate.account_holder_authorized
                            && (gate.human_initiated_recruiting
                                && (mem_text purpose gate.allowed_purposes
                                    && (ltb 0 gate.deletion_sla_days
                                        && (is_filled gate.deletion_path
                                            && (not gate.raw_detail_retention_allowed_after_debug
                                                && (not gate.fixture_export_allowed
                                                    && is_filled gate.policy_ref))))))))))))

-- equality of two hashes, of which either may be missing
abbrev pub hash_eq : Option Text → Option Text → Bool
hash_eq none none = true
hash_eq (some a) (some b) = text_eq a b
hash_eq _ _ = false

unfoldable pub allows_connection_handoff : ComplianceGate → Text → Bool
allows_connection_handoff gate purpose =
    is_open_status gate.status && base_policy_allows gate purpose

unfoldable pub allows_live_search : ComplianceGate → Option Text → Text → Bool
allows_live_search gate hash purpose =
    is_approved gate.status
    && (is_some gate.provider_account_hash
        && (hash_eq gate.provider_account_hash hash && base_policy_allows gate purpose))

-- The reason "pending_account_binding" of an approved gate is `account_binding_missing`.
unfoldable pub denial_reason : ComplianceGate → Option Text → Text → Option DenialReason
denial_reason gate hash purpose =
    if not (is_approved gate.status)
    then some (status_reason gate.status)
    else if not (is_some gate.provider_account_hash)
    then some account_binding_missing
    else if not (hash_eq gate.provider_account_hash hash)
    then some provider_account_mismatch
    else if not (base_policy_allows gate purpose)
    then some policy_requirements_not_satisfied
    else none
