-- ===== src/Gate/Decision.antt =====
-- internal/gate/decision.go: the closed vocabulary of what ends a request, with its properties.
use anteroom.Common.{Bool, true, false}
use anteroom.Common.Text.{Str, text}

pub data Decision : Type 0 where
  non_canonical_path unknown_authority own_endpoint bypass_path bypass_ip : Decision
  cors_preflight pass_pow pass_paid bypass_crawler : Decision
  crawler_verification_unavailable crawler_unverified bypass_hosted hosted_refusal : Decision
  hosted_unverified payment_required pay_method_refused pay_upgrade_refused : Decision
  pay_malformed pay_unidentified pay_unoffered pay_replay pay_state_unavailable : Decision
  pay_inflight pay_rate_limited pay_pending pay_grant_failed pay_grant_conflict : Decision
  pay_rejected pay_ambiguous pay_infra wait_page refusal : Decision

pub record DecisionInfo : Type 0 where
  pub name : Str
  pub upstream : Bool
  pub walled : Bool

abbrev plain : Str → DecisionInfo
plain s = record { name = s; upstream = false; walled = false }

abbrev to_upstream : Str → DecisionInfo
to_upstream s = record { name = s; upstream = true; walled = false }

abbrev to_wall : Str → DecisionInfo
to_wall s = record { name = s; upstream = false; walled = true }

-- decisionInfos, with a field for each flag.
abbrev pub info : Decision → DecisionInfo
info non_canonical_path = plain (text "non-canonical-path")
info unknown_authority = plain (text "unknown-authority")
info own_endpoint = plain (text "own-endpoint")
info bypass_path = to_upstream (text "bypass-path")
info bypass_ip = to_upstream (text "bypass-ip")
info cors_preflight = to_upstream (text "cors-preflight")
info pass_pow = to_upstream (text "pass-pow")
info pass_paid = to_upstream (text "pass-paid")
info bypass_crawler = to_upstream (text "bypass-crawler")
info crawler_verification_unavailable = plain (text "crawler-verification-unavailable")
info crawler_unverified = to_wall (text "crawler-unverified")
info bypass_hosted = to_upstream (text "bypass-hosted")
info hosted_refusal = to_wall (text "hosted-refusal")
info hosted_unverified = to_wall (text "hosted-unverified")
info payment_required = to_wall (text "payment-required")
info pay_method_refused = plain (text "pay-method-refused")
info pay_upgrade_refused = plain (text "pay-upgrade-refused")
info pay_malformed = plain (text "pay-malformed")
info pay_unidentified = plain (text "pay-unidentified")
info pay_unoffered = plain (text "pay-unoffered")
info pay_replay = plain (text "pay-replay")
info pay_state_unavailable = plain (text "pay-state-unavailable")
info pay_inflight = plain (text "pay-inflight")
info pay_rate_limited = plain (text "pay-rate-limited")
info pay_pending = plain (text "pay-pending")
info pay_grant_failed = plain (text "pay-grant-failed")
info pay_grant_conflict = plain (text "pay-grant-conflict")
info pay_rejected = plain (text "pay-rejected")
info pay_ambiguous = plain (text "pay-ambiguous")
info pay_infra = plain (text "pay-infra")
info wait_page = to_wall (text "wait-page")
info refusal = to_wall (text "refusal")
