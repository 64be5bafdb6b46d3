-- ===== src/Policy/Data.antt =====
-- src/policy.rs: the data of a policy evaluation, and what it takes from the SDK.
use agent_runner_opencode.Prelude.{Dict, String, Option, List}
use agent_runner_opencode.Json.{Value}
use agent_runner_opencode.Policy.Arguments.{PolicyModelRequest}

-- What `tool_mediation::required_by_host` of the SDK answers: `Ok(None)`, `Ok(Some(_))` or `Err(_)`.
pub data Mediation : Type 0 where
  not_required : Mediation
  required : Mediation
  refused : Mediation

-- What the policy takes from the SDK.
pub record Sdk : Type 0 where
  pub required_by_host : Dict String → Option (Dict String) → Mediation
  pub exploration_env : String

pub record PolicyLaunchInput : Type 0 where
  pub argv : Option (List String)
  pub env : Option (Dict String)
  pub stdin : Option String
  pub system_prompt_override : Option String
  pub tool_restrictions : Option Value

pub record PolicyInput : Type 0 where
  pub settings_id : String
  pub mode : String
  pub model : PolicyModelRequest
  pub launch : PolicyLaunchInput

pub record PolicyDiagnostic : Type 0 where
  pub severity : String
  pub code : String

pub data PolicyMarkerValue : Type 0 where
  one : String → PolicyMarkerValue
  many : List String → PolicyMarkerValue

pub record PolicyMarker : Type 0 where
  pub name : String
  pub value : PolicyMarkerValue

pub record PolicyRouteIdentity : Type 0 where
  pub settings_record_id : String
  pub account_wrapper : String
  pub model_alias : String
  pub provider_id : String
  pub model_id : String
  pub effort : String

pub record PolicyPlanCandidate : Type 0 where
  pub argv : List String
  pub env : Dict String
  pub stdin : Option String
  pub prompt : Option String
  pub diagnostics : List PolicyDiagnostic
  pub markers : List PolicyMarker

pub record PolicySelectionIdentity : Type 0 where
  pub settings_record_id : String
  pub account_wrapper : String

-- A plan with its route, a rejection with its selection, or the panic of the `expect` in
-- `resolved_route_identity`.
pub data PolicyDecision : Type 0 where
  accepted : PolicyPlanCandidate → PolicyRouteIdentity → PolicyDecision
  rejected : PolicyPlanCandidate → PolicySelectionIdentity → PolicyDecision
  panicked : PolicyDecision
