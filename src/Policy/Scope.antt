-- ===== src/Policy/Scope.antt =====
-- `Scope`, `Meter` and their constants, internal/policy/policy.go. Go's named string types are texts.
use keera_gateway.Base.{String, ◌==◌, string_eq, if◌then◌else◌}
use keera_gateway.Base.Int.{ℤ, pos}
use keera_gateway.Policy.Calendar.{Period}

abbrev pub ScopeType : Type 0
ScopeType = String

abbrev pub scope_org : ScopeType
scope_org = "org"

abbrev pub scope_project : ScopeType
scope_project = "project"

abbrev pub scope_key : ScopeType
scope_key = "key"

abbrev pub scope_router : ScopeType
scope_router = "router"

abbrev pub Meter : Type 0
Meter = String

abbrev pub meter_cost : Meter
meter_cost = ""

abbrev pub meter_requests : Meter
meter_requests = "requests"

abbrev pub meter_tokens : Meter
meter_tokens = "tokens"

pub record Scope : Type 0 where
  pub type : ScopeType
  pub id : String
  pub rpm : ℤ
  pub tpm : ℤ
  pub budget_micros : ℤ
  pub period : Period
  pub meter : Meter
  pub quota : ℤ

-- `Meter.Amount`
unfoldable pub amount : Meter → ℤ → ℤ → ℤ
amount m cost_micros tokens =
    if m == meter_requests then pos 1 else if m == meter_tokens then tokens else cost_micros
