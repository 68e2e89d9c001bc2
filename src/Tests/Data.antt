-- ===== src/Tests/Data.antt =====
-- Test data: an organisation with a project, a key and its limits, two models and a local view of
-- spend at noon of 15 November 2026.
use keera_gateway.Base.{ℕ, ◌+◌, ◌*◌, true, false, none, some, [], ◌∷◌}
use keera_gateway.Base.Int.{pos}
use keera_gateway.Policy.Model.{Model, Tokens, Billing, kind_chat}
use keera_gateway.Policy.Calendar.{period_day, period_month, period_minute}
use keera_gateway.Policy.Scope.{Scope, scope_org, meter_requests}
use keera_gateway.Policy.Limits.{scope_at}
use keera_gateway.Policy.Resolve.{Key, Limits}
use keera_gateway.Registry.Budgets.{Budgets, new_budgets}

abbrev pub some_key : Key
some_key = record {
  id = "k1";
  org_id = "acme";
  project_id = "web";
  user_id = "u1";
  kind = "standard";
}

abbrev pub org_limits : Limits
org_limits = record {
  allowed_models = some ("fast" ∷ "deep" ∷ []);
  allowed_locations = none;
  rate_limits = record { requests = pos 60; tokens = pos 0; period = period_minute } ∷ [];
  budgets = record { budget_micros = pos 5_000_000; period = period_month } ∷ [];
  system_prompt = none;
  filters = "pii" ∷ [];
  allowed_tools = some ("jira" ∷ []);
}

abbrev pub key_limits : Limits
key_limits = record {
  allowed_models = some ("fast" ∷ "other" ∷ []);
  allowed_locations = some ("ch" ∷ []);
  rate_limits = record { requests = pos 100; tokens = pos 0; period = period_day } ∷ [];
  budgets = record { budget_micros = pos 1_000_000; period = period_day } ∷ [];
  system_prompt = none;
  filters = "pii" ∷ "secrets" ∷ [];
  allowed_tools = some ("jira/search" ∷ []);
}

abbrev pub fast : Model
fast = record {
  alias = "fast";
  org_id = "acme";
  kind = kind_chat;
  backends = "http://fast:8000" ∷ [];
  backend_model = "qwen";
  provider = "";
  input_micros_per_mtok = pos 2_000_000;
  output_micros_per_mtok = pos 6_000_000;
  cached_input_micros_per_mtok = pos 200_000;
  cache_write_micros_per_mtok = pos 0;
  long_prompt = none;
  max_context = pos 32_000;
  location = "ch";
  subscription = false;
  platform_key = false;
  billing = none;
  limited = false;
  locked = false;
  enabled = true;
}

abbrev pub fee_of_gateway : Billing
fee_of_gateway = record {
  provider = "vllm";
  credit = true;
  fee_micros_per_mtok = pos 100_000;
  at_provider = false;
}

abbrev pub billed : Model
billed = record fast { billing = some fee_of_gateway }

abbrev pub usage : Tokens
usage = record {
  input = pos 1_000_000;
  cached_input = pos 400_000;
  cache_write = pos 0;
  cache_write_hour = pos 0;
  output = pos 500_000;
}

-- Noon of 15 November 2026: the days since 1 January of year 1, and half a day.
abbrev pub noon : ℕ
noon = 739_934 * 86_400_000_000_000 + 43_200_000_000_000

abbrev pub empty_view : Budgets
empty_view = new_budgets true

abbrev pub org_month : Scope
org_month = record (scope_at scope_org "acme" period_month) { budget_micros = pos 500 }

abbrev pub org_requests : Scope
org_requests = record (scope_at scope_org "acme" period_day) {
  meter = meter_requests;
  quota = pos 10;
}
