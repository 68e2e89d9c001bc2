-- ===== src/Policy/Resolve.antt =====
-- Combining the limits of a key's levels: `Limits`, `Key`, `Resolved`, `Resolve`, `narrow`,
-- `JoinPrompts`, `appendFilters`, `MayUse` and `MayCallRouter` of internal/policy/policy.go.
pub mod Access
pub mod Filters
pub mod Windows
use Prim.Native.String.{◌++◌ as join}
use keera_gateway.Base.{
  ℕ, String, Bool, true, false, Option, none, some, List, [], ◌∷◌, ◌++◌, ◌&&◌, ◌||◌, ◌==◌,
  string_eq, not, if◌then◌else◌, contains, trim_space, same_bool,
}
use keera_gateway.Base.Int.{ℤ}
use keera_gateway.Policy.Calendar.{period_day, period_month}
use keera_gateway.Policy.Model.{Model}
use keera_gateway.Policy.Scope.{Scope, ScopeType, scope_org, scope_project, scope_key}
use keera_gateway.Policy.AllowList.{intersect, intersect_tools, allows}
use keera_gateway.Policy.Limits.{RateLimit, Budget, budget_per, count, scope_at}

pub record Limits : Type 0 where
  pub allowed_models : Option (List String)
  pub allowed_locations : Option (List String)
  pub rate_limits : List RateLimit
  pub budgets : List Budget
  pub system_prompt : Option String
  pub filters : List String
  pub allowed_tools : Option (List String)

abbrev pub key_subscription : String
key_subscription = "subscription"

pub record Key : Type 0 where
  pub id : String
  pub org_id : String
  pub project_id : String
  pub user_id : String
  pub kind : String

-- `KeyKind.Valid`
unfoldable pub key_kind_valid : String → Bool
key_kind_valid k = k == "standard" || k == key_subscription

-- `Key.Subscription`
unfoldable pub is_subscription : Key → Bool
is_subscription k = k.kind == key_subscription

pub record Resolved : Type 0 where
  pub key : Key
  pub allowed_models : Option (List String)
  pub allowed_locations : Option (List String)
  pub system_prompt : String
  pub filters : List String
  pub allowed_tools : Option (List String)
  pub scopes : List Scope
  pub quotas : List Scope

-- `JoinPrompts`
unfoldable pub join_prompts : String → String → String
join_prompts cur next =
    let text = trim_space next in
    if text == "" then cur else if cur == "" then text else join cur (join "\n\n" text)

-- `appendFilters`
unfoldable pub append_filters : List String → List String → List String
append_filters cur [] = cur
append_filters cur (alias ∷ next) =
    append_filters
      (if not (alias == "") && not (contains cur alias) then cur ++ alias ∷ [] else cur) next

-- `deref`
abbrev pub deref : Option String → String
deref none = ""
deref (some s) = s

-- `narrow`
unfoldable pub narrow : Resolved → Limits → Resolved
unfolding join_prompts append_filters
narrow r lim = record r {
  allowed_models = intersect r.allowed_models lim.allowed_models;
  allowed_locations = intersect r.allowed_locations lim.allowed_locations;
  system_prompt = join_prompts r.system_prompt (deref lim.system_prompt);
  filters = append_filters r.filters lim.filters;
  allowed_tools = intersect_tools r.allowed_tools lim.allowed_tools;
}

-- The loop over a level's rate limits: the month's scope and the quotas.
unfoldable pub count_all : List RateLimit → Scope → List Scope → Scope × List Scope
count_all [] month quotas = (month, quotas)
count_all (rl ∷ rls) month quotas =
    let (month', more) = count rl month in count_all rls month' (quotas ++ more)

-- The loop over a level's budgets: the month's scope and the day's.
unfoldable pub budget_all :
    ScopeType → String → List Budget → Scope → Option Scope → Scope × Option Scope
budget_all t id [] month day = (month, day)
budget_all t id (b ∷ bs) month day =
    if budget_per b == period_day
    then budget_all t id bs month
        (some (record (scope_at t id period_day) { budget_micros = b.budget_micros }))
    else budget_all t id bs (record month { budget_micros = b.budget_micros }) day

abbrev with_day : Scope × Option Scope → List Scope
with_day (month, none) = month ∷ []
with_day (month, some day) = month ∷ day ∷ []

-- One round of `Resolve`'s loop.
unfoldable pub add_level : Resolved → ScopeType → String → Option Limits → Resolved
unfolding narrow count_all budget_all
add_level r t id none = record r { scopes = r.scopes ++ scope_at t id period_month ∷ [] }
add_level r t id (some lim) =
    let narrowed = narrow r lim in
    let (counted, quotas) = count_all lim.rate_limits (scope_at t id period_month) r.quotas in
    record narrowed {
      quotas = quotas;
      scopes = r.scopes ++ with_day (budget_all t id lim.budgets counted none);
    }

abbrev pub unrestricted : Key → Resolved
unrestricted key = record {
  key = key;
  allowed_models = none;
  allowed_locations = none;
  system_prompt = "";
  filters = [];
  allowed_tools = none;
  scopes = [];
  quotas = [];
}

-- `Resolve`
unfoldable pub resolve : Key → Option Limits → Option Limits → Option Limits → Resolved
unfolding add_level
resolve key org project own =
    let r = add_level (unrestricted key) scope_org key.org_id org in
    let r' =
      (if not (key.project_id == "")
        then add_level r scope_project key.project_id project
        else r) in
    add_level r' scope_key key.id own

-- `MayUse`
unfoldable pub may_use : Resolved → Model → Bool
unfolding is_subscription
may_use r m =
    same_bool (is_subscription r.key) m.subscription
    && allows r.allowed_models m.alias
    && allows r.allowed_locations m.location
