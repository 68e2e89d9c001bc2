-- ===== src/Tests/Requests.antt =====
-- A request on its way from what it names to what is given back when it ends.
use keera_gateway.Base.{
  ℕ, ◌<◌, ◌≤◌, ◌^◌, ◌||◌, String, true, false, Option, none, some, List, [], ◌∷◌, ◌≡◌, ◌↔◌, ◌⊎◌,
  inl, refl, All, any, arith, length, bytes, ◌==◌, string_eq,
}
use keera_gateway.Base.Dict.{get}
use keera_gateway.Base.Int.{pos, ◌≤ℤ◌}
use keera_gateway.Policy.Calendar.{start, period_day}
use keera_gateway.Policy.Model.{Model, kind_chat}
use keera_gateway.Policy.Resolve.{Resolved, unrestricted}
use keera_gateway.Policy.Router.{Router}
use keera_gateway.Policy.Scope.{scope_org}
use keera_gateway.Registry.Budgets.{Budgets, window_key}
use keera_gateway.Registry.Budgets.Running.{Runs, absent}
use keera_gateway.Registry.Budgets.Resolved.{plain_names}
use keera_gateway.Registry.Budgets.Prepaid.{held_of}
use keera_gateway.Gateway.Size.{least_tokens}
use keera_gateway.Gateway.Target.{Named, to_model, Targeted, target_refused, targets, target}
use keera_gateway.Gateway.Target.Reach.{MayReach, target-MayReach}
use keera_gateway.Gateway.Credit.{filter_outside}
use keera_gateway.Gateway.Credit.Location.{StaysInside, filter_outside-eq-none_iff}
use keera_gateway.Gateway.Window.{fits}
use keera_gateway.Gateway.Window.Holds.{holds_tokens, fits-any}
use keera_gateway.Gateway.Walk.{Call}
use keera_gateway.Gateway.Admission.{Site, answered, left}
use keera_gateway.Gateway.Request.{serve}
use keera_gateway.Gateway.Admission.Kept.{may_take}
use keera_gateway.Gateway.Request.Counts.{serve-Runs}
use keera_gateway.Gateway.Request.Held.{held-serve}
use keera_gateway.Tests.Data.{
  some_key, fast, billed, usage, noon, empty_view, org_month, org_requests,
}
use keera_gateway.Tests.Walks.{quiet, new_call}

abbrev find_billed : String → Option Model
find_billed alias = get (("fast", billed) ∷ []) alias

abbrev find_router : String → Option Router
find_router alias = none

abbrev fast_name : String
fast_name = "fast"

abbrev key_of_acme : Resolved
key_of_acme = record (unrestricted some_key) { scopes = org_month ∷ []; quotas = org_requests ∷ [] }

target-MayReach_example :
    MayReach find_billed find_router key_of_acme fast_name kind_chat (to_model billed)
unfolding target get bytes keera_gateway.Gateway.Target.callable
    keera_gateway.Policy.Resolve.may_use keera_gateway.Policy.AllowList.allows
target-MayReach_example =
    target-MayReach find_billed find_router key_of_acme fast_name kind_chat (λ a. true) false
      (to_model billed) refl

-- A chat of thirty bytes with a billed model, counted for the organisation.
abbrev site : Site
site = record {
  world = record quiet { find = find_billed; now = noon };
  find_router = find_router;
  find_filter = λ a. none;
  printable = λ a. true;
  signed_in = false;
  res = key_of_acme;
  alias = fast_name;
  decoded = true;
  received = pos 30;
  ceilings = pos 8 ∷ [];
  native = λ c chain. some chain;
  body_size = λ c. 30;
  texts = λ c. some ("hello" ∷ []);
  prepared = λ c. true;
  answer = λ c chain. answered billed 200 200 usage usage;
  finished_at = noon;
}

abbrev call : Call
call = record new_call {
  scopes = org_month ∷ [];
  budgets = record empty_view {
    credit = ("acme", record { balance = pos 10; invoiced = false; charge_due = 0 }) ∷ [];
  };
}

-- A client that leaves before an answer.
abbrev left_site : Site
left_site = record site {
  world = record quiet { now = noon };
  res = record key_of_acme { scopes = [] };
  answer = λ c chain. left;
}

counted_scopes : (serve left_site call).1.scopes ≡ org_month ∷ org_requests ∷ []
unfolding get keera_gateway.Registry.Budgets.counts keera_gateway.Registry.Budgets.new_budgets serve
    target bytes keera_gateway.Gateway.Target.callable keera_gateway.Policy.Resolve.may_use
    keera_gateway.Policy.AllowList.allows keera_gateway.Gateway.Request.from_admit
    keera_gateway.Gateway.Admission.admitted keera_gateway.Registry.Budgets.Prepaid.charges_paid
    filter_outside keera_gateway.Gateway.Limits.check_rates keera_gateway.Ratelimit.Limiter.admit
    keera_gateway.Gateway.Limits.check_quotas keera_gateway.Registry.Budgets.spent
    keera_gateway.Registry.Budgets.count_in keera_gateway.Gateway.Credit.is_billed
    keera_gateway.Gateway.Limits.check_budgets keera_gateway.Registry.Budgets.allow fits
    keera_gateway.Gateway.Request.answer_with keera_gateway.Gateway.Serve.destinations
    keera_gateway.Gateway.Walk.router_filters keera_gateway.Gateway.Admission.closed
counted_scopes = refl

serve-Runs_example :
    Runs
      (start period_day noon)
      (get (serve left_site call).1.budgets.running (window_key scope_org "acme" period_day))
      0
unfolding get keera_gateway.Registry.Budgets.counts keera_gateway.Registry.Budgets.new_budgets
    window_key
serve-Runs_example =
    serve-Runs left_site scope_org "acme" period_day 0 plain_names.0 plain_names.4 call
      ((plain_names.0, plain_names.4), tt) ((plain_names.0, plain_names.3), tt) refl (λ q e. cc e)
      absent (rw counted_scopes (omega arith))

-- What a request may take for what it names.
abbrev TakesLittle : Targeted → Type 0
TakesLittle (target_refused why) = Unit
TakesLittle (targets n) = may_take site n ≤ℤ pos 1_000_000

billed_may_take : may_take site (to_model billed) ≡ pos 1
unfolding keera_gateway.Gateway.Credit.credit_hold get keera_gateway.Base.Int64.add64
    keera_gateway.Base.Int64.mul64 keera_gateway.Base.Int64.wrap keera_gateway.Base.Int.◌+ℤ◌
    keera_gateway.Base.Int.◌*ℤ◌ keera_gateway.Gateway.Credit.billed_deciders
    keera_gateway.Gateway.Credit.billed_answerers keera_gateway.Policy.Bill.bill
    keera_gateway.Policy.Bill.fee keera_gateway.Policy.Bill.line keera_gateway.Base.Int.quot_ℕ
    keera_gateway.Policy.Cost.clamped keera_gateway.Policy.Cost.cost
    keera_gateway.Gateway.Credit.most_tokens keera_gateway.Gateway.Credit.output_tokens
    keera_gateway.Gateway.Credit.billed_filter_models keera_gateway.Gateway.Credit.call_filters
billed_may_take = refl

takes_little :
    TakesLittle (target find_billed find_router (λ a. true) false key_of_acme fast_name kind_chat)
unfolding target get bytes keera_gateway.Gateway.Target.callable
    keera_gateway.Policy.Resolve.may_use keera_gateway.Policy.AllowList.allows
takes_little = rw billed_may_take (omega arith)

held-serve_example : held_of (serve site call).1.budgets "acme" ≡ held_of call.budgets "acme"
unfolding get keera_gateway.Registry.Budgets.new_budgets
held-serve_example =
    held-serve site call 0 1_000_000 (omega arith) refl (λ n e. rw e at takes_little) "acme"

filter_outside-eq-none_iff_example :
    (filter_outside find_billed (λ a. none) key_of_acme ("pii" ∷ []) ≡ none) ↔ (
      (key_of_acme.allowed_locations ≡ none)
      ⊎ All (StaysInside find_billed (λ a. none) key_of_acme) ("pii" ∷ []))
filter_outside-eq-none_iff_example =
    filter_outside-eq-none_iff find_billed (λ a. none) key_of_acme ("pii" ∷ [])

fits-any_example : fits kind_chat (fast ∷ []) 30 (some ("hello" ∷ [])) ≡ (
    kind_chat == "rerank" || any (holds_tokens (least_tokens ("hello" ∷ []) kind_chat)) (fast ∷ []))
unfolding keera_gateway.Gateway.Size.total_bytes bytes
fits-any_example = fits-any kind_chat fast [] 30 ("hello" ∷ []) (omega arith)
