-- ===== src/Tests/Guards.antt =====
-- A chain of an enforcing filter and one that is tried out in its shadow.
use keera_gateway.Base.{
  String, true, false, Option, none, some, [], ◌∷◌, ◌≡◌, refl, ◌==◌, string_eq, if◌then◌else◌,
}
use keera_gateway.Base.Int.{pos}
use keera_gateway.Policy.Filter.{Filter}
use keera_gateway.Gateway.Filters.{refused_for, Readers, apply_filters}
use keera_gateway.Gateway.Filters.Shadow.{without_shadow, apply_filters-without_shadow}
use keera_gateway.Gateway.Filters.Enforced.{apply_filters-Ends}
use keera_gateway.Gateway.Filters.Outcome.{Ends}
use keera_gateway.Tests.Routers.{find_fast}

abbrev pii : Filter
pii = record {
  org_id = "acme";
  alias = "pii";
  model = "";
  mode = "pattern";
  prompt = "";
  rules = [];
  shadow = false;
}

-- The filter "pii" rewrites, "trial" would refuse.
abbrev two_filters : String → Option Filter
two_filters a =
    if a == "pii"
    then some pii
    else if a == "trial"
    then some (record pii { alias = "trial"; shadow = true })
    else none

abbrev readers : Readers
readers = record {
  find = find_fast;
  find_filter = two_filters;
  run_one = λ f texts. record {
    texts = some ("***" ∷ []);
    micros = pos 0;
    bills = [];
    err = if f.shadow then some (refused_for "a secret") else none;
    gone = false;
  };
  rebuilds = λ texts. true;
}

apply_filters-without_shadow_example :
    ((apply_filters readers ("trial" ∷ "pii" ∷ []) (some ("secret" ∷ []))).0
      ≡ (apply_filters readers
          (without_shadow readers ("trial" ∷ "pii" ∷ []))
          (some ("secret" ∷ []))).0)
    × ((apply_filters readers ("trial" ∷ "pii" ∷ []) (some ("secret" ∷ []))).1.applied
        ≡ (apply_filters readers
            (without_shadow readers ("trial" ∷ "pii" ∷ []))
            (some ("secret" ∷ []))).1.applied)
apply_filters-without_shadow_example =
    apply_filters-without_shadow readers ("trial" ∷ "pii" ∷ []) ("secret" ∷ []) (λ f e texts. refl)

apply_filters-Ends_example :
    let r = apply_filters readers ("trial" ∷ "pii" ∷ []) (some ("secret" ∷ [])) in
    Ends readers ("trial" ∷ "pii" ∷ []) ("secret" ∷ []) false r.0 r.1.applied
apply_filters-Ends_example = apply_filters-Ends readers "trial" ("pii" ∷ []) "secret" []
