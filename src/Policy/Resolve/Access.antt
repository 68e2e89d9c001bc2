-- ===== src/Policy/Resolve/Access.antt =====
-- What a resolved key may reach, against what each of its levels allows.
use keera_gateway.Base.{
  String, Bool, true, false, Option, none, some, List, ◌&&◌, ◌==◌, string_eq, not, ◌≡◌, ◌∙◌, arith,
  has_char, Bool-cases, inl, inr, if◌then◌else◌,
}
use keera_gateway.Policy.AllowList.{allows, allows_tool}
use keera_gateway.Policy.AllowList.Models.{allows-intersect}
use keera_gateway.Policy.AllowList.Tools.{allows_tool-intersect_tools}
use keera_gateway.Policy.Scope.{ScopeType, scope_org, scope_project, scope_key}
use keera_gateway.Policy.Resolve.{Limits, Key, Resolved, add_level, unrestricted, resolve}

-- What one level allows; a level without limits allows everything.
abbrev pub level_allows : (Limits → Option (List String)) → Option Limits → String → Bool
level_allows field none x = true
level_allows field (some lim) x = allows (field lim) x

abbrev pub level_allows_tool : Option Limits → String → String → Bool
level_allows_tool none server tool = true
level_allows_tool (some lim) server tool = allows_tool lim.allowed_tools server tool

-- The project's say, if the key has a project.
abbrev pub in_project : Key → Bool → Bool
in_project key b = if not (key.project_id == "") then b else true

and_true : (b : Bool) → b ≡ (b && true)
and_true b = ground arith

models-add_level :
    (r : Resolved) (t : ScopeType) (id : String) (lim : Option Limits) (x : String)
    → allows (add_level r t id lim).allowed_models x
      ≡ (allows r.allowed_models x && level_allows (λ l. l.allowed_models) lim x)
unfolding add_level
models-add_level r t id none x = and_true _
models-add_level r t id (some lim) x = allows-intersect r.allowed_models lim.allowed_models x

locations-add_level :
    (r : Resolved) (t : ScopeType) (id : String) (lim : Option Limits) (x : String)
    → allows (add_level r t id lim).allowed_locations x
      ≡ (allows r.allowed_locations x && level_allows (λ l. l.allowed_locations) lim x)
unfolding add_level
locations-add_level r t id none x = and_true _
locations-add_level r t id (some lim) x =
    allows-intersect r.allowed_locations lim.allowed_locations x

tools-add_level :
    (r : Resolved) (t : ScopeType) (id : String) (lim : Option Limits) (server tool : String)
    → has_char b'/' server ≡ false
    → allows_tool (add_level r t id lim).allowed_tools server tool
      ≡ (allows_tool r.allowed_tools server tool && level_allows_tool lim server tool)
unfolding add_level
tools-add_level r t id none server tool plain = and_true _
tools-add_level r t id (some lim) server tool plain =
    allows_tool-intersect_tools server tool plain r.allowed_tools lim.allowed_tools

-- A key may name a model, run one at a location, and call a tool of a server (whose name has no
-- slash) exactly when its organisation, its project if it has one, and the key itself all allow
-- it, where a level without limits and a list that is not there allow everything.
pub resolve_access :
    (key : Key) (org project own : Option Limits) (x server tool : String)
    → has_char b'/' server ≡ false
    → (allows (resolve key org project own).allowed_models x ≡ (
        level_allows (λ l. l.allowed_models) org x
        && in_project key (level_allows (λ l. l.allowed_models) project x)
        && level_allows (λ l. l.allowed_models) own x))
      × (allows (resolve key org project own).allowed_locations x ≡ (
          level_allows (λ l. l.allowed_locations) org x
          && in_project key (level_allows (λ l. l.allowed_locations) project x)
          && level_allows (λ l. l.allowed_locations) own x))
      × (allows_tool (resolve key org project own).allowed_tools server tool ≡ (
          level_allows_tool org server tool
          && in_project key (level_allows_tool project server tool)
          && level_allows_tool own server tool))
unfolding resolve allows allows_tool
resolve_access key org project own x server tool plain =
    let r = unrestricted key in
    let one = add_level r scope_org key.org_id org in
    let two = add_level one scope_project key.project_id project in
    elim (Bool-cases (key.project_id == "")) [
      | inl alone ↦ rw alone (
        models-add_level one scope_key key.id own x
            ∙ rw (models-add_level r scope_org key.org_id org x) (ground arith),
        locations-add_level one scope_key key.id own x
            ∙ rw (locations-add_level r scope_org key.org_id org x) (ground arith),
        tools-add_level one scope_key key.id own server tool plain
            ∙ rw (tools-add_level r scope_org key.org_id org server tool plain) (ground arith),
      )
      | inr inside ↦ rw inside (
        models-add_level two scope_key key.id own x
            ∙ rw
                (
                  models-add_level one scope_project key.project_id project x,
                  models-add_level r scope_org key.org_id org x,
                )
                (ground arith),
        locations-add_level two scope_key key.id own x
            ∙ rw
                (
                  locations-add_level one scope_project key.project_id project x,
                  locations-add_level r scope_org key.org_id org x,
                )
                (ground arith),
        tools-add_level two scope_key key.id own server tool plain
            ∙ rw
                (
                  tools-add_level one scope_project key.project_id project server tool plain,
                  tools-add_level r scope_org key.org_id org server tool plain,
                )
                (ground arith),
      )
    ]
