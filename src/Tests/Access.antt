-- ===== src/Tests/Access.antt =====
-- Narrowing lists and resolving a key.
use keera_gateway.Base.{has_char, contains, true, false, none, some, [], ◌∷◌, ◌≡◌, refl}
use keera_gateway.Base.Int.{pos}
use keera_gateway.Policy.Calendar.{period_day}
use keera_gateway.Policy.Limits.{RateLimit}
use keera_gateway.Policy.AllowList.{allows, allows_tool, intersect, intersect_tools}
use keera_gateway.Policy.AllowList.Models.{allows-intersect}
use keera_gateway.Policy.AllowList.Tools.{allows_tool-intersect_tools}
use keera_gateway.Policy.Resolve.{resolve}
use keera_gateway.Policy.Resolve.Access.{resolve_access}
use keera_gateway.Tests.Data.{some_key, org_limits, key_limits}

-- The organisation allows a whole server, the key one of its tools, and the project says nothing.
resolve_access_example :
    (allows (resolve some_key (some org_limits) none (some key_limits)).allowed_models "fast"
      ≡ true)
    × (allows (resolve some_key (some org_limits) none (some key_limits)).allowed_locations "fast"
        ≡ false)
    × (allows_tool
          (resolve some_key (some org_limits) none (some key_limits)).allowed_tools
          "jira"
          "search"
        ≡ true)
unfolding has_char allows allows_tool contains
resolve_access_example =
    resolve_access some_key (some org_limits) none (some key_limits) "fast" "jira" "search" refl

allows-intersect_example :
    allows (intersect (some ("fast" ∷ "deep" ∷ [])) (some ("deep" ∷ []))) "deep" ≡ true
unfolding allows contains
allows-intersect_example =
    allows-intersect (some ("fast" ∷ "deep" ∷ [])) (some ("deep" ∷ [])) "deep"

allows_tool-intersect_tools_example :
    allows_tool (intersect_tools (some ("jira" ∷ [])) (some ("jira/search" ∷ []))) "jira" "edit"
    ≡ false
unfolding has_char allows_tool contains
allows_tool-intersect_tools_example =
    allows_tool-intersect_tools "jira" "edit" refl (some ("jira" ∷ [])) (some ("jira/search" ∷ []))

abbrev daily_rate : RateLimit
daily_rate = record { requests = pos 100; tokens = pos 0; period = period_day }
