-- ===== src/Policy/AllowList.antt =====
-- Allow-lists: `narrowAllowList`, `narrowList`, `intersect` and `intersectTools` of
-- internal/policy/policy.go and mcp.go, and the questions that `Resolved` asks of a list. A list
-- that is not there (Go's nil) allows everything.
pub mod Models
pub mod Tools
use Prim.Native.String.{◌++◌ as join}
use keera_gateway.Base.{
  String, Bool, true, false, Option, none, some, List, [], ◌∷◌, ◌++◌, ◌&&◌, ◌||◌, ◌==◌, string_eq,
  not, if◌then◌else◌, contains, has_char, has_prefix,
}

-- `narrowList`: what both lists allow, the narrower of two matching entries, each once.
unfoldable pub kept : (String → String → Bool) → String → String → Option String
kept covers a b = if covers a b then some b else if covers b a then some a else none

keep : List String → Option String → List String
keep out none = out
keep out (some x) = if contains out x then out else out ++ x ∷ []

inner : (String → String → Bool) → String → List String → List String → List String
inner covers a [] out = out
inner covers a (b ∷ next) out = inner covers a next (keep out (kept covers a b))

outer : (String → String → Bool) → List String → List String → List String → List String
outer covers [] next out = out
outer covers (a ∷ cur) next out = outer covers cur next (inner covers a next out)

unfoldable pub narrow_list : List String → List String → (String → String → Bool) → List String
unfolding outer inner keep kept
narrow_list cur next covers = outer covers cur next []

-- `narrowAllowList`
unfoldable pub narrow_allow_list :
    Option (List String) → Option (List String) → (String → String → Bool) → Option (List String)
narrow_allow_list cur none covers = cur
narrow_allow_list none (some next) covers = some next
narrow_allow_list (some cur) (some next) covers = some (narrow_list cur next covers)

-- `intersect`
unfoldable pub intersect : Option (List String) → Option (List String) → Option (List String)
unfolding narrow_allow_list
intersect cur next = narrow_allow_list cur next (λ a b. a == b)

-- The entries that a tool entry covers: itself, and the tools of a whole server.
unfoldable pub tool_covers : String → String → Bool
tool_covers a b = a == b || not (has_char b'/' a) && has_prefix b (join a "/")

-- `intersectTools`
unfoldable pub intersect_tools : Option (List String) → Option (List String) → Option (List String)
unfolding narrow_allow_list tool_covers
intersect_tools cur next = narrow_allow_list cur next tool_covers

-- `allowsModel` and `AllowsLocation`
unfoldable pub allows : Option (List String) → String → Bool
allows none x = true
allows (some l) x = contains l x

-- `AllowsTool`
unfoldable pub allows_tool : Option (List String) → String → String → Bool
allows_tool none server tool = true
allows_tool (some l) server tool = contains l server || contains l (join server (join "/" tool))

-- `AllowsWholeServer`
unfoldable pub allows_whole_server : Option (List String) → String → Bool
allows_whole_server none server = true
allows_whole_server (some l) server = contains l server
