-- ===== src/Policy/Names.antt =====
-- The shapes of names: `validName`, `ValidAlias`, `ValidModelAlias`, `ValidLocation` and
-- `validHeaderName` of internal/policy/policy.go and router.go, and `ValidToolEntry` of mcp.go. A
-- name is checked byte by byte.
pub mod Shape
use keera_gateway.Base.{
  ℕ, ◌+◌, ◌-◌, String, Bool, true, false, List, [], ◌∷◌, ◌++◌, ◌&&◌, ◌||◌, ◌==◌, nat_eq, string_eq,
  not, ltb, leb, length, any, all, if◌then◌else◌, bytes,
}

abbrev pub hyphen : ℕ
hyphen = 0x2d

-- `c >= 'a' && c <= 'z', c >= '0' && c <= '9'`
abbrev pub is_lower_or_digit : ℕ → Bool
is_lower_or_digit c = leb 0x61 c && leb c 0x7a || leb 0x30 c && leb c 0x39

-- The loop of `validName`, at byte `i` of `n`.
unfoldable pub name_bytes : ℕ → ℕ → List ℕ → Bool
name_bytes i n [] = true
name_bytes i n (c ∷ cs) =
    let rest = name_bytes (i + 1) n cs in
    if is_lower_or_digit c
    then rest
    else if c == hyphen && ltb 0 i && ltb i (n - 1)
    then rest
    else false

-- `validName`, on bytes
unfoldable pub valid_bytes : List ℕ → ℕ → Bool
unfolding name_bytes
valid_bytes s max_len =
    if length s == 0 || ltb max_len (length s) then false else name_bytes 0 (length s) s

-- `validName`
unfoldable pub valid_name : String → ℕ → Bool
valid_name s max_len = valid_bytes (bytes s) max_len

abbrev pub max_alias_len : ℕ
max_alias_len = 64

-- `ValidAlias`
unfoldable pub valid_alias : String → Bool
unfolding valid_name
valid_alias s = valid_name s max_alias_len

-- `ValidLocation`
unfoldable pub valid_location : String → Bool
unfolding valid_name
valid_location s = valid_name s 16

abbrev pub slash : ℕ
slash = 0x2f

-- The loop of `ValidModelAlias` over the parts between slashes; `part` is the part read so far.
unfoldable pub alias_parts : List ℕ → List ℕ → Bool
alias_parts part [] = valid_bytes part max_alias_len
alias_parts part (c ∷ cs) =
    let rest = alias_parts [] cs in
    let more = alias_parts (part ++ c ∷ []) cs in
    if c == slash then valid_bytes part max_alias_len && rest else more

-- `ValidModelAlias`
unfoldable pub valid_model_alias : String → Bool
unfolding alias_parts
valid_model_alias s =
    if ltb max_alias_len (length (bytes s)) then false else alias_parts [] (bytes s)

abbrev is_header_byte : ℕ → Bool
is_header_byte c = is_lower_or_digit c || leb 0x41 c && leb c 0x5a || c == hyphen

-- The last byte, where there is one.
last_is : ℕ → List ℕ → Bool
last_is k [] = false
last_is k (c ∷ []) = c == k
last_is k (c ∷ d ∷ cs) = last_is k (d ∷ cs)

first_is : ℕ → List ℕ → Bool
first_is k [] = false
first_is k (c ∷ cs) = c == k

-- `validHeaderName`
unfoldable pub valid_header_name : String → Bool
unfolding last_is first_is
valid_header_name s =
    let b = bytes s in
    if length b == 0 || ltb 64 (length b) || first_is hyphen b || last_is hyphen b
    then false
    else all is_header_byte b

abbrev max_tool_name_len : ℕ
max_tool_name_len = 128

-- `strings.Cut(s, "/")`: what stands before the first slash, what after it, and whether there is
-- one.
unfoldable pub cut_bytes : List ℕ → List ℕ × List ℕ × Bool
cut_bytes [] = ([], [], false)
cut_bytes (c ∷ cs) =
    let (before, after, found) = cut_bytes cs in
    if c == slash then ([], cs, true) else (c ∷ before, after, found)

abbrev is_blank : ℕ → Bool
is_blank c = c == 0x20 || c == 0x09 || c == 0x0a

-- `ValidToolEntry`
unfoldable pub valid_tool_entry : String → Bool
unfolding cut_bytes
valid_tool_entry s =
    let (server, tool, one) = cut_bytes (bytes s) in
    if not (valid_bytes server max_alias_len)
    then false
    else not one
      || (not (length tool == 0) && leb (length tool) max_tool_name_len && not (any is_blank tool))
