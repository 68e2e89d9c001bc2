-- ===== src/Policy/Filter.antt =====
-- Filters: `Filter`, `FilterMode` and `FilterRule` of internal/policy/policy.go. The engine of
-- regular expressions is Go's `regexp`, a parameter here.
pub mod Rules
use keera_gateway.Base.{
  ℕ, String, Bool, true, false, Option, none, some, List, [], ◌∷◌, ◌&&◌, ◌||◌, ◌==◌, string_eq, not,
  ltb, length, if◌then◌else◌, bytes, contains, trim_space,
}

-- What a filter does with a request; empty means rewrite.
abbrev pub FilterMode : Type 0
FilterMode = String

abbrev pub filter_mode_gate : FilterMode
filter_mode_gate = "gate"

abbrev pub filter_mode_pattern : FilterMode
filter_mode_pattern = "pattern"

abbrev filter_modes : List FilterMode
filter_modes = "rewrite" ∷ filter_mode_gate ∷ filter_mode_pattern ∷ []

-- `FilterMode.Valid`
unfoldable pub filter_mode_valid : FilterMode → Bool
filter_mode_valid m = m == "" || contains filter_modes m

-- `FilterMode.Gates`
unfoldable pub gates : FilterMode → Bool
gates m = m == filter_mode_gate

-- `FilterMode.Rewrites`
unfoldable pub rewrites : FilterMode → Bool
unfolding gates
rewrites m = not (gates m)

-- `FilterMode.UsesModel`
unfoldable pub uses_model : FilterMode → Bool
uses_model m = not (m == filter_mode_pattern)

abbrev pub max_filter_pattern_len : ℕ
max_filter_pattern_len = 512

abbrev pub max_refusal_reason_bytes : ℕ
max_refusal_reason_bytes = 240

pub record FilterRule : Type 0 where
  pub pattern : String
  pub replace : String
  pub refuse : Bool
  pub reason : String

pub record Filter : Type 0 where
  pub org_id : String
  pub alias : String
  pub model : String
  pub mode : FilterMode
  pub prompt : String
  pub rules : List FilterRule
  pub shadow : Bool

-- `Filter.ReadsWith`
unfoldable pub filter_reads_with : Filter → String
unfolding uses_model
filter_reads_with f = if not (uses_model f.mode) then "" else f.model

-- What `FilterRule.Valid` finds wrong.
pub data RuleProblem : Type 0 where
  no_pattern pattern_too_long both_replaces_and_refuses reason_too_long : RuleProblem
  reason_without_refusal not_an_expression matches_everything : RuleProblem

-- `regexp.Compile`, as far as the check uses it: whether the expression compiled matches a text.
abbrev pub Compile : Type 0
Compile = String → Option (String → Bool)

compiled_problem : Option (String → Bool) → Option RuleProblem
compiled_problem none = some not_an_expression
compiled_problem (some matches) = if matches "" then some matches_everything else none

-- `FilterRule.Valid`
unfoldable pub rule_problem : Compile → FilterRule → Option RuleProblem
unfolding compiled_problem
rule_problem compile r =
    if trim_space r.pattern == ""
    then some no_pattern
    else if ltb max_filter_pattern_len (length (bytes r.pattern))
    then some pattern_too_long
    else if r.refuse && not (r.replace == "")
    then some both_replaces_and_refuses
    else if ltb max_refusal_reason_bytes (length (bytes r.reason))
    then some reason_too_long
    else if not r.refuse && not (r.reason == "")
    then some reason_without_refusal
    else compiled_problem (compile r.pattern)
