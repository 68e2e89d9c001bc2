-- ===== src/Gateway/Pattern.antt =====
-- Pattern filters: `runPattern`, `compileRules` and `cleanTexts` of internal/gateway/pattern.go. The
-- regular expressions and SHA-256 are a record of functions (`Engine`); an empty map is Go's nil map,
-- which answers the same. Go adds the keys of clean texts in any order, here they are in the texts'.
pub mod Memory
pub mod Known
use keera_gateway.Base.{
  ℕ, zero, ◌+◌, String, Bool, true, false, not, ◌&&◌, ◌||◌, Option, none, some, List, [], ◌∷◌, ◌++◌,
  ◌==◌, nat_eq, ltb, leb, length, bytes, contains, if◌then◌else◌,
}
use keera_gateway.Policy.Filter.{FilterRule}

pub record Engine : Type 0 where
  -- `regexp.Compile` gives no error
  pub compiles : String → Bool
  -- `len(FindAllStringIndex)` of a pattern in a text
  pub matches : String → String → ℕ
  -- `ReplaceAllLiteralString`, of a pattern by a text in a text
  pub replaced : String → String → String → String
  pub clean_key : ℕ → String → String
  pub sanitized : String → String

abbrev pub min_remembered : ℕ
min_remembered = 512

abbrev pub max_clean_texts : ℕ
max_clean_texts = 32_768

pub data CompileProblem : Type 0 where
  no_rules : CompileProblem
  not_valid : String → CompileProblem

-- `compiled`, without the memory that it points to, if `remembers`
pub record Compiled : Type 0 where
  pub rules : List FilterRule
  pub err : Option CompileProblem
  pub remembers : Bool
  pub gen : ℕ

-- `cleanTexts`
pub record CleanTexts : Type 0 where
  pub cur : List String
  pub old : List String

-- `addLocked` and `add`
unfoldable pub add_clean : CleanTexts → String → CleanTexts
add_clean t k =
    if leb max_clean_texts (length t.cur)
    then record { cur = k ∷ []; old = t.cur }
    else record t { cur = if contains t.cur k then t.cur else k ∷ t.cur }

-- `has`
unfoldable pub has_clean : CleanTexts → String → Bool × CleanTexts
has_clean t k =
    if contains t.cur k
    then (true, t)
    else if contains t.old k
    then (true, add_clean t k)
    else (false, t)

-- `patternHit`
pub record PatternHit : Type 0 where
  pub rule : String
  pub matches : ℕ
  pub refused : Bool

-- What `runPattern` answers
pub data PatternRun : Type 0 where
  broken_rules : CompileProblem → PatternRun
  pattern_refuses : (reason : String) → List PatternHit → PatternRun
  passes : List String → List PatternHit → PatternRun

-- One segment as the loops of `runPattern` have it
pub record Segment : Type 0 where
  pub text : String
  pub scanned : Bool
  pub key : Option String
  pub matched : Bool

-- What a rule does to the segments
pub data RuleRun : Type 0 where
  rule_refuses : ℕ → RuleRun
  rule_applied : List Segment → ℕ → RuleRun

first_bad : (String → Bool) → List FilterRule → Option CompileProblem
first_bad compiles [] = none
first_bad compiles (r ∷ rules) =
    let later = first_bad compiles rules in
    if compiles r.pattern then later else some (not_valid r.pattern)

-- A `compiled` that only says why
abbrev pub broken : CompileProblem → Compiled
broken p = record { rules = []; err = some p; remembers = false; gen = 0 }

checked_rules : List FilterRule → ℕ → Option CompileProblem → Compiled
checked_rules rules gen none = record { rules = rules; err = none; remembers = true; gen = gen }
checked_rules rules gen (some p) = broken p

-- `compileRules`, and what `rulesFor` adds to rules that compile
unfoldable pub compile_rules : Engine → List FilterRule → (gen : ℕ) → Compiled
unfolding first_bad checked_rules
compile_rules e [] gen = broken no_rules
compile_rules e (r ∷ rules) gen = checked_rules (r ∷ rules) gen (first_bad e.compiles (r ∷ rules))

unfoldable pub after_segment : Segment → RuleRun → RuleRun
after_segment s (rule_refuses n) = rule_refuses n
after_segment s (rule_applied rest n) = rule_applied (s ∷ rest) n

unfoldable pub texts_of : List Segment → List String
texts_of [] = []
texts_of (s ∷ segs) = s.text ∷ texts_of segs

unfoldable pub keep_clean : List Segment → CleanTexts → CleanTexts
keep_clean [] mem = mem
keep_clean (s ∷ segs) mem = elim s.key [
  | none ↦ keep_clean segs mem
  | some k ↦ keep_clean segs (if s.matched then mem else add_clean mem k)
]

unfoldable pub keep_all : Option (List Segment) → CleanTexts → CleanTexts
unfolding keep_clean
keep_all none mem = mem
keep_all (some segs) mem = keep_clean segs mem

module _ (e : Engine) where
  -- Whether a segment is scanned, and under what key it may be remembered
  unfoldable pub remembered : Compiled → String → CleanTexts → Segment × CleanTexts
  remembered c text mem =
      let known = has_clean mem (e.clean_key c.gen text) in
      if not c.remembers || ltb (length (bytes text)) min_remembered
      then (record { text = text; scanned = true; key = none; matched = false }, mem)
      else (
        record {
          text = text;
          scanned = not known.0;
          key = if known.0 then none else some (e.clean_key c.gen text);
          matched = false;
        },
        known.1,
      )

  unfoldable pub segments : Compiled → List String → CleanTexts → List Segment × CleanTexts
  unfolding remembered
  segments c [] mem = ([], mem)
  segments c (text ∷ texts) mem =
      let here = remembered c text mem in
      let rest = segments c texts here.1 in (here.0 ∷ rest.0, rest.1)

  -- The inner loop of one rule, with the matches found so far
  unfoldable pub apply_rule : FilterRule → List Segment → ℕ → RuleRun
  unfolding after_segment
  apply_rule r [] n = rule_applied [] n
  apply_rule r (s ∷ rest) n =
      let found = e.matches r.pattern s.text in
      let skipped = after_segment s (apply_rule r rest n) in
      let replaced =
        after_segment (record s { text = e.replaced r.pattern r.replace s.text; matched = true })
          (apply_rule r rest (n + found)) in
      if not s.scanned
      then skipped
      else if found == 0
      then skipped
      else if r.refuse
      then rule_refuses (n + found)
      else replaced

  -- The outer loop, with the hits so far, and what is left when no rule refused
  unfoldable pub after_rule :
      FilterRule
      → RuleRun
      → List PatternHit
      → (List Segment → List PatternHit → PatternRun × Option (List Segment))
      → PatternRun × Option (List Segment)
  after_rule r (rule_refuses n) hits on = (
    pattern_refuses (e.sanitized r.reason)
        (hits ++ record { rule = r.pattern; matches = n; refused = true } ∷ []),
    none,
  )
  after_rule r (rule_applied segs n) hits on = on segs (
      if ltb 0 n
      then hits ++ record { rule = r.pattern; matches = n; refused = false } ∷ []
      else hits)

  unfoldable pub apply_rules :
      List FilterRule → List Segment → List PatternHit → PatternRun × Option (List Segment)
  unfolding after_rule apply_rule texts_of
  apply_rules [] segs hits = (passes (texts_of segs) hits, some segs)
  apply_rules (r ∷ rules) segs hits =
      after_rule r (apply_rule r segs 0) hits (λ segs' hits'. apply_rules rules segs' hits')

  unfoldable pub run_checked :
      Option CompileProblem → Compiled → List String → CleanTexts → PatternRun × CleanTexts
  unfolding apply_rules segments keep_all
  run_checked (some p) c texts mem = (broken_rules p, mem)
  run_checked none c texts mem =
      let scan = segments c texts mem in
      let run = apply_rules c.rules scan.0 [] in (run.0, keep_all run.1 scan.1)

  -- `runPattern`
  unfoldable pub run_pattern : Compiled → List String → CleanTexts → PatternRun × CleanTexts
  unfolding run_checked
  run_pattern c texts mem = run_checked c.err c texts mem
