-- ===== src/Gateway/Pattern/Memory.antt =====
-- The memory of clean texts in internal/gateway/pattern.go changes no result, and stays right.
use keera_gateway.Base.{
  ℕ, ◌+◌, String, Bool, true, false, not, Option, none, some, List, [], ◌∷◌, ◌++◌, ◌==◌, nat_eq,
  string_eq, ltb, if◌then◌else◌, ◌≡◌, refl, sym, ap, ◌∙◌, All, arith,
}
use keera_gateway.Policy.Filter.{FilterRule}
use keera_gateway.Gateway.Pattern.{
  Engine, PatternHit, PatternRun, pattern_refuses, passes, Segment, RuleRun, rule_refuses,
  rule_applied, after_segment, apply_rule, after_rule, texts_of, apply_rules,
}

-- What one rule does to texts that are all scanned.
pub data PlainRule : Type 0 where
  refused_plainly : ℕ → PlainRule
  applied_plainly : List String → ℕ → PlainRule

unfoldable pub then_text : String → PlainRule → PlainRule
then_text t (refused_plainly n) = refused_plainly n
then_text t (applied_plainly ts n) = applied_plainly (t ∷ ts) n

module _ (e : Engine) where
  unfoldable pub apply_plainly : FilterRule → List String → ℕ → PlainRule
  unfolding then_text
  apply_plainly r [] n = applied_plainly [] n
  apply_plainly r (t ∷ ts) n =
      let found = e.matches r.pattern t in
      let skipped = then_text t (apply_plainly r ts n) in
      let replaced =
        then_text (e.replaced r.pattern r.replace t) (apply_plainly r ts (n + found)) in
      if found == 0 then skipped else if r.refuse then refused_plainly (n + found) else replaced

  unfoldable pub then_rule :
      FilterRule
      → PlainRule
      → List PatternHit
      → (List String → List PatternHit → PatternRun)
      → PatternRun
  then_rule r (refused_plainly n) hits on =
      pattern_refuses (e.sanitized r.reason)
        (hits ++ record { rule = r.pattern; matches = n; refused = true } ∷ [])
  then_rule r (applied_plainly ts n) hits on = on ts (
      if ltb 0 n
      then hits ++ record { rule = r.pattern; matches = n; refused = false } ∷ []
      else hits)

  -- The rules, in order, on every text.
  unfoldable pub filter_plainly : List FilterRule → List String → List PatternHit → PatternRun
  unfolding then_rule apply_plainly
  filter_plainly [] ts hits = passes ts hits
  filter_plainly (r ∷ rules) ts hits =
      then_rule r (apply_plainly r ts 0) hits (λ ts' hits'. filter_plainly rules ts' hits')

  -- No rule finds anything in the text.
  abbrev pub IsClean : List FilterRule → String → Type 0
  IsClean rules t = All (λ (r : FilterRule). e.matches r.pattern t ≡ 0) rules

  -- A segment that is not scanned is clean. One with a key that no rule has matched yet has the key of
  -- its text, in which the rules find nothing if those that are left do not.
  pub record IsRight (gen : ℕ) (rules after : List FilterRule) (s : Segment) : Type 0 where
    pub skipped : s.scanned ≡ false → IsClean after s.text
    pub keyed :
        (k : String)
        → s.key ≡ some k
        → s.matched ≡ false
        → (k ≡ e.clean_key gen s.text) × (IsClean after s.text → IsClean rules s.text)

  module _ (gen : ℕ) (rules : List FilterRule) where
    abbrev Follows : List FilterRule → RuleRun → PlainRule → Type 0
    Follows after (rule_refuses n) (refused_plainly n') = n ≡ n'
    Follows after (rule_refuses n) (applied_plainly ts n') = ⊥
    Follows after (rule_applied segs n) (refused_plainly n') = ⊥
    Follows after (rule_applied segs n) (applied_plainly ts n') =
        (n ≡ n') × (texts_of segs ≡ ts) × All (IsRight gen rules after) segs

    after_segment-Follows :
        (after : List FilterRule) (s : Segment) (x : RuleRun) (y : PlainRule)
        → IsRight gen rules after s
        → Follows after x y
        → Follows after (after_segment s x) (then_text s.text y)
    unfolding after_segment then_text texts_of
    after_segment-Follows after s (rule_refuses n) (refused_plainly n') i f = f
    after_segment-Follows after s (rule_refuses n) (applied_plainly ts n') i f = f
    after_segment-Follows after s (rule_applied segs n) (refused_plainly n') i f = f
    after_segment-Follows after s (rule_applied segs n) (applied_plainly ts n') i (a, b, c) =
        (a, ap (λ (l : List String). s.text ∷ l) b, (i, c))

    apply_rule-Follows :
        (r : FilterRule) (after : List FilterRule) (segs : List Segment) (n : ℕ)
        → All (IsRight gen rules (r ∷ after)) segs
        → Follows after (apply_rule e r segs n) (apply_plainly r (texts_of segs) n)
    unfolding apply_rule apply_plainly texts_of
    apply_rule-Follows r after [] n h = (refl, refl, tt)
    apply_rule-Follows r after (s ∷ segs) n (i, h) =
        by_match s.scanned refl (e.matches r.pattern s.text == 0) refl r.refuse
          (apply_rule-Follows r after segs n h)
          (apply_rule-Follows r after segs (n + e.matches r.pattern s.text) h)
      where
        missed : (e.matches r.pattern s.text ≡ 0) → IsRight gen rules after s
        missed z = record {
          skipped = λ e'. (i.skipped e').1;
          keyed = λ k e' m. let (at', clean) = i.keyed k e' m in (at', λ c. clean (z, c));
        }

        hit :
            s.scanned ≡ true
            → IsRight gen rules after
                (record s { text = e.replaced r.pattern r.replace s.text; matched = true })
        hit e' = record { skipped = λ e''. cc (sym e' ∙ e''); keyed = λ k e'' m. cc m }

        by_match :
            (scanned : Bool)
            → s.scanned ≡ scanned
            → (none' : Bool) → (e.matches r.pattern s.text == 0) ≡ none'
            → (refuse : Bool)
            → Follows after (apply_rule e r segs n) (apply_plainly r (texts_of segs) n)
            → Follows after
                (apply_rule e r segs (n + e.matches r.pattern s.text))
                (apply_plainly r (texts_of segs) (n + e.matches r.pattern s.text))
            → Follows after
                (if not scanned
                  then after_segment s (apply_rule e r segs n)
                  else if none'
                  then after_segment s (apply_rule e r segs n)
                  else if refuse
                  then rule_refuses (n + e.matches r.pattern s.text)
                  else after_segment
                      (record s { text = e.replaced r.pattern r.replace s.text; matched = true })
                      (apply_rule e r segs (n + e.matches r.pattern s.text)))
                (if none'
                  then then_text s.text (apply_plainly r (texts_of segs) n)
                  else if refuse
                  then refused_plainly (n + e.matches r.pattern s.text)
                  else then_text
                      (e.replaced r.pattern r.replace s.text)
                      (apply_plainly r (texts_of segs) (n + e.matches r.pattern s.text)))
        by_match true e1 true e2 refuse f g =
            after_segment-Follows after _ _ _ (missed (ground (arith, e2))) f
        by_match false e1 true e2 refuse f g =
            after_segment-Follows after _ _ _ (missed (ground (arith, e2))) f
        by_match false e1 false e2 refuse f g =
            let z = (i.skipped e1).0 in absurd (ground (arith, e2, z))
        by_match true e1 false e2 true f g = refl
        by_match true e1 false e2 false f g = after_segment-Follows after _ _ _ (hit e1) g

    -- After all the rules: the same result, and segments that are right with no rule left.
    abbrev pub Agrees : PatternRun × Option (List Segment) → PatternRun → Type 0
    Agrees (run, none) run' = run ≡ run'
    Agrees (run, some segs) run' = (run ≡ run') × All (IsRight gen rules []) segs

    pub apply_rules-Agrees :
        (after : List FilterRule) (segs : List Segment) (hits : List PatternHit)
        → All (IsRight gen rules after) segs
        → Agrees (apply_rules e after segs hits) (filter_plainly after (texts_of segs) hits)
    unfolding apply_rules filter_plainly
    apply_rules-Agrees [] segs hits h = (refl, h)
    apply_rules-Agrees (r ∷ after) segs hits h =
        by_rule (apply_rule e r segs 0) (apply_plainly r (texts_of segs) 0)
          (apply_rule-Follows r after segs 0 h)
          (λ segs' hits' h'. apply_rules-Agrees after segs' hits' h')
      where
        by_rule :
            (x : RuleRun) (y : PlainRule)
            → Follows after x y
            → ((segs' : List Segment) (hits' : List PatternHit)
                → All (IsRight gen rules after) segs'
                → Agrees
                    (apply_rules e after segs' hits')
                    (filter_plainly after (texts_of segs') hits'))
            → Agrees
                (after_rule e r x hits (λ segs' hits'. apply_rules e after segs' hits'))
                (then_rule r y hits (λ ts' hits'. filter_plainly after ts' hits'))
        by_rule (rule_refuses n) (refused_plainly n') z k = rw z refl
        by_rule (rule_refuses n) (applied_plainly ts n') z k = absurd z
        by_rule (rule_applied segs' n) (refused_plainly n') z k = absurd z
        by_rule (rule_applied segs' n) (applied_plainly ts n') (z, t, h') k =
            rw (← z, ← t) (k segs' _ h')
