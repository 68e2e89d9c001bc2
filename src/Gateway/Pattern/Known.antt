-- ===== src/Gateway/Pattern/Known.antt =====
-- The memory of clean texts in internal/gateway/pattern.go: what it knows is right, and it is bounded.
use keera_gateway.Base.{
  ℕ, ◌≤◌, String, Bool, true, false, not, ◌||◌, Option, none, some, List, [], ◌∷◌, ◌==◌, string_eq,
  ltb, leb, length, bytes, contains, if◌then◌else◌, ◌≡◌, refl, sym, ap, ◌∙◌, All, Bool-cases, inl,
  inr, arith, text_eq_iff,
}
use mathlib.Core.Option.{some-injective}
use keera_gateway.Policy.Filter.{FilterRule}
use keera_gateway.Gateway.Pattern.{
  Engine, min_remembered, max_clean_texts, CompileProblem, Compiled, CleanTexts, add_clean,
  has_clean, PatternRun, Segment, remembered, segments, texts_of, apply_rules, keep_clean, keep_all,
  run_checked, run_pattern,
}
use keera_gateway.Gateway.Pattern.Memory.{
  filter_plainly, IsClean, IsRight, Agrees, apply_rules-Agrees,
}

-- Neither generation holds more than it may.
abbrev pub IsBounded : CleanTexts → Type 0
IsBounded mem = (length mem.cur ≤ max_clean_texts) × (length mem.old ≤ max_clean_texts)

module _ (e : Engine) (rules_of : ℕ → List FilterRule) where
  -- A key of a text that is clean by the rules of its generation.
  abbrev pub IsKnown : String → Type 0
  IsKnown k = (gen : ℕ) × (t : String) × (k ≡ e.clean_key gen t) × IsClean e (rules_of gen) t

  abbrev pub IsSound : CleanTexts → Type 0
  IsSound mem = All IsKnown mem.cur × All IsKnown mem.old × IsBounded mem

  known : (l : List String) (k : String) → All IsKnown l → contains l k ≡ true → IsKnown k
  unfolding contains
  known [] k h e' = cc e'
  known (x ∷ l) k (i, h) e' = elim (Bool-cases (x == k)) [
    | inl same ↦ rw (← (text_eq_iff x k).0 same) i
    | inr other ↦ known l k h (ground (arith, e', other))
  ]

  add_clean-IsSound :
      (mem : CleanTexts) (k : String) → IsKnown k → IsSound mem → IsSound (add_clean mem k)
  unfolding add_clean
  add_clean-IsSound mem k i (c, o, b) =
      by_room (leb max_clean_texts (length mem.cur)) refl (contains mem.cur k)
    where
      by_room :
          (full : Bool)
          → leb max_clean_texts (length mem.cur) ≡ full
          → (there : Bool)
          → IsSound (
              if full
              then record { cur = k ∷ []; old = mem.cur }
              else record mem { cur = if there then mem.cur else k ∷ mem.cur })
      by_room true e' there = ((i, tt), c, (ground arith, b.0))
      by_room false e' true = (c, o, b)
      by_room false e' false = ((i, c), o, (ground (arith, e'), b.1))

  has_clean-IsSound : (mem : CleanTexts) (k : String) → IsSound mem → IsSound (has_clean mem k).1
  unfolding has_clean
  has_clean-IsSound mem k s = elim (Bool-cases (contains mem.cur k)) [
    | inl new ↦ rw new s
    | inr not_new ↦ elim (Bool-cases (contains mem.old k)) [
      | inl old' ↦ rw (not_new, old') (add_clean-IsSound mem k (known mem.old k s.1 old') s)
      | inr unknown ↦ rw (not_new, unknown) s
    ]
  ]

  has_clean-IsKnown :
      (mem : CleanTexts) (k : String) → IsSound mem → (has_clean mem k).0 ≡ true → IsKnown k
  unfolding has_clean
  has_clean-IsKnown mem k s = elim (Bool-cases (contains mem.cur k)) [
    | inl new ↦ λ e'. known mem.cur k s.0 new
    | inr not_new ↦ elim (Bool-cases (contains mem.old k)) [
      | inl old' ↦ λ e'. known mem.old k s.1 old'
      | inr unknown ↦ rw (not_new, unknown) (λ e'. cc e')
    ]
  ]

  module _
      (injective : (g g' : ℕ) (t t' : String)
        → e.clean_key g t ≡ e.clean_key g' t'
        → (g ≡ g') × (t ≡ t'))
      (c : Compiled) (same_rules : c.rules ≡ rules_of c.gen) where
    abbrev Right : Segment → Type 0
    Right s = IsRight e c.gen c.rules c.rules s

    known-IsClean : (t : String) → IsKnown (e.clean_key c.gen t) → IsClean e c.rules t
    known-IsClean t (g, t', same, clean) =
        let (g_eq, t_eq) = injective c.gen g t t' same in rw (same_rules, g_eq, t_eq) clean

    remembered-IsRight :
        (t : String) (mem : CleanTexts)
        → IsSound mem
        → Right (remembered e c t mem).0
          × IsSound (remembered e c t mem).1
          × ((remembered e c t mem).0.text ≡ t)
    unfolding remembered
    remembered-IsRight t mem s =
        by_length (not c.remembers || ltb (length (bytes t)) min_remembered)
      where
        by_known :
            (there : Bool)
            → (has_clean mem (e.clean_key c.gen t)).0 ≡ there
            → Right (record {
              text = t;
              scanned = not there;
              key = if there then none else some (e.clean_key c.gen t);
              matched = false;
            })
        by_known true e' = record {
          skipped = λ e''. known-IsClean t (has_clean-IsKnown mem (e.clean_key c.gen t) s e');
          keyed = λ k e'' m. cc e'';
        }
        by_known false e' = record {
          skipped = λ e''. cc e'';
          keyed = λ k e'' m. (sym (some-injective _ _ e''), λ clean. clean);
        }

        by_length :
            (short : Bool)
            → let known' = has_clean mem (e.clean_key c.gen t) in
              let r : Segment × CleanTexts =
                (if short
                  then (record { text = t; scanned = true; key = none; matched = false }, mem)
                  else (
                    record {
                      text = t;
                      scanned = not known'.0;
                      key = if known'.0 then none else some (e.clean_key c.gen t);
                      matched = false;
                    },
                    known'.1,
                  )) in
              Right r.0 × IsSound r.1 × (r.0.text ≡ t)
        by_length true = (record { skipped = λ e'. cc e'; keyed = λ k e' m. cc e' }, s, refl)
        by_length false = (by_known _ refl, has_clean-IsSound mem (e.clean_key c.gen t) s, refl)

    segments-AreRight :
        (texts : List String) (mem : CleanTexts)
        → IsSound mem
        → All Right (segments e c texts mem).0
          × IsSound (segments e c texts mem).1
          × (texts_of (segments e c texts mem).0 ≡ texts)
    unfolding segments texts_of
    segments-AreRight [] mem s = (tt, s, refl)
    segments-AreRight (t ∷ texts) mem s =
        let (r, s', e') = remembered-IsRight t mem s in
        let (rs, s'', e'') = segments-AreRight texts (remembered e c t mem).1 s' in
        (
          (r, rs),
          s'',
          ap (λ (x : String). x ∷ texts_of (segments e c texts (remembered e c t mem).1).0) e'
              ∙ ap (λ (l : List String). t ∷ l) e'',
        )

    keep_clean-IsSound :
        (segs : List Segment) (mem : CleanTexts)
        → All (λ (s : Segment). IsRight e c.gen c.rules [] s) segs
        → IsSound mem
        → IsSound (keep_clean segs mem)
    unfolding keep_clean
    keep_clean-IsSound [] mem h s = s
    keep_clean-IsSound (x ∷ segs) mem (i, h) s =
        by_key (λ mem' s'. keep_clean-IsSound segs mem' h s') x.key refl x.matched refl
      where
        by_key :
            ((mem' : CleanTexts) → IsSound mem' → IsSound (keep_clean segs mem'))
            → (key : Option String) → x.key ≡ key
            → (matched : Bool) → x.matched ≡ matched
            → IsSound (elim key [
              | none ↦ keep_clean segs mem
              | some k ↦ keep_clean segs (if matched then mem else add_clean mem k)
            ])
        by_key on none e' matched e'' = on mem s
        by_key on (some k) e' true e'' = on mem s
        by_key on (some k) e' false e'' =
            let (key_eq, clean) = i.keyed k e' e'' in
            on (add_clean mem k)
              (add_clean-IsSound mem k (c.gen, x.text, key_eq, rw same_rules at (clean tt)) s)

    finished :
        (run : PatternRun × Option (List Segment)) (run' : PatternRun) (mem : CleanTexts)
        → Agrees e c.gen c.rules run run'
        → IsSound mem
        → (run.0 ≡ run') × IsSound (keep_all run.1 mem)
    unfolding keep_all
    finished (run, none) run' mem a s = (a, s)
    finished (run, some segs) run' mem (same, right) s = (same, keep_clean-IsSound segs mem right s)

    -- A memory that is right and bounded changes no result of a filter's rules, and stays right and
    -- bounded: the texts, the hits and the refusal are those of rules that read every text. The rules
    -- compile and are those of their generation, and no two generations and texts share a key.
    pub run_pattern-IsPlain :
        (texts : List String) (mem : CleanTexts)
        → c.err ≡ none
        → IsSound mem
        → ((run_pattern e c texts mem).0 ≡ filter_plainly e c.rules texts [])
          × IsSound (run_pattern e c texts mem).1
    unfolding run_pattern run_checked
    run_pattern-IsPlain texts mem fine s = checked c.err fine
      where
        checked :
            (err : Option CompileProblem)
            → err ≡ none
            → ((run_checked e err c texts mem).0 ≡ filter_plainly e c.rules texts [])
              × IsSound (run_checked e err c texts mem).1
        checked (some p) e' = cc e'
        checked none e' =
            let (right, s', same) = segments-AreRight texts mem s in
            let scan = segments e c texts mem in
            let agrees = apply_rules-Agrees e c.gen c.rules c.rules scan.0 [] right in
            finished (apply_rules e c.rules scan.0 []) (filter_plainly e c.rules texts []) scan.1
              (rw same at agrees) s'
