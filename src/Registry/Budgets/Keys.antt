-- ===== src/Registry/Budgets/Keys.antt =====
-- Window keys are unambiguous: a type and a period hold no zero byte, whatever an id holds.
use Prim.Native.Char.{Char}
use Prim.Native.String.{[], ◌∷◌, ◌++◌}
use text.Mathlib.TextLemmas.{nil-append, cons-append}
use keera_gateway.Base.{String, ◌≡◌, ◌≢◌, refl}
use keera_gateway.Registry.Budgets.{window_key}

abbrev nul : Char
nul = "\0"

abbrev pub NoNul : String → Type 0
NoNul [] = Unit
NoNul (c ∷ s) = (c ≢ nul) × NoNul s

-- Texts that go on after a first zero byte.
split_first :
    (s t x y : String) → NoNul s → NoNul t → s ++ (nul ∷ x) ≡ t ++ (nul ∷ y) → (s ≡ t) × (x ≡ y)
split_first [] [] x y h k e = (refl, cc (nil-append (nul ∷ x), nil-append (nul ∷ y)))
split_first [] (d ∷ t) x y h k e =
    absurd (k.0 (cc (nil-append (nul ∷ x), cons-append d t (nul ∷ y))))
split_first (c ∷ s) [] x y h k e =
    absurd (h.0 (cc (nil-append (nul ∷ y), cons-append c s (nul ∷ x))))
split_first (c ∷ s) (d ∷ t) x y h k e =
    let tails : s ++ (nul ∷ x) ≡ t ++ (nul ∷ y) =
      cc (cons-append c s (nul ∷ x), cons-append d t (nul ∷ y)) in
    let (same, rest) = split_first s t x y h.1 k.1 tails in
    (cc (cons-append c s (nul ∷ x), cons-append d t (nul ∷ y)), rest)

-- A text without a zero byte is no text with one in it.
nul_inside : (s x : String) → ¬ NoNul (s ++ (nul ∷ x))
nul_inside [] x h = (rw nil-append at h).0 refl
nul_inside (c ∷ s) x h = nul_inside s x (rw cons-append at h).1

-- Texts that go on after a last zero byte.
split_last :
    (s t x y : String) → NoNul x → NoNul y → s ++ (nul ∷ x) ≡ t ++ (nul ∷ y) → (s ≡ t) × (x ≡ y)
split_last [] [] x y h k e = (refl, cc (nil-append (nul ∷ x), nil-append (nul ∷ y)))
split_last [] (d ∷ t) x y h k e =
    let tails : x ≡ t ++ (nul ∷ y) = cc (nil-append (nul ∷ x), cons-append d t (nul ∷ y)) in
    absurd (nul_inside t y (rw tails at h))
split_last (c ∷ s) [] x y h k e =
    let tails : y ≡ s ++ (nul ∷ x) = cc (nil-append (nul ∷ y), cons-append c s (nul ∷ x)) in
    absurd (nul_inside s x (rw tails at k))
split_last (c ∷ s) (d ∷ t) x y h k e =
    let tails : s ++ (nul ∷ x) ≡ t ++ (nul ∷ y) =
      cc (cons-append c s (nul ∷ x), cons-append d t (nul ∷ y)) in
    let (same, rest) = split_last s t x y h k tails in
    (cc (cons-append c s (nul ∷ x), cons-append d t (nul ∷ y)), rest)

nul_prefix : (x : String) → ("\0" ++ x) ≡ nul ∷ x
nul_prefix x = cc (cons-append nul [] x, nil-append x)

-- Two windows share a key only if they count one scope over one period: where neither type nor
-- period holds a zero byte, equal keys have equal types, ids and periods.
pub window_key_injective :
    (t t' id id' p p' : String)
    → NoNul t
    → NoNul t'
    → NoNul p
    → NoNul p'
    → window_key t id p ≡ window_key t' id' p'
    → (t ≡ t') × (id ≡ id') × (p ≡ p')
unfolding window_key
window_key_injective t t' id id' p p' ht ht' hp hp' e =
    let whole : t ++ (nul ∷ (id ++ (nul ∷ p))) ≡ t' ++ (nul ∷ (id' ++ (nul ∷ p'))) =
      rw
        (
          nul_prefix (id ++ ("\0" ++ p)),
          nul_prefix p,
          nul_prefix (id' ++ ("\0" ++ p')),
          nul_prefix p',
        )
        at e in
    let (types, rest) = split_first t t' _ _ ht ht' whole in
    let (ids, periods) = split_last id id' p p' hp hp' rest in (types, ids, periods)
