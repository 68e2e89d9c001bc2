-- ===== src/Base/Prefix.antt =====
-- Go's `strings.CutPrefix` on texts.
use Prim.Native.Char.{code}
use Prim.Native.String.{String, [], ◌∷◌, ◌++◌}
use mathlib.Core.Path.{◌≡◌, refl, ap}
use mathlib.Core.Logic.{◌↔◌, inl, inr}
use mathlib.Core.Option.{Option, none, some}
use text.Mathlib.TextLemmas.{nil-append, cons-append}
use text.Mathlib.TextEquality.{Char-path}
use keera_gateway.Base.Tests.{◌==◌, nat_beq_iff, nat_eq, Bool-cases, if◌then◌else◌}

unfoldable pub cut_prefix : String → String → Option String
cut_prefix s [] = some s
cut_prefix [] (d ∷ t) = none
cut_prefix (c ∷ s) (d ∷ t) = if code c == code d then cut_prefix s t else none

cut_prefix-append : (t r : String) → cut_prefix (t ++ r) t ≡ some r
unfolding cut_prefix
cut_prefix-append [] r = ap some (nil-append r)
cut_prefix-append (d ∷ t) r =
    rw (cons-append d t r, (nat_beq_iff (code d) (code d)).1 refl) (cut_prefix-append t r)

append-cut_prefix : (s t r : String) → cut_prefix s t ≡ some r → s ≡ t ++ r
unfolding cut_prefix
append-cut_prefix s [] r h = rw nil-append (cc h)
append-cut_prefix [] (d ∷ t) r h = cc h
append-cut_prefix (c ∷ s) (d ∷ t) r h = elim (Bool-cases (code c == code d)) [
  | inl same ↦
      let e : c ≡ d = Char-path c d ((nat_beq_iff (code c) (code d)).0 same) in
      rw (cons-append d t r, e)
        (ap (λ (u : String). d ∷ u) (append-cut_prefix s t r (rw same at h)))
  | inr other ↦ cc (rw other at h)
]

-- What is left after a prefix is what was put behind it.
pub cut_prefix_iff : (s t r : String) → (cut_prefix s t ≡ some r) ↔ (s ≡ t ++ r)
cut_prefix_iff s t r = (append-cut_prefix s t r, λ e. rw e (cut_prefix-append t r))
