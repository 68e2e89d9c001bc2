-- ===== src/Gateway/Window/Holds.antt =====
-- Which requests pass the context window of internal/gateway/window.go.
use keera_gateway.Base.{
  ℕ, ◌/◌, ◌≤◌, String, Bool, true, false, ◌||◌, Option, none, some, List, [], ◌∷◌, ◌==◌, string_eq,
  any, if◌then◌else◌, ◌≡◌, refl, Bool-cases, inl, inr, arith,
}
use keera_gateway.Base.Int.{ℤ, pos, ltb_ℤ, leb_ℤ}
use keera_gateway.Policy.Model.{Model, Kind}
use keera_gateway.Gateway.Size.{total_bytes, longest, least_tokens}
use keera_gateway.Gateway.Window.{window_of, texts_fit, within, fits}

longest-le-total_bytes : (texts : List String) → longest texts ≤ total_bytes texts
unfolding longest total_bytes
longest-le-total_bytes [] = omega arith
longest-le-total_bytes (t ∷ texts) = ground (arith, longest-le-total_bytes texts)

least_tokens-le :
    (texts : List String) (kind : Kind) → least_tokens texts kind ≤ total_bytes texts / 5
unfolding least_tokens
least_tokens-le texts kind = ground (arith, longest-le-total_bytes texts)

-- A model that declares no context, or one of so many tokens.
abbrev pub holds_tokens : ℕ → Model → Bool
holds_tokens tokens m = leb_ℤ m.max_context (pos 0) || leb_ℤ (pos tokens) m.max_context

in_window : ℕ → Option ℤ → Bool
in_window tokens none = true
in_window tokens (some window) = leb_ℤ (pos tokens) window

larger_holds :
    (tokens : ℕ) (a b : ℤ)
    → leb_ℤ (pos tokens) (if ltb_ℤ a b then b else a)
      ≡ (leb_ℤ (pos tokens) a || leb_ℤ (pos tokens) b)
larger_holds tokens a b = elim (Bool-cases (ltb_ℤ a b)) [
  | inl less ↦ rw less (ground arith)
  | inr more ↦ rw more (ground arith)
]

or_assoc : (a b c : Bool) → ((a || b) || c) ≡ (a || (b || c))
or_assoc true b c = refl
or_assoc false b c = refl

in_window-window_of :
    (chain : List Model) (window : ℤ) (tokens : ℕ)
    → in_window tokens (window_of chain window)
      ≡ (leb_ℤ (pos tokens) window || any (holds_tokens tokens) chain)
unfolding window_of in_window
in_window-window_of [] window tokens = ground arith
in_window-window_of (m ∷ chain) window tokens = elim (Bool-cases (leb_ℤ m.max_context (pos 0))) [
  | inl endless ↦ rw endless (ground arith)
  | inr limited ↦
      rw
        (
          limited,
          in_window-window_of chain (if ltb_ℤ window m.max_context then m.max_context else window)
              tokens,
          larger_holds tokens window m.max_context,
        )
        (or_assoc (leb_ℤ (pos tokens) window) (leb_ℤ (pos tokens) m.max_context) _)
]

within-in_window :
    (window : Option ℤ) (size : ℕ) (texts : List String) (kind : Kind)
    → total_bytes texts ≤ size
    → within size (some texts) kind window ≡ in_window (least_tokens texts kind) window
unfolding within texts_fit in_window
within-in_window none size texts kind h = refl
within-in_window (some window) size texts kind h =
    let le = least_tokens-le texts kind in
    elim (Bool-cases (leb_ℤ (pos (size / 5)) window)) [
      | inl whole ↦ rw whole (ground (arith, le))
      | inr beyond ↦ rw beyond refl
    ]

-- A window of nothing is no more than the first model's.
zero_window :
    (tokens : ℕ) (most : ℤ) (others : Bool)
    → (leb_ℤ (pos tokens) (pos 0) || ((leb_ℤ most (pos 0) || leb_ℤ (pos tokens) most) || others))
      ≡ ((leb_ℤ most (pos 0) || leb_ℤ (pos tokens) most) || others)
zero_window tokens most others = ground arith

-- The check of the context window, shortcut included, passes a request exactly when it is one of a
-- reranker, or some model of the chain declares no context or holds the least tokens that its texts
-- can be. (The chain has a model, and the body is no shorter than its texts.)
pub fits-any :
    (kind : Kind) (m : Model) (chain : List Model) (size : ℕ) (texts : List String)
    → total_bytes texts ≤ size
    → fits kind (m ∷ chain) size (some texts)
      ≡ (kind == "rerank" || any (holds_tokens (least_tokens texts kind)) (m ∷ chain))
unfolding fits
fits-any kind m chain size texts h = elim (Bool-cases (kind == "rerank")) [
  | inl reranks ↦ rw reranks refl
  | inr other ↦
      rw
        (
          other,
          within-in_window (window_of (m ∷ chain) (pos 0)) size texts kind h,
          in_window-window_of (m ∷ chain) (pos 0) (least_tokens texts kind),
        )
        (zero_window (least_tokens texts kind) m.max_context _)
]
