-- ===== src/Gateway/Window.antt =====
-- The check of the context window: `fits` of internal/gateway/window.go.
pub mod Holds
use keera_gateway.Base.{
  ℕ, ◌/◌, String, Bool, true, false, Option, none, some, List, [], ◌∷◌, ◌==◌, string_eq, leb,
  if◌then◌else◌,
}
use keera_gateway.Base.Int.{ℤ, pos, ltb_ℤ, leb_ℤ}
use keera_gateway.Policy.Model.{Model, Kind}
use keera_gateway.Gateway.Size.{least_tokens}

-- The largest context of the chain, or none where a model holds anything
unfoldable pub window_of : List Model → ℤ → Option ℤ
window_of [] window = some window
window_of (m ∷ ms) window =
    let rest = window_of ms (if ltb_ℤ window m.max_context then m.max_context else window) in
    if leb_ℤ m.max_context (pos 0) then none else rest

unfoldable pub texts_fit : Option (List String) → Kind → ℤ → Bool
texts_fit none kind window = true
texts_fit (some texts) kind window = leb_ℤ (pos (least_tokens texts kind)) window

unfoldable pub within : ℕ → Option (List String) → Kind → Option ℤ → Bool
within size texts kind none = true
within size texts kind (some window) =
    if leb_ℤ (pos (size / 5)) window then true else texts_fit texts kind window

-- `fits`, of a body of so many bytes and these texts, if it can be read
unfoldable pub fits : Kind → List Model → ℕ → Option (List String) → Bool
unfolding within texts_fit window_of
fits kind chain size texts =
    if kind == "rerank" then true else within size texts kind (window_of chain (pos 0))
