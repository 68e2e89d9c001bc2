-- ===== src/Policy/Cost/Clamp.antt =====
-- What `clamped` promises of the counts that a provider reports.
use keera_gateway.Base.{◌≡◌, arith, refl}
use keera_gateway.Base.Int.{ℤ, pos, negsuc, ◌≤ℤ◌, ◌+ℤ◌, int_laws}
use keera_gateway.Base.Int64.{InRange64, sub64, sub64_parts, -ℤ-InRange64}
use keera_gateway.Policy.Model.{Tokens}
use keera_gateway.Policy.Cost.{between, clamped}

-- The parts lie within the whole: cached and written tokens share the input, and the tokens
-- written for an hour are some of those written.
pub record IsClamped (t : Tokens) : Type 0 where
  pub cached_nonneg : pos 0 ≤ℤ t.cached_input
  pub write_nonneg : pos 0 ≤ℤ t.cache_write
  pub hour_nonneg : pos 0 ≤ℤ t.cache_write_hour
  pub hour_fits : t.cache_write_hour ≤ℤ t.cache_write
  pub parts_fit : t.cached_input +ℤ t.cache_write ≤ℤ t.input

pub between_bounds : (x hi : ℤ) → pos 0 ≤ℤ hi → (pos 0 ≤ℤ between x hi) × (between x hi ≤ℤ hi)
unfolding between
between_bounds (pos x) (pos h) p = ground arith
between_bounds (negsuc x) (pos h) p = ground arith
between_bounds x (negsuc h) p = absurd (omega arith)

pub between_self : (x hi : ℤ) → pos 0 ≤ℤ x → x ≤ℤ hi → between x hi ≡ x
unfolding between
between_self (pos x) (pos h) p q = ground arith
between_self (pos x) (negsuc h) p q = absurd (omega arith)
between_self (negsuc x) h p q = absurd (omega arith)

-- For an input count of at least zero, whatever the provider reports of its parts, the clamped
-- parts lie within the whole, and the input and output counts are kept.
pub clamped-IsClamped :
    (t : Tokens)
    → pos 0 ≤ℤ t.input
    → InRange64 t.input
    → IsClamped (clamped t) × ((clamped t).input ≡ t.input) × ((clamped t).output ≡ t.output)
unfolding clamped
clamped-IsClamped t h r =
    let cached = between t.cached_input t.input in
    let c = between_bounds t.cached_input t.input h in
    let room = sub64_parts t.input cached (-ℤ-InRange64 t.input cached c.0 c.1 r) in
    let write = between t.cache_write (sub64 t.input cached) in
    let w = between_bounds t.cache_write (sub64 t.input cached) (omega (int_laws, room)) in
    let o = between_bounds t.cache_write_hour write w.0 in
    (
      record {
        cached_nonneg = c.0;
        write_nonneg = w.0;
        hour_nonneg = o.0;
        hour_fits = o.1;
        parts_fit = omega (int_laws, room, w.1);
      },
      refl,
      refl,
    )
