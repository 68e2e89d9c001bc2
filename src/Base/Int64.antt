-- ===== src/Base/Int64.antt =====
-- 64-bit two's complement: Go's `int64`, and its `int` on a 64-bit machine. A value is the integer
-- that it stands for; an operation computes the exact integer and wraps it.
use Prim.Native.Nat.{ℕ, suc, ◌+◌, ◌-◌, ◌*◌, ◌%◌, ◌^◌, ◌≤◌, ◌<◌}
use mathlib.Core.Path.{◌≡◌, ap, ◌∙◌}
use native.Mathlib.Omega.{arith}
use keera_gateway.Base.Tests.{ltb, if◌then◌else◌}
use keera_gateway.Base.Int.{
  ℤ, pos, negsuc, pos_part, neg_part, sub_ℕ, ◌+ℤ◌, ◌-ℤ◌, ◌*ℤ◌, ◌≤ℤ◌, int_laws,
}

-- The bit pattern of an integer, as an unsigned number.
unfoldable pub encode : ℤ → ℕ
encode (pos n) = n % 2 ^ 64
encode (negsuc n) = 2 ^ 64 - 1 - n % 2 ^ 64

-- The integer that a bit pattern stands for.
unfoldable pub decode : ℕ → ℤ
decode n = if ltb n (2 ^ 63) then pos n else negsuc (2 ^ 64 - 1 - n)

unfoldable pub wrap : ℤ → ℤ
unfolding encode decode
wrap a = decode (encode a)

unfoldable pub add64 : ℤ → ℤ → ℤ
add64 a b = wrap (a +ℤ b)

unfoldable pub sub64 : ℤ → ℤ → ℤ
sub64 a b = wrap (a -ℤ b)

unfoldable pub mul64 : ℤ → ℤ → ℤ
mul64 a b = wrap (a *ℤ b)

-- The integers that an `int64` holds.
abbrev pub InRange64 : ℤ → Type 0
InRange64 a = (pos_part a < 2 ^ 63) × (neg_part a ≤ 2 ^ 63)

pub wrap-eq : (a : ℤ) → InRange64 a → wrap a ≡ a
unfolding wrap
wrap-eq (pos n) h = ground arith
wrap-eq (negsuc n) h = ground arith

pub wrap-InRange64 : (a : ℤ) → InRange64 (wrap a)
unfolding wrap
wrap-InRange64 (pos n) = ground arith
wrap-InRange64 (negsuc n) = ground arith

pub add64-InRange64 : (a b : ℤ) → InRange64 (add64 a b)
unfolding add64
add64-InRange64 a b = wrap-InRange64 (a +ℤ b)

encode-wrap : (a : ℤ) → encode (wrap a) ≡ encode a
unfolding wrap
encode-wrap (pos n) = ground arith
encode-wrap (negsuc n) = ground arith

encode-add : (a b : ℤ) → encode (a +ℤ b) ≡ (encode a + encode b) % 2 ^ 64
unfolding encode ◌+ℤ◌
encode-add (pos a) (pos b) = ground arith
encode-add (pos a) (negsuc b) = ground arith
encode-add (negsuc a) (pos b) = ground arith
encode-add (negsuc a) (negsuc b) = ground arith

wrap_of_encode : (a b : ℤ) → encode a ≡ encode b → wrap a ≡ wrap b
wrap_of_encode a b h = unfold wrap in ap decode h

pub add64_comm : (a b : ℤ) → add64 a b ≡ add64 b a
unfolding add64 ◌+ℤ◌
add64_comm a b = ground arith

pub add64_assoc : (a b c : ℤ) → add64 (add64 a b) c ≡ add64 a (add64 b c)
unfolding add64
add64_assoc a b c = wrap_of_encode (wrap (a +ℤ b) +ℤ c) (a +ℤ wrap (b +ℤ c)) (
    omega (
      arith,
      encode-add (wrap (a +ℤ b)) c,
      encode-wrap (a +ℤ b),
      encode-add a b,
      encode-add a (wrap (b +ℤ c)),
      encode-wrap (b +ℤ c),
      encode-add b c,
    ))

pub add64-zero : (a : ℤ) → InRange64 a → add64 a (pos 0) ≡ a
unfolding add64 wrap ◌+ℤ◌
add64-zero (pos n) h = ground arith
add64-zero (negsuc n) h = ground arith

pub add64-pos : (a b : ℕ) → a + b < 2 ^ 63 → add64 (pos a) (pos b) ≡ pos (a + b)
unfolding add64 ◌+ℤ◌
add64-pos a b h = ground (arith, wrap-eq (pos (a + b)))

pub sub64-pos : (a b : ℕ) → b ≤ a → a < 2 ^ 63 → sub64 (pos a) (pos b) ≡ pos (a - b)
unfolding sub64 ◌-ℤ◌
sub64-pos a b le h = ground (arith, wrap-eq (pos (a - b)))

pub mul64-pos : (a b : ℕ) → a * b < 2 ^ 63 → mul64 (pos a) (pos b) ≡ pos (a * b)
unfolding mul64 ◌*ℤ◌
mul64-pos a b h = ground (arith, wrap-eq (pos (a * b)))

-- Subtraction undoes addition, whatever overflowed.
pub add64-sub64 : (a b : ℤ) → InRange64 a → sub64 (add64 a b) b ≡ a
unfolding add64 sub64 wrap ◌+ℤ◌ ◌-ℤ◌
add64-sub64 a b h = ground arith

-- What the wrapped operations compute where nothing overflows, in parts that `omega` reads.
pub sub64_parts :
    (a b : ℤ)
    → InRange64 (a -ℤ b)
    → pos_part (sub64 a b) + neg_part a + pos_part b
      ≡ neg_part (sub64 a b) + pos_part a + neg_part b
unfolding sub64
sub64_parts a b r = rw (wrap-eq (a -ℤ b) r) (omega int_laws)

pub -ℤ-InRange64 : (a b : ℤ) → pos 0 ≤ℤ b → b ≤ℤ a → InRange64 a → InRange64 (a -ℤ b)
-ℤ-InRange64 a b p q r = omega int_laws

pub sub64_self : (a : ℤ) → sub64 a a ≡ pos 0
unfolding sub64 wrap ◌-ℤ◌
sub64_self a = ground arith

pub mul64-zero : (a : ℤ) → mul64 (pos 0) a ≡ pos 0
unfolding mul64 wrap ◌*ℤ◌
mul64-zero (pos n) = ground arith
mul64-zero (negsuc n) = ground arith

-- a negative number times a positive one
pub mul64-negsuc : (a b : ℕ) → suc a * b < 2 ^ 63 → mul64 (negsuc a) (pos b) ≡ sub_ℕ 0 (suc a * b)
unfolding mul64 ◌*ℤ◌
mul64-negsuc a b h = ground (arith, wrap-eq (sub_ℕ 0 (suc a * b)))

add64-wrap : (a b : ℤ) → add64 a (wrap b) ≡ add64 a b
unfolding add64
add64-wrap a b =
    wrap_of_encode (a +ℤ wrap b) (a +ℤ b)
      (omega (arith, encode-add a (wrap b), encode-wrap b, encode-add a b))

add64-naturals : (a b : ℕ) → add64 (pos a) (pos b) ≡ wrap (pos (a + b))
unfolding add64 ◌+ℤ◌
add64-naturals a b = ground arith

-- Naturals that are added one after the other, however large.
pub add64_sum : (x : ℤ) (a b : ℕ) → add64 (add64 x (pos a)) (pos b) ≡ add64 x (pos (a + b))
add64_sum x a b =
    add64_assoc x (pos a) (pos b)
    ∙ (ap (λ (c : ℤ). add64 x c) (add64-naturals a b) ∙ add64-wrap x (pos (a + b)))

-- A part that is taken off and added elsewhere.
pub add64_moved : (x : ℤ) (k : ℤ) (n : ℕ) → add64 (add64 x k) (sub64 (pos n) k) ≡ add64 x (pos n)
unfolding add64 sub64
add64_moved x k n =
    let whole : k +ℤ (pos n -ℤ k) ≡ pos n = omega int_laws in
    let inner : add64 k (sub64 (pos n) k) ≡ wrap (pos n) =
      add64-wrap k (pos n -ℤ k) ∙ ap wrap whole in
    add64_assoc x k (sub64 (pos n) k) ∙ (ap (λ (c : ℤ). add64 x c) inner ∙ add64-wrap x (pos n))
