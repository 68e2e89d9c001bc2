-- ===== src/Policy/Names/Shape.antt =====
-- What the names that pass the checks look like.
use keera_gateway.Base.{
  ℕ, suc, ◌+◌, ◌≤◌, ◌<◌, String, true, List, [], ◌∷◌, nat_eq, length, All, ◌≡◌, ◌≢◌, refl, ◌↔◌, ◌⊎◌,
  inl, inr, arith, bytes,
}
use keera_gateway.Policy.Names.{name_bytes, valid_bytes, valid_name}

-- A byte that a name may have.
abbrev IsNameByte : ℕ → Type 0
IsNameByte c = ((0x61 ≤ c) × (c ≤ 0x7a)) ⊎ (((0x30 ≤ c) × (c ≤ 0x39)) ⊎ (c ≡ 0x2d))

-- The last of these bytes, or of the byte before them.
abbrev last_of : ℕ → List ℕ → ℕ
last_of c [] = c
last_of c (d ∷ cs) = last_of d cs

-- A name of at most `most` bytes: lowercase letters, digits and hyphens, where neither its first
-- byte nor its last is a hyphen.
abbrev pub IsName : ℕ → List ℕ → Type 0
IsName most [] = ⊥
IsName most (c ∷ cs) =
    (suc (length cs) ≤ most) × All IsNameByte (c ∷ cs) × (c ≢ 0x2d) × (last_of c cs ≢ 0x2d)

-- The loop behind the first byte.
tail_bytes :
    (i n c : ℕ) (cs : List ℕ)
    → 0 < i
    → i + length cs ≡ n
    → (c ≢ 0x2d) ⊎ (0 < length cs)
    → (name_bytes i n cs ≡ true) ↔ (All IsNameByte cs × (last_of c cs ≢ 0x2d))
unfolding name_bytes
tail_bytes i n c [] p e (inl plain) = (λ _. (tt, plain), λ _. refl)
tail_bytes i n c [] p e (inr more) = absurd (omega arith)
tail_bytes i n c (d ∷ []) p e h = ground arith
tail_bytes i n c (d ∷ b ∷ cs) p e h =
    let (to, from) =
      tail_bytes (i + 1) n d (b ∷ cs) (omega arith) (omega arith) (inr (omega arith)) in
    (
      λ t. let r = to (ground arith) in ((ground arith, r.0), r.1),
      λ t. let r = from (t.0.1, t.1) in ground arith,
    )

whole : (s : List ℕ) (most : ℕ) → (valid_bytes s most ≡ true) ↔ IsName most s
unfolding valid_bytes
whole [] most = (λ e. absurd (ground arith), λ h. absurd h)
whole (c ∷ []) most = ground arith
whole (c ∷ b ∷ cs) most =
    let (to, from) =
      tail_bytes 1 (length (c ∷ b ∷ cs)) c (b ∷ cs) (omega arith) (omega arith)
        (inr (omega arith)) in
    (
      λ t. let r = to (ground arith) in (ground arith, (ground arith, r.0), ground arith, r.1),
      λ t. let (few, (first, others), start, end) = t in let r = from (others, end) in ground arith,
    )

-- The checks on a name say what it looks like: `validName` accepts exactly the texts of at least
-- one and at most `most` bytes that are lowercase letters, digits and hyphens with no hyphen at
-- either end.
valid_name-IsName : (s : String) (most : ℕ) → (valid_name s most ≡ true) ↔ IsName most (bytes s)
unfolding valid_name
valid_name-IsName s most = whole (bytes s) most
