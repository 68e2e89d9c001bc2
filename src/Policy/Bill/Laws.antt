-- ===== src/Policy/Bill/Laws.antt =====
-- What a bill promises: when a call is billed, what the line says, and whose count it rests on.
use keera_gateway.Base.{
  ◌≡◌, refl, ◌⊎◌, ◌↔◌, inl, inr, true, false, Option, none, some, arith, Option-cases, Bool-cases,
  if◌then◌else◌,
}
use keera_gateway.Base.Int.{ℤ, pos, ◌≤ℤ◌, ◌+ℤ◌, ltb_ℤ}
use keera_gateway.Base.Int64.{InRange64}
use keera_gateway.Policy.Model.{Model, Tokens, Billing}
use keera_gateway.Policy.Cost.{clamped, cost}
use keera_gateway.Policy.Cost.Clamp.{clamped-IsClamped}
use keera_gateway.Policy.Bill.{BillLine, bill, bill_by, fee, line, counts_tokens}

-- Nothing bills the call: the model has no billing, or it has no fee and the caller's own
-- subscription pays.
abbrev pub IsUnbilled : Model → Type 0
IsUnbilled m =
    (m.billing ≡ none)
    ⊎ ((b : Billing) × (m.billing ≡ some b)
        × (b.fee_micros_per_mtok ≤ℤ pos 0)
        × (m.subscription ≡ true))

unbilled :
    (m : Model) (r c : Tokens) (o : Option Billing)
    → bill_by m o r c ≡ none
    → (o ≡ none)
      ⊎ ((b : Billing) × (o ≡ some b) × (b.fee_micros_per_mtok ≤ℤ pos 0) × (m.subscription ≡ true))
unfolding bill_by
unbilled m r c none e = inl refl
unbilled m r c (some b) e = inr (b, refl, ground arith, ground arith)

-- A call is left off the bill exactly when the model has no billing, or has no fee and the
-- caller's own subscription pays for it.
bill-eq-none_iff : (m : Model) (r c : Tokens) → (bill m r c ≡ none) ↔ IsUnbilled m
unfolding bill
bill-eq-none_iff m r c = (unbilled m r c m.billing, from)
  where
    from : IsUnbilled m → bill_by m m.billing r c ≡ none
    from (inl e) = rw e
    from (inr (b, e, low, sub)) = rw e (ground arith)

-- A model that the gateway counts for is billed on the gateway's own count, whatever its backend
-- reports; any other is billed on the report, whatever the gateway counted.
bill_source :
    (m : Model) (r r' c c' : Tokens)
    → bill m r c ≡ (if counts_tokens m then bill m r' c else bill m r c')
unfolding bill counts_tokens fee
bill_source m r r' c c' = elim (Option-cases m.billing) [
  | inl e ↦ rw e refl
  | inr (b, e) ↦ elim (Bool-cases (ltb_ℤ (pos 0) b.fee_micros_per_mtok)) [
    | inl paid ↦ elim (Bool-cases b.at_provider) [
      | inl at ↦ rw (e, paid, at) refl
      | inr away ↦ rw (e, paid, away) refl
    ]
    | inr free ↦ rw (e, free) refl
  ]
]

-- What the line of a call says, given the usage that it was billed on.
pub record IsLineOf (m : Model) (used : Tokens) (l : BillLine) : Type 0 where
  pub billing : Billing
  pub billed : m.billing ≡ some billing
  pub input_tokens : l.input_tokens ≡ used.input
  pub output_tokens : l.output_tokens ≡ used.output
  pub cached_nonneg : pos 0 ≤ℤ l.cached_input_tokens
  pub write_nonneg : pos 0 ≤ℤ l.cache_write_tokens
  pub parts_fit : l.cached_input_tokens +ℤ l.cache_write_tokens ≤ℤ l.input_tokens
  pub credit : l.credit_micros ≡ (if billing.credit then l.micros else pos 0)
  pub fee_flag : l.gateway_fee ≡ ltb_ℤ (pos 0) billing.fee_micros_per_mtok

unfoldable pub used_for : Model → Tokens → Tokens → Tokens
used_for m reported counted = if counts_tokens m then counted else reported

line-IsLineOf :
    (m : Model) (b : Billing) (used : Tokens) (micros : ℤ)
    → m.billing ≡ some b
    → pos 0 ≤ℤ used.input
    → InRange64 used.input
    → ltb_ℤ (pos 0) b.fee_micros_per_mtok ≡ false
    → IsLineOf m used (line m b (clamped used) micros)
unfolding line
line-IsLineOf m b used micros e h r free =
    let (c, i, o) = clamped-IsClamped used h r in
    record {
      billing = b;
      billed = e;
      input_tokens = i;
      output_tokens = o;
      cached_nonneg = c.cached_nonneg;
      write_nonneg = c.write_nonneg;
      parts_fit = c.parts_fit;
      credit = refl;
      fee_flag = rw free refl;
    }

fee-IsLineOf :
    (m : Model) (b : Billing) (reported counted : Tokens)
    → m.billing ≡ some b
    → pos 0 ≤ℤ (used_for m reported counted).input
    → InRange64 (used_for m reported counted).input
    → ltb_ℤ (pos 0) b.fee_micros_per_mtok ≡ true
    → IsLineOf m (used_for m reported counted) (fee m b reported counted)
unfolding line fee used_for
fee-IsLineOf m b reported counted e h r paid =
    let (c, i, o) = clamped-IsClamped (used_for m reported counted) h r in
    record {
      billing = b;
      billed = e;
      input_tokens = i;
      output_tokens = o;
      cached_nonneg = c.cached_nonneg;
      write_nonneg = c.write_nonneg;
      parts_fit = c.parts_fit;
      credit = refl;
      fee_flag = rw paid refl;
    }

used_for-free :
    (m : Model) (b : Billing) (r c : Tokens)
    → m.billing ≡ some b
    → ltb_ℤ (pos 0) b.fee_micros_per_mtok ≡ false
    → used_for m r c ≡ r
unfolding used_for counts_tokens
used_for-free m b r c e free = rw (e, free) refl

bill_by-IsLineOf :
    (m : Model) (r c : Tokens) (l : BillLine) (o : Option Billing)
    → m.billing ≡ o
    → pos 0 ≤ℤ (used_for m r c).input
    → InRange64 (used_for m r c).input
    → bill_by m o r c ≡ some l
    → IsLineOf m (used_for m r c) l
unfolding bill_by
bill_by-IsLineOf m r c l none e h k p = cc
bill_by-IsLineOf m r c l (some b) e h k p =
    elim (Bool-cases (ltb_ℤ (pos 0) b.fee_micros_per_mtok)) [
      | inl paid ↦
          let same : fee m b r c ≡ l = ground arith in rw same at (fee-IsLineOf m b r c e h k paid)
      | inr free ↦
          let same : line m b (clamped r) (cost m (clamped r)) ≡ l = ground arith in
          let own = used_for-free m b r c e free in
          rw own (
            rw same at
              (line-IsLineOf m b r (cost m (clamped r)) e (rw own at h) (rw own at k) free))
    ]

-- When a call is billed for a count of input tokens of at least zero, the line repeats the input
-- and output tokens that it is billed on (the gateway's count for a model that it counts for, the
-- report otherwise), its cached and written parts lie within the input, it takes from the credit
-- its whole amount or nothing as the billing says, and it is marked as the gateway fee exactly
-- when there is a fee.
bill-IsLineOf :
    (m : Model) (reported counted : Tokens) (l : BillLine)
    → pos 0 ≤ℤ (used_for m reported counted).input
    → InRange64 (used_for m reported counted).input
    → bill m reported counted ≡ some l
    → IsLineOf m (used_for m reported counted) l
unfolding bill
bill-IsLineOf m r c l h k p = bill_by-IsLineOf m r c l m.billing refl h k p
