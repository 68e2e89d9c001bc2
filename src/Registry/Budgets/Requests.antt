-- ===== src/Registry/Budgets/Requests.antt =====
-- What charging, tallying, starting and ending a request do to the spend that a scope sees.
use keera_gateway.Base.{
  ℕ, zero, suc, ◌≡◌, refl, ap, sym, ◌∙◌, inl, inr, arith, String, Option, List, [], ◌∷◌, string_eq,
  nat_eq, Bool-cases, All,
}
use keera_gateway.Base.Dict.{get}
use keera_gateway.Base.Int.{ℤ, pos, eqb_ℤ, eqb_ℤ→eq}
use keera_gateway.Base.Int64.{InRange64, add64, add64-InRange64, add64-zero, add64_comm}
use keera_gateway.Policy.Calendar.{start, Period}
use keera_gateway.Policy.Scope.{Scope, ScopeType, Meter}
use keera_gateway.Registry.Budgets.{Window, Budgets, window_key, count_in, spent, tally, add_each}
use keera_gateway.Registry.Budgets.Keys.{NoNul, window_key_injective}
use keera_gateway.Registry.Budgets.Windows.{
  times, grown, occurrences, StartAt, get-add_each, total, NotLater, grown-NotLater, total-times,
  total-InRange64, times-add64, count_in-total,
}

-- The open window of a scope type, id and period at a time.
module _ (b : Budgets) (t : ScopeType) (id : String) (p : Period) (now : ℕ) where
  pub spent-totals :
      NotLater (start p now) (get b.w (window_key t id p))
      → spent b t id p now
        ≡ add64
            (total (start p now) (get b.w (window_key t id p)))
            (total (start p now) (get b.running (window_key t id p)))
  unfolding spent
  spent-totals h =
      let st = start p now in
      let k = window_key t id p in
      let first : count_in (pos 0) (get b.w k) st ≡ total st (get b.w k) =
        count_in-total (pos 0) st (get b.w k) (omega arith)
        ∙ (add64_comm (pos 0) (total st (get b.w k))
            ∙ add64-zero (total st (get b.w k)) (total-InRange64 st (get b.w k) h)) in
      rw first (
        count_in-total (total st (get b.w k)) st (get b.running k)
          (total-InRange64 st (get b.w k) h))

-- Types and periods are names, with no zero byte.
abbrev pub HasPlainKey : Scope → Type 0
HasPlainKey sc = NoNul sc.type × NoNul sc.period

pub plain-StartAt :
    (t : ScopeType) (id : String) (p : Period) (now : ℕ) (scopes : List Scope)
    → NoNul t
    → NoNul p
    → All HasPlainKey scopes
    → StartAt (window_key t id p) (start p now) now scopes
plain-StartAt t id p now [] ht hp h = tt
plain-StartAt t id p now (sc ∷ scopes) ht hp ((hs, hq), h) = (
  λ e.
      ap (λ (q : Period). start q now)
        (window_key_injective sc.type t sc.id id sc.period p hs ht hq hp e).2,
  plain-StartAt t id p now scopes ht hp h,
)

times-zero : (m : ℕ) (a : ℤ) → InRange64 a → times m (λ c. add64 c (pos 0)) a ≡ a
times-zero zero a h = refl
times-zero (suc m) a h = rw (add64-zero a h) (times-zero m a h)

-- Adding to every scope's window that counts the meter, with no window of the future.
pub times-total :
    (m st : ℕ) (n : ℤ) (o : Option Window) (rest : ℤ)
    → NotLater st o
    → add64 (total st (times m (grown st n) o)) rest
      ≡ times m (λ a. add64 a n) (add64 (total st o) rest)
times-total m st n o rest h = rw (total-times m st n o h) (times-add64 m n (total st o) rest)

pub times-NotLater :
    (m st : ℕ) (n : ℤ) (o : Option Window) → NotLater st o → NotLater st (times m (grown st n) o)
times-NotLater zero st n o h = h
times-NotLater (suc m) st n o h = times-NotLater m st n (grown st n o) (grown-NotLater st n o h)

module _ (b : Budgets) (t : ScopeType) (id : String) (p : Period) (now : ℕ) (scopes : List Scope)
    (ht : NoNul t) (hp : NoNul p) (plain : All HasPlainKey scopes)
    (past : NotLater (start p now) (get b.w (window_key t id p))) where
  spent-tally_nonzero :
      (meter : Meter) (n : ℤ)
      → spent (record b { w = add_each b.w scopes meter n now }) t id p now
        ≡ times (occurrences (window_key t id p) meter scopes) (λ a. add64 a n) (spent b t id p now)
  spent-tally_nonzero meter n =
      let k = window_key t id p in
      let st = start p now in
      let m = occurrences k meter scopes in
      let b' : Budgets = record b { w = add_each b.w scopes meter n now } in
      let seen =
        get-add_each scopes b.w meter n now st k (plain-StartAt t id p now scopes ht hp plain) in
      spent-totals b' t id p now (rw seen (times-NotLater m st n (get b.w k) past))
      ∙ rw (seen, spent-totals b t id p now past)
          (times-total m st n (get b.w k) (total st (get b.running k)) past)

  -- `Tally` raises what a window has spent by n for each scope that counts the meter there, and
  -- leaves every other window as it was, if no scope type or period holds a zero byte and the
  -- window in the local view is not one of the future. The sums are those of 64-bit integers.
  pub spent-tally :
      (meter : Meter) (n : ℤ)
      → spent (tally b scopes meter n now) t id p now
        ≡ times (occurrences (window_key t id p) meter scopes) (λ a. add64 a n) (spent b t id p now)
  unfolding tally
  spent-tally meter n = elim (Bool-cases (eqb_ℤ n (pos 0))) [
    | inl nothing ↦
        let e = eqb_ℤ→eq n (pos 0) nothing in
        let range : InRange64 (spent b t id p now) = rw (spent-totals b t id p now past) (
          add64-InRange64 (total (start p now) (get b.w (window_key t id p)))
            (total (start p now) (get b.running (window_key t id p)))) in
        rw (nothing, e)
          (sym
            (times-zero (occurrences (window_key t id p) meter scopes) (spent b t id p now) range))
    | inr something ↦ rw something (spent-tally_nonzero meter n)
  ]
