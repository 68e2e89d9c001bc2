-- ===== src/Registry/Budgets/Prepaid.antt =====
-- Credit paid in advance: `HoldCredit`, `ReleaseCredit`, `ChargeCredit`, `ChargesPaid` and
-- `reconcileCredit` of internal/registry/budget.go.
pub mod Holds
use keera_gateway.Base.{
  ℕ, zero, String, Bool, true, false, Option, none, some, List, [], ◌∷◌, ◌||◌, ◌==◌, nat_eq, not,
  ltb, if◌then◌else◌,
}
use keera_gateway.Base.Dict.{Dict, get, put, delete}
use keera_gateway.Base.Int.{ℤ, pos, leb_ℤ, ltb_ℤ, eqb_ℤ, max_ℤ}
use keera_gateway.Base.Int64.{add64, sub64}
use keera_gateway.Registry.Budgets.{Budgets, Credit, value_or}

-- The zero value of Go's `credit`.
abbrev pub no_credit : Credit
no_credit = record { balance = pos 0; invoiced = false; charge_due = 0 }

abbrev pub credit_of : Budgets → String → Credit
credit_of b org = value_or no_credit (get b.credit org)

abbrev pub held_of : Budgets → String → ℤ
held_of b org = value_or (pos 0) (get b.held org)

-- What `HoldCredit` answers: what to release, or `ErrNoCredit`.
pub data Hold : Type 0 where
  holds : ℤ → Hold
  refused : (balance held : ℤ) → Hold

-- `HoldCredit`
unfoldable pub hold_credit : Budgets → String → ℤ → Budgets × Hold
hold_credit b org micros =
    let c = credit_of b org in
    let held = held_of b org in
    if not b.prepaid
    then (b, holds (pos 0))
    else if c.invoiced
    then (b, holds (pos 0))
    else if leb_ℤ (sub64 c.balance held) (pos 0)
    then (b, refused c.balance held)
    else (
      (if ltb_ℤ (pos 0) micros then record b { held = put b.held org (add64 held micros) } else b),
      holds (max_ℤ micros (pos 0)),
    )

-- `ChargesPaid`: the time since which a charge is due, if it refuses
unfoldable pub charges_paid : Budgets → String → ℕ → Option ℕ
charges_paid b org now =
    let due = (credit_of b org).charge_due in
    if not b.prepaid then none else if due == 0 || ltb now due then none else some due

-- `ReleaseCredit`
unfoldable pub release_credit : Budgets → String → ℤ → Budgets
release_credit b org micros =
    let left = sub64 (held_of b org) micros in
    if leb_ℤ micros (pos 0)
    then b
    else if ltb_ℤ (pos 0) left
    then record b { held = put b.held org left }
    else record b { held = delete b.held org }

-- `ChargeCredit`
unfoldable pub charge_credit : Budgets → String → ℤ → Budgets
charge_credit b org micros =
    let c = credit_of b org in
    if not b.prepaid || eqb_ℤ micros (pos 0)
    then b
    else record b { credit = put b.credit org (record c { balance = sub64 c.balance micros }) }

-- A row of `store.CreditRow`.
pub record CreditRow : Type 0 where
  pub org_id : String
  pub balance_micros : ℤ
  pub invoiced : Bool
  pub charge_due_at : ℕ

credit_from : Dict Credit → List CreditRow → Dict Credit
credit_from next [] = next
credit_from next (r ∷ rows) =
    credit_from
      (put next r.org_id (record {
        balance = r.balance_micros;
        invoiced = r.invoiced;
        charge_due = r.charge_due_at;
      }))
      rows

-- `reconcileCredit`
unfoldable pub reconcile_credit : Budgets → List CreditRow → Budgets
unfolding credit_from
reconcile_credit b rows = record b { credit = credit_from [] rows }
