-- ===== src/Registry/Budgets.antt =====
-- `Budgets` of internal/registry/budget.go: spend and counts per window, running requests, and the
-- credit of organisations that pay in advance. A method takes the state and returns the new one;
-- its lock makes it one step. A time is a number of nanoseconds, and 0 is Go's zero time.
pub mod Keys
pub mod Windows
pub mod Requests
pub mod Resolved
pub mod Running
pub mod Allowed
pub mod Prepaid
use Prim.Native.String.{◌++◌ as join}
use keera_gateway.Base.{
  ℕ, zero, String, Bool, true, false, Option, none, some, List, [], ◌∷◌, ◌||◌, ◌==◌, string_eq,
  nat_eq, not, ltb, leb, any, if◌then◌else◌,
}
use keera_gateway.Base.Dict.{Dict, get, put, delete}
use keera_gateway.Base.Int.{ℤ, pos, leb_ℤ, ltb_ℤ, eqb_ℤ, max_ℤ}
use keera_gateway.Base.Int64.{add64, sub64}
use keera_gateway.Policy.Calendar.{Period, start, next}
use keera_gateway.Policy.Scope.{Scope, ScopeType, Meter, meter_cost, meter_requests}

pub record Window : Type 0 where
  pub start : ℕ
  pub n : ℤ

pub record Credit : Type 0 where
  pub balance : ℤ
  pub invoiced : Bool
  pub charge_due : ℕ

pub record Budgets : Type 0 where
  pub w : Dict Window
  pub prepaid : Bool
  pub credit : Dict Credit
  pub held : Dict ℤ
  pub running : Dict Window

-- `newBudgets`
unfoldable pub new_budgets : Bool → Budgets
new_budgets prepaid = record { w = []; prepaid = prepaid; credit = []; held = []; running = [] }

-- `windowKey`
unfoldable pub window_key : ScopeType → String → Period → String
window_key t id p = join t (join "\0" (join id (join "\0" p)))

-- A map's value, or Go's zero value.
abbrev pub value_or {ℓ} : {A : Type ℓ} → A → Option A → A
value_or d none = d
value_or d (some a) = a

-- `add`: an older window is replaced, and n for a window already over is dropped.
added : Dict Window → String → ℕ → ℤ → Option Window → Dict Window
added windows k st n none = put windows k (record { start = st; n = add64 (pos 0) n })
added windows k st n (some w) =
    if ltb st w.start
    then windows
    else if ltb w.start st
    then put windows k (record { start = st; n = add64 (pos 0) n })
    else put windows k (record w { n = add64 w.n n })

unfoldable pub add : Dict Window → String → ℕ → ℤ → Dict Window
unfolding added
add windows k st n = added windows k st n (get windows k)

-- `counts`
unfoldable pub counts : List Scope → Meter → Bool
counts scopes meter = any (λ (sc : Scope). sc.meter == meter) scopes

abbrev pub key_of : Scope → String
key_of sc = window_key sc.type sc.id sc.period

-- The loop of `addEach`.
unfoldable pub add_scopes : Dict Window → List Scope → Meter → ℤ → ℕ → Dict Window
add_scopes windows [] meter n now = windows
add_scopes windows (sc ∷ scopes) meter n now =
    add_scopes
      (if sc.meter == meter then add windows (key_of sc) (start sc.period now) n else windows)
      scopes meter n now

-- `addEach`, on the map that it is given
unfoldable pub add_each : Dict Window → List Scope → Meter → ℤ → ℕ → Dict Window
unfolding counts add_scopes
add_each windows scopes meter n now =
    if not (counts scopes meter) then windows else add_scopes windows scopes meter n now

-- `Tally`
unfoldable pub tally : Budgets → List Scope → Meter → ℤ → ℕ → Budgets
tally b scopes meter n now =
    if eqb_ℤ n (pos 0) then b else record b { w = add_each b.w scopes meter n now }

-- `Charge`
unfoldable pub charge : Budgets → List Scope → ℤ → ℕ → Budgets
unfolding tally
charge b scopes micros now = tally b scopes meter_cost micros now

-- `StartRequest`
unfoldable pub start_request : Budgets → List Scope → ℕ → Budgets
start_request b scopes now = record b {
  running = add_each b.running scopes meter_requests (pos 1) now;
}

-- `r.n--; r.n <= 0`, on the running window that `EndRequest` finds
abbrev pub finish : Dict Window → String → ℕ → Option Window → Dict Window
finish running k st none = running
finish running k st (some r) =
    if r.start == st
    then (let left = sub64 r.n (pos 1) in
        if leb_ℤ left (pos 0) then delete running k else put running k (record r { n = left }))
    else running

-- One round of the loop of `EndRequest`.
unfoldable pub end_scope : Budgets → Scope → ℕ → Budgets
end_scope b sc now =
    let k = key_of sc in
    let st = start sc.period now in
    if not (sc.meter == meter_requests)
    then b
    else record b { running = finish b.running k st (get b.running k); w = add b.w k st (pos 1) }

unfoldable pub end_scopes : Budgets → List Scope → ℕ → Budgets
unfolding end_scope
end_scopes b [] now = b
end_scopes b (sc ∷ scopes) now = end_scopes (end_scope b sc now) scopes now

-- `EndRequest`
unfoldable pub end_request : Budgets → List Scope → ℕ → Budgets
unfolding end_scopes counts
end_request b scopes now = if not (counts scopes meter_requests) then b else end_scopes b scopes now

-- `n += w.n`, if the window found is the open one
unfoldable pub count_in : ℤ → Option Window → ℕ → ℤ
count_in n none st = n
count_in n (some w) st = if w.start == st then add64 n w.n else n

-- `spent`, and `Spent`: the database's figure and the running requests of the open window
unfoldable pub spent : Budgets → ScopeType → String → Period → ℕ → ℤ
spent b t id p now =
    let k = window_key t id p in
    let st = start p now in count_in (count_in (pos 0) (get b.w k) st) (get b.running k) st

-- `ErrBudgetExceeded`
pub record BudgetExceeded : Type 0 where
  pub scope : Scope
  pub spent : ℤ
  pub budget : ℤ
  pub resets_at : ℕ

-- `Allow`: the first scope that has spent its budget refuses.
unfoldable pub allow : Budgets → List Scope → ℕ → Option BudgetExceeded
allow b [] now = none
allow b (sc ∷ scopes) now =
    let used = spent b sc.type sc.id sc.period now in
    let rest = allow b scopes now in
    if leb_ℤ sc.budget_micros (pos 0)
    then rest
    else if leb_ℤ sc.budget_micros used
    then some (record {
      scope = sc;
      spent = used;
      budget = sc.budget_micros;
      resets_at = next sc.period now;
    })
    else rest

-- A row of `store.SpendRow`.
pub record SpendRow : Type 0 where
  pub scope_type : ScopeType
  pub scope_id : String
  pub period : Period
  pub period_start : ℕ
  pub micros : ℤ

-- The loop of `reconcile`: a later row for one window replaces an earlier one.
unfoldable pub windows_from : Dict Window → List SpendRow → Dict Window
windows_from ws [] = ws
windows_from ws (r ∷ rows) =
    windows_from
      (put ws (window_key r.scope_type r.scope_id r.period)
        (record { start = r.period_start; n = r.micros }))
      rows

-- `reconcile`
unfoldable pub reconcile : Budgets → List SpendRow → Budgets
unfolding windows_from
reconcile b rows = record b { w = windows_from [] rows }
