-- ===== src/Registry/Budgets/Resolved.antt =====
-- Charging the scopes of a resolved key: a cost is counted once for each of its levels.
use Prim.Native.Char.{code}
use Prim.Native.String.{◌∷◌ as cons, [] as nil}
use keera_gateway.Base.{
  ℕ, ◌+◌, String, Bool, true, false, Option, List, [], ◌∷◌, ◌++◌, ◌&&◌, ◌||◌, ◌==◌, string_eq,
  nat_eq, not, ◌≡◌, ◌≢◌, refl, ap, ◌∙◌, sym, arith, Bool-cases, inl, inr, if◌then◌else◌, All,
  All-append, text_eq_iff, text_eq_self,
}
use keera_gateway.Base.Dict.{get}
use keera_gateway.Base.Int.{ℤ}
use keera_gateway.Base.Int64.{add64}
use keera_gateway.Policy.Calendar.{start, period_day, period_month}
use keera_gateway.Policy.Scope.{Scope, ScopeType, meter_cost, scope_org, scope_project, scope_key}
use keera_gateway.Policy.Resolve.{Limits, Key, Resolved, add_level, unrestricted, resolve}
use keera_gateway.Policy.Resolve.Windows.{
  IsLevelScopes, month_only, month_and_day, scopes-add_level,
}
use keera_gateway.Registry.Budgets.{Budgets, window_key, charge, spent}
use keera_gateway.Registry.Budgets.Keys.{NoNul, window_key_injective}
use keera_gateway.Registry.Budgets.Windows.{occurrences, NotLater}
use keera_gateway.Registry.Budgets.Requests.{HasPlainKey, spent-tally}

-- A test for the names that the source writes out.
no_nul : String → Bool
no_nul nil = true
no_nul (cons c s) = not (code c == 0) && no_nul s

no_nul_sound : (s : String) → no_nul s ≡ true → NoNul s
unfolding no_nul
no_nul_sound nil h = tt
no_nul_sound (cons c s) h =
    (λ e. let z : code c ≡ 0 = ap code e in absurd (ground arith), no_nul_sound s (ground arith))

pub plain_names :
    NoNul scope_org × NoNul scope_project × NoNul scope_key × NoNul period_month × NoNul period_day
unfolding no_nul
plain_names = (
  no_nul_sound scope_org refl,
  no_nul_sound scope_project refl,
  no_nul_sound scope_key refl,
  no_nul_sound period_month refl,
  no_nul_sound period_day refl,
)

occurrences-append :
    (k : String) (xs ys : List Scope)
    → occurrences k meter_cost (xs ++ ys)
      ≡ occurrences k meter_cost xs + occurrences k meter_cost ys
occurrences-append k [] ys = omega arith
occurrences-append k (sc ∷ xs) ys = ground (arith, occurrences-append k xs ys)

day-ne-month : period_day ≢ period_month
day-ne-month e = ground (arith, text_eq_iff period_day period_month)

-- Two window keys are compared part by part.
window_key_test :
    (t t' id id' p p' : String)
    → NoNul t
    → NoNul t'
    → NoNul p
    → NoNul p'
    → (window_key t id p == window_key t' id' p') ≡ (t == t' && id == id' && p == p')
window_key_test t t' id id' p p' ht ht' hp hp' =
    elim (Bool-cases (window_key t id p == window_key t' id' p')) [
      | inl equal ↦
          let e = (text_eq_iff (window_key t id p) (window_key t' id' p')).0 equal in
          let (types, ids, periods) = window_key_injective t t' id id' p p' ht ht' hp hp' e in
          rw (equal, types, ids, periods, text_eq_self t', text_eq_self id', text_eq_self p') refl
      | inr apart ↦ elim (Bool-cases (t == t' && id == id' && p == p')) [
        | inr other ↦ rw (apart, other) refl
        | inl same ↦
            let types : t ≡ t' = (text_eq_iff t t').0 (ground arith) in
            let ids : id ≡ id' = (text_eq_iff id id').0 (ground arith) in
            let periods : p ≡ p' = (text_eq_iff p p').0 (ground arith) in
            let equal : (window_key t id p == window_key t' id' p') ≡ true =
              rw (types, ids, periods) (text_eq_self (window_key t' id' p')) in
            absurd (ground arith)
      ]
    ]

-- The scopes of one level, as seen from the month of the type t and the id.
module _ (t t' id id' : String) (ht : NoNul t) (ht' : NoNul t') where
  hits : ℕ
  hits = if t' == t && id' == id then 1 else 0

  occurrences-month :
      (l : List Scope)
      → IsLevelScopes t' id' l
      → occurrences (window_key t id period_month) meter_cost l ≡ hits
  unfolding hits
  occurrences-month l (month_only {m} c) =
      let (org, project, key, month, day) = plain_names in
      let test = window_key_test t' t id' id period_month period_month ht' ht month month in
      rw (c.type, c.id, c.period, c.meter, test, text_eq_self meter_cost, text_eq_self period_month)
        (ground arith)
  occurrences-month l (month_and_day {m} {d} c c') =
      let (org, project, key, month, day) = plain_names in
      let test = window_key_test t' t id' id period_month period_month ht' ht month month in
      let other = window_key_test t' t id' id period_day period_month ht' ht day month in
      let apart : (period_day == period_month) ≡ false = refl in
      rw
        (
          c.type,
          c.id,
          c.period,
          c.meter,
          c'.type,
          c'.id,
          c'.period,
          c'.meter,
          test,
          other,
          apart,
          text_eq_self meter_cost,
          text_eq_self period_month,
        )
        (ground arith)

  plain-IsLevelScopes : (l : List Scope) → IsLevelScopes t' id' l → All HasPlainKey l
  plain-IsLevelScopes l (month_only {m} c) =
      let (org, project, key, month, day) = plain_names in ((rw c.type ht', rw c.period month), tt)
  plain-IsLevelScopes l (month_and_day {m} {d} c c') =
      let (org, project, key, month, day) = plain_names in
      ((rw c.type ht', rw c.period month), ((rw c'.type ht', rw c'.period day), tt))

-- Whether an id of this type is one of the key's levels.
unfoldable pub has_level : Key → ScopeType → String → Bool
has_level key t id =
    scope_org == t && key.org_id == id
    || not (key.project_id == "") && scope_project == t && key.project_id == id
    || scope_key == t && key.id == id

-- The three types are different.
one_type :
    (t : String)
    → ((scope_org == t) && (scope_project == t) ≡ false)
      × ((scope_org == t) && (scope_key == t) ≡ false)
      × ((scope_project == t) && (scope_key == t) ≡ false)
one_type t = elim (Bool-cases (scope_org == t)) [
  | inl org ↦
      let e : scope_org ≡ t = (text_eq_iff scope_org t).0 org in rw (sym e) (refl, refl, refl)
  | inr not_org ↦ elim (Bool-cases (scope_project == t)) [
    | inl project ↦
        let e : scope_project ≡ t = (text_eq_iff scope_project t).0 project in
        rw (sym e) (refl, refl, refl)
    | inr none_of ↦ rw (not_org, none_of) (refl, refl, refl)
  ]
]

module _ (t id : String) (ht : NoNul t) where
  -- Adding a level adds its scopes.
  level :
      (r : Resolved) (t' id' : String) (lim : Option Limits)
      → NoNul t'
      → All HasPlainKey r.scopes
      → All HasPlainKey (add_level r t' id' lim).scopes
        × (occurrences (window_key t id period_month) meter_cost (add_level r t' id' lim).scopes
            ≡ occurrences (window_key t id period_month) meter_cost r.scopes
              + (if t' == t && id' == id then 1 else 0))
  unfolding hits
  level r t' id' lim ht' plain =
      let (l, e, h) = scopes-add_level t' id' r lim in
      rw e (
        All-append HasPlainKey r.scopes l plain (plain-IsLevelScopes t t' id id' ht ht' l h),
        occurrences-append (window_key t id period_month) r.scopes l
            ∙ ap (λ (n : ℕ). occurrences (window_key t id period_month) meter_cost r.scopes + n)
                (occurrences-month t t' id id' ht ht' l h),
      )

  occurrences-resolve :
      (key : Key) (org project own : Option Limits)
      → All HasPlainKey (resolve key org project own).scopes
        × (occurrences
              (window_key t id period_month)
              meter_cost
              (resolve key org project own).scopes
            ≡ (if has_level key t id then 1 else 0))
  unfolding resolve has_level
  occurrences-resolve key org project own = elim (Bool-cases (key.project_id == "")) [
    | inl plain ↦
        let (org_name, project_name, key_name, month, day) = plain_names in
        let first = level (unrestricted key) scope_org key.org_id org org_name tt in
        let last =
          level (add_level (unrestricted key) scope_org key.org_id org) scope_key key.id own
            key_name first.0 in
        rw plain (last.0, last.1 ∙ rw first.1 (ground (arith, one_type t)))
    | inr within ↦
        let (org_name, project_name, key_name, month, day) = plain_names in
        let r = add_level (unrestricted key) scope_org key.org_id org in
        let first = level (unrestricted key) scope_org key.org_id org org_name tt in
        let second = level r scope_project key.project_id project project_name first.0 in
        let last =
          level (add_level r scope_project key.project_id project) scope_key key.id own key_name
            second.0 in
        rw within (last.0, last.1 ∙ rw (second.1, first.1) (ground (arith, one_type t)))
  ]

-- A cost charged to the scopes of a resolved key counts once in the month of its organisation,
-- of its project, if it has one, and of the key itself, and in no other month, whatever rate
-- limits and budgets the levels set. The month is one of a scope type without a zero byte, and
-- its window in the local view is not one of the future; the sums are those of 64-bit integers.
pub spent-charge-resolve :
    (key : Key) (org project own : Option Limits) (b : Budgets) (micros : ℤ) (now : ℕ)
    → (t : ScopeType) (id : String) → NoNul t
    → NotLater (start period_month now) (get b.w (window_key t id period_month))
    → spent (charge b (resolve key org project own).scopes micros now) t id period_month now ≡ (
        if has_level key t id
        then add64 (spent b t id period_month now) micros
        else spent b t id period_month now)
unfolding charge
spent-charge-resolve key org project own b micros now t id ht past =
    let (org_name, project_name, key_name, month, day) = plain_names in
    let (plain, once) = occurrences-resolve t id ht key org project own in
    spent-tally b t id period_month now (resolve key org project own).scopes ht month plain past
      meter_cost micros
    ∙ rw once (elim (Bool-cases (has_level key t id)) [
      | inl yes_it_is ↦ rw yes_it_is refl
      | inr not_one ↦ rw not_one refl
    ])
