-- ===== src/Registry/Budgets/Windows.antt =====
-- What one key sees of the maps of windows: adding to it, and a loop over scopes.
use keera_gateway.Base.{
  ℕ, zero, suc, ◌≤◌, ◌≡◌, refl, ap, sym, ◌∙◌, inl, inr, arith, String, false, Option, none, some,
  List, [], ◌∷◌, ◌&&◌, ◌==◌, string_eq, nat_eq, ltb, All, Bool-cases, text_eq_iff, if◌then◌else◌,
}
use keera_gateway.Base.Dict.{Dict, get, get-put}
use keera_gateway.Base.Int.{ℤ, pos}
use keera_gateway.Base.Int64.{
  InRange64, add64, add64-InRange64, add64-zero, add64_assoc, add64_comm,
}
use keera_gateway.Policy.Calendar.{start}
use keera_gateway.Policy.Scope.{Scope, Meter}
use keera_gateway.Registry.Budgets.{
  Window, add, added, counts, key_of, add_scopes, add_each, count_in,
}

-- The window that `add` leaves for its key.
abbrev pub grown : ℕ → ℤ → Option Window → Option Window
grown st n none = some (record { start = st; n = add64 (pos 0) n })
grown st n (some w) =
    if ltb st w.start
    then some w
    else if ltb w.start st
    then some (record { start = st; n = add64 (pos 0) n })
    else some (record w { n = add64 w.n n })

-- Writing back what is there changes nothing.
pub get_same :
    (ws : Dict Window) (k j : String) (w : Window)
    → get ws k ≡ some w
    → get ws j ≡ (if k == j then some w else get ws j)
get_same ws k j w e = elim (Bool-cases (k == j)) [
  | inl same ↦ let same_key : k ≡ j = (text_eq_iff k j).0 same in rw same (rw same_key at e)
  | inr other ↦ rw other refl
]

get-added :
    (ws : Dict Window) (k j : String) (st : ℕ) (n : ℤ) (o : Option Window)
    → get ws k ≡ o
    → get (added ws k st n o) j ≡ (if k == j then grown st n o else get ws j)
unfolding added
get-added ws k j st n none e = rw get-put refl
get-added ws k j st n (some w) e = elim (Bool-cases (ltb st w.start)) [
  | inl later ↦ rw later (get_same ws k j w e)
  | inr open' ↦ elim (Bool-cases (ltb w.start st)) [
    | inl older ↦ rw (open', older) (get-put ws k j (record { start = st; n = add64 (pos 0) n }))
    | inr same ↦ rw (open', same) (get-put ws k j (record w { n = add64 w.n n }))
  ]
]

pub get-add :
    (ws : Dict Window) (k j : String) (st : ℕ) (n : ℤ)
    → get (add ws k st n) j ≡ (if k == j then grown st n (get ws k) else get ws j)
unfolding add
get-add ws k j st n = get-added ws k j st n (get ws k) refl

-- `f` as often as there are rounds.
abbrev pub times {ℓ} : {A : Type ℓ} → ℕ → (A → A) → A → A
times zero f a = a
times (suc m) f a = times m f (f a)

-- How many of the scopes count this meter under this key.
abbrev pub occurrences : String → Meter → List Scope → ℕ
occurrences k meter [] = 0
occurrences k meter (sc ∷ scopes) =
    if sc.meter == meter && key_of sc == k
    then suc (occurrences k meter scopes)
    else occurrences k meter scopes

-- The scopes under a key all have the window that starts at `st`.
abbrev pub StartAt : String → ℕ → ℕ → List Scope → Type 0
StartAt k st now = All (λ (sc : Scope). key_of sc ≡ k → start sc.period now ≡ st)

get-add_scope :
    (ws : Dict Window) (sc : Scope) (meter : Meter) (n : ℤ) (now st : ℕ) (k : String)
    → (key_of sc ≡ k → start sc.period now ≡ st)
    → get (if sc.meter == meter then add ws (key_of sc) (start sc.period now) n else ws) k
      ≡ (if sc.meter == meter && key_of sc == k then grown st n (get ws k) else get ws k)
get-add_scope ws sc meter n now st k h = elim (Bool-cases (sc.meter == meter)) [
  | inr other ↦ rw other refl
  | inl same ↦
      rw (same, get-add)
        (elim (Bool-cases (key_of sc == k)) [
          | inr away ↦ rw away refl
          | inl here ↦
              let e : key_of sc ≡ k = (text_eq_iff (key_of sc) k).0 here in rw (here, h e, e) refl
        ])
]

pub get-add_scopes :
    (scopes : List Scope) (ws : Dict Window) (meter : Meter) (n : ℤ) (now st : ℕ) (k : String)
    → StartAt k st now scopes
    → get (add_scopes ws scopes meter n now) k
      ≡ times (occurrences k meter scopes) (grown st n) (get ws k)
unfolding add_scopes
get-add_scopes [] ws meter n now st k h = refl
get-add_scopes (sc ∷ scopes) ws meter n now st k (h, hs) =
    get-add_scopes scopes _ meter n now st k hs
    ∙ rw (get-add_scope ws sc meter n now st k h)
        (elim (Bool-cases (sc.meter == meter && key_of sc == k)) [
          | inl hit ↦ rw hit refl
          | inr miss ↦ rw miss refl
        ])

-- `addEach` returns early where no scope counts the meter, and the loop would have changed nothing.
pub occurrences_of_counts :
    (k : String) (meter : Meter) (scopes : List Scope)
    → counts scopes meter ≡ false
    → occurrences k meter scopes ≡ 0
unfolding counts
occurrences_of_counts k meter [] h = refl
occurrences_of_counts k meter (sc ∷ scopes) h = ground (arith, occurrences_of_counts k meter scopes)

pub get-add_each :
    (scopes : List Scope) (ws : Dict Window) (meter : Meter) (n : ℤ) (now st : ℕ) (k : String)
    → StartAt k st now scopes
    → get (add_each ws scopes meter n now) k
      ≡ times (occurrences k meter scopes) (grown st n) (get ws k)
unfolding add_each
get-add_each scopes ws meter n now st k h = elim (Bool-cases (counts scopes meter)) [
  | inl some_do ↦ rw some_do (get-add_scopes scopes ws meter n now st k h)
  | inr none_do ↦ rw (none_do, occurrences_of_counts k meter scopes none_do) refl
]

-- What a map holds for a key in the window that starts at `st`.
abbrev pub total : ℕ → Option Window → ℤ
total st none = pos 0
total st (some w) = if w.start == st then w.n else pos 0

-- No window of the future: clocks do not go back across a window's start.
abbrev pub NotLater : ℕ → Option Window → Type 0
NotLater st none = Unit
NotLater st (some w) = (w.start ≤ st) × InRange64 w.n

pub grown-NotLater :
    (st : ℕ) (n : ℤ) (o : Option Window) → NotLater st o → NotLater st (grown st n o)
grown-NotLater st n none h = (omega arith, add64-InRange64 (pos 0) n)
grown-NotLater st n (some w) h = elim (Bool-cases (ltb st w.start)) [
  | inl later ↦ rw later h
  | inr open' ↦ elim (Bool-cases (ltb w.start st)) [
    | inl older ↦ rw (open', older) (omega arith, add64-InRange64 (pos 0) n)
    | inr same ↦ rw (open', same) (h.0, add64-InRange64 w.n n)
  ]
]

total-grown :
    (st : ℕ) (n : ℤ) (o : Option Window)
    → NotLater st o
    → total st (grown st n o) ≡ add64 (total st o) n
total-grown st n none h = ground arith
total-grown st n (some w) h = ground arith

pub total-times :
    (m st : ℕ) (n : ℤ) (o : Option Window)
    → NotLater st o
    → total st (times m (grown st n) o) ≡ times m (λ a. add64 a n) (total st o)
total-times zero st n o h = refl
total-times (suc m) st n o h =
    total-times m st n (grown st n o) (grown-NotLater st n o h)
    ∙ ap (λ (a : ℤ). times m (λ b. add64 b n) a) (total-grown st n o h)

pub total-InRange64 : (st : ℕ) (o : Option Window) → NotLater st o → InRange64 (total st o)
total-InRange64 st none h = omega arith
total-InRange64 st (some w) h = ground arith

-- The amounts may be added to one part of a sum or to the whole.
pub times-add64 :
    (m : ℕ) (n a b : ℤ)
    → add64 (times m (λ c. add64 c n) a) b ≡ times m (λ c. add64 c n) (add64 a b)
times-add64 zero n a b = refl
times-add64 (suc m) n a b =
    times-add64 m n (add64 a n) b
    ∙ ap (λ (c : ℤ). times m (λ d. add64 d n) c)
        (add64_assoc a n b ∙ ap (λ (c : ℤ). add64 a c) (add64_comm n b) ∙ sym (add64_assoc a b n))

pub count_in-total :
    (a : ℤ) (st : ℕ) (o : Option Window) → InRange64 a → count_in a o st ≡ add64 a (total st o)
unfolding count_in
count_in-total a st none h = sym (add64-zero a h)
count_in-total a st (some w) h = ground (arith, add64-zero a h)
