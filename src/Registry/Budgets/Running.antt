-- ===== src/Registry/Budgets/Running.antt =====
-- The life of a request in the counts: `StartRequest` and `EndRequest`.
use native.Mathlib.Nat.{add-zero}
use keera_gateway.Base.{
  ℕ, zero, suc, ◌+◌, ◌<◌, ◌^◌, ◌≡◌, refl, ap, sym, ◌∙◌, inl, inr, arith, String, true, false,
  Option, none, some, List, [], ◌∷◌, ◌&&◌, ◌==◌, string_eq, nat_eq, Bool-cases, text_eq_iff, ltb,
  if◌then◌else◌, All,
}
use keera_gateway.Base.Dict.{Dict, get, get-put, get-delete}
use keera_gateway.Base.Int.{ℤ, pos, leb_ℤ}
use keera_gateway.Base.Int64.{
  InRange64, add64, add64-InRange64, add64_assoc, add64_comm, add64-zero, sub64, add64-pos,
  sub64-pos,
}
use keera_gateway.Policy.Calendar.{start, Period}
use keera_gateway.Policy.Scope.{Scope, ScopeType, meter_requests}
use keera_gateway.Registry.Budgets.{
  Window, Budgets, window_key, key_of, counts, finish, spent, start_request, end_scope, end_scopes,
  end_request,
}
use keera_gateway.Registry.Budgets.Keys.{NoNul}
use keera_gateway.Registry.Budgets.Windows.{
  times, grown, occurrences, occurrences_of_counts, StartAt, get-add, get-add_each, total, NotLater,
  total-times, total-InRange64, get_same,
}
use keera_gateway.Registry.Budgets.Requests.{
  HasPlainKey, plain-StartAt, spent-totals, times-NotLater,
}

-- What `EndRequest` leaves of the running window of its key.
abbrev pub finished : ℕ → Option Window → Option Window
finished st none = none
finished st (some r) =
    if r.start == st
    then (let left = sub64 r.n (pos 1) in
        if leb_ℤ left (pos 0) then none else some (record r { n = left }))
    else some r

get-finish :
    (ws : Dict Window) (k j : String) (st : ℕ) (o : Option Window)
    → get ws k ≡ o
    → get (finish ws k st o) j ≡ (if k == j then finished st o else get ws j)
get-finish ws k j st none e = elim (Bool-cases (k == j)) [
  | inl same ↦ let same_key : k ≡ j = (text_eq_iff k j).0 same in rw same (rw same_key at e)
  | inr other ↦ rw other refl
]
get-finish ws k j st (some r) e = elim (Bool-cases (r.start == st)) [
  | inr away ↦ rw away (get_same ws k j r e)
  | inl here ↦ elim (Bool-cases (leb_ℤ (sub64 r.n (pos 1)) (pos 0))) [
    | inl done ↦ rw (here, done) (get-delete ws k j)
    | inr more ↦ rw (here, more) (get-put ws k j (record r { n = sub64 r.n (pos 1) }))
  ]
]

-- The running windows of a request scope, and how the loop of `EndRequest` changes both maps.
get-end_scope :
    (b : Budgets) (sc : Scope) (now st : ℕ) (k : String)
    → (key_of sc ≡ k → start sc.period now ≡ st)
    → (get (end_scope b sc now).running k ≡ (
        if sc.meter == meter_requests && key_of sc == k
        then finished st (get b.running k)
        else get b.running k))
      × (get (end_scope b sc now).w k ≡ (
          if sc.meter == meter_requests && key_of sc == k
          then grown st (pos 1) (get b.w k)
          else get b.w k))
unfolding end_scope
get-end_scope b sc now st k h = elim (Bool-cases (sc.meter == meter_requests)) [
  | inr other ↦ (rw other refl, rw other refl)
  | inl same ↦ elim (Bool-cases (key_of sc == k)) [
    | inr away ↦ (
      rw (same, away)
          (get-finish b.running (key_of sc) k (start sc.period now) _ refl ∙ rw away refl),
      rw (same, away) (get-add b.w (key_of sc) k (start sc.period now) (pos 1) ∙ rw away refl),
    )
    | inl here ↦
        let e : key_of sc ≡ k = (text_eq_iff (key_of sc) k).0 here in
        (
          rw (same, here)
              (get-finish b.running (key_of sc) k (start sc.period now) _ refl
                ∙ rw (here, h e, e) refl),
          rw (same, here)
              (get-add b.w (key_of sc) k (start sc.period now) (pos 1) ∙ rw (here, h e, e) refl),
        )
  ]
]

-- How the request scopes change what a key sees.
pub record Ended (b b' : Budgets) (k : String) (st m : ℕ) : Type 0 where
  pub running : get b'.running k ≡ times m (finished st) (get b.running k)
  pub w : get b'.w k ≡ times m (grown st (pos 1)) (get b.w k)

get-end_scopes :
    (scopes : List Scope) (b : Budgets) (now st : ℕ) (k : String)
    → StartAt k st now scopes
    → Ended b (end_scopes b scopes now) k st (occurrences k meter_requests scopes)
unfolding end_scopes
get-end_scopes [] b now st k h = record { running = refl; w = refl }
get-end_scopes (sc ∷ scopes) b now st k (h, hs) =
    let one = get-end_scope b sc now st k h in
    let rest = get-end_scopes scopes (end_scope b sc now) now st k hs in
    elim (Bool-cases (sc.meter == meter_requests && key_of sc == k)) [
      | inl hit ↦ record {
        running = rw hit (rest.running ∙ rw (one.0, hit) refl);
        w = rw hit (rest.w ∙ rw (one.1, hit) refl);
      }
      | inr miss ↦ record {
        running = rw miss (rest.running ∙ rw (one.0, miss) refl);
        w = rw miss (rest.w ∙ rw (one.1, miss) refl);
      }
    ]

pub get-end_request :
    (scopes : List Scope) (b : Budgets) (now st : ℕ) (k : String)
    → StartAt k st now scopes
    → Ended b (end_request b scopes now) k st (occurrences k meter_requests scopes)
unfolding end_request
get-end_request scopes b now st k h = elim (Bool-cases (counts scopes meter_requests)) [
  | inl some_do ↦ rw some_do (get-end_scopes scopes b now st k h)
  | inr none_do ↦
      rw (none_do, occurrences_of_counts k meter_requests scopes none_do)
        (record { running = refl; w = refl })
]

-- A running map counts `c` requests in the window that starts at `st`.
pub data Runs (st : ℕ) : Option Window → ℕ → Type 0 where
  absent : Runs st none 0
  over : (w : Window) → w.start < st → Runs st (some w) 0
  open_at : (w : Window) (c : ℕ) → w.start ≡ st → w.n ≡ pos (suc c) → Runs st (some w) (suc c)

total-Runs : {st c : ℕ} {o : Option Window} → Runs st o c → total st o ≡ pos c
total-Runs absent = refl
total-Runs (over w h) = ground arith
total-Runs (open_at w c h k) = ground arith

grown-Runs :
    {st c : ℕ} {o : Option Window}
    → Runs st o c
    → suc c < 2 ^ 63
    → Runs st (grown st (pos 1) o) (suc c)
grown-Runs absent h = open_at _ 0 refl (add64-pos 0 1 (omega arith))
grown-Runs {st} (over w old) h =
    let a : ltb st w.start ≡ false = ground arith in
    let b : ltb w.start st ≡ true = ground arith in
    rw (a, b) (open_at _ 0 refl (add64-pos 0 1 (omega arith)))
grown-Runs {st} (open_at w c s n) h =
    let a : ltb st w.start ≡ false = ground arith in
    let b : ltb w.start st ≡ false = ground arith in
    rw (a, b)
      (open_at _ (suc c) s (rw n (add64-pos (suc c) 1 (omega arith) ∙ ap pos (omega arith))))

finished-Runs :
    {st c : ℕ} {o : Option Window} → Runs st o (suc c) → suc c < 2 ^ 63 → Runs st (finished st o) c
finished-Runs {st} (open_at w zero s n) h =
    let here : (w.start == st) ≡ true = ground arith in
    rw (here, n, sub64-pos 1 1 (omega arith) (omega arith)) absent
finished-Runs {st} (open_at w (suc c) s n) h =
    let here : (w.start == st) ≡ true = ground arith in
    let left : sub64 w.n (pos 1) ≡ pos (suc c) =
      rw n (sub64-pos (suc (suc c)) 1 (omega arith) (omega arith) ∙ ap pos (omega arith)) in
    let more : leb_ℤ (sub64 w.n (pos 1)) (pos 0) ≡ false = rw left (ground arith) in
    rw (here, more) (open_at _ c s left)

pub times-grown-Runs :
    (m : ℕ) {st c : ℕ} {o : Option Window}
    → Runs st o c
    → c + m < 2 ^ 63
    → Runs st (times m (grown st (pos 1)) o) (c + m)
times-grown-Runs zero {c} r h = rw (add-zero c) r
times-grown-Runs (suc m) {c} r h =
    let e : c + suc m ≡ suc c + m = omega arith in
    rw e (times-grown-Runs m (grown-Runs r (omega arith)) (omega arith))

pub times-finished-Runs :
    (m : ℕ) {st c : ℕ} {o : Option Window}
    → Runs st o (c + m)
    → c + m < 2 ^ 63
    → Runs st (times m (finished st) o) c
times-finished-Runs zero {c} r h = rw (add-zero c) at r
times-finished-Runs (suc m) {st} {c} {o} r h =
    let e : c + suc m ≡ suc (c + m) = omega arith in
    let r' : Runs st o (suc (c + m)) = rw e at r in
    times-finished-Runs m (finished-Runs r' (omega arith)) (omega arith)

-- Rounds of one are a sum.
times_one :
    (m : ℕ) (a : ℤ) → m < 2 ^ 63 → InRange64 a → times m (λ c. add64 c (pos 1)) a ≡ add64 a (pos m)
times_one zero a h r = sym (add64-zero a r)
times_one (suc m) a h r =
    times_one m (add64 a (pos 1)) (omega arith) (add64-InRange64 a (pos 1))
    ∙ (add64_assoc a (pos 1) (pos m)
        ∙ ap (λ (d : ℤ). add64 a d) (add64-pos 1 m (omega arith) ∙ ap pos (omega arith)))

module _ (b : Budgets) (t : ScopeType) (id : String) (p : Period) (now : ℕ) (scopes : List Scope)
    (c : ℕ) (ht : NoNul t) (hp : NoNul p) (plain : All HasPlainKey scopes)
    (past : NotLater (start p now) (get b.w (window_key t id p)))
    (runs : Runs (start p now) (get b.running (window_key t id p)) c)
    (room : c + occurrences (window_key t id p) meter_requests scopes < 2 ^ 63) where
  running-started :
      Runs
        (start p now)
        (get (start_request b scopes now).running (window_key t id p))
        (c + occurrences (window_key t id p) meter_requests scopes)
  unfolding start_request
  running-started =
      let k = window_key t id p in
      rw
        (get-add_each scopes b.running meter_requests (pos 1) now (start p now) k
          (plain-StartAt t id p now scopes ht hp plain))
        (times-grown-Runs (occurrences k meter_requests scopes) runs room)

  w-started : (start_request b scopes now).w ≡ b.w
  unfolding start_request
  w-started = refl

  ended :
      Ended
        (start_request b scopes now)
        (end_request (start_request b scopes now) scopes now)
        (window_key t id p)
        (start p now)
        (occurrences (window_key t id p) meter_requests scopes)
  ended =
      get-end_request scopes (start_request b scopes now) now (start p now) (window_key t id p)
        (plain-StartAt t id p now scopes ht hp plain)

  w-ended :
      get (end_request (start_request b scopes now) scopes now).w (window_key t id p)
      ≡ times
          (occurrences (window_key t id p) meter_requests scopes)
          (grown (start p now) (pos 1))
          (get b.w (window_key t id p))
  w-ended = ended.w ∙ rw w-started refl

  running-ended :
      Runs
        (start p now)
        (get (end_request (start_request b scopes now) scopes now).running (window_key t id p))
        c
  running-ended = rw ended.running (
      times-finished-Runs (occurrences (window_key t id p) meter_requests scopes) running-started
        room)

  spent-started :
      spent (start_request b scopes now) t id p now
      ≡ add64
          (total (start p now) (get b.w (window_key t id p)))
          (pos (c + occurrences (window_key t id p) meter_requests scopes))
  spent-started =
      spent-totals (start_request b scopes now) t id p now (rw w-started past)
      ∙ rw (w-started, total-Runs running-started) refl

  spent-ended :
      spent (end_request (start_request b scopes now) scopes now) t id p now
      ≡ add64
          (add64
            (total (start p now) (get b.w (window_key t id p)))
            (pos (occurrences (window_key t id p) meter_requests scopes)))
          (pos c)
  spent-ended =
      let m = occurrences (window_key t id p) meter_requests scopes in
      let st = start p now in
      let o = get b.w (window_key t id p) in
      spent-totals (end_request (start_request b scopes now) scopes now) t id p now
        (rw w-ended (times-NotLater m st (pos 1) o past))
      ∙ rw
          (
            total-Runs running-ended,
            w-ended,
            total-times m st (pos 1) o past,
            times_one m (total st o) (omega arith) (total-InRange64 st o past),
          )
          refl

  -- A request is counted once for each scope that counts requests in a window, from its start
  -- on; when it ends, at the time that it was given, it moves from the running requests to the
  -- window, the sum stays, and the running requests are those from before. No scope type or
  -- period holds a zero byte, no window of the local view starts in the future, and the running
  -- requests fit an integer.
  pub spent-request :
      (spent (start_request b scopes now) t id p now
        ≡ add64 (spent b t id p now) (pos (occurrences (window_key t id p) meter_requests scopes)))
      × (spent (end_request (start_request b scopes now) scopes now) t id p now
          ≡ spent (start_request b scopes now) t id p now)
      × Runs
          (start p now)
          (get (end_request (start_request b scopes now) scopes now).running (window_key t id p))
          c
  spent-request =
      let m = occurrences (window_key t id p) meter_requests scopes in
      let w = total (start p now) (get b.w (window_key t id p)) in
      let before : spent b t id p now ≡ add64 w (pos c) =
        spent-totals b t id p now past ∙ rw (total-Runs runs) refl in
      let split : add64 (add64 w (pos c)) (pos m) ≡ add64 w (pos (c + m)) =
        add64_assoc w (pos c) (pos m) ∙ ap (λ (a : ℤ). add64 w a) (add64-pos c m room) in
      let moved : add64 (add64 w (pos m)) (pos c) ≡ add64 w (pos (c + m)) =
        add64_assoc w (pos m) (pos c)
        ∙ ap (λ (a : ℤ). add64 w a) (add64_comm (pos m) (pos c) ∙ add64-pos c m room) in
      (
        spent-started ∙ rw before (sym split),
        spent-ended ∙ (moved ∙ sym spent-started),
        running-ended,
      )
