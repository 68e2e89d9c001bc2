-- ===== src/Gateway/Request/Counts.antt =====
-- The running requests that internal/gateway/serve.go counts: `serve` ends what it starts, whatever
-- happens to the request.
use keera_gateway.Base.{
  ℕ, ◌+◌, ◌<◌, ◌^◌, String, Bool, true, false, not, some, List, [], ◌∷◌, ◌++◌, string_eq, nat_eq,
  if◌then◌else◌, All, All-append, ◌≡◌, refl, arith,
}
use keera_gateway.Base.Dict.{get}
use keera_gateway.Base.Int.{ℤ, pos}
use keera_gateway.Policy.Calendar.{Period, start}
use keera_gateway.Policy.Scope.{Scope, ScopeType, Meter, meter_requests}
use keera_gateway.Policy.Router.{Router}
use keera_gateway.Registry.Budgets.{
  Budgets, window_key, counts, tally, charge, start_request, end_request,
}
use keera_gateway.Registry.Budgets.Keys.{NoNul}
use keera_gateway.Registry.Budgets.Windows.{occurrences, occurrences_of_counts, get-add_each}
use keera_gateway.Registry.Budgets.Requests.{HasPlainKey, plain-StartAt}
use keera_gateway.Registry.Budgets.Running.{
  Runs, times-grown-Runs, times-finished-Runs, get-end_request,
}
use keera_gateway.Registry.Budgets.Prepaid.{
  Hold, holds, refused as hold_refused, hold_credit, release_credit, charge_credit,
}
use keera_gateway.Gateway.Target.{
  Named, to_model, to_router, Targeted, target_refused, targets, target,
}
use keera_gateway.Gateway.Target.Reach.{target-to_router}
use keera_gateway.Gateway.Credit.{credit_sum}
use keera_gateway.Gateway.Walk.{Call, hook_bills}
use keera_gateway.Gateway.Walk.Kept.{IsKept}
use keera_gateway.Gateway.Admission.Kept.{may_take, Taken, IsKeptHolding}
use keera_gateway.Gateway.Request.Kept.{IsPlain, from_admit-Good}
use keera_gateway.Gateway.Admission.{Site, Final, End, recorded, closed, malformed, off_target}
use keera_gateway.Gateway.Request.{from_admit, finally, targeted, serve}

occurrences-append :
    (k : String) (xs ys : List Scope)
    → occurrences k meter_requests (xs ++ ys)
      ≡ occurrences k meter_requests xs + occurrences k meter_requests ys
occurrences-append k [] ys = omega arith
occurrences-append k (x ∷ xs) ys = ground (arith, occurrences-append k xs ys)

running-charge :
    (b : Budgets) (scopes : List Scope) (micros : ℤ) (now : ℕ)
    → (charge b scopes micros now).running ≡ b.running
unfolding charge tally
running-charge b scopes micros now = ground arith

running-tally :
    (b : Budgets) (scopes : List Scope) (meter : Meter) (n : ℤ) (now : ℕ)
    → (tally b scopes meter n now).running ≡ b.running
unfolding tally
running-tally b scopes meter n now = ground arith

running-charge_credit :
    (b : Budgets) (org : String) (n : ℤ) → (charge_credit b org n).running ≡ b.running
unfolding charge_credit
running-charge_credit b org n = ground arith

running-hold_credit :
    (b : Budgets) (org : String) (n : ℤ) → (hold_credit b org n).0.running ≡ b.running
unfolding hold_credit
running-hold_credit b org n = ground arith

running-release_credit :
    (b : Budgets) (org : String) (n : ℤ) → (release_credit b org n).running ≡ b.running
unfolding release_credit
running-release_credit b org n = ground arith

module _ (t : ScopeType) (id : String) (p : Period) (now base : ℕ) (ht : NoNul t)
    (hp : NoNul p) where
  -- The running requests of the window are those from before and one for each scope of the call
  -- that counts there, as long as an integer holds them.
  abbrev Counted : Budgets → List Scope → Type 0
  Counted b scopes =
      base + occurrences (window_key t id p) meter_requests scopes < 2 ^ 63
      → Runs (start p now) (get b.running (window_key t id p))
          (base + occurrences (window_key t id p) meter_requests scopes)

  Counted-charge :
      (b : Budgets) (scopes by : List Scope) (micros : ℤ) (at' : ℕ)
      → Counted b scopes
      → Counted (charge b by micros at') scopes
  Counted-charge b scopes by micros at' h room = rw (running-charge b by micros at') (h room)

  Counted-start_request :
      (b : Budgets) (scopes more : List Scope)
      → All HasPlainKey more
      → Counted b scopes
      → Counted (start_request b more now) (scopes ++ more)
  unfolding start_request
  Counted-start_request b scopes more plain h room =
      let k = window_key t id p in
      let n = occurrences k meter_requests scopes in
      let m = occurrences k meter_requests more in
      let e : base + occurrences k meter_requests (scopes ++ more) ≡ base + n + m =
        omega (arith, occurrences-append k scopes more) in
      rw
        (
          e,
          get-add_each more b.running meter_requests (pos 1) now (start p now) k
              (plain-StartAt t id p now more ht hp plain),
        )
        (times-grown-Runs m (h (omega (arith, e))) (omega (arith, e)))

  -- What the request counts, whatever it holds.
  abbrev Counts : ℤ → Budgets → List Scope → Type 0
  Counts held b scopes = Counted b scopes × All HasPlainKey scopes

  same_running :
      (b b' : Budgets) (scopes : List Scope)
      → b'.running ≡ b.running
      → Counted b scopes × All HasPlainKey scopes
      → Counted b' scopes × All HasPlainKey scopes
  same_running b b' scopes e (h, plain) = (λ room. rw e (h room), plain)

  Counts-IsKept : (held : ℤ) → IsKept now (Counts held) HasPlainKey
  Counts-IsKept held = record {
    charges = λ b scopes by micros.
        same_running b (charge b by micros now) scopes (running-charge b by micros now);
    starts = λ b scopes more plain g. (
      Counted-start_request b scopes more plain g.0,
      All-append HasPlainKey scopes more g.1 plain,
    );
  }

  taken :
      (b b' : Budgets) (scopes : List Scope) (h : Hold)
      → b'.running ≡ b.running
      → Counts (pos 0) b scopes
      → Taken Counts scopes (b', h)
  taken b b' scopes (holds m) e g = same_running b b' scopes e g
  taken b b' scopes (hold_refused balance held) e g = same_running b b' scopes e g

  Counts-IsKeptHolding :
      (org : String) (micros : ℤ) → IsKeptHolding now org micros Counts HasPlainKey
  Counts-IsKeptHolding org micros = record {
    walks = Counts-IsKept;
    tallies = λ held b scopes by meter n.
        same_running b (tally b by meter n now) scopes (running-tally b by meter n now);
    pays_bills = λ held b scopes n.
        same_running b (charge_credit b org n) scopes (running-charge_credit b org n);
    takes = λ b scopes.
        let r = hold_credit b org micros in
        taken b r.0 scopes r.1 (running-hold_credit b org micros);
  }

module _ (s : Site) (t : ScopeType) (id : String) (p : Period) (base : ℕ) (ht : NoNul t)
    (hp : NoNul p) where
  abbrev CountsFinal : Final → Type 0
  CountsFinal (e, st) = Counts t id p s.world.now base ht hp st.held st.call.budgets st.call.scopes

  -- What is deferred ends the requests of the call's scopes.
  finally-Runs :
      (f : Final)
      → CountsFinal f
      → base + occurrences (window_key t id p) meter_requests (finally s s.world.now f).1.scopes
        < 2 ^ 63
      → Runs
          (start p s.world.now)
          (get (finally s s.world.now f).1.budgets.running (window_key t id p))
          base
  unfolding finally
  finally-Runs (e, st) (h, plain) room =
      let k = window_key t id p in
      let b = end_request st.call.budgets st.call.scopes s.world.now in
      let ended =
        get-end_request st.call.scopes st.call.budgets s.world.now (start p s.world.now) k
          (plain-StartAt t id p s.world.now st.call.scopes ht hp plain) in
      rw (running-release_credit b s.res.key.org_id st.held, ended.running)
        (times-finished-Runs (occurrences k meter_requests st.call.scopes) (h room) room)

  finally-Ended :
      (why : End) (c : Call)
      → counts c.scopes meter_requests ≡ false
      → Runs (start p s.world.now) (get c.budgets.running (window_key t id p)) base
      → Runs
          (start p s.world.now)
          (get
            (finally s 0 (closed s why (record { call = c; held = pos 0 }))).1.budgets.running
            (window_key t id p))
          base
  unfolding finally closed recorded end_request
  finally-Ended why c none' runs =
      rw
        (
          none',
          running-release_credit
              (charge_credit c.budgets s.res.key.org_id (credit_sum (hook_bills c) (pos 0)))
              s.res.key.org_id (pos 0),
          running-charge_credit c.budgets s.res.key.org_id (credit_sum (hook_bills c) (pos 0)),
        )
        runs

  -- The window is counted by as many scopes as before while the request runs, and by `base` after it.
  abbrev Back : End × Call → Type 0
  Back (e, c) =
      base + occurrences (window_key t id p) meter_requests c.scopes < 2 ^ 63
      → Runs (start p s.world.now) (get c.budgets.running (window_key t id p)) base

  targeted-Back :
      (c : Call) (r : Targeted)
      → All HasPlainKey s.res.quotas
      → All HasPlainKey c.scopes
      → counts c.scopes meter_requests ≡ false
      → ((n : Named) → r ≡ targets n → IsPlain HasPlainKey n)
      → Runs (start p s.world.now) (get c.budgets.running (window_key t id p)) base
      → Back (targeted s c r)
  unfolding targeted
  targeted-Back c (target_refused why) quotas keys none' plain runs room =
      finally-Ended (off_target why) c none' runs
  targeted-Back c (targets n) quotas keys none' plain runs room =
      let z : base + occurrences (window_key t id p) meter_requests c.scopes ≡ base =
        omega (arith, occurrences_of_counts (window_key t id p) meter_requests c.scopes none') in
      finally-Runs (from_admit s n c)
        (from_admit-Good s n (Counts t id p s.world.now base ht hp) HasPlainKey
          (Counts-IsKeptHolding t id p s.world.now base ht hp s.res.key.org_id (may_take s n)) c
          quotas (plain n refl) ((λ room'. rw z runs), keys))
        room

  -- Whatever becomes of a request, it leaves as many running requests in a window as it found: what
  -- `admit` and the router's limit steps start, `serve` ends. The call begins with scopes that count
  -- no requests; no scope type or period holds a zero byte, neither the key's, nor those of the
  -- routers' limits; and the running requests of the window fit an integer.
  pub serve-Runs :
      (c : Call)
      → All HasPlainKey s.res.quotas
      → All HasPlainKey c.scopes
      → counts c.scopes meter_requests ≡ false
      → ((q : Router) → s.find_router s.alias ≡ some q → IsPlain HasPlainKey (to_router q))
      → Runs (start p s.world.now) (get c.budgets.running (window_key t id p)) base
      → base + occurrences (window_key t id p) meter_requests (serve s c).1.scopes < 2 ^ 63
      → Runs (start p s.world.now) (get (serve s c).1.budgets.running (window_key t id p)) base
  unfolding serve
  serve-Runs c quotas keys none' plain runs = by_body s.decoded
    where
      plain_named :
          (n : Named)
          → target s.world.find s.find_router s.printable s.signed_in s.res s.alias s.world.kind
            ≡ targets n
          → IsPlain HasPlainKey n
      plain_named (to_model m) e = tt
      plain_named (to_router q) e = plain q (
          target-to_router s.world.find s.find_router s.res s.alias s.world.kind s.printable
            s.signed_in q e)

      by_body :
          (decoded : Bool)
          → Back (
              if not decoded
              then finally s 0 (closed s malformed (record { call = c; held = pos 0 }))
              else targeted s c (
                  target s.world.find s.find_router s.printable s.signed_in s.res s.alias
                    s.world.kind))
      by_body true = targeted-Back c _ quotas keys none' plain_named runs
      by_body false = λ room. finally-Ended malformed c none' runs
