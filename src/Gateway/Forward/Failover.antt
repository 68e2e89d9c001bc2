-- ===== src/Gateway/Forward/Failover.antt =====
-- Which models `forward` of internal/gateway/forward.go tries.
use keera_gateway.Base.{
  ℕ, suc, Bool, true, false, not, ◌||◌, Option, none, some, List, [], ◌∷◌, ◌++◌, ◌≡◌, ◌≢◌, ◌≤◌, ◌<◌,
  String, leb, refl, sym, ap, ◌∙◌, if◌then◌else◌, arith,
}
use keera_gateway.Base.Dict.{Dict}
use keera_gateway.Policy.Model.{Model}
use keera_gateway.Gateway.Load.{Loads, end_one}
use keera_gateway.Gateway.Forward.{
  Network, Attempt, Failure, answered_status, not_reached, Sent, response, send_failed,
  context_ended, nothing_sent, Context, live, cancelled, expired, send, Forwarding, failure_of,
  is_end, is_live, model_key, attempted, go_on, none_tried, forward_from, forward,
}

-- What is noted of a failure: a status of 500 or more, or an error that came instead of a response.
pub data Fails (a : Attempt) : Failure → Type 0 where
  answers_5xx :
      (status : ℕ)
      → a.sent ≡ response status
      → 500 ≤ status
      → Fails a (answered_status a.model.alias status)
  has_error :
      (why : String)
      → a.sent ≡ send_failed why
      → Fails a (not_reached a.model.alias (send_failed why))
  runs_out : a.sent ≡ context_ended → Fails a (not_reached a.model.alias context_ended)

-- A response below 500, or a model without a backend.
pub data Stands (a : Attempt) : Type 0 where
  answers : (status : ℕ) → a.sent ≡ response status → status < 500 → Stands a
  has_no_backend : a.sent ≡ nothing_sent → Stands a

-- What is tried of a model, at its place in the chain and with these counters: what `send` comes to
-- with what its backends answer, and the context after it.
abbrev pub attempt : Network → Dict ℕ → ℕ → Model → Attempt
attempt net rr i m = record {
  model = m;
  sent = (send (net.call m) rr m).0.0;
  context = net.context i;
}

-- What failing over promises: the models of the chain are tried in order, the next only after a
-- failure of the one before, noted, that the client waited for; the last tried stands.
pub data FailsOver (net : Network)
    : List Model → ℕ → Dict ℕ → List Attempt → List Failure → Option Attempt → Type 0 where
  -- An answer that is none of the model's failures.
  stands :
      (m : Model) (rest : List Model) (i : ℕ) (rr : Dict ℕ)
      → Stands (attempt net rr i m)
      → FailsOver net (m ∷ rest) i rr (attempt net rr i m ∷ []) [] (some (attempt net rr i m))
  -- The client left, or the time is over.
  leaves :
      (m : Model) (rest : List Model) (i : ℕ) (rr : Dict ℕ)
      → net.context i ≢ live
      → FailsOver net (m ∷ rest) i rr (attempt net rr i m ∷ []) [] (some (attempt net rr i m))
  -- No other is left.
  is_last :
      (m : Model) (i : ℕ) (rr : Dict ℕ)
      → FailsOver net (m ∷ []) i rr (attempt net rr i m ∷ []) [] (some (attempt net rr i m))
  goes_over :
      (m : Model) (rest : List Model) (i : ℕ) (rr : Dict ℕ) (failure : Failure) (as' : List Attempt)
      (fs : List Failure) (last : Option Attempt)
      → net.context i ≡ live
      → Fails (attempt net rr i m) failure
      → FailsOver net rest (suc i) (send (net.call m) rr m).1 as' fs last
      → FailsOver net (m ∷ rest) i rr (attempt net rr i m ∷ as') (failure ∷ fs) last

-- What `failure_of` tells of an attempt.
Judges : Attempt → Option Failure → Type 0
Judges a none = Stands a
Judges a (some failure) = Fails a failure

status-Judges :
    (m : Model) (c : Context) (status : ℕ) (over : Bool)
    → leb 500 status ≡ over
    → Judges
        (record { model = m; sent = response status; context = c })
        (if over then some (answered_status m.alias status) else none)
unfolding Judges
status-Judges m c status true e = answers_5xx status refl (ground (arith, e))
status-Judges m c status false e = answers status refl (ground (arith, e))

failure_of-Judges :
    (m : Model) (s : Sent) (c : Context)
    → let a : Attempt = record { model = m; sent = s; context = c } in Judges a (failure_of a)
unfolding failure_of Judges
failure_of-Judges m (response status) c = status-Judges m c status (leb 500 status) refl
failure_of-Judges m (send_failed why) c = has_error why refl
failure_of-Judges m context_ended c = runs_out refl
failure_of-Judges m nothing_sent c = has_no_backend refl

is_live-live : (c : Context) → is_live c ≡ true → c ≡ live
unfolding is_live
is_live-live live e = refl
is_live-live cancelled e = cc e
is_live-live expired e = cc e

live-is_live : (c : Context) → is_live c ≡ false → c ≢ live
unfolding is_live
live-is_live live e = cc e
live-is_live cancelled e = λ q. cc q
live-is_live expired e = λ q. cc q

append-nil {ℓ} : {A : Type ℓ} → (xs : List A) → xs ++ [] ≡ xs
append-nil [] = refl
append-nil (x ∷ xs) = ap (λ zs. x ∷ zs) (append-nil xs)

append_assoc {ℓ} :
    {A : Type ℓ} → (xs : List A) (x : A) (ys : List A) → (xs ++ x ∷ []) ++ ys ≡ xs ++ x ∷ ys
append_assoc [] x ys = refl
append_assoc (y ∷ xs) x ys = ap (λ zs. y ∷ zs) (append_assoc xs x ys)

module _ (net : Network) where
  -- What a forwarding adds to what stood before it.
  abbrev Adds : List Model → ℕ → Dict ℕ → Forwarding → Forwarding → Type 0
  Adds chain i rr f f' =
      (as' : List Attempt) × (fs : List Failure) × (f'.trace ≡ f.trace ++ as')
      × (f'.failures ≡ f.failures ++ fs)
      × FailsOver net chain i rr as' fs f'.last

  goes :
      (m : Model) (rest : List Model) (i : ℕ) (rr : Dict ℕ) (a : Attempt) (failure : Failure)
      (as' : List Attempt) (fs : List Failure) (last : Option Attempt)
      → a ≡ attempt net rr i m
      → net.context i ≡ live
      → Fails (attempt net rr i m) failure
      → FailsOver net rest (suc i) (send (net.call m) rr m).1 as' fs last
      → FailsOver net (m ∷ rest) i rr (a ∷ as') (failure ∷ fs) last
  goes m rest i rr a failure as' fs last e waits fails g =
      rw e (goes_over m rest i rr failure as' fs last waits fails g)

  go_on-Adds :
      (m : Model) (rest : List Model) (i : ℕ) (rr : Dict ℕ) (a : Attempt) (c : Bool)
      (failure : Option Failure) (f f' : Forwarding) (on : Forwarding → Forwarding)
      → a ≡ attempt net rr i m
      → f'.last ≡ some a
      → f'.trace ≡ f.trace ++ a ∷ []
      → f'.failures ≡ f.failures
      → f'.rr ≡ (send (net.call m) rr m).1
      → Judges (attempt net rr i m) failure
      → (is_end rest || not (is_live (net.context i))) ≡ c
      → ((f'' : Forwarding)
          → is_end rest ≡ false
          → f''.rr ≡ (send (net.call m) rr m).1
          → Adds rest (suc i) (send (net.call m) rr m).1 f'' (on f''))
      → Adds (m ∷ rest) i rr f (go_on c a failure f' on)
  unfolding go_on is_end Judges
  go_on-Adds m [] i rr a true failure f f' on e e1 e2 e3 er e4 e5 h =
      (a ∷ [], [], e2, e3 ∙ sym (append-nil f.failures), rw (e1, e) (is_last m i rr))
  go_on-Adds m (m' ∷ rest) i rr a true failure f f' on e e1 e2 e3 er e4 e5 h = (
    a ∷ [],
    [],
    e2,
    e3 ∙ sym (append-nil f.failures),
    rw (e1, e) (leaves m (m' ∷ rest) i rr (live-is_live (net.context i) (ground (arith, e5)))),
  )
  go_on-Adds m rest i rr a false none f f' on e e1 e2 e3 er e4 e5 h =
      (a ∷ [], [], e2, e3 ∙ sym (append-nil f.failures), rw (e1, e) (stands m rest i rr e4))
  go_on-Adds m rest i rr a false (some failure) f f' on e e1 e2 e3 er e4 e5 h =
      let f'' : Forwarding = record f' {
        loads = end_one f'.loads (model_key a.model);
        failures = f'.failures ++ failure ∷ [];
      } in
      let (as', fs, e6, e7, g) = h f'' (ground (arith, e5)) er in
      (
        a ∷ as',
        failure ∷ fs,
        e6 ∙ ap (λ (l : List Attempt). l ++ as') e2 ∙ append_assoc f.trace a as',
        e7
            ∙ ap (λ (l : List Failure). (l ++ failure ∷ []) ++ fs) e3
            ∙ append_assoc f.failures failure fs,
        goes m rest i rr a failure as' fs _ e (is_live-live (net.context i) (ground (arith, e5))) e4
            g,
      )

  module _ (m : Model) (i : ℕ) (rr : Dict ℕ) (f : Forwarding) (same : f.rr ≡ rr) where
    tried : (attempted net m i f).0 ≡ attempt net rr i m
    unfolding attempted
    tried = ap (λ (r : Dict ℕ). attempt net r i m) same

    judged : Judges (attempt net rr i m) (failure_of (attempted net m i f).0)
    judged = rw tried (failure_of-Judges m (attempt net rr i m).sent (net.context i))

    moved : (attempted net m i f).1.rr ≡ (send (net.call m) rr m).1
    unfolding attempted
    moved = ap (λ (r : Dict ℕ). (send (net.call m) r m).1) same

  forward_from-Adds :
      (m : Model) (rest : List Model) (i : ℕ) (rr : Dict ℕ) (f : Forwarding)
      → f.rr ≡ rr
      → Adds (m ∷ rest) i rr f (forward_from net (m ∷ rest) i f)
  unfolding forward_from attempted is_end
  forward_from-Adds m [] i rr f same =
      go_on-Adds m [] i rr (attempted net m i f).0 _ _ f (attempted net m i f).1
        (forward_from net [] (suc i)) (tried m i rr f same) refl refl refl (moved m i rr f same)
        (judged m i rr f same) refl (λ f' e. absurd (ground arith))
  forward_from-Adds m (m' ∷ rest) i rr f same =
      go_on-Adds m (m' ∷ rest) i rr (attempted net m i f).0 _ _ f (attempted net m i f).1
        (forward_from net (m' ∷ rest) (suc i)) (tried m i rr f same) refl refl refl
        (moved m i rr f same) (judged m i rr f same) refl
        (λ f' e er. forward_from-Adds m' rest (suc i) (send (net.call m) rr m).1 f' er)

  -- A request goes to the models of the chain in order, each tried as `send` sends it. It goes on to
  -- the next exactly when the one before answered with a status of 500 or more or with an error,
  -- the client still waits, and another model is left; those failures are noted in order, with the
  -- status or the error, and the last model tried stands. (The chain has a model.)
  pub forward-FailsOver :
      (m : Model) (rest : List Model) (loads : Loads) (rr : Dict ℕ)
      → let f = forward net (m ∷ rest) loads rr in
        FailsOver net (m ∷ rest) 0 rr f.trace f.failures f.last
  unfolding forward
  forward-FailsOver m rest loads rr =
      let (as', fs, e, e', g) = forward_from-Adds m rest 0 rr (none_tried loads rr) refl in
      rw (e, e') g
