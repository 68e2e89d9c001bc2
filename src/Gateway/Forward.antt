-- ===== src/Gateway/Forward.antt =====
-- Sending a request to the models to try: `forward` and `send` of internal/gateway/forward.go. What
-- the backends and the client do are functions (`Network`); payloads, headers, metrics and waiting
-- times are left out. A round-robin counter is below 2 ^ 63, where `int` keeps it. A model has a
-- backend: `target` and `serveable` refuse one that has none, on whose nil answer `forward` would
-- panic.
pub mod Failover
pub mod Inflight
pub mod Sends
use keera_gateway.Base.{
  ℕ, zero, suc, ◌+◌, ◌%◌, ◌^◌, String, Bool, true, false, not, ◌&&◌, ◌||◌, Option, none, some, List,
  [], ◌∷◌, ◌++◌, leb, length, if◌then◌else◌,
}
use Prim.Native.String.{◌++◌ as join}
use keera_gateway.Base.Dict.{Dict, get, put}
use keera_gateway.Policy.Model.{Model}
use keera_gateway.Registry.Budgets.{value_or}
use keera_gateway.Gateway.Load.{Loads, begin, end_one, fail}

-- What one call of a backend comes to: no request can be built from its URL, a response with its
-- status, the end of the request's context, or an error, after or before the backend could get the
-- request (`undelivered`).
pub data Reply : Type 0 where
  unbuildable : String → Reply
  responds : ℕ → Reply
  cut_off : Reply
  lost : String → Reply
  undelivered : String → Reply

-- The response or the error of `send`
pub data Sent : Type 0 where
  response : ℕ → Sent
  send_failed : String → Sent
  context_ended : Sent
  nothing_sent : Sent

-- `ctx.Err()`
pub data Context : Type 0 where
  live cancelled expired : Context

-- `Model.Key`
unfoldable pub model_key : Model → String
model_key m = join m.org_id (join "/" m.alias)

last_error : Option String → Sent
last_error none = nothing_sent
last_error (some why) = send_failed why

-- One round of the loop of `send`, at a backend's place, and the places that are called
after_reply : ℕ → Reply → (String → Sent × List ℕ) → Sent × List ℕ
after_reply place (unbuildable why) on = (send_failed why, place ∷ [])
after_reply place (responds status) on = (response status, place ∷ [])
after_reply place cut_off on = (context_ended, place ∷ [])
after_reply place (lost why) on = (send_failed why, place ∷ [])
after_reply place (undelivered why) on = let rest = on why in (rest.0, place ∷ rest.1)

-- The loop of `send`, so many rounds before its end
unfoldable pub try_from : (ℕ → Reply) → (offset count left i : ℕ) → Option String → Sent × List ℕ
unfolding after_reply last_error
try_from call offset count zero i last = (last_error last, [])
try_from call offset count (suc left) i last =
    let place = (offset + i) % count in
    after_reply place (call place) (λ why. try_from call offset count left (suc i) (some why))

-- `send`: the result, the places of the backends that are called, in order, and the counter after it
unfoldable pub send : (ℕ → Reply) → Dict ℕ → Model → (Sent × List ℕ) × Dict ℕ
unfolding try_from last_error
send call rr m =
    let offset = value_or 0 (get rr (model_key m)) in
    let count = length m.backends in
    (try_from call offset count count 0 none, put rr (model_key m) (suc offset % 2 ^ 64))

pub record Network : Type 0 where
  pub call : Model → ℕ → Reply
  -- The context and the time after the call of the model at this place of the chain
  pub context : ℕ → Context
  pub failed_at : ℕ → ℕ

-- What a failed destination is noted as
pub data Failure : Type 0 where
  not_reached : String → Sent → Failure
  answered_status : String → ℕ → Failure

-- The trace's step of one destination
pub record Attempt : Type 0 where
  pub model : Model
  pub sent : Sent
  pub context : Context

-- `forwarded`, with the trace, the loads and the counters
pub record Forwarding : Type 0 where
  pub last : Option Attempt
  pub at : ℕ
  pub failures : List Failure
  pub held : Option String
  pub trace : List Attempt
  pub loads : Loads
  pub rr : Dict ℕ

-- Why the chain goes on from a destination, if another is left
unfoldable pub failure_of : Attempt → Option Failure
failure_of a = elim a.sent [
  | response status ↦ if leb 500 status then some (answered_status a.model.alias status) else none
  | send_failed why ↦ some (not_reached a.model.alias a.sent)
  | context_ended ↦ some (not_reached a.model.alias a.sent)
  | nothing_sent ↦ none
]

is_cancelled : Context → Bool
is_cancelled live = false
is_cancelled cancelled = true
is_cancelled expired = false

unfoldable pub is_live : Context → Bool
is_live live = true
is_live cancelled = false
is_live expired = false

-- Whether the destination is at fault: an error of a client that is still there, or a 5xx
at_fault : Context → Sent → Bool
unfolding is_cancelled
at_fault c (response status) = leb 500 status
at_fault c (send_failed why) = not (is_cancelled c)
at_fault c context_ended = not (is_cancelled c)
at_fault c nothing_sent = false

unfoldable pub is_end : List Model → Bool
is_end [] = true
is_end (m ∷ ms) = false

-- The request holds the destination's count, or gives it back and goes on
unfoldable pub go_on :
    Bool → Attempt → Option Failure → Forwarding → (Forwarding → Forwarding) → Forwarding
go_on true a failure f on = record f { held = some (model_key a.model) }
go_on false a none f on = record f { held = some (model_key a.model) }
go_on false a (some failure) f on = on (record f {
  loads = end_one f.loads (model_key a.model);
  failures = f.failures ++ failure ∷ [];
})

-- The zero value of `forwarded`
abbrev pub none_tried : Loads → Dict ℕ → Forwarding
none_tried loads rr = record {
  last = none;
  at = 0;
  failures = [];
  held = none;
  trace = [];
  loads = loads;
  rr = rr;
}

module _ (net : Network) where
  -- One destination, before it is decided whether to go on
  unfoldable pub attempted : Model → ℕ → Forwarding → Attempt × Forwarding
  unfolding at_fault send model_key
  attempted m i f =
      let loads = begin f.loads (model_key m) in
      let r = send (net.call m) f.rr m in
      let a : Attempt = record { model = m; sent = r.0.0; context = net.context i } in
      (
        a,
        record f {
          last = some a;
          at = i;
          trace = f.trace ++ a ∷ [];
          rr = r.1;
          loads =
              if at_fault (net.context i) r.0.0
              then fail loads (model_key m) (net.failed_at i)
              else loads;
        },
      )

  unfoldable pub forward_from : List Model → ℕ → Forwarding → Forwarding
  unfolding attempted go_on
  forward_from [] i f = f
  forward_from (m ∷ rest) i f =
      let r = attempted m i f in
      go_on (is_end rest || not (is_live (net.context i))) r.0 (failure_of r.0) r.1
        (λ f'. forward_from rest (suc i) f')

  -- `forward`
  unfoldable pub forward : List Model → Loads → Dict ℕ → Forwarding
  unfolding forward_from
  forward chain loads rr = forward_from chain 0 (none_tried loads rr)

-- `done`
unfoldable pub done : Forwarding → Loads
done f = elim f.held [ none ↦ f.loads | some key ↦ end_one f.loads key ]
