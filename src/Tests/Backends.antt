-- ===== src/Tests/Backends.antt =====
-- Requests sent to models that fail, and texts that a pattern filter has read before.
use Prim.Native.String.{◌∷◌ as after, ◌++◌ as join}
use keera_gateway.Base.{
  ℕ, zero, suc, ap, ◌<◌, String, Bool, true, false, Option, none, some, List, [], ◌∷◌, ◌≡◌, refl,
  All, arith, length, if◌then◌else◌, ◌==◌, string_eq, nat_eq,
}
use keera_gateway.Policy.Filter.{FilterRule}
use keera_gateway.Policy.Model.{Model}
use keera_gateway.Gateway.Load.{load_of}
use keera_gateway.Gateway.Forward.{Network, Reply, responds, undelivered, live, send, forward, done}
use keera_gateway.Gateway.Forward.Failover.{FailsOver, forward-FailsOver}
use keera_gateway.Gateway.Forward.Sends.{Tries, IsDistinct, send-Tries}
use keera_gateway.Gateway.Forward.Inflight.{inflight-done-forward}
use keera_gateway.Gateway.Pattern.{Engine, Compiled, CleanTexts, run_pattern}
use keera_gateway.Gateway.Pattern.Memory.{filter_plainly}
use keera_gateway.Gateway.Pattern.Known.{IsSound, run_pattern-IsPlain}
use keera_gateway.Tests.Data.{fast}

abbrev two_backends : Model
two_backends = record fast { backends = "http://a" ∷ "http://b" ∷ [] }

-- The first backend does not listen.
abbrev first_is_down : ℕ → Reply
first_is_down p = if p == 0 then undelivered "refused" else responds 200

send-Tries_example :
    Tries first_is_down
      (send first_is_down [] two_backends).0.1
      (send first_is_down [] two_backends).0.0
    × IsDistinct (send first_is_down [] two_backends).0.1
    × All (λ (p : ℕ). p < 2) (send first_is_down [] two_backends).0.1
send-Tries_example = send-Tries first_is_down [] two_backends (omega arith)

-- The first model answers 503, the second 200.
abbrev network : Network
network = record {
  call = λ m p. if m.alias == "fast" then responds 503 else responds 200;
  context = λ i. live;
  failed_at = λ i. 5;
}

abbrev deep : Model
deep = record fast { alias = "deep" }

forward-FailsOver_example :
    let f = forward network (fast ∷ deep ∷ []) [] [] in
    FailsOver network (fast ∷ deep ∷ []) 0 [] f.trace f.failures f.last
forward-FailsOver_example = forward-FailsOver network fast (deep ∷ []) [] []

inflight-done-forward_example :
    (load_of (done (forward network (fast ∷ deep ∷ []) [] [])) "acme/fast").inflight
    ≡ (load_of [] "acme/fast").inflight
unfolding load_of keera_gateway.Base.Dict.get
inflight-done-forward_example =
    inflight-done-forward network (fast ∷ deep ∷ []) [] [] "acme/fast"
      (λ j. (omega arith, omega arith))

abbrev numbered : ℕ → String → String
numbered zero t = after "\0" t
numbered (suc g) t = after "\t" (numbered g t)

numbered_injective :
    (g g' : ℕ) (t t' : String) → numbered g t ≡ numbered g' t' → (g ≡ g') × (t ≡ t')
numbered_injective zero zero t t' e = (refl, cc e)
numbered_injective zero (suc g') t t' e = cc e
numbered_injective (suc g) zero t t' e = cc e
numbered_injective (suc g) (suc g') t t' e =
    let same = numbered_injective g g' t t' (cc e) in (ap suc same.0, same.1)

-- One rule, which finds one text and nothing else.
abbrev engine : Engine
engine = record {
  compiles = λ pattern. true;
  matches = λ pattern t. if t == pattern then 1 else 0;
  replaced = λ pattern by t. by;
  clean_key = numbered;
  sanitized = λ reason. reason;
}

abbrev secret_rule : FilterRule
secret_rule = record { pattern = "secret"; replace = "***"; refuse = false; reason = "" }

abbrev rules : Compiled
rules = record { rules = secret_rule ∷ []; err = none; remembers = true; gen = 1 }

-- A text that is long enough to be remembered.
abbrev twice : String → String
twice t = join t t

abbrev long : String
long = twice (twice (twice (twice (twice (twice "hello, w")))))

abbrev memory : CleanTexts
memory = record { cur = numbered 1 long ∷ []; old = [] }

run_pattern-IsPlain_example :
    ((run_pattern engine rules (long ∷ "secret" ∷ []) memory).0
      ≡ filter_plainly engine (secret_rule ∷ []) (long ∷ "secret" ∷ []) [])
    × IsSound engine
        (λ gen. secret_rule ∷ [])
        (run_pattern engine rules (long ∷ "secret" ∷ []) memory).1
run_pattern-IsPlain_example =
    run_pattern-IsPlain engine (λ gen. secret_rule ∷ []) numbered_injective rules refl
      (long ∷ "secret" ∷ []) memory refl
      (((1, long, refl, (refl, tt)), tt), tt, (omega arith, omega arith))
