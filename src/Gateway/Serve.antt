-- ===== src/Gateway/Serve.antt =====
-- Which models can answer a chat request now: `chatProblem`, `readerProblem`, `serveable`,
-- `allLocked` of internal/gateway/route.go, `sortDestinations` of route_check.go and `destinations`
-- of forward.go. A problem is named, not worded. `find` is the registry's lookup in the
-- organisation.
use keera_gateway.Base.{
  String, Bool, true, false, not, ◌&&◌, Option, none, some, List, [], ◌∷◌, ◌==◌, string_eq, nat_eq,
  ltb, length, if◌then◌else◌,
}
use keera_gateway.Policy.Model.{Model, kind_chat, kind_decision}

pub data ServeProblem : Type 0 where
  not_found disabled is_locked other_kind no_backend own_subscription writes_no_text : ServeProblem

-- `chatProblem` of a model that was found
model_problem : Model → Option ServeProblem
model_problem m =
    if not m.enabled
    then some disabled
    else if m.locked
    then some is_locked
    else if not (m.kind == kind_chat)
    then some other_kind
    else if length m.backends == 0
    then some no_backend
    else if m.subscription
    then some own_subscription
    else none

-- `chatProblem`
unfoldable pub chat_problem : Option Model → Option ServeProblem
unfolding model_problem
chat_problem none = some not_found
chat_problem (some m) = model_problem m

-- `readerProblem`
unfoldable pub reader_problem : Option Model → Bool → Option ServeProblem
unfolding chat_problem model_problem
reader_problem none choice = some not_found
reader_problem (some m) choice =
    if m.kind == kind_decision
    then (if choice then model_problem (record m { kind = kind_chat }) else some writes_no_text)
    else model_problem m

abbrev pub no_problem : Option ServeProblem → Bool
no_problem none = true
no_problem (some p) = false

module _ (find : String → Option Model) where
  -- `serveable`
  unfoldable pub serveable : String → Bool
  unfolding chat_problem
  serveable alias = no_problem (chat_problem (find alias))

  -- `sortDestinations`: the aliases that can be served
  unfoldable pub kept_of : List String → List String
  unfolding serveable
  kept_of [] = []
  kept_of (alias ∷ rest) = let more = kept_of rest in if serveable alias then alias ∷ more else more

  locked_model : Option Model → Bool
  locked_model none = false
  locked_model (some m) = m.locked

  every_locked : List String → Bool
  every_locked [] = true
  every_locked (alias ∷ rest) =
      let later = every_locked rest in if not (locked_model (find alias)) then false else later

  -- `allLocked`
  unfoldable pub all_locked : List String → Bool
  unfolding every_locked locked_model
  all_locked ds = every_locked ds && ltb 0 (length ds)

  or_only : Model → List Model → List Model
  or_only model [] = model ∷ []
  or_only model (m ∷ ms) = m ∷ ms

  with_model : Option Model → List Model → List Model
  with_model none ms = ms
  with_model (some m) ms = m ∷ ms

  found_models : List String → List Model
  found_models [] = []
  found_models (alias ∷ rest) =
      let more = found_models rest in if serveable alias then with_model (find alias) more else more

  -- `destinations`: the models to try, in order
  unfoldable pub destinations : Model → List String → List Model
  unfolding or_only with_model found_models
  destinations model chain =
      if ltb (length chain) 2 then model ∷ [] else or_only model (found_models chain)
