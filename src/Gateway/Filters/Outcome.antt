-- ===== src/Gateway/Filters/Outcome.antt =====
-- How a chain of filters of internal/gateway/filter.go may end, by what its filters' runs answer.
use keera_gateway.Base.{
  String, Bool, true, false, ◌&&◌, Option, none, some, List, [], ◌∷◌, ◌==◌, nat_eq, string_eq, ◌≡◌,
  ◌⊎◌,
}
use keera_gateway.Policy.Filter.{Filter}
use keera_gateway.Gateway.Serve.{ServeProblem}
use keera_gateway.Gateway.Filters.{
  filter_missing, filter_unavailable, filter_refused, filter_failed, not_rebuilt, Readers, RunError,
  refused_for, no_answer, FiltersEnd, passed, filters_refuse, client_left, filter_model,
}

-- Every text that a run gives back is the one at its place before.
abbrev pub agrees : List String → List String → Bool
agrees before [] = true
agrees [] (s ∷ after) = true
agrees (b ∷ before) (s ∷ after) = let rest = agrees before after in s == b && rest

-- What a run gives back that changes no text: nothing, or the texts it read.
abbrev pub keeps : List String → Option (List String) → Bool
keeps t none = true
keeps t (some out) = agrees t out

-- The client has not left the chain at this filter: it cannot run, its run has no error, or the
-- client is there after it.
abbrev pub Stays : Readers → Filter → List String → Type 0
Stays rd f t =
    ((p : ServeProblem) × (filter_model rd f ≡ some p))
    ⊎ (((rd.run_one f t).err ≡ none) ⊎ ((rd.run_one f t).gone ≡ false))

-- How a chain of filters ends, from these texts, which a filter rewrote before or not, and which
-- filters are said to be applied. A filter is judged by the error of its run alone.
pub data Ends (rd : Readers)
    : List String → List String → Bool → FiltersEnd → List String → Type 0 where
  -- No filter is left.
  as_it_was : (t : List String) → Ends rd [] t false (passed none) []
  as_rewritten : (t : List String) → rd.rebuilds t ≡ true → Ends rd [] t true (passed (some t)) []
  stays_broken :
      (t : List String) → rd.rebuilds t ≡ false → Ends rd [] t true (filters_refuse not_rebuilt) []
  -- The first filter is gone.
  is_gone :
      (a : String) (aliases t : List String) (w : Bool)
      → rd.find_filter a ≡ none
      → Ends rd (a ∷ aliases) t w (filters_refuse (filter_missing a)) []
  -- The client left while it failed.
  leaves :
      (a : String) (aliases t : List String) (w : Bool) (f : Filter) (e : RunError)
      → rd.find_filter a ≡ some f
      → filter_model rd f ≡ none
      → (rd.run_one f t).err ≡ some e
      → (rd.run_one f t).gone ≡ true
      → Ends rd (a ∷ aliases) t w client_left []
  -- An enforcing filter has no model to run on, refuses, or gives no answer.
  cannot_run :
      (a : String) (aliases t : List String) (w : Bool) (f : Filter) (p : ServeProblem)
      → rd.find_filter a ≡ some f
      → f.shadow ≡ false
      → filter_model rd f ≡ some p
      → Ends rd (a ∷ aliases) t w (filters_refuse (filter_unavailable f.alias p)) []
  refuses :
      (a : String) (aliases t : List String) (w : Bool) (f : Filter) (reason : String)
      → rd.find_filter a ≡ some f
      → f.shadow ≡ false
      → filter_model rd f ≡ none
      → (rd.run_one f t).err ≡ some (refused_for reason)
      → (rd.run_one f t).gone ≡ false
      → Ends rd (a ∷ aliases) t w (filters_refuse (filter_refused f.alias reason)) []
  fails :
      (a : String) (aliases t : List String) (w : Bool) (f : Filter) (why : String)
      → rd.find_filter a ≡ some f
      → f.shadow ≡ false
      → filter_model rd f ≡ none
      → (rd.run_one f t).err ≡ some (no_answer why)
      → (rd.run_one f t).gone ≡ false
      → Ends rd (a ∷ aliases) t w (filters_refuse (filter_failed f.alias why)) []
  -- A shadow filter changes nothing, whether it has a model or not and whatever it answers, while
  -- the client stays.
  in_shadow :
      (a : String) (aliases t : List String) (w : Bool) (f : Filter) (e : FiltersEnd)
      (applied : List String)
      → rd.find_filter a ≡ some f
      → f.shadow ≡ true
      → Stays rd f t
      → Ends rd aliases t w e applied
      → Ends rd (a ∷ aliases) t w e applied
  -- An enforcing filter finds nothing, or the next one reads what it left.
  passes_on :
      (a : String) (aliases t : List String) (w : Bool) (f : Filter) (e : FiltersEnd)
      (applied : List String)
      → rd.find_filter a ≡ some f
      → f.shadow ≡ false
      → filter_model rd f ≡ none
      → (rd.run_one f t).err ≡ none
      → keeps t (rd.run_one f t).texts ≡ true
      → Ends rd aliases t w e applied
      → Ends rd (a ∷ aliases) t w e (f.alias ∷ applied)
  rewrites :
      (a : String) (aliases t out : List String) (w : Bool) (f : Filter) (e : FiltersEnd)
      (applied : List String)
      → rd.find_filter a ≡ some f
      → f.shadow ≡ false
      → filter_model rd f ≡ none
      → (rd.run_one f t).err ≡ none
      → (rd.run_one f t).texts ≡ some out
      → agrees t out ≡ false
      → Ends rd aliases out true e applied
      → Ends rd (a ∷ aliases) t w e (f.alias ∷ applied)
