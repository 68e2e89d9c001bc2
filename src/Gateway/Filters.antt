-- ===== src/Gateway/Filters.antt =====
-- Chains of filters over a request: `applyFilters`, `chainFilter`, `filterModel` and
-- `changedSegments` of internal/gateway/filter.go. What a filter's run answers (`runOne`), and
-- whether the client was gone after it, is a function; refusals are named instead of worded, and
-- times, metrics and traces are left out.
pub mod Shadow
pub mod Outcome
pub mod Enforced
use keera_gateway.Base.{
  ℕ, zero, suc, String, Bool, true, false, not, ◌&&◌, Option, none, some, List, [], ◌∷◌, ◌++◌, ◌==◌,
  string_eq, nat_eq, ltb, length, if◌then◌else◌,
}
use keera_gateway.Base.Int.{ℤ, pos}
use keera_gateway.Base.Int64.{add64}
use keera_gateway.Policy.Model.{Model}
use keera_gateway.Policy.Bill.{BillLine}
use keera_gateway.Policy.Filter.{Filter, FilterMode, uses_model, gates}
use keera_gateway.Gateway.Serve.{ServeProblem, reader_problem}

-- The error of a run: a filter that refuses, or that gave no answer
pub data RunError : Type 0 where
  refused_for : String → RunError
  no_answer : String → RunError

-- What `runOne` answers; a gate leaves no texts
pub record RunResult : Type 0 where
  pub texts : Option (List String)
  pub micros : ℤ
  pub bills : List BillLine
  pub err : Option RunError
  pub gone : Bool

-- `store.FilterOutcome`
pub data FilterOutcome : Type 0 where
  filter_pass filter_rewrite filter_refuse filter_error : FilterOutcome

-- `store.FilterRun`
pub record FilterNote : Type 0 where
  pub filter : String
  pub mode : FilterMode
  pub shadow : Bool
  pub outcome : FilterOutcome
  pub micros : ℤ
  pub segments : ℕ
  pub changed : ℕ

-- `filterRun`
pub record FilterChain : Type 0 where
  pub applied : List String
  pub micros : ℤ
  pub bills : List BillLine
  pub runs : List FilterNote
  pub rewrote : Bool

pub data FilterRefusal : Type 0 where
  filter_missing : String → FilterRefusal
  filter_unavailable : String → ServeProblem → FilterRefusal
  filter_refused : String → String → FilterRefusal
  filter_failed : String → String → FilterRefusal
  unreadable_body not_rebuilt : FilterRefusal

pub record Readers : Type 0 where
  pub find : String → Option Model
  pub find_filter : String → Option Filter
  pub run_one : Filter → List String → RunResult
  -- `doc.apply` gives no error
  pub rebuilds : List String → Bool

-- How many texts of the second list differ from the one at their place in the first
unfoldable pub differing : List String → List String → ℕ
differing before [] = 0
differing [] (s ∷ after) = 0
differing (b ∷ before) (s ∷ after) =
    let n = differing before after in if not (s == b) then suc n else n

-- `changedSegments`
unfoldable pub changed_segments : List String → Option (List String) → ℕ
changed_segments before none = 0
changed_segments before (some after) = differing before after

-- What `chainFilter` has found of one filter before it notes it
pub record Verdict : Type 0 where
  pub out : Option (List String)
  pub ref : Option FilterRefusal
  pub outcome : FilterOutcome
  pub changed : ℕ

pub data Ran : Type 0 where
  missing : Ran
  left_during : ℤ → List BillLine → Ran
  judged : Filter → Verdict → ℤ → List BillLine → Ran

-- `out`, `ref` and `stop`
pub data FilterStep : Type 0 where
  hands_on : Option (List String) → FilterStep
  stops : Option FilterRefusal → FilterStep

-- How `applyFilters` ends: with the texts to send if a filter rewrote them, with a refusal, or as
-- the client left
pub data FiltersEnd : Type 0 where
  passed : Option (List String) → FiltersEnd
  filters_refuse : FilterRefusal → FiltersEnd
  client_left : FiltersEnd

verdict_of : Filter → List String → RunResult → Option RunError → Verdict
verdict_of f texts r none =
    let changed = changed_segments texts r.texts in
    record {
      out = r.texts;
      ref = none;
      outcome = if ltb 0 changed then filter_rewrite else filter_pass;
      changed = changed;
    }
verdict_of f texts r (some (refused_for reason)) = record {
  out = r.texts;
  ref = some (filter_refused f.alias reason);
  outcome = filter_refuse;
  changed = 0;
}
verdict_of f texts r (some (no_answer why)) = record {
  out = r.texts;
  ref = some (filter_failed f.alias why);
  outcome = filter_error;
  changed = 0;
}

failed : Option RunError → Bool
failed none = false
failed (some e) = true

after_run : Filter → List String → RunResult → Ran
unfolding verdict_of failed
after_run f texts r =
    if failed r.err && r.gone
    then left_during r.micros r.bills
    else judged f (verdict_of f texts r r.err) r.micros r.bills

-- A filter whose model cannot be used
unusable : Filter → ServeProblem → Ran
unusable f p =
    judged f
      (record {
        out = none;
        ref = some (filter_unavailable f.alias p);
        outcome = filter_error;
        changed = 0;
      })
      (pos 0) []

unfoldable pub costs : ℤ → List BillLine → FilterChain → FilterChain
costs micros bills c = record c { micros = add64 c.micros micros; bills = c.bills ++ bills }

-- `noteFilter`
unfoldable pub note_filter : Filter → Verdict → ℤ → ℕ → FilterChain → FilterChain
note_filter f v micros segments c = record c {
  runs =
      c.runs
      ++ record {
        filter = f.alias;
        mode = f.mode;
        shadow = f.shadow;
        outcome = v.outcome;
        micros = micros;
        segments = segments;
        changed = v.changed;
      }
        ∷ [];
}

unfoldable pub enforce :
    Filter → Verdict → Option FilterRefusal → FilterChain → FilterStep × FilterChain
enforce f v (some r) c = (stops (some r), c)
enforce f v none c = (
  (if v.changed == 0 then hands_on none else hands_on v.out),
  record c { applied = c.applied ++ f.alias ∷ [] },
)

-- `chainFilter` from the run's result on
unfoldable pub settle_filter : String → List String → Ran → FilterChain → FilterStep × FilterChain
unfolding enforce
settle_filter alias texts missing c = (stops (some (filter_missing alias)), c)
settle_filter alias texts (left_during micros bills) c = (stops none, costs micros bills c)
settle_filter alias texts (judged f v micros bills) c =
    let c' = note_filter f v micros (length texts) (costs micros bills c) in
    if f.shadow then (hands_on none, c') else enforce f v v.ref c'

abbrev pub no_runs : FilterChain
no_runs = record { applied = []; micros = pos 0; bills = []; runs = []; rewrote = false }

module _ (rd : Readers) where
  -- `filterModel`
  unfoldable pub filter_model : Filter → Option ServeProblem
  filter_model f =
      if not (uses_model f.mode) then none else reader_problem (rd.find f.model) (gates f.mode)

  unfoldable pub with_filter_model : Filter → List String → Option ServeProblem → Ran
  unfolding after_run unusable
  with_filter_model f texts (some p) = unusable f p
  with_filter_model f texts none = after_run f texts (rd.run_one f texts)

  unfoldable pub found_filter : List String → Option Filter → Ran
  unfolding with_filter_model
  found_filter texts none = missing
  found_filter texts (some f) = with_filter_model f texts (filter_model f)

  -- `chainFilter` up to the run's result
  unfoldable pub ran_filter : String → List String → Ran
  unfolding found_filter
  ran_filter alias texts = found_filter texts (rd.find_filter alias)

  -- `chainFilter`
  unfoldable pub chain_filter : String → List String → FilterChain → FilterStep × FilterChain
  unfolding settle_filter
  chain_filter alias texts c = settle_filter alias texts (ran_filter alias texts) c

  unfoldable pub end_of : Option FilterRefusal → FiltersEnd
  end_of none = client_left
  end_of (some r) = filters_refuse r

  unfoldable pub after_filter :
      FilterStep × FilterChain
      → List String
      → Bool
      → (List String → Bool → FilterChain → FiltersEnd × FilterChain)
      → FiltersEnd × FilterChain
  unfolding end_of
  after_filter (stops r, c) texts rewritten on = (end_of r, c)
  after_filter (hands_on none, c) texts rewritten on = on texts rewritten c
  after_filter (hands_on (some out), c) texts rewritten on = on out true c

  -- What `applyFilters` does with the texts that are left
  rebuilt : List String → Bool → FilterChain → FiltersEnd × FilterChain
  rebuilt texts rewritten c =
      if not rewritten
      then (passed none, c)
      else if rd.rebuilds texts
      then (passed (some texts), record c { rewrote = true })
      else (filters_refuse not_rebuilt, c)

  -- The loop of `applyFilters`
  unfoldable pub filter_chain :
      List String → List String → Bool → FilterChain → FiltersEnd × FilterChain
  unfolding after_filter rebuilt
  filter_chain [] texts rewritten c = rebuilt texts rewritten c
  filter_chain (a ∷ aliases) texts rewritten c =
      after_filter (chain_filter a texts c) texts rewritten
        (λ texts' rewritten' c'. filter_chain aliases texts' rewritten' c')

  -- `applyFilters` of a body whose texts these are, if it can be read
  unfoldable pub apply_filters : List String → Option (List String) → FiltersEnd × FilterChain
  apply_filters [] doc = (passed none, no_runs)
  apply_filters (a ∷ aliases) none = (filters_refuse unreadable_body, no_runs)
  apply_filters (a ∷ aliases) (some []) = (passed none, no_runs)
  apply_filters (a ∷ aliases) (some (t ∷ texts)) =
      filter_chain (a ∷ aliases) (t ∷ texts) false no_runs
