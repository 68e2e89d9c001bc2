-- ===== src/Usage/Recorder.antt =====
-- `Recorder` of internal/usage/recorder.go: two queues, the batch that `Run` fills, and the counts
-- of what was written and dropped. A channel is the list of what it holds, oldest first; the
-- database's answer to a batch is an argument. The first send of `Record` and its look at `failing`
-- are one step, and so are taking an event and the write that it may lead to.
pub mod Totals
pub mod Accounts
use keera_gateway.Base.{
  ℕ, zero, suc, ◌+◌, Bool, true, false, Option, none, some, List, [], ◌∷◌, ◌++◌, ltb, leb, length,
  nat_eq, ◌==◌, ◌≡◌, if◌then◌else◌,
}
use keera_gateway.Base.Int.{ℤ, pos, pos_part, leb_ℤ}
use keera_gateway.Base.Int64.{add64, sub64}
use keera_gateway.Policy.Bill.{BillLine}

pub record Options : Type 0 where
  pub buffer : ℤ
  pub batch_size : ℤ
  pub flush_interval : ℤ
  pub block_for : ℤ
  pub write_timeout : ℤ

-- A default for what is not positive.
abbrev or_default : ℤ → ℤ → ℤ
or_default a d = if leb_ℤ a (pos 0) then d else a

-- `Options.setDefaults`; durations are in nanoseconds
unfoldable pub set_defaults : Options → Options
set_defaults o = record {
  buffer = or_default o.buffer (pos 8192);
  batch_size = or_default o.batch_size (pos 256);
  flush_interval = or_default o.flush_interval (pos 250_000_000);
  block_for = or_default o.block_for (pos 100_000_000);
  write_timeout = or_default o.write_timeout (pos 10_000_000_000);
}

-- What the recorder reads of a `store.Event`.
pub record Event : Type 0 where
  pub bills : List BillLine

pub record Recorder : Type 0 where
  pub buffer : ℕ
  pub batch_size : ℕ
  pub ch : List Event
  pub billed : List Event
  pub batch : List Event
  pub dropped : ℤ
  pub written : ℤ
  pub failing : Bool

-- `NewRecorder`
unfoldable pub new_recorder : Options → Recorder
unfolding set_defaults
new_recorder opts =
    let o = set_defaults opts in
    record {
      buffer = pos_part o.buffer;
      batch_size = pos_part o.batch_size;
      ch = [];
      billed = [];
      batch = [];
      dropped = pos 0;
      written = pos 0;
      failing = false;
    }

-- The send to the event's queue, if there is room
unfoldable pub send : Recorder → Event → Option Recorder
send r e =
    if ltb 0 (length e.bills)
    then (if ltb (length r.billed) r.buffer
        then some (record r { billed = r.billed ++ e ∷ [] })
        else none)
    else (if ltb (length r.ch) r.buffer then some (record r { ch = r.ch ++ e ∷ [] }) else none)

-- `drop`
unfoldable pub drop : Recorder → Recorder
drop r = record r { dropped = add64 r.dropped (pos 1) }

-- What `WriteEvents` answers: `lost` is a `store.LostEvents` and its count.
pub data WriteResult : Type 0 where
  written_all failed : WriteResult
  lost : ℤ → WriteResult

after_write : Recorder → ℕ → WriteResult → Recorder
after_write r n written_all = record r {
  written = add64 r.written (pos n);
  failing = false;
  batch = [];
}
after_write r n failed = record r { dropped = add64 r.dropped (pos n); failing = true; batch = [] }
after_write r n (lost k) = record r {
  dropped = add64 r.dropped k;
  written = add64 r.written (sub64 (pos n) k);
  failing = false;
  batch = [];
}

-- `flush`
unfoldable pub flush : Recorder → WriteResult → Recorder
unfolding after_write
flush r result = let n = length r.batch in if n == 0 then r else after_write r n result

-- `add`
unfoldable pub add : Recorder → Event → WriteResult → Recorder
unfolding flush
add r e result =
    let r' : Recorder = record r { batch = r.batch ++ e ∷ [] } in
    if leb r'.batch_size (length r'.batch) then flush r' result else r'

-- Where `Run` is: at its first select, at its second, in `drain`, or done.
pub data Phase : Type 0 where
  polling selecting draining done : Phase

-- The recorder, the events whose request waits for room, and where `Run` is.
pub record System : Type 0 where
  pub recorder : Recorder
  pub waiting : List Event
  pub phase : Phase

-- The selects that take a billed event, and those that take another, with where `Run` goes on.
pub data TakesBilled : Phase → Phase → Type 0 where
  first_select : TakesBilled polling polling
  second_select : TakesBilled selecting polling
  draining_select : TakesBilled draining draining

pub data TakesOther : Phase → Phase → Type 0 where
  in_select : TakesOther selecting polling
  in_drain : TakesOther draining draining

-- What happens next; the index counts the calls of `Record`.
pub data Step : System → System → ℕ → Type 0 where
  record_sent :
      {r r' : Recorder} {ws : List Event} {p : Phase} (e : Event)
      → send r e ≡ some r'
      → Step
          (record { recorder = r; waiting = ws; phase = p })
          (record { recorder = r'; waiting = ws; phase = p })
          1
  record_failing :
      {r : Recorder} {ws : List Event} {p : Phase} (e : Event)
      → send r e ≡ none
      → r.failing ≡ true
      → Step
          (record { recorder = r; waiting = ws; phase = p })
          (record { recorder = drop r; waiting = ws; phase = p })
          1
  record_waits :
      {r : Recorder} {ws : List Event} {p : Phase} (e : Event)
      → send r e ≡ none
      → r.failing ≡ false
      → Step
          (record { recorder = r; waiting = ws; phase = p })
          (record { recorder = r; waiting = e ∷ ws; phase = p })
          1
  wait_sent :
      {r r' : Recorder} {p : Phase} (vs ws : List Event) (e : Event)
      → send r e ≡ some r'
      → Step
          (record { recorder = r; waiting = vs ++ e ∷ ws; phase = p })
          (record { recorder = r'; waiting = vs ++ ws; phase = p })
          0
  wait_over :
      {r : Recorder} {p : Phase} (vs ws : List Event) (e : Event)
      → Step
          (record { recorder = r; waiting = vs ++ e ∷ ws; phase = p })
          (record { recorder = drop r; waiting = vs ++ ws; phase = p })
          0
  poll_none :
      {r : Recorder} {ws : List Event}
      → r.billed ≡ []
      → Step
          (record { recorder = r; waiting = ws; phase = polling })
          (record { recorder = r; waiting = ws; phase = selecting })
          0
  take_billed :
      {r : Recorder} {ws es : List Event} (e : Event) (result : WriteResult) {p q : Phase}
      → r.billed ≡ e ∷ es
      → TakesBilled p q
      → Step
          (record { recorder = r; waiting = ws; phase = p })
          (record { recorder = add (record r { billed = es }) e result; waiting = ws; phase = q })
          0
  take_other :
      {r : Recorder} {ws es : List Event} (e : Event) (result : WriteResult) {p q : Phase}
      → r.ch ≡ e ∷ es
      → TakesOther p q
      → Step
          (record { recorder = r; waiting = ws; phase = p })
          (record { recorder = add (record r { ch = es }) e result; waiting = ws; phase = q })
          0
  tick :
      {r : Recorder} {ws : List Event} (result : WriteResult)
      → Step
          (record { recorder = r; waiting = ws; phase = selecting })
          (record { recorder = flush r result; waiting = ws; phase = polling })
          0
  cancel :
      {r : Recorder} {ws : List Event}
      → Step
          (record { recorder = r; waiting = ws; phase = selecting })
          (record { recorder = r; waiting = ws; phase = draining })
          0
  drained :
      {r : Recorder} {ws : List Event} (result : WriteResult)
      → r.billed ≡ []
      → r.ch ≡ []
      → Step
          (record { recorder = r; waiting = ws; phase = draining })
          (record { recorder = flush r result; waiting = ws; phase = done })
          0

-- The systems that a new recorder comes to, with the number of events recorded on the way.
pub data Reaches (opts : Options) : System → ℕ → Type 0 where
  started : Reaches opts (record { recorder = new_recorder opts; waiting = []; phase = polling }) 0
  then_step : {s s' : System} {n k : ℕ} → Reaches opts s n → Step s s' k → Reaches opts s' (n + k)
