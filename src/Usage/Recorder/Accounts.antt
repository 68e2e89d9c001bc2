-- ===== src/Usage/Recorder/Accounts.antt =====
-- No event is lost without being counted, in internal/usage/recorder.go.
use keera_gateway.Base.{ℕ, ◌+◌, Bool, true, false, length, nat_eq, if◌then◌else◌}
use keera_gateway.Base.Int.{ℤ}
use keera_gateway.Usage.Recorder.{
  Options, Recorder, System, Phase, polling, selecting, draining, done, Step, Reaches, record_sent,
  record_failing, record_waits, wait_sent, wait_over, poll_none, take_billed, take_other, tick,
  cancel, drained, started, then_step,
}
use keera_gateway.Usage.Recorder.Totals.{sum}

-- The writer has ended: `Run` has returned.
abbrev pub is_done : Phase → Bool
is_done polling = false
is_done selecting = false
is_done draining = false
is_done done = true

-- How many events a step puts in a queue.
abbrev pub puts : {s s' : System} {k : ℕ} → Step s s' k → ℕ
puts (record_sent e h) = 1
puts (record_failing e h f) = 0
puts (record_waits e h f) = 0
puts (wait_sent vs ws e h) = 1
puts (wait_over vs ws e) = 0
puts (poll_none h) = 0
puts (take_billed e result h t) = 0
puts (take_other e result h t) = 0
puts (tick result) = 0
puts cancel = 0
puts (drained result h h') = 0

-- How many events were put in a queue after the writer had ended.
abbrev pub late : {opts : Options} {s : System} {n : ℕ} → Reaches opts s n → ℕ
late started = 0
late (then_step {s = s} before one) =
    let rest = late before in if is_done s.phase then rest + puts one else rest

-- What is on its way to the database: queued or in the batch while the writer runs, and after it has
-- ended nothing but what came late.
abbrev pub on_its_way : {opts : Options} {n : ℕ} (s : System) → Reaches opts s n → ℕ
on_its_way s r =
    if is_done s.phase
    then late r
    else length s.recorder.ch + length s.recorder.billed + length s.recorder.batch

-- What is written or dropped, on its way, or waiting for room.
abbrev pub accounted : {opts : Options} {n : ℕ} (s : System) → Reaches opts s n → ℤ
accounted s r = sum s.recorder (on_its_way s r + length s.waiting)

-- The events in the queues and the batch.
abbrev queued : System → ℕ
queued s = length s.recorder.ch + length s.recorder.billed + length s.recorder.batch
