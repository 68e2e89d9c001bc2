-- ===== src/Tests/Events.antt =====
-- Events on their way to the database.
use keera_gateway.Base.{false, [], ◌∷◌}
use keera_gateway.Base.Int.{pos}
use keera_gateway.Usage.Recorder.{Options, Event, Recorder, System, Phase, done, written_all, add}

abbrev small : Options
small = record {
  buffer = pos 2;
  batch_size = pos 1;
  flush_interval = pos 0;
  block_for = pos 0;
  write_timeout = pos 0;
}

abbrev free_call : Event
free_call = record { bills = [] }

abbrev fresh : Recorder
fresh = record {
  buffer = 2;
  batch_size = 1;
  ch = [];
  billed = [];
  batch = [];
  dropped = pos 0;
  written = pos 0;
  failing = false;
}

abbrev at_work : Recorder → Phase → System
at_work r p = record { recorder = r; waiting = []; phase = p }

-- The writer is cancelled and ends, and an event comes late.
abbrev ended : System
ended = at_work (record (add fresh free_call written_all) { ch = free_call ∷ [] }) done
