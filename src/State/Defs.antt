-- ===== src/State/Defs.antt =====
-- SlaveStats.h's `State` and the members of `EmptyExtState`: what both implementations
-- of `ExtStateIface` keep. A method that reads the clock takes the time as an argument.
use libslave.Common.{ℕ, Bool, true, false, [], ◌==◌, if◌then◌else◌}
use libslave.Position.Defs.{Position, empty, cleared}

pub record State : Type 0 where
  pub connect_time : ℕ
  pub last_filtered_update : ℕ
  pub last_event_time : ℕ
  pub last_update : ℕ
  pub position : Position
  pub intransaction_pos : ℕ
  pub connect_count : ℕ
  pub state_processing : Bool

abbrev blank : Position
blank = record { log_name = []; log_pos = 0; gtid_executed = [] }

abbrev pub initial : State
initial = record {
  connect_time = 0;
  last_filtered_update = 0;
  last_event_time = 0;
  last_update = 0;
  position = blank;
  intransaction_pos = 0;
  connect_count = 0;
  state_processing = false;
}

-- `if (intransaction_pos) pos.log_pos = intransaction_pos`
abbrev pub in_transaction : Position → ℕ → Position
in_transaction p n = if n == 0 then p else record p { log_pos = n }

-- `getMasterPosition`: the position, and whether one was saved; a position not saved is cleared.
abbrev pub master_position : Position → ℕ → Position × Bool
unfolding empty cleared
master_position p n = if empty p then (cleared, false) else (in_transaction p n, true)

-- `EmptyExtState` keeps two members and ignores the rest.
pub record Stub : Type 0 where
  pub position : Position
  pub intransaction_pos : ℕ

abbrev pub initial_stub : Stub
initial_stub = record { position = blank; intransaction_pos = 0 }
