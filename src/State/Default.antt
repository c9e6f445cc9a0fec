-- ===== src/State/Default.antt =====
-- DefaultExtState.h's `DefaultExtState`. The mutex makes each method one step.
use libslave.Common.{ℕ, ◌+◌, ◌%◌, ◌^◌, Bool, false}
use libslave.Position.Defs.{Position, empty, cleared}
use libslave.State.Defs.{State, master_position}

unfoldable pub set_connecting : ℕ → State → State
set_connecting now s = record s {
  connect_time = now;
  connect_count = (s.connect_count + 1) % 2 ^ 32;
}

unfoldable pub set_last_filtered_update_time : ℕ → State → State
set_last_filtered_update_time now s = record s { last_filtered_update = now }

unfoldable pub set_last_event_time_pos : ℕ → ℕ → ℕ → State → State
set_last_event_time_pos now t pos s = record s {
  last_event_time = t;
  intransaction_pos = pos;
  last_update = now;
}

unfoldable pub set_master_position : Position → State → State
set_master_position p s = record s { position = p; intransaction_pos = p.log_pos }

unfoldable pub load_master_position : State → Position × Bool
unfolding cleared
load_master_position s = (cleared, false)

unfoldable pub get_master_position : State → Position × Bool
unfolding empty cleared
get_master_position s = master_position s.position s.intransaction_pos

unfoldable pub set_state_processing : Bool → State → State
set_state_processing b s = record s { state_processing = b }
