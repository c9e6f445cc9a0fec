-- ===== src/State/Empty.antt =====
-- SlaveStats.h's `EmptyExtState`, which stands in until the user has a state of their own.
use libslave.Common.{ℕ, Bool, false}
use libslave.Position.Defs.{Position, empty, cleared}
use libslave.State.Defs.{Stub, master_position}

unfoldable pub set_last_event_time_pos : ℕ → ℕ → Stub → Stub
set_last_event_time_pos t pos s = record s { intransaction_pos = pos }

unfoldable pub set_master_position : Position → Stub → Stub
set_master_position p s = record { position = p; intransaction_pos = p.log_pos }

unfoldable pub load_master_position : Stub → Position × Bool
unfolding cleared
load_master_position s = (cleared, false)

unfoldable pub get_master_position : Stub → Position × Bool
unfolding empty cleared
get_master_position s = master_position s.position s.intransaction_pos
