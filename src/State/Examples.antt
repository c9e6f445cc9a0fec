-- ===== src/State/Examples.antt =====
-- The two states after the calls of a short transaction.
use libslave.Common.{◌≡◌, [], ◌∷◌, codes, true}
use libslave.State.Defs.{initial, initial_stub}
use libslave.State.Default
use libslave.State.Empty
use libslave.State.Agreement.{
  Call, connecting, event_time_pos, master_position, state_processing, run_default, run_empty,
  get_master_position-run,
}
use libslave.Common.{List}

abbrev calls : List Call
calls =
    connecting 100
    ∷ state_processing true
    ∷ master_position (record { log_name = codes "bin.1"; log_pos = 4; gtid_executed = [] })
    ∷ event_time_pos 101 99 500
    ∷ []

get_master_position-run_example :
    Default.get_master_position (run_default calls initial)
    ≡ Empty.get_master_position (run_empty calls initial_stub)
get_master_position-run_example = get_master_position-run calls
