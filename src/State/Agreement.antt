-- ===== src/State/Agreement.antt =====
-- The two implementations of `ExtStateIface` over the same calls.
use libslave.Common.{ℕ, ◌≡◌, refl, Bool, List, [], ◌∷◌}
use libslave.Position.Defs.{Position}
use libslave.State.Defs.{State, Stub, initial, initial_stub}
use libslave.State.Default
use libslave.State.Empty

-- The calls of the library that change a state, with the time at which they come.
pub data Call : Type 0 where
  connecting filtered_update : (now : ℕ) → Call
  event_time_pos : (now time pos : ℕ) → Call
  master_position : Position → Call
  state_processing : Bool → Call

pub run_default : List Call → State → State
run_default [] s = s
run_default (connecting now ∷ cs) s = run_default cs (Default.set_connecting now s)
run_default (filtered_update now ∷ cs) s =
    run_default cs (Default.set_last_filtered_update_time now s)
run_default (event_time_pos now t p ∷ cs) s =
    run_default cs (Default.set_last_event_time_pos now t p s)
run_default (master_position p ∷ cs) s = run_default cs (Default.set_master_position p s)
run_default (state_processing b ∷ cs) s = run_default cs (Default.set_state_processing b s)

pub run_empty : List Call → Stub → Stub
run_empty [] s = s
run_empty (connecting now ∷ cs) s = run_empty cs s
run_empty (filtered_update now ∷ cs) s = run_empty cs s
run_empty (event_time_pos now t p ∷ cs) s = run_empty cs (Empty.set_last_event_time_pos t p s)
run_empty (master_position p ∷ cs) s = run_empty cs (Empty.set_master_position p s)
run_empty (state_processing b ∷ cs) s = run_empty cs s

abbrev Agrees : State → Stub → Type 0
Agrees s t = (s.position ≡ t.position) × (s.intransaction_pos ≡ t.intransaction_pos)

get_master_position-agree :
    (s : State) (t : Stub)
    → Agrees s t
    → Default.get_master_position s ≡ Empty.get_master_position t
unfolding Default.get_master_position Empty.get_master_position
get_master_position-agree s t (p, n) = rw (p, n)

runs_agree :
    (cs : List Call) (s : State) (t : Stub)
    → Agrees s t
    → Agrees (run_default cs s) (run_empty cs t)
unfolding run_default run_empty Default.set_connecting Default.set_last_filtered_update_time
    Default.set_last_event_time_pos Default.set_master_position Default.set_state_processing
    Empty.set_last_event_time_pos Empty.set_master_position
runs_agree [] s t h = h
runs_agree (connecting now ∷ cs) s t h = runs_agree cs _ t h
runs_agree (filtered_update now ∷ cs) s t h = runs_agree cs _ t h
runs_agree (event_time_pos now time p ∷ cs) s t h = runs_agree cs _ _ (h.0, refl)
runs_agree (master_position p ∷ cs) s t h = runs_agree cs _ _ (refl, refl)
runs_agree (state_processing b ∷ cs) s t h = runs_agree cs _ t h

-- After the same calls from the start, `DefaultExtState` and the stub `EmptyExtState` answer
-- `getMasterPosition` alike.
pub get_master_position-run :
    (cs : List Call)
    → Default.get_master_position (run_default cs initial)
      ≡ Empty.get_master_position (run_empty cs initial_stub)
get_master_position-run cs =
    get_master_position-agree _ _ (runs_agree cs initial initial_stub (refl, refl))
