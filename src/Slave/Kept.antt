-- ===== src/Slave/Kept.antt =====
-- Where a dump is resumed after a connection is lost.
use libslave.Common.{ℕ, ◌≡◌, refl, ap, sym, ◌∙◌, true, false, Bytes, List, ok, some, none}
use libslave.Common.Effects.{◌>>=◌, bind_ok, Keeps, Keeps-at}
use libslave.Position.Defs.{Position, empty}
use libslave.State.Defs.{State, in_transaction}
use libslave.State.Default
use libslave.Field.Unpack.{Platform}
use libslave.Slave.Schema.{SqlRow}
use libslave.Slave.Defs.{Slave}
use libslave.Slave.Checks.{Handshake, unknown_variable, refused, answered, do_checksum_handshake}
use libslave.Slave.Requests.{request_dump}
use libslave.Slave.Loop.{Session, on_slave}
use libslave.Slave.Connect.{Connection, load_saved, load_position, ask, connected}
use libslave.Slave.Synced.{IsSynced, InSync}
use libslave.Slave.Resume.{on_slave-ends, send-ends}

-- The two positions are these.
abbrev At : State → Position → Slave → Type 0
At ext p s = (s.ext_state ≡ ext) × (s.position ≡ p)

handshake-At :
    (ext : State) (p : Position) (find_type : Bytes → ℕ) (h : Handshake)
    → Keeps (At ext p) (do_checksum_handshake find_type h)
unfolding do_checksum_handshake Keeps
handshake-At ext p find_type unknown_variable s a = a
handshake-At ext p find_type refused s a = a
handshake-At ext p find_type (answered none) s a = a
handshake-At ext p find_type (answered (some name)) s a = a

-- A position that is saved is the one that is loaded.
load_position-found :
    (status : List SqlRow) (s : Slave)
    → empty s.ext_state.position ≡ false
    → load_position status s ≡ (
      ok tt,
      record s { position = in_transaction s.ext_state.position s.ext_state.intransaction_pos },
    )
unfolding load_position load_saved
load_position-found status s e = ap (λ r. load_saved status r s) (found s e)
  where
    found :
        (s : Slave)
        → empty s.ext_state.position ≡ false
        → Default.get_master_position s.ext_state
          ≡ (in_transaction s.ext_state.position s.ext_state.intransaction_pos, true)
    found s e = unfold Default.get_master_position in rw e

load_position-kept :
    (status : List SqlRow) (s t : Slave) (u : Unit {0})
    → IsSynced s
    → empty s.ext_state.position ≡ false
    → load_position status s ≡ (ok u, t)
    → t.position ≡ s.position
unfolding IsSynced
load_position-kept status s t u synced e h =
    ap (λ x. x.1.position) (sym h ∙ load_position-found status s e) ∙ synced

-- Where the position in the state is the one that the loop has reached, and is one, a connection
-- that is made asks for the dump at just that position, whatever the master's last one is.
pub connected-kept :
    (find_type : Bytes → ℕ) (c : Platform) (connection : Connection) (s t : Session)
    (request : Bytes)
    → InSync s
    → empty s.slave.ext_state.position ≡ false
    → connected find_type c connection s ≡ (ok request, t)
    → (t.slave.position ≡ s.slave.position)
      × (request_dump c.wire t.slave.m_gtid_enabled t.slave.m_server_id s.slave.position
          ≡ ok request)
unfolding connected ask InSync IsSynced
connected-kept find_type c connection s t request sync full h =
    let shake = do_checksum_handshake find_type connection.handshake in
    let (_, u, before, asked) =
      bind_ok (on_slave shake >>= (λ _. on_slave (load_position connection.master_status)))
        (λ _. ask c connection) s t request h in
    let (done, v, shaken, loaded) =
      bind_ok (on_slave shake) (λ _. on_slave (load_position connection.master_status)) s u tt
        before in
    let stays : At s.slave.ext_state s.slave.position v.slave =
      rw (← ap (λ x. x.1) (on_slave-ends shake s v done shaken)) (
        Keeps-at (At s.slave.ext_state s.slave.position) shake
          (handshake-At s.slave.ext_state s.slave.position find_type connection.handshake) s.slave
          (refl, refl)) in
    let synced : IsSynced v.slave = rw (stays.0, stays.1) sync in
    let kept : u.slave.position ≡ v.slave.position =
      load_position-kept connection.master_status v.slave u.slave tt synced (rw stays.0 full)
        (on_slave-ends (load_position connection.master_status) v u tt loaded) in
    let (sent, same) = send-ends connection.refuses _ u t request asked in
    let place : u.slave.position ≡ s.slave.position = kept ∙ stays.1 in
    (ap (λ x. x.position) (sym same) ∙ place, rw (← same, ← place) sent)
