-- ===== src/Slave/Resume.antt =====
-- The loop of `get_remote_binlog` with its reconnections: where the next dump starts.
use libslave.Common.{
  ℕ, ◌≡◌, refl, ap, Bool, true, false, Bytes, List, [], ◌∷◌, Outcome, ok, throws, fault, some, none,
  Option, inl, inr, Bool-cases,
}
use libslave.Common.Effects.{M, ◌>>=◌, lift, pure, modify, bind_ok, Keeps-at}
use libslave.Position.Defs.{Position, empty}
use libslave.State.Defs.{in_transaction}
use libslave.State.Default
use libslave.Field.Unpack.{Platform}
use libslave.Table.Defs.{Table}
use libslave.Slave.Schema.{SqlRow}
use libslave.Slave.Defs.{Slave}
use libslave.Slave.Process.{Master}
use libslave.Slave.Requests.{request_dump}
use libslave.Slave.Checks.{do_checksum_handshake, get_last_binlog_pos}
use libslave.Slave.Loop.{Session, on_slave, on_packet, catching}
use libslave.Slave.Connect.{
  Connection, load_saved, load_position, start_at, send, ask, connected, Reply, packet,
  packet_error, packet_end_data, received, Turn, connecting_now, reconnect, on_reply, waiting, turn,
  go_on, run,
}
use libslave.Slave.Synced.{IsSynced, InSync}
use libslave.Slave.Handlers.{report_position-IsSynced, on_packet-InSync}

pub catching-InSync :
    (r : Outcome (Option (Unit {0})) × Session) → InSync r.1 → InSync (catching r).1
unfolding catching InSync IsSynced
catching-InSync (ok a, s) h = h
catching-InSync (fault, s) h = h
catching-InSync (throws e, s) h = elim (Bool-cases s.slave.event_stat) [
  | inl q ↦ rw q h
  | inr q ↦ rw q h
]

-- The position saved is the one that `ext_state` answers with.
abbrev Saved : Slave → Position × Bool → Type 0
Saved s (p, found) =
    found ≡ true → in_transaction s.ext_state.position s.ext_state.intransaction_pos ≡ p

load_saved-IsSynced :
    (status : List SqlRow) (r : Position × Bool) (s t : Slave) (u : Unit {0})
    → Saved s r
    → load_saved status r s ≡ (ok u, t)
    → IsSynced t
unfolding load_saved IsSynced
load_saved-IsSynced status (p, true) s t u saved h = rw (← ap (λ x. x.1) h) (saved refl)
load_saved-IsSynced status (p, false) s t u saved h =
    let (last, v, read, e) =
      bind_ok (lift (get_last_binlog_pos status)) (λ last. modify (start_at last))
        (record s { position = p }) t u h in
    rw (← ap (λ x. x.1) e)
      (unfold start_at in report_position-IsSynced (record v { position = last }))

get_master_position-Saved : (s : Slave) → Saved s (Default.get_master_position s.ext_state)
unfolding Default.get_master_position
get_master_position-Saved s = elim (Bool-cases (empty s.ext_state.position)) [
  | inl e ↦ rw e (λ h. cc)
  | inr e ↦ rw e (λ h. refl)
]

pub on_slave-ends :
    {A : Type 0} (m : M Slave A) (s t : Session) (a : A)
    → on_slave m s ≡ (ok a, t)
    → m s.slave ≡ (ok a, t.slave)
on_slave-ends m s t a h = ap (λ x. (x.0, x.1.slave)) h

-- A request that is sent leaves the object as it is.
pub send-ends :
    (refuses : Bool) (r : Outcome Bytes) (s t : Session) (request : Bytes)
    → send refuses r s ≡ (ok request, t)
    → (r ≡ ok request) × (s.slave ≡ t.slave)
unfolding send
send-ends true (ok p) s t request h = cc
send-ends false (ok p) s t request h = (ap (λ x. x.0) h, ap (λ x. x.1.slave) h)
send-ends refuses (throws e) s t request h = cc
send-ends refuses fault s t request h = cc

module _ (find_type : Bytes → ℕ) (c : Platform) (connection : Connection) where
  -- Every connection that is made leaves the two positions equal, and asks for the dump at them.
  pub connected-InSync :
      (s t : Session) (request : Bytes)
      → connected find_type c connection s ≡ (ok request, t)
      → InSync t
        × (request_dump c.wire t.slave.m_gtid_enabled t.slave.m_server_id t.slave.position
            ≡ ok request)
  unfolding connected ask InSync
  connected-InSync s t request h =
      let (_, u, before, asked) =
        bind_ok
          (on_slave (do_checksum_handshake find_type connection.handshake)
            >>= (λ _. on_slave (load_position connection.master_status)))
          (λ _. ask c connection) s t request h in
      let (_, v, shaken, loaded) =
        bind_ok (on_slave (do_checksum_handshake find_type connection.handshake))
          (λ _. on_slave (load_position connection.master_status)) s u tt before in
      let (r, e) = send-ends connection.refuses _ u t request asked in
      let synced =
        load_saved-IsSynced connection.master_status (Default.get_master_position v.slave.ext_state)
          v.slave u.slave tt (get_master_position-Saved v.slave)
          (unfold load_position in
            on_slave-ends (load_position connection.master_status) v u tt loaded) in
      (rw (← e) synced, rw (← e) r)

module _ (blank : Table) (master : Master) (c : Platform) (crc32 : ℕ → Bytes → ℕ)
    (find_type : Bytes → ℕ) where
  reconnect-InSync :
      (connection : Connection) (s t : Session) (r : Option (Unit {0}))
      → reconnect blank master c crc32 find_type connection s ≡ (ok r, t)
      → InSync t
  unfolding reconnect
  reconnect-InSync connection s t r h =
      let (request, u, made, done) =
        bind_ok
          (on_slave (modify (connecting_now blank master c crc32 find_type connection))
            >>= (λ _. connected find_type c connection))
          (λ _. pure (some tt)) s t r h in
      let (_, v, _, made') =
        bind_ok (on_slave (modify (connecting_now blank master c crc32 find_type connection)))
          (λ _. connected find_type c connection) s u request made in
      rw (← ap (λ x. x.1) done) ((connected-InSync find_type c connection v u request made').0)

  on_reply-InSync :
      (now : ℕ) (connection : Connection) (reply : Reply) (s t : Session) (r : Option (Unit {0}))
      → InSync s
      → on_reply blank master c crc32 find_type now connection reply s ≡ (ok r, t)
      → InSync t
  unfolding on_reply
  on_reply-InSync now connection (packet p) s t r sync h = rw (← ap (λ x. x.1) h) (
      catching-InSync (on_packet now blank master c crc32 p s)
        (Keeps-at InSync _ (on_packet-InSync now blank master c crc32 p) s sync))
  on_reply-InSync now connection packet_error s t r sync h = reconnect-InSync connection s t r h
  on_reply-InSync now connection packet_end_data s t r sync h = reconnect-InSync connection s t r h

  turn-InSync :
      (t : Turn) (s s' : Session) (r : Option (Unit {0}))
      → InSync s
      → turn blank master c crc32 find_type t s ≡ (ok r, s')
      → InSync s'
  unfolding turn
  turn-InSync t s s' r sync h =
      let (_, v, ready, replied) =
        bind_ok (on_slave (modify (waiting blank master c crc32 find_type)))
          (λ _. on_reply blank master c crc32 find_type t.now t.connection (received t.reply)) s s'
          r h in
      let still : InSync v =
        rw (← ap (λ x. x.1) ready)
          (unfold InSync IsSynced waiting Default.set_state_processing in sync) in
      on_reply-InSync t.now t.connection (received t.reply) v s' r still replied

  go_on-InSync :
      (rest : M Session (Option (Unit {0})))
      → ((u t : Session) (r : Option (Unit {0})) → InSync u → rest u ≡ (ok r, t) → InSync t)
      → (done : Option (Unit {0})) (u t : Session) (r : Option (Unit {0})) → InSync u
      → go_on blank master c crc32 find_type rest done u ≡ (ok r, t)
      → InSync t
  unfolding go_on
  go_on-InSync rest ih none u t r sync e = rw (← ap (λ x. x.1) e) sync
  go_on-InSync rest ih (some x) u t r sync e = ih u t r sync e

  -- From a session where the two positions are equal the loop keeps them so, whatever packets,
  -- exceptions and reconnections come, where it ends without an exception.
  pub run-InSync :
      (turns : List Turn) (s t : Session) (r : Option (Unit {0}))
      → InSync s
      → run blank master c crc32 find_type turns s ≡ (ok r, t)
      → InSync t
  unfolding run
  run-InSync [] s t r sync h = rw (← ap (λ x. x.1) h) sync
  run-InSync (now ∷ turns) s t r sync h =
      let rest = run blank master c crc32 find_type turns in
      let (done, u, first, later) =
        bind_ok (turn blank master c crc32 find_type now)
          (go_on blank master c crc32 find_type rest) s t r h in
      go_on-InSync rest (run-InSync turns) done u t r (turn-InSync now s u done sync first) later
