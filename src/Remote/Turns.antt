-- ===== src/Remote/Turns.antt =====
-- Slave.cpp: the two copies of the position over a turn of the loop in `get_remote_binlog`.
use libslave.Common.{
  ℕ, ◌≡◌, ap, Bool, true, false, ◌&&◌, ◌==◌, Bytes, List, [], ◌∷◌, Outcome, ok, throws, fault, some,
  Option, inl, inr, Bool-cases,
}
use libslave.Common.Effects.{pure, bind_ok, Keeps-at}
use libslave.State.Default
use libslave.Field.Unpack.{Platform}
use libslave.Table.Defs.{Table}
use libslave.Slave.Process.{Master}
use libslave.Slave.Loop.{on_packet}
use libslave.Slave.Connect.{
  Connection, connected, Reply, packet, packet_error, packet_end_data, received,
}
use libslave.Slave.Synced.{IsSynced, InSync}
use libslave.Slave.Handlers.{on_packet-InSync}
use libslave.Slave.Resume.{connected-InSync, catching-InSync}
use libslave.Remote.Defs.{
  Remote, act, mysql_init, on_state, set_connecting, connect, opened, taken, disconnect, attempts,
}
use libslave.Remote.Binlog.{
  Round, on_session, handshake, and_handshake, connect_again, on_lost, on_reply, round,
}

abbrev pub Synced : Remote → Type 0
Synced r = InSync r.session

on_state-Synced :
    (f : Bool) (r : Remote) → Synced r → Synced (on_state (Default.set_state_processing f) r)
unfolding InSync IsSynced Default.set_state_processing
on_state-Synced f r h = h

attempts-Synced : (retries : List ℕ) (r : Remote) → Synced r → Synced (attempts retries r)
unfolding attempts act set_connecting
attempts-Synced [] r h = h
attempts-Synced (now ∷ retries) r h =
    attempts-Synced retries _ (unfold InSync IsSynced Default.set_connecting in h)

opened-Synced :
    (handle : Bool) (retries : List ℕ) (r : Remote) → Synced r → Synced (opened handle retries r).1
unfolding opened act
opened-Synced true retries r h = attempts-Synced retries (act (mysql_init true) r) h
opened-Synced false retries r h = h

connect-Synced :
    (thread now : ℕ) (handle : Bool) (retries : List ℕ) (r : Remote)
    → Synced r
    → Synced (connect thread true now handle retries r).1
unfolding connect
connect-Synced thread now handle retries r h =
    opened-Synced handle retries (taken thread (disconnect (set_connecting now r)))
      (unfold taken disconnect act set_connecting InSync IsSynced Default.set_connecting in h)

module _ (blank : Table) (master : Master) (c : Platform) (crc32 : ℕ → Bytes → ℕ)
    (find_type : Bytes → ℕ) where
  pub handshake-Synced :
      (connection : Connection) (r t : Remote) (x : Option (Unit {0}))
      → handshake blank master c crc32 find_type connection r ≡ (ok x, t)
      → Synced t
  unfolding handshake
  handshake-Synced connection r t x h =
      let (request, u, made, done) =
        bind_ok (on_session (connected find_type c connection)) (λ request. pure (some tt)) r t x
          h in
      rw (← ap (λ y. y.1.session) done) (
        (connected-InSync find_type c connection r.session u.session request
          (ap (λ y. (y.0, y.1.session)) made)).0)

  and_handshake-Synced :
      (connection : Connection) (m : Outcome (Unit {0}) × Remote) (t : Remote)
      (x : Option (Unit {0}))
      → Synced m.1
      → and_handshake blank master c crc32 find_type connection m ≡ (ok x, t)
      → Synced t
  unfolding and_handshake
  and_handshake-Synced connection (ok u, r) t x sync h = handshake-Synced connection r t x h
  and_handshake-Synced connection (throws e, r) t x sync h =
      rw (← ap (λ y. y.1.session) h) (catching-InSync (throws e, r.session) sync)
  and_handshake-Synced connection (fault, r) t x sync h = cc

  on_lost-Synced :
      (thread : ℕ) (y : Round) (r t : Remote) (x : Option (Unit {0}))
      → Synced r
      → on_lost blank master c crc32 find_type thread y r ≡ (ok x, t)
      → Synced t
  unfolding on_lost connect_again
  on_lost-Synced thread y r t x sync h = elim (Bool-cases stops) [
    | inl e ↦ rw (← ap (λ z. z.1.session) (rw e at h)) (on_state-Synced true r sync)
    | inr e ↦
        and_handshake-Synced y.turn.connection
          (connect thread true y.turn.connection.connecting y.handle y.turn.connection.retries
            (on_state (Default.set_state_processing true) r))
          t x
          (connect-Synced thread y.turn.connection.connecting y.handle y.turn.connection.retries
            (on_state (Default.set_state_processing true) r) (on_state-Synced true r sync))
          (rw e at h)
  ]
    where
      stops : Bool
      stops = y.mysql_errno == 2013 && y.interrupted_there

  on_reply-Synced :
      (thread : ℕ) (y : Round) (reply : Reply) (r t : Remote) (x : Option (Unit {0}))
      → Synced r
      → on_reply blank master c crc32 find_type thread y reply r ≡ (ok x, t)
      → Synced t
  unfolding on_reply
  on_reply-Synced thread y (packet p) r t x sync h = rw (← ap (λ z. z.1.session) h) (
      catching-InSync (on_packet y.turn.now blank master c crc32 p r.session)
        (Keeps-at InSync _ (on_packet-InSync y.turn.now blank master c crc32 p) r.session sync))
  on_reply-Synced thread y packet_error r t x sync h = on_lost-Synced thread y r t x sync h
  on_reply-Synced thread y packet_end_data r t x sync h = on_lost-Synced thread y r t x sync h

  pub round-Synced :
      (thread : ℕ) (y : Round) (r t : Remote) (x : Option (Unit {0}))
      → Synced r
      → round blank master c crc32 find_type thread y r ≡ (ok x, t)
      → Synced t
  unfolding round
  round-Synced thread y r t x sync h =
      on_reply-Synced thread y (received y.turn.reply)
        (on_state (Default.set_state_processing false) r) t x (on_state-Synced false r sync) h
