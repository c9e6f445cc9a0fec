-- ===== src/Slave/Connect.antt =====
-- Slave.cpp: `raii_mysql_connector::connect`, the part of `get_remote_binlog` from the label
-- `connected` on, `read_event`, and the loop over what the connection gives.
use libslave.Common.{
  ℕ, Bool, true, false, ◌&&◌, ◌==◌, Bytes, List, [], ◌∷◌, Outcome, ok, throws, fault, if◌then◌else◌,
  some, none, Option, length, ltb, command_failed,
}
use libslave.Common.Effects.{M, ◌>>=◌, lift, pure, modify}
use libslave.Position.Defs.{Position}
use libslave.State.Default
use libslave.State.Defs.{State}
use libslave.Field.Unpack.{Platform}
use libslave.Table.Defs.{Table}
use libslave.Slave.Schema.{SqlRow}
use libslave.Slave.Defs.{Slave}
use libslave.Slave.Process.{Master}
use libslave.Slave.Requests.{request_dump}
use libslave.Slave.Checks.{Handshake, do_checksum_handshake, get_last_binlog_pos}
use libslave.Slave.Loop.{Session, no_gtid, on_slave, report_position, on_packet, catching}

-- A connection: when it is tried and tried again, the answers on it, and whether it refuses the
-- command that asks for the dump.
pub record Connection : Type 0 where
  pub connecting : ℕ
  pub retries : List ℕ
  pub handshake : Handshake
  pub master_status : List SqlRow
  pub refuses : Bool

-- `setConnecting` comes before the first attempt and after each that fails.
unfoldable pub connect : List ℕ → State → State
unfolding Default.set_connecting
connect [] s = s
connect (now ∷ retries) s = connect retries (Default.set_connecting now s)

-- The position that is saved in `ext_state`, or else the master's last one.
unfoldable pub start_at : Position → Slave → Slave
unfolding Default.set_master_position
start_at last s = report_position (record s { position = last })

unfoldable pub load_saved : List SqlRow → Position × Bool → M Slave (Unit {0})
unfolding get_last_binlog_pos start_at
load_saved master_status (saved, true) s = (ok tt, record s { position = saved })
load_saved master_status (saved, false) s =
    (lift (get_last_binlog_pos master_status) >>= (λ last. modify (start_at last)))
      (record s { position = saved })

unfoldable pub load_position : List SqlRow → M Slave (Unit {0})
unfolding Default.get_master_position load_saved
load_position master_status s = load_saved master_status (Default.get_master_position s.ext_state) s

-- The command that asks for the dump, and whether it is refused.
unfoldable pub send : Bool → Outcome Bytes → M Session Bytes
send true (ok request) s = (throws command_failed, s)
send false (ok request) s = (ok request, record s { gtid_next = no_gtid })
send refuses (throws e) s = (throws e, s)
send refuses fault s = (fault, s)

unfoldable pub ask : Platform → Connection → M Session Bytes
unfolding send request_dump
ask c connection s =
    send connection.refuses
      (request_dump c.wire s.slave.m_gtid_enabled s.slave.m_server_id s.slave.position) s

-- From `connected` to the loop: the request that is sent. `find_type` is the client library's.
unfoldable pub connected : (Bytes → ℕ) → Platform → Connection → M Session Bytes
unfolding do_checksum_handshake load_position ask
connected find_type c connection =
    on_slave (do_checksum_handshake find_type connection.handshake)
    >>= (λ _. on_slave (load_position connection.master_status))
    >>= (λ _. ask c connection)

-- What `read_event` gives: a packet, or no more packets.
pub data Reply : Type 0 where
  packet : Bytes → Reply
  packet_error packet_end_data : Reply

abbrev first_is : ℕ → Bytes → Bool
first_is n [] = false
first_is n (b ∷ p) = b == n

-- `cli_safe_read` gives a packet or an error.
unfoldable pub read_event : Option Bytes → Reply
read_event none = packet_error
read_event (some p) = if ltb (length p) 8 && first_is 254 p then packet_end_data else packet p

-- `len == packet_error || len == packet_end_data`: `packet_end_data` is 1, which the length of a packet
-- may be too.
unfoldable pub received : Option Bytes → Reply
unfolding read_event
received reply = elim (read_event reply) [
  | packet p ↦ if length p == 1 then packet_end_data else packet p
  | packet_error ↦ packet_error
  | packet_end_data ↦ packet_end_data
]

-- A turn of the loop: the time, what is read, and the connection that is made where it is lost.
pub record Turn : Type 0 where
  pub now : ℕ
  pub reply : Option Bytes
  pub connection : Connection

module _ (blank : Table) (master : Master) (c : Platform) (crc32 : ℕ → Bytes → ℕ)
    (find_type : Bytes → ℕ) where
  -- `setStateProcessing(true)` comes before the reply is looked at.
  -- An exception of `connected` leaves the loop: the jump goes out of the `try` block.
  unfoldable pub connecting_now : Connection → Slave → Slave
  unfolding connect Default.set_state_processing
  connecting_now connection s = record s {
    ext_state =
        connect (connection.connecting ∷ connection.retries)
          (Default.set_state_processing true s.ext_state);
  }

  unfoldable pub reconnect : Connection → M Session (Option (Unit {0}))
  unfolding connecting_now connected
  reconnect connection =
      on_slave (modify (connecting_now connection))
      >>= (λ _. connected find_type c connection)
      >>= (λ _. pure (some tt))

  unfoldable pub on_reply : ℕ → Connection → Reply → M Session (Option (Unit {0}))
  unfolding on_packet reconnect catching
  on_reply now connection (packet p) s = catching (on_packet now blank master c crc32 p s)
  on_reply now connection packet_error s = reconnect connection s
  on_reply now connection packet_end_data s = reconnect connection s

  unfoldable pub waiting : Slave → Slave
  unfolding Default.set_state_processing
  waiting s = record s { ext_state = Default.set_state_processing false s.ext_state }

  unfoldable pub turn : Turn → M Session (Option (Unit {0}))
  unfolding on_reply received waiting
  turn t = on_slave (modify waiting) >>= (λ _. on_reply t.now t.connection (received t.reply))

  unfoldable pub go_on :
      M Session (Option (Unit {0})) → Option (Unit {0}) → M Session (Option (Unit {0}))
  go_on rest none = pure none
  go_on rest (some u) = rest

  -- `none` is a turn whose loop over rows did not end.
  unfoldable pub run : List Turn → M Session (Option (Unit {0}))
  unfolding turn go_on
  run [] = pure (some tt)
  run (t ∷ turns) = turn t >>= go_on (run turns)
