-- ===== src/Remote/Binlog.antt =====
-- Slave.cpp: the whole of `get_remote_binlog`: the interrupt flag, what happens where the connection
-- is lost, and how the call is left.
use libslave.Common.{
  ℕ, Bool, true, false, ◌&&◌, ◌==◌, Bytes, List, [], ◌∷◌, Outcome, ok, throws, fault, if◌then◌else◌,
  some, none, Option,
}
use libslave.Common.Effects.{M, ◌>>=◌, ◌>>◌, lift, pure, modify}
use libslave.State.Default
use libslave.Field.Unpack.{Platform}
use libslave.Table.Defs.{Table}
use libslave.Slave.Schema.{SqlRow}
use libslave.Slave.Process.{Master}
use libslave.Slave.Requests.{register_packet, generate_slave_id}
use libslave.Slave.Loop.{Session, on_packet, catching}
use libslave.Slave.Connect.{
  Connection, connected, Turn, Reply, packet, packet_error, packet_end_data, received,
}
use libslave.Remote.Defs.{
  Remote, act, sig_unblock, com_quit, on_state, connect, register_slave, get_hostname, leave,
}

-- A turn, with what `_interruptFlag` answers at its head and where the connection is lost, the error
-- number there, and whether a handle is made for the new connection.
pub record Round : Type 0 where
  pub turn : Turn
  pub interrupted : Bool
  pub mysql_errno : ℕ
  pub interrupted_there : Bool
  pub handle : Bool

-- What surrounds the loop: the thread, the answer to SHOW SLAVE HOSTS, the time and the process id,
-- the host's name, the first connection, its handle, and whether the master refuses the slave.
pub record Setting : Type 0 where
  pub thread : ℕ
  pub slave_hosts : List SqlRow
  pub seed : ℕ
  pub hostname : Option Bytes
  pub first : Connection
  pub handle : Bool
  pub refuses : Bool

-- A call on the session, in the whole.
abbrev pub on_session : {A : Type 0} → M Session A → M Remote A
on_session m r = let (x, s) = m r.session in (x, record r { session = s })

unfoldable pub set_id : Option ℕ → M Remote (Option (Unit {0}))
set_id none r = (ok none, r)
set_id (some id) r = (
  ok (some tt),
  record r {
    session = record (r.session) { slave = record (r.session.slave) { m_server_id = id } };
  },
)

unfoldable pub generate_id : Setting → M Remote (Option (Unit {0}))
unfolding generate_slave_id set_id
generate_id set = lift (generate_slave_id set.slave_hosts set.seed) >>= set_id

abbrev pub continue_if :
    M Remote (Option (Unit {0})) → Option (Unit {0}) → M Remote (Option (Unit {0}))
continue_if rest none = pure none
continue_if rest (some u) = rest

module _ (blank : Table) (master : Master) (c : Platform) (crc32 : ℕ → Bytes → ℕ)
    (find_type : Bytes → ℕ) where
  -- From the label `connected` to the loop.
  unfoldable pub handshake : Connection → M Remote (Option (Unit {0}))
  unfolding connected
  handshake connection =
      on_session (connected find_type c connection) >>= (λ request. pure (some tt))

  -- `connect(true)` stands in the `try` block, and the jump to `connected` goes out of it.
  unfoldable pub and_handshake :
      Connection → Outcome (Unit {0}) × Remote → Outcome (Option (Unit {0})) × Remote
  unfolding handshake catching
  and_handshake connection (ok u, r) = handshake connection r
  and_handshake connection (throws e, r) = on_session (λ s. catching (throws e, s)) r
  and_handshake connection (fault, r) = (fault, r)

  unfoldable pub connect_again : ℕ → Round → M Remote (Option (Unit {0}))
  unfolding connect and_handshake
  connect_again thread x r =
      and_handshake x.turn.connection
        (connect thread true x.turn.connection.connecting x.handle x.turn.connection.retries r)

  -- Error 2013 is a lost connection, which `close_connection` makes.
  unfoldable pub on_lost : ℕ → Round → M Remote (Option (Unit {0}))
  unfolding connect_again Default.set_state_processing
  on_lost thread x =
      modify (on_state (Default.set_state_processing true))
      >> (if x.mysql_errno == 2013 && x.interrupted_there
          then pure (some tt)
          else connect_again thread x)

  unfoldable pub on_reply : ℕ → Round → Reply → M Remote (Option (Unit {0}))
  unfolding on_packet catching on_lost
  on_reply thread x (packet p) =
      on_session (λ s. catching (on_packet x.turn.now blank master c crc32 p s))
  on_reply thread x packet_error = on_lost thread x
  on_reply thread x packet_end_data = on_lost thread x

  unfoldable pub round : ℕ → Round → M Remote (Option (Unit {0}))
  unfolding on_reply received Default.set_state_processing
  round thread x =
      modify (on_state (Default.set_state_processing false))
      >> on_reply thread x (received x.turn.reply)

  -- `while (!_interruptFlag()) { … }`. `none` is a loop that is not left in these rounds.
  unfoldable pub loop : ℕ → List Round → M Remote (Option (Unit {0}))
  unfolding round
  loop thread [] = pure none
  loop thread (x ∷ xs) =
      if x.interrupted then pure (some tt) else round thread x >>= continue_if (loop thread xs)

  unfoldable pub register_slave_on_master : Setting → M Remote (Unit {0})
  unfolding register_slave register_packet get_hostname
  register_slave_on_master set r =
      register_slave
        (register_packet c.wire r.session.slave.m_server_id (get_hostname set.hostname)) set.refuses
        r

  unfoldable pub deregister_slave_on_master : M Remote (Option (Unit {0}))
  unfolding act
  deregister_slave_on_master = modify (act com_quit) >>= (λ _. pure (some tt))

  -- What stands in the scope of the connector.
  unfoldable pub monitor : Setting → List Round → M Remote (Option (Unit {0}))
  unfolding register_slave_on_master handshake loop deregister_slave_on_master
  monitor set xs =
      register_slave_on_master set
      >> (handshake set.first
          >>= continue_if (loop set.thread xs >>= continue_if deregister_slave_on_master))

  -- A constructor that throws leaves nothing to destroy.
  unfoldable pub scoped :
      Setting → List Round → Outcome (Unit {0}) × Remote → Outcome (Option (Unit {0})) × Remote
  unfolding monitor leave
  scoped set xs (ok u, r) = leave (monitor set xs r)
  scoped set xs (throws e, r) = (throws e, r)
  scoped set xs (fault, r) = (fault, r)

  unfoldable pub connected_loop : Setting → List Round → M Remote (Option (Unit {0}))
  unfolding connect scoped
  connected_loop set xs r =
      scoped set xs (connect set.thread false set.first.connecting set.handle set.first.retries r)

  unfoldable pub get_remote_binlog : Setting → List Round → M Remote (Option (Unit {0}))
  unfolding act generate_id connected_loop
  get_remote_binlog set xs =
      modify (act sig_unblock) >> (generate_id set >>= continue_if (connected_loop set xs))
