-- ===== src/Remote/Defs.antt =====
-- Slave.cpp: `raii_mysql_connector`, `close_connection`, `get_hostname`, `sigUnblock`,
-- `register_slave_on_master`, `deregister_slave_on_master`: what they do to the connection.
use libslave.Common.{
  ℕ, Bool, true, false, ◌==◌, Bytes, List, [], ◌∷◌, Outcome, ok, throws, fault, if◌then◌else◌, some,
  none, Option, codes, command_failed, no_handle,
}
use libslave.Common.Effects.{M, ◌>>◌, lift, pure, modify, when}
use libslave.State.Defs.{State}
use libslave.State.Default
use libslave.Slave.Loop.{Session}

-- The calls on the mutex, the client library and the system. `mysql_init` has a handle or not,
-- `mysql_real_connect` succeeds or not.
pub data Act : Type 0 where
  sig_unblock lock unlock mysql_close sleep shutdown : Act
  mysql_init mysql_real_connect : Bool → Act
  com_register_slave : Bytes → Act
  com_quit : Act
  pthread_kill : (thread : ℕ) → Act

-- `m_slave_thread_id` is 0 where no thread reads the log. The calls are kept the last one first.
pub record Remote : Type 0 where
  pub session : Session
  pub m_slave_thread_id : ℕ
  pub acts : List Act

unfoldable pub act : Act → Remote → Remote
act a r = record r { acts = a ∷ r.acts }

abbrev pub on_state : (State → State) → Remote → Remote
on_state f r = record r {
  session = record (r.session) {
    slave = record (r.session.slave) { ext_state = f r.session.slave.ext_state };
  };
}

-- `ext_state.setConnecting()`
unfoldable pub set_connecting : ℕ → Remote → Remote
unfolding Default.set_connecting
set_connecting now r = on_state (Default.set_connecting now) r

-- `raii_mysql_connector::disconnect`
unfoldable pub disconnect : Remote → Remote
unfolding act
disconnect r = act unlock (act mysql_close (record (act lock r) { m_slave_thread_id = 0 }))

-- `while (mysql_safe_connect(…) == 0) { setConnecting; sleep; }`, a time for each attempt that fails.
unfoldable pub attempts : List ℕ → Remote → Remote
unfolding act set_connecting
attempts [] r = act (mysql_real_connect true) r
attempts (now ∷ retries) r =
    attempts retries (act sleep (set_connecting now (act (mysql_real_connect false) r)))

-- `mysql_safe_init` and what comes behind it. The guard gives the mutex back in both cases.
unfoldable pub opened : Bool → List ℕ → M Remote (Unit {0})
unfolding act attempts
opened true retries r = (ok tt, act unlock (attempts retries (act (mysql_init true) r)))
opened false retries r = (throws no_handle, act unlock (act (mysql_init false) r))

unfoldable pub taken : ℕ → Remote → Remote
unfolding act
taken thread r = record (act lock r) { m_slave_thread_id = thread }

-- `raii_mysql_connector::connect`, by the thread that calls it.
unfoldable pub connect : ℕ → Bool → ℕ → Bool → List ℕ → M Remote (Unit {0})
unfolding set_connecting disconnect opened taken
connect thread again now handle retries =
    modify (set_connecting now)
    >> when again (modify disconnect)
    >> modify (taken thread)
    >> opened handle retries

-- `Slave::close_connection`, which another thread calls.
unfoldable pub close_connection : Remote → Remote
unfolding act
close_connection r =
    if r.m_slave_thread_id == 0
    then act unlock (act lock r)
    else act unlock (act (pthread_kill r.m_slave_thread_id) (act shutdown (act lock r)))

-- `gethostname` gives a name or fails.
unfoldable pub get_hostname : Option Bytes → Bytes
get_hostname none = codes "0.0.0.0"
get_hostname (some name) = name

-- `register_slave_on_master` where the packet is made: the master may refuse it.
unfoldable pub register_slave : Bytes → Bool → M Remote (Unit {0})
unfolding act
register_slave packet refuses =
    modify (act (com_register_slave packet))
    >> (if refuses then lift (throws command_failed) else pure tt)

-- The destructor of the connector, where its scope is left. `ok none` is a loop that goes on.
unfoldable pub leave : Outcome (Option (Unit {0})) × Remote → Outcome (Option (Unit {0})) × Remote
unfolding disconnect
leave (ok none, r) = (ok none, r)
leave (ok (some u), r) = (ok (some u), disconnect r)
leave (throws e, r) = (throws e, disconnect r)
leave (fault, r) = (fault, r)
