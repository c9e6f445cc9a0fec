-- ===== src/Remote/Lost.antt =====
-- Slave.cpp: `get_remote_binlog` where the client library makes no handle.
use libslave.Common.{
  ℕ, suc, ◌≡◌, ◌≢◌, refl, sym, ap, ◌∙◌, Bool, true, false, ◌&&◌, ◌==◌, ◌∷◌, List, Option, ok,
  throws, fault, Outcome, Error, some, none, no_handle, Bytes, arith,
}
use libslave.Field.Unpack.{Platform}
use libslave.Table.Defs.{Table}
use libslave.State.Default
use libslave.Slave.Process.{Master}
use libslave.Slave.Requests.{generate_slave_id}
use libslave.Slave.Loop.{catching}
use libslave.Slave.Connect.{received}
use libslave.Remote.Defs.{
  Remote, act, on_state, lock, unlock, shutdown, pthread_kill, sig_unblock, set_connecting, taken,
  opened, connect, disconnect, close_connection,
}
use libslave.Remote.Binlog.{
  Round, Setting, generate_id, set_id, scoped, connected_loop, get_remote_binlog, on_lost, on_reply,
  connect_again, and_handshake, round,
}
use libslave.Remote.Counts.{IsOpen, made_and_closed}

connect-no_handle :
    (thread now : ℕ) (again handle : Bool) (retries : List ℕ) (r : Remote)
    → handle ≡ false
    → ((connect thread again now handle retries r).0 ≡ throws no_handle)
      × ((connect thread again now handle retries r).1.m_slave_thread_id ≡ thread)
unfolding connect opened taken act
connect-no_handle thread now true true retries r e = cc
connect-no_handle thread now false true retries r e = cc
connect-no_handle thread now true false retries r e = (refl, refl)
connect-no_handle thread now false false retries r e = (refl, refl)

close_connection-named :
    (r : Remote)
    → r.m_slave_thread_id ≢ 0
    → (close_connection r).acts
      ≡ unlock ∷ pthread_kill r.m_slave_thread_id ∷ shutdown ∷ lock ∷ r.acts
unfolding close_connection act
close_connection-named r h = ground arith

-- An exception that leaves a thread named, and what `close_connection` does then.
abbrev pub IsDangling : ℕ → Outcome (Option (Unit {0})) × Remote → Type 0
IsDangling thread (x, t) =
    (x ≡ throws no_handle)
    × ((close_connection t).acts ≡ unlock ∷ pthread_kill thread ∷ shutdown ∷ lock ∷ t.acts)

-- The loop goes on where no handle is open, and leaving it closes one more than were made.
abbrev pub IsTwiceClosed : Outcome (Option (Unit {0})) × Remote → Type 0
IsTwiceClosed (x, t) =
    (x ≡ ok (some tt))
    × ((made_and_closed t.acts).0 ≡ (made_and_closed t.acts).1)
    × ((made_and_closed (disconnect t).acts).1 ≡ suc (made_and_closed (disconnect t).acts).0)

twice_closed :
    (x : Outcome (Option (Unit {0})) × Remote)
    → x.0 ≡ ok (some tt)
    → (made_and_closed x.1.acts).0 ≡ (made_and_closed x.1.acts).1
    → IsTwiceClosed x
unfolding disconnect act
twice_closed (x, t) e h = (e, h, omega (arith, h))

connect-closed :
    (thread now : ℕ) (handle : Bool) (retries : List ℕ) (r : Remote)
    → handle ≡ false
    → IsOpen thread r
    → (made_and_closed (connect thread true now handle retries r).1.acts).0
      ≡ (made_and_closed (connect thread true now handle retries r).1.acts).1
unfolding connect opened taken disconnect set_connecting act
connect-closed thread now true retries r e h = cc
connect-closed thread now false retries r e h = h.1

pub and_false : (a b : Bool) → b ≡ false → (a && b) ≡ false
and_false true b h = h
and_false false b h = refl

module _ (blank : Table) (master : Master) (c : Platform) (crc32 : ℕ → Bytes → ℕ)
    (find_type : Bytes → ℕ) where
  scoped-throws :
      (set : Setting) (xs : List Round) (x : Outcome (Unit {0}) × Remote) (e : Error)
      → x.0 ≡ throws e
      → scoped blank master c crc32 find_type set xs x ≡ (throws e, x.1)
  unfolding scoped
  scoped-throws set xs (ok u, r) e h = cc
  scoped-throws set xs (throws e', r) e h = cc
  scoped-throws set xs (fault, r) e h = cc

  loop-no_handle :
      (set : Setting) (xs : List Round) (r : Remote)
      → set.handle ≡ false
      → set.thread ≢ 0
      → IsDangling set.thread (connected_loop blank master c crc32 find_type set xs r)
  unfolding connected_loop
  loop-no_handle set xs r unmade named =
      let (thrown, id) =
        connect-no_handle set.thread set.first.connecting false set.handle set.first.retries r
          unmade in
      let made = connect set.thread false set.first.connecting set.handle set.first.retries r in
      rw (scoped-throws set xs made no_handle thrown) (
        refl,
        close_connection-named made.1 (λ h. named (sym id ∙ h))
            ∙ ap (λ t. unlock ∷ pthread_kill t ∷ shutdown ∷ lock ∷ made.1.acts) id,
      )

  -- Where no handle is made for the first connection, the call throws and leaves its thread named:
  -- a later `close_connection` shuts down the socket of a handle that was never made and signals the
  -- thread, though it reads no log any more.
  pub get_remote_binlog-no_handle :
      (set : Setting) (xs : List Round) (r : Remote) (id : ℕ)
      → set.handle ≡ false
      → set.thread ≢ 0
      → generate_slave_id set.slave_hosts set.seed ≡ ok (some id)
      → IsDangling set.thread (get_remote_binlog blank master c crc32 find_type set xs r)
  unfolding get_remote_binlog generate_id set_id
  get_remote_binlog-no_handle set xs r id unmade named found =
      rw found (loop-no_handle set xs (set_id (some id) (act sig_unblock r)).1 unmade named)

  and_handshake-throws :
      (x : Round) (made : Outcome (Unit {0}) × Remote) (e : Error)
      → made.0 ≡ throws e
      → ((and_handshake blank master c crc32 find_type x.turn.connection made).0 ≡ ok (some tt))
        × ((and_handshake blank master c crc32 find_type x.turn.connection made).1.acts
            ≡ made.1.acts)
  unfolding and_handshake catching
  and_handshake-throws x (ok u, r) e h = cc
  and_handshake-throws x (throws e', r) e h = (refl, refl)
  and_handshake-throws x (fault, r) e h = cc

  connect_again-IsTwiceClosed :
      (thread : ℕ) (x : Round) (r : Remote)
      → IsOpen thread r
      → x.handle ≡ false
      → IsTwiceClosed (connect_again blank master c crc32 find_type thread x r)
  unfolding connect_again
  connect_again-IsTwiceClosed thread x r opens unmade =
      let made =
        connect thread true x.turn.connection.connecting x.handle x.turn.connection.retries r in
      let (thrown, id) =
        connect-no_handle thread x.turn.connection.connecting true x.handle
          x.turn.connection.retries r unmade in
      let (goes_on, same) = and_handshake-throws x made no_handle thrown in
      twice_closed (and_handshake blank master c crc32 find_type x.turn.connection made) goes_on (
        rw same (
          connect-closed thread x.turn.connection.connecting x.handle x.turn.connection.retries r
            unmade opens))

  on_lost-IsTwiceClosed :
      (thread : ℕ) (x : Round) (r : Remote)
      → IsOpen thread r
      → x.handle ≡ false
      → x.interrupted_there ≡ false
      → IsTwiceClosed (on_lost blank master c crc32 find_type thread x r)
  unfolding on_lost
  on_lost-IsTwiceClosed thread x r opens unmade still =
      rw (and_false (x.mysql_errno == 2013) x.interrupted_there still) (
        connect_again-IsTwiceClosed thread x (on_state (Default.set_state_processing true) r) opens
          unmade)

  -- Where the connection is lost and no handle is made for the next, the exception is caught, the
  -- loop goes on to read from a handle that is closed, and leaving the loop closes it again.
  pub round-IsTwiceClosed :
      (thread : ℕ) (x : Round) (r : Remote)
      → IsOpen thread r
      → x.handle ≡ false
      → x.interrupted_there ≡ false
      → x.turn.reply ≡ none
      → IsTwiceClosed (round blank master c crc32 find_type thread x r)
  unfolding round on_reply received
  round-IsTwiceClosed thread x r opens unmade still lost = rw lost (
      on_lost-IsTwiceClosed thread x (on_state (Default.set_state_processing false) r) opens unmade
        still)
