-- ===== src/Remote/Closed.antt =====
-- The connection of `get_remote_binlog` over the whole call.
use libslave.Common.{
  ℕ, ◌≡◌, true, false, ◌&&◌, ◌==◌, Bytes, List, [], ◌∷◌, Outcome, ok, throws, fault, some, none,
  Option, All, inl, inr, Bool-cases,
}
use libslave.Common.Effects.{
  M, after, modify, Keeps, Keeps-at, Keeps-bind, Keeps-lift, Keeps-if, Keeps-pure,
}
use libslave.Field.Unpack.{Platform}
use libslave.Table.Defs.{Table}
use libslave.Slave.Process.{Master}
use libslave.Slave.Requests.{generate_slave_id}
use libslave.Slave.Loop.{Session, on_packet, catching}
use libslave.Slave.Connect.{
  Connection, connected, Reply, packet, packet_error, packet_end_data, received,
}
use libslave.State.Defs.{State}
use libslave.State.Default
use libslave.Remote.Defs.{Remote, act, sig_unblock, on_state, connect, register_slave, leave}
use libslave.Remote.Binlog.{
  Round, Setting, on_session, set_id, generate_id, continue_if, handshake, and_handshake,
  connect_again, on_lost, on_reply, round, loop, register_slave_on_master,
  deregister_slave_on_master, monitor, scoped, connected_loop, get_remote_binlog,
}
use libslave.Remote.Counts.{IsClosed, IsOpen, disconnect-IsClosed, connect-first, connect-again}

-- What the session does leaves the connection as it is.
on_session-Keeps-IsOpen :
    {A : Type 0} (thread : ℕ) (m : M Session A) → Keeps (IsOpen thread) (on_session m)
unfolding Keeps
on_session-Keeps-IsOpen thread m r h = h

on_state-Keeps-IsOpen :
    (thread : ℕ) (f : State → State) → Keeps (IsOpen thread) (modify (on_state f))
unfolding Keeps
on_state-Keeps-IsOpen thread f r h = h

generate_id-Keeps-IsClosed : (set : Setting) → Keeps IsClosed (generate_id set)
unfolding generate_id
generate_id-Keeps-IsClosed set =
    Keeps-bind IsClosed _ set_id (Keeps-lift IsClosed (generate_slave_id set.slave_hosts set.seed))
      stays
  where
    stays : (id : Option ℕ) → Keeps IsClosed (set_id id)
    stays none = unfold Keeps set_id in λ r h. h
    stays (some id) = unfold Keeps set_id in λ r h. h

continue_if-Keeps :
    (P : Remote → Type 0) (rest : M Remote (Option (Unit {0})))
    → Keeps P rest
    → (x : Option (Unit {0})) → Keeps P (continue_if rest x)
continue_if-Keeps P rest h none = Keeps-pure P none
continue_if-Keeps P rest h (some u) = h

-- The call is left: by the interrupt flag or an exception.
abbrev pub HasLeft : Outcome (Option (Unit {0})) → Type 0
HasLeft (ok none) = ⊥
HasLeft (ok (some u)) = Unit {0}
HasLeft (throws e) = Unit {0}
HasLeft fault = ⊥

leave-IsClosed :
    (thread : ℕ) (x : Outcome (Option (Unit {0})) × Remote)
    → IsOpen thread x.1
    → HasLeft (leave x).0
    → IsClosed (leave x).1
unfolding leave
leave-IsClosed thread (ok none, r) h l = absurd l
leave-IsClosed thread (ok (some u), r) h l = disconnect-IsClosed thread r h
leave-IsClosed thread (throws e, r) h l = disconnect-IsClosed thread r h
leave-IsClosed thread (fault, r) h l = absurd l

module _ (blank : Table) (master : Master) (c : Platform) (crc32 : ℕ → Bytes → ℕ)
    (find_type : Bytes → ℕ) (thread : ℕ) where
  handshake-Keeps :
      (connection : Connection)
      → Keeps (IsOpen thread) (handshake blank master c crc32 find_type connection)
  unfolding handshake
  handshake-Keeps connection =
      Keeps-bind (IsOpen thread) (on_session (connected find_type c connection)) _
        (on_session-Keeps-IsOpen thread (connected find_type c connection))
        (λ request. Keeps-pure (IsOpen thread) (some tt))

  and_handshake-IsOpen :
      (connection : Connection) (x : Outcome (Unit {0}) × Remote)
      → x.0 ≡ ok tt
      → IsOpen thread x.1
      → IsOpen thread (and_handshake blank master c crc32 find_type connection x).1
  unfolding and_handshake
  and_handshake-IsOpen connection (ok u, r) e h =
      Keeps-at (IsOpen thread) (handshake blank master c crc32 find_type connection)
        (handshake-Keeps connection) r h
  and_handshake-IsOpen connection (throws x, r) e h = cc
  and_handshake-IsOpen connection (fault, r) e h = cc

  connect_again-Keeps :
      (x : Round)
      → x.handle ≡ true
      → Keeps (IsOpen thread) (connect_again blank master c crc32 find_type thread x)
  unfolding connect_again Keeps
  connect_again-Keeps x e r h =
      let (made, opens) =
        connect-again thread x.turn.connection.connecting x.handle x.turn.connection.retries r e
          h in
      and_handshake-IsOpen x.turn.connection
        (connect thread true x.turn.connection.connecting x.handle x.turn.connection.retries r) made
        opens

  on_lost-Keeps :
      (x : Round)
      → x.handle ≡ true
      → Keeps (IsOpen thread) (on_lost blank master c crc32 find_type thread x)
  unfolding on_lost
  on_lost-Keeps x e =
      Keeps-bind (IsOpen thread) _ _
        (on_state-Keeps-IsOpen thread (Default.set_state_processing true))
        (λ _.
          Keeps-if (IsOpen thread) (x.mysql_errno == 2013 && x.interrupted_there) _ _
            (Keeps-pure (IsOpen thread) (some tt)) (connect_again-Keeps x e))

  on_reply-Keeps :
      (x : Round)
      → x.handle ≡ true
      → (reply : Reply)
      → Keeps (IsOpen thread) (on_reply blank master c crc32 find_type thread x reply)
  unfolding on_reply
  on_reply-Keeps x e (packet p) =
      on_session-Keeps-IsOpen thread (λ s. catching (on_packet x.turn.now blank master c crc32 p s))
  on_reply-Keeps x e packet_error = on_lost-Keeps x e
  on_reply-Keeps x e packet_end_data = on_lost-Keeps x e

  round-Keeps :
      (x : Round)
      → x.handle ≡ true
      → Keeps (IsOpen thread) (round blank master c crc32 find_type thread x)
  unfolding round
  round-Keeps x e =
      Keeps-bind (IsOpen thread) _ _
        (on_state-Keeps-IsOpen thread (Default.set_state_processing false))
        (λ _. on_reply-Keeps x e (received x.turn.reply))

  register-Keeps :
      (set : Setting)
      → Keeps (IsOpen thread) (register_slave_on_master blank master c crc32 find_type set)
  unfolding register_slave_on_master Keeps register_slave
  register-Keeps set r h = elim (Bool-cases set.refuses) [
    | inl e ↦ rw e (unfold act in h)
    | inr e ↦ rw e (unfold act in h)
  ]

  deregister-Keeps :
      Keeps (IsOpen thread) (deregister_slave_on_master blank master c crc32 find_type)
  unfolding deregister_slave_on_master Keeps act
  deregister-Keeps r h = h

  loop-Keeps :
      (xs : List Round)
      → All (λ x. x.handle ≡ true) xs
      → Keeps (IsOpen thread) (loop blank master c crc32 find_type thread xs)
  unfolding loop
  loop-Keeps [] h = Keeps-pure (IsOpen thread) none
  loop-Keeps (x ∷ xs) h =
      Keeps-if (IsOpen thread) x.interrupted _ _ (Keeps-pure (IsOpen thread) (some tt)) (
        Keeps-bind (IsOpen thread) _ _ (round-Keeps x h.0)
          (continue_if-Keeps (IsOpen thread) _ (loop-Keeps xs h.1)))

module _ (blank : Table) (master : Master) (c : Platform) (crc32 : ℕ → Bytes → ℕ)
    (find_type : Bytes → ℕ) (set : Setting) (xs : List Round) (is_made : set.handle ≡ true)
    (remade : All (λ x. x.handle ≡ true) xs) where
  monitor-Keeps : Keeps (IsOpen set.thread) (monitor blank master c crc32 find_type set xs)
  unfolding monitor
  monitor-Keeps =
      let P = IsOpen set.thread in
      Keeps-bind P _ _ (register-Keeps blank master c crc32 find_type set.thread set) (λ _.
        Keeps-bind P _ _ (handshake-Keeps blank master c crc32 find_type set.thread set.first) (
          continue_if-Keeps P _ (
            Keeps-bind P _ _ (loop-Keeps blank master c crc32 find_type set.thread xs remade) (
              continue_if-Keeps P _ (deregister-Keeps blank master c crc32 find_type set.thread)))))

  scoped-IsClosed :
      (x : Outcome (Unit {0}) × Remote)
      → x.0 ≡ ok tt
      → IsOpen set.thread x.1
      → HasLeft (scoped blank master c crc32 find_type set xs x).0
      → IsClosed (scoped blank master c crc32 find_type set xs x).1
  unfolding scoped
  scoped-IsClosed (ok u, r) e h =
      leave-IsClosed set.thread (monitor blank master c crc32 find_type set xs r) (
        Keeps-at (IsOpen set.thread) (monitor blank master c crc32 find_type set xs) monitor-Keeps r
          h)
  scoped-IsClosed (throws x, r) e h = cc
  scoped-IsClosed (fault, r) e h = cc

  connected_loop-IsClosed :
      (r : Remote)
      → IsClosed r
      → HasLeft (connected_loop blank master c crc32 find_type set xs r).0
      → IsClosed (connected_loop blank master c crc32 find_type set xs r).1
  unfolding connected_loop
  connected_loop-IsClosed r h =
      let (made, opens) =
        connect-first set.thread set.first.connecting set.handle set.first.retries r is_made h in
      scoped-IsClosed (connect set.thread false set.first.connecting set.handle set.first.retries r)
        made opens

  -- However the call is left, by the interrupt flag or by an exception of any part, no thread is
  -- named any more, each handle that was made is closed once, and the mutex is free, where the client
  -- library makes each handle.
  pub get_remote_binlog-IsClosed :
      (r : Remote)
      → IsClosed r
      → HasLeft (get_remote_binlog blank master c crc32 find_type set xs r).0
      → IsClosed (get_remote_binlog blank master c crc32 find_type set xs r).1
  unfolding get_remote_binlog
  get_remote_binlog-IsClosed r h =
      ends (generate_id set (act sig_unblock r))
        (Keeps-at IsClosed _ (generate_id-Keeps-IsClosed set) (act sig_unblock r) (unfold act in h))
    where
      ends :
          (x : Outcome (Option (Unit {0})) × Remote)
          → IsClosed x.1
          → HasLeft (after (continue_if (connected_loop blank master c crc32 find_type set xs)) x).0
          → IsClosed
              (after (continue_if (connected_loop blank master c crc32 find_type set xs)) x).1
      ends (ok none, t) k l = absurd l
      ends (ok (some u), t) k l = connected_loop-IsClosed t k l
      ends (throws e, t) k l = k
      ends (fault, t) k l = k
