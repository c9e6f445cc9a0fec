-- ===== src/Remote/Resume.antt =====
-- Slave.cpp: the two copies of the position over the whole of `get_remote_binlog`.
use libslave.Common.{
  ℕ, ◌≡◌, refl, ap, false, Bytes, List, [], ◌∷◌, Outcome, ok, throws, fault, some, none, Option,
  inl, inr, Bool-cases,
}
use libslave.Common.Effects.{M, ◌>>=◌, bind_ok}
use libslave.Field.Unpack.{Platform}
use libslave.Table.Defs.{Table}
use libslave.Slave.Process.{Master}
use libslave.Slave.Connect.{}
use libslave.Slave.Synced.{InSync}
use libslave.Remote.Defs.{Remote, act, sig_unblock, connect, disconnect, leave}
use libslave.Remote.Binlog.{
  Round, Setting, generate_id, continue_if, handshake, round, loop, register_slave_on_master,
  deregister_slave_on_master, monitor, scoped, connected_loop, get_remote_binlog,
}
use libslave.Remote.Turns.{Synced, handshake-Synced, round-Synced}

module _ (blank : Table) (master : Master) (c : Platform) (crc32 : ℕ → Bytes → ℕ)
    (find_type : Bytes → ℕ) where
  continue_if-Synced :
      (rest : M Remote (Option (Unit {0})))
      → ((r t : Remote) (x : Option (Unit {0})) → Synced r → rest r ≡ (ok x, t) → Synced t)
      → (o : Option (Unit {0})) (r t : Remote) (x : Option (Unit {0})) → Synced r
      → continue_if rest o r ≡ (ok x, t)
      → Synced t
  continue_if-Synced rest k none r t x sync h = rw (← ap (λ z. z.1.session) h) sync
  continue_if-Synced rest k (some u) r t x sync h = k r t x sync h

  loop-Synced :
      (thread : ℕ) (ys : List Round) (r t : Remote) (x : Option (Unit {0}))
      → Synced r
      → loop blank master c crc32 find_type thread ys r ≡ (ok x, t)
      → Synced t
  unfolding loop
  loop-Synced thread [] r t x sync h = rw (← ap (λ z. z.1.session) h) sync
  loop-Synced thread (y ∷ ys) r t x sync h = elim (Bool-cases y.interrupted) [
    | inl e ↦ rw (← ap (λ z. z.1.session) (rw e at h)) sync
    | inr e ↦
        let (o, u, first, later) =
          bind_ok (round blank master c crc32 find_type thread y)
            (continue_if (loop blank master c crc32 find_type thread ys)) r t x (rw e at h) in
        continue_if-Synced (loop blank master c crc32 find_type thread ys) (loop-Synced thread ys) o
          u t x (round-Synced blank master c crc32 find_type thread y r u o sync first) later
  ]

  deregister-Synced :
      (r t : Remote) (x : Option (Unit {0}))
      → Synced r
      → deregister_slave_on_master blank master c crc32 find_type r ≡ (ok x, t)
      → Synced t
  unfolding deregister_slave_on_master act
  deregister-Synced r t x sync h = rw (← ap (λ z. z.1.session) h) sync

  looped-Synced :
      (set : Setting) (ys : List Round) (r t : Remote) (x : Option (Unit {0}))
      → Synced r
      → (loop blank master c crc32 find_type set.thread ys
            >>= continue_if (deregister_slave_on_master blank master c crc32 find_type))
          r
        ≡ (ok x, t)
      → Synced t
  looped-Synced set ys r t x sync h =
      let quit = deregister_slave_on_master blank master c crc32 find_type in
      let (o, u, looped, left) =
        bind_ok (loop blank master c crc32 find_type set.thread ys) (continue_if quit) r t x h in
      continue_if-Synced quit deregister-Synced o u t x
        (loop-Synced set.thread ys r u o sync looped) left

  monitor-Synced :
      (set : Setting) (ys : List Round) (r t : Remote) (x : Option (Unit {0}))
      → monitor blank master c crc32 find_type set ys r ≡ (ok x, t)
      → Synced t
  unfolding monitor
  monitor-Synced set ys r t x h =
      let looping = loop blank master c crc32 find_type set.thread ys in
      let quit = deregister_slave_on_master blank master c crc32 find_type in
      let (_, u, registered, rest) =
        bind_ok (register_slave_on_master blank master c crc32 find_type set)
          (λ _.
            handshake blank master c crc32 find_type set.first
            >>= continue_if (looping >>= continue_if quit))
          r t x h in
      let (o, v, shaken, rest') =
        bind_ok (handshake blank master c crc32 find_type set.first)
          (continue_if (looping >>= continue_if quit)) u t x rest in
      continue_if-Synced (looping >>= continue_if quit) (looped-Synced set ys) o v t x
        (handshake-Synced blank master c crc32 find_type set.first u v o shaken) rest'

  leave-Synced :
      (m : Outcome (Option (Unit {0})) × Remote) (t : Remote) (x : Option (Unit {0}))
      → ((t : Remote) (x : Option (Unit {0})) → m ≡ (ok x, t) → Synced t)
      → leave m ≡ (ok x, t)
      → Synced t
  unfolding leave disconnect act
  leave-Synced (ok none, r) t x k h = rw (← ap (λ z. z.1.session) h) (k r none refl)
  leave-Synced (ok (some u), r) t x k h = rw (← ap (λ z. z.1.session) h) (k r (some u) refl)
  leave-Synced (throws e, r) t x k h = cc
  leave-Synced (fault, r) t x k h = cc

  scoped-Synced :
      (set : Setting) (ys : List Round) (m : Outcome (Unit {0}) × Remote) (t : Remote)
      (x : Option (Unit {0}))
      → scoped blank master c crc32 find_type set ys m ≡ (ok x, t)
      → Synced t
  unfolding scoped
  scoped-Synced set ys (ok u, r) t x h =
      leave-Synced (monitor blank master c crc32 find_type set ys r) t x (monitor-Synced set ys r) h
  scoped-Synced set ys (throws e, r) t x h = cc
  scoped-Synced set ys (fault, r) t x h = cc

  -- Where the interrupt flag ends the call, the position that the state would resume at is the one
  -- that the loop has reached, whatever packets, exceptions, lost connections and missing handles
  -- came on the way and whatever position was known before.
  pub get_remote_binlog-InSync :
      (set : Setting) (ys : List Round) (r t : Remote)
      → get_remote_binlog blank master c crc32 find_type set ys r ≡ (ok (some tt), t)
      → InSync t.session
  unfolding get_remote_binlog connected_loop
  get_remote_binlog-InSync set ys r t h =
      let (o, u, found, rest) =
        bind_ok (generate_id set)
          (continue_if (connected_loop blank master c crc32 find_type set ys)) (act sig_unblock r) t
          (some tt) h in
      follows o u rest
    where
      follows :
          (o : Option (Unit {0})) (u : Remote)
          → continue_if (connected_loop blank master c crc32 find_type set ys) o u
            ≡ (ok (some tt), t)
          → InSync t.session
      follows none u e = cc
      follows (some v) u e =
          scoped-Synced set ys
            (connect set.thread false set.first.connecting set.handle set.first.retries u) t
            (some tt) e
