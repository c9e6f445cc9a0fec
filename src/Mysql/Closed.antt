-- ===== src/Mysql/Closed.antt =====
-- When a `Connection` is closed.
use libslave.Common.{
  ℕ, ◌+◌, ◌≡◌, refl, arith, Bool, true, false, not, ◌==◌, ltb, Option, none, some, Outcome, ok,
  throws, fault, no_handle, if◌then◌else◌, Bool-cases, inl, inr,
}
use libslave.Common.Maps.{lookup, nat_eq}
use libslave.Common.Effects.{
  M, ◌>>=◌, lift, Keeps, Keeps-at, Keeps-bind, Keeps-lift, Keeps-modify, Keeps-when, after,
}
use libslave.Mysql.Defs.{
  Options, Call, Local, Process, note, emit, mysql_close, mysql_init, mysql_opt_connect_timeout,
  mysql_opt_read_timeout, mysql_opt_write_timeout,
}
use libslave.Mysql.Guard.{
  Answers, set_local, make_global, need_global, make_local, need_local, init,
}
use libslave.Mysql.Count.{count_calls}
use libslave.Mysql.Connection.{
  Attempt, set_timeout, set_options, safe_init, safe_connect, construct, finally, with_connection,
}

abbrev pub is_close : Call → Bool
is_close mysql_close = true
is_close other = false

abbrev pub closes : Process → ℕ
closes p = count_calls is_close p.calls

abbrev Closes : ℕ → Process → Type 0
Closes k p = closes p ≡ k

note-Closes :
    (k : ℕ) (c : Call) (p : Process) → is_close c ≡ false → Closes k p → Closes k (note c p)
unfolding note
note-Closes k c p e h = rw e h

emit-Closes : (k : ℕ) (c : Call) → is_close c ≡ false → Keeps (Closes k) (emit c)
unfolding emit
emit-Closes k c e = Keeps-modify (Closes k) (note c) (λ p h. note-Closes k c p e h)

set_local-Closes :
    (k thread : ℕ) (l : Local) (p : Process) → Closes k p → Closes k (set_local thread l p)
unfolding set_local
set_local-Closes k thread l p h = h

make_global-Closes : (k : ℕ) (a : Answers) (p : Process) → Closes k p → Closes k (make_global a p).1
unfolding make_global note
make_global-Closes k a p h = elim (Bool-cases (not (a.key_created == 0))) [
  | inl e ↦ rw e h
  | inr e ↦ elim (Bool-cases (not (a.library_ready == 0))) [
    | inl e' ↦ rw (e, e') h
    | inr e' ↦ rw (e, e') h
  ]
]

need_global-Closes : (k : ℕ) (a : Answers) → Keeps (Closes k) (need_global a)
unfolding need_global Keeps
need_global-Closes k a p h = go p.global
  where
    go : (b : Bool) → Closes k (if b then (ok tt, p) else make_global a p).1
    go true = h
    go false = make_global-Closes k a p h

make_local-Closes :
    (k thread : ℕ) (a : Answers) (p : Process) → Closes k p → Closes k (make_local thread a p).1
unfolding make_local note set_local
make_local-Closes k thread a p h = elim (Bool-cases (not (a.specific_set == 0))) [
  | inl e ↦ rw e h
  | inr e ↦ elim (Bool-cases (not (a.thread_ready == 0))) [
    | inl e' ↦ rw (e, e') h
    | inr e' ↦ rw (e, e') h
  ]
]

need_local-Closes : (k thread : ℕ) (a : Answers) → Keeps (Closes k) (need_local thread a)
unfolding need_local Keeps
need_local-Closes k thread a p h = go (lookup thread p.locals)
  where
    go :
        (found : Option Local)
        → Closes k
            (elim found as (λ _. Outcome (Unit {0}) × Process) [
              | none ↦ make_local thread a p
              | some l ↦ (ok tt, p)
            ]).1
    go none = make_local-Closes k thread a p h
    go (some l) = h

safe_init-Closes : (k thread : ℕ) (a : Attempt) → Keeps (Closes k) (safe_init thread a)
unfolding safe_init init
safe_init-Closes k thread a =
    Keeps-bind (Closes k) (init thread a.guard) (λ _. emit (mysql_init a.has_handle))
      (Keeps-bind (Closes k) (need_global a.guard) (λ _. need_local thread a.guard)
        (need_global-Closes k a.guard) (λ _. need_local-Closes k thread a.guard))
      (λ _. emit-Closes k (mysql_init a.has_handle) refl)

set_timeout-Closes :
    (k : ℕ) (option : ℕ → Call) (seconds : ℕ)
    → is_close (option seconds) ≡ false
    → Keeps (Closes k) (set_timeout option seconds)
unfolding set_timeout
set_timeout-Closes k option seconds e =
    Keeps-when (Closes k) (ltb 0 seconds) (emit (option seconds)) (emit-Closes k (option seconds) e)

set_options-Closes : (k : ℕ) (o : Options) → Keeps (Closes k) (set_options o)
unfolding set_options
set_options-Closes k o =
    Keeps-bind (Closes k) (set_timeout mysql_opt_connect_timeout o.mysql_connect_timeout) _
      (set_timeout-Closes k mysql_opt_connect_timeout o.mysql_connect_timeout refl)
      (λ _.
        Keeps-bind (Closes k) (set_timeout mysql_opt_read_timeout o.mysql_read_timeout) _
          (set_timeout-Closes k mysql_opt_read_timeout o.mysql_read_timeout refl)
          (λ _.
            Keeps-bind (Closes k) (set_timeout mysql_opt_write_timeout o.mysql_write_timeout) _
              (set_timeout-Closes k mysql_opt_write_timeout o.mysql_write_timeout refl)
              (λ _. emit-Closes k _ refl)))

safe_connect-Closes : (k : ℕ) (o : Options) → Keeps (Closes k) (safe_connect o)
unfolding safe_connect Keeps emit note
safe_connect-Closes k o p h = h

construct-Closes :
    (k thread : ℕ) (o : Options) (a : Attempt) → Keeps (Closes k) (construct thread o a)
unfolding construct
construct-Closes k thread o a =
    let handle = lift (if a.has_handle then ok tt else throws no_handle) in
    Keeps-bind (Closes k)
      (safe_init thread a >>= (λ _. handle) >>= (λ _. set_options o) >>= (λ _. safe_connect o)) _
      (Keeps-bind (Closes k) (safe_init thread a >>= (λ _. handle) >>= (λ _. set_options o))
        (λ _. safe_connect o)
        (Keeps-bind (Closes k) (safe_init thread a >>= (λ _. handle)) (λ _. set_options o)
          (Keeps-bind (Closes k) (safe_init thread a) (λ _. handle) (safe_init-Closes k thread a)
            (λ _. Keeps-lift (Closes k) _))
          (λ _. set_options-Closes k o))
        (λ _. safe_connect-Closes k o))
      (λ _. Keeps-lift (Closes k) _)

-- Whether a call has returned.
abbrev pub returned {ℓ} : {A : Type ℓ} → Outcome A → ℕ
returned (ok a) = 1
returned (throws e) = 0
returned fault = 0

-- A `Connection` is closed once where its constructor returns, whatever the block behind it does,
-- as long as the block itself closes nothing; and it is never closed where the constructor throws,
-- also when the library has given a handle.
pub with_connection-mysql_close :
    {A : Type 0} (thread : ℕ) (o : Options) (a : Attempt) (body : M Process A) (p : Process)
    → ((q : Process) → closes (body q).1 ≡ closes q)
    → closes (with_connection thread o a body p).1 ≡ closes p + returned (construct thread o a p).0
unfolding with_connection finally
with_connection-mysql_close thread o a body p still = go (construct thread o a p) (
    Keeps-at (Closes (closes p)) (construct thread o a) (construct-Closes (closes p) thread o a) p
      refl)
  where
    go :
        (r : Outcome (Unit {0}) × Process)
        → closes r.1 ≡ closes p
        → closes (after (λ _. finally mysql_close body) r).1 ≡ closes p + returned r.0
    go (ok u, q) h = let same = still q in omega arith
    go (throws e, q) h = omega arith
    go (fault, q) h = omega arith
