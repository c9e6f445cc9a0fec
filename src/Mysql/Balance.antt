-- ===== src/Mysql/Balance.antt =====
-- The calls that initialise the client library in a thread, and those that end it.
use libslave.Common.{
  ℕ, ◌≡◌, refl, arith, Bool, true, false, not, ◌==◌, ==_iff, ◌∙◌, ap, List, [], ◌∷◌, Option, none,
  some, Outcome, ok, if◌then◌else◌, Bool-cases, inl, inr,
}
use libslave.Common.Maps.{lookup, nat_eq}
use libslave.Common.Effects.{Keeps, Keeps-bind, Keeps-at}
use libslave.Mysql.Defs.{
  pthread_key_create, pthread_key_delete, mysql_library_init, mysql_library_end,
  pthread_setspecific, mysql_thread_end, Local, Process, note,
}
use libslave.Mysql.Guard.{
  Answers, make_global, need_global, set_local, clean_up, make_local, need_local, init,
  destroy_if_necessary, thread_destructor, local_destroyed, global_destroyed, Event, init_called,
  thread_ended, local_gone, process_ended, step, run, begin,
}
use libslave.Mysql.Count.{
  waiting, is_thread_init, is_thread_end, count_calls, pending, IsBalanced, pending-note,
  pending-set_local, note-IsBalanced, destroy-IsBalanced, make_local-IsBalanced,
}

global-IsBalanced :
    (t : ℕ) (b : Bool) (p : Process) → IsBalanced t p → IsBalanced t (record p { global = b })
unfolding IsBalanced pending
global-IsBalanced t b p h = h

make_global-IsBalanced :
    (t : ℕ) (a : Answers) (p : Process) → IsBalanced t p → IsBalanced t (make_global a p).1
unfolding make_global
make_global-IsBalanced t a p h =
    let created = note-IsBalanced t pthread_key_create p refl refl h in
    elim (Bool-cases (not (a.key_created == 0))) [
      | inl e ↦ rw e created
      | inr e ↦ elim (Bool-cases (not (a.library_ready == 0))) [
        | inl e' ↦
            rw (e, e')
              (note-IsBalanced t pthread_key_delete _ refl refl
                (note-IsBalanced t mysql_library_init _ refl refl created))
        | inr e' ↦
            rw (e, e')
              (note-IsBalanced t mysql_library_init _ refl refl
                (note-IsBalanced t pthread_key_create _ refl refl (global-IsBalanced t true p h)))
      ]
    ]

need_global-IsBalanced :
    (t : ℕ) (a : Answers) (p : Process) → IsBalanced t p → IsBalanced t (need_global a p).1
unfolding need_global
need_global-IsBalanced t a p h = go p.global
  where
    go : (b : Bool) → IsBalanced t (if b then (ok tt, p) else make_global a p).1
    go true = h
    go false = make_global-IsBalanced t a p h

need_local-IsBalanced :
    (t thread : ℕ) (a : Answers) (p : Process)
    → IsBalanced t p
    → IsBalanced t (need_local thread a p).1
unfolding need_local pending
need_local-IsBalanced t thread a p h = go (lookup thread p.locals) refl
  where
    go :
        (found : Option Local)
        → pending thread p ≡ waiting found
        → IsBalanced t
            (elim found as (λ _. Outcome (Unit {0}) × Process) [
              | none ↦ make_local thread a p
              | some l ↦ (ok tt, p)
            ]).1
    go none fresh = make_local-IsBalanced t thread a p fresh h
    go (some l) fresh = h

init-IsBalanced : (t thread : ℕ) (a : Answers) → Keeps (IsBalanced t) (init thread a)
unfolding init Keeps
init-IsBalanced t thread a =
    Keeps-bind (IsBalanced t) (need_global a) (λ _. need_local thread a)
      (need_global-IsBalanced t a) (λ _. need_local-IsBalanced t thread a)

thread_destructor-IsBalanced :
    (t thread : ℕ) (p : Process) → IsBalanced t p → IsBalanced t (thread_destructor thread p)
unfolding thread_destructor pending
thread_destructor-IsBalanced t thread p h = go (lookup thread p.locals) refl
  where
    held :
        (l : Local)
        → pending thread p ≡ waiting (some l)
        → (b : Bool)
        → IsBalanced t
            (if b then destroy_if_necessary thread (record l { specific = false }) p else p)
    held l same true = destroy-IsBalanced t thread (record l { specific = false }) p same h
    held l same false = h

    go :
        (found : Option Local)
        → pending thread p ≡ waiting found
        → IsBalanced t (elim found as (λ _. Process) [
          | none ↦ p
          | some l ↦
              if l.specific
              then destroy_if_necessary thread (record l { specific = false }) p
              else p
        ])
    go none same = h
    go (some l) same = held l same l.specific

local_destroyed-IsBalanced :
    (t thread : ℕ) (p : Process) → IsBalanced t p → IsBalanced t (local_destroyed thread p)
unfolding local_destroyed pending
local_destroyed-IsBalanced t thread p h = go (lookup thread p.locals) refl
  where
    go :
        (found : Option Local)
        → pending thread p ≡ waiting found
        → IsBalanced t
            (elim found as (λ _. Process) [ none ↦ p | some l ↦ destroy_if_necessary thread l p ])
    go none same = h
    go (some l) same = destroy-IsBalanced t thread l p same h

global_destroyed-IsBalanced :
    (t : ℕ) (p : Process) → IsBalanced t p → IsBalanced t (global_destroyed p)
unfolding global_destroyed
global_destroyed-IsBalanced t p h = go p.global
  where
    go :
        (b : Bool)
        → IsBalanced t (
            if b
            then note pthread_key_delete (note mysql_library_end (record p { global = false }))
            else p)
    go true =
        note-IsBalanced t pthread_key_delete _ refl refl
          (note-IsBalanced t mysql_library_end _ refl refl (global-IsBalanced t false p h))
    go false = h

pending-local_destroyed : (t : ℕ) (p : Process) → pending t (local_destroyed t p) ≡ 0
unfolding local_destroyed pending destroy_if_necessary
pending-local_destroyed t p = go (lookup t p.locals) refl
  where
    same : (t == t) ≡ true
    same = (==_iff t t).1 refl

    held :
        (l : Local) (b : Bool)
        → waiting (some l) ≡ (if b then 1 else 0)
        → pending t (if b then clean_up t p else set_local t l p) ≡ 0
    held l true one =
        pending-note t (pthread_setspecific t false) (
          set_local t (record { m_needs_cleanup = false; specific = false })
            (note (mysql_thread_end t) p))
        ∙ (pending-set_local t t (record { m_needs_cleanup = false; specific = false })
              (note (mysql_thread_end t) p)
            ∙ ap (λ b. if b then 0 else pending t (note (mysql_thread_end t) p)) same)
    held l false nothing =
        pending-set_local t t l p
        ∙ (ap (λ b. if b then waiting (some l) else pending t p) same ∙ nothing)

    go :
        (found : Option Local)
        → pending t p ≡ waiting found
        → pending t
            (elim found as (λ _. Process) [ none ↦ p | some l ↦ destroy_if_necessary t l p ])
          ≡ 0
    go none e = e
    go (some l) e = held l l.m_needs_cleanup refl

step-IsBalanced : (t : ℕ) (e : Event) (p : Process) → IsBalanced t p → IsBalanced t (step e p)
unfolding step
step-IsBalanced t (init_called thread a) p h =
    Keeps-at (IsBalanced t) (init thread a) (init-IsBalanced t thread a) p h
step-IsBalanced t (thread_ended thread) p h = thread_destructor-IsBalanced t thread p h
step-IsBalanced t (local_gone thread) p h = local_destroyed-IsBalanced t thread p h
step-IsBalanced t process_ended p h = global_destroyed-IsBalanced t p h

run-IsBalanced :
    (t : ℕ) (events : List Event) (p : Process) → IsBalanced t p → IsBalanced t (run events p)
unfolding run
run-IsBalanced t [] p h = h
run-IsBalanced t (e ∷ events) p h = run-IsBalanced t events (step e p) (step-IsBalanced t e p h)

begin-IsBalanced : (t : ℕ) → IsBalanced t begin
unfolding IsBalanced pending lookup
begin-IsBalanced t = refl

-- Whatever happens in a process, and in whatever order, each thread has ended the client library as
-- often as it has initialised it, but for one initialisation at most that still waits for its end;
-- and once its thread-local object is gone, exactly as often.
pub run-thread_end :
    (t : ℕ) (events : List Event)
    → IsBalanced t (run events begin)
      × (count_calls (is_thread_init t) (local_destroyed t (run events begin)).calls
          ≡ count_calls (is_thread_end t) (local_destroyed t (run events begin)).calls)
unfolding IsBalanced
run-thread_end t events =
    let before = run-IsBalanced t events begin (begin-IsBalanced t) in
    let gone = local_destroyed-IsBalanced t t (run events begin) before in
    let zero_waits = pending-local_destroyed t (run events begin) in (before, omega arith)
