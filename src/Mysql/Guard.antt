-- ===== src/Mysql/Guard.antt =====
-- MysqlGuard.h: the initialisation of the client library in a process and in its threads.
use libslave.Common.{
  ℕ, true, false, not, ◌==◌, List, [], ◌∷◌, none, some, Outcome, ok, throws, if◌then◌else◌,
  key_failed, library_failed, specific_failed, thread_failed,
}
use libslave.Common.Maps.{lookup, insert, nat_eq}
use libslave.Common.Effects.{M, ◌>>=◌}
use libslave.Mysql.Defs.{
  pthread_key_create, pthread_key_delete, mysql_library_init, mysql_library_end,
  pthread_setspecific, mysql_thread_init, mysql_thread_end, Local, Process, note,
}

-- What the calls of `MysqlGuard::init` return; 0 is success.
pub record Answers : Type 0 where
  pub key_created : ℕ
  pub library_ready : ℕ
  pub specific_set : ℕ
  pub thread_ready : ℕ

-- `Global()`, where `sGlobal` does not stand yet. An exception leaves it unmade.
unfoldable pub make_global : Answers → Process → Outcome (Unit {0}) × Process
unfolding note
make_global a p =
    if not (a.key_created == 0)
    then (throws key_failed, note pthread_key_create p)
    else if not (a.library_ready == 0)
    then (
      throws library_failed,
      note pthread_key_delete (note mysql_library_init (note pthread_key_create p)),
    )
    else (ok tt, note mysql_library_init (note pthread_key_create (record p { global = true })))

unfoldable pub need_global : Answers → Process → Outcome (Unit {0}) × Process
unfolding make_global
need_global a p = if p.global then (ok tt, p) else make_global a p

unfoldable pub set_local : ℕ → Local → Process → Process
unfolding insert
set_local thread l p = record p { locals = insert thread l p.locals }

-- `Local(key)`. `sLocal` is made once in a thread.
unfoldable pub make_local : ℕ → Answers → Process → Outcome (Unit {0}) × Process
unfolding note set_local
make_local thread a p =
    if not (a.specific_set == 0)
    then (throws specific_failed, note (pthread_setspecific thread true) p)
    else if not (a.thread_ready == 0)
    then (
      throws thread_failed,
      note (pthread_setspecific thread false)
          (note (mysql_thread_init thread false) (note (pthread_setspecific thread true) p)),
    )
    else (
      ok tt,
      set_local thread (record { m_needs_cleanup = true; specific = true })
          (note (mysql_thread_init thread true) (note (pthread_setspecific thread true) p)),
    )

unfoldable pub need_local : ℕ → Answers → Process → Outcome (Unit {0}) × Process
unfolding make_local lookup
need_local thread a p = elim (lookup thread p.locals) [
  | none ↦ make_local thread a p
  | some l ↦ (ok tt, p)
]

-- `MysqlGuard::init`
unfoldable pub init : ℕ → Answers → M Process (Unit {0})
unfolding need_global need_local
init thread a = need_global a >>= (λ _. need_local thread a)

abbrev pub clean_up : ℕ → Process → Process
clean_up thread p = note (pthread_setspecific thread false) (
    set_local thread (record { m_needs_cleanup = false; specific = false })
      (note (mysql_thread_end thread) p))

-- `destroyIfNecessary` on the thread's `sLocal`.
unfoldable pub destroy_if_necessary : ℕ → Local → Process → Process
unfolding set_local note
destroy_if_necessary thread l p =
    if l.m_needs_cleanup then clean_up thread p else set_local thread l p

-- `threadDestructor`: at the end of a thread pthread calls it where the pointer is not null, which it
-- makes null before.
unfoldable pub thread_destructor : ℕ → Process → Process
unfolding destroy_if_necessary lookup
thread_destructor thread p = elim (lookup thread p.locals) [
  | none ↦ p
  | some l ↦ if l.specific then destroy_if_necessary thread (record l { specific = false }) p else p
]

-- `~Local()`, where `sLocal` stands.
unfoldable pub local_destroyed : ℕ → Process → Process
unfolding destroy_if_necessary lookup
local_destroyed thread p = elim (lookup thread p.locals) [
  | none ↦ p
  | some l ↦ destroy_if_necessary thread l p
]

-- `~Global()`, where `sGlobal` stands.
unfoldable pub global_destroyed : Process → Process
unfolding note
global_destroyed p =
    if p.global
    then note pthread_key_delete (note mysql_library_end (record p { global = false }))
    else p

-- What happens in a process, in any order.
pub data Event : Type 0 where
  init_called : (thread : ℕ) → Answers → Event
  thread_ended local_gone : (thread : ℕ) → Event
  process_ended : Event

unfoldable pub step : Event → Process → Process
unfolding init thread_destructor local_destroyed global_destroyed
step (init_called thread a) p = (init thread a p).1
step (thread_ended thread) p = thread_destructor thread p
step (local_gone thread) p = local_destroyed thread p
step process_ended p = global_destroyed p

unfoldable pub run : List Event → Process → Process
unfolding step
run [] p = p
run (e ∷ events) p = run events (step e p)

abbrev pub begin : Process
begin = record { global = false; locals = []; calls = [] }
