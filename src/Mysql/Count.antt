-- ===== src/Mysql/Count.antt =====
-- The calls that initialise the client library in a thread and those that end it, counted.
use libslave.Common.{
  ℕ, suc, ◌+◌, ◌≡◌, refl, arith, Bool, true, false, not, ◌==◌, ==_iff, ◌∙◌, ap, sym, List, [], ◌∷◌,
  Option, none, some, if◌then◌else◌, Bool-cases, inl, inr,
}
use libslave.Common.Maps.{lookup, lookup-insert, nat_eq}
use libslave.Mysql.Defs.{
  Call, pthread_setspecific, mysql_thread_init, mysql_thread_end, Local, Process, note,
}
use libslave.Mysql.Guard.{Answers, set_local, clean_up, make_local, destroy_if_necessary}

-- Where the client library was initialised in the thread; a call that fails does not count.
abbrev pub is_thread_init : ℕ → Call → Bool
is_thread_init t (mysql_thread_init thread true) = thread == t
is_thread_init t other = false

abbrev pub is_thread_end : ℕ → Call → Bool
is_thread_end t (mysql_thread_end thread) = thread == t
is_thread_end t other = false

abbrev pub count_calls : (Call → Bool) → List Call → ℕ
count_calls test [] = 0
count_calls test (c ∷ calls) =
    let rest = count_calls test calls in if test c then suc rest else rest

abbrev pub waiting : Option Local → ℕ
waiting none = 0
waiting (some l) = if l.m_needs_cleanup then 1 else 0

-- The initialisations of the thread that nothing has ended yet: 0 or 1.
unfoldable pub pending : ℕ → Process → ℕ
unfolding lookup
pending t p = waiting (lookup t p.locals)

abbrev Balanced : ℕ → List Call → ℕ → Type 0
Balanced t calls w = count_calls (is_thread_init t) calls ≡ count_calls (is_thread_end t) calls + w

unfoldable pub IsBalanced : ℕ → Process → Type 0
IsBalanced t p = Balanced t p.calls (pending t p)

pub pending-set_local :
    (t thread : ℕ) (l : Local) (p : Process)
    → pending t (set_local thread l p) ≡ (if thread == t then waiting (some l) else pending t p)
unfolding pending set_local
pending-set_local t thread l p =
    rw (lookup-insert thread t l p.locals)
      (elim (Bool-cases (thread == t)) [ inl e ↦ rw e | inr e ↦ rw e ])

-- A call that does not count changes nothing.
pub note-IsBalanced :
    (t : ℕ) (c : Call) (p : Process)
    → is_thread_init t c ≡ false
    → is_thread_end t c ≡ false
    → IsBalanced t p
    → IsBalanced t (note c p)
unfolding IsBalanced note pending
note-IsBalanced t c p e e' h = rw (e, e') h

set_local-IsBalanced :
    (t thread : ℕ) (l : Local) (p : Process)
    → Balanced t p.calls (if thread == t then waiting (some l) else pending t p)
    → IsBalanced t (set_local thread l p)
unfolding IsBalanced set_local
set_local-IsBalanced t thread l p h =
    h ∙ ap (λ w. count_calls (is_thread_end t) p.calls + w) (sym (pending-set_local t thread l p))

pending_here : (t thread : ℕ) (p : Process) → (thread == t) ≡ true → pending t p ≡ pending thread p
pending_here t thread p e = ap (λ x. pending x p) (sym ((==_iff thread t).0 e))

pub pending-note : (t : ℕ) (c : Call) (p : Process) → pending t (note c p) ≡ pending t p
unfolding pending note
pending-note t c p = refl

clean_up-IsBalanced :
    (t thread : ℕ) (p : Process)
    → pending thread p ≡ 1
    → IsBalanced t p
    → IsBalanced t (clean_up thread p)
unfolding note IsBalanced
clean_up-IsBalanced t thread p one h =
    note-IsBalanced t (pthread_setspecific thread false)
      (set_local thread (record { m_needs_cleanup = false; specific = false })
        (note (mysql_thread_end thread) p))
      refl refl
      (set_local-IsBalanced t thread (record { m_needs_cleanup = false; specific = false })
        (note (mysql_thread_end thread) p)
        (elim (Bool-cases (thread == t)) [
          | inl e ↦ let here = pending_here t thread p e in rw e (omega arith)
          | inr e ↦ let same = pending-note t (mysql_thread_end thread) p in rw e (omega arith)
        ]))

keep_local-IsBalanced :
    (t thread : ℕ) (l : Local) (p : Process)
    → pending thread p ≡ waiting (some l)
    → IsBalanced t p
    → IsBalanced t (set_local thread l p)
unfolding IsBalanced
keep_local-IsBalanced t thread l p same h =
    set_local-IsBalanced t thread l p (elim (Bool-cases (thread == t)) [
      | inl e ↦
          let here = pending_here t thread p e in
          rw e (h ∙ ap (λ w. count_calls (is_thread_end t) p.calls + w) (here ∙ same))
      | inr e ↦ rw e h
    ])

pub destroy-IsBalanced :
    (t thread : ℕ) (l : Local) (p : Process)
    → pending thread p ≡ waiting (some l)
    → IsBalanced t p
    → IsBalanced t (destroy_if_necessary thread l p)
unfolding destroy_if_necessary
destroy-IsBalanced t thread l p same h = go l.m_needs_cleanup same
  where
    go :
        (b : Bool)
        → pending thread p ≡ (if b then 1 else 0)
        → IsBalanced t (if b then clean_up thread p else set_local thread l p)
    go true one = clean_up-IsBalanced t thread p one h
    go false zero_waits = keep_local-IsBalanced t thread l p same h

made_local-IsBalanced :
    (t thread : ℕ) (p : Process)
    → pending thread p ≡ 0
    → IsBalanced t p
    → IsBalanced t (
        set_local thread
          (record { m_needs_cleanup = true; specific = true })
          (note (mysql_thread_init thread true) (note (pthread_setspecific thread true) p)))
unfolding IsBalanced note
made_local-IsBalanced t thread p fresh h =
    set_local-IsBalanced t thread (record { m_needs_cleanup = true; specific = true })
      (note (mysql_thread_init thread true) (note (pthread_setspecific thread true) p))
      (elim (Bool-cases (thread == t)) [
        | inl e ↦ let here = pending_here t thread p e in rw e (omega arith)
        | inr e ↦
            let same =
              pending-note t (mysql_thread_init thread true)
                (note (pthread_setspecific thread true) p)
              ∙ pending-note t (pthread_setspecific thread true) p in
            rw e (omega arith)
      ])

pub make_local-IsBalanced :
    (t thread : ℕ) (a : Answers) (p : Process)
    → pending thread p ≡ 0
    → IsBalanced t p
    → IsBalanced t (make_local thread a p).1
unfolding make_local
make_local-IsBalanced t thread a p fresh h =
    let tried = note-IsBalanced t (pthread_setspecific thread true) p refl refl h in
    elim (Bool-cases (not (a.specific_set == 0))) [
      | inl e ↦ rw e tried
      | inr e ↦ elim (Bool-cases (not (a.thread_ready == 0))) [
        | inl e' ↦
            rw (e, e')
              (note-IsBalanced t (pthread_setspecific thread false) _ refl refl
                (note-IsBalanced t (mysql_thread_init thread false) _ refl refl tried))
        | inr e' ↦ rw (e, e') (made_local-IsBalanced t thread p fresh h)
      ]
    ]
