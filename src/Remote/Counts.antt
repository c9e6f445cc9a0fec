-- ===== src/Remote/Counts.antt =====
-- The connection of `get_remote_binlog`: `m_slave_thread_id`, the handle and the mutex, over the
-- methods of the connector.
use libslave.Common.{ℕ, suc, ◌≡◌, refl, Bool, true, false, List, [], ◌∷◌, ok, arith}
use libslave.Remote.Defs.{
  Act, Remote, act, lock, unlock, mysql_close, mysql_init, set_connecting, disconnect, attempts,
  opened, taken, connect,
}

-- The handles that are made and that are closed; how often the mutex is taken and given back.
abbrev pub made_and_closed : List Act → ℕ × ℕ
made_and_closed [] = (0, 0)
made_and_closed (mysql_init true ∷ acts) = let (m, c) = made_and_closed acts in (suc m, c)
made_and_closed (mysql_close ∷ acts) = let (m, c) = made_and_closed acts in (m, suc c)
made_and_closed (a ∷ acts) = made_and_closed acts

abbrev pub taken_and_back : List Act → ℕ × ℕ
taken_and_back [] = (0, 0)
taken_and_back (lock ∷ acts) = let (l, u) = taken_and_back acts in (suc l, u)
taken_and_back (unlock ∷ acts) = let (l, u) = taken_and_back acts in (l, suc u)
taken_and_back (a ∷ acts) = taken_and_back acts

-- No thread is named, every handle is closed, and the mutex is free.
abbrev pub IsClosed : Remote → Type 0
IsClosed r =
    (r.m_slave_thread_id ≡ 0)
    × ((made_and_closed r.acts).0 ≡ (made_and_closed r.acts).1)
    × ((taken_and_back r.acts).0 ≡ (taken_and_back r.acts).1)

-- The thread is named, one handle is open, and the mutex is free.
abbrev pub IsOpen : ℕ → Remote → Type 0
IsOpen thread r =
    (r.m_slave_thread_id ≡ thread)
    × ((made_and_closed r.acts).0 ≡ suc (made_and_closed r.acts).1)
    × ((taken_and_back r.acts).0 ≡ (taken_and_back r.acts).1)

-- What `connect` is in between: with a handle, the mutex is held.
abbrev IsHeld : ℕ → Remote → Type 0
IsHeld thread r =
    (r.m_slave_thread_id ≡ thread)
    × ((made_and_closed r.acts).0 ≡ suc (made_and_closed r.acts).1)
    × ((taken_and_back r.acts).0 ≡ suc (taken_and_back r.acts).1)

pub disconnect-IsClosed : (thread : ℕ) (r : Remote) → IsOpen thread r → IsClosed (disconnect r)
unfolding disconnect
disconnect-IsClosed thread r h = (refl, omega arith, omega arith)

attempts-IsHeld :
    (thread : ℕ) (retries : List ℕ) (r : Remote)
    → IsHeld thread r
    → IsHeld thread (attempts retries r)
unfolding attempts
attempts-IsHeld thread [] r h = h
attempts-IsHeld thread (now ∷ retries) r h = attempts-IsHeld thread retries _ h

opened-IsOpen :
    (thread : ℕ) (retries : List ℕ) (r : Remote)
    → IsClosed r
    → IsOpen thread (opened true retries (taken thread r)).1
unfolding opened taken
opened-IsOpen thread retries r h =
    let (i, c, m) =
      attempts-IsHeld thread retries (act (mysql_init true) (taken thread r))
        (unfold act taken in (refl, omega arith, omega arith)) in
    (i, c, omega arith)

-- `connect` with a handle leaves the connection open, the first time and again.
pub connect-first :
    (thread now : ℕ) (handle : Bool) (retries : List ℕ) (r : Remote)
    → handle ≡ true
    → IsClosed r
    → ((connect thread false now handle retries r).0 ≡ ok tt)
      × IsOpen thread (connect thread false now handle retries r).1
unfolding connect set_connecting opened
connect-first thread now true retries r e h =
    (refl, opened-IsOpen thread retries (set_connecting now r) h)
connect-first thread now false retries r e h = cc

pub connect-again :
    (thread now : ℕ) (handle : Bool) (retries : List ℕ) (r : Remote)
    → handle ≡ true
    → IsOpen thread r
    → ((connect thread true now handle retries r).0 ≡ ok tt)
      × IsOpen thread (connect thread true now handle retries r).1
unfolding connect set_connecting opened
connect-again thread now true retries r e h = (
  refl,
  opened-IsOpen thread retries (disconnect (set_connecting now r))
      (disconnect-IsClosed thread (set_connecting now r) h),
)
connect-again thread now false retries r e h = cc
