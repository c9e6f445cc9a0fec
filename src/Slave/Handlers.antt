-- ===== src/Slave/Handlers.antt =====
-- The two copies of the position, `m_master_info.position` and the one in `ext_state`, over the
-- loop of `get_remote_binlog`.
use libslave.Common.{
  ℕ, ◌≡◌, refl, Bool, true, false, ◌==◌, Bytes, some, none, Option, Outcome, inl, inr, Bool-cases,
}
use libslave.Common.Effects.{
  M, ◌>>=◌, modify, Keeps, Keeps-bind, Keeps-if, Keeps-pure, Keeps-lift, Keeps-modify,
}
use libslave.Position.Defs.{Position, is_nil}
use libslave.State.Defs.{in_transaction}
use libslave.State.Default
use libslave.Gtid.Defs.{Gtid}
use libslave.Field.Unpack.{Platform}
use libslave.Table.Defs.{Table}
use libslave.Event.Defs.{BasicEventInfo}
use libslave.Slave.Defs.{Slave}
use libslave.Slave.Process.{Master, process_event}
use libslave.Slave.Loop.{
  Session, on_slave, report_position, note_position, commit_gtid, call_xid, reported, commit_unless,
  commit_before, next_gtid, on_type, start_processing, on_accepted, on_xid, on_rotate, on_gtid,
  on_event, read_packet, on_packet,
}
use libslave.Slave.Synced.{IsSynced, InSync, process_event-IsSynced}

in_transaction-own : (p : Position) → in_transaction p p.log_pos ≡ p
in_transaction-own p = elim (Bool-cases (p.log_pos == 0)) [ inl e ↦ rw e refl | inr e ↦ rw e refl ]

pub report_position-IsSynced : (s : Slave) → IsSynced (report_position s)
unfolding IsSynced Default.set_master_position
report_position-IsSynced s = in_transaction-own s.position

-- Another place in the log file than 0 replaces the one before, on both sides.
moved :
    (p q : Position) (n k : ℕ)
    → (k == 0) ≡ false
    → in_transaction p n ≡ q
    → in_transaction p k ≡ record q { log_pos = k }
moved p q n k e h =
    rw (e, ← h) (elim (Bool-cases (n == 0)) [ inl z ↦ rw z refl | inr z ↦ rw z refl ])

note_position-IsSynced :
    (now : ℕ) (bei : BasicEventInfo) (s : Slave) → IsSynced s → IsSynced (note_position now bei s)
unfolding IsSynced note_position Default.set_last_event_time_pos
note_position-IsSynced now bei s h = elim (Bool-cases (bei.log_pos == 0)) [
  | inl e ↦ rw e h
  | inr e ↦
      rw e (moved s.ext_state.position s.position s.ext_state.intransaction_pos bei.log_pos e h)
]

Keeps-on_slave : {A : Type 0} (m : M Slave A) → Keeps IsSynced m → Keeps InSync (on_slave m)
unfolding Keeps InSync
Keeps-on_slave m k s h = k s.slave h

call_xid-IsSynced :
    (callback : Option (ℕ → Outcome (Unit {0}))) (id : ℕ) (t : Slave)
    → IsSynced t
    → IsSynced (call_xid callback id t).1
unfolding IsSynced
call_xid-IsSynced (some f) id t h = h
call_xid-IsSynced none id t h = h

reported-IsSynced : (gtid : Gtid) (s : Slave) → IsSynced (reported gtid s)
unfolding reported
reported-IsSynced gtid s = report_position-IsSynced (commit_gtid gtid s)

on_xid-InSync : (bei : BasicEventInfo) → Keeps InSync (on_xid bei)
unfolding InSync on_xid Keeps
on_xid-InSync bei s _ =
    let t = reported s.gtid_next s.slave in
    call_xid-IsSynced t.m_xid_callback bei.server_id t (reported-IsSynced s.gtid_next s.slave)

on_rotate-InSync : (bei : BasicEventInfo) (c : Platform) → Keeps InSync (on_rotate bei c)
unfolding on_rotate
on_rotate-InSync bei c = Keeps-bind InSync _ _ (Keeps-lift InSync _) (λ rei. Keeps-on_slave _ (
    Keeps-modify IsSynced _ (λ s h. report_position-IsSynced (record s {
      position = record (s.position) { log_name = rei.new_log_ident; log_pos = rei.pos };
    }))))

commit_unless-InSync : (b : Bool) (s : Session) → InSync s → InSync (commit_unless b s)
unfolding InSync commit_unless
commit_unless-InSync true s h = h
commit_unless-InSync false s h = reported-IsSynced s.gtid_next s.slave

commit_before-InSync : (s : Session) → InSync s → InSync (commit_before s)
unfolding commit_before
commit_before-InSync s h = commit_unless-InSync (is_nil s.gtid_next.0) s h

next_gtid-InSync : (bei : BasicEventInfo) (c : Platform) → Keeps InSync (next_gtid bei c)
unfolding next_gtid InSync
next_gtid-InSync bei c =
    Keeps-bind InSync _ _ (Keeps-lift InSync _) (λ gei. Keeps-modify InSync _ (λ s h. h))

on_gtid-InSync : (bei : BasicEventInfo) (c : Platform) → Keeps InSync (on_gtid bei c)
unfolding on_gtid
on_gtid-InSync bei c =
    Keeps-bind InSync (modify commit_before) (λ _. next_gtid bei c)
      (Keeps-modify InSync commit_before commit_before-InSync) (λ _. next_gtid-InSync bei c)

on_type-InSync : (bei : BasicEventInfo) (c : Platform) → Keeps InSync (on_type bei c)
unfolding on_type
on_type-InSync bei c = Keeps-if InSync _ (on_xid bei) _ (on_xid-InSync bei) (
    Keeps-if InSync _ (on_rotate bei c) _ (on_rotate-InSync bei c)
      (Keeps-if InSync _ (on_gtid bei c) _ (on_gtid-InSync bei c) (Keeps-pure InSync tt)))

on_event-InSync :
    (now : ℕ) (blank : Table) (master : Master) (c : Platform) (bei : BasicEventInfo)
    → Keeps InSync (on_event now blank master c bei)
unfolding on_event
on_event-InSync now blank master c bei =
    Keeps-bind InSync (on_slave (modify (note_position now bei)) >>= (λ _. on_type bei c))
      (λ _. on_slave (process_event blank master c bei))
      (Keeps-bind InSync (on_slave (modify (note_position now bei))) (λ _. on_type bei c)
        (Keeps-on_slave (modify (note_position now bei))
          (Keeps-modify IsSynced (note_position now bei) (note_position-IsSynced now bei)))
        (λ _. on_type-InSync bei c))
      (λ _.
        Keeps-on_slave (process_event blank master c bei)
          (process_event-IsSynced blank master c bei))

read_packet-IsSynced :
    (c : Platform) (crc32 : ℕ → Bytes → ℕ) (packet : Bytes)
    → Keeps IsSynced (read_packet c crc32 packet)
unfolding read_packet IsSynced Keeps
read_packet-IsSynced c crc32 packet s h = h

on_accepted-InSync :
    (now : ℕ) (blank : Table) (master : Master) (c : Platform) (r : BasicEventInfo × Bool)
    → Keeps InSync (on_accepted now blank master c r)
unfolding on_accepted
on_accepted-InSync now blank master c (bei, true) = on_event-InSync now blank master c bei
on_accepted-InSync now blank master c (bei, false) = Keeps-pure InSync (some tt)

-- One packet, however its processing ends.
pub on_packet-InSync :
    (now : ℕ) (blank : Table) (master : Master) (c : Platform) (crc32 : ℕ → Bytes → ℕ)
    (packet : Bytes)
    → Keeps InSync (on_packet now blank master c crc32 packet)
unfolding on_packet
on_packet-InSync now blank master c crc32 packet =
    Keeps-bind InSync
      (on_slave (modify start_processing) >>= (λ _. on_slave (read_packet c crc32 packet)))
      (on_accepted now blank master c)
      (Keeps-bind InSync (on_slave (modify start_processing))
        (λ _. on_slave (read_packet c crc32 packet))
        (Keeps-on_slave (modify start_processing) (
          Keeps-modify IsSynced start_processing
            (λ s h. unfold IsSynced Default.set_state_processing in h)))
        (λ _. Keeps-on_slave (read_packet c crc32 packet) (read_packet-IsSynced c crc32 packet)))
      (on_accepted-InSync now blank master c)
