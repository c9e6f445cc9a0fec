-- ===== src/Slave/Loop.antt =====
-- Slave.cpp: `get_remote_binlog`, one packet at a time.
use libslave.Common.{
  none, ℕ, ◌-◌, Bool, true, false, ◌==◌, Bytes, [], ◌∷◌, Outcome, ok, throws, fault, if◌then◌else◌,
  some, Option, length, drop,
}
use libslave.Common.Int.{pos}
use libslave.Common.Effects.{M, ◌>>=◌, lift, pure, modify}
use libslave.Position.Defs.{is_nil, add_gtid_to}
use libslave.Gtid.Defs.{Gtid}
use libslave.State.Default
use libslave.Field.Unpack.{Platform}
use libslave.Event.Defs.{BasicEventInfo, xid_event, rotate_event, gtid_log_event}
use libslave.Event.Headers.{rotate_event_info, gtid_event_info}
use libslave.Event.Read.{read_log_event}
use libslave.Table.Defs.{Table}
use libslave.Slave.Defs.{Slave, xid_callback, tick_error, master_ge_56}
use libslave.Slave.Process.{Master, process_event}

-- The object and the loop's variable `gtid_next`.
pub record Session : Type 0 where
  pub slave : Slave
  pub gtid_next : Gtid

abbrev pub no_gtid : Gtid
no_gtid = ([], pos 0)

-- A call on the object, in a session.
abbrev pub on_slave : {A : Type 0} → M Slave A → M Session A
on_slave m s = let (r, t) = m s.slave in (r, record s { slave = t })

-- `ext_state.setMasterPosition(m_master_info.position)`
abbrev pub report_position : Slave → Slave
unfolding Default.set_master_position
report_position s = record s { ext_state = Default.set_master_position s.position s.ext_state }

-- `if (event.log_pos != 0) { … }`; `now` is the clock.
unfoldable pub note_position : ℕ → BasicEventInfo → Slave → Slave
unfolding Default.set_last_event_time_pos
note_position now bei s = if bei.log_pos == 0 then s else record s {
  position = record (s.position) { log_pos = bei.log_pos };
  ext_state = Default.set_last_event_time_pos now bei.when bei.log_pos s.ext_state;
}

-- `if (!gtid_next.first.empty()) m_master_info.position.addGtid(gtid_next)`
unfoldable pub commit_gtid : Gtid → Slave → Slave
unfolding add_gtid_to
commit_gtid gtid s =
    if is_nil gtid.0 then s else record s { position = add_gtid_to gtid s.position }

-- `if (m_xid_callback) m_xid_callback(event.server_id)`
abbrev pub call_xid : Option (ℕ → Outcome (Unit {0})) → ℕ → M Slave (Unit {0})
call_xid none id t = (ok tt, t)
call_xid (some f) id t = (f id, record t { notices = xid_callback id ∷ t.notices })

unfoldable pub reported : Gtid → Slave → Slave
unfolding commit_gtid Default.set_master_position
reported gtid s = report_position (commit_gtid gtid s)

unfoldable pub on_xid : BasicEventInfo → M Session (Unit {0})
unfolding reported
on_xid bei s =
    on_slave (λ t. let u = reported s.gtid_next t in call_xid u.m_xid_callback bei.server_id u) s

unfoldable pub on_rotate : BasicEventInfo → Platform → M Session (Unit {0})
unfolding rotate_event_info Default.set_master_position
on_rotate bei c = do
  rei ← lift (rotate_event_info c.wire bei.buf bei.event_len)
  on_slave (
      modify (λ t. report_position (record t {
        position = record (t.position) { log_name = rei.new_log_ident; log_pos = rei.pos };
      })))

unfoldable pub commit_unless : Bool → Session → Session
unfolding reported
commit_unless true s = s
commit_unless false s = record s { slave = reported s.gtid_next s.slave }

unfoldable pub commit_before : Session → Session
unfolding commit_unless
commit_before s = commit_unless (is_nil s.gtid_next.0) s

unfoldable pub next_gtid : BasicEventInfo → Platform → M Session (Unit {0})
unfolding gtid_event_info
next_gtid bei c = do
  gei ← lift (gtid_event_info c.wire bei.buf bei.event_len)
  modify (λ s. record s { gtid_next = (gei.m_sid, gei.m_gno) })

-- The GTID of the transaction before is added here too, for one that ended with no XID event.
unfoldable pub on_gtid : BasicEventInfo → Platform → M Session (Unit {0})
unfolding commit_before next_gtid
on_gtid bei c = modify commit_before >>= (λ _. next_gtid bei c)

unfoldable pub on_type : BasicEventInfo → Platform → M Session (Unit {0})
unfolding on_xid on_rotate on_gtid
on_type bei c =
    if bei.type == xid_event
    then on_xid bei
    else if bei.type == rotate_event
    then on_rotate bei c
    else if bei.type == gtid_log_event
    then on_gtid bei c
    else pure tt

-- An event that `read_log_event` accepts.
unfoldable pub on_event :
    ℕ → Table → Master → Platform → BasicEventInfo → M Session (Option (Unit {0}))
unfolding note_position on_type process_event
on_event now blank master c bei =
    on_slave (modify (note_position now bei))
    >>= (λ _. on_type bei c)
    >>= (λ _. on_slave (process_event blank master c bei))

-- `read_log_event` on the packet behind its first byte, over the two members that it changes.
unfoldable pub read_packet : Platform → (ℕ → Bytes → ℕ) → Bytes → M Slave (BasicEventInfo × Bool)
unfolding read_log_event master_ge_56
read_packet c crc32 packet s =
    let (r, t) =
      read_log_event c.wire crc32 (drop 1 packet) (length packet - 1) s.event_stat (master_ge_56 s)
        (record { checksum_alg = s.checksum_alg; ticks = s.ticks }) in
    (r, record s { checksum_alg = t.checksum_alg; ticks = t.ticks })

abbrev pub start_processing : Slave → Slave
unfolding Default.set_state_processing
start_processing s = record s { ext_state = Default.set_state_processing true s.ext_state }

unfoldable pub on_accepted :
    ℕ → Table → Master → Platform → BasicEventInfo × Bool → M Session (Option (Unit {0}))
unfolding on_event
on_accepted now blank master c (bei, true) = on_event now blank master c bei
on_accepted now blank master c (bei, false) = pure (some tt)

-- The `try` block on a packet that came.
unfoldable pub on_packet :
    ℕ → Table → Master → Platform → (ℕ → Bytes → ℕ) → Bytes → M Session (Option (Unit {0}))
unfolding read_packet on_accepted Default.set_state_processing
on_packet now blank master c crc32 packet =
    on_slave (modify start_processing)
    >>= (λ _. on_slave (read_packet c crc32 packet))
    >>= on_accepted now blank master c

-- `if (event_stat) event_stat->tickError()`
abbrev pub note_error : Bool → Slave → Slave
note_error true s = record s { notices = tick_error ∷ s.notices }
note_error false s = s

-- `catch (const std::exception&) { tickError; continue; }`: the exceptions of the model are of this
-- class, those of the callbacks too.
unfoldable pub catching :
    Outcome (Option (Unit {0})) × Session → Outcome (Option (Unit {0})) × Session
catching (ok r, s) = (ok r, s)
catching (fault, s) = (fault, s)
catching (throws e, s) = (ok (some tt), record s { slave = note_error s.slave.event_stat s.slave })
