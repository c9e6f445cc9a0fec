-- ===== src/Rows/Unmoved.antt =====
-- What the rows of an event leave of the user's `ExtStateIface`: the saved position stays.
use libslave.Common.{
  ℕ, zero, suc, ◌≡◌, ◌∷◌, Bool, Bytes, Outcome, ok, throws, fault, length, ltb, some, none, Option,
  Bool-cases, inl, inr,
}
use libslave.Common.Effects.{
  M, ◌>>=◌, lift, pure, modify, Keeps, Keeps-at, Keeps-bind, Keeps-if, Keeps-lift, Keeps-modify,
  Keeps-pure, Keeps-when,
}
use libslave.Position.Defs.{Position}
use libslave.State.Defs.{in_transaction}
use libslave.State.Default
use libslave.Field.Unpack.{Platform}
use libslave.Event.Defs.{BasicEventInfo, RowEventInfo}
use libslave.Table.Defs.{
  Table, RecordSet, EventKind, insert_kind, update_kind, delete_kind, RelayLogInfo,
}
use libslave.Rows.Defs.{unpack_row}
use libslave.Rows.Apply.{
  Call, Outside, emit, call_set_update_time, call_callback, do_writedelete_row, do_update_row,
  do_row, apply_rows, apply_to, on_throw, try_row, note, event_kind, apply_row_event, callback,
  tick_modify_event_failed, tick_modify_row_done, tick_modify_event_done,
  tick_modify_event_filtered, tick_modify_event_ignored,
}

module _ (p : Position) (c : Platform) where
  -- The state would resume at p.
  abbrev pub ResumesAt : Outside → Type 0
  ResumesAt w = in_transaction w.ext_state.position w.ext_state.intransaction_pos ≡ p

  emit-ResumesAt : (call : Call) → Keeps ResumesAt (emit call)
  emit-ResumesAt call = Keeps-modify ResumesAt (λ w. record w { calls = call ∷ w.calls }) (λ w h. h)

  note-ResumesAt : (event_stat : Bool) (call : Call) → Keeps ResumesAt (note c event_stat call)
  note-ResumesAt event_stat call = Keeps-when ResumesAt event_stat (emit call) (emit-ResumesAt call)

  call_set_update_time-ResumesAt : Keeps ResumesAt (modify (call_set_update_time c))
  call_set_update_time-ResumesAt =
      Keeps-modify ResumesAt (call_set_update_time c)
        (λ w h. unfold call_set_update_time Default.set_last_filtered_update_time in h)

  call_callback-ResumesAt :
      (table : Table) (rs : RecordSet) → Keeps ResumesAt (call_callback c table rs)
  unfolding call_callback
  call_callback-ResumesAt table rs =
      Keeps-bind ResumesAt _ _
        (Keeps-bind ResumesAt _ _
          (Keeps-bind ResumesAt _ _ (emit-ResumesAt _) (λ _. call_set_update_time-ResumesAt))
          (λ _. emit-ResumesAt (callback rs)))
        (λ _. Keeps-lift ResumesAt (table.m_callback rs))

  module _ (bei : BasicEventInfo) (roi : RowEventInfo) where
    handed :
        (table : Table) (rs : RecordSet) (t : Bytes)
        → Keeps ResumesAt (call_callback c table rs >>= (λ _. pure t))
    handed table rs t =
        Keeps-bind ResumesAt (call_callback c table rs) (λ _. pure t)
          (call_callback-ResumesAt table rs) (λ _. Keeps-pure ResumesAt t)

    do_writedelete_row-ResumesAt :
        (table : Table) (p : Bytes) → Keeps ResumesAt (do_writedelete_row c table bei roi p)
    unfolding do_writedelete_row
    do_writedelete_row-ResumesAt table p =
        Keeps-bind ResumesAt (lift (unpack_row c table _ roi.m_width p roi.m_cols)) _
          (Keeps-lift ResumesAt _) (λ (row, t). handed table _ t)

    do_update_row-ResumesAt :
        (table : Table) (p : Bytes) → Keeps ResumesAt (do_update_row c table bei roi p)
    unfolding do_update_row
    do_update_row-ResumesAt table p =
        Keeps-bind ResumesAt (lift (unpack_row c table _ roi.m_width p roi.m_cols)) _
          (Keeps-lift ResumesAt _)
          (λ (old, t).
            Keeps-bind ResumesAt (lift (unpack_row c table _ roi.m_width t roi.m_cols_ai)) _
              (Keeps-lift ResumesAt _) (λ (new, t'). handed table _ t'))

    do_row-ResumesAt :
        (table : Table) (kind : EventKind) (p : Bytes)
        → Keeps ResumesAt (do_row c table bei roi kind p)
    unfolding do_row
    do_row-ResumesAt table insert_kind p = do_writedelete_row-ResumesAt table p
    do_row-ResumesAt table update_kind p = do_update_row-ResumesAt table p
    do_row-ResumesAt table delete_kind p = do_writedelete_row-ResumesAt table p

    on_throw-ResumesAt :
        (handler : M Outside (Unit {0})) (r : Outcome Bytes × Outside)
        → Keeps ResumesAt handler
        → ResumesAt r.1
        → ResumesAt (on_throw c handler r).1
    unfolding Keeps
    on_throw-ResumesAt handler (ok t, s) k h = h
    on_throw-ResumesAt handler (throws e, s) k h = k s h
    on_throw-ResumesAt handler (fault, s) k h = h

    try_row-ResumesAt :
        (table : Table) (kind : EventKind) (event_stat : Bool) (p : Bytes)
        → Keeps ResumesAt (try_row c table bei roi kind event_stat p)
    unfolding try_row Keeps
    try_row-ResumesAt table kind event_stat p s h =
        let failed = tick_modify_event_failed roi.m_table_id kind in
        on_throw-ResumesAt (note c event_stat failed) (do_row c table bei roi kind p s)
          (note-ResumesAt event_stat failed) (do_row-ResumesAt table kind p s h)

    apply_rows-ResumesAt :
        (fuel : ℕ) (table : Table) (kind : EventKind) (event_stat : Bool) (p : Bytes)
        → Keeps ResumesAt (apply_rows c fuel table bei roi kind event_stat p)
    unfolding apply_rows Keeps
    apply_rows-ResumesAt zero table kind event_stat p s h = h
    apply_rows-ResumesAt (suc fuel) table kind event_stat p s h =
        elim (Bool-cases (ltb roi.m_rows_tail (length p))) [
          | inl e ↦
              let tell = note c event_stat (tick_modify_row_done roi.m_table_id kind) in
              let loop = apply_rows c fuel table bei roi kind event_stat in
              rw e (
                Keeps-at ResumesAt
                  (try_row c table bei roi kind event_stat p
                    >>= (λ t. tell >>= (λ _ calls. loop t calls)))
                  (Keeps-bind ResumesAt (try_row c table bei roi kind event_stat p)
                    (λ t. tell >>= (λ _ calls. loop t calls))
                    (try_row-ResumesAt table kind event_stat p)
                    (λ t.
                      Keeps-bind ResumesAt tell (λ _ calls. loop t calls)
                        (note-ResumesAt event_stat (tick_modify_row_done roi.m_table_id kind))
                        (λ _. apply_rows-ResumesAt fuel table kind event_stat t)))
                  s h)
          | inr e ↦ rw e h
        ]

    apply_to-ResumesAt :
        (found : Option Table) (kind : EventKind) (event_stat : Bool)
        → Keeps ResumesAt (apply_to c found bei roi kind event_stat)
    unfolding apply_to
    apply_to-ResumesAt none kind event_stat =
        Keeps-bind ResumesAt _ _ (note-ResumesAt event_stat _) (λ _. Keeps-pure ResumesAt (some tt))
    apply_to-ResumesAt (some table) kind event_stat =
        Keeps-if ResumesAt _ _ _
          (Keeps-bind ResumesAt _ _
            (apply_rows-ResumesAt (suc (length roi.m_rows_buf)) table kind event_stat
              roi.m_rows_buf)
            (λ finished.
              Keeps-bind ResumesAt _ _
                (note-ResumesAt event_stat (tick_modify_event_done roi.m_table_id kind))
                (λ _. Keeps-pure ResumesAt finished)))
          (Keeps-bind ResumesAt _ _
            (note-ResumesAt event_stat (tick_modify_event_filtered roi.m_table_id kind))
            (λ _.
              Keeps-bind ResumesAt _ _
                (note-ResumesAt event_stat (tick_modify_event_ignored roi.m_table_id kind))
                (λ _. Keeps-pure ResumesAt (some tt))))

    pub apply_row_event-ResumesAt :
        (rli : RelayLogInfo) (event_stat : Bool)
        → Keeps ResumesAt (apply_row_event c rli bei roi event_stat)
    unfolding apply_row_event
    apply_row_event-ResumesAt rli event_stat =
        Keeps-bind ResumesAt (lift (event_kind c bei.type)) _ (Keeps-lift ResumesAt _)
          (λ kind. apply_to-ResumesAt _ kind event_stat)
