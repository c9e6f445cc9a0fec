-- ===== src/Rows/Delivery.antt =====
-- The rows that the loop of `apply_row_event` hands to the callback.
use libslave.Common.{
  ℕ, zero, suc, ◌≤◌, ◌<◌, ◌≡◌, refl, arith, Bool, true, false, Bytes, List, [], ◌∷◌, Outcome, ok,
  throws, fault, length, ltb, some, Option,
}
use libslave.Common.Effects.{M, ◌>>=◌, pure, after}
use libslave.Field.Unpack.{Platform}
use libslave.Event.Defs.{BasicEventInfo, RowEventInfo}
use libslave.Table.Defs.{
  Table, RecordSet, update, EventKind, insert_kind, update_kind, delete_kind, full_name,
  should_process, RelayLogInfo, get_table_name_by_id, get_table,
}
use libslave.State.Default
use libslave.Rows.Defs.{AnyRow, unpack_row}
use libslave.Rows.Apply.{
  Call, Outside, inc_table_count, set_last_filtered_update_time, callback, tick_modify_row_done,
  tick_modify_event_failed, tick_modify_event_done, event_kind, apply_to, apply_row_event,
  call_callback, call_set_update_time, fresh_row, with_row, with_old_row, blank, do_writedelete_row,
  do_update_row, do_row, try_row, on_throw, note, apply_rows,
}

module _ (c : Platform) (table : Table) (bei : BasicEventInfo) (roi : RowEventInfo) where
  -- The first row of p is the record set, and the rows behind it are `rest`.
  abbrev pub Reads : EventKind → Bytes → RecordSet → Bytes → Type 0
  Reads update_kind p rs rest =
      (old : AnyRow) × ((mid : Bytes) × ((new : AnyRow) × ((unpack_row c table
                (fresh_row table.row_type) roi.m_width p roi.m_cols
              ≡ ok (old, mid))
            × ((unpack_row c table (fresh_row table.row_type) roi.m_width mid roi.m_cols_ai
                  ≡ ok (new, rest))
                × ((record (with_row (with_old_row (blank table bei) old) new) {
                  type_event = update;
                })
                    ≡ rs)))))
  Reads insert_kind p rs rest =
      (row : AnyRow) × ((unpack_row c table (fresh_row table.row_type) roi.m_width p roi.m_cols
          ≡ ok (row, rest))
        × (with_row (blank table bei) row ≡ rs))
  Reads delete_kind p rs rest =
      (row : AnyRow) × ((unpack_row c table (fresh_row table.row_type) roi.m_width p roi.m_cols
          ≡ ok (row, rest))
        × (with_row (blank table bei) row ≡ rs))

  -- The bytes are the rows of the record sets, none of them empty, as far as the event's end.
  abbrev pub HoldsRows : EventKind → Bytes → List RecordSet → Type 0
  HoldsRows kind p [] = length p ≤ roi.m_rows_tail
  HoldsRows kind p (rs ∷ sets) =
      (roi.m_rows_tail < length p)
      × ((rest : Bytes) × (Reads kind p rs rest
            × ((length rest < length p) × HoldsRows kind rest sets)))

  abbrev pub noted : Bool → Call → Outside → Outside
  noted true call s = record s { calls = call ∷ s.calls }
  noted false call s = s

  -- A record set is handed over: the table is counted, and the time of this update is noted.
  abbrev pub called : RecordSet → Outside → Outside
  unfolding full_name
  called rs s = record {
    calls =
        callback rs ∷ set_last_filtered_update_time ∷ inc_table_count (full_name table) ∷ s.calls;
    ext_state = record (s.ext_state) { last_filtered_update = c.clock (suc (length s.calls)) };
  }

  -- The record sets are handed over one by one, up to the first that the callback throws on.
  unfoldable pub deliver :
      EventKind → Bool → List RecordSet → Outside → Outcome (Option (Unit {0})) × Outside
  deliver kind event_stat [] s = (ok (some tt), s)
  deliver kind event_stat (rs ∷ sets) s = elim (table.m_callback rs) [
    | ok u ↦
        deliver kind event_stat sets
          (noted event_stat (tick_modify_row_done roi.m_table_id kind) (called rs s))
    | throws e ↦
        (throws e, noted event_stat (tick_modify_event_failed roi.m_table_id kind) (called rs s))
    | fault ↦ (fault, called rs s)
  ]

  -- What the callback answers, and the rest of the rows.
  abbrev pub answered : Bytes → Outcome (Unit {0}) → Outcome Bytes
  answered rest (ok u) = ok rest
  answered rest (throws e) = throws e
  answered rest fault = fault

  call_callback-answered :
      (rs : RecordSet) (rest : Bytes) (s : Outside)
      → (call_callback c table rs >>= (λ _. pure rest)) s
        ≡ (answered rest (table.m_callback rs), called rs s)
  unfolding call_callback call_set_update_time Default.set_last_filtered_update_time
  call_callback-answered rs rest s = go (table.m_callback rs)
    where
      go :
          (r : Outcome (Unit {0}))
          → after (λ _. pure rest) (r, called rs s) ≡ (answered rest r, called rs s)
      go (ok u) = refl
      go (throws e) = refl
      go fault = refl

  pub do_row-Reads :
      (kind : EventKind) (p : Bytes) (rs : RecordSet) (rest : Bytes) (s : Outside)
      → Reads kind p rs rest
      → do_row c table bei roi kind p s ≡ (answered rest (table.m_callback rs), called rs s)
  unfolding do_row do_writedelete_row do_update_row
  do_row-Reads update_kind p rs rest s (old, (mid, (new, (e, (e', same))))) =
      rw (e, e', same) (call_callback-answered rs rest s)
  do_row-Reads insert_kind p rs rest s (row, (e, same)) =
      rw (e, same) (call_callback-answered rs rest s)
  do_row-Reads delete_kind p rs rest s (row, (e, same)) =
      rw (e, same) (call_callback-answered rs rest s)

  round :
      (event_stat : Bool) (rs : RecordSet) (rest : Bytes) (s : Outside) (kind : EventKind)
      (K : Bytes → M Outside (Option (Unit {0}))) (next : M Outside (Option (Unit {0})))
      → ((s : Outside) → K rest s ≡ next s)
      → (r : Outcome (Unit {0}))
      → after
          (λ t.
            note c event_stat (tick_modify_row_done roi.m_table_id kind) >>= (λ _ calls. K t calls))
          (on_throw c
            (note c event_stat (tick_modify_event_failed roi.m_table_id kind))
            (answered rest r, called rs s))
        ≡ elim r [
          | ok u ↦ next (noted event_stat (tick_modify_row_done roi.m_table_id kind) (called rs s))
          | throws e ↦ (
            throws e,
            noted event_stat (tick_modify_event_failed roi.m_table_id kind) (called rs s),
          )
          | fault ↦ (fault, called rs s)
        ]
  round true rs rest s kind K next e (ok u) = e _
  round false rs rest s kind K next e (ok u) = e _
  round true rs rest s kind K next e (throws x) = refl
  round false rs rest s kind K next e (throws x) = refl
  round true rs rest s kind K next e fault = refl
  round false rs rest s kind K next e fault = refl

  count-HoldsRows :
      (kind : EventKind) (p : Bytes) (sets : List RecordSet)
      → HoldsRows kind p sets
      → length sets ≤ length p
  count-HoldsRows kind p [] held = omega arith
  count-HoldsRows kind p (rs ∷ sets) (more, (rest, (reads, (less, held)))) =
      let behind = count-HoldsRows kind rest sets held in omega arith

  apply_rows-deliver :
      (fuel : ℕ) (kind : EventKind) (event_stat : Bool) (p : Bytes) (sets : List RecordSet)
      (s : Outside)
      → length sets < fuel
      → HoldsRows kind p sets
      → apply_rows c fuel table bei roi kind event_stat p s ≡ deliver kind event_stat sets s
  unfolding apply_rows deliver try_row
  apply_rows-deliver zero kind event_stat p sets s h held = absurd (omega arith)
  apply_rows-deliver (suc fuel) kind event_stat p [] s h held =
      let done : ltb roi.m_rows_tail (length p) ≡ false = ground arith in rw done
  apply_rows-deliver (suc fuel) kind event_stat p (rs ∷ sets) s h
        (more, (rest, (reads, (shorter, held)))) =
      let inside : ltb roi.m_rows_tail (length p) ≡ true = ground arith in
      let first = do_row-Reads kind p rs rest s reads in
      let ih = apply_rows-deliver fuel kind event_stat rest sets in
      rw (inside, first)
        (round event_stat rs rest s kind (λ t. apply_rows c fuel table bei roi kind event_stat t)
          (deliver kind event_stat sets) (λ s. ih s (omega arith) held) (table.m_callback rs))

  abbrev pub done :
      EventKind
      → Bool
      → Outcome (Option (Unit {0})) × Outside
      → Outcome (Option (Unit {0})) × Outside
  done kind event_stat (ok r, s) =
      (ok r, noted event_stat (tick_modify_event_done roi.m_table_id kind) s)
  done kind event_stat (throws e, s) = (throws e, s)
  done kind event_stat (fault, s) = (fault, s)

  then_done :
      (kind : EventKind) (event_stat : Bool) (r : Outcome (Option (Unit {0})) × Outside)
      → after
          (λ finished.
            note c event_stat (tick_modify_event_done roi.m_table_id kind) >>= (λ _. pure finished))
          r
        ≡ done kind event_stat r
  then_done kind true (ok r, s) = refl
  then_done kind false (ok r, s) = refl
  then_done kind event_stat (throws e, s) = refl
  then_done kind event_stat (fault, s) = refl

  -- Where the table of a row event is known and its filter lets the kind of event through, and the
  -- bytes of the event are the rows of some record sets, none of them empty, `apply_row_event` hands
  -- these to the callback in their order. It stops at the first exception, which it passes on behind
  -- a note of the failure, or at a fault, and notes the event as done where there is neither.
  pub apply_row_event-deliver :
      (rli : RelayLogInfo) (kind : EventKind) (event_stat : Bool) (sets : List RecordSet)
      (s : Outside)
      → event_kind c bei.type ≡ ok kind
      → get_table (get_table_name_by_id roi.m_table_id rli) rli ≡ some table
      → should_process table.m_filter kind ≡ true
      → HoldsRows kind roi.m_rows_buf sets
      → apply_row_event c rli bei roi event_stat s
        ≡ done kind event_stat (deliver kind event_stat sets s)
  unfolding apply_row_event apply_to
  apply_row_event-deliver rli kind event_stat sets s known found passes held =
      let few = count-HoldsRows kind roi.m_rows_buf sets held in
      let rows =
        apply_rows-deliver (suc (length roi.m_rows_buf)) kind event_stat roi.m_rows_buf sets s
          (omega arith) held in
      rw (known, found, passes, rows) (then_done kind event_stat (deliver kind event_stat sets s))
