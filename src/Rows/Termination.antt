-- ===== src/Rows/Termination.antt =====
-- The fuel of the loop over the rows of an event.
use libslave.Common.{
  ℕ, zero, suc, ◌<◌, ◌≡◌, arith, Bool, Bytes, Outcome, ok, throws, fault, Ensures, length, ltb,
  Bool-cases, inl, inr, some, none, Option,
}
use libslave.Common.Effects.{M, ◌>>=◌, lift, pure, Ensures-after}
use libslave.Field.Unpack.{Platform}
use libslave.Field.Shrinks.{Any, Ensures-Any}
use libslave.Event.Defs.{BasicEventInfo, RowEventInfo}
use libslave.Table.Defs.{
  Table, EventKind, insert_kind, update_kind, delete_kind, should_process, RelayLogInfo,
  get_table_name_by_id, get_table,
}
use libslave.Rows.Defs.{n_set_bits, unpack_row}
use libslave.Rows.Apply.{
  Outside, call_callback, fresh_row, do_writedelete_row, do_update_row, do_row, apply_rows,
  apply_to, on_throw, try_row, note, tick_modify_event_failed, tick_modify_row_done,
  tick_modify_event_done, tick_modify_event_filtered, tick_modify_event_ignored, event_kind,
  apply_row_event,
}
use libslave.Rows.Ends.{Shorter, Leaves, unpack_row-Shorter, unpack_row-Leaves}

-- The event has a column.
abbrev pub HasColumn : RowEventInfo → Type 0
HasColumn roi = (k : ℕ) × (n_set_bits roi.m_cols roi.m_width ≡ ok (suc k))

-- The loop has ended, and not by its fuel.
abbrev pub IsDone : Option (Unit {0}) → Type 0
IsDone none = ⊥
IsDone (some u) = Unit {0}

abbrev Behind : Bytes → Bytes → Type 0
Behind p t = length t < length p

module _ (c : Platform) (table : Table) (bei : BasicEventInfo) (roi : RowEventInfo)
    (some_column : HasColumn roi) where
  do_writedelete_row-Behind :
      (p : Bytes) (s : Outside) → Ensures (Behind p) (do_writedelete_row c table bei roi p s).0
  unfolding do_writedelete_row
  do_writedelete_row-Behind p s =
      Ensures-after (Shorter c table p) (Behind p)
        (lift (unpack_row c table (fresh_row table.row_type) roi.m_width p roi.m_cols)) _ s
        (unpack_row-Shorter c table (fresh_row table.row_type) roi.m_width p roi.m_cols
          some_column.0 some_column.1)
        (λ (row, t) s1 h.
          Ensures-after Any (Behind p) (call_callback c table _) _ s1 (Ensures-Any _) (λ u s2 _. h))

  do_update_row-Behind :
      (p : Bytes) (s : Outside) → Ensures (Behind p) (do_update_row c table bei roi p s).0
  unfolding do_update_row
  do_update_row-Behind p s =
      Ensures-after (Shorter c table p) (Behind p)
        (lift (unpack_row c table (fresh_row table.row_type) roi.m_width p roi.m_cols)) _ s
        (unpack_row-Shorter c table (fresh_row table.row_type) roi.m_width p roi.m_cols
          some_column.0 some_column.1)
        (λ (old, t) s1 h.
          Ensures-after (Leaves c table (length t)) (Behind p)
            (lift (unpack_row c table (fresh_row table.row_type) roi.m_width t roi.m_cols_ai)) _ s1
            (unpack_row-Leaves c table (fresh_row table.row_type) roi.m_width t roi.m_cols_ai)
            (λ (new, t') s2 h'.
              Ensures-after Any (Behind p) (call_callback c table _) _ s2 (Ensures-Any _)
                (λ u s3 _. omega arith)))

  do_row-Behind :
      (kind : EventKind) (p : Bytes) (s : Outside)
      → Ensures (Behind p) (do_row c table bei roi kind p s).0
  unfolding do_row
  do_row-Behind insert_kind p s = do_writedelete_row-Behind p s
  do_row-Behind update_kind p s = do_update_row-Behind p s
  do_row-Behind delete_kind p s = do_writedelete_row-Behind p s

  on_throw-Behind :
      (handler : M Outside (Unit {0})) (p : Bytes) (r : Outcome Bytes × Outside)
      → Ensures (Behind p) r.0
      → Ensures (Behind p) (on_throw c handler r).0
  on_throw-Behind handler p (ok t, s) h = h
  on_throw-Behind handler p (throws e, s) h = tt
  on_throw-Behind handler p (fault, s) h = tt

  try_row-Behind :
      (kind : EventKind) (event_stat : Bool) (p : Bytes) (s : Outside)
      → Ensures (Behind p) (try_row c table bei roi kind event_stat p s).0
  unfolding try_row
  try_row-Behind kind event_stat p s =
      on_throw-Behind (note c event_stat (tick_modify_event_failed roi.m_table_id kind)) p
        (do_row c table bei roi kind p s) (do_row-Behind kind p s)

  apply_rows-IsDone :
      (fuel : ℕ) (kind : EventKind) (event_stat : Bool) (p : Bytes) (s : Outside)
      → length p < fuel
      → Ensures IsDone (apply_rows c fuel table bei roi kind event_stat p s).0
  unfolding apply_rows
  apply_rows-IsDone zero kind event_stat p s h = absurd (omega arith)
  apply_rows-IsDone (suc fuel) kind event_stat p s h =
      elim (Bool-cases (ltb roi.m_rows_tail (length p))) [
        | inl e ↦
            let tell = note c event_stat (tick_modify_row_done roi.m_table_id kind) in
            rw e (
              Ensures-after (Behind p) IsDone (try_row c table bei roi kind event_stat p)
                (λ t. tell >>= (λ _ calls. apply_rows c fuel table bei roi kind event_stat t calls))
                s (try_row-Behind kind event_stat p s)
                (λ t s1 less.
                  Ensures-after Any IsDone tell
                    (λ _ calls. apply_rows c fuel table bei roi kind event_stat t calls) s1
                    (Ensures-Any (tell s1).0)
                    (λ _ s2 _. apply_rows-IsDone fuel kind event_stat t s2 (omega arith))))
        | inr e ↦ rw e tt
      ]

module _ (c : Platform) (bei : BasicEventInfo) (roi : RowEventInfo) (event_stat : Bool) where
  apply_to-IsDone :
      (found : Option Table) (kind : EventKind) (s : Outside)
      → HasColumn roi
      → Ensures IsDone (apply_to c found bei roi kind event_stat s).0
  unfolding apply_to
  apply_to-IsDone none kind s h =
      Ensures-after Any IsDone (note c event_stat (tick_modify_event_ignored roi.m_table_id kind))
        (λ _. pure (some tt)) s (Ensures-Any _) (λ _ _ _. tt)
  apply_to-IsDone (some table) kind s h = elim (Bool-cases (should_process table.m_filter kind)) [
    | inl e ↦ rw e (
        Ensures-after IsDone IsDone
          (apply_rows c (suc (length roi.m_rows_buf)) table bei roi kind event_stat roi.m_rows_buf)
          _ s
          (apply_rows-IsDone c table bei roi h (suc (length roi.m_rows_buf)) kind event_stat
            roi.m_rows_buf s (omega arith))
          (λ finished s1 done.
            Ensures-after Any IsDone
              (note c event_stat (tick_modify_event_done roi.m_table_id kind)) (λ _. pure finished)
              s1 (Ensures-Any _) (λ _ _ _. done)))
    | inr e ↦ rw e (
        Ensures-after Any IsDone
          (note c event_stat (tick_modify_event_filtered roi.m_table_id kind)) _ s (Ensures-Any _)
          (λ _ s1 _.
            Ensures-after Any IsDone
              (note c event_stat (tick_modify_event_ignored roi.m_table_id kind))
              (λ _. pure (some tt)) s1 (Ensures-Any _) (λ _ _ _. tt)))
  ]

  -- Where a column of the event is there, `apply_row_event` ends for every table, packet and kind of
  -- event: the fuel of its loop is not exhausted.
  pub apply_row_event-IsDone :
      (rli : RelayLogInfo) (s : Outside)
      → HasColumn roi
      → Ensures IsDone (apply_row_event c rli bei roi event_stat s).0
  unfolding apply_row_event
  apply_row_event-IsDone rli s h =
      Ensures-after Any IsDone (lift (event_kind c bei.type))
        (λ kind.
          apply_to c (get_table (get_table_name_by_id roi.m_table_id rli) rli) bei roi kind
            event_stat)
        s (Ensures-Any _) (λ kind s1 _. apply_to-IsDone _ kind s1 h)
