-- ===== src/Event/Read.antt =====
-- slave_log_event.cpp: `check_format_description` and `read_log_event`.
use libslave.Common.{
  ℕ, ◌+◌, ◌-◌, ◌%◌, Bool, true, false, Bytes, List, [], ◌∷◌, Outcome, ok, ltb, leb, ◌==◌, ◌&&◌,
  ◌||◌, not, if◌then◌else◌, take, drop, throw_if, get_elem?, bad_binlog_version,
  bad_format_description, bad_event, bad_checksum,
}
use libslave.Common.{some, none}
use libslave.Common.{◌>>=◌ as bind_outcome}
use libslave.Common.Effects.{M, ◌>>=◌, lift, pure, modify, when}
use libslave.Wire.{Wire, le}
use libslave.Field.Unpack.{peek}
use libslave.Event.Headers.{parse, sub32}
use libslave.Event.Defs.{
  BasicEventInfo, query_event, rotate_event, format_description_event, xid_event, table_map_event,
  write_rows_event_v1, update_rows_event_v1, delete_rows_event_v1, write_rows_event,
  update_rows_event, delete_rows_event, gtid_log_event, heartbeat_log_event,
  previous_gtids_log_event, enum_end_event,
}

-- The calls on `EventStatIface` that `read_log_event` makes.
pub data Tick : Type 0 where
  tick : (when : ℕ) → Tick
  tick_format_description tick_query tick_rotate tick_xid tick_other : Tick

-- `enum_binlog_checksum_alg` is a number: 0 is none, 1 is CRC32.
abbrev pub checksum_off : ℕ
checksum_off = 0

abbrev pub checksum_crc32 : ℕ
checksum_crc32 = 1

-- `master_info.checksum_alg`, and the calls made so far, the last one first.
pub record ReadState : Type 0 where
  pub checksum_alg : ℕ
  pub ticks : List Tick

-- `check_format_description_postlen`: `lens` is the array of header lengths.
abbrev postlen_is : Bytes → ℕ → ℕ → Bool
postlen_is lens type len = elim (get_elem? lens (type - 1)) [ none ↦ false | some b ↦ b == len ]

-- The header lengths of the event types that are read. `number` is the length of the list.
unfoldable pub postlens_match : Bytes → ℕ → Bool → Bool
postlens_match lens number master_ge_56 =
    postlen_is lens xid_event 0
    && (postlen_is lens query_event 13
        && (postlen_is lens rotate_event 8
            && (postlen_is lens format_description_event ((57 + number) % 256)
                && (postlen_is lens table_map_event 8
                    && (postlen_is lens write_rows_event_v1 8
                        && (postlen_is lens update_rows_event_v1 8
                            && (postlen_is lens delete_rows_event_v1 8
                                && (not master_ge_56
                                    || (postlen_is lens write_rows_event 10
                                        && (postlen_is lens update_rows_event 10
                                            && postlen_is lens delete_rows_event 10))))))))))

-- `memcpy` takes 38 lengths, however many the event has; `uint16_t` is read low byte first.
unfoldable pub check_format_description : Bytes → ℕ → Bool → Outcome (Unit {0})
unfolding le postlens_match
check_format_description buf event_len master_ge_56 =
    bind_outcome (peek 2 (le 2) (drop 19 buf)) λ version.
      bind_outcome (throw_if (not (version == 4)) bad_binlog_version) λ _.
        bind_outcome (peek 1 (le 1) (drop 75 buf)) λ header_len.
          bind_outcome (throw_if (not (header_len == 19)) bad_format_description) λ _.
            let number = sub32 event_len 76 in
            bind_outcome (throw_if (ltb 38 number) bad_format_description) λ _.
              bind_outcome (peek 38 (take 38) (drop 76 buf)) λ lens.
                throw_if (not (postlens_match lens number master_ge_56)) bad_format_description

-- The event types that `read_log_event` accepts for processing, in the order of its `switch`.
abbrev pub is_rows_event : ℕ → Bool
is_rows_event type =
    (type == write_rows_event_v1 || (type == update_rows_event_v1 || type == delete_rows_event_v1))
    || (type == write_rows_event || (type == update_rows_event || type == delete_rows_event))

unfoldable pub note : Bool → Tick → M ReadState (Unit {0})
note event_stat t = when event_stat (modify (λ s. record s { ticks = t ∷ s.ticks }))

-- `crc32` is zlib's: the sum so far, and the bytes to go on with.
module _ (w : Wire) (crc32 : ℕ → Bytes → ℕ) where
  -- The algorithm that a format description event announces, at the end of the event.
  unfoldable pub learn_checksum : Bytes → ℕ → Bool → BasicEventInfo → M ReadState (Unit {0})
  unfolding le
  learn_checksum buf event_len master_ge_56 bei =
      when (master_ge_56 && bei.type == format_description_event) do
        alg ← lift (peek 1 (le 1) (drop (event_len - 5) buf))
        when (alg == checksum_off || alg == checksum_crc32)
            (modify (λ s. record s { checksum_alg = alg }))

  -- The checksum is the last four bytes, low byte first; `crc32(0, NULL, 0)` is the first value.
  unfoldable pub matching : Bytes → ℕ → BasicEventInfo → Outcome BasicEventInfo
  unfolding le
  matching buf event_len bei = bind_outcome (peek 4 (le 4) (drop (event_len - 4) buf)) λ incoming.
      let computed = crc32 (crc32 0 []) (take (event_len - 4) buf) in
      bind_outcome (throw_if (not (incoming == computed)) bad_checksum)
        λ _. ok (record bei { event_len = event_len - 4 })

  unfoldable pub verify_checksum : Bytes → ℕ → BasicEventInfo → M ReadState BasicEventInfo
  unfolding matching
  verify_checksum buf event_len bei s =
      (if s.checksum_alg == checksum_crc32 then matching buf event_len bei else ok bei, s)

  unfoldable pub on_description : Bytes → ℕ → Bool → Bool → M ReadState Bool
  unfolding check_format_description note
  on_description buf event_len event_stat master_ge_56 =
      lift (
        check_format_description buf (if master_ge_56 then sub32 event_len 5 else event_len)
          master_ge_56)
      >>= (λ _. note event_stat tick_format_description >>= (λ _. pure true))

  unfoldable pub dispatch : Bytes → ℕ → Bool → Bool → BasicEventInfo → M ReadState Bool
  unfolding on_description note
  dispatch buf event_len event_stat master_ge_56 bei =
      if bei.type == format_description_event
      then on_description buf event_len event_stat master_ge_56
      else if bei.type == query_event
      then note event_stat tick_query >>= (λ _. pure true)
      else if bei.type == rotate_event
      then note event_stat tick_rotate >>= (λ _. pure true)
      else if bei.type == xid_event
      then note event_stat tick_xid >>= (λ _. pure true)
      else if is_rows_event bei.type || (bei.type == table_map_event || bei.type == gtid_log_event)
      then pure true
      else note event_stat tick_other >>= (λ _. pure false)

  -- The header, and the length that it declares.
  unfoldable pub open_event : Bytes → ℕ → Outcome BasicEventInfo
  unfolding parse
  open_event buf event_len = bind_outcome (parse w buf event_len) λ bei.
      bind_outcome (peek 4 w.uint4korr (drop 9 buf)) λ declared.
        bind_outcome
          (throw_if
            (ltb event_len 9 || (leb enum_end_event bei.type || not (event_len == declared)))
            bad_event)
          λ _. ok bei

  abbrev pub has_no_time : ℕ → Bool
  has_no_time type =
      type == format_description_event
      || (type == rotate_event || (type == heartbeat_log_event || type == previous_gtids_log_event))

  unfoldable pub note_time : Bool → BasicEventInfo → M ReadState (Unit {0})
  unfolding note
  note_time event_stat bei = when (not (has_no_time bei.type)) (note event_stat (tick bei.when))

  -- An event, and whether it is to be processed. `event_stat` says that there is a listener.
  unfoldable pub read_log_event : Bytes → ℕ → Bool → Bool → M ReadState (BasicEventInfo × Bool)
  unfolding open_event learn_checksum verify_checksum note_time dispatch
  read_log_event buf event_len event_stat master_ge_56 = lift (open_event buf event_len) >>= (λ bei.
      learn_checksum buf event_len master_ge_56 bei
      >>= (λ _. verify_checksum buf event_len bei)
      >>= (λ bei'.
          note_time event_stat bei
          >>= (λ _. dispatch buf event_len event_stat master_ge_56 bei)
          >>= (λ accepted. pure (bei', accepted))))
