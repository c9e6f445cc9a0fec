-- ===== src/Event/Safe.antt =====
-- Reads of `read_log_event` inside the packet.
use libslave.Common.{
  ℕ, ◌⊎◌, inl, inr, ◌+◌, ◌-◌, ◌≤◌, ◌≡◌, arith, Bool, true, false, not, ◌||◌, ◌==◌, Bytes, ok,
  if◌then◌else◌, take, drop, length, length-drop, ltb, leb, throw_if, header_too_short, bad_event,
  bad_checksum, [], bad_binlog_version, bad_format_description, Bool-cases,
}
use libslave.Common.Effects.{◌>>=◌, lift, modify}
use libslave.Wire.{Wire, le}
use libslave.Event.Headers.{parse, widen_char, sub32}
use libslave.Event.Defs.{BasicEventInfo, format_description_event, enum_end_event}
use libslave.Event.Read.{
  ReadState, tick, tick_query, tick_rotate, tick_xid, tick_other, checksum_off, checksum_crc32,
  postlens_match, note, matching, learn_checksum, verify_checksum, dispatch, open_event, note_time,
  read_log_event, on_description, check_format_description, tick_format_description,
}
use libslave.Event.Calls.{
  Safe, Anything, Safe-bind, Safe-after, throw_if-Safe, either_way, Safe-throw_if, Safe-when,
  AlwaysSafe, AlwaysSafe-if, AlwaysSafe-pure, note-Safe, note_and-Safe,
}

module _ (w : Wire) (crc32 : ℕ → Bytes → ℕ) (buf : Bytes) (event_len : ℕ)
    (inside : event_len ≤ length buf) where
  -- A read of n bytes behind the first k is inside the packet.
  fits : (k n : ℕ) → k + n ≤ event_len → ltb (length (drop k buf)) n ≡ false
  fits k n h = let size = length-drop k buf in ground arith

  -- The event is no format description, or 38 header lengths stand behind its fixed part of 76 bytes.
  abbrev pub IsReadable : ℕ → Type 0
  IsReadable type = ((type == format_description_event) ≡ false) ⊎ (114 ≤ length buf)

  abbrev IsOpened : BasicEventInfo → Type 0
  IsOpened bei = IsReadable bei.type × (17 ≤ event_len)

  widen_char-other :
      (b : ℕ)
      → (b == format_description_event) ≡ false
      → (widen_char b == format_description_event) ≡ false
  widen_char-other b h = ground arith

  widen_char-IsReadable : (b : ℕ) → IsReadable b → IsReadable (widen_char b)
  widen_char-IsReadable b (inl h) = inl (widen_char-other b h)
  widen_char-IsReadable b (inr h) = inr h

  parse-Safe : IsReadable (le 1 (drop 4 buf)) → Safe IsOpened (parse w buf event_len)
  unfolding parse
  parse-Safe other =
      Safe-bind (λ _. ltb event_len 17 ≡ false) IsOpened
        (throw_if (ltb event_len 17) header_too_short) _
        (throw_if-Safe (ltb event_len 17) header_too_short)
        (λ _ long.
          let enough : 17 ≤ event_len = ground arith in
          rw
            (
              fits 4 1 (omega arith),
              fits 0 4 (omega arith),
              fits 5 4 (omega arith),
              fits 13 4 (omega arith),
            )
            (widen_char-IsReadable (le 1 (drop 4 buf)) other, enough))

  open_event-Safe :
      IsReadable (le 1 (drop 4 buf)) → Safe IsOpened (open_event w crc32 buf event_len)
  unfolding open_event
  open_event-Safe other =
      Safe-bind IsOpened IsOpened (parse w buf event_len) _ (parse-Safe other) (λ bei opened.
        rw (fits 9 4 (omega arith)) (
          Safe-throw_if IsOpened
            (ltb event_len 9
              || (leb enum_end_event bei.type || not (event_len == w.uint4korr (drop 9 buf))))
            bad_event (ok bei) opened))

  matching-Safe :
      (bei : BasicEventInfo) → 17 ≤ event_len → Safe Anything (matching w crc32 buf event_len bei)
  unfolding matching
  matching-Safe bei long = rw (fits (event_len - 4) 4 (omega arith)) (
      Safe-throw_if Anything
        (not (le 4 (drop (event_len - 4) buf) == crc32 (crc32 0 []) (take (event_len - 4) buf)))
        bad_checksum (ok (record bei { event_len = event_len - 4 })) tt)

  verify_checksum-Safe :
      (bei : BasicEventInfo) (s : ReadState)
      → 17 ≤ event_len
      → Safe Anything (verify_checksum w crc32 buf event_len bei s).0
  unfolding verify_checksum
  verify_checksum-Safe bei s long = go (s.checksum_alg == checksum_crc32)
    where
      go : (b : Bool) → Safe Anything (if b then matching w crc32 buf event_len bei else ok bei)
      go true = matching-Safe bei long
      go false = tt

  -- The algorithm of a format description is read inside the event.
  learn_checksum-Safe :
      (ge56 : Bool) (bei : BasicEventInfo) (s : ReadState)
      → 17 ≤ event_len
      → Safe Anything (learn_checksum w crc32 buf event_len ge56 bei s).0
  unfolding learn_checksum
  learn_checksum-Safe false bei s long = tt
  learn_checksum-Safe true bei s long = Safe-when (bei.type == format_description_event) _ s (
      rw (fits (event_len - 5) 1 (omega arith)) (
        let alg = le 1 (drop (event_len - 5) buf) in
        Safe-when (alg == checksum_off || alg == checksum_crc32)
          (modify (λ t. record t { checksum_alg = alg })) s tt))

  -- The tests on a format description read the fixed part and the lengths.
  held : (k n : ℕ) → k + n ≤ 114 → 114 ≤ length buf → ltb (length (drop k buf)) n ≡ false
  held k n h long = let size = length-drop k buf in ground arith

  check_format_description-Safe :
      (n : ℕ) (ge56 : Bool) → 114 ≤ length buf → Safe Anything (check_format_description buf n ge56)
  unfolding check_format_description
  check_format_description-Safe n ge56 long =
      rw (held 19 2 (omega arith) long, held 75 1 (omega arith) long, held 76 38 (omega arith) long)
        (Safe-throw_if Anything (not (le 2 (drop 19 buf) == 4)) bad_binlog_version _ (
          Safe-throw_if Anything (not (le 1 (drop 75 buf) == 19)) bad_format_description _ (
            Safe-throw_if Anything (ltb 38 (sub32 n 76)) bad_format_description _ (
              either_way (not (postlens_match (take 38 (drop 76 buf)) (sub32 n 76) ge56))
                bad_format_description))))

  on_description-Safe :
      (event_stat ge56 : Bool)
      → 114 ≤ length buf
      → AlwaysSafe (on_description w crc32 buf event_len event_stat ge56)
  unfolding on_description AlwaysSafe
  on_description-Safe event_stat ge56 long s =
      Safe-after Anything Anything (lift (check_format_description buf _ ge56) s) _
        (check_format_description-Safe _ ge56 long)
        (λ _ t _. note_and-Safe event_stat tick_format_description true t)

  dispatch_readable-Safe :
      (event_stat ge56 : Bool) (bei : BasicEventInfo)
      → IsReadable bei.type
      → AlwaysSafe (dispatch w crc32 buf event_len event_stat ge56 bei)
  unfolding dispatch
  dispatch_readable-Safe event_stat ge56 bei readable =
      elim (Bool-cases (bei.type == format_description_event)) [
        | inl e ↦ rw e (on_description-Safe event_stat ge56 (lengths_there readable e))
        | inr e ↦ rw e (
            AlwaysSafe-if _ _ _ (note_and-Safe event_stat tick_query true) (
              AlwaysSafe-if _ _ _ (note_and-Safe event_stat tick_rotate true) (
                AlwaysSafe-if _ _ _ (note_and-Safe event_stat tick_xid true) (
                  AlwaysSafe-if _ _ _ (AlwaysSafe-pure true)
                    (note_and-Safe event_stat tick_other false)))))
      ]
    where
      lengths_there :
          IsReadable bei.type → (bei.type == format_description_event) ≡ true → 114 ≤ length buf
      lengths_there (inl h) e = cc
      lengths_there (inr h) e = h

  dispatch-Safe :
      (event_stat ge56 : Bool) (bei : BasicEventInfo) (s : ReadState)
      → IsReadable bei.type
      → Safe Anything (dispatch w crc32 buf event_len event_stat ge56 bei s).0
  unfolding AlwaysSafe
  dispatch-Safe event_stat ge56 bei s other = dispatch_readable-Safe event_stat ge56 bei other s

  note_time-Safe :
      (event_stat : Bool) (bei : BasicEventInfo) (s : ReadState)
      → Safe Anything (note_time w crc32 event_stat bei s).0
  unfolding note_time
  note_time-Safe event_stat bei s =
      Safe-when _ (note event_stat (tick bei.when)) s (note-Safe event_stat (tick bei.when) s)

  -- `read_log_event` reads no byte outside the packet, whatever the packet holds, where the length
  -- that it is given is not above the packet's, and the event is no format description or the packet
  -- has 114 bytes or more.
  pub read_log_event-Safe :
      (event_stat ge56 : Bool) (s : ReadState)
      → IsReadable (le 1 (drop 4 buf))
      → Safe Anything (read_log_event w crc32 buf event_len event_stat ge56 s).0
  unfolding read_log_event
  read_log_event-Safe event_stat ge56 s other =
      Safe-after IsOpened Anything (lift (open_event w crc32 buf event_len) s) _
        (open_event-Safe other)
        (λ bei s1 (o, long).
          Safe-after Anything Anything
            ((learn_checksum w crc32 buf event_len ge56 bei
                >>= (λ _. verify_checksum w crc32 buf event_len bei))
              s1)
            _
            (Safe-after Anything Anything (learn_checksum w crc32 buf event_len ge56 bei s1) _
              (learn_checksum-Safe ge56 bei s1 long) (λ _ s2 _. verify_checksum-Safe bei s2 long))
            (λ checked s3 _.
              Safe-after Anything Anything
                ((note_time w crc32 event_stat bei
                    >>= (λ _. dispatch w crc32 buf event_len event_stat ge56 bei))
                  s3)
                _
                (Safe-after Anything Anything (note_time w crc32 event_stat bei s3) _
                  (note_time-Safe event_stat bei s3)
                  (λ _ s4 _. dispatch-Safe event_stat ge56 bei s4 o))
                (λ _ _ _. tt)))
