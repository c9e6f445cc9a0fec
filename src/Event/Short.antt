-- ===== src/Event/Short.antt =====
-- A format description event with fewer header lengths than the code copies.
use libslave.Common.{
  ℕ, ◌+◌, ◌≤◌, ◌<◌, ◌≡◌, arith, Bool, true, false, Bytes, fault, drop, length, length-drop, ltb,
}
use libslave.Wire.{le}
use libslave.Event.Headers.{sub32}
use libslave.Event.Read.{check_format_description}

held : (buf : Bytes) (k n : ℕ) → k + n ≤ length buf → ltb (length (drop k buf)) n ≡ false
held buf k n enough = let size = length-drop k buf in ground arith

lacking :
    (buf : Bytes) (k n : ℕ)
    → k ≤ length buf
    → length buf < k + n
    → ltb (length (drop k buf)) n ≡ true
lacking buf k n inside short = let size = length-drop k buf in ground arith

few_lengths :
    (event_len : ℕ) → 76 ≤ event_len → event_len < 114 → ltb 38 (sub32 event_len 76) ≡ false
few_lengths event_len long short = ground arith

-- `check_format_description` reads behind the packet for an event of version 4 with the right length
-- of headers that says how long the headers of fewer than 38 types are, where nothing stands behind
-- the event: the copy takes 38 lengths.
pub check_format_description-fault :
    (buf : Bytes) (event_len : ℕ) (master_ge_56 : Bool)
    → le 2 (drop 19 buf) ≡ 4
    → le 1 (drop 75 buf) ≡ 19
    → 76 ≤ event_len
    → event_len ≤ length buf
    → length buf < 114
    → check_format_description buf event_len master_ge_56 ≡ fault
unfolding check_format_description
check_format_description-fault buf event_len master_ge_56 version headers long inside short =
    let read_version = held buf 19 2 (omega arith) in
    let read_headers = held buf 75 1 (omega arith) in
    let read_lengths = lacking buf 76 38 (omega arith) (omega arith) in
    let few = few_lengths event_len long (omega arith) in
    rw (read_version, version, read_headers, headers, few, read_lengths)
