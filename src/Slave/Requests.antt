-- ===== src/Slave/Requests.antt =====
-- Slave.cpp: the packets that the client sends, `net_store_data`, `register_slave_on_master`,
-- `request_dump_wo_gtid`, `request_dump`, `generateSlaveId`.
use libslave.Common.{
  ℕ, zero, suc, ◌+◌, ◌%◌, ◌^◌, Bool, true, false, Bytes, List, [], ◌∷◌, ◌++◌, Outcome, ok, fault,
  ◌>>=◌, if◌then◌else◌, ltb, ◌==◌, length, codes, Option, some, none,
}
use libslave.Common.Int.{wrap32}
use libslave.Wire.{Wire}
use libslave.Clib.{atoi}
use libslave.Position.Defs.{Position}
use libslave.Position.Encode.{encode_gtid, encoded_gtid_size}
use libslave.Slave.Schema.{SqlRow, column}

module _ (w : Wire) where
  unfoldable pub net_store_length_fast : ℕ → Bytes
  net_store_length_fast n = if ltb n 251 then (n % 256) ∷ [] else 252 ∷ w.int2store n

  unfoldable pub net_store_data : Bytes → Bytes
  unfolding net_store_length_fast
  net_store_data s = net_store_length_fast (length s) ++ s

  -- What `register_slave_on_master` puts into its buffer of 1024 bytes.
  unfoldable pub register_packet : ℕ → Bytes → Bytes
  unfolding net_store_data
  register_packet server_id host =
      w.int4store server_id
      ++ (net_store_data host
          ++ (net_store_data (codes "begun_slave")
              ++ (net_store_data (codes "begun_slave")
                  ++ (w.int2store 0 ++ (w.int4store 0 ++ w.int4store 0)))))

  -- The buffer has 128 bytes, and the name is copied behind the first ten whatever its length.
  unfoldable pub dump_packet_wo_gtid : ℕ → Bytes → ℕ → Outcome Bytes
  dump_packet_wo_gtid server_id logname start_position =
      if ltb 128 (10 + length logname)
      then fault
      else ok (
          w.int4store (start_position % 2 ^ 32)
          ++ (w.int2store 0 ++ (w.int4store server_id ++ logname)))

  unfoldable pub dump_packet_gtid : ℕ → Position → Outcome Bytes
  unfolding encode_gtid encoded_gtid_size
  dump_packet_gtid server_id p = do
    gtids ← encode_gtid w p.gtid_executed
    ok (
        w.int2store 4
        ++ (w.int4store server_id
            ++ (w.int4store 0
                ++ (w.int8store 4 ++ (w.int4store (encoded_gtid_size p.gtid_executed) ++ gtids)))))

  -- `request_dump`, for a client library that knows GTIDs.
  unfoldable pub request_dump : Bool → ℕ → Position → Outcome Bytes
  unfolding dump_packet_wo_gtid dump_packet_gtid
  request_dump m_gtid_enabled server_id p =
      if m_gtid_enabled
      then dump_packet_gtid server_id p
      else dump_packet_wo_gtid server_id p.log_name p.log_pos

abbrev pub contains : List ℕ → ℕ → Bool
contains [] n = false
contains (x ∷ xs) n = let rest = contains xs n in if x == n then true else rest

-- `while (1) { if (server_ids.count(serveroid) != 0) serveroid++; else break; }` on a 32-bit number.
-- `none` is an exhausted fuel.
unfoldable pub first_free : ℕ → List ℕ → ℕ → Option ℕ
first_free zero ids n = none
first_free (suc fuel) ids n =
    let next = first_free fuel ids ((n + 1) % 2 ^ 32) in if contains ids n then next else some n

-- The ids of the slaves that the master lists.
abbrev server_ids : List SqlRow → Outcome (List ℕ)
unfolding atoi
server_ids [] = ok []
server_ids (row ∷ rows) = do
  id ← column (codes "Server_id") row
  rest ← server_ids rows
  ok (wrap32 (atoi id) ∷ rest)

-- `seed` is made of the time and the process id.
unfoldable pub generate_slave_id : List SqlRow → ℕ → Outcome (Option ℕ)
unfolding atoi first_free
generate_slave_id rows seed = do
  ids ← server_ids rows
  ok (first_free (suc (length ids)) ids (seed % 2 ^ 32))
