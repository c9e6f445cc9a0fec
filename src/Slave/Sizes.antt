-- ===== src/Slave/Sizes.antt =====
-- The sizes of the commands to the master, against the buffers that they are put into.
use libslave.Common.{
  ℕ, ◌+◌, ◌≤◌, ◌≡◌, refl, arith, Bytes, ◌++◌, ok, length, length-append, ltb, codes, Bool-cases,
  inl, inr,
}
use libslave.Wire.{Wire, IsLittleEndian}
use libslave.Wire.Laws.{length-le_bytes}
use libslave.Position.Defs.{Position}
use libslave.Position.Encode.{encoded_gtid_size}
use libslave.Position.Hex.{HasSids, encode_gtid-encoded_gtid_size}
use libslave.Slave.Requests.{
  net_store_length_fast, net_store_data, register_packet, dump_packet_gtid,
}

module _ (w : Wire) (little : IsLittleEndian w) where
  two : (n : ℕ) → length (w.int2store n) ≡ 2
  two n = rw (little.int2store_le n) (length-le_bytes 2 n)

  four : (n : ℕ) → length (w.int4store n) ≡ 4
  four n = rw (little.int4store_le n) (length-le_bytes 4 n)

  eight : (n : ℕ) → length (w.int8store n) ≡ 8
  eight n = rw (little.int8store_le n) (length-le_bytes 8 n)

  length-net_store_data : (s : Bytes) → length (net_store_data w s) ≤ length s + 3
  unfolding net_store_data net_store_length_fast
  length-net_store_data s = elim (Bool-cases (ltb (length s) 251)) [
    | inl e ↦ rw e (omega arith)
    | inr e ↦ rw e (omega (arith, length-append (w.int2store (length s)) s, two (length s)))
  ]

  -- With the documented byte order, what `register_slave_on_master` puts into its buffer of 1024
  -- bytes fits there, for a host's name of at most 255 bytes.
  pub register_packet-fits :
      (server_id : ℕ) (host : Bytes)
      → length host ≤ 255
      → length (register_packet w server_id host) ≤ 1024
  unfolding register_packet
  register_packet-fits server_id host h =
      let user = net_store_data w (codes "begun_slave") in
      let port = w.int2store 0 ++ (w.int4store 0 ++ w.int4store 0) in
      omega (
        arith,
        length-append (w.int4store server_id) (net_store_data w host ++ (user ++ (user ++ port))),
        length-append (net_store_data w host) (user ++ (user ++ port)),
        length-append user (user ++ port),
        length-append user port,
        length-append (w.int2store 0) (w.int4store 0 ++ w.int4store 0),
        length-append (w.int4store 0) (w.int4store 0),
        four server_id,
        two 0,
        four 0,
        length-net_store_data host,
        length-net_store_data (codes "begun_slave"),
      )

  -- With the documented byte order, and where every server's id is 32 hex digits of 16 bytes, the
  -- command for a dump by GTIDs is made, and fills the buffer of 22 bytes and the encoded size.
  pub dump_packet_gtid-fills :
      (server_id : ℕ) (p : Position)
      → HasSids p.gtid_executed
      → (b : Bytes) × (dump_packet_gtid w server_id p ≡ ok b)
        × (length b ≡ encoded_gtid_size p.gtid_executed + 22)
  unfolding dump_packet_gtid
  dump_packet_gtid-fills server_id p h =
      let (gtids, done, size) = encode_gtid-encoded_gtid_size w little p.gtid_executed h in
      let last = w.int4store (encoded_gtid_size p.gtid_executed) ++ gtids in
      (
        w.int2store 4 ++ (w.int4store server_id ++ (w.int4store 0 ++ (w.int8store 4 ++ last))),
        rw done refl,
        omega (
          arith,
          length-append (w.int2store 4)
              (w.int4store server_id ++ (w.int4store 0 ++ (w.int8store 4 ++ last))),
          length-append (w.int4store server_id) (w.int4store 0 ++ (w.int8store 4 ++ last)),
          length-append (w.int4store 0) (w.int8store 4 ++ last),
          length-append (w.int8store 4) last,
          length-append (w.int4store (encoded_gtid_size p.gtid_executed)) gtids,
          two 4,
          four server_id,
          four 0,
          eight 4,
          four (encoded_gtid_size p.gtid_executed),
        ),
      )
