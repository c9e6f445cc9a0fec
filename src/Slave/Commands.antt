-- ===== src/Slave/Commands.antt =====
-- Tests of the commands to the master.
use libslave.Common.{ℕ, List, ◌≡◌, ◌+◌, ◌≤◌, arith, Bytes, [], ◌∷◌, ok, codes, length, suc}
use libslave.Wire.Laws.{plain, plain-IsLittleEndian}
use libslave.Position.Defs.{Position}
use libslave.Position.Encode.{encoded_gtid_size}
use libslave.Position.Examples.{executed, executed-HasSids}
use libslave.Slave.Requests.{register_packet, dump_packet_gtid, first_free}
use libslave.Slave.FreeId.{IsFree, first_free-IsFree}
use libslave.Slave.Sizes.{register_packet-fits, dump_packet_gtid-fills}

abbrev used : List ℕ
used = 9 ∷ 4294967295 ∷ 0 ∷ []

first_free-IsFree_example : IsFree used (first_free (suc (length used)) used 4294967295)
first_free-IsFree_example = first_free-IsFree used 4294967295 (omega arith) (omega arith)

register_packet-fits_example : length (register_packet plain 7 (codes "db1.example.org")) ≤ 1024
register_packet-fits_example =
    register_packet-fits plain plain-IsLittleEndian 7 (codes "db1.example.org") (omega arith)

abbrev place : Position
place = record { log_name = codes "bin.7"; log_pos = 120; gtid_executed = executed }

dump_packet_gtid-fills_example :
    (b : Bytes) × (dump_packet_gtid plain 7 place ≡ ok b)
    × (length b ≡ encoded_gtid_size place.gtid_executed + 22)
dump_packet_gtid-fills_example =
    dump_packet_gtid-fills plain plain-IsLittleEndian 7 place executed-HasSids
