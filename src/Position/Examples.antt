-- ===== src/Position/Examples.antt =====
-- The id of a server, and a set of GTIDs, as they are sent.
use libslave.Common.{◌≡◌, refl, arith, Bytes, [], ◌∷◌, ok, length, codes}
use libslave.Common.Int.{pos}
use libslave.Common.Maps.{lookup, string_eq}
use libslave.Wire.Laws.{plain, plain-IsLittleEndian}
use libslave.Gtid.Defs.{GtidSet}
use libslave.Event.Headers.{bin2hex}
use libslave.Position.Encode.{hex2bin, encoded_gtid_size, encode_gtid}
use libslave.Position.Defs.{Position}
use libslave.Position.Text.{gtids_str, parse_gtid}
use libslave.Position.Tokens.{Each}
use libslave.Position.Entries.{IsEntry}
use libslave.Position.RoundTrip.{IsMap, parse_gtid-gtids_str}
use libslave.Position.Content.{AreSent, sent, read_gtids, read_gtids-encode_gtid}
use libslave.Position.Hex.{sid, HasSids, hex2bin-bin2hex, encode_gtid-encoded_gtid_size}

abbrev uuid : Bytes
uuid = 171 ∷ 0 ∷ 255 ∷ 16 ∷ 1 ∷ 2 ∷ 3 ∷ 4 ∷ 5 ∷ 6 ∷ 7 ∷ 8 ∷ 9 ∷ 10 ∷ 11 ∷ 12 ∷ []

hex2bin-bin2hex_example : hex2bin 3 (bin2hex (171 ∷ 0 ∷ 255 ∷ [])) ≡ ok (171 ∷ 0 ∷ 255 ∷ [])
hex2bin-bin2hex_example =
    hex2bin-bin2hex (171 ∷ 0 ∷ 255 ∷ []) (omega arith, (omega arith, (omega arith, tt)))

abbrev pub executed : GtidSet
unfolding bin2hex
executed = (bin2hex uuid, record { first = pos 1; second = pos 9 } ∷ []) ∷ []

pub executed-HasSids : HasSids executed
unfolding executed
executed-HasSids = (
  sid uuid
      (
        omega arith,
        (
          omega arith,
          (
            omega arith,
            (
              omega arith,
              (
                omega arith,
                (
                  omega arith,
                  (
                    omega arith,
                    (
                      omega arith,
                      (
                        omega arith,
                        (
                          omega arith,
                          (
                            omega arith,
                            (
                              omega arith,
                              (omega arith, (omega arith, (omega arith, (omega arith, tt)))),
                            ),
                          ),
                        ),
                      ),
                    ),
                  ),
                ),
              ),
            ),
          ),
        ),
      )
      refl,
  tt,
)

encode_gtid-encoded_gtid_size_example :
    (b : Bytes) × (encode_gtid plain executed ≡ ok b) × (length b ≡ encoded_gtid_size executed)
encode_gtid-encoded_gtid_size_example =
    encode_gtid-encoded_gtid_size plain plain-IsLittleEndian executed executed-HasSids

abbrev two_servers : GtidSet
two_servers =
    (
      codes "ab01",
      record { first = pos 1; second = pos 12 } ∷ record { first = pos 15; second = pos 15 } ∷ [],
    )
    ∷ (codes "0F", record { first = pos 0; second = pos 9223372036854775807 } ∷ [])
    ∷ []

two_servers-IsMap : IsMap two_servers
unfolding lookup
two_servers-IsMap = (refl, (refl, tt))

two_servers-IsEntry : Each IsEntry two_servers
two_servers-IsEntry = (
  (
    (refl, (refl, (refl, (refl, tt)))),
    ((λ e. cc), ((λ e. cc), ((omega arith, omega arith), ((omega arith, omega arith), tt)))),
  ),
  (((refl, (refl, tt)), ((λ e. cc), ((λ e. cc), ((omega arith, omega arith), tt)))), tt),
)

abbrev somewhere : Position
somewhere = record { log_name = codes "bin.3"; log_pos = 4; gtid_executed = [] }

parse_gtid-gtids_str_example :
    parse_gtid (gtids_str two_servers) somewhere
    ≡ (record somewhere { gtid_executed = two_servers })
parse_gtid-gtids_str_example =
    parse_gtid-gtids_str two_servers somewhere (λ e. cc) two_servers-IsMap two_servers-IsEntry

executed-AreSent : AreSent executed
unfolding executed
executed-AreSent = (executed-HasSids.0, omega arith, (sent 1 9 (omega arith) (omega arith), tt), tt)

read_gtids-encode_gtid_example :
    (b : Bytes) × (encode_gtid plain executed ≡ ok b) × (read_gtids b ≡ (executed, []))
unfolding executed
read_gtids-encode_gtid_example =
    read_gtids-encode_gtid plain plain-IsLittleEndian executed executed-AreSent (omega arith)
