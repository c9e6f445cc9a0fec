-- ===== src/Slave/Checks.antt =====
-- Slave.cpp: `check_master_version`, `check_master_binlog_format`, `check_master_gtid_mode`,
-- `init`, `do_checksum_handshake`, `getLastBinlogPos`. What the master answers is an argument.
use libslave.Common.{
  ℕ, ◌+◌, ◌-◌, ◌*◌, ◌^◌, Bool, false, ◌||◌, ◌==◌, Bytes, List, [], ◌∷◌, Outcome, ok, throws,
  if◌then◌else◌, some, none, Option, codes, bad_version, bad_binlog_format, query_failed,
  bad_checksum,
}
use libslave.Common.{◌>>=◌ as bind_outcome}
use libslave.Common.Int.{ℤ, pos, pos_part, neg_part, sub_ℕ, leb_ℤ, ltb_ℤ}
use libslave.Common.Maps.{lookup, bytes_eq, string_eq}
use libslave.Common.Effects.{M, ◌>>=◌, ◌>>◌, lift, pure, modify}
use libslave.Clib.{scan_int, atoi}
use libslave.Position.Defs.{Position}
use libslave.Position.Text.{parse_gtid}
use libslave.State.Default
use libslave.Slave.Defs.{Slave}
use libslave.Slave.Schema.{SqlRow, column}

-- `sscanf("%d.%d.%d")`: the text behind a number begins with a point.
abbrev behind_point : Bytes → Option (ℤ × Bytes)
unfolding scan_int
behind_point [] = none
behind_point (c ∷ s) = let n = scan_int s in if c == b'.' then n else none

abbrev and_version : ℤ → ℤ → Option (ℤ × Bytes) → Option ℤ
and_version major minor none = none
and_version major minor (some (patch, r)) = some (
    sub_ℕ (pos_part major * 10000 + pos_part minor * 100 + pos_part patch)
      (neg_part major * 10000 + neg_part minor * 100 + neg_part patch))

-- `major * 10000 + minor * 100 + patch`
unfoldable pub version_number : Bytes → Option ℤ
unfolding scan_int
version_number text = elim (scan_int text) [
  | none ↦ none
  | some (major, r) ↦ elim (behind_point r) [
    | none ↦ none
    | some (minor, r') ↦ and_version major minor (behind_point r')
  ]
]

-- The version and the storage are set before the version is refused.
abbrev take_version : Option ℤ → M Slave (Unit {0})
unfolding leb_ℤ ltb_ℤ
take_version none s = (throws bad_version, s)
take_version (some v) s = (
  if leb_ℤ (pos 50123) v then ok tt else throws bad_version,
  record s { m_master_version = v; is_old_storage = ltb_ℤ v (pos 50604) },
)

-- The answer to SELECT VERSION() is one row of one column.
unfoldable pub check_master_version : List SqlRow → M Slave (Unit {0})
unfolding version_number leb_ℤ ltb_ℤ
check_master_version (((name, version) ∷ []) ∷ []) = take_version (version_number version)
check_master_version rows = lift (throws query_failed)

unfoldable pub check_master_binlog_format : List SqlRow → Outcome (Unit {0})
unfolding lookup
check_master_binlog_format ((a ∷ b ∷ []) ∷ []) =
    bind_outcome (column (codes "Value") (a ∷ b ∷ []))
      λ value. if bytes_eq value (codes "ROW") then ok tt else throws bad_binlog_format
check_master_binlog_format rows = throws query_failed

abbrev gtid_mode_of : List SqlRow → Outcome Bool
unfolding lookup
gtid_mode_of ((a ∷ b ∷ []) ∷ []) =
    bind_outcome (column (codes "Value") (a ∷ b ∷ [])) λ value. ok (bytes_eq value (codes "ON"))
gtid_mode_of rows = ok false

unfoldable pub check_master_gtid_mode : List SqlRow → M Slave (Unit {0})
unfolding lookup
check_master_gtid_mode rows = do
  modify (λ s. record s { gtid_mode = false })
  on ← lift (gtid_mode_of rows)
  modify (λ s. record s { gtid_mode = on })

-- The three answers of the master, in the order of the queries.
unfoldable pub init : List SqlRow → List SqlRow → List SqlRow → M Slave (Unit {0})
unfolding check_master_version check_master_binlog_format check_master_gtid_mode
    Default.load_master_position
init version format mode = do
  check_master_version version
  lift (check_master_binlog_format format)
  check_master_gtid_mode mode
  modify (λ s. record s { position = (Default.load_master_position s.ext_state).0 })

-- How the two queries of the handshake end: the variable is unknown to the master, the first query
-- fails otherwise, or the second one gives a name, or none.
pub data Handshake : Type 0 where
  unknown_variable : Handshake
  refused : Handshake
  answered : Option Bytes → Handshake

abbrev check_alg : M Slave (Unit {0})
check_alg s = (if s.checksum_alg == 0 || s.checksum_alg == 1 then ok tt else throws bad_checksum, s)

-- `find_type` is the client library's: the position of a name in the list, from 1, or 0.
unfoldable pub do_checksum_handshake : (Bytes → ℕ) → Handshake → M Slave (Unit {0})
do_checksum_handshake find_type unknown_variable = pure tt
do_checksum_handshake find_type refused = lift (throws query_failed)
do_checksum_handshake find_type (answered none) = check_alg
do_checksum_handshake find_type (answered (some name)) = do
  modify (λ s. record s {
    checksum_alg = if find_type name == 0 then 2 ^ 32 - 1 else find_type name - 1;
  })
  check_alg

abbrev with_gtids : Option Bytes → Position → Position
unfolding parse_gtid
with_gtids none p = p
with_gtids (some text) p = parse_gtid text p

-- The answer to SHOW MASTER STATUS is one row.
unfoldable pub get_last_binlog_pos : List SqlRow → Outcome Position
unfolding lookup atoi parse_gtid
get_last_binlog_pos (row ∷ []) = bind_outcome (column (codes "File") row) λ file.
    bind_outcome (column (codes "Position") row) λ position. ok (
      with_gtids (lookup (codes "Executed_Gtid_Set") row)
        (record { log_name = file; log_pos = pos_part (atoi position); gtid_executed = [] }))
get_last_binlog_pos rows = throws query_failed
