-- ===== src/Table/Examples.antt =====
-- Names of tables by small and large ids.
use libslave.Common.{◌≡◌, arith, [], ◌∷◌, codes, ◌==◌, if◌then◌else◌}
use libslave.Table.Defs.{RelayLogInfo, set_table_name, get_table_name_by_id}
use libslave.Table.Names.{get_table_name_by_id-set_table_name, get_table_name_by_id-large}

abbrev names : RelayLogInfo
names = record { m_map_table_name = (70, (codes "db", codes "old")) ∷ []; m_table_map = [] }

get_table_name_by_id-set_table_name_example :
    get_table_name_by_id 70 (set_table_name 70 (codes "t") (codes "db") names)
    ≡ (if 70 == 70 then (codes "db", codes "t") else get_table_name_by_id 70 names)
get_table_name_by_id-set_table_name_example =
    get_table_name_by_id-set_table_name 70 70 (codes "t") (codes "db") names (omega arith)
      (omega arith)

get_table_name_by_id-large_example :
    get_table_name_by_id 3000000000 (set_table_name 3000000000 (codes "t") (codes "db") names)
    ≡ get_table_name_by_id 3000000000 names
get_table_name_by_id-large_example =
    get_table_name_by_id-large 3000000000 (codes "t") (codes "db") names (omega arith) (omega arith)
