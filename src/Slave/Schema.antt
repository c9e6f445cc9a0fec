-- ===== src/Slave/Schema.antt =====
-- collate.cpp's `readCollateMap`, and Slave.cpp's `createTable` and `createDatabaseStructure_`: the
-- tables as the master describes them. The rows of a query are the master's, an argument here.
use libslave.Common.{
  ℕ, Bool, ◌&&◌, ◌||◌, Bytes, List, [], ◌∷◌, Outcome, ok, ◌>>=◌, ◌>>◌, leb, if◌then◌else◌, codes,
  or_throw, missing_column, no_collation, type_not_found, throw_if,
}
use libslave.Common.Int.{pos_part}
use libslave.Common.Maps.{lookup, insert, bytes_eq, string_eq}
use libslave.Clib.{atoi}
use libslave.Position.Defs.{is_nil}
use libslave.Field.Defs.{Field}
use libslave.Field.Create.{make_kind}
use libslave.Table.Defs.{Table, Key, RelayLogInfo, set_table}

-- A row of a result: the data of each column by its name.
abbrev pub SqlRow : Type 0
SqlRow = List (Bytes × Bytes)

pub record CollateInfo : Type 0 where
  pub name : Bytes
  pub charset : Bytes
  pub maxlen : ℕ

abbrev pub CollateMap : Type 0
CollateMap = List (Bytes × CollateInfo)

abbrev pub column : Bytes → SqlRow → Outcome Bytes
unfolding lookup
column name row = or_throw (lookup name row) missing_column

-- The loop over SHOW CHARACTER SET. A length below zero is none of the server's.
abbrev read_charsets : List SqlRow → List (Bytes × ℕ) → Outcome (List (Bytes × ℕ))
unfolding lookup insert atoi
read_charsets [] cm = ok cm
read_charsets (row ∷ rows) cm = do
  name ← column (codes "Charset") row
  maxlen ← column (codes "Maxlen") row
  read_charsets rows (insert name (pos_part (atoi maxlen)) cm)

-- The loop over SHOW COLLATION.
abbrev read_collations : List (Bytes × ℕ) → List SqlRow → CollateMap → Outcome CollateMap
unfolding lookup insert
read_collations cm [] res = ok res
read_collations cm (row ∷ rows) res = do
  name ← column (codes "Collation") row
  charset ← column (codes "Charset") row
  maxlen ← or_throw (lookup charset cm) no_collation
  read_collations cm rows
      (insert name (record { name = name; charset = charset; maxlen = maxlen }) res)

unfoldable pub read_collate_map : List SqlRow → List SqlRow → Outcome CollateMap
unfolding lookup insert atoi
read_collate_map charsets collations = do
  cm ← read_charsets charsets []
  read_collations cm collations []

abbrev is_letter : ℕ → Bool
is_letter c = (leb b'a' c && leb c b'z') || (leb b'A' c && leb c b'Z')

-- The letters in front of the SQL type.
unfoldable pub extract_field : Bytes → Bytes
extract_field [] = []
extract_field (c ∷ s) = let rest = extract_field s in if is_letter c then c ∷ rest else []

-- The byte length of a character in the column, for text columns only.
abbrev maxlen_of : CollateMap → Bytes → SqlRow → Outcome ℕ
unfolding lookup
maxlen_of collate_map class row =
    if bytes_eq class (codes "varchar") || bytes_eq class (codes "char")
    then (do
      collate ← column (codes "Collation") row
      ci ← or_throw (lookup collate collate_map) no_collation
      ok ci.maxlen)
    else ok 0

-- One row of SHOW FULL COLUMNS.
unfoldable pub make_field : Bool → CollateMap → SqlRow → Outcome Field
unfolding lookup extract_field make_kind
make_field is_old_storage collate_map row = do
  name ← column (codes "Field") row
  type ← column (codes "Type") row
  nullable ← column (codes "Null") row
  throw_if (is_nil (extract_field type)) type_not_found
  maxlen ← maxlen_of collate_map (extract_field type) row
  kind ← make_kind (extract_field type) type is_old_storage maxlen
  ok (record { field_type = type; field_name = name; kind = kind })

abbrev make_fields : Bool → CollateMap → List SqlRow → Outcome (List Field)
unfolding make_field
make_fields old collate_map [] = ok []
make_fields old collate_map (row ∷ rows) = do
  field ← make_field old collate_map row
  fields ← make_fields old collate_map rows
  ok (field ∷ fields)

-- The members that `Table(db_name, tbl_name)` does not set are set before they are read: `blank`.
unfoldable pub create_table :
    Table → Bool → RelayLogInfo → Key → CollateMap → List SqlRow → Outcome RelayLogInfo
unfolding make_field set_table
create_table blank is_old_storage rli (db_name, tbl_name) collate_map rows = do
  fields ← make_fields is_old_storage collate_map rows
  ok (
      set_table tbl_name db_name
        (record blank {
          fields = fields;
          column_filter = [];
          column_filter_fields = [];
          column_filter_count = 0;
          table_name = tbl_name;
          database_name = db_name;
        })
        rli)

-- `createDatabaseStructure_`: `columns` answers SHOW FULL COLUMNS for a table.
unfoldable pub create_database_structure_of :
    Table
    → Bool
    → (Key → Outcome (List SqlRow))
    → CollateMap
    → List Key
    → RelayLogInfo
    → Outcome RelayLogInfo
unfolding create_table
create_database_structure_of blank old columns collate_map [] rli = ok rli
create_database_structure_of blank old columns collate_map (key ∷ tabs) rli = do
  rows ← columns key
  rli' ← create_table blank old rli key collate_map rows
  create_database_structure_of blank old columns collate_map tabs rli'
