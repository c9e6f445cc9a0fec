-- ===== src/Mysql/Result.antt =====
-- nanomysql.h's `use` and `store`, and nanofield.h's `field`.
use libslave.Common.{
  ℕ, zero, suc, Bytes, List, [], ◌∷◌, ◌++◌, Option, none, some, Outcome, ok, fault, codes,
}
use libslave.Common.Maps.{lookup, insert, string_eq}
use libslave.Common.Effects.{M, ◌>>=◌, lift, modify}
use libslave.Mysql.Defs.{Process, note, mysql_use_result, mysql_free_result}
use libslave.Mysql.Connection.{Diagnosis, throw_error}

-- nanofield.h's `field`.
pub record SqlField : Type 0 where
  pub name : Bytes
  pub type : ℕ
  pub «data» : Bytes

abbrev pub Fields : Type 0
Fields = List (Bytes × SqlField)

-- What the library answers on a result: the names and types of `mysql_fetch_field`, the cells of
-- `mysql_fetch_row` (a null is empty), and what stopped it.
pub record ResultSet : Type 0 where
  pub num_fields : ℕ
  pub columns : List (Bytes × ℕ)
  pub rows : List (List Bytes)
  pub failure : Option Diagnosis

abbrev or_insert : SqlField → Fields → Option SqlField → Fields
unfolding insert
or_insert f m none = insert f.name f m
or_insert f m (some g) = m

-- `fields.insert`: a name that is there keeps its field.
unfoldable pub insert_field : SqlField → Fields → Fields
unfolding lookup insert
insert_field f m = or_insert f m (lookup f.name m)

-- The loop over the columns.
unfoldable pub make_fields : List (Bytes × ℕ) → Fields → Fields
unfolding insert_field
make_fields [] m = m
make_fields ((name, type) ∷ columns) m =
    make_fields columns (insert_field (record { name = name; type = type; «data» = [] }) m)

abbrev with_data : Bytes → Bytes → Fields → Option SqlField → Fields
unfolding insert
with_data name cell m none = m
with_data name cell m (some f) = insert name (record f { «data» = cell }) m

-- `fields_n[z]->second.data.assign(row[z], lens[z])`: the iterator is the place of the name.
unfoldable pub assign : Bytes → Bytes → Fields → Fields
unfolding lookup insert
assign name cell m = with_data name cell m (lookup name m)

-- The loop over z, a fault behind the end of `fields_n` or of the row.
unfoldable pub assign_cells : ℕ → List (Bytes × ℕ) → List Bytes → Fields → Outcome Fields
unfolding assign
assign_cells zero columns cells m = ok m
assign_cells (suc n) ((name, type) ∷ columns) (cell ∷ cells) m =
    assign_cells n columns cells (assign name cell m)
assign_cells (suc n) [] cells m = fault
assign_cells (suc n) (column ∷ columns) [] m = fault

abbrev pub fetch_ended : Option Diagnosis → Outcome (Unit {0})
unfolding throw_error
fetch_ended none = ok tt
fetch_ended (some d) = throw_error d (codes "mysql_fetch_row() failed") []

module _ {S : Type 0} (f : Fields → M S (Unit {0})) (r : ResultSet) where
  -- The loop over the rows: the fields of a row go to f, and into the next round.
  unfoldable pub use_rows : List (List Bytes) → Fields → M S (Unit {0})
  unfolding assign_cells throw_error
  use_rows [] m = lift (fetch_ended r.failure)
  use_rows (cells ∷ rows) m =
      lift (assign_cells r.num_fields r.columns cells m)
      >>= (λ fields. f fields >>= (λ _. use_rows rows fields))

-- The process, and what f changes.
abbrev pub Store : Type 0 → Type 0
Store S = Process × S

unfoldable pub use_result : {S : Type 0} → (Fields → M S (Unit {0})) → ResultSet → M S (Unit {0})
unfolding use_rows make_fields
use_result f r = use_rows f r r.rows (make_fields r.columns [])

-- `use`: the result is freed however the loop ends. `none` is a null result.
unfoldable pub use_query :
    {S : Type 0} → (Fields → M S (Unit {0})) → Diagnosis → Option ResultSet → M (Store S) (Unit {0})
unfolding use_result throw_error note
use_query f d none (p, s) =
    (throw_error d (codes "mysql_use_result() failed") [], (note mysql_use_result p, s))
use_query f d (some r) (p, s) =
    let (ended, t) = use_result f r s in
    (ended, (note mysql_free_result (note mysql_use_result p), t))

-- `store`
unfoldable pub store : Diagnosis → Option ResultSet → M (Store (List Fields)) (Unit {0})
unfolding use_query
store d r = use_query (λ fields. modify (λ out. out ++ (fields ∷ []))) d r
