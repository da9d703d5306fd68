-- ===== src/Elasticsearch/Queries.antt =====
-- The queries of packages/teraslice/lib/cluster/storage/backends/elasticsearch_store.js: what each
-- operation of a store asks of elasticsearch-api. A field that a query lacks is `none`.
use teraslice.Base.{
  ℕ, String, Bool, true, false, Option, none, some, List, [], ◌∷◌, if◌then◌else◌, ◌===◌,
}

-- A search is a text or a body; a field of a record is a text.
pub data Search : Type 0 where
  by_text by_body : String → Search

pub record Query : Type 0 where
  pub index : String
  pub type_name : Option String
  pub id : Option String
  pub search : Option Search
  pub record_body : Option (List (String × String))
  pub doc : Option (List (String × String))
  pub from : Option ℕ
  pub size : Option ℕ
  pub sort : Option String
  pub source : Option (List String)
  pub refresh : Bool
  pub retry_on_conflict : ℕ

pub record Store : Type 0 where
  pub index_name : String
  pub record_type : String
  pub id_field : String

-- `indexArg || indexName`
unfoldable pub index_or : Store → Option String → String
index_or s none = s.index_name
index_or s (some i) = if i === "" then s.index_name else i

unfoldable pub base_query : Store → Option String → Query
unfolding index_or
base_query s arg = record {
  index = index_or s arg;
  type_name = none;
  id = none;
  search = none;
  record_body = none;
  doc = none;
  from = none;
  size = none;
  sort = none;
  source = none;
  refresh = false;
  retry_on_conflict = 0;
}

unfoldable pub get_record : Store → String → Option String → Option (List String) → Query
unfolding base_query
get_record s id arg fields = record (base_query s arg) {
  type_name = some s.record_type;
  id = some id;
  source = fields;
}

unfoldable pub search :
    Store
    → Search
    → Option ℕ
    → Option ℕ
    → Option String
    → Option (List String)
    → Option String
    → Query
unfolding base_query
search s q from size sort fields arg = record (base_query s arg) {
  search = some q;
  from = from;
  size = size;
  sort = sort;
  source = fields;
}

unfoldable pub index_record : Store → List (String × String) → Option String → Query
unfolding base_query
index_record s body arg = record (base_query s arg) {
  type_name = some s.record_type;
  record_body = some body;
  refresh = true;
}

unfoldable pub index_with_id : Store → String → List (String × String) → Option String → Query
unfolding base_query
index_with_id s id body arg = record (base_query s arg) {
  type_name = some s.record_type;
  id = some id;
  record_body = some body;
  refresh = true;
}

abbrev pub field : String → List (String × String) → Option String
field k [] = none
field k ((j, v) ∷ l) = if j === k then some v else field k l

unfoldable pub create : Store → List (String × String) → Option String → Query
unfolding base_query
create s body arg = record (base_query s arg) {
  type_name = some s.record_type;
  id = field s.id_field body;
  record_body = some body;
  refresh = true;
}

unfoldable pub count : Store → Search → Option ℕ → Option String → Option String → Query
unfolding base_query
count s q from sort arg = record (base_query s arg) { search = some q; from = from; sort = sort }

unfoldable pub update : Store → String → List (String × String) → Option String → Query
unfolding base_query
update s id spec arg = record (base_query s arg) {
  type_name = some s.record_type;
  id = some id;
  doc = some spec;
  refresh = true;
  retry_on_conflict = 3;
}

unfoldable pub remove : Store → String → Option String → Query
unfolding base_query
remove s id arg = record (base_query s arg) {
  type_name = some s.record_type;
  id = some id;
  refresh = true;
}

unfoldable pub refresh : Store → Option String → Query
unfolding base_query
refresh s arg = base_query s arg
