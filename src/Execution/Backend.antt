-- ===== src/Execution/Backend.antt =====
-- What the storage asks of the documents that packages/teraslice/lib/cluster/storage/backends/elasticsearch_store.js
-- keeps in Elasticsearch: an interface, and a list of documents that has it.
use teraslice.Base.{
  ℕ, ◌≡◌, Option, none, some, List, [], ◌∷◌, String, if◌then◌else◌, ◌===◌, ===_iff, arith, Result,
  ok, err, map_ok,
}
use teraslice.Execution.Status.{Status}
use teraslice.Execution.Record.{Execution, MetaData}

-- `_.assign({ _status: status }, metaData)`, or the metadata alone, with the time that `update` adds.
pub record Patch : Type 0 where
  pub status : Option Status
  pub meta : MetaData
  pub updated : ℕ

abbrev pub keep {ℓ} : {A : Type ℓ} → Option A → Option A → Option A
keep none old = old
keep (some a) old = some a

-- A partial document takes the place of the fields that it has.
unfoldable pub patched : Patch → Execution → Execution
patched p e = record e {
  status = keep p.status e.status;
  has_errors = keep p.meta.errors e.has_errors;
  slicer_stats = keep p.meta.stats e.slicer_stats;
  failure_reason = keep p.meta.reason e.failure_reason;
  slicer_port = keep p.meta.port e.slicer_port;
  slicer_hostname = keep p.meta.hostname e.slicer_hostname;
  updated = some p.updated;
}

pub record Backend : Type 1 where
  pub Docs : Type 0
  pub get : Docs → String → Result String Execution
  pub update : Docs → String → Patch → Result String Docs
  -- A successful update changes that document alone, and only where there is one.
  pub get-update :
      (d d' : Docs) (id j : String) (p : Patch)
      → update d id p ≡ ok d'
      → get d' j ≡ (if id === j then map_ok (patched p) (get d j) else get d j)

-- Documents in a list.
abbrev pub find : List (String × Execution) → String → Result String Execution
find [] id = err "not found"
find ((k, e) ∷ d) id = if k === id then ok e else find d id

abbrev pub put : Patch → String → List (String × Execution) → List (String × Execution)
put p id [] = []
put p id ((k, e) ∷ d) = if k === id then (k, patched p e) ∷ d else (k, e) ∷ put p id d

find-put :
    (d : List (String × Execution)) (id j : String) (p : Patch)
    → find (put p id d) j ≡ (if id === j then map_ok (patched p) (find d j) else find d j)
find-put [] id j p = ground arith
find-put ((k, e) ∷ d) id j p =
    ground (arith, ===_iff k id, ===_iff k j, ===_iff id j, find-put d id j p)

abbrev pub saved :
    List (String × Execution) → String → Patch → Result String (List (String × Execution))
saved d id p = map_ok (λ _. put p id d) (find d id)

pub get-saved :
    (d d' : List (String × Execution)) (id j : String) (p : Patch)
    → saved d id p ≡ ok d'
    → find d' j ≡ (if id === j then map_ok (patched p) (find d j) else find d j)
get-saved d d' id j p h = ground (arith, find-put d id j p)

abbrev pub listed : Backend
listed = record {
  Docs = List (String × Execution);
  get = find;
  update = saved;
  get-update = get-saved;
}
