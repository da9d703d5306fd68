-- ===== src/Execution/StateStore.antt =====
-- The states of slices: packages/teraslice/lib/cluster/storage/state.js. The documents of all its indices
-- are a list, in the order in which Elasticsearch answers a search without a sort. Of a request that is
-- rejected the message is an argument. A text of JSON stands for what it is parsed to.
pub mod Recovering
pub mod Latest
pub mod Tests
use teraslice.Controller.Slice.{Slice}
use teraslice.Execution.DateUtils.{timeseries_index}
use teraslice.Base.{
  ℕ, zero, suc, ◌+◌, ◌-◌, ◌*◌, ◌≤◌, ◌<◌, String, ◌≡◌, refl, sym, ap, subst, ◌∙◌, ◌≢◌, ◌↔◌, ◌⊎◌, inl,
  inr, Bool, true, false, not, ◌&&◌, ◌||◌, Option, none, some, List, [], ◌∷◌, ◌++◌, map, arith, ltb,
  leb, ◌==◌, if◌then◌else◌, ltb→lt, lt→ltb, leb→le, ==_iff, Bool-cases, Option-cases, ◌===◌,
  ===_iff, length, keep_if, any_of, All, length-append, length-map, length-keep_if-le, All-append,
  Result, ok, err, ◌>>=◌, map_err, map_ok, is_ok, min,
}

pub record Doc : Type 0 where
  pub index : String
  pub slice_id : String
  pub slicer_id : ℕ
  pub slicer_order : ℕ
  pub request : String
  pub state : String
  pub ex_id : String
  pub created : Option ℕ
  pub updated : Option ℕ
  pub error : Option String

-- `context`: the configured index, its rollover and the text of a time.
pub record Context : Type 0 where
  pub iso : ℕ → String
  pub format : String
  pub index : String

unfoldable pub index_at : Context → ℕ → Slice → String
index_at c now s = timeseries_index c.iso c.format c.index now s.created

-- An id is unique in its index: `indexWithId` takes the place of a document, `update` needs one.
abbrev pub is_at : String → String → Doc → Bool
is_at index id d = d.index === index && d.slice_id === id

abbrev pub index_with_id : Doc → List Doc → List Doc
index_with_id d [] = d ∷ []
index_with_id d (e ∷ l) = if is_at d.index d.slice_id e then d ∷ l else e ∷ index_with_id d l

-- `if (error)`: an empty text is none.
abbrev pub given : Option String → Option String
given none = none
given (some e) = if e === "" then none else some e

unfoldable pub doc_of : Context → ℕ → String → Slice → String → Option String → Doc
doc_of c now ex_id s state error = record {
  index = index_at c now s;
  slice_id = s.slice_id;
  slicer_id = s.slicer_id;
  slicer_order = s.slicer_order;
  request = s.request;
  state = state;
  ex_id = ex_id;
  created = s.created;
  updated = s.created;
  error = given error;
}

unfoldable pub create_state :
    Context
    → ℕ
    → String
    → Slice
    → String
    → Option String
    → Option String
    → List Doc
    → Result String (List Doc)
create_state c now ex_id s state error (some m) l = err m
create_state c now ex_id s state error none l =
    ok (index_with_id (doc_of c now ex_id s state error) l)

abbrev pub or_old : Option String → Option String → Option String
or_old none old = old
or_old (some e) old = some e

abbrev pub patched : ℕ → String → Option String → Doc → Doc
patched now state error d = record d {
  state = state;
  updated = some now;
  error = or_old (given error) d.error;
}

abbrev pub patch_at : String → String → (Doc → Doc) → List Doc → List Doc
patch_at index id f [] = []
patch_at index id f (d ∷ l) = if is_at index id d then f d ∷ l else d ∷ patch_at index id f l

unfoldable pub update_state :
    Context
    → ℕ
    → Slice
    → String
    → Option String
    → Option String
    → List Doc
    → Result String (List Doc)
update_state c now s state error (some m) l = err m
update_state c now s state error none l =
    if any_of (is_at (index_at c now s) s.slice_id) l
    then ok (patch_at (index_at c now s) s.slice_id (patched now state error) l)
    else err "document missing"

-- The document with the highest order: a search with `slicer_order:desc` and the size 1.
abbrev pub higher : Doc → Option Doc → Option Doc
higher d none = some d
higher d (some e) = if ltb d.slicer_order e.slicer_order then some e else some d

abbrev pub highest : List Doc → Option Doc
highest [] = none
highest (d ∷ l) = higher d (highest l)

abbrev pub of_slicer : String → ℕ → Doc → Bool
of_slicer ex_id slicer_id d = d.ex_id === ex_id && d.slicer_id == slicer_id

abbrev pub request_of : Option Doc → Option String
request_of none = none
request_of (some d) = some d.request

unfoldable pub execution_starting_slice :
    String → ℕ → Option String → List Doc → Result String (Option String)
execution_starting_slice ex_id slicer_id (some m) l = err m
execution_starting_slice ex_id slicer_id none l =
    ok (request_of (highest (keep_if (of_slicer ex_id slicer_id) l)))

-- What the queries of `recoverSlices` ask of a state.
abbrev pub wanted : Option String → String → Bool
wanted none state = not (state === "completed" || state === "invalid")
wanted (some cleanup) state =
    if cleanup === "errors"
    then state === "error"
    else not (state === "completed" || state === "invalid")

abbrev pub retry_query : String → ℕ → Option String → Doc → Bool
retry_query ex_id slicer_id cleanup d = of_slicer ex_id slicer_id d && wanted cleanup d.state

-- A slice that is recovered; the number of its order is not among its fields.
pub record Recovered : Type 0 where
  pub slice_id : String
  pub slicer_id : ℕ
  pub request : String
  pub created : Option ℕ

abbrev pub recovered : Doc → Recovered
recovered d = record {
  slice_id = d.slice_id;
  slicer_id = d.slicer_id;
  request = d.request;
  created = d.created;
}

abbrev pub first : ℕ → List Doc → List Doc
first zero l = []
first (suc n) [] = []
first (suc n) (d ∷ l) = d ∷ first n l

unfoldable pub recover_slices :
    String → ℕ → Option String → Option String → List Doc → Result String (List Recovered)
recover_slices ex_id slicer_id cleanup (some m) l = err m
recover_slices ex_id slicer_id cleanup none l =
    ok (map recovered (first 5000 (keep_if (retry_query ex_id slicer_id cleanup) l)))
