-- ===== src/Elasticsearch/Bulk.antt =====
-- Sending of bulk requests: _filterResponse, bulkSend and _searchES of
-- packages/elasticsearch-api/index.js. What Elasticsearch answers is an argument; a list of answers
-- that has run out is a promise that has not settled.
use teraslice.Base.{
  ℕ, zero, suc, ◌+◌, ◌*◌, String, Bool, true, false, not, ◌||◌, Option, none, some, List, [], ◌∷◌,
  ◌++◌, map, ltb, ◌==◌, if◌then◌else◌, ◌===◌, length,
}

pub record ItemError : Type 0 where
  pub type_name : String
  pub reason : String

pub record Item : Type 0 where
  pub status : ℕ
  pub error : Option ItemError

-- `undefined` is `none`.
abbrev pub get_elem? {ℓ} : {A : Type ℓ} → List A → ℕ → Option A
get_elem? [] i = none
get_elem? (a ∷ l) zero = some a
get_elem? (a ∷ l) (suc i) = get_elem? l i

abbrev pub document_exists : ℕ
document_exists = 409

abbrev pub rejected_type : String
rejected_type = "es_rejected_execution_exception"

-- The three things that the loop does with an item.
pub data Verdict : Type 0 where
  handled resend : Verdict
  fatal : ItemError → Verdict

unfoldable pub verdict : Item → Verdict
verdict item = elim item.error [
  | none ↦ handled
  | some e ↦
      if item.status == document_exists
      then handled
      else if e.type_name === rejected_type
      then resend
      else if e.type_name === "document_already_exists_exception"
          || e.type_name === "document_missing_exception"
      then handled
      else fatal e
]

pub record Filtered (A : Type 0) : Type 0 where
  pub lines : List (Option A)
  pub reason : Option ItemError

-- The loop from item `i` on; `retry` holds the lines to be sent again.
unfoldable pub filter_from : {A : Type 0} → List A → ℕ → List Item → List (Option A) → Filtered A
unfolding verdict
filter_from lines i [] retry = record { lines = retry; reason = none }
filter_from lines i (item ∷ items) retry = elim (verdict item) [
  | handled ↦ filter_from lines (i + 1) items retry
  | resend ↦
      filter_from lines (i + 1) items
        (retry ++ get_elem? lines (i * 2) ∷ get_elem? lines (i * 2 + 1) ∷ [])
  | fatal r ↦ record { lines = []; reason = some r }
]

unfoldable pub filter_response : {A : Type 0} → List A → List Item → Filtered A
unfolding filter_from
filter_response lines items = filter_from lines 0 items []

-- The answers to one request: a failure, which the error handler may retry, or the items.
pub data Response : Type 0 where
  fails : Option String → String → Response
  answers : Bool → List Item → Response

-- What `bulkSend` settles with.
pub data Settlement : Type 0 where
  resolved : Settlement
  refused_items : ItemError → Settlement
  sender_error : String → Settlement
  waiting : Settlement

abbrev pub is_rejected : Option String → Bool
is_rejected none = false
is_rejected (some t) = t === rejected_type

abbrev pub flat {ℓ} : {A : Type ℓ} → Option (Option A) → Option A
flat none = none
flat (some a) = a

-- The settlement and every request that is sent. A failed request with the type of a rejection is sent
-- again as it is, by `_makeRequest`; another failure rejects.
unfoldable pub bulk_send :
    {A : Type 0} → List Response → List (Option A) → Settlement × List (List (Option A))
unfolding filter_response
bulk_send [] lines = (waiting, lines ∷ [])
bulk_send (fails t e ∷ rest) lines =
    let again = bulk_send rest lines in
    if is_rejected t then (again.0, lines ∷ again.1) else (sender_error e, lines ∷ [])
bulk_send (answers false items ∷ rest) lines = (resolved, lines ∷ [])
bulk_send (answers true items ∷ rest) lines =
    let f = filter_response lines items in
    let again = bulk_send rest (map flat f.lines) in
    elim f.reason [
      | some r ↦ (refused_items r, lines ∷ [])
      | none ↦ if length f.lines == 0 then (resolved, lines ∷ []) else (again.0, lines ∷ again.1)
    ]

-- The answer of one search: the number of failed shards and the types of their failures, each once.
pub data Search (D : Type 0) : Type 0 where
  search_fails : Option String → String → Search D
  found : D → ℕ → List String → Search D

pub data Searched (D : Type 0) : Type 0 where
  hits : D → Searched D
  shard_errors : List String → Searched D
  search_error : String → Searched D
  searching : Searched D

abbrev pub head_is : String → List String → Bool
head_is s [] = false
head_is s (t ∷ l) = t === s

unfoldable pub search_es : {D : Type 0} → List (Search D) → Searched D
search_es [] = searching
search_es (search_fails t e ∷ rest) =
    let again = search_es rest in if is_rejected t then again else search_error e
search_es (found d failed reasons ∷ rest) =
    let again = search_es rest in
    if failed == 0
    then hits d
    else if ltb 1 (length reasons) || not (head_is rejected_type reasons)
    then shard_errors reasons
    else again
