-- ===== src/Elasticsearch/Saving.antt =====
-- The buffer of bulk requests: bulk, _flush and shutdown of
-- packages/teraslice/lib/cluster/storage/backends/elasticsearch_store.js. `requests` holds what was given
-- to bulkSend, the last one first, and `in_flight` what it has not settled.
use teraslice.Base.{
  ℕ, String, ◌≡◌, refl, sym, ap, ◌∙◌, Bool, true, false, not, ◌&&◌, Option, none, some, List, [],
  ◌∷◌, ◌++◌, arith, ltb, leb, ◌==◌, if◌then◌else◌, ◌===◌, length,
}
use mathlib.Core.List.{append_assoc, append-nil}

pub data Line : Type 0 where
  action : String → String → Line
  document : String → Line

pub record Saving : Type 0 where
  pub bulk_size : ℕ
  pub bulk_queue : List Line
  pub in_flight : Option (List Line)
  pub requests : List (List Line)
  pub is_shutdown : Bool

abbrev pub saving_bulk : Option (List Line) → Bool
saving_bulk none = false
saving_bulk (some l) = true

unfoldable pub make_saving : Option ℕ → Saving
make_saving size = record {
  bulk_size = elim size as (λ _. ℕ) [ none ↦ 500 | some n ↦ if n == 0 then 500 else n ];
  bulk_queue = [];
  in_flight = none;
  requests = [];
  is_shutdown = false;
}

-- `_flush`, which the interval calls too.
unfoldable pub flush : Saving → Saving
flush s =
    if ltb 0 (length s.bulk_queue) && not (saving_bulk s.in_flight)
    then record s {
      bulk_queue = [];
      in_flight = some s.bulk_queue;
      requests = s.bulk_queue ∷ s.requests;
    }
    else s

-- The promise of bulkSend settles either way.
unfoldable pub settle : Saving → Saving
settle s = record s { in_flight = none }

abbrev pub kind_of : Option String → String
kind_of none = "index"
kind_of (some t) = if t === "" then "index" else t

abbrev pub target_of : String → String → String
target_of index_name index = if index === "" then index_name else index

-- `bulk`: `type` defaults to an index request, `index` to the store's.
unfoldable pub bulk : String → String → Option String → String → Saving → Saving
unfolding flush
bulk index_name doc type index s =
    let s1 : Saving = record s {
      bulk_queue =
          s.bulk_queue ++ action (kind_of type) (target_of index_name index) ∷ document doc ∷ [];
    } in
    if leb s1.bulk_size (length s1.bulk_queue) then flush s1 else s1

-- `_destroy` of a forced shutdown, after the flush or the timeout.
unfoldable pub destroy : Saving → Saving
destroy s = record s { bulk_queue = []; is_shutdown = true }

-- A forced shutdown whose flush has nothing to wait for: `_flush` resolves at once also while a
-- request is in flight.
unfoldable pub shutdown_now : Saving → Saving
unfolding flush destroy
shutdown_now s = destroy (flush s)

pub data Op : Type 0 where
  saves : String → Option String → String → Op
  flushes settles : Op

unfoldable pub step : String → Op → Saving → Saving
unfolding bulk flush settle
step index_name (saves doc type index) s = bulk index_name doc type index s
step index_name flushes s = flush s
step index_name settles s = settle s

-- Everything that was given to bulkSend, in the order of the requests.
abbrev pub requested : List (List Line) → List Line
requested [] = []
requested (r ∷ rs) = requested rs ++ r

-- The documents among the lines.
abbrev pub documents : List Line → List String
documents [] = []
documents (action k i ∷ l) = documents l
documents (document d ∷ l) = d ∷ documents l

documents-append : (l m : List Line) → documents (l ++ m) ≡ documents l ++ documents m
documents-append [] m = refl
documents-append (action k i ∷ l) m = documents-append l m
documents-append (document d ∷ l) m = ap (λ r. d ∷ r) (documents-append l m)

abbrev pub saved : List Op → List String
saved [] = []
saved (saves doc type index ∷ ops) = doc ∷ saved ops
saved (flushes ∷ ops) = saved ops
saved (settles ∷ ops) = saved ops

pub run : String → List Op → Saving → Saving
run index_name [] s = s
run index_name (o ∷ ops) s = run index_name ops (step index_name o s)

-- The documents that were requested or are queued.
abbrev pub kept : Saving → List String
kept s = documents (requested s.requests ++ s.bulk_queue)

if-kept :
    {r : List String} (s t : Saving) (b : Bool)
    → kept s ≡ r
    → kept t ≡ r
    → kept (if b then s else t) ≡ r
if-kept s t true h k = h
if-kept s t false h k = k

flush-kept : (s : Saving) → kept (flush s) ≡ kept s
unfolding flush
flush-kept s = ground (arith, append-nil (requested s.requests ++ s.bulk_queue))

queued-kept :
    (index_name kind doc : String) (s : Saving)
    → documents
        (requested s.requests ++ (s.bulk_queue ++ action kind index_name ∷ document doc ∷ []))
      ≡ kept s ++ doc ∷ []
queued-kept index_name kind doc s =
    rw
      (← append_assoc (requested s.requests) s.bulk_queue
        (action kind index_name ∷ document doc ∷ []))
      (documents-append (requested s.requests ++ s.bulk_queue)
        (action kind index_name ∷ document doc ∷ []))

bulk-kept :
    (index_name doc : String) (type : Option String) (index : String) (s : Saving)
    → kept (bulk index_name doc type index s) ≡ kept s ++ doc ∷ []
unfolding bulk
bulk-kept index_name doc type index s =
    let l : Line = action (kind_of type) (target_of index_name index) in
    let s1 : Saving = record s { bulk_queue = s.bulk_queue ++ l ∷ document doc ∷ [] } in
    let k = queued-kept (target_of index_name index) (kind_of type) doc s in
    if-kept (flush s1) s1 (leb s.bulk_size (length s1.bulk_queue)) (flush-kept s1 ∙ k) k

step-kept :
    (index_name : String) (o : Op) (s : Saving)
    → kept (step index_name o s) ≡ kept s ++ saved (o ∷ [])
unfolding step settle
step-kept index_name (saves doc type index) s = bulk-kept index_name doc type index s
step-kept index_name flushes s = flush-kept s ∙ sym (append-nil (kept s))
step-kept index_name settles s = sym (append-nil (kept s))

saved-cons : (o : Op) (ops : List Op) → saved (o ∷ ops) ≡ saved (o ∷ []) ++ saved ops
saved-cons (saves doc type index) ops = refl
saved-cons flushes ops = refl
saved-cons settles ops = refl

-- Whatever the order of saving, flushing and settling: the documents that were sent and those that are
-- queued are, in this order, those that were there and those that were saved, none lost, doubled or moved.
pub run-kept :
    (index_name : String) (ops : List Op) (s : Saving)
    → kept (run index_name ops s) ≡ kept s ++ saved ops
unfolding run
run-kept index_name [] s = sym (append-nil (kept s))
run-kept index_name (o ∷ ops) s =
    rw (run-kept index_name ops (step index_name o s), step-kept index_name o s, saved-cons o ops)
      (append_assoc (kept s) (saved (o ∷ [])) (saved ops))
