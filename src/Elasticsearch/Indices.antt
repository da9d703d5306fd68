-- ===== src/Elasticsearch/Indices.antt =====
-- Creating and migrating an index: _createIndex, _checkAndUpdateMapping and _migrate of
-- packages/elasticsearch-api/index.js. What Elasticsearch answers is an argument, and its indices are a list
-- by their names. A function gives its error, if it rejects, beside the state.
pub mod Migrating
pub mod Tests
use teraslice.Base.{
  ℕ, zero, suc, ◌+◌, ◌-◌, ◌*◌, ◌≤◌, ◌<◌, String, ◌≡◌, refl, sym, ap, subst, ◌∙◌, ◌≢◌, ◌↔◌, ◌⊎◌, inl,
  inr, Bool, true, false, not, ◌&&◌, ◌||◌, Option, none, some, List, [], ◌∷◌, ◌++◌, map, arith, ltb,
  leb, ◌==◌, if◌then◌else◌, ltb→lt, lt→ltb, leb→le, ==_iff, Bool-cases, Option-cases, ◌===◌,
  ===_iff, length, keep_if, any_of, All, length-append, length-map, length-keep_if-le, All-append,
  Result, ok, err, ◌>>=◌, map_err, map_ok, is_ok, min,
}

pub record Index : Type 0 where
  pub docs : List String
  pub mapping : String

pub record Cluster : Type 0 where
  pub indices : List (String × Index)
  pub aliases : List (String × String)
  pub templates : List String

-- The answer to the request to create an index: another process may have created it.
pub data Created : Type 0 where
  is_created : Created
  exists_already : Index → Created
  create_fails : String → Created

-- The errors of the requests, `none` where they succeed; `same` is the comparison of the mappings, and
-- `copied` what the reindexing writes, also where it fails.
pub record Answers : Type 0 where
  pub same : Result String Bool
  pub template : Option String
  pub create : Created
  pub count : Option String
  pub reindex : Option String
  pub copied : List String
  pub recount : Option String
  pub delete : Option String
  pub alias : Option String

abbrev pub is_none {ℓ} : {A : Type ℓ} → Option A → Bool
is_none none = true
is_none (some a) = false

abbrev pub index_of : String → List (String × Index) → Option Index
index_of name [] = none
index_of name ((k, i) ∷ l) = if k === name then some i else index_of name l

abbrev pub write_docs : String → List String → List (String × Index) → List (String × Index)
write_docs name docs [] = []
write_docs name docs ((k, i) ∷ l) =
    if k === name
    then (k, record i { docs = i.docs ++ docs }) ∷ l
    else (k, i) ∷ write_docs name docs l

-- What a name stands for: an index, or the index of its alias.
abbrev pub alias_of : String → List (String × String) → Option String
alias_of name [] = none
alias_of name ((k, i) ∷ l) = if k === name then some i else alias_of name l

abbrev pub aliased_index : Option String → List (String × Index) → Option Index
aliased_index none l = none
aliased_index (some i) l = index_of i l

abbrev pub or_alias : Option Index → Option Index → Option Index
or_alias (some i) j = some i
or_alias none j = j

abbrev pub find_index : String → Cluster → Option Index
find_index name e =
    or_alias (index_of name e.indices) (aliased_index (alias_of name e.aliases) e.indices)

abbrev pub without : String → List (String × Index) → List (String × Index)
without name l = keep_if (λ p. not (p.0 === name)) l

abbrev pub add_index : String → Index → Cluster → Cluster
add_index name i e = record e { indices = e.indices ++ (name, i) ∷ [] }

-- The name of the template of a mapping that has one, which is sent before the index is created.
abbrev pub template_sent : Option String → Cluster → Cluster
template_sent none e = e
template_sent (some name) e = record e { templates = name ∷ e.templates }

abbrev pub created_as : String → String → Created → Cluster → Cluster × Option String
created_as index mapping is_created e =
    (add_index index (record { docs = []; mapping = mapping }) e, none)
created_as index mapping (exists_already i) e = (add_index index i e, none)
created_as index mapping (create_fails m) e = (e, some m)

abbrev pub templated :
    Option String → Option String → String → String → Created → Cluster → Cluster × Option String
templated template (some m) index mapping c e = (e, some m)
templated template none index mapping c e = created_as index mapping c (template_sent template e)

-- The branch of `_createIndex` for an index that does not exist.
unfoldable pub create_missing :
    Answers → Option String → String → String → Cluster → Cluster × Option String
create_missing a template index mapping e =
    templated template (if is_none template then none else a.template) index mapping a.create e

-- `_createIndex` of the new index of a migration, whose own migrant is null: an index that exists is an error.
unfoldable pub create_migrant :
    Answers → Option String → String → String → Cluster → Cluster × Option String
unfolding create_missing
create_migrant a template migrant mapping e =
    if is_none (find_index migrant e)
    then create_missing a template migrant mapping e
    else (e, some "index and migrant index names are the same")

-- The chain of `_migrate` after both promises at its start: each step by the error of its request.
abbrev pub aliased : Option String → String → String → Cluster → Cluster × Option String
aliased (some m) index migrant e = (e, some m)
aliased none index migrant e = (record e { aliases = (index, migrant) ∷ e.aliases }, none)

abbrev pub deleted : Answers → Option String → String → String → Cluster → Cluster × Option String
deleted a (some m) index migrant e = (e, some m)
deleted a none index migrant e =
    aliased a.alias index migrant (record e { indices = without index e.indices })

abbrev pub docs_in : Option Index → ℕ
docs_in none = 0
docs_in (some i) = length i.docs

abbrev pub recounted :
    Answers → Option String → ℕ → String → String → Cluster → Cluster × Option String
recounted a (some m) doc_count index migrant e = (e, some m)
recounted a none doc_count index migrant e =
    if doc_count == docs_in (find_index migrant e)
    then deleted a a.delete index migrant e
    else (e, some "reindex error")

abbrev pub reindexed :
    Answers → Option String → ℕ → String → String → Cluster → Cluster × Option String
reindexed a (some m) doc_count index migrant e = (e, some m)
reindexed a none doc_count index migrant e = recounted a a.recount doc_count index migrant e

abbrev pub migrated :
    Answers
    → Option String
    → ℕ
    → String
    → String
    → Cluster × Option String
    → Cluster × Option String
migrated a failed doc_count index migrant (e, some m) = (e, some m)
migrated a (some m) doc_count index migrant (e, none) = (e, some m)
migrated a none doc_count index migrant (e, none) =
    reindexed a a.reindex doc_count index migrant
      (record e { indices = write_docs migrant a.copied e.indices })

unfoldable pub migrate :
    Answers → Option String → String → String → String → Cluster → Cluster × Option String
unfolding create_migrant
migrate a template index migrant mapping e =
    migrated a a.count (docs_in (find_index index e)) index migrant
      (create_migrant a template migrant mapping e)

abbrev pub keeps_old : String → Bool
keeps_old record_type = record_type === "state" || record_type === "analytics"

-- `_checkAndUpdateMapping`
unfoldable pub check_and_update_mapping :
    Answers → Option String → String → String → String → String → Cluster → Cluster × Option String
unfolding migrate
check_and_update_mapping a template index migrant mapping record_type e =
    if index === migrant
    then (e, some "index and migrant index names are the same")
    else elim a.same [
      | err m ↦ (e, some m)
      | ok equal ↦
          if equal
          then (e, none)
          else if keeps_old record_type
          then (elim (if is_none template then none else a.template) [
            | some m ↦ (e, some m)
            | none ↦ (template_sent template e, none)
          ])
          else migrate a template index migrant mapping e
    ]

unfoldable pub create_index :
    Answers → Option String → String → String → String → String → Cluster → Cluster × Option String
unfolding create_missing check_and_update_mapping
create_index a template index migrant mapping record_type e =
    if is_none (find_index index e)
    then create_missing a template index mapping e
    else check_and_update_mapping a template index migrant mapping record_type e
