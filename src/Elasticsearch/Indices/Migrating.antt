-- ===== src/Elasticsearch/Indices/Migrating.antt =====
-- What a migration of packages/elasticsearch-api/index.js does to the documents of an index.
use teraslice.Elasticsearch.Indices.{
  Index, Cluster, Created, is_created, exists_already, create_fails, Answers, is_none, index_of,
  write_docs, without, template_sent, created_as, templated, create_missing, create_migrant,
  alias_of, aliased_index, or_alias, find_index, aliased, deleted, docs_in, recounted, reindexed,
  migrated, migrate,
}
use teraslice.Base.{
  String, ◌≡◌, refl, sym, ap, subst, ◌∙◌, ◌⊎◌, inl, inr, false, Option, none, some, List, [], ◌∷◌,
  ◌++◌, arith, ◌==◌, ==_iff, Bool-cases, Option-cases, ◌===◌, ===_iff, length,
}

-- The documents are where they were, or the migrant has as many.
abbrev pub Kept : String → String → Index → Cluster → Type 0
Kept index migrant i e =
    (index_of index e.indices ≡ some i) ⊎ (docs_in (index_of migrant e.indices) ≡ length i.docs)

index_of-append :
    (index name : String) (i j : Index) (l : List (String × Index))
    → index_of index l ≡ some i
    → index_of index (l ++ (name, j) ∷ []) ≡ some i
index_of-append index name i j [] h = absurd (ground arith)
index_of-append index name i j ((k, m) ∷ l) h = ground (arith, index_of-append index name i j l)

index_of-write_docs :
    (index name : String) (docs : List String) (l : List (String × Index))
    → (name === index) ≡ false
    → index_of index (write_docs name docs l) ≡ index_of index l
index_of-write_docs index name docs [] h = refl
index_of-write_docs index name docs ((k, m) ∷ l) h = ground (
  arith,
  ===_iff k name,
  ===_iff k index,
  ===_iff name index,
  index_of-write_docs index name docs l h,
)

index_of-without :
    (index name : String) (l : List (String × Index))
    → (index === name) ≡ false
    → index_of name (without index l) ≡ index_of name l
index_of-without index name [] h = refl
index_of-without index name ((k, m) ∷ l) h =
    ground
      (arith, ===_iff k name, ===_iff k index, ===_iff index name, index_of-without index name l h)

module _ (a : Answers) (index migrant : String) (i : Index)
    (other : (index === migrant) ≡ false) where
  created_as-keeps :
      (mapping : String) (c : Created) (e : Cluster)
      → index_of index e.indices ≡ some i
      → index_of index (created_as migrant mapping c e).0.indices ≡ some i
  created_as-keeps mapping is_created e h = index_of-append index migrant i _ e.indices h
  created_as-keeps mapping (exists_already j) e h = index_of-append index migrant i j e.indices h
  created_as-keeps mapping (create_fails m) e h = h

  templated-keeps :
      (template sent : Option String) (mapping : String) (c : Created) (e : Cluster)
      → index_of index e.indices ≡ some i
      → index_of index (templated template sent migrant mapping c e).0.indices ≡ some i
  templated-keeps template (some m) mapping c e h = h
  templated-keeps none none mapping c e h = created_as-keeps mapping c e h
  templated-keeps (some t) none mapping c e h =
      created_as-keeps mapping c (template_sent (some t) e) h

  create_migrant-keeps :
      (template : Option String) (mapping : String) (e : Cluster)
      → index_of index e.indices ≡ some i
      → index_of index (create_migrant a template migrant mapping e).0.indices ≡ some i
  unfolding create_migrant create_missing
  create_migrant-keeps template mapping e h = elim (Bool-cases (is_none (find_index migrant e))) [
    | inl k ↦ rw k (templated-keeps template _ mapping a.create e h)
    | inr k ↦ rw k h
  ]

  created_as-aliases :
      (mapping : String) (c : Created) (e : Cluster)
      → (created_as migrant mapping c e).0.aliases ≡ e.aliases
  created_as-aliases mapping is_created e = refl
  created_as-aliases mapping (exists_already j) e = refl
  created_as-aliases mapping (create_fails m) e = refl

  templated-aliases :
      (template sent : Option String) (mapping : String) (c : Created) (e : Cluster)
      → (templated template sent migrant mapping c e).0.aliases ≡ e.aliases
  templated-aliases template (some m) mapping c e = refl
  templated-aliases none none mapping c e = created_as-aliases mapping c e
  templated-aliases (some t) none mapping c e =
      created_as-aliases mapping c (template_sent (some t) e)

  create_migrant-aliases :
      (template : Option String) (mapping : String) (e : Cluster)
      → (create_migrant a template migrant mapping e).0.aliases ≡ e.aliases
  unfolding create_migrant create_missing
  create_migrant-aliases template mapping e = elim (Bool-cases (is_none (find_index migrant e))) [
    | inl k ↦ rw k (templated-aliases template _ mapping a.create e)
    | inr k ↦ rw k refl
  ]

  find_index-unaliased :
      (e : Cluster)
      → alias_of migrant e.aliases ≡ none
      → find_index migrant e ≡ index_of migrant e.indices
  find_index-unaliased e h = rw h (elim (Option-cases (index_of migrant e.indices)) [
    | inl k ↦ rw k refl
    | inr (j, k) ↦ rw k refl
  ])

  aliased_indices :
      (failed : Option String) (e : Cluster)
      → (aliased failed index migrant e).0.indices ≡ e.indices
  aliased_indices (some m) e = refl
  aliased_indices none e = refl

  deleted-Kept :
      (failed : Option String) (e : Cluster)
      → index_of index e.indices ≡ some i
      → docs_in (index_of migrant e.indices) ≡ length i.docs
      → Kept index migrant i (deleted a failed index migrant e).0
  deleted-Kept (some m) e h n = inl h
  deleted-Kept none e h n = inr (
      ap (λ l. docs_in (index_of migrant l))
        (aliased_indices a.alias (record e { indices = without index e.indices }))
      ∙ ap docs_in (index_of-without index migrant e.indices other)
      ∙ n)

  recounted-Kept :
      (failed : Option String) (e : Cluster)
      → index_of index e.indices ≡ some i
      → alias_of migrant e.aliases ≡ none
      → Kept index migrant i (recounted a failed (length i.docs) index migrant e).0
  recounted-Kept (some m) e h u = inl h
  recounted-Kept none e h u = elim (Bool-cases (length i.docs == docs_in (find_index migrant e))) [
    | inl k ↦ rw k (
        deleted-Kept a.delete e h
          (ap docs_in (sym (find_index-unaliased e u)) ∙ sym ((==_iff (length i.docs) _).0 k)))
    | inr k ↦ rw k (inl h)
  ]

  reindexed-Kept :
      (failed : Option String) (e : Cluster)
      → index_of index e.indices ≡ some i
      → alias_of migrant e.aliases ≡ none
      → Kept index migrant i (reindexed a failed (length i.docs) index migrant e).0
  reindexed-Kept (some m) e h u = inl h
  reindexed-Kept none e h u = recounted-Kept a.recount e h u

  migrated-Kept :
      (failed : Option String) (r : Cluster × Option String)
      → index_of index r.0.indices ≡ some i
      → alias_of migrant r.0.aliases ≡ none
      → Kept index migrant i (migrated a failed (length i.docs) index migrant r).0
  migrated-Kept failed (e, some m) h u = inl h
  migrated-Kept (some m) (e, none) h u = inl h
  migrated-Kept none (e, none) h u =
      reindexed-Kept a.reindex _
        (index_of-write_docs index migrant a.copied e.indices
            (ground (arith, ===_iff migrant index, ===_iff index migrant))
          ∙ h)
        u

  -- Whichever request of a migration fails, the documents of the index are still there: the index is as it was,
  -- or its migrant has as many documents. The index exists, and the migrant has another name, which is no alias.
  pub migrate-Kept :
      (template : Option String) (mapping : String) (e : Cluster)
      → index_of index e.indices ≡ some i
      → alias_of migrant e.aliases ≡ none
      → Kept index migrant i (migrate a template index migrant mapping e).0
  unfolding migrate
  migrate-Kept template mapping e h u =
      let made = create_migrant a template migrant mapping e in
      subst (λ n. Kept index migrant i (migrated a a.count n index migrant made).0)
        (ap (λ o. docs_in (or_alias o (aliased_index (alias_of index e.aliases) e.indices)))
          (sym h))
        (migrated-Kept a.count made (create_migrant-keeps template mapping e h)
          (ap (alias_of migrant) (create_migrant-aliases template mapping e) ∙ u))
