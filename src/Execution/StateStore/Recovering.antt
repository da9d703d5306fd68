-- ===== src/Execution/StateStore/Recovering.antt =====
-- Which slices recoverSlices of packages/teraslice/lib/cluster/storage/state.js gives after the states that
-- the workers have written.
use teraslice.Execution.DateUtils.{timeseries_index}
use teraslice.Execution.StateStore.{
  Doc, is_at, index_with_id, patch_at, retry_query, Recovered, recovered, first, recover_slices,
  index_at, Context, timeseries_index, Slice, create_state, update_state, doc_of, patched, wanted,
}
use teraslice.Base.{
  ℕ, zero, suc, ◌≤◌, String, ◌≡◌, refl, ap, Bool, true, false, ◌&&◌, Option, none, List, [], ◌∷◌,
  ◌++◌, map, arith, ◌===◌, length, keep_if, any_of, ok, map_ok, ===_iff, some, ◌<◌, ◌∙◌, ==_iff,
  length-append, length-keep_if-le, ◌>>=◌,
}

abbrev pub is_slice : String → Recovered → Bool
is_slice id r = r.slice_id === id

abbrev pub has_id : String → Doc → Bool
has_id id d = d.slice_id === id

pub index_with_id-fresh :
    (d : Doc) (l : List Doc)
    → any_of (has_id d.slice_id) l ≡ false
    → index_with_id d l ≡ l ++ d ∷ []
index_with_id-fresh d [] h = refl
index_with_id-fresh d (e ∷ l) h = ground (arith, index_with_id-fresh d l)

any_of-append :
    (p : Doc → Bool) (d : Doc) (l : List Doc) → p d ≡ true → any_of p (l ++ d ∷ []) ≡ true
any_of-append p d [] h = ground arith
any_of-append p d (e ∷ l) h = ground (arith, any_of-append p d l h)

patch_at-fresh :
    (index id : String) (f : Doc → Doc) (d : Doc) (l : List Doc)
    → any_of (has_id id) l ≡ false
    → is_at index id d ≡ true
    → patch_at index id f (l ++ d ∷ []) ≡ l ++ f d ∷ []
patch_at-fresh index id f d [] h k = ground arith
patch_at-fresh index id f d (e ∷ l) h k = ground (arith, patch_at-fresh index id f d l)

pub keep_if-append :
    (p : Doc → Bool) (l m : List Doc) → keep_if p (l ++ m) ≡ keep_if p l ++ keep_if p m
keep_if-append p [] m = refl
keep_if-append p (e ∷ l) m = ground (arith, keep_if-append p l m)

first-all : (n : ℕ) (l : List Doc) → length l ≤ n → first n l ≡ l
first-all zero [] h = refl
first-all zero (d ∷ l) h = absurd (omega (arith, h))
first-all (suc n) [] h = refl
first-all (suc n) (d ∷ l) h = ap (λ m. d ∷ m) (first-all n l (omega (arith, h)))

any_of-keep_if :
    (p : Doc → Bool) (id : String) (l : List Doc)
    → any_of (is_slice id) (map recovered (keep_if p l)) ≡ any_of (λ d. p d && has_id id d) l
any_of-keep_if p id [] = refl
any_of-keep_if p id (d ∷ l) = ground (arith, any_of-keep_if p id l)

-- Of an execution's slicer with at most 5000 documents that the query asks for, the recovered slices are
-- those of these documents.
pub recover_slices-any_of :
    (ex_id id : String) (slicer_id : ℕ) (cleanup : Option String) (l : List Doc)
    → length (keep_if (retry_query ex_id slicer_id cleanup) l) ≤ 5000
    → map_ok (any_of (is_slice id)) (recover_slices ex_id slicer_id cleanup none l)
      ≡ ok (any_of (λ d. retry_query ex_id slicer_id cleanup d && has_id id d) l)
unfolding recover_slices
recover_slices-any_of ex_id id slicer_id cleanup l h =
    rw (first-all 5000 _ h) (ap ok (any_of-keep_if (retry_query ex_id slicer_id cleanup) id l))

any_of-last :
    (q : Doc → Bool) (id : String) (d : Doc) (l : List Doc)
    → any_of (has_id id) l ≡ false
    → any_of (λ e. q e && has_id id e) (l ++ d ∷ []) ≡ (q d && has_id id d)
any_of-last q id d [] h = ground arith
any_of-last q id d (e ∷ l) h = ground (arith, any_of-last q id d l)

length-keep_if-last :
    (n : ℕ) (p : Doc → Bool) (d : Doc) (l : List Doc)
    → length (keep_if p l) < n
    → length (keep_if p (l ++ d ∷ [])) ≤ n
length-keep_if-last n p d l h = rw (keep_if-append p l (d ∷ [])) (
    rw (length-append (keep_if p l) (keep_if p (d ∷ [])))
      (omega (arith, h, length-keep_if-le p (d ∷ []))))

str_same : (s : String) → (s === s) ≡ true
str_same s = (===_iff s s).1 refl

index_at-created :
    (c : Context) (now later t : ℕ) (s : Slice)
    → s.created ≡ some t
    → index_at c later s ≡ index_at c now s
unfolding index_at timeseries_index
index_at-created c now later t s h = rw h refl

module _ (c : Context) (now later t : ℕ) (ex_id : String) (s : Slice) (state : String)
    (error : Option String) (l : List Doc) (made : s.created ≡ some t)
    (fresh : any_of (has_id s.slice_id) l ≡ false) where
  create_state-append :
      create_state c now ex_id s "start" none none l
      ≡ ok (l ++ doc_of c now ex_id s "start" none ∷ [])
  unfolding create_state doc_of
  create_state-append = ap ok (index_with_id-fresh _ l fresh)

  doc_of-at : is_at (index_at c now s) s.slice_id (doc_of c now ex_id s "start" none) ≡ true
  unfolding doc_of
  doc_of-at = rw (str_same (index_at c now s)) (str_same s.slice_id)

  update_state-append :
      update_state c later s state error none (l ++ doc_of c now ex_id s "start" none ∷ [])
      ≡ ok (l ++ patched later state error (doc_of c now ex_id s "start" none) ∷ [])
  unfolding update_state doc_of
  update_state-append = rw (index_at-created c now later t s made) (
      rw
        (any_of-append (is_at (index_at c now s) s.slice_id) (doc_of c now ex_id s "start" none) l
          doc_of-at)
        (ap ok (patch_at-fresh _ _ _ _ l fresh doc_of-at)))

  recovered_last :
      (cleanup : Option String)
      → let d = patched later state error (doc_of c now ex_id s "start" none) in
        (retry_query ex_id s.slicer_id cleanup d && has_id s.slice_id d) ≡ wanted cleanup state
  unfolding doc_of
  recovered_last cleanup =
      rw (str_same ex_id)
        (rw (str_same s.slice_id) (ground (arith, ==_iff s.slicer_id s.slicer_id)))

  -- A slice that was given a time and whose id is new, and whose state is created and then updated without
  -- an error of a request, is recovered just where the query of the clean-up wants the later state, if the
  -- query finds fewer than 5000 documents before.
  pub recover_slices-update_state :
      (cleanup : Option String)
      → length (keep_if (retry_query ex_id s.slicer_id cleanup) l) < 5000
      → (create_state c now ex_id s "start" none none l >>= λ l1.
          update_state c later s state error none l1 >>= λ l2.
          map_ok (any_of (is_slice s.slice_id)) (recover_slices ex_id s.slicer_id cleanup none l2))
        ≡ ok (wanted cleanup state)
  recover_slices-update_state cleanup h = rw create_state-append (
      rw update_state-append (
        recover_slices-any_of ex_id s.slice_id s.slicer_id cleanup _
          (length-keep_if-last 5000 _ _ l h)
        ∙ ap ok (
            any_of-last (retry_query ex_id s.slicer_id cleanup) s.slice_id _ l fresh
            ∙ recovered_last cleanup)))
