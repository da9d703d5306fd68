-- ===== src/Execution/StateStore/Latest.antt =====
-- What executionStartingSlice of packages/teraslice/lib/cluster/storage/state.js gives.
use teraslice.Execution.StateStore.Recovering.{has_id, index_with_id-fresh, keep_if-append}
use teraslice.Execution.StateStore.{
  Doc, highest, create_state, execution_starting_slice, doc_of, Context, Slice, of_slicer,
  request_of,
}
use teraslice.Base.{
  ◌<◌, ◌≡◌, refl, some, List, [], ◌∷◌, ◌++◌, arith, ltb→lt, All, ℕ, String, ap, inl, inr, Bool,
  true, false, Option, none, ==_iff, Bool-cases, ===_iff, keep_if, any_of, ok, ◌>>=◌,
}

highest-append :
    (d : Doc) (l : List Doc)
    → All (λ e. e.slicer_order < d.slicer_order) l
    → highest (l ++ d ∷ []) ≡ some d
highest-append d [] h = refl
highest-append d (e ∷ l) h =
    rw (highest-append d l (h.1)) (ground (arith, h.0, ltb→lt d.slicer_order e.slicer_order))

All-keep_if :
    (p : Doc → Bool) (q : Doc → Type 0) (l : List Doc)
    → All (λ e. (p e ≡ true) → q e) l
    → All q (keep_if p l)
All-keep_if p q [] h = h
All-keep_if p q (e ∷ l) h = elim (Bool-cases (p e)) [
  | inl k ↦ rw k (h.0 k, All-keep_if p q l h.1)
  | inr k ↦ rw k (All-keep_if p q l h.1)
]

doc_of-of_slicer :
    (c : Context) (now : ℕ) (ex_id : String) (s : Slice) (state : String) (error : Option String)
    → of_slicer ex_id s.slicer_id (doc_of c now ex_id s state error) ≡ true
unfolding doc_of
doc_of-of_slicer c now ex_id s state error =
    ground (arith, ===_iff ex_id ex_id, ==_iff s.slicer_id s.slicer_id)

-- After the state of a slice is created whose id is new and whose order is above all that its slicer has,
-- and without an error of a request, that slice's request is where the recovery starts.
pub execution_starting_slice-create_state :
    (c : Context) (now : ℕ) (ex_id : String) (s : Slice) (state : String) (error : Option String)
    (l : List Doc)
    → any_of (has_id s.slice_id) l ≡ false
    → All (λ e. (of_slicer ex_id s.slicer_id e ≡ true) → e.slicer_order < s.slicer_order) l
    → (create_state c now ex_id s state error none l >>= λ l1.
        execution_starting_slice ex_id s.slicer_id none l1)
      ≡ ok (some s.request)
unfolding create_state execution_starting_slice doc_of
execution_starting_slice-create_state c now ex_id s state error l fresh below =
    rw (index_with_id-fresh (doc_of c now ex_id s state error) l fresh) (
      rw (keep_if-append (of_slicer ex_id s.slicer_id) l (doc_of c now ex_id s state error ∷ [])) (
        rw (doc_of-of_slicer c now ex_id s state error) (
          ap (λ d. ok (request_of d))
            (highest-append (doc_of c now ex_id s state error) _
              (All-keep_if (of_slicer ex_id s.slicer_id) _ l below)))))
