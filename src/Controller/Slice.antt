-- ===== src/Controller/Slice.antt =====
-- Slices of work, as createSlice of packages/job-components/src/operations/core/slicer-core.ts makes them.
use teraslice.Base.{
  ℕ, Option, String, List, [], ◌++◌, length, suc, ◌≡◌, ◌∷◌, ap, zero, ◌-◌, refl, arith,
}
use Prim.Native.Nat.{min}

pub record Slice : Type 0 where
  pub slice_id : String
  pub slicer_id : ℕ
  pub slicer_order : ℕ
  pub request : String
  pub created : Option ℕ

-- Taking the first slices of a queue, as many as a loop asks for: the loops of `getSlices`.
pub record Taken : Type 0 where
  pub slices : List Slice
  pub rest : List Slice

unfoldable pub take_slices : ℕ → List Slice → Taken
take_slices zero q = record { slices = []; rest = q }
take_slices (suc n) [] = record { slices = []; rest = [] }
take_slices (suc n) (s ∷ q) =
    let t = take_slices n q in record { slices = s ∷ t.slices; rest = t.rest }

pub take_slices-append :
    (n : ℕ) (q : List Slice) → (take_slices n q).slices ++ (take_slices n q).rest ≡ q
unfolding take_slices
take_slices-append zero q = refl
take_slices-append (suc n) [] = refl
take_slices-append (suc n) (s ∷ q) = ap (λ l. s ∷ l) (take_slices-append n q)

pub take_slices-length :
    (n : ℕ) (q : List Slice)
    → (length (take_slices n q).slices ≡ min n (length q))
      × (length (take_slices n q).rest ≡ length q - n)
unfolding take_slices
take_slices-length zero q = omega arith
take_slices-length (suc n) [] = omega arith
take_slices-length (suc n) (s ∷ q) = omega (arith, take_slices-length n q)
