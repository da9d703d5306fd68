-- ===== src/Controller/SliceStats.antt =====
-- The statistics of slices: packages/teraslice/lib/workers/execution-controller/slice-analytics.js. Values
-- are natural numbers, so a negative difference in memory is not modelled; the average, a quotient of
-- two of the fields, is left out.
use teraslice.Base.{
  ℕ, zero, suc, ◌+◌, ◌≡◌, Option, none, some, List, [], ◌∷◌, ◌++◌, arith, ltb, ◌==◌, if◌then◌else◌,
  length, min,
}

pub record Stat : Type 0 where
  pub smallest : ℕ
  pub largest : ℕ
  pub sum : ℕ
  pub total : ℕ

abbrev pub no_stat : Stat
no_stat = record { smallest = 0; largest = 0; sum = 0; total = 0 }

abbrev pub larger : ℕ → ℕ → ℕ
larger a b = if ltb a b then b else a

-- The body of the loop of `addStat`, for a value that is a safe integer.
unfoldable pub add_value : ℕ → Stat → Stat
add_value v s = record {
  smallest = if s.smallest == 0 then v else min v s.smallest;
  largest = if s.largest == 0 then v else larger v s.largest;
  sum = s.sum + v;
  total = s.total + 1;
}

-- `addStat`: a value that is missing or no safe integer ends the loop.
unfoldable pub add_stat : List (Option ℕ) → List Stat → List Stat
unfolding add_value
add_stat vs [] = []
add_stat [] (s ∷ stats) = s ∷ stats
add_stat (none ∷ vs) (s ∷ stats) = s ∷ stats
add_stat (some v ∷ vs) (s ∷ stats) = add_value v s ∷ add_stat vs stats

pub record Analytics : Type 0 where
  pub time : List Stat
  pub memory : List Stat
  pub size : List Stat

-- The containers, one statistic for each operation.
unfoldable pub containers : ℕ → List Stat
containers zero = []
containers (suc n) = no_stat ∷ containers n

unfoldable pub make_analytics : ℕ → Analytics
unfolding containers
make_analytics n = record { time = containers n; memory = containers n; size = containers n }

pub record Reported : Type 0 where
  pub time : List (Option ℕ)
  pub memory : List (Option ℕ)
  pub size : List (Option ℕ)

unfoldable pub add_stats : Reported → Analytics → Analytics
unfolding add_stat
add_stats r a = record {
  time = add_stat r.time a.time;
  memory = add_stat r.memory a.memory;
  size = add_stat r.size a.size;
}

unfoldable pub on_slice_success : Option Reported → Analytics → Analytics
unfolding add_stats
on_slice_success none a = a
on_slice_success (some r) a = add_stats r a

-- The values of one operation, in the order of the slices.
pub add_values : List ℕ → Stat → Stat
add_values [] s = s
add_values (v ∷ vs) s = add_values vs (add_value v s)

abbrev pub sum_values : List ℕ → ℕ
sum_values [] = 0
sum_values (v ∷ vs) = v + sum_values vs

abbrev pub largest_of : List ℕ → ℕ
largest_of [] = 0
largest_of (v ∷ vs) = larger v (largest_of vs)

-- The statistics of an operation have the sum, the number and the largest of its values.
pub add_values_lem :
    (vs : List ℕ) (s : Stat)
    → let t = add_values vs s in
      (t.sum ≡ s.sum + sum_values vs)
      × (t.total ≡ s.total + length vs)
      × (t.largest ≡ larger s.largest (largest_of vs))
unfolding add_values add_value
add_values_lem [] s = (omega arith, omega arith, ground arith)
add_values_lem (v ∷ vs) s = ground (arith, add_values_lem vs (add_value v s))

-- After a value of 0 the next value is recorded as the smallest one, whatever came before.
pub add_values-append :
    (vs : List ℕ) (v : ℕ) (s : Stat) → (add_values (vs ++ 0 ∷ v ∷ []) s).smallest ≡ v
unfolding add_values add_value
add_values-append [] v s = ground arith
add_values-append (w ∷ vs) v s = add_values-append vs v (add_value w s)
