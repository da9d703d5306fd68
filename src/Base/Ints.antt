-- ===== src/Base/Ints.antt =====
-- Integers over the native numbers.
use Prim.Native.Nat.{ℕ, ◌-◌, ◌+◌, ◌<◌}
use mathlib.Core.Path.{◌≡◌, ap, refl, sym, ◌∙◌}
use mathlib.Core.Logic.{inl, inr}
use native.Mathlib.Omega.{arith}
use teraslice.Base.Tests.{Bool-cases, leb, if◌then◌else◌}
use mathlib.Core.Bool.{Bool, true, false}

-- `negsuc n` is the negative of `n + 1`.
pub data ℤ : Type 0 where
  pos : ℕ → ℤ
  negsuc : ℕ → ℤ

-- The difference of two numbers.
abbrev pub minus : ℕ → ℕ → ℤ
minus a b = if leb b a then pos (a - b) else negsuc ((b - a) - 1)

abbrev pub plus : ℤ → ℤ → ℤ
plus (pos a) (pos b) = pos (a + b)
plus (pos a) (negsuc b) = minus a (b + 1)
plus (negsuc a) (pos b) = minus b (a + 1)
plus (negsuc a) (negsuc b) = negsuc (a + b + 1)

-- A difference, added to what was taken off, gives the number back.
pub plus-minus : (a b : ℕ) → plus (pos b) (minus a b) ≡ pos a
plus-minus a b = elim (Bool-cases (leb b a)) [
  | inl h ↦ rw h (ap pos (ground arith))
  | inr h ↦
      rw h (let k : leb (b - a - 1 + 1) b ≡ true = ground arith in rw k (ap pos (ground arith)))
]

-- The number that is not below 0, and the test against a number.
abbrev pub nat_of : ℤ → ℕ
nat_of (pos a) = a
nat_of (negsuc a) = 0

abbrev pub at_least : ℕ → ℤ → Bool
at_least n (pos a) = leb n a
at_least n (negsuc a) = false

nat_of-minus : (a b : ℕ) → nat_of (minus a b) ≡ a - b
nat_of-minus a b = elim (Bool-cases (leb b a)) [ inl h ↦ rw h refl | inr h ↦ rw h (ground arith) ]

-- A positive sum has a positive part.
pub nat_of-plus : (a b : ℤ) → (at_least 1 a ≡ false) → 0 < nat_of (plus a b) → 0 < nat_of b
nat_of-plus (pos a) (pos b) k h = ground arith
nat_of-plus (pos a) (negsuc b) k h = absurd (ground (arith, nat_of-minus a (b + 1)))
nat_of-plus (negsuc a) (pos b) k h = ground (arith, nat_of-minus b (a + 1))
nat_of-plus (negsuc a) (negsuc b) k h = absurd (ground arith)

pub minus-same : (a b c d : ℕ) → a + d ≡ c + b → minus a b ≡ minus c d
minus-same a b c d h = elim (Bool-cases (leb b a)) [
  | inl k ↦ elim (Bool-cases (leb d c)) [
    | inl l ↦ rw k (rw l (ap pos (ground (arith, h))))
    | inr l ↦ absurd (ground (arith, h))
  ]
  | inr k ↦ elim (Bool-cases (leb d c)) [
    | inl l ↦ absurd (ground (arith, h))
    | inr l ↦ rw k (rw l (ap negsuc (ground (arith, h))))
  ]
]

pos-minus : (x a b : ℕ) → x + b ≡ a → pos x ≡ minus a b
pos-minus x a b h = elim (Bool-cases (leb b a)) [
  | inl k ↦ rw k (ap pos (ground (arith, h)))
  | inr k ↦ absurd (ground (arith, h))
]

negsuc-minus : (x a b : ℕ) → a + x + 1 ≡ b → negsuc x ≡ minus a b
negsuc-minus x a b h = elim (Bool-cases (leb b a)) [
  | inl k ↦ absurd (ground (arith, h))
  | inr k ↦ rw k (ap negsuc (ground (arith, h)))
]

-- Sums of differences.
pub plus-minus-pos : (a b n : ℕ) → plus (minus a b) (pos n) ≡ minus (a + n) b
plus-minus-pos a b n = elim (Bool-cases (leb b a)) [
  | inl k ↦ rw k (pos-minus (a - b + n) (a + n) b (ground arith))
  | inr k ↦ rw k (minus-same n (b - a - 1 + 1) (a + n) b (ground arith))
]

pub plus-minus-less : (a b : ℕ) → plus (minus a b) (negsuc 0) ≡ minus a (b + 1)
plus-minus-less a b = elim (Bool-cases (leb b a)) [
  | inl k ↦ rw k (minus-same (a - b) 1 a (b + 1) (ground arith))
  | inr k ↦ rw k (negsuc-minus (b - a - 1 + 0 + 1) a (b + 1) (ground arith))
]

pub plus-minus-minus : (a b c d : ℕ) → plus (minus a b) (minus c d) ≡ minus (a + c) (b + d)
plus-minus-minus a b c d = elim (Bool-cases (leb b a)) [
  | inl k ↦ elim (Bool-cases (leb d c)) [
    | inl l ↦ rw k (rw l (pos-minus (a - b + (c - d)) (a + c) (b + d) (ground arith)))
    | inr l ↦ rw k (rw l (minus-same (a - b) (d - c - 1 + 1) (a + c) (b + d) (ground arith)))
  ]
  | inr k ↦ elim (Bool-cases (leb d c)) [
    | inl l ↦ rw k (rw l (minus-same (c - d) (b - a - 1 + 1) (a + c) (b + d) (ground arith)))
    | inr l ↦
        rw k (rw l (negsuc-minus (b - a - 1 + (d - c - 1) + 1) (a + c) (b + d) (ground arith)))
  ]
]

-- Every integer is a difference.
pub of_minus : (z : ℤ) → (a : ℕ) × (b : ℕ) × (z ≡ minus a b)
of_minus (pos a) = (a, 0, pos-minus a a 0 (ground arith))
of_minus (negsuc n) = (0, n + 1, negsuc-minus n 0 (n + 1) (ground arith))

pub plus-shift : (p c : ℕ) (l : ℤ) → plus (plus (pos p) l) (minus c p) ≡ plus (pos c) l
plus-shift p c l =
    let (x, y, e) = of_minus l in
    ap (λ v. plus (plus (pos p) v) (minus c p)) e
    ∙ ap (λ v. plus (plus v (minus x y)) (minus c p)) (pos-minus p p 0 (ground arith))
    ∙ ap (λ v. plus v (minus c p)) (plus-minus-minus p 0 x y)
    ∙ plus-minus-minus (p + x) (0 + y) c p
    ∙ minus-same (p + x + c) (0 + y + p) (c + x) (0 + y) (ground arith)
    ∙ sym (plus-minus-minus c 0 x y)
    ∙ ap (λ v. plus v (minus x y)) (sym (pos-minus c c 0 (ground arith)))
    ∙ ap (plus (pos c)) (sym e)

pub plus_assoc : (a b c : ℤ) → plus (plus a b) c ≡ plus a (plus b c)
plus_assoc a b c =
    let (x, y, e) = of_minus a in
    let (u, v, f) = of_minus b in
    let (r, t, g) = of_minus c in
    rw (e, f, g)
      (ap (λ z. plus z (minus r t)) (plus-minus-minus x y u v)
        ∙ plus-minus-minus (x + u) (y + v) r t
        ∙ minus-same (x + u + r) (y + v + t) (x + (u + r)) (y + (v + t)) (ground arith)
        ∙ sym (plus-minus-minus x y (u + r) (v + t))
        ∙ ap (plus (minus x y)) (sym (plus-minus-minus u v r t)))
