-- ===== src/Osada/Chain/Count.antt =====
-- Distinct blocks below a bound are no more than the bound.
use so_unoficial.Prelude.{
  ℕ, zero, suc, ◌≤◌, ◌≡◌, List, [], ◌∷◌, ◌==◌, if◌then◌else◌, length, arith, Bool-cases, inl, inr,
}
use so_unoficial.Osada.Chain.Shape.{IsNotIn, IsDistinct, AllBelow}

remove : ℕ → List ℕ → List ℕ
remove b [] = []
remove b (x ∷ xs) = if b == x then xs else x ∷ remove b xs

length-remove : (b : ℕ) (xs : List ℕ) → length xs ≤ suc (length (remove b xs))
unfolding remove
length-remove b [] = omega arith
length-remove b (x ∷ xs) = ground (arith, length-remove b xs)

IsNotIn-remove : (b y : ℕ) (xs : List ℕ) → IsNotIn y xs → IsNotIn y (remove b xs)
unfolding remove
IsNotIn-remove b y [] h = tt
IsNotIn-remove b y (x ∷ xs) h = elim (Bool-cases (b == x)) [
  | inl same ↦ rw same h.1
  | inr other ↦ rw other (h.0, IsNotIn-remove b y xs h.1)
]

IsDistinct-remove : (b : ℕ) (xs : List ℕ) → IsDistinct xs → IsDistinct (remove b xs)
unfolding remove
IsDistinct-remove b [] h = tt
IsDistinct-remove b (x ∷ xs) h = elim (Bool-cases (b == x)) [
  | inl same ↦ rw same h.1
  | inr other ↦ rw other (IsNotIn-remove b x xs h.0, IsDistinct-remove b xs h.1)
]

AllBelow-IsNotIn : (n : ℕ) (xs : List ℕ) → AllBelow (suc n) xs → IsNotIn n xs → AllBelow n xs
AllBelow-IsNotIn n [] h a = tt
AllBelow-IsNotIn n (x ∷ xs) h a = (omega arith, AllBelow-IsNotIn n xs h.1 a.1)

AllBelow-remove :
    (n : ℕ) (xs : List ℕ) → IsDistinct xs → AllBelow (suc n) xs → AllBelow n (remove n xs)
unfolding remove
AllBelow-remove n [] d h = tt
AllBelow-remove n (x ∷ xs) d h = elim (Bool-cases (n == x)) [
  | inl same ↦ let e : x ≡ n = ground arith in rw same (AllBelow-IsNotIn n xs h.1 (rw e at d.0))
  | inr other ↦ rw other (ground arith, AllBelow-remove n xs d.1 h.1)
]

pub length-le_of_distinct : (n : ℕ) (xs : List ℕ) → IsDistinct xs → AllBelow n xs → length xs ≤ n
length-le_of_distinct zero [] d h = omega arith
length-le_of_distinct zero (x ∷ xs) d h = absurd (omega arith)
length-le_of_distinct (suc n) xs d h = omega (
  arith,
  length-remove n xs,
  length-le_of_distinct n (remove n xs) (IsDistinct-remove n xs d) (AllBelow-remove n xs d h),
)
