-- ===== src/Prelude/Search.antt =====
-- Elements of a list by position or by a test, as the loops over t_list of the commons library find them.
use Prim.Native.Nat.{ℕ, zero, suc, ◌+◌, ◌≤◌, ◌<◌}
use mathlib.Core.Path.{◌≡◌, refl, ap, ◌∙◌}
use mathlib.Core.Logic.{inl, inr}
use mathlib.Core.Bool.{Bool, true}
use mathlib.Core.Option.{Option, none, some}
use mathlib.Core.List.{List, [], ◌∷◌}
use native.Mathlib.Omega.{arith}
use so_unoficial.Prelude.Tests.{if◌then◌else◌, Bool-cases}
use so_unoficial.Prelude.Lists.{length}

module _ {ℓ} {A : Type ℓ} where
  abbrev pub get_elem? : List A → ℕ → Option A
  get_elem? [] i = none
  get_elem? (x ∷ xs) zero = some x
  get_elem? (x ∷ xs) (suc i) = get_elem? xs i

  -- The element at a position changed.
  abbrev pub modify : (A → A) → ℕ → List A → List A
  modify f i [] = []
  modify f zero (x ∷ xs) = f x ∷ xs
  modify f (suc i) (x ∷ xs) = x ∷ modify f i xs

  -- The list without the element at a position.
  abbrev pub erase_at : ℕ → List A → List A
  erase_at i [] = []
  erase_at zero (x ∷ xs) = xs
  erase_at (suc i) (x ∷ xs) = x ∷ erase_at i xs

  -- The first element that meets the test, changed.
  abbrev pub modify_first : (A → Bool) → (A → A) → List A → List A
  modify_first p f [] = []
  modify_first p f (x ∷ xs) = if p x then f x ∷ xs else x ∷ modify_first p f xs

  abbrev pub find_first : (A → Bool) → List A → Option A
  find_first p [] = none
  find_first p (x ∷ xs) = if p x then some x else find_first p xs

  -- The position of the first element that meets the test, counted from `i`.
  abbrev pub position_from : (A → Bool) → ℕ → List A → Option ℕ
  position_from p i [] = none
  position_from p i (x ∷ xs) = if p x then some i else position_from p (suc i) xs

  abbrev pub last_of : List A → Option A
  last_of [] = none
  last_of (x ∷ []) = some x
  last_of (x ∷ y ∷ ys) = last_of (y ∷ ys)

  pub get_elem_some : (xs : List A) (i : ℕ) → i < length xs → (x : A) × (get_elem? xs i ≡ some x)
  get_elem_some [] i h = absurd (omega arith)
  get_elem_some (x ∷ xs) zero h = (x, refl)
  get_elem_some (x ∷ xs) (suc i) h = get_elem_some xs i (omega arith)

  pub get_elem_inside : (xs : List A) (i : ℕ) (x : A) → get_elem? xs i ≡ some x → i < length xs
  get_elem_inside [] i x h = ground arith
  get_elem_inside (y ∷ xs) zero x h = omega arith
  get_elem_inside (y ∷ xs) (suc i) x h = omega (arith, get_elem_inside xs i x h)

  pub get_elem_modify :
      (f : A → A) (k : ℕ) (xs : List A) (x : A)
      → get_elem? xs k ≡ some x
      → get_elem? (modify f k xs) k ≡ some (f x)
  get_elem_modify f k [] x h = absurd (ground arith)
  get_elem_modify f zero (y ∷ ys) x h = ap (λ o. elim o [ some z ↦ some (f z) | none ↦ none ]) h
  get_elem_modify f (suc k) (y ∷ ys) x h = get_elem_modify f k ys x h

  -- A change that the test does not see.
  pub position_modify :
      (t : A → Bool) (f : A → A) (i k : ℕ) (xs : List A)
      → ((x : A) → t (f x) ≡ t x)
      → position_from t i (modify f k xs) ≡ position_from t i xs
  position_modify t f i k [] same = refl
  position_modify t f i zero (y ∷ ys) same =
      ap (λ b. if b then some i else position_from t (suc i) ys) (same y)
  position_modify t f i (suc k) (y ∷ ys) same =
      ap (λ r. if t y then some i else r) (position_modify t f (suc i) k ys same)

  pub find_first_modify :
      (t : A → Bool) (f : A → A) (xs : List A) (x : A)
      → ((y : A) → t (f y) ≡ t y)
      → find_first t xs ≡ some x
      → find_first t (modify_first t f xs) ≡ some (f x)
  find_first_modify t f [] x same h = absurd (ground arith)
  find_first_modify t f (y ∷ ys) x same h = elim (Bool-cases (t y)) [
    | inl here ↦
        let found : t (f y) ≡ true = same y ∙ here in
        let is : some y ≡ some x = ground arith in
        rw (here, found) (ap (λ o. elim o [ some z ↦ some (f z) | none ↦ none ]) is)
    | inr away ↦ rw (away, away) (find_first_modify t f ys x same (ground arith))
  ]

  pub position_later :
      (t : A → Bool) (i k : ℕ) (xs : List A) → position_from t i xs ≡ some k → i ≤ k
  position_later t i k [] e = absurd (ground arith)
  position_later t i k (y ∷ ys) e = elim (Bool-cases (t y)) [
    | inl here ↦ ground arith
    | inr away ↦ omega (arith, position_later t (suc i) k ys (ground arith))
  ]

  -- The element at the first position, by the other loop.
  pub find_position :
      (t : A → Bool) (i k : ℕ) (xs : List A) (x : A)
      → position_from t i xs ≡ some (i + k)
      → get_elem? xs k ≡ some x
      → find_first t xs ≡ some x
  find_position t i k [] x e h = absurd (ground arith)
  find_position t i zero (y ∷ ys) x e h = elim (Bool-cases (t y)) [
    | inl here ↦ rw here h
    | inr away ↦
        absurd
          (let late = position_later t (suc i) (i + 0) ys (ground arith) in omega (arith, late))
  ]
  find_position t i (suc k) (y ∷ ys) x e h = elim (Bool-cases (t y)) [
    | inl here ↦ absurd (ground arith)
    | inr away ↦ rw away (find_position t (suc i) k ys x (ground arith) h)
  ]
