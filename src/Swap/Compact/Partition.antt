-- ===== src/Swap/Compact/Partition.antt =====
-- The inner loop of compactar as a function on a list: a free element goes behind the used ones that
-- follow it.
use so_unoficial.Prelude.{
  ℕ, zero, suc, ◌+◌, ◌-◌, ◌≤◌, ◌≡◌, refl, ◌∙◌, Bool, true, false, not, ◌&&◌, ◌||◌, List, [], ◌∷◌,
  ◌++◌, length, if◌then◌else◌, arith,
}

module _ {ℓ} {A : Type ℓ} (free : A → Bool) where
  -- One pass, with the element that it has reached.
  unfoldable pub carry : A → List A → List A
  carry x [] = x ∷ []
  carry x (y ∷ ys) = if free x && not (free y) then y ∷ carry x ys else x ∷ carry y ys

  unfoldable pub one_pass : List A → List A
  unfolding carry
  one_pass [] = []
  one_pass (x ∷ xs) = carry x xs

  unfoldable pub repeat_pass : ℕ → List A → List A
  repeat_pass zero xs = xs
  repeat_pass (suc n) xs = repeat_pass n (one_pass xs)

  unfoldable pub used_of : List A → List A
  used_of [] = []
  used_of (x ∷ xs) = if free x then used_of xs else x ∷ used_of xs

  unfoldable pub free_of : List A → List A
  free_of [] = []
  free_of (x ∷ xs) = if free x then x ∷ free_of xs else free_of xs

  unfoldable any_used : List A → Bool
  any_used [] = false
  any_used (x ∷ xs) = not (free x) || any_used xs

  -- The number of free elements in front of the last used one.
  unfoldable excess : List A → ℕ
  excess [] = 0
  excess (x ∷ xs) = (if free x && any_used xs then 1 else 0) + excess xs

  used_of-carry : (x : A) (ys : List A) → used_of (carry x ys) ≡ used_of (x ∷ ys)
  unfolding carry used_of
  used_of-carry x [] = refl
  used_of-carry x (y ∷ ys) = ground (arith, used_of-carry x ys, used_of-carry y ys)

  free_of-carry : (x : A) (ys : List A) → free_of (carry x ys) ≡ free_of (x ∷ ys)
  unfolding carry free_of
  free_of-carry x [] = refl
  free_of-carry x (y ∷ ys) = ground (arith, free_of-carry x ys, free_of-carry y ys)

  any_used-carry : (x : A) (ys : List A) → any_used (carry x ys) ≡ any_used (x ∷ ys)
  unfolding carry any_used
  any_used-carry x [] = refl
  any_used-carry x (y ∷ ys) = ground (arith, any_used-carry x ys, any_used-carry y ys)

  excess_none : (xs : List A) → any_used xs ≡ false → excess xs ≡ 0
  unfolding any_used excess
  excess_none [] h = refl
  excess_none (x ∷ xs) h = ground (arith, excess_none xs)

  excess-carry : (x : A) (ys : List A) → excess (carry x ys) ≡ excess (x ∷ ys) - 1
  unfolding carry any_used excess
  excess-carry x [] = ground arith
  excess-carry x (y ∷ ys) = ground (
    arith,
    excess-carry x ys,
    excess-carry y ys,
    any_used-carry x ys,
    any_used-carry y ys,
    excess_none ys,
  )

  excess-length : (xs : List A) → excess xs ≤ length xs
  unfolding any_used excess
  excess-length [] = omega arith
  excess-length (x ∷ xs) = ground (arith, excess-length xs)

  used_of_none : (xs : List A) → any_used xs ≡ false → used_of xs ≡ []
  unfolding any_used used_of
  used_of_none [] h = refl
  used_of_none (x ∷ xs) h = ground (arith, used_of_none xs)

  free_of_none : (xs : List A) → any_used xs ≡ false → free_of xs ≡ xs
  unfolding any_used free_of
  free_of_none [] h = refl
  free_of_none (x ∷ xs) h = ground (arith, free_of_none xs)

  excess_zero : (xs : List A) → excess xs ≡ 0 → xs ≡ used_of xs ++ free_of xs
  unfolding any_used excess used_of free_of
  excess_zero [] h = refl
  excess_zero (x ∷ xs) h = ground (arith, excess_zero xs, used_of_none xs, free_of_none xs)

  excess-one_pass : (xs : List A) → excess (one_pass xs) ≡ excess xs - 1
  unfolding one_pass excess
  excess-one_pass [] = omega arith
  excess-one_pass (x ∷ xs) = excess-carry x xs

  one_pass_parts :
      (xs : List A) → used_of (one_pass xs) ++ free_of (one_pass xs) ≡ used_of xs ++ free_of xs
  unfolding one_pass
  one_pass_parts [] = refl
  one_pass_parts (x ∷ xs) = rw (used_of-carry x xs, free_of-carry x xs) refl

  -- As many passes as there are elements put the used ones first, each part in its old order.
  repeat_pass_parts :
      (n : ℕ) (xs : List A) → excess xs ≤ n → repeat_pass n xs ≡ used_of xs ++ free_of xs
  unfolding repeat_pass
  repeat_pass_parts zero xs h = excess_zero xs (omega arith)
  repeat_pass_parts (suc n) xs h =
      repeat_pass_parts n (one_pass xs) (omega (arith, excess-one_pass xs)) ∙ one_pass_parts xs

  pub repeat_pass-length : (xs : List A) → repeat_pass (length xs) xs ≡ used_of xs ++ free_of xs
  repeat_pass-length xs = repeat_pass_parts (length xs) xs (excess-length xs)

  unfoldable pub all_of : List A → Bool
  all_of [] = true
  all_of (x ∷ xs) = free x && all_of xs

  pub all_of-free_of : (xs : List A) → all_of (free_of xs) ≡ true
  unfolding all_of free_of
  all_of-free_of [] = refl
  all_of-free_of (x ∷ xs) = ground (arith, all_of-free_of xs)
