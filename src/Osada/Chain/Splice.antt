-- ===== src/Osada/Chain/Splice.antt =====
-- Chains that are lengthened or cut behind some of their blocks.
use so_unoficial.Prelude.{
  ℕ, ◌≤◌, ◌≡◌, ◌≢◌, inl, inr, refl, ◌∙◌, true, false, List, [], ◌∷◌, ◌++◌, ◌==◌, if◌then◌else◌,
  length, arith, Bool-cases,
}
use so_unoficial.Osada.State.{BitArray}
use so_unoficial.Osada.Chain.{Ref, slot, Chain, load}
use so_unoficial.Osada.Chain.Shape.{
  IsNotIn, IsDistinct, Avoids, AllBelow, is_in, IsChain, last_ref, Avoids-ne, Avoids-tail,
}
use so_unoficial.Osada.Chain.Grow.{AllFree, IsUsed, AllFree-Avoids}

abbrev pub AllAvoid : List ℕ → List ℕ → Type 0
AllAvoid [] zs = Unit
AllAvoid (x ∷ xs) zs = IsNotIn x zs × AllAvoid xs zs

last_ref-ne : (r : Ref) (x : ℕ) (xs : List ℕ) → Avoids r (x ∷ xs) → r ≢ last_ref (slot x) xs
last_ref-ne r x [] a = Avoids-ne r x [] a
last_ref-ne r x (y ∷ ys) a = last_ref-ne r y ys (Avoids-tail r x (y ∷ ys) a)

pub IsNotIn-is_in : (x : ℕ) (ys : List ℕ) → IsNotIn x ys → is_in x ys ≡ false
IsNotIn-is_in x [] h = refl
IsNotIn-is_in x (y ∷ ys) h = ground (arith, IsNotIn-is_in x ys h.1, h.0)

pub slot-ne-last_ref :
    (k : ℕ) (r : Ref) (xs : List ℕ) → slot k ≢ r → IsNotIn k xs → slot k ≢ last_ref r xs
slot-ne-last_ref k r [] ne h = ne
slot-ne-last_ref k r (x ∷ xs) ne h = slot-ne-last_ref k (slot x) xs (λ e. h.0 (cc)) h.1

pub AllAvoid-IsNotIn : (q : ℕ) (cs bs : List ℕ) → is_in q cs ≡ true → AllAvoid cs bs → IsNotIn q bs
AllAvoid-IsNotIn q [] bs m a = absurd (cc)
AllAvoid-IsNotIn q (c ∷ cs) bs m a = elim (Bool-cases (q == c)) [
  | inl same ↦ let e : q ≡ c = ground arith in rw e a.0
  | inr other ↦ AllAvoid-IsNotIn q cs bs (ground arith) a.1
]

pub IsNotIn-append : (b : ℕ) (xs ys : List ℕ) → IsNotIn b (xs ++ ys) → IsNotIn b xs × IsNotIn b ys
IsNotIn-append b [] ys h = (tt, h)
IsNotIn-append b (x ∷ xs) ys h = let (l, r) = IsNotIn-append b xs ys h.1 in ((h.0, l), r)

pub IsDistinct-append :
    (xs ys : List ℕ) → IsDistinct (xs ++ ys) → IsDistinct xs × IsDistinct ys × AllAvoid xs ys
IsDistinct-append [] ys h = (tt, h, tt)
IsDistinct-append (x ∷ xs) ys h =
    let (l, r) = IsNotIn-append x xs ys h.0 in
    let (dx, dy, a) = IsDistinct-append xs ys h.1 in ((l, dx), dy, (r, a))

pub AllBelow-append :
    (n : ℕ) (xs ys : List ℕ) → AllBelow n (xs ++ ys) → AllBelow n xs × AllBelow n ys
AllBelow-append n [] ys h = (tt, h)
AllBelow-append n (x ∷ xs) ys h = let (l, r) = AllBelow-append n xs ys h.1 in ((h.0, l), r)

pub length-append_le : (xs ys : List ℕ) → length ys ≤ length (xs ++ ys)
length-append_le [] ys = omega arith
length-append_le (x ∷ xs) ys = omega (arith, length-append_le xs ys)

pub Avoids-last_ref :
    (r : Ref) (xs ys : List ℕ) → Avoids r ys → AllAvoid xs ys → Avoids (last_ref r xs) ys
Avoids-last_ref r [] ys a h = a
Avoids-last_ref r (x ∷ xs) ys a h = Avoids-last_ref (slot x) xs ys h.0 h.1

module _ {Bits : Type 0} where
  -- If `out` reads as `c` through every pointer but the one behind `xs` and those of the blocks `zs`, it has
  -- the chain of `c` up to there, and after that its own.
  pub IsChain-splice :
      (c out : Chain Bits) (r : Ref) (xs ys zs bs : List ℕ)
      → IsChain c r (xs ++ ys)
      → ((q : Ref) → q ≢ last_ref r xs → Avoids q zs → load out q ≡ load c q)
      → Avoids r xs
      → IsDistinct xs
      → Avoids r zs
      → AllAvoid xs zs
      → IsChain out (last_ref r xs) bs
      → IsChain out r (xs ++ bs)
  IsChain-splice c out r [] ys zs bs h frame a d az all own = own
  IsChain-splice c out r (x ∷ xs) ys zs bs h frame a d az all own = (
    frame r (last_ref-ne r x xs a) az ∙ h.0,
    h.1,
    IsChain-splice c out (slot x) xs ys zs bs h.2 frame d.0 d.1 all.0 all.1 own,
  )

module _ {Bits : Type 0} ⦃ops : BitArray Bits⦄ where
  -- The bits of all the blocks are set.
  abbrev pub AllUsed : Chain Bits → List ℕ → Type 0
  AllUsed c [] = Unit
  AllUsed c (b ∷ bs) = (ops.test_bit c.bitmap b ≡ true) × AllUsed c bs

  pub AllUsed-AllAvoid :
      (c : Chain Bits) (xs bs : List ℕ) → AllUsed c xs → AllFree c bs → AllAvoid xs bs
  AllUsed-AllAvoid c [] bs u f = tt
  AllUsed-AllAvoid c (x ∷ xs) bs u f =
      (AllFree-Avoids c (slot x) bs u.0 f, AllUsed-AllAvoid c xs bs u.1 f)

  pub IsUsed-last_ref :
      (c : Chain Bits) (r : Ref) (xs : List ℕ)
      → IsUsed c r
      → AllUsed c xs
      → IsUsed c (last_ref r xs)
  IsUsed-last_ref c r [] u a = u
  IsUsed-last_ref c r (x ∷ xs) u a = IsUsed-last_ref c (slot x) xs a.0 a.1

  pub AllUsed-left : (c : Chain Bits) (xs ys : List ℕ) → AllUsed c (xs ++ ys) → AllUsed c xs
  AllUsed-left c [] ys u = tt
  AllUsed-left c (x ∷ xs) ys u = (u.0, AllUsed-left c xs ys u.1)

  -- Blocks apart from those that are released stay marked.
  pub AllUsed-cut :
      (c out : Chain Bits) (xs ys : List ℕ)
      → ((j : ℕ)
          → ops.test_bit out.bitmap j ≡ (if is_in j ys then false else ops.test_bit c.bitmap j))
      → AllAvoid xs ys
      → AllUsed c xs
      → AllUsed out xs
  AllUsed-cut c out [] ys bits a u = tt
  AllUsed-cut c out (x ∷ xs) ys bits a u =
      (ground (arith, bits x, IsNotIn-is_in x ys a.0, u.0), AllUsed-cut c out xs ys bits a.1 u.1)
