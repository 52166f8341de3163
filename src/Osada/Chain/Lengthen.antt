-- ===== src/Osada/Chain/Lengthen.antt =====
-- A whole chain with the blocks that the loop adds behind it.
use so_unoficial.Prelude.{ℕ, suc, ◌<◌, ◌≡◌, true, List, [], ◌∷◌, ◌++◌, if◌then◌else◌, arith}
use so_unoficial.Osada.State.{BitArray}
use mathlib.Core.List.{append-nil}
use native.Mathlib.Nat.{zero-add}
use so_unoficial.Osada.Chain.{head, Chain, Grown}
use so_unoficial.Osada.Chain.Shape.{IsNotIn, IsDistinct, AllBelow, is_in, IsChain, last_ref}
use so_unoficial.Osada.Chain.Grow.{AllFrom, Grew}
use so_unoficial.Osada.Chain.Splice.{AllAvoid, AllUsed, AllUsed-AllAvoid, IsChain-splice}

AllFrom-IsNotIn : (b lo : ℕ) (bs : List ℕ) → b < lo → AllFrom lo bs → IsNotIn b bs
AllFrom-IsNotIn b lo [] h a = tt
AllFrom-IsNotIn b lo (x ∷ xs) h a = (omega arith, AllFrom-IsNotIn b (suc x) xs (omega arith) a.1)

AllFrom-IsDistinct : (lo : ℕ) (bs : List ℕ) → AllFrom lo bs → IsDistinct bs
AllFrom-IsDistinct lo [] a = tt
AllFrom-IsDistinct lo (x ∷ xs) a =
    (AllFrom-IsNotIn x (suc x) xs (omega arith) a.1, AllFrom-IsDistinct (suc x) xs a.1)

IsNotIn-append : (b : ℕ) (xs ys : List ℕ) → IsNotIn b xs → IsNotIn b ys → IsNotIn b (xs ++ ys)
IsNotIn-append b [] ys h k = k
IsNotIn-append b (x ∷ xs) ys h k = (h.0, IsNotIn-append b xs ys h.1 k)

IsDistinct-append :
    (xs ys : List ℕ) → IsDistinct xs → IsDistinct ys → AllAvoid xs ys → IsDistinct (xs ++ ys)
IsDistinct-append [] ys dx dy a = dy
IsDistinct-append (x ∷ xs) ys dx dy a =
    (IsNotIn-append x xs ys dx.0 a.0, IsDistinct-append xs ys dx.1 dy a.1)

AllBelow-append : (n : ℕ) (xs ys : List ℕ) → AllBelow n xs → AllBelow n ys → AllBelow n (xs ++ ys)
AllBelow-append n [] ys h k = k
AllBelow-append n (x ∷ xs) ys h k = (h.0, AllBelow-append n xs ys h.1 k)

module _ {Bits : Type 0} ⦃ops : BitArray Bits⦄ where
  AllUsed-append :
      (c : Chain Bits) (xs ys : List ℕ) → AllUsed c xs → AllUsed c ys → AllUsed c (xs ++ ys)
  AllUsed-append c [] ys h k = k
  AllUsed-append c (x ∷ xs) ys h k = (h.0, AllUsed-append c xs ys h.1 k)

  AllUsed-kept :
      (c out : Chain Bits) (bs xs : List ℕ)
      → ((j : ℕ)
          → ops.test_bit out.bitmap j ≡ (if is_in j bs then true else ops.test_bit c.bitmap j))
      → AllUsed c xs
      → AllUsed out xs
  AllUsed-kept c out bs [] bits u = tt
  AllUsed-kept c out bs (x ∷ xs) bits u =
      (ground (arith, bits x, u.0), AllUsed-kept c out bs xs bits u.1)

  AllUsed-new :
      (c out : Chain Bits) (bs xs : List ℕ)
      → ((j : ℕ)
          → ops.test_bit out.bitmap j ≡ (if is_in j bs then true else ops.test_bit c.bitmap j))
      → ((j : ℕ) → is_in j xs ≡ true → is_in j bs ≡ true)
      → AllUsed out xs
  AllUsed-new c out bs [] bits sub = tt
  AllUsed-new c out bs (x ∷ xs) bits sub =
      (ground (arith, bits x, sub x), AllUsed-new c out bs xs bits (λ j m. sub j (ground arith)))

  -- The chain `xs` with the blocks `bs` behind it.
  pub record Lengthened (n : ℕ) (xs bs : List ℕ) (out : Chain Bits) : Type 0 where
    pub chain : IsChain out head (xs ++ bs)
    pub distinct : IsDistinct (xs ++ bs)
    pub used : AllUsed out (xs ++ bs)
    pub below : AllBelow n (xs ++ bs)

  pub Grew-Lengthened :
      (step left need : ℕ) (c : Chain Bits) (xs bs : List ℕ) (out : Grown Bits)
      → IsChain c head xs
      → IsDistinct xs
      → AllUsed c xs
      → AllBelow left xs
      → Grew step left 0 need (last_ref head xs) c bs out
      → Lengthened left xs bs out.chain
  Grew-Lengthened step left need c xs bs out h d u b g =
      let apart = AllUsed-AllAvoid c xs bs u g.free in
      record {
        chain =
            IsChain-splice c out.chain head xs [] bs bs (rw (append-nil xs) h) g.frame tt d tt apart
              g.chain;
        distinct = IsDistinct-append xs bs d (AllFrom-IsDistinct 0 bs g.rising) apart;
        used =
            AllUsed-append out.chain xs bs (AllUsed-kept c out.chain bs xs g.bits u)
              (AllUsed-new c out.chain bs bs g.bits (λ j m. m));
        below = AllBelow-append left xs bs b (rw zero-add at g.below);
      }
