-- ===== src/Osada/Chain/Shape.antt =====
-- Chains as lists of blocks.
use so_unoficial.Prelude.{
  ℕ, zero, suc, ◌+◌, ◌<◌, ◌≡◌, ◌≢◌, refl, ap, ◌∙◌, Bool, false, ◌||◌, List, [], ◌∷◌, ◌++◌, ◌==◌,
  length, arith,
}
use so_unoficial.Osada.State.{end_of_file}
use so_unoficial.Osada.Chain.{done, Ref, head, slot, Chain, load, store, advance, walk_end}

-- `b` is none of the blocks.
abbrev pub IsNotIn : ℕ → List ℕ → Type 0
IsNotIn b [] = Unit
IsNotIn b (x ∷ xs) = (b ≢ x) × IsNotIn b xs

abbrev pub IsDistinct : List ℕ → Type 0
IsDistinct [] = Unit
IsDistinct (x ∷ xs) = IsNotIn x xs × IsDistinct xs

-- The pointer is the entry of none of the blocks.
abbrev pub Avoids : Ref → List ℕ → Type 0
Avoids head bs = Unit
Avoids (slot k) bs = IsNotIn k bs

abbrev pub AllBelow : ℕ → List ℕ → Type 0
AllBelow n [] = Unit
AllBelow n (x ∷ xs) = (x < n) × AllBelow n xs

abbrev pub is_in : ℕ → List ℕ → Bool
is_in b [] = false
is_in b (x ∷ xs) = b == x || is_in b xs

Avoids-head : (r : Ref) (b : ℕ) (bs : List ℕ) → Avoids r (b ∷ bs) → Avoids r (b ∷ [])
Avoids-head head b bs h = tt
Avoids-head (slot k) b bs h = (h.0, tt)

pub Avoids-tail : (r : Ref) (b : ℕ) (bs : List ℕ) → Avoids r (b ∷ bs) → Avoids r bs
Avoids-tail head b bs h = tt
Avoids-tail (slot k) b bs h = h.1

-- The pointer behind the last of the blocks.
abbrev pub last_ref : Ref → List ℕ → Ref
last_ref r [] = r
last_ref r (b ∷ bs) = last_ref (slot b) bs

pub Avoids-ne : (q : Ref) (b : ℕ) (bs : List ℕ) → Avoids q (b ∷ bs) → q ≢ slot b
Avoids-ne head b bs a e = cc
Avoids-ne (slot k) b bs a e = a.0 (cc)

pub is_in-IsNotIn : (k : ℕ) (bs : List ℕ) → is_in k bs ≡ false → IsNotIn k bs
is_in-IsNotIn k [] h = tt
is_in-IsNotIn k (b ∷ bs) h = (ground arith, is_in-IsNotIn k bs (ground arith))

module _ {Bits : Type 0} where
  -- From the pointer the blocks follow one another, and the last is followed by END_OF_FILE.
  abbrev pub IsChain : Chain Bits → Ref → List ℕ → Type 0
  IsChain c r [] = load c r ≡ done end_of_file
  IsChain c r (b ∷ bs) = (load c r ≡ done b) × (b ≢ end_of_file) × IsChain c (slot b) bs

  pub load-store_self :
      (c : Chain Bits) (r : Ref) (value b : ℕ)
      → load c r ≡ done b
      → load (store r value c) r ≡ done value
  unfolding load store
  load-store_self c head value b h = refl
  load-store_self c (slot k) value b h = ground arith

  pub load-store_ne :
      (c : Chain Bits) (r : Ref) (value k : ℕ)
      → Avoids r (k ∷ [])
      → load (store r value c) (slot k) ≡ load c (slot k)
  unfolding load store
  load-store_ne c head value k h = refl
  load-store_ne c (slot j) value k h = ground arith

  -- A write through a pointer outside a chain leaves the chain.
  pub IsChain-store :
      (c : Chain Bits) (r : Ref) (value b : ℕ) (bs : List ℕ)
      → Avoids r (b ∷ bs)
      → IsChain c (slot b) bs
      → IsChain (store r value c) (slot b) bs
  IsChain-store c r value b [] a h = load-store_ne c r value b a ∙ h
  IsChain-store c r value b (x ∷ xs) a h = (
    load-store_ne c r value b (Avoids-head r b (x ∷ xs) a) ∙ h.0,
    h.1,
    IsChain-store c r value x xs (Avoids-tail r b (x ∷ xs) a) h.2,
  )

  pub IsChain-advance :
      (c : Chain Bits) (r : Ref) (xs ys : List ℕ)
      → IsChain c r (xs ++ ys)
      → (advance (length xs) r c ≡ done (last_ref r xs)) × IsChain c (last_ref r xs) ys
  unfolding advance
  IsChain-advance c r [] ys h = (refl, h)
  IsChain-advance c r (x ∷ xs) ys h =
      let (e, rest) = IsChain-advance c (slot x) xs ys h.2 in (rw (h.0, advance) e, rest)

  pub IsChain-walk_end :
      (c : Chain Bits) (r : Ref) (bs : List ℕ) (fuel movs : ℕ)
      → length bs < fuel
      → IsChain c r bs
      → (walk_end fuel r movs c ≡ done (last_ref r bs, movs + length bs))
        × (load c (last_ref r bs) ≡ done end_of_file)
  unfolding walk_end
  IsChain-walk_end c r [] zero movs f h = absurd (omega arith)
  IsChain-walk_end c r [] (suc fuel) movs f h = (ground arith, h)
  IsChain-walk_end c r (b ∷ bs) zero movs f h = absurd (omega arith)
  IsChain-walk_end c r (b ∷ bs) (suc fuel) movs f h =
      let (e, rest) = IsChain-walk_end c (slot b) bs fuel (movs + 1) (omega arith) h.2 in
      (ground arith, rest)

  pub load-bitmap :
      (c : Chain Bits) (b : Bits) (q : Ref) → load (record c { bitmap = b }) q ≡ load c q
  unfolding load
  load-bitmap c b head = refl
  load-bitmap c b (slot k) = refl

  pub IsChain-bitmap :
      (c : Chain Bits) (b : Bits) (r : Ref) (bs : List ℕ)
      → IsChain c r bs
      → IsChain (record c { bitmap = b }) r bs
  IsChain-bitmap c b r [] h = load-bitmap c b r ∙ h
  IsChain-bitmap c b r (x ∷ xs) h =
      (load-bitmap c b r ∙ h.0, h.1, IsChain-bitmap c b (slot x) xs h.2)

  -- A write through one pointer is not seen through another.
  pub load-store_other :
      (c : Chain Bits) (r q : Ref) (value : ℕ) → q ≢ r → load (store r value c) q ≡ load c q
  unfolding load store
  load-store_other c head head value ne = absurd (ne refl)
  load-store_other c head (slot k) value ne = refl
  load-store_other c (slot j) head value ne = refl
  load-store_other c (slot j) (slot k) value ne = ground (arith, λ (e : k ≡ j). ne (ap slot e))

  pub load-stored :
      (c : Chain Bits) (k value : ℕ)
      → k < c.map_entries
      → load (store (slot k) value c) (slot k) ≡ done value
  unfolding load store
  load-stored c k value h = ground arith

  pub store-bitmap : (c : Chain Bits) (r : Ref) (value : ℕ) → (store r value c).bitmap ≡ c.bitmap
  unfolding store
  store-bitmap c head value = refl
  store-bitmap c (slot k) value = refl

  pub store-entries :
      (c : Chain Bits) (r : Ref) (value : ℕ) → (store r value c).map_entries ≡ c.map_entries
  unfolding store
  store-entries c head value = refl
  store-entries c (slot k) value = refl
