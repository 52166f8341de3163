-- ===== src/Osada/Chain/Release.antt =====
-- The loop that releases the blocks of a chain.
use so_unoficial.Prelude.{
  ℕ, zero, suc, ◌<◌, ◌≡◌, ◌≢◌, refl, ◌∙◌, false, List, [], ◌∷◌, if◌then◌else◌, length, arith,
}
use so_unoficial.Osada.State.{end_of_file, BitArray}
use so_unoficial.Osada.Chain.{done, Ref, slot, Chain, load, store, release}
use so_unoficial.Osada.Chain.Shape.{
  IsDistinct, Avoids, AllBelow, is_in, IsChain, load-store_self, IsChain-store, IsChain-bitmap,
  load-bitmap, load-store_other, Avoids-ne, Avoids-tail, store-bitmap, store-entries,
}

module _ {Bits : Type 0} ⦃ops : BitArray Bits⦄ where
  -- What the loop makes of a chain `bs` behind the pointer `r`: the chain ends at `r`, the bits of its
  -- blocks are clean and no other bit changes, and no pointer outside the chain reads anything new.
  pub record Released (c : Chain Bits) (r : Ref) (bs : List ℕ) (out : Chain Bits) : Type 0 where
    pub ends : load out r ≡ done end_of_file
    pub bits :
        (j : ℕ)
        → ops.test_bit out.bitmap j ≡ (if is_in j bs then false else ops.test_bit c.bitmap j)
    pub frame : (q : Ref) → q ≢ r → Avoids q bs → load out q ≡ load c q
    pub entries : out.map_entries ≡ c.map_entries

  -- The chain after the first block is released.
  first_released : Chain Bits → Ref → ℕ → Chain Bits
  first_released c r x = store r end_of_file (record c { bitmap = ops.clean_bit c.bitmap x })

  release_step :
      (c : Chain Bits) (r : Ref) (x fuel : ℕ)
      → load c r ≡ done x
      → x ≢ end_of_file
      → release (suc fuel) r c ≡ release fuel (slot x) (first_released c r x)
  unfolding release first_released
  release_step c r x fuel h ne = ground arith

  release_stop :
      (c : Chain Bits) (r : Ref) (fuel : ℕ)
      → load c r ≡ done end_of_file
      → release (suc fuel) r c ≡ done c
  unfolding release
  release_stop c r fuel h = ground arith

  first_released-IsChain :
      (c : Chain Bits) (r : Ref) (x : ℕ) (xs : List ℕ)
      → Avoids r (x ∷ xs)
      → IsChain c (slot x) xs
      → IsChain (first_released c r x) (slot x) xs
  unfolding first_released
  first_released-IsChain c r x xs a h =
      IsChain-store (record c { bitmap = ops.clean_bit c.bitmap x }) r end_of_file x xs a
        (IsChain-bitmap c (ops.clean_bit c.bitmap x) (slot x) xs h)

  Released-step :
      (c : Chain Bits) (r : Ref) (x : ℕ) (xs : List ℕ) (out : Chain Bits)
      → load c r ≡ done x
      → Avoids r (x ∷ xs)
      → x < ops.max_bit
      → Released (first_released c r x) (slot x) xs out
      → Released c r (x ∷ xs) out
  unfolding first_released
  Released-step c r x xs out h a small k = record {
    ends =
        k.frame r (Avoids-ne r x xs a) (Avoids-tail r x xs a)
        ∙ load-store_self (record c { bitmap = ops.clean_bit c.bitmap x }) r end_of_file x
            (load-bitmap c _ r ∙ h);
    bits = λ j. ground (
      arith,
      k.bits j,
      store-bitmap (record c { bitmap = ops.clean_bit c.bitmap x }) r end_of_file,
      ops.test_bit-clean_bit c.bitmap x j small,
    );
    frame = λ q ne av.
        k.frame q (Avoids-ne q x xs av) (Avoids-tail q x xs av)
        ∙ (load-store_other (record c { bitmap = ops.clean_bit c.bitmap x }) r q end_of_file ne
            ∙ load-bitmap c _ q);
    entries =
        k.entries ∙ store-entries (record c { bitmap = ops.clean_bit c.bitmap x }) r end_of_file;
  }

  pub release-Released :
      (c : Chain Bits) (r : Ref) (bs : List ℕ) (fuel : ℕ)
      → length bs < fuel
      → IsChain c r bs
      → Avoids r bs
      → IsDistinct bs
      → AllBelow ops.max_bit bs
      → (out : Chain Bits) × (release fuel r c ≡ done out) × Released c r bs out
  release-Released c r bs zero f h a d b = absurd (omega arith)
  release-Released c r [] (suc fuel) f h a d b = (
    c,
    release_stop c r fuel h,
    record { ends = h; bits = λ j. refl; frame = λ q ne m. refl; entries = refl },
  )
  release-Released c r (x ∷ xs) (suc fuel) f h a d b =
      let (out, e, k) =
        release-Released (first_released c r x) (slot x) xs fuel (omega arith)
          (first_released-IsChain c r x xs a h.2) d.0 d.1 b.1 in
      (out, release_step c r x fuel h.0 h.1 ∙ e, Released-step c r x xs out h.0 a b.0 k)
