-- ===== src/Osada/Chain/Grow.antt =====
-- The loop that adds blocks to a chain.
use so_unoficial.Prelude.{
  ℕ, zero, suc, ◌+◌, ◌-◌, ◌*◌, ◌≤◌, ◌<◌, ◌≡◌, ◌≢◌, ◌⊎◌, inl, inr, refl, ap, ◌∙◌, true, false, List,
  [], ◌∷◌, ◌==◌, if◌then◌else◌, length, arith, Bool-cases,
}
use so_unoficial.Osada.State.{end_of_file, BitArray}
use so_unoficial.Osada.Chain.{done, Ref, head, slot, Chain, load, store, Grown, grow}
use so_unoficial.Osada.Chain.Shape.{
  Avoids, AllBelow, is_in, IsChain, load-store_self, load-bitmap, load-store_other, Avoids-ne,
  Avoids-tail, load-stored, store-bitmap, store-entries,
}

-- The blocks rise from `lo` on.
abbrev pub AllFrom : ℕ → List ℕ → Type 0
AllFrom lo [] = Unit
AllFrom lo (b ∷ bs) = (lo ≤ b) × AllFrom (suc b) bs

pub AllFrom-le : (lo lo' : ℕ) (bs : List ℕ) → lo' ≤ lo → AllFrom lo bs → AllFrom lo' bs
AllFrom-le lo lo' [] h a = tt
AllFrom-le lo lo' (b ∷ bs) h a = (omega arith, a.1)

pub AllBelow-le : (n m : ℕ) (bs : List ℕ) → n ≤ m → AllBelow n bs → AllBelow m bs
AllBelow-le n m [] h a = tt
AllBelow-le n m (b ∷ bs) h a = (omega arith, AllBelow-le n m bs h a.1)

module _ {Bits : Type 0} ⦃ops : BitArray Bits⦄ where
  -- The bits of all the blocks are clean.
  abbrev pub AllFree : Chain Bits → List ℕ → Type 0
  AllFree c [] = Unit
  AllFree c (b ∷ bs) = (ops.test_bit c.bitmap b ≡ false) × AllFree c bs

  -- The bit of the block whose entry the pointer names is set.
  abbrev pub IsUsed : Chain Bits → Ref → Type 0
  IsUsed c head = Unit
  IsUsed c (slot k) = ops.test_bit c.bitmap k ≡ true

  -- What the loop makes of the chain whose end the pointer `r` is, where it adds the blocks `bs`.
  pub record Grew (step left pos need : ℕ) (r : Ref) (c : Chain Bits) (bs : List ℕ)
      (out : Grown Bits) : Type 0 where
    pub chain : IsChain out.chain r bs
    pub free : AllFree c bs
    pub rising : AllFrom pos bs
    pub below : AllBelow (pos + left) bs
    pub bits :
        (j : ℕ)
        → ops.test_bit out.chain.bitmap j ≡ (if is_in j bs then true else ops.test_bit c.bitmap j)
    pub frame : (q : Ref) → q ≢ r → Avoids q bs → load out.chain q ≡ load c q
    pub entries : out.chain.map_entries ≡ c.map_entries
    pub need_left : out.need ≡ need - step * length bs
    pub tight : (length bs ≡ 0) ⊎ (step * length bs < need + step) × (0 < need)
    pub stops : (out.need ≡ 0) ⊎ (out.pos ≡ pos + left)
    pub within : out.pos ≤ pos + left

  -- The chain after the block at `pos` is added behind `r`.
  added : Chain Bits → Ref → ℕ → Chain Bits
  added c r pos =
      store (slot pos) end_of_file (store r pos (record c { bitmap = ops.set_bit c.bitmap pos }))

  added-bits :
      (c : Chain Bits) (r : Ref) (pos j : ℕ)
      → pos < ops.max_bit
      → ops.test_bit (added c r pos).bitmap j ≡ (if pos == j then true else ops.test_bit c.bitmap j)
  unfolding added
  added-bits c r pos j h =
      ap (λ b. ops.test_bit b j)
        (store-bitmap (store r pos (record c { bitmap = ops.set_bit c.bitmap pos })) (slot pos)
            end_of_file
          ∙ store-bitmap (record c { bitmap = ops.set_bit c.bitmap pos }) r pos)
      ∙ ops.test_bit-set_bit c.bitmap pos j h

  added-entries : (c : Chain Bits) (r : Ref) (pos : ℕ) → (added c r pos).map_entries ≡ c.map_entries
  unfolding added
  added-entries c r pos =
      store-entries (store r pos (record c { bitmap = ops.set_bit c.bitmap pos })) (slot pos)
        end_of_file
      ∙ store-entries (record c { bitmap = ops.set_bit c.bitmap pos }) r pos

  AllFree-added :
      (c : Chain Bits) (r : Ref) (pos : ℕ) (bs : List ℕ)
      → pos < ops.max_bit
      → AllFree (added c r pos) bs
      → AllFree c bs
  AllFree-added c r pos [] h f = tt
  AllFree-added c r pos (b ∷ bs) h f =
      (ground (arith, added-bits c r pos b h, f.0), AllFree-added c r pos bs h f.1)

  pub AllFree-Avoids :
      (c : Chain Bits) (q : Ref) (bs : List ℕ) → IsUsed c q → AllFree c bs → Avoids q bs
  AllFree-Avoids c head bs u f = tt
  AllFree-Avoids c (slot k) [] u f = tt
  AllFree-Avoids c (slot k) (b ∷ bs) u f =
      (λ e. ground (arith, ap (ops.test_bit c.bitmap) e), AllFree-Avoids c (slot k) bs u f.1)

  IsUsed-added :
      (c : Chain Bits) (r q : Ref) (pos : ℕ)
      → pos < ops.max_bit
      → IsUsed c q
      → IsUsed (added c r pos) q
  IsUsed-added c r head pos h u = tt
  IsUsed-added c r (slot k) pos h u = ground (arith, added-bits c r pos k h)

  added-load_self :
      (c : Chain Bits) (r : Ref) (pos : ℕ)
      → pos < c.map_entries
      → load (added c r pos) (slot pos) ≡ done end_of_file
  unfolding added
  added-load_self c r pos h =
      load-stored (store r pos (record c { bitmap = ops.set_bit c.bitmap pos })) pos end_of_file
        (rw (store-entries (record c { bitmap = ops.set_bit c.bitmap pos }) r pos) h)

  added-load_r :
      (c : Chain Bits) (r : Ref) (pos : ℕ)
      → load c r ≡ done end_of_file
      → r ≢ slot pos
      → load (added c r pos) r ≡ done pos
  unfolding added
  added-load_r c r pos h ne =
      load-store_other (store r pos (record c { bitmap = ops.set_bit c.bitmap pos })) (slot pos) r
        end_of_file ne
      ∙ load-store_self (record c { bitmap = ops.set_bit c.bitmap pos }) r pos end_of_file
          (load-bitmap c _ r ∙ h)

  added-load_other :
      (c : Chain Bits) (r q : Ref) (pos : ℕ)
      → q ≢ r
      → q ≢ slot pos
      → load (added c r pos) q ≡ load c q
  unfolding added
  added-load_other c r q pos ne np =
      load-store_other (store r pos (record c { bitmap = ops.set_bit c.bitmap pos })) (slot pos) q
        end_of_file np
      ∙ (load-store_other (record c { bitmap = ops.set_bit c.bitmap pos }) r q pos ne
          ∙ load-bitmap c _ q)

  grow_zero :
      (step pos need : ℕ) (r : Ref) (c : Chain Bits)
      → grow step 0 pos need r c ≡ record { need = need; pos = pos; ref = r; chain = c }
  unfolding grow
  grow_zero step pos need r c = refl

  grow_stop :
      (step left pos : ℕ) (r : Ref) (c : Chain Bits)
      → grow step left pos 0 r c ≡ record { need = 0; pos = pos; ref = r; chain = c }
  unfolding grow
  grow_stop step zero pos r c = refl
  grow_stop step (suc left) pos r c = refl

  grow_busy :
      (step left pos need : ℕ) (r : Ref) (c : Chain Bits)
      → need ≢ 0
      → ops.test_bit c.bitmap pos ≡ true
      → grow step (suc left) pos need r c ≡ grow step left (suc pos) need r c
  unfolding grow
  grow_busy step left pos need r c ne busy = rw busy (ground arith)

  grow_free :
      (step left pos need : ℕ) (r : Ref) (c : Chain Bits)
      → need ≢ 0
      → ops.test_bit c.bitmap pos ≡ false
      → grow step (suc left) pos need r c
        ≡ grow step left (suc pos) (need - step) (slot pos) (added c r pos)
  unfolding grow added
  grow_free step left pos need r c ne free = rw free (ground arith)

  Grew-busy :
      (step left pos need : ℕ) (r : Ref) (c : Chain Bits) (bs : List ℕ) (out : Grown Bits)
      → Grew step left (suc pos) need r c bs out
      → Grew step (suc left) pos need r c bs out
  Grew-busy step left pos need r c bs out g = record {
    chain = g.chain;
    free = g.free;
    rising = AllFrom-le (suc pos) pos bs (omega arith) g.rising;
    below = AllBelow-le (suc pos + left) (pos + suc left) bs (omega arith) g.below;
    bits = g.bits;
    frame = g.frame;
    entries = g.entries;
    need_left = g.need_left;
    tight = g.tight;
    stops = ground arith;
    within = omega arith;
  }

  Grew-free :
      (step left pos need : ℕ) (r : Ref) (c : Chain Bits) (bs : List ℕ) (out : Grown Bits)
      → load c r ≡ done end_of_file
      → IsUsed c r
      → ops.test_bit c.bitmap pos ≡ false
      → pos < ops.max_bit
      → pos ≢ end_of_file
      → pos < c.map_entries
      → need ≢ 0
      → Grew step left (suc pos) (need - step) (slot pos) (added c r pos) bs out
      → Grew step (suc left) pos need r c (pos ∷ bs) out
  Grew-free step left pos need r c bs out ends used free small ne fits some_need g = record {
    chain = (
      g.frame r other
            (AllFree-Avoids (added c r pos) r bs (IsUsed-added c r r pos small used) g.free)
          ∙ added-load_r c r pos ends other,
      ne,
      g.chain,
    );
    free = (free, AllFree-added c r pos bs small g.free);
    rising = (omega arith, g.rising);
    below = (omega arith, AllBelow-le (suc pos + left) (pos + suc left) bs (omega arith) g.below);
    bits = λ j. ground (arith, g.bits j, added-bits c r pos j small);
    frame = λ q nq av.
        g.frame q (Avoids-ne q pos bs av) (Avoids-tail q pos bs av)
        ∙ added-load_other c r q pos nq (Avoids-ne q pos bs av);
    entries = g.entries ∙ added-entries c r pos;
    need_left = omega arith;
    tight = inr (ground (arith, g.tight), omega arith);
    stops = ground arith;
    within = omega arith;
  }
    where
      other : r ≢ slot pos
      other = Avoids-ne r pos [] (AllFree-Avoids c r (pos ∷ []) used (free, tt))

  -- Nothing is added.
  Grew-none :
      (step left pos need : ℕ) (r : Ref) (c : Chain Bits)
      → load c r ≡ done end_of_file
      → (need ≡ 0) ⊎ (pos ≡ pos + left)
      → Grew step left pos need r c [] (record { need = need; pos = pos; ref = r; chain = c })
  Grew-none step left pos need r c ends why = record {
    chain = ends;
    free = tt;
    rising = tt;
    below = tt;
    bits = λ j. refl;
    frame = λ q ne a. refl;
    entries = refl;
    need_left = omega arith;
    tight = inl refl;
    stops = why;
    within = omega arith;
  }

  -- From a chain's end the loop adds blocks whose bits were clean, in rising order, and sets exactly
  -- their bits. They follow the pointer as a chain, no other pointer reads anything new, and the loop
  -- ends because nothing more is needed or at the end of the volume.
  pub grow-Grew :
      (step left pos need : ℕ) (r : Ref) (c : Chain Bits)
      → load c r ≡ done end_of_file
      → IsUsed c r
      → pos + left ≤ ops.max_bit
      → pos + left ≤ c.map_entries
      → pos + left ≤ end_of_file
      → (bs : List ℕ) × Grew step left pos need r c bs (grow step left pos need r c)
  grow-Grew step zero pos need r c ends used m e f =
      ([], rw grow_zero (Grew-none step 0 pos need r c ends (inr (omega arith))))
  grow-Grew step (suc left) pos zero r c ends used m e f =
      ([], rw grow_stop (Grew-none step (suc left) pos 0 r c ends (inl refl)))
  grow-Grew step (suc left) pos (suc need) r c ends used m e f =
      elim (Bool-cases (ops.test_bit c.bitmap pos)) [
        | inl busy ↦
            let (bs, g) =
              grow-Grew step left (suc pos) (suc need) r c ends used (omega arith) (omega arith)
                (omega arith) in
            (
              bs,
              rw (grow_busy step left pos (suc need) r c (omega arith) busy)
                  (Grew-busy step left pos (suc need) r c bs _ g),
            )
        | inr free ↦
            let (bs, g) =
              grow-Grew step left (suc pos) (suc need - step) (slot pos) (added c r pos)
                (added-load_self c r pos (omega arith)) (ground (arith, added-bits c r pos pos))
                (omega arith) (omega (arith, added-entries c r pos)) (omega arith) in
            (
              pos ∷ bs,
              rw (grow_free step left pos (suc need) r c (omega arith) free) (
                  Grew-free step left pos (suc need) r c bs _ ends used free (omega arith)
                    (omega arith) (omega arith) (omega arith) g),
            )
      ]
