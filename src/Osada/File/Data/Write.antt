-- ===== src/Osada/File/Data/Write.antt =====
-- The loop of osada_write over the blocks.
use so_unoficial.Prelude.{
  update, ℕ, zero, suc, ◌+◌, ◌-◌, ◌*◌, ◌≤◌, ◌<◌, ◌≡◌, refl, sym, ap, ap₂, ◌∙◌, true, false, List,
  [], ◌∷◌, ◌++◌, ◌==◌, if◌then◌else◌, length, take, drop, arith, Bool-cases, inl, inr, ltb, leb,
  length-take, length-drop, take_all, drop-length,
}
use so_unoficial.Osada.State.{end_of_file}
use so_unoficial.Osada.Chain.{done, Ref, slot, Chain, load}
use so_unoficial.Osada.Chain.Shape.{IsChain, IsNotIn, IsDistinct, is_in}
use so_unoficial.Osada.Chain.Splice.{IsNotIn-is_in}
use so_unoficial.Osada.File.Data.{splice, write_blocks}
use so_unoficial.Osada.File.Data.Contents.{file_bytes, AreBlocks}
use so_unoficial.Osada.File.Data.Bytes.{length-splice, splice_first, splice_more, splice_nothing}

-- What the loop makes of the blocks `bs`: the bytes stand in them from the offset on, and no other block
-- changes.
pub record Wrote (n offset : ℕ) (bytes bs : List ℕ) (blocks blocks' : ℕ → List ℕ) : Type 0 where
  pub contents : file_bytes blocks' bs ≡ splice offset bytes (file_bytes blocks bs)
  pub others : (j : ℕ) → blocks' j ≡ (if is_in j bs then blocks' j else blocks j)
  pub sizes : AreBlocks blocks' n bs

Wrote-nothing :
    (n offset : ℕ) (bs : List ℕ) (blocks : ℕ → List ℕ)
    → AreBlocks blocks n bs
    → Wrote n offset [] bs blocks blocks
Wrote-nothing n offset bs blocks a = record {
  contents = sym (splice_nothing offset (file_bytes blocks bs));
  others = λ j. ground arith;
  sizes = a;
}

-- Another block changes nothing in these.
file_bytes-update :
    (blocks : ℕ → List ℕ) (b : ℕ) (block : List ℕ) (bs : List ℕ)
    → IsNotIn b bs
    → file_bytes (update blocks b block) bs ≡ file_bytes blocks bs
unfolding file_bytes
file_bytes-update blocks b block [] h = refl
file_bytes-update blocks b block (x ∷ xs) h =
    ap₂ (λ k l. k ++ l) (ground (arith, h.0)) (file_bytes-update blocks b block xs h.1)

AreBlocks-update :
    (blocks : ℕ → List ℕ) (n b : ℕ) (block : List ℕ) (bs : List ℕ)
    → IsNotIn b bs
    → AreBlocks blocks n bs
    → AreBlocks (update blocks b block) n bs
AreBlocks-update blocks n b block [] h a = tt
AreBlocks-update blocks n b block (x ∷ xs) h a =
    (a.0, ground (arith, h.0, a.1), AreBlocks-update blocks n b block xs h.1 a.2)

-- One round that ends the loop: all the bytes fit the first block.
Wrote-last :
    (n offset : ℕ) (bytes : List ℕ) (b : ℕ) (bs : List ℕ) (blocks : ℕ → List ℕ)
    → IsNotIn b bs
    → AreBlocks blocks n (b ∷ bs)
    → offset + length bytes ≤ 64
    → Wrote n offset bytes (b ∷ bs) blocks (update blocks b (splice offset bytes (blocks b)))
unfolding file_bytes
Wrote-last n offset bytes b bs blocks h a e =
    let self : update blocks b (splice offset bytes (blocks b)) b ≡ splice offset bytes (blocks b) =
      ground arith in
    record {
      contents =
          ap₂ (λ k l. k ++ l) self (file_bytes-update blocks b _ bs h)
          ∙ sym (splice_first offset bytes (blocks b) (file_bytes blocks bs) (omega (arith, a.1)));
      others = λ j. ground arith;
      sizes = (
        a.0,
        ap length self ∙ (length-splice offset bytes (blocks b) (omega (arith, a.1)) ∙ a.1),
        AreBlocks-update blocks n b _ bs h a.2,
      );
    }

-- One round and the rest of the loop.
Wrote-more :
    (n offset k : ℕ) (bytes : List ℕ) (b : ℕ) (bs : List ℕ) (blocks blocks' : ℕ → List ℕ)
    → IsNotIn b bs
    → AreBlocks blocks n (b ∷ bs)
    → k + offset ≡ 64
    → k ≤ length bytes
    → Wrote n 0
        (drop k bytes)
        bs
        (update blocks b (splice offset (take k bytes) (blocks b)))
        blocks'
    → Wrote n offset bytes (b ∷ bs) blocks blocks'
unfolding file_bytes
Wrote-more n offset k bytes b bs blocks blocks' h a e l w =
    let kept : blocks' b ≡ splice offset (take k bytes) (blocks b) =
      ground (arith, w.others b, IsNotIn-is_in b bs h) in
    record {
      contents =
          ap₂ (λ x y. x ++ y) kept
            (w.contents ∙ ap (λ y. splice 0 (drop k bytes) y) (file_bytes-update blocks b _ bs h))
          ∙ sym
              (splice_more offset k bytes (blocks b) (file_bytes blocks bs) (omega (arith, a.1)) l);
      others = λ j. ground (arith, w.others j);
      sizes = (
        a.0,
        ap length kept
            ∙ (length-splice offset (take k bytes) (blocks b)
                  (omega (arith, a.1, length-take k bytes))
                ∙ a.1),
        w.sizes,
      );
    }

-- How many bytes a round writes.
round : ℕ → List ℕ → ℕ
round offset bytes = if leb (64 - offset) (length bytes) then 64 - offset else length bytes

round_blocks : ℕ → List ℕ → ℕ → (ℕ → List ℕ) → ℕ → List ℕ
unfolding round
round_blocks offset bytes b blocks =
    update blocks b (splice offset (take (round offset bytes) bytes) (blocks b))

-- The bytes that are left for this round are the last.
round_last :
    (n offset : ℕ) (bytes : List ℕ) (b : ℕ) (bs : List ℕ) (blocks : ℕ → List ℕ)
    → IsNotIn b bs
    → AreBlocks blocks n (b ∷ bs)
    → offset + length bytes ≤ 64
    → Wrote n offset bytes (b ∷ bs) blocks (round_blocks offset bytes b blocks)
unfolding round_blocks round
round_last n offset bytes b bs blocks h a e =
    let all : take (if leb (64 - offset) (length bytes) then 64 - offset else length bytes) bytes
        ≡ bytes =
      take_all _ bytes (ground arith) in
    rw all (Wrote-last n offset bytes b bs blocks h a e)

drop-round :
    (offset : ℕ) (bytes : List ℕ)
    → offset + length bytes ≤ 64
    → drop (round offset bytes) bytes ≡ []
unfolding round
drop-round offset bytes e = drop-length _ bytes (ground arith)

-- A round that fills the block, with more bytes to come.
round_full :
    (offset : ℕ) (bytes : List ℕ)
    → offset < 64
    → 64 < offset + length bytes
    → (round offset bytes + offset ≡ 64) × (round offset bytes ≤ length bytes)
unfolding round
round_full offset bytes o e = (ground arith, ground arith)

round_more :
    (n offset : ℕ) (bytes : List ℕ) (b : ℕ) (bs : List ℕ) (blocks blocks' : ℕ → List ℕ)
    → IsNotIn b bs
    → AreBlocks blocks n (b ∷ bs)
    → offset < 64
    → 64 < offset + length bytes
    → Wrote n 0 (drop (round offset bytes) bytes) bs (round_blocks offset bytes b blocks) blocks'
    → Wrote n offset bytes (b ∷ bs) blocks blocks'
unfolding round_blocks
round_more n offset bytes b bs blocks blocks' h a o e w =
    let (full, part) = round_full offset bytes o e in
    Wrote-more n offset (round offset bytes) bytes b bs blocks blocks' h a full part w

round_blocks-AreBlocks :
    (n offset : ℕ) (bytes : List ℕ) (b : ℕ) (bs : List ℕ) (blocks : ℕ → List ℕ)
    → IsNotIn b bs
    → AreBlocks blocks n bs
    → AreBlocks (round_blocks offset bytes b blocks) n bs
unfolding round_blocks
round_blocks-AreBlocks n offset bytes b bs blocks h a = AreBlocks-update blocks n b _ bs h a

module _ {Bits : Type 0} where
  write_blocks_step :
      (fuel : ℕ) (r : Ref) (offset x : ℕ) (xs : List ℕ) (c : Chain Bits) (n : ℕ)
      (blocks : ℕ → List ℕ) (b nb : ℕ)
      → load c r ≡ done b
      → load c (slot b) ≡ done nb
      → b < n
      → write_blocks (suc fuel) r offset (x ∷ xs) c n blocks ≡ (
          if nb == end_of_file
          then done (round_blocks offset (x ∷ xs) b blocks)
          else write_blocks fuel
              (slot b)
              0
              (drop (round offset (x ∷ xs)) (x ∷ xs))
              c
              n
              (round_blocks offset (x ∷ xs) b blocks))
  unfolding write_blocks round_blocks round
  write_blocks_step fuel r offset x xs c n blocks b nb here next small =
      let inside : ltb b n ≡ true = ground arith in rw (here, write_blocks, inside, next) refl

  write_blocks_nothing :
      (fuel : ℕ) (r : Ref) (offset : ℕ) (c : Chain Bits) (n : ℕ) (blocks : ℕ → List ℕ)
      → 0 < fuel
      → write_blocks fuel r offset [] c n blocks ≡ done blocks
  unfolding write_blocks
  write_blocks_nothing zero r offset c n blocks f = absurd (omega arith)
  write_blocks_nothing (suc fuel) r offset c n blocks f = refl

  -- The loop writes all the bytes where the blocks have room for them.
  pub write_blocks-Wrote :
      (fuel : ℕ) (r : Ref) (offset : ℕ) (bytes : List ℕ) (c : Chain Bits) (n : ℕ)
      (blocks : ℕ → List ℕ) (bs : List ℕ)
      → length bytes < fuel
      → IsChain c r bs
      → IsDistinct bs
      → AreBlocks blocks n bs
      → offset < 64
      → offset + length bytes ≤ 64 * length bs
      → (blocks' : ℕ → List ℕ) × (write_blocks fuel r offset bytes c n blocks ≡ done blocks')
        × Wrote n offset bytes bs blocks blocks'
  write_blocks-Wrote fuel r offset [] c n blocks bs f h d a o e = (
    blocks,
    write_blocks_nothing fuel r offset c n blocks (omega arith),
    Wrote-nothing n offset bs blocks a,
  )
  write_blocks-Wrote fuel r offset (x ∷ xs) c n blocks [] f h d a o e = absurd (omega arith)
  write_blocks-Wrote zero r offset (x ∷ xs) c n blocks (b ∷ bs) f h d a o e = absurd (omega arith)
  write_blocks-Wrote (suc fuel) r offset (x ∷ xs) c n blocks (b ∷ []) f h d a o e = (
    round_blocks offset (x ∷ xs) b blocks,
    write_blocks_step fuel r offset x xs c n blocks b end_of_file h.0 h.2 a.0,
    round_last n offset (x ∷ xs) b [] blocks tt a (omega arith),
  )
  write_blocks-Wrote (suc fuel) r offset (x ∷ xs) c n blocks (b ∷ b' ∷ bs) f h d a o e =
      let go : (b' == end_of_file) ≡ false = ground (arith, h.2.1) in
      elim (Bool-cases (leb (offset + length (x ∷ xs)) 64)) [
        | inl last ↦ (
          round_blocks offset (x ∷ xs) b blocks,
          rw
              (
                write_blocks_step fuel r offset x xs c n blocks b b' h.0 h.2.0 a.0,
                go,
                drop-round offset (x ∷ xs) (ground arith),
              )
              (write_blocks_nothing fuel (slot b) 0 c n _ (omega arith)),
          round_last n offset (x ∷ xs) b (b' ∷ bs) blocks d.0 a (ground arith),
        )
        | inr more ↦
            let bytes : List ℕ = x ∷ xs in
            let (full, part) = round_full offset bytes o (ground arith) in
            let (blocks', run, w) =
              write_blocks-Wrote fuel (slot b) 0 (drop (round offset bytes) bytes) c n
                (round_blocks offset bytes b blocks) (b' ∷ bs)
                (omega (arith, length-drop (round offset bytes) bytes)) h.2 d.1
                (round_blocks-AreBlocks n offset bytes b (b' ∷ bs) blocks d.0 a.2) (omega arith)
                (omega (arith, length-drop (round offset bytes) bytes)) in
            (
              blocks',
              rw (write_blocks_step fuel r offset x xs c n blocks b b' h.0 h.2.0 a.0, go) run,
              round_more n offset bytes b (b' ∷ bs) blocks blocks' d.0 a o (ground arith) w,
            )
      ]
