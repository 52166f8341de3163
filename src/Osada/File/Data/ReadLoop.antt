-- ===== src/Osada/File/Data/ReadLoop.antt =====
-- The loop of osada_read over the blocks.
use so_unoficial.Prelude.{
  overwrite, ℕ, zero, suc, ◌+◌, ◌-◌, ◌*◌, ◌≤◌, ◌<◌, ◌≡◌, ◌≢◌, refl, sym, ap, false, ◌||◌, List, [],
  ◌∷◌, ◌==◌, if◌then◌else◌, length, take, drop, arith, Bool-cases, inl, inr, leb, length-drop,
  take_all, drop-length,
}
use mathlib.Core.List.{append-nil}
use so_unoficial.Osada.State.{end_of_file, Volume}
use so_unoficial.Osada.Chain.{done, Ref, slot, Chain, load}
use so_unoficial.Osada.Chain.Shape.{IsChain}
use so_unoficial.Osada.File.Data.{slice, prepend, copy_from, read_blocks, read_from}
use so_unoficial.Osada.File.Data.Contents.{file_bytes, AreBlocks, take_step, slice_step}

-- The bytes of one block, for a round of the loop that has `need` bytes to read.
first_bytes :
    (need : ℕ) (block : List ℕ)
    → length block ≡ 64
    → take (if leb 64 need then 64 else need) block ≡ take need block
first_bytes need block full = elim (Bool-cases (leb 64 need)) [
  | inl whole ↦
      rw
        (whole, take_all 64 block (omega (arith, full)), take_all need block (ground (arith, full)))
        refl
  | inr part ↦ rw part refl
]

-- The bytes of the first block, from an offset in it.
first_slice :
    (offset size : ℕ) (block : List ℕ)
    → length block ≡ 64
    → take (if leb size (64 - offset) then size else 64 - offset) (drop offset block)
      ≡ take size (drop offset block)
first_slice offset size block full = elim (Bool-cases (leb size (64 - offset))) [
  | inl part ↦ rw part refl
  | inr whole ↦
      rw
        (
          whole,
          take_all (64 - offset) (drop offset block)
              (omega (arith, full, length-drop offset block)),
          take_all size (drop offset block) (ground (arith, full, length-drop offset block)),
        )
        refl
]

-- `memcpy` of as many bytes as the buffer has.
pub overwrite_all : (old new : List ℕ) → length old ≡ length new → overwrite old new ≡ new
unfolding overwrite
overwrite_all old new e = rw (drop-length (length new) old (omega (arith, e))) (append-nil new)

module _ {Bits : Type 0} where
  copy_from-slice :
      (v : Volume Bits) (b offset n : ℕ)
      → b < v.data_size
      → copy_from v b offset n ≡ done (slice offset n (v.blocks b))
  copy_from-slice v b offset zero h = refl
  copy_from-slice v b offset (suc n) h = ground arith

  read_blocks_step :
      (fuel : ℕ) (r : Ref) (need b : ℕ) (c : Chain Bits) (v : Volume Bits)
      → load c r ≡ done b
      → b ≢ end_of_file
      → b < v.data_size
      → length (v.blocks b) ≡ 64
      → need ≢ 0
      → read_blocks (suc fuel) r need c v
        ≡ prepend (take need (v.blocks b)) (read_blocks fuel (slot b) (need - 64) c v)
  unfolding read_blocks
  read_blocks_step fuel r need b c v h ne small full some_need =
      let same : need - (if leb 64 need then 64 else need) ≡ need - 64 = ground arith in
      let more : (b == end_of_file || need == 0) ≡ false = ground arith in
      rw (h, read_blocks)
        (rw
          (
            more,
            copy_from-slice v b 0 (if leb 64 need then 64 else need) small,
            first_bytes need (v.blocks b) full,
            same,
          )
          refl)

  -- The loop reads the first `need` bytes of the blocks behind the pointer.
  read_blocks-file_bytes :
      (fuel : ℕ) (r : Ref) (need : ℕ) (c : Chain Bits) (v : Volume Bits) (bs : List ℕ)
      → length bs < fuel
      → IsChain c r bs
      → AreBlocks v.blocks v.data_size bs
      → need ≤ 64 * length bs
      → read_blocks fuel r need c v ≡ done (take need (file_bytes v.blocks bs))
  unfolding read_blocks file_bytes
  read_blocks-file_bytes zero r need c v bs f h a e = absurd (omega arith)
  read_blocks-file_bytes (suc fuel) r zero c v [] f h a e = rw (h, read_blocks) refl
  read_blocks-file_bytes (suc fuel) r (suc need) c v [] f h a e = absurd (omega arith)
  read_blocks-file_bytes (suc fuel) r zero c v (b ∷ bs) f h a e =
      rw (h.0, read_blocks) (ground arith)
  read_blocks-file_bytes (suc fuel) r (suc need) c v (b ∷ bs) f h a e =
      rw
        (
          read_blocks_step fuel r (suc need) b c v h.0 h.1 a.0 a.1 (omega arith),
          read_blocks-file_bytes fuel (slot b) (suc need - 64) c v bs (omega arith) h.2 a.2
              (omega arith),
        )
        (ap done (sym (take_step (suc need) (v.blocks b) (file_bytes v.blocks bs) a.1)))

  pub read_from-file_bytes :
      (fuel : ℕ) (r : Ref) (offset size : ℕ) (c : Chain Bits) (v : Volume Bits) (b : ℕ)
      (bs : List ℕ)
      → length bs < fuel
      → IsChain c r (b ∷ bs)
      → AreBlocks v.blocks v.data_size (b ∷ bs)
      → offset ≤ 64
      → offset + size ≤ 64 * suc (length bs)
      → read_from fuel r offset size c v
        ≡ done (take size (drop offset (file_bytes v.blocks (b ∷ bs))))
  unfolding read_from file_bytes
  read_from-file_bytes fuel r offset size c v b bs f h a small e =
      let n : ℕ = if leb size (64 - offset) then size else 64 - offset in
      let same : size - n ≡ size - (64 - offset) = ground arith in
      rw
        (
          h.0,
          read_from,
          copy_from-slice v b offset n a.0,
          first_slice offset size (v.blocks b) a.1,
          same,
          read_blocks-file_bytes fuel (slot b) (size - (64 - offset)) c v bs f h.2 a.2
              (omega arith),
        )
        (ap done (sym (slice_step offset size (v.blocks b) (file_bytes v.blocks bs) a.1 small)))
