-- ===== src/Osada/File/Size/Restore.antt =====
-- The loop that adds blocks to a file, and the way back where the volume is full.
use so_unoficial.Prelude.{
  ℕ, ◌<◌, ◌^◌, ◌≡◌, inl, inr, refl, ◌∙◌, true, false, List, [], ◌∷◌, ◌++◌, ◌==◌, if◌then◌else◌,
  length, arith, Bool-cases,
}
use so_unoficial.Osada.State.{BitArray, Volume, osada_enospc, unlock}
use so_unoficial.Osada.Table.{signal}
use so_unoficial.Osada.Chain.{done, head, Chain, open_chain, close_chain, Grown, grow}
use so_unoficial.Osada.Chain.Shape.{is_in, last_ref, IsChain-walk_end}
use so_unoficial.Osada.Chain.Grow.{AllFree, Grew, grow-Grew, AllBelow-le}
use so_unoficial.Osada.Chain.Splice.{AllUsed-left, AllUsed-cut, IsUsed-last_ref, IsDistinct-append}
use so_unoficial.Osada.Chain.Lengthen.{Lengthened, Grew-Lengthened}
use so_unoficial.Osada.Chain.Count.{length-le_of_distinct}
use so_unoficial.Osada.Chain.Files.{IsVolume, Owns, length-Owns, Owns-locks, Owns-close}
use so_unoficial.Osada.Reply.{reply, answer}
use so_unoficial.Osada.File.Size.{
  chain_fuel, set_size, necessary_blocks, necessary_of_int, cut, no_space,
}
use so_unoficial.Osada.File.Size.Cut.{cut-IsCut}

necessary_of_int-eq : (n : ℕ) → n < 2 ^ 31 → necessary_of_int n ≡ necessary_blocks n
unfolding necessary_of_int
necessary_of_int-eq n small = ground arith

module _ {Bits : Type 0} ⦃ops : BitArray Bits⦄ where
  -- The file at `pos` is as it was: its size, its blocks and every bit.
  pub record Restored (v : Volume Bits) (pos : ℕ) (xs : List ℕ) (u : Volume Bits) : Type 0 where
    pub owns : Owns u pos xs
    pub table :
        (j : ℕ)
        → u.file_table j ≡ (
            if pos == j
            then record (v.file_table j) { first_block = (u.file_table j).first_block }
            else v.file_table j)
    pub bits : (j : ℕ) → ops.test_bit u.bitmap j ≡ ops.test_bit v.bitmap j
    pub contents : u.blocks ≡ v.blocks

  AllFree-bit :
      (c : Chain Bits) (bs : List ℕ) (j : ℕ)
      → AllFree c bs
      → is_in j bs ≡ true
      → ops.test_bit c.bitmap j ≡ false
  AllFree-bit c [] j f m = absurd (cc)
  AllFree-bit c (b ∷ bs) j f m = elim (Bool-cases (j == b)) [
    | inl same ↦ let e : j ≡ b = ground arith in rw e f.0
    | inr other ↦ AllFree-bit c bs j f.1 (ground arith)
  ]

  -- The chain with what the loop made of it.
  pub grow_from :
      (v : Volume Bits) (pos need : ℕ) (xs : List ℕ)
      → IsVolume v
      → Owns v pos xs
      → (bs : List ℕ) × (let g = grow 1 v.data_size 0 need (last_ref head xs) (open_chain pos v) in
          Grew 1 v.data_size 0 need (last_ref head xs) (open_chain pos v) bs g
          × Lengthened v.data_size xs bs g.chain)
  unfolding open_chain
  grow_from v pos need xs f o =
      let c = open_chain pos v in
      let (walk, ends) =
        IsChain-walk_end c head xs (chain_fuel v) 0 (omega (arith, length-Owns v pos xs f o))
          o.chain in
      let (bs, g) =
        grow-Grew 1 v.data_size 0 need (last_ref head xs) c ends
          (IsUsed-last_ref c head xs tt o.used) (omega (arith, f.bits_fit))
          (omega (arith, f.entries_fit)) (omega (arith, f.codes_fit)) in
      (bs, (g, Grew-Lengthened 1 v.data_size need c xs bs _ o.chain o.distinct o.used o.below g))

  pub restore :
      (v : Volume Bits) (pos new_size old_size need : ℕ) (xs bs : List ℕ) (g : Grown Bits)
      → IsVolume v
      → Owns v pos xs
      → length xs ≡ necessary_blocks old_size
      → old_size ≡ (v.file_table pos).file_size
      → old_size < 2 ^ 31
      → Grew 1 v.data_size 0 need (last_ref head xs) (open_chain pos v) bs g
      → Lengthened v.data_size xs bs g.chain
      → (u : Volume Bits) × (no_space pos old_size g.chain (set_size pos new_size v)
          ≡ reply (answer osada_enospc) u)
        × Restored v pos xs u
  unfolding no_space close_chain open_chain
  restore v pos new_size old_size need xs bs g f o n size int grew l =
      let bound = length-le_of_distinct v.data_size (xs ++ bs) l.distinct l.below in
      let (c, run, k) =
        cut-IsCut g.chain xs bs (chain_fuel v) (omega (arith, bound, f.entries_fit)) l.chain
          l.distinct (AllBelow-le v.data_size ops.max_bit (xs ++ bs) f.bits_fit l.below) in
      let (dx, dy, avoid) = IsDistinct-append xs bs l.distinct in
      let whole : necessary_of_int old_size ≡ necessary_blocks old_size =
        necessary_of_int-eq old_size int in
      let run' : cut (chain_fuel v) (necessary_of_int old_size) g.chain ≡ done c =
        rw whole (rw n at run) in
      let v2 = set_size pos old_size (set_size pos new_size v) in
      (
        signal unlock pos (close_chain pos c v2),
        rw (run', no_space) refl,
        record {
          owns = Owns-locks (close_chain pos c v2) _ pos xs (
              Owns-close v2 pos c xs (k.entries ∙ grew.entries) k.chain dx
                (AllUsed-cut g.chain c xs bs k.bits avoid (AllUsed-left g.chain xs bs l.used))
                o.below);
          table = λ j. ground arith;
          bits = λ j.
              ground (arith, k.bits j, grew.bits j, AllFree-bit (open_chain pos v) bs j grew.free);
          contents = refl;
        },
      )
