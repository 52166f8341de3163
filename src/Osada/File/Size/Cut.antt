-- ===== src/Osada/File/Size/Cut.antt =====
-- Cutting a chain behind some of its blocks.
use so_unoficial.Prelude.{ℕ, ◌<◌, ◌≡◌, ◌≢◌, false, List, [], ◌++◌, if◌then◌else◌, length, arith}
use mathlib.Core.List.{append-nil}
use so_unoficial.Osada.State.{BitArray}
use so_unoficial.Osada.Chain.{done, Ref, head, Chain, load}
use so_unoficial.Osada.Chain.Shape.{
  IsDistinct, Avoids, AllBelow, is_in, IsChain, last_ref, IsChain-advance,
}
use so_unoficial.Osada.Chain.Release.{release-Released}
use so_unoficial.Osada.Chain.Splice.{
  IsDistinct-append, AllBelow-append, length-append_le, Avoids-last_ref, IsChain-splice,
}
use so_unoficial.Osada.File.Size.{cut}

module _ {Bits : Type 0} ⦃ops : BitArray Bits⦄ where
  -- The blocks `xs` stay and the blocks `ys` are released.
  pub record IsCut (c : Chain Bits) (xs ys : List ℕ) (out : Chain Bits) : Type 0 where
    pub chain : IsChain out head xs
    pub bits :
        (j : ℕ)
        → ops.test_bit out.bitmap j ≡ (if is_in j ys then false else ops.test_bit c.bitmap j)
    pub frame : (q : Ref) → q ≢ last_ref head xs → Avoids q ys → load out q ≡ load c q
    pub entries : out.map_entries ≡ c.map_entries

  pub cut-IsCut :
      (c : Chain Bits) (xs ys : List ℕ) (fuel : ℕ)
      → length (xs ++ ys) < fuel
      → IsChain c head (xs ++ ys)
      → IsDistinct (xs ++ ys)
      → AllBelow ops.max_bit (xs ++ ys)
      → (out : Chain Bits) × (cut fuel (length xs) c ≡ done out) × IsCut c xs ys out
  unfolding cut
  cut-IsCut c xs ys fuel f h d b =
      let (e, rest) = IsChain-advance c head xs ys h in
      let (dx, dy, avoid) = IsDistinct-append xs ys d in
      let (out, run, k) =
        release-Released c (last_ref head xs) ys fuel (omega (arith, length-append_le xs ys)) rest
          (Avoids-last_ref head xs ys tt avoid) dy (AllBelow-append ops.max_bit xs ys b).1 in
      (
        out,
        rw (e, cut) run,
        record {
          chain =
              rw (append-nil xs) at
                (IsChain-splice c out head xs ys ys [] h k.frame tt dx tt avoid k.ends);
          bits = k.bits;
          frame = k.frame;
          entries = k.entries;
        },
      )
