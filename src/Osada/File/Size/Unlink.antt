-- ===== src/Osada/File/Size/Unlink.antt =====
-- osada_unlink on the chain of a file.
use so_unoficial.Prelude.{ℕ, ◌≡◌, ◌≢◌, refl, false, List, ◌==◌, if◌then◌else◌, arith}
use so_unoficial.Osada.State.{end_of_file, BitArray, Volume, deleted, osada_sexe, unlock}
use so_unoficial.Osada.Table.{signal}
use so_unoficial.Osada.Chain.{head, slot, Chain, load, open_chain, close_chain}
use so_unoficial.Osada.Chain.Shape.{is_in}
use so_unoficial.Osada.Chain.Grow.{AllBelow-le}
use so_unoficial.Osada.Chain.Release.{Released, release-Released}
use so_unoficial.Osada.Chain.Files.{
  IsVolume, Owns, length-Owns, Owns-locks, Owns-other, IsVolume-locks,
}
use so_unoficial.Osada.Chain.Splice.{AllAvoid, AllAvoid-IsNotIn, IsNotIn-is_in}
use so_unoficial.Osada.Reply.{reply, answer}
use so_unoficial.Osada.Node.{at}
use so_unoficial.Osada.File.Place.{locate_file}
use so_unoficial.Osada.File.Place.Frame.{locate_file-IsRelocked}
use so_unoficial.Osada.File.Size.{chain_fuel, set_deleted, remove_file, osada_unlink}

module _ {Bits : Type 0} ⦃ops : BitArray Bits⦄ where
  -- What is left of the file at `pos` that owned the blocks `bs`.
  pub record Unlinked (v : Volume Bits) (pos : ℕ) (bs : List ℕ) (w : Volume Bits) : Type 0 where
    pub table :
        (j : ℕ)
        → w.file_table j ≡ (
            if pos == j
            then record (v.file_table j) { state = deleted; first_block = end_of_file }
            else v.file_table j)
    pub freed :
        (j : ℕ) → ops.test_bit w.bitmap j ≡ (if is_in j bs then false else ops.test_bit v.bitmap j)
    pub contents : w.blocks ≡ v.blocks

  -- The volume that osada_unlink leaves where its loop has made the chain `c`.
  unlinked : ℕ → Chain Bits → Volume Bits → Volume Bits
  unlinked pos c v = signal unlock pos (set_deleted pos (close_chain pos c v))

  remove_file-Released :
      (v : Volume Bits) (pos : ℕ) (bs : List ℕ)
      → IsVolume v
      → Owns v pos bs
      → (c : Chain Bits) × (remove_file pos v ≡ reply (answer osada_sexe) (unlinked pos c v))
        × Released (open_chain pos v) head bs c
  unfolding remove_file unlinked
  remove_file-Released v pos bs f o =
      let (c, run, k) =
        release-Released (open_chain pos v) head bs (chain_fuel v)
          (omega (arith, length-Owns v pos bs f o)) o.chain tt o.distinct
          (AllBelow-le v.data_size ops.max_bit bs f.bits_fit o.below) in
      (c, rw run refl, k)

  osada_unlink-Released :
      (path : List ℕ) (v w : Volume Bits) (pos : ℕ) (bs : List ℕ)
      → IsVolume v
      → locate_file path v ≡ at pos w
      → Owns v pos bs
      → (c : Chain Bits) × (osada_unlink path v ≡ reply (answer osada_sexe) (unlinked pos c w))
        × Released (open_chain pos w) head bs c
  unfolding osada_unlink
  osada_unlink-Released path v w pos bs f here o =
      let same = locate_file-IsRelocked path v w pos here in
      let (c, run, k) =
        remove_file-Released w pos bs (IsVolume-locks v w same f)
          (rw same (Owns-locks v w.locks pos bs o)) in
      (c, rw (here, osada_unlink) run, k)

  -- Where the path leads to a file whose first_block leads through the blocks `bs` to END_OF_FILE,
  -- osada_unlink ends and answers success; the file block is DELETED and without blocks,
  -- its other fields are unchanged, no other
  -- file block changes, no block's contents change, the bits of `bs` are clean, and no other bit changes.
  pub osada_unlink-Unlinked :
      (path : List ℕ) (v w : Volume Bits) (pos : ℕ) (bs : List ℕ)
      → IsVolume v
      → locate_file path v ≡ at pos w
      → Owns v pos bs
      → (u : Volume Bits) × (osada_unlink path v ≡ reply (answer osada_sexe) u)
        × Unlinked w pos bs u
  unfolding unlinked close_chain open_chain load
  osada_unlink-Unlinked path v w pos bs f here o =
      let (c, run, k) = osada_unlink-Released path v w pos bs f here o in
      (
        unlinked pos c w,
        run,
        record { table = λ j. ground (arith, k.ends); freed = k.bits; contents = refl },
      )

  -- osada_unlink takes no block from another file: where the path leads to a file that owns the blocks `bs`, a
  -- file at another position that owns the blocks `cs`, none of them in `bs`, owns them in the volume that
  -- osada_unlink leaves.
  pub osada_unlink-Owns :
      (path : List ℕ) (v w : Volume Bits) (pos : ℕ) (bs : List ℕ) (j : ℕ) (cs : List ℕ)
      → IsVolume v
      → locate_file path v ≡ at pos w
      → Owns v pos bs
      → j ≢ pos
      → AllAvoid cs bs
      → Owns v j cs
      → (u : Volume Bits) × (osada_unlink path v ≡ reply (answer osada_sexe) u) × Owns u j cs
  unfolding unlinked close_chain open_chain
  osada_unlink-Owns path v w pos bs j cs f here o ne apart other =
      let (c, run, k) = osada_unlink-Released path v w pos bs f here o in
      let same = locate_file-IsRelocked path v w pos here in
      (
        unlinked pos c w,
        run,
        Owns-other w _ c pos j cs refl refl refl refl k.entries (ground arith)
            (λ q m. k.frame (slot q) (cc) (AllAvoid-IsNotIn q cs bs m apart))
            (λ q m. ground (arith, k.bits q, IsNotIn-is_in q bs (AllAvoid-IsNotIn q cs bs m apart)))
            (rw same (Owns-locks v w.locks j cs other)),
      )
