-- ===== src/Osada/File/Size/Extend.antt =====
-- osada_truncate to a larger size.
use so_unoficial.Prelude.{
  ℕ, ◌≤◌, ◌<◌, ◌^◌, ◌≡◌, ◌⊎◌, inl, inr, refl, ap, true, false, List, [], ◌++◌, ◌==◌, if◌then◌else◌,
  length, arith, Bool-cases, ltb, leb, length-append, ◌-◌,
}
use mathlib.Core.List.{append-nil}
use so_unoficial.Osada.State.{BitArray, Volume, osada_sexe, osada_enospc}
use so_unoficial.Osada.Chain.{head, Chain, open_chain, close_chain, grow}
use so_unoficial.Osada.Chain.Shape.{is_in, last_ref}
use so_unoficial.Osada.Chain.Grow.{AllFree}
use so_unoficial.Osada.Chain.Lengthen.{Lengthened}
use so_unoficial.Osada.Chain.Files.{
  IsVolume, Owns, Owns-locks, Owns-node, Owns-close, IsVolume-locks, IsVolume-table,
}
use so_unoficial.Osada.Reply.{reply, answer}
use so_unoficial.Osada.Node.{at}
use so_unoficial.Osada.File.Place.{locate_file}
use so_unoficial.Osada.File.Place.Frame.{locate_file-IsRelocked}
use so_unoficial.Osada.File.Size.{
  set_size, necessary_blocks, success, extend, resize, osada_truncate,
}
use so_unoficial.Osada.File.Size.Truncate.{resize_walk, resized, open_chain-set_size}
use so_unoficial.Osada.File.Size.Restore.{Restored, grow_from, restore}

pub necessary_blocks-le : (a b : ℕ) → a ≤ b → necessary_blocks a ≤ necessary_blocks b
unfolding necessary_blocks
necessary_blocks-le a b h = ground arith

module _ {Bits : Type 0} ⦃ops : BitArray Bits⦄ where
  -- The file at `pos` that owned `xs` has the blocks `bs` as well.
  pub record Extended (v : Volume Bits) (pos new_size : ℕ) (xs bs : List ℕ) (u : Volume Bits)
      : Type 0 where
    pub owns : Owns u pos (xs ++ bs)
    pub count : length (xs ++ bs) ≡ necessary_blocks new_size
    pub table :
        (j : ℕ)
        → u.file_table j ≡ (
            if pos == j
            then record (v.file_table j) {
              file_size = new_size;
              first_block = (u.file_table j).first_block;
            }
            else v.file_table j)
    pub taken :
        (j : ℕ) → ops.test_bit u.bitmap j ≡ (if is_in j bs then true else ops.test_bit v.bitmap j)
    pub were_free : AllFree (open_chain pos v) bs
    pub contents : u.blocks ≡ v.blocks

  Lengthened-Extended :
      (v : Volume Bits) (pos new_size : ℕ) (xs bs : List ℕ) (out : Chain Bits)
      → Lengthened v.data_size xs bs out
      → length (xs ++ bs) ≡ necessary_blocks new_size
      → AllFree (open_chain pos v) bs
      → ((j : ℕ)
          → ops.test_bit out.bitmap j ≡ (if is_in j bs then true else ops.test_bit v.bitmap j))
      → out.map_entries ≡ v.map_entries
      → Extended v pos new_size xs bs (resized pos new_size out v)
  unfolding resized close_chain
  Lengthened-Extended v pos new_size xs bs out l count free bits entries = record {
    owns = Owns-locks (close_chain pos out (set_size pos new_size v)) _ pos (xs ++ bs) (
        Owns-close (set_size pos new_size v) pos out (xs ++ bs) entries l.chain l.distinct l.used
          l.below);
    count = count;
    table = λ j. ground arith;
    taken = bits;
    were_free = free;
    contents = refl;
  }

  -- The blocks of the old size are as many as those of the new.
  Extended-none :
      (v : Volume Bits) (pos new_size : ℕ) (xs : List ℕ)
      → Owns v pos xs
      → length xs ≡ necessary_blocks new_size
      → Extended v pos new_size xs [] (resized pos new_size (open_chain pos v) v)
  unfolding open_chain
  Extended-none v pos new_size xs o n =
      Lengthened-Extended v pos new_size xs [] (open_chain pos v)
        (record {
          chain = rw append-nil o.chain;
          distinct = rw append-nil o.distinct;
          used = rw append-nil o.used;
          below = rw append-nil o.below;
        })
        (rw append-nil n) tt (λ j. refl) refl

  resize_more :
      (v : Volume Bits) (pos old_size new_size : ℕ) (xs : List ℕ)
      → IsVolume v
      → Owns v pos xs
      → old_size < new_size
      → length xs < necessary_blocks new_size
      → resize pos old_size new_size (set_size pos new_size v)
        ≡ extend pos old_size
            (necessary_blocks new_size - length xs)
            (last_ref head xs)
            (open_chain pos v)
            (set_size pos new_size v)
  resize_more v pos old_size new_size xs f o large more = ground (
    arith,
    resize_walk (set_size pos new_size v) pos old_size new_size xs (IsVolume-table v _ f)
        (Owns-node v pos pos _ xs refl o),
    open_chain-set_size v pos new_size,
  )

  resize_enough :
      (v : Volume Bits) (pos old_size new_size : ℕ) (xs : List ℕ)
      → IsVolume v
      → Owns v pos xs
      → old_size < new_size
      → necessary_blocks new_size ≤ length xs
      → resize pos old_size new_size (set_size pos new_size v)
        ≡ success pos (open_chain pos v) (set_size pos new_size v)
  resize_enough v pos old_size new_size xs f o large enough = ground (
    arith,
    resize_walk (set_size pos new_size v) pos old_size new_size xs (IsVolume-table v _ f)
        (Owns-node v pos pos _ xs refl o),
    open_chain-set_size v pos new_size,
  )

  extend-Extended :
      (v : Volume Bits) (pos new_size : ℕ) (xs : List ℕ)
      → IsVolume v
      → Owns v pos xs
      → length xs ≡ necessary_blocks (v.file_table pos).file_size
      → (v.file_table pos).file_size < 2 ^ 31
      → length xs < necessary_blocks new_size
      → let run =
          extend pos
            (v.file_table pos).file_size
            (necessary_blocks new_size - length xs)
            (last_ref head xs)
            (open_chain pos v)
            (set_size pos new_size v) in
        (u : Volume Bits) × ((run ≡ reply (answer osada_sexe) u)
            × ((bs : List ℕ) × Extended v pos new_size xs bs u)
          ⊎ (run ≡ reply (answer osada_enospc) u) × Restored v pos xs u)
  unfolding extend success open_chain resized
  extend-Extended v pos new_size xs f o n int more =
      let (bs, (g, l)) = grow_from v pos (necessary_blocks new_size - length xs) xs f o in
      let out =
        grow 1 v.data_size 0 (necessary_blocks new_size - length xs) (last_ref head xs)
          (open_chain pos v) in
      elim (Bool-cases (leb v.data_size out.pos)) [
        | inl full ↦
            let (u, run, k) =
              restore v pos new_size (v.file_table pos).file_size _ xs bs out f o n refl int g l in
            (u, inr (rw full run, k))
        | inr room ↦ (
          resized pos new_size out.chain v,
          inl (
            rw room refl,
            (
              bs,
              Lengthened-Extended v pos new_size xs bs out.chain l
                  (ground (arith, g.stops, g.need_left, g.tight, length-append xs bs)) g.free g.bits
                  g.entries,
            ),
          ),
        )
      ]

  resize-Extended :
      (v : Volume Bits) (pos new_size : ℕ) (xs : List ℕ)
      → IsVolume v
      → Owns v pos xs
      → length xs ≡ necessary_blocks (v.file_table pos).file_size
      → (v.file_table pos).file_size < 2 ^ 31
      → (v.file_table pos).file_size < new_size
      → let run = resize pos (v.file_table pos).file_size new_size (set_size pos new_size v) in
        (u : Volume Bits) × ((run ≡ reply (answer osada_sexe) u)
            × ((bs : List ℕ) × Extended v pos new_size xs bs u)
          ⊎ (run ≡ reply (answer osada_enospc) u) × Restored v pos xs u)
  unfolding success resized
  resize-Extended v pos new_size xs f o n int large =
      elim (Bool-cases (ltb (length xs) (necessary_blocks new_size))) [
        | inl more ↦
            rw (resize_more v pos (v.file_table pos).file_size new_size xs f o large (ground arith))
              (extend-Extended v pos new_size xs f o n int (ground arith))
        | inr enough ↦ (
          resized pos new_size (open_chain pos v) v,
          inl (
            resize_enough v pos (v.file_table pos).file_size new_size xs f o large (ground arith),
            (
              [],
              Extended-none v pos new_size xs o
                  (ground (arith, necessary_blocks-le (v.file_table pos).file_size new_size)),
            ),
          ),
        )
      ]

  -- Where the path leads to a file that owns the blocks `xs`, as many as its size takes, its size is below 2^31,
  -- and the new size is larger, osada_truncate ends. Either it answers success; the file then has the new size and owns `xs` and new
  -- blocks behind them, as many together as the new size takes; the bits of the new blocks were clean and are set, and
  -- no other bit changes. Or it answers OSADA_ENOSPC, and the file's size, its blocks and every bit are
  -- as before. No other field but first_block, no other file block and no block's contents change.
  pub osada_truncate-Extended :
      (path : List ℕ) (v w : Volume Bits) (pos new_size : ℕ) (xs : List ℕ)
      → IsVolume v
      → locate_file path v ≡ at pos w
      → Owns v pos xs
      → length xs ≡ necessary_blocks (v.file_table pos).file_size
      → (v.file_table pos).file_size < 2 ^ 31
      → (v.file_table pos).file_size < new_size
      → (u : Volume Bits) × ((osada_truncate path new_size v ≡ reply (answer osada_sexe) u)
            × ((bs : List ℕ) × Extended w pos new_size xs bs u)
          ⊎ (osada_truncate path new_size v ≡ reply (answer osada_enospc) u) × Restored w pos xs u)
  unfolding osada_truncate
  osada_truncate-Extended path v w pos new_size xs f here o n int large =
      let same = locate_file-IsRelocked path v w pos here in
      let size : (w.file_table pos).file_size ≡ (v.file_table pos).file_size =
        ap (λ x. (x.file_table pos).file_size) same in
      let (u, outcome) =
        resize-Extended w pos new_size xs (IsVolume-locks v w same f)
          (rw same (Owns-locks v w.locks pos xs o)) (rw size n) (rw size int) (omega arith) in
      let differ : (new_size == (w.file_table pos).file_size) ≡ false = ground arith in
      (u, rw (here, osada_truncate) (rw differ outcome))
