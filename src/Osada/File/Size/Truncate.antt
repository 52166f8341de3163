-- ===== src/Osada/File/Size/Truncate.antt =====
-- osada_truncate to a smaller size.
use so_unoficial.Prelude.{
  ℕ, ◌<◌, ◌≡◌, ◌≢◌, refl, ap, false, List, [], ◌∷◌, ◌++◌, ◌==◌, if◌then◌else◌, length, arith, ltb,
  length-append, ◌&&◌, ◌-◌,
}
use mathlib.Core.List.{append-nil}
use native.Mathlib.Nat.{zero-add}
use so_unoficial.Osada.State.{BitArray, Volume, osada_sexe, unlock}
use so_unoficial.Osada.Table.{signal}
use so_unoficial.Osada.Chain.{head, slot, Chain, open_chain, close_chain}
use so_unoficial.Osada.Chain.Shape.{IsChain, is_in, last_ref, IsChain-walk_end}
use so_unoficial.Osada.Chain.Grow.{AllBelow-le}
use so_unoficial.Osada.Chain.Splice.{
  AllAvoid, AllAvoid-IsNotIn, IsNotIn-is_in, AllUsed-left, AllUsed-cut, slot-ne-last_ref,
  IsDistinct-append, AllBelow-append,
}
use so_unoficial.Osada.Chain.Files.{
  IsVolume, Owns, length-Owns, Owns-locks, Owns-other, Owns-node, Owns-close, IsVolume-locks,
  IsVolume-table,
}
use so_unoficial.Osada.Reply.{reply, answer, after}
use so_unoficial.Osada.Node.{at}
use so_unoficial.Osada.File.Place.{locate_file}
use so_unoficial.Osada.File.Place.Frame.{locate_file-IsRelocked}
use so_unoficial.Osada.File.Size.{
  chain_fuel, set_size, necessary_blocks, cut, success, extend, resize, osada_truncate,
}
use so_unoficial.Osada.File.Size.Cut.{IsCut, cut-IsCut}

module _ {Bits : Type 0} ⦃ops : BitArray Bits⦄ where
  -- What osada_truncate leaves of the file at `pos`, which kept the blocks `xs` and gave back the blocks `ys`.
  pub record Shrunk (v : Volume Bits) (pos new_size : ℕ) (xs ys : List ℕ) (u : Volume Bits)
      : Type 0 where
    pub owns : Owns u pos xs
    pub table :
        (j : ℕ)
        → u.file_table j ≡ (
            if pos == j
            then record (v.file_table j) {
              file_size = new_size;
              first_block = (u.file_table j).first_block;
            }
            else v.file_table j)
    pub freed :
        (j : ℕ) → ops.test_bit u.bitmap j ≡ (if is_in j ys then false else ops.test_bit v.bitmap j)
    pub contents : u.blocks ≡ v.blocks

  -- The volume that osada_truncate leaves where it has made the chain `c`.
  unfoldable pub resized : ℕ → ℕ → Chain Bits → Volume Bits → Volume Bits
  resized pos size c v = signal unlock pos (close_chain pos c (set_size pos size v))

  IsCut-Shrunk :
      (v : Volume Bits) (pos new_size : ℕ) (xs ys : List ℕ) (c : Chain Bits)
      → Owns v pos (xs ++ ys)
      → IsCut (open_chain pos v) xs ys c
      → Shrunk v pos new_size xs ys (resized pos new_size c v)
  unfolding close_chain open_chain resized
  IsCut-Shrunk v pos new_size xs ys c o k =
      let (dx, dy, avoid) = IsDistinct-append xs ys o.distinct in
      let v1 = set_size pos new_size v in
      record {
        owns = Owns-locks (close_chain pos c v1) _ pos xs (
            Owns-close v1 pos c xs k.entries k.chain dx
              (AllUsed-cut (open_chain pos v) c xs ys k.bits avoid
                (AllUsed-left (open_chain pos v) xs ys o.used))
              (AllBelow-append v.data_size xs ys o.below).0);
        table = λ j. ground arith;
        freed = k.bits;
        contents = refl;
      }

  -- The pass over the chain that counts its blocks.
  pub resize_walk :
      (v : Volume Bits) (pos old_size new_size : ℕ) (bs : List ℕ)
      → IsVolume v
      → Owns v pos bs
      → resize pos old_size new_size v ≡ (
          if ltb old_size new_size && ltb (length bs) (necessary_blocks new_size)
          then extend pos old_size
              (necessary_blocks new_size - length bs)
              (last_ref head bs)
              (open_chain pos v)
              v
          else if ltb new_size old_size && ltb (necessary_blocks new_size) (length bs)
          then after
              (cut (chain_fuel v) (necessary_blocks new_size) (open_chain pos v))
              (λ c'. success pos c' v)
          else success pos (open_chain pos v) v)
  unfolding resize
  resize_walk v pos old_size new_size bs f o =
      let (walk, ends) =
        IsChain-walk_end (open_chain pos v) head bs (chain_fuel v) 0
          (omega (arith, length-Owns v pos bs f o)) o.chain in
      rw (walk, resize, zero-add) refl

  pub open_chain-set_size :
      (v : Volume Bits) (pos size : ℕ) → open_chain pos (set_size pos size v) ≡ open_chain pos v
  unfolding open_chain
  open_chain-set_size v pos size = ground arith

  -- Cutting no blocks changes nothing.
  IsCut-none : (c : Chain Bits) (xs : List ℕ) → IsChain c head (xs ++ []) → IsCut c xs [] c
  IsCut-none c xs h = record {
    chain = rw (append-nil xs) at h;
    bits = λ j. refl;
    frame = λ q ne a. refl;
    entries = refl;
  }

  resize-IsCut :
      (v : Volume Bits) (pos new_size : ℕ) (xs ys : List ℕ)
      → IsVolume v
      → Owns v pos (xs ++ ys)
      → length xs ≡ necessary_blocks new_size
      → new_size < (v.file_table pos).file_size
      → (c : Chain Bits) × (resize pos
            (v.file_table pos).file_size
            new_size
            (set_size pos new_size v)
          ≡ reply (answer osada_sexe) (resized pos new_size c v))
        × IsCut (open_chain pos v) xs ys c
  unfolding success resized
  resize-IsCut v pos new_size xs [] f o n small =
      let f' = IsVolume-table v _ f in
      let o' = Owns-node v pos pos _ (xs ++ []) refl o in
      let count : length (xs ++ []) ≡ length xs = ap length (append-nil xs) in
      (
        open_chain pos v,
        ground (
          arith,
          resize_walk (set_size pos new_size v) pos (v.file_table pos).file_size new_size (xs ++ [])
              f' o',
          open_chain-set_size v pos new_size,
        ),
        IsCut-none (open_chain pos v) xs o.chain,
      )
  resize-IsCut v pos new_size xs (y ∷ ys) f o n small =
      let f' = IsVolume-table v _ f in
      let o' = Owns-node v pos pos _ (xs ++ y ∷ ys) refl o in
      let (c, run, k) =
        cut-IsCut (open_chain pos v) xs (y ∷ ys) (chain_fuel v)
          (omega (arith, length-Owns v pos (xs ++ y ∷ ys) f o)) o.chain o.distinct
          (AllBelow-le v.data_size ops.max_bit (xs ++ y ∷ ys) f.bits_fit o.below) in
      (
        c,
        ground (
          arith,
          resize_walk (set_size pos new_size v) pos (v.file_table pos).file_size new_size
              (xs ++ y ∷ ys) f' o',
          open_chain-set_size v pos new_size,
          length-append xs (y ∷ ys),
          run,
        ),
        k,
      )

  osada_truncate-IsCut :
      (path : List ℕ) (v w : Volume Bits) (pos new_size : ℕ) (xs ys : List ℕ)
      → IsVolume v
      → locate_file path v ≡ at pos w
      → Owns v pos (xs ++ ys)
      → length xs ≡ necessary_blocks new_size
      → new_size < (v.file_table pos).file_size
      → Owns w pos (xs ++ ys)
        × (c : Chain Bits) × (osada_truncate path new_size v
            ≡ reply (answer osada_sexe) (resized pos new_size c w))
        × IsCut (open_chain pos w) xs ys c
  unfolding osada_truncate
  osada_truncate-IsCut path v w pos new_size xs ys f here o n small =
      let same = locate_file-IsRelocked path v w pos here in
      let o' : Owns w pos (xs ++ ys) = rw same (Owns-locks v w.locks pos (xs ++ ys) o) in
      let size : (w.file_table pos).file_size ≡ (v.file_table pos).file_size =
        ap (λ x. (x.file_table pos).file_size) same in
      let (c, run, k) =
        resize-IsCut w pos new_size xs ys (IsVolume-locks v w same f) o' n (omega arith) in
      (o', c, rw (here, osada_truncate) (ground arith), k)

  -- Where the path leads to a file that owns the blocks `xs` and `ys`, and the new size is smaller than the old and
  -- takes as many blocks as `xs`, osada_truncate ends and answers success; the file then has the new size
  -- and owns exactly `xs`, no other field but first_block and no other file block changes, no block's contents change, the bits of `ys`
  -- are clean, and no other bit changes.
  pub osada_truncate-Shrunk :
      (path : List ℕ) (v w : Volume Bits) (pos new_size : ℕ) (xs ys : List ℕ)
      → IsVolume v
      → locate_file path v ≡ at pos w
      → Owns v pos (xs ++ ys)
      → length xs ≡ necessary_blocks new_size
      → new_size < (v.file_table pos).file_size
      → (u : Volume Bits) × (osada_truncate path new_size v ≡ reply (answer osada_sexe) u)
        × Shrunk w pos new_size xs ys u
  osada_truncate-Shrunk path v w pos new_size xs ys f here o n small =
      let (o', c, run, k) = osada_truncate-IsCut path v w pos new_size xs ys f here o n small in
      (resized pos new_size c w, run, IsCut-Shrunk w pos new_size xs ys c o' k)

  -- Under the same conditions osada_truncate to a smaller size takes no block from another file: a file at another
  -- position that owns the blocks `cs`, none of them in `xs` or `ys`, owns them afterwards.
  pub osada_truncate-Owns :
      (path : List ℕ) (v w : Volume Bits) (pos new_size : ℕ) (xs ys : List ℕ) (j : ℕ) (cs : List ℕ)
      → IsVolume v
      → locate_file path v ≡ at pos w
      → Owns v pos (xs ++ ys)
      → length xs ≡ necessary_blocks new_size
      → new_size < (v.file_table pos).file_size
      → j ≢ pos
      → AllAvoid cs xs
      → AllAvoid cs ys
      → Owns v j cs
      → (u : Volume Bits) × (osada_truncate path new_size v ≡ reply (answer osada_sexe) u)
        × Owns u j cs
  unfolding resized close_chain open_chain
  osada_truncate-Owns path v w pos new_size xs ys j cs f here o n small ne apart_x apart_y other =
      let (o', c, run, k) = osada_truncate-IsCut path v w pos new_size xs ys f here o n small in
      let same = locate_file-IsRelocked path v w pos here in
      (
        resized pos new_size c w,
        run,
        Owns-other w _ c pos j cs refl refl refl refl k.entries (ground arith)
            (λ q m.
              k.frame (slot q)
                (slot-ne-last_ref q head xs (cc) (AllAvoid-IsNotIn q cs xs m apart_x))
                (AllAvoid-IsNotIn q cs ys m apart_y))
            (λ q m.
              ground (arith, k.bits q, IsNotIn-is_in q ys (AllAvoid-IsNotIn q cs ys m apart_y)))
            (rw same (Owns-locks v w.locks j cs other)),
      )
