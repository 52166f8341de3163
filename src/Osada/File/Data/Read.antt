-- ===== src/Osada/File/Data/Read.antt =====
-- osada_read and the bytes of the file.
use so_unoficial.Prelude.{
  le32, ℕ, ◌+◌, ◌-◌, ◌*◌, ◌/◌, ◌^◌, ◌≤◌, ◌<◌, ◌≡◌, refl, sym, ap, ap₂, ◌∙◌, true, false, List, [],
  ◌∷◌, ◌++◌, if◌then◌else◌, length, take, drop, min, arith, ltb, length-append, length-take,
  length-drop, split_at,
}
use mathlib.Core.List.{append-nil}
use so_unoficial.Osada.State.{
  osada_sexe, BitArray, Volume, Env, unlock, uninit_bytes, length-uninit_bytes,
}
use so_unoficial.Osada.Geometry.{add32, sub32}
use so_unoficial.Osada.Table.{signal}
use so_unoficial.Osada.Chain.{done, head, advance, open_chain}
use so_unoficial.Osada.Chain.Shape.{IsChain, last_ref, IsChain-advance}
use so_unoficial.Osada.Chain.Files.{IsVolume, Owns, length-Owns, Owns-locks, IsVolume-locks}
use so_unoficial.Osada.Reply.{reply}
use so_unoficial.Osada.Node.{at, locate_node}
use so_unoficial.Osada.Node.Frame.{locate_node-IsRelocked}
use so_unoficial.Osada.File.Size.{chain_fuel}
use so_unoficial.Osada.File.Data.{read_bytes, osada_read}
use so_unoficial.Osada.File.Data.ReadLoop.{read_from-file_bytes, overwrite_all}
use so_unoficial.Osada.File.Data.Contents.{
  file_bytes, AreBlocks, AreBlocks-right, length-file_bytes, drop-file_bytes,
}

module _ {Bits : Type 0} where
  -- What osada_read reads of a file of more than `offset + 1` bytes.
  pub read_bytes-file_bytes :
      (env : Env) (pos size offset : ℕ) (v : Volume Bits) (xs : List ℕ) (b : ℕ) (bs : List ℕ)
      → length (xs ++ b ∷ bs) ≤ v.map_entries
      → IsChain (open_chain pos v) head (xs ++ b ∷ bs)
      → AreBlocks v.blocks v.data_size (xs ++ b ∷ bs)
      → length xs ≡ offset / 64
      → (v.file_table pos).file_size ≤ 64 * length (xs ++ b ∷ bs)
      → (v.file_table pos).file_size < 2 ^ 32
      → offset + size < 2 ^ 32
      → offset + 1 < (v.file_table pos).file_size
      → 5 + min size ((v.file_table pos).file_size - offset) < 2 ^ 31
      → read_bytes env pos size offset v
        ≡ done (
            take
              (min size ((v.file_table pos).file_size - offset))
              (drop offset (file_bytes v.blocks (xs ++ b ∷ bs))))
  unfolding read_bytes
  read_bytes-file_bytes env pos size offset v xs b bs few h a split fits small no_wrap inside int =
      let fs = (v.file_table pos).file_size in
      let (moved, rest) = IsChain-advance (open_chain pos v) head xs (b ∷ bs) h in
      let (ax, ab) = AreBlocks-right v.blocks v.data_size xs (b ∷ bs) a in
      let wanted : (if ltb fs (add32 offset size) then sub32 fs offset else size)
          ≡ min size (fs - offset) =
        ground arith in
      let test : ltb offset (sub32 fs 1) ≡ true = ground arith in
      let fit : ltb (5 + min size (fs - offset)) (2 ^ 31) ≡ true = ground arith in
      let k : ℕ = offset - 64 * (offset / 64) in
      let moved' : advance (offset / 64) head (open_chain pos v) ≡ done (last_ref head xs) =
        rw split at moved in
      let got =
        read_from-file_bytes (chain_fuel v) (last_ref head xs) k (min size (fs - offset))
          (open_chain pos v) v b bs (omega (arith, few, length-append xs (b ∷ bs))) rest ab
          (omega arith) (omega (arith, fits, length-append xs (b ∷ bs), split)) in
      let n : ℕ = min size (fs - offset) in
      let bytes : List ℕ = take n (drop k (file_bytes v.blocks (b ∷ bs))) in
      let count : length bytes ≡ n = omega (
        arith,
        length-take n (drop k (file_bytes v.blocks (b ∷ bs))),
        length-drop k (file_bytes v.blocks (b ∷ bs)),
        length-file_bytes v.blocks v.data_size (b ∷ bs) ab,
        length-append xs (b ∷ bs),
        fits,
        split,
      ) in
      let here : 64 * length xs + k ≡ offset = omega (arith, split) in
      let whole = rw here at (drop-file_bytes v.blocks v.data_size xs (b ∷ bs) k ax) in
      rw
        (
          test,
          moved',
          read_bytes,
          wanted,
          fit,
          got,
          wanted,
          overwrite_all (uninit_bytes env n) bytes (length-uninit_bytes env n ∙ sym count),
        )
        (ap (λ l. done (take n l)) (sym whole))

module _ {Bits : Type 0} ⦃ops : BitArray Bits⦄ where
  read_bytes-Owns :
      (env : Env) (pos size offset : ℕ) (v : Volume Bits) (bs : List ℕ)
      → IsVolume v
      → Owns v pos bs
      → AreBlocks v.blocks v.data_size bs
      → (v.file_table pos).file_size ≤ 64 * length bs
      → (v.file_table pos).file_size < 2 ^ 32
      → offset + size < 2 ^ 32
      → offset + 1 < (v.file_table pos).file_size
      → 5 + min size ((v.file_table pos).file_size - offset) < 2 ^ 31
      → read_bytes env pos size offset v
        ≡ done (
            take
              (min size ((v.file_table pos).file_size - offset))
              (drop offset (file_bytes v.blocks bs)))
  read_bytes-Owns env pos size offset v bs f o a fits small no_wrap inside int =
      let (xs, rs, e, count) = split_at (offset / 64) bs (omega arith) in go xs rs e count
    where
      go :
          (xs rs : List ℕ)
          → bs ≡ xs ++ rs
          → length xs ≡ offset / 64
          → read_bytes env pos size offset v
            ≡ done (
                take
                  (min size ((v.file_table pos).file_size - offset))
                  (drop offset (file_bytes v.blocks bs)))
      go xs [] e count =
          absurd (omega (arith, ap length e, length-append xs [], fits, inside, count))
      go xs (r ∷ rs) e count = rw e (
          read_bytes-file_bytes env pos size offset v xs r rs (rw e at (length-Owns v pos bs f o))
            (rw e at o.chain) (rw e at a) count (rw e at fits) small no_wrap inside int)

  -- Where the path leads to a file that owns the blocks `bs`, each of 64 bytes and together as large as the
  -- file's size at least, the sizes do not overflow 32 bits, more than one byte of the file lies behind the
  -- offset, and the response, 5 bytes longer than what is read, has fewer than 2^31 bytes, osada_read ends and answers success with the bytes of the file from the offset on, as many as were
  -- asked for or are left; nothing but the locks changes.
  pub osada_read-file_bytes :
      (env : Env) (path : List ℕ) (size offset : ℕ) (v w : Volume Bits) (pos : ℕ) (bs : List ℕ)
      → IsVolume v
      → locate_node path v ≡ at pos w
      → Owns v pos bs
      → AreBlocks v.blocks v.data_size bs
      → (v.file_table pos).file_size ≤ 64 * length bs
      → (v.file_table pos).file_size < 2 ^ 32
      → offset + size < 2 ^ 32
      → offset + 1 < (v.file_table pos).file_size
      → 5 + min size ((v.file_table pos).file_size - offset) < 2 ^ 31
      → let n : ℕ = min size ((v.file_table pos).file_size - offset) in
        osada_read env path size offset v
        ≡ reply
            (osada_sexe ∷ le32 n ++ take n (drop offset (file_bytes v.blocks bs)))
            (signal unlock pos w)
  unfolding osada_read
  osada_read-file_bytes env path size offset v w pos bs f here o a fits small no_wrap inside int =
      let n : ℕ = min size ((v.file_table pos).file_size - offset) in
      let same = locate_node-IsRelocked path v w pos here in
      let blocks : w.blocks ≡ v.blocks = ap (λ x. x.blocks) same in
      let total : (w.file_table pos).file_size ≡ (v.file_table pos).file_size =
        ap (λ x. (x.file_table pos).file_size) same in
      let read =
        read_bytes-Owns env pos size offset w bs (IsVolume-locks v w same f)
          (rw same (Owns-locks v w.locks pos bs o)) (rw same a) (rw total fits) (rw total small)
          no_wrap (rw total inside) (rw total int) in
      let read' : read_bytes env pos size offset w
          ≡ done (take n (drop offset (file_bytes v.blocks bs))) =
        read
        ∙ ap₂ (λ s b. done (take (min size (s - offset)) (drop offset (file_bytes b bs)))) total
            blocks in
      let count : length (take n (drop offset (file_bytes v.blocks bs))) ≡ n = omega (
        arith,
        length-take n (drop offset (file_bytes v.blocks bs)),
        length-drop offset (file_bytes v.blocks bs),
        length-file_bytes v.blocks v.data_size bs a,
        fits,
      ) in
      rw (here, osada_read, read', count) refl

  -- Where the path leads to a file that is not empty, and the offset is that of its last byte or behind it, osada_read
  -- answers success with no bytes and changes nothing but the locks: the last byte alone is never read.
  pub osada_read_last_byte :
      (env : Env) (path : List ℕ) (size offset : ℕ) (v w : Volume Bits) (pos : ℕ)
      → locate_node path v ≡ at pos w
      → 0 < (w.file_table pos).file_size
      → (w.file_table pos).file_size < 2 ^ 32
      → (w.file_table pos).file_size ≤ offset + 1
      → osada_read env path size offset v ≡ reply (osada_sexe ∷ le32 0) (signal unlock pos w)
  unfolding osada_read read_bytes
  osada_read_last_byte env path size offset v w pos here some small behind =
      let test : ltb offset (sub32 (w.file_table pos).file_size 1) ≡ false = ground arith in
      rw (here, osada_read, test)
        (ap (λ l. reply (osada_sexe ∷ l) (signal unlock pos w)) (append-nil (le32 0)))
