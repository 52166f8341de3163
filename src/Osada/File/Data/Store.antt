-- ===== src/Osada/File/Data/Store.antt =====
-- osada_write where the file is large enough already.
use so_unoficial.Prelude.{
  update, ℕ, suc, ◌+◌, ◌-◌, ◌*◌, ◌/◌, ◌^◌, ◌≤◌, ◌<◌, ◌≡◌, refl, sym, ap, ap₂, ◌∙◌, false, true,
  List, [], ◌∷◌, ◌++◌, ◌==◌, if◌then◌else◌, length, arith, ltb, length-append, split_at,
}
use so_unoficial.Osada.State.{osada_sexe, BitArray, Volume, Env, unlock}
use so_unoficial.Osada.Geometry.{add32}
use so_unoficial.Osada.Table.{signal}
use so_unoficial.Osada.Chain.{done, head, Chain, advance, open_chain, close_chain}
use so_unoficial.Osada.Chain.Shape.{IsChain, IsNotIn, IsDistinct, last_ref, is_in, IsChain-advance}
use so_unoficial.Osada.Chain.Splice.{IsNotIn-is_in, IsDistinct-append}
use so_unoficial.Osada.Chain.Files.{Owns, Owns-locks, Owns-node, Owns-close}
use so_unoficial.Osada.Reply.{reply, answer}
use so_unoficial.Osada.Node.{at}
use so_unoficial.Osada.File.Place.{locate_file}
use so_unoficial.Osada.File.Place.Frame.{locate_file-IsRelocked}
use so_unoficial.Osada.File.Data.{splice, write_bytes, write_at, osada_write}
use so_unoficial.Osada.File.Data.Contents.{file_bytes, AreBlocks, AreBlocks-right}
use so_unoficial.Osada.File.Data.Bytes.{splice_behind}
use so_unoficial.Osada.File.Data.Write.{Wrote, write_blocks-Wrote}

-- A block in front of those that are written.
Wrote-cons :
    (n offset : ℕ) (bytes : List ℕ) (b : ℕ) (bs : List ℕ) (blocks blocks' : ℕ → List ℕ)
    → IsNotIn b bs
    → AreBlocks blocks n (b ∷ bs)
    → Wrote n offset bytes bs blocks blocks'
    → Wrote n (64 + offset) bytes (b ∷ bs) blocks blocks'
unfolding file_bytes
Wrote-cons n offset bytes b bs blocks blocks' h a w =
    let kept : blocks' b ≡ blocks b = ground (arith, w.others b, IsNotIn-is_in b bs h) in
    record {
      contents =
          ap₂ (λ k l. k ++ l) kept w.contents
          ∙ sym (
              splice_behind offset (64 + offset) bytes (blocks b) (file_bytes blocks bs)
                (omega (arith, a.1)));
      others = λ j. ground (arith, w.others j);
      sizes = (a.0, ap length kept ∙ a.1, w.sizes);
    }

Wrote-behind :
    (n offset k : ℕ) (bytes xs ys : List ℕ) (blocks blocks' : ℕ → List ℕ)
    → k ≡ 64 * length xs + offset
    → IsDistinct (xs ++ ys)
    → AreBlocks blocks n (xs ++ ys)
    → Wrote n offset bytes ys blocks blocks'
    → Wrote n k bytes (xs ++ ys) blocks blocks'
Wrote-behind n offset k bytes [] ys blocks blocks' e d a w =
    let same : k ≡ offset = omega arith in rw same w
Wrote-behind n offset k bytes (x ∷ xs) ys blocks blocks' e d a w =
    let same : k ≡ 64 + (64 * length xs + offset) = omega arith in
    rw same (
      Wrote-cons n (64 * length xs + offset) bytes x (xs ++ ys) blocks blocks' d.0 a
        (Wrote-behind n offset (64 * length xs + offset) bytes xs ys blocks blocks' refl d.1 a.2 w))

module _ {Bits : Type 0} where
  -- What osada_write leaves: the volume `v` with other blocks.
  unfoldable pub stored : ℕ → Chain Bits → Volume Bits → (ℕ → List ℕ) → Volume Bits
  stored pos c v blocks = signal unlock pos (close_chain pos c (record v { blocks = blocks }))

  write_bytes_split :
      (pos offset : ℕ) (bytes : List ℕ) (c : Chain Bits) (v : Volume Bits) (xs : List ℕ) (b : ℕ)
      (bs : List ℕ)
      → IsChain c head (xs ++ b ∷ bs)
      → IsDistinct (xs ++ b ∷ bs)
      → AreBlocks v.blocks v.data_size (xs ++ b ∷ bs)
      → length xs ≡ offset / 64
      → length bytes < 2 ^ 31
      → offset + length bytes ≤ 64 * length (xs ++ b ∷ bs)
      → (blocks : ℕ → List ℕ) × (write_bytes pos offset bytes c v
          ≡ reply (answer osada_sexe) (stored pos c v blocks))
        × Wrote v.data_size offset bytes (xs ++ b ∷ bs) v.blocks blocks
  unfolding write_bytes stored
  write_bytes_split pos offset bytes c v xs b bs h d a split int fits =
      let (moved, rest) = IsChain-advance c head xs (b ∷ bs) h in
      let (ax, ab) = AreBlocks-right v.blocks v.data_size xs (b ∷ bs) a in
      let (dx, db, apart) = IsDistinct-append xs (b ∷ bs) d in
      let k : ℕ = offset - 64 * (offset / 64) in
      let enter : ltb (length bytes) (2 ^ 31) ≡ true = ground arith in
      let moved' : advance (offset / 64) head c ≡ done (last_ref head xs) = rw split at moved in
      let (blocks, run, w) =
        write_blocks-Wrote (suc (length bytes)) (last_ref head xs) k bytes c v.data_size v.blocks
          (b ∷ bs) (omega arith) rest db ab (omega arith)
          (omega (arith, fits, length-append xs (b ∷ bs), split)) in
      (
        blocks,
        rw (moved', write_bytes, rest.0, enter, run) refl,
        Wrote-behind v.data_size k offset bytes xs (b ∷ bs) v.blocks blocks (omega (arith, split)) d
            a w,
      )

  pub write_bytes-Wrote :
      (pos offset : ℕ) (bytes : List ℕ) (c : Chain Bits) (v : Volume Bits) (bs : List ℕ)
      → IsChain c head bs
      → IsDistinct bs
      → AreBlocks v.blocks v.data_size bs
      → 0 < length bytes
      → length bytes < 2 ^ 31
      → offset + length bytes ≤ 64 * length bs
      → (blocks : ℕ → List ℕ) × (write_bytes pos offset bytes c v
          ≡ reply (answer osada_sexe) (stored pos c v blocks))
        × Wrote v.data_size offset bytes bs v.blocks blocks
  write_bytes-Wrote pos offset bytes c v bs h d a some int fits =
      let (xs, rs, e, count) = split_at (offset / 64) bs (omega arith) in go xs rs e count
    where
      go :
          (xs rs : List ℕ)
          → bs ≡ xs ++ rs
          → length xs ≡ offset / 64
          → (blocks : ℕ → List ℕ) × (write_bytes pos offset bytes c v
              ≡ reply (answer osada_sexe) (stored pos c v blocks))
            × Wrote v.data_size offset bytes bs v.blocks blocks
      go xs [] e count = absurd (omega (arith, ap length e, length-append xs [], fits, some, count))
      go xs (r ∷ rs) e count = rw e (
          write_bytes_split pos offset bytes c v xs r rs (rw e at h) (rw e at d) (rw e at a) count
            int (rw e at fits))

module _ {Bits : Type 0} ⦃ops : BitArray Bits⦄ where
  -- What osada_write leaves of the file at `pos`, which owns the blocks `bs`.
  pub record Written (v : Volume Bits) (now pos offset : ℕ) (bytes bs : List ℕ) (u : Volume Bits)
      : Type 0 where
    pub owns : Owns u pos bs
    pub contents : file_bytes u.blocks bs ≡ splice offset bytes (file_bytes v.blocks bs)
    pub sizes : AreBlocks u.blocks u.data_size bs
    pub others : (j : ℕ) → u.blocks j ≡ (if is_in j bs then u.blocks j else v.blocks j)
    pub table :
        (j : ℕ)
        → u.file_table j
          ≡ (if pos == j then record (v.file_table j) { lastmod = now } else v.file_table j)
    pub mapping : u.mapping ≡ v.mapping
    pub bitmap : u.bitmap ≡ v.bitmap
    pub map_entries : u.map_entries ≡ v.map_entries
    pub data_size : u.data_size ≡ v.data_size

  write_at-Written :
      (env : Env) (pos offset : ℕ) (bytes : List ℕ) (v : Volume Bits) (bs : List ℕ)
      → Owns v pos bs
      → AreBlocks v.blocks v.data_size bs
      → 0 < length bytes
      → length bytes < 2 ^ 31
      → offset + length bytes ≤ (v.file_table pos).file_size
      → (v.file_table pos).file_size ≤ 64 * length bs
      → (v.file_table pos).file_size < 2 ^ 32
      → (u : Volume Bits) × (write_at env pos offset bytes v ≡ reply (answer osada_sexe) u)
        × Written v env.now pos offset bytes bs u
  unfolding write_at stored close_chain open_chain
  write_at-Written env pos offset bytes v bs o a some int inside fits small =
      let v1 = record v {
        file_table = update v.file_table pos (record (v.file_table pos) { lastmod = env.now });
      } in
      let o1 : Owns v1 pos bs =
        Owns-node v pos pos (record (v.file_table pos) { lastmod = env.now }) bs refl o in
      let (blocks, run, w) =
        write_bytes-Wrote pos offset bytes (open_chain pos v1) v1 bs o1.chain o1.distinct a some int
          (omega arith) in
      let in_place : ltb (v1.file_table pos).file_size (add32 offset (length bytes)) ≡ false =
        ground arith in
      (
        stored pos (open_chain pos v1) v1 blocks,
        rw (in_place, write_at) run,
        record {
          owns =
              Owns-locks (close_chain pos (open_chain pos v1) (record v1 { blocks = blocks })) _ pos
                bs
                (Owns-close (record v1 { blocks = blocks }) pos (open_chain pos v1) bs refl o1.chain
                  o1.distinct o1.used o1.below);
          contents = w.contents;
          sizes = w.sizes;
          others = w.others;
          table = λ j. ground arith;
          mapping = refl;
          bitmap = refl;
          map_entries = refl;
          data_size = refl;
        },
      )

  -- Where the path leads to a file that owns the blocks `bs`, each of 64 bytes and together as large as
  -- the file's size at least, that size does not overflow 32 bits, and the bytes to write, at least one
  -- and fewer than 2^31, lie within it, osada_write ends and answers success; the file then holds the bytes from the offset
  -- on and its other bytes as before, its time is the current one, it still owns `bs`, and no other
  -- block, no other field of the file, no other file block, no bit and no entry of the mapping table
  -- changes.
  pub osada_write-Written :
      (env : Env) (path : List ℕ) (offset : ℕ) (bytes : List ℕ) (v w : Volume Bits) (pos : ℕ)
      (bs : List ℕ)
      → locate_file path v ≡ at pos w
      → Owns v pos bs
      → AreBlocks v.blocks v.data_size bs
      → 0 < length bytes
      → length bytes < 2 ^ 31
      → offset + length bytes ≤ (v.file_table pos).file_size
      → (v.file_table pos).file_size ≤ 64 * length bs
      → (v.file_table pos).file_size < 2 ^ 32
      → (u : Volume Bits) × (osada_write env path offset bytes v ≡ reply (answer osada_sexe) u)
        × Written w env.now pos offset bytes bs u
  unfolding osada_write
  osada_write-Written env path offset bytes v w pos bs here o a some int inside fits small =
      let same = locate_file-IsRelocked path v w pos here in
      let total : (w.file_table pos).file_size ≡ (v.file_table pos).file_size =
        ap (λ x. (x.file_table pos).file_size) same in
      let (u, run, k) =
        write_at-Written env pos offset bytes w bs (rw same (Owns-locks v w.locks pos bs o))
          (rw same a) some int (rw total inside) (rw total fits) (rw total small) in
      (u, rw (here, osada_write) run, k)
