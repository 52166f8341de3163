-- ===== src/Osada/Chain.antt =====
-- The chain of blocks of one file: the pointer `aux_map_ptr` of pokedex-server.c and the loops over it.
pub mod Shape
pub mod Release
pub mod Grow
pub mod Splice
pub mod Lengthen
pub mod Files
pub mod Count
use so_unoficial.Prelude.{
  update, ℕ, zero, suc, ◌+◌, ◌-◌, Bool, true, false, ◌==◌, if◌then◌else◌, ltb,
}
use so_unoficial.Osada.State.{end_of_file, OsadaFile, BitArray, Volume}

-- What a loop over the mapping table comes to: a result, a read outside the table, or not yet an end.
pub data Run {ℓ} (A : Type ℓ) : Type ℓ where
  done : A → Run A
  fault out_of_fuel : Run A

-- An `osada_block_pointer *`: the field `first_block` of the file's node, or an entry of the mapping
-- table.
pub data Ref : Type 0 where
  head : Ref
  slot : ℕ → Ref

-- What the loops read and write: the node's `first_block`, the mapping table and the bitmap.
pub record Chain (Bits : Type 0) : Type 0 where
  pub first_block : ℕ
  pub mapping : ℕ → ℕ
  pub bitmap : Bits
  pub map_entries : ℕ

module _ {Bits : Type 0} where
  -- The chain of the file at a position of the table, and its parts put back into the volume.
  unfoldable pub open_chain : ℕ → Volume Bits → Chain Bits
  open_chain pos v = record {
    first_block = (v.file_table pos).first_block;
    mapping = v.mapping;
    bitmap = v.bitmap;
    map_entries = v.map_entries;
  }

  unfoldable pub close_chain : ℕ → Chain Bits → Volume Bits → Volume Bits
  close_chain pos c v = record v {
    file_table =
        update v.file_table pos (record (v.file_table pos) { first_block = c.first_block });
    mapping = c.mapping;
    bitmap = c.bitmap;
  }

  -- `* aux_map_ptr`
  unfoldable pub load : Chain Bits → Ref → Run ℕ
  load c head = done c.first_block
  load c (slot k) = if ltb k c.map_entries then done (c.mapping k) else fault

  -- `* aux_map_ptr = value`
  pub store : Ref → ℕ → Chain Bits → Chain Bits
  store head value c = record c { first_block = value }
  store (slot k) value c = record c { mapping = update c.mapping k value }

  -- `while (i > 0) { aux_map_ptr = map_ptr + (* aux_map_ptr); i--; }`
  unfoldable pub advance : ℕ → Ref → Chain Bits → Run Ref
  advance zero r c = done r
  advance (suc i) r c = elim (load c r) [
    | done b ↦ advance i (slot b) c
    | fault ↦ fault
    | out_of_fuel ↦ out_of_fuel
  ]

  -- `while ((* aux_map_ptr) != END_OF_FILE) { aux_map_ptr = map_ptr + (* aux_map_ptr); movs++; }`
  pub walk_end : ℕ → Ref → ℕ → Chain Bits → Run (Ref × ℕ)
  walk_end zero r movs c = out_of_fuel
  walk_end (suc fuel) r movs c = elim (load c r) [
    | done b ↦
        let rest = walk_end fuel (slot b) (movs + 1) c in
        if b == end_of_file then done (r, movs) else rest
    | fault ↦ fault
    | out_of_fuel ↦ out_of_fuel
  ]

module _ {Bits : Type 0} ⦃ops : BitArray Bits⦄ where
  -- The loop that releases the blocks behind `aux_map_ptr`.
  pub release : ℕ → Ref → Chain Bits → Run (Chain Bits)
  release zero r c = out_of_fuel
  release (suc fuel) r c = elim (load c r) [
    | done b ↦
        let rest =
          release fuel (slot b)
            (store r end_of_file (record c { bitmap = ops.clean_bit c.bitmap b })) in
        if b == end_of_file then done c else rest
    | fault ↦ fault
    | out_of_fuel ↦ out_of_fuel
  ]

-- Where a loop that adds blocks ends: what is still needed, `free_db - BM_DATA_0`, and the pointer to
-- the chain's end.
pub record Grown (Bits : Type 0) : Type 0 where
  pub need : ℕ
  pub pos : ℕ
  pub ref : Ref
  pub chain : Chain Bits

module _ {Bits : Type 0} ⦃ops : BitArray Bits⦄ where
  -- The loop that adds blocks: it stops where nothing more is needed, or at `free_db > BM_DATA_1`, with
  -- no position `left`. `step` is 1 where blocks are counted and 64 where bytes are.
  pub grow : ℕ → ℕ → ℕ → ℕ → Ref → Chain Bits → Grown Bits
  grow step zero pos need r c = record { need = need; pos = pos; ref = r; chain = c }
  grow step (suc left) pos need r c =
      let its_busy = ops.test_bit c.bitmap pos in
      let rest =
        grow step left (suc pos) (if its_busy then need else need - step)
          (if its_busy then r else slot pos)
          (if its_busy
            then c
            else store (slot pos) end_of_file
                (store r pos (record c { bitmap = ops.set_bit c.bitmap pos }))) in
      if need == 0 then record { need = need; pos = pos; ref = r; chain = c } else rest
