-- ===== src/Osada/File/Data.antt =====
-- osada_read and osada_write.
pub mod Contents
pub mod ReadLoop
pub mod Read
pub mod Bytes
pub mod Write
pub mod Store
pub mod RoundTrip
use so_unoficial.Prelude.{
  update, overwrite, le32, ℕ, zero, suc, List, [], ◌∷◌, ◌++◌, ◌==◌, if◌then◌else◌, Bool, not, ◌+◌,
  ◌-◌, ◌*◌, ◌/◌, ◌%◌, ◌^◌, ltb, leb, ◌&&◌, ◌||◌, length, take, drop,
}
use so_unoficial.Osada.State.{
  osada_enoent, osada_enospc, osada_sexe, osada_block_size, end_of_file, OsadaFile, unlock,
  BitArray, Volume, Env, uninit_bytes,
}
use so_unoficial.Osada.Geometry.{add32, sub32}
use so_unoficial.Osada.Table.{signal}
use so_unoficial.Osada.Chain.{
  Run, done, fault, out_of_fuel, Ref, head, slot, Chain, open_chain, close_chain, load, advance,
  walk_end, Grown, grow, store,
}
use so_unoficial.Osada.Reply.{Outcome, reply, undefined, answer, after}
use so_unoficial.Osada.Node.{Located, at, absent, unset, locate_node}
use so_unoficial.Osada.File.Place.{locate_file}
use so_unoficial.Osada.File.Size.{set_size, chain_fuel, no_space}

-- `n` bytes of a block from `offset` on, and a block with bytes written at `offset`.
abbrev pub slice : ℕ → ℕ → List ℕ → List ℕ
slice offset n block = take n (drop offset block)

unfoldable pub splice : ℕ → List ℕ → List ℕ → List ℕ
splice offset bytes block = take offset block ++ overwrite (drop offset block) bytes

abbrev pub prepend : List ℕ → Run (List ℕ) → Run (List ℕ)
prepend bytes (done rest) = done (bytes ++ rest)
prepend bytes fault = fault
prepend bytes out_of_fuel = out_of_fuel

module _ {Bits : Type 0} where
  -- Copying `n` bytes of block `b`; a copy from outside the data region faults.
  abbrev pub copy_from : Volume Bits → ℕ → ℕ → ℕ → Run (List ℕ)
  copy_from v b offset n =
      if n == 0
      then done []
      else if ltb b v.data_size
      then done (slice offset n (v.blocks b))
      else fault

  -- The loop of osada_read over the blocks behind the pointer, with `need` bytes to read: an int, that
  -- read_bytes lets come below 2^31 only.
  pub read_blocks : ℕ → Ref → ℕ → Chain Bits → Volume Bits → Run (List ℕ)
  read_blocks zero r need c v = out_of_fuel
  read_blocks (suc fuel) r need c v = elim (load c r) [
    | done b ↦
        let n = if leb osada_block_size need then osada_block_size else need in
        let rest = read_blocks fuel (slot b) (need - n) c v in
        let here : Run (List ℕ) = elim (copy_from v b 0 n) [
          | done bytes ↦ prepend bytes rest
          | fault ↦ fault
          | out_of_fuel ↦ out_of_fuel
        ] in
        if b == end_of_file || need == 0 then done [] else here
    | fault ↦ fault
    | out_of_fuel ↦ out_of_fuel
  ]

  -- The bytes that osada_read copies: those of the first block, at `offset` in it, then the loop.
  pub read_from : ℕ → Ref → ℕ → ℕ → Chain Bits → Volume Bits → Run (List ℕ)
  read_from fuel r offset size c v = elim (load c r) [
    | done b ↦
        let n = if leb size (osada_block_size - offset) then size else osada_block_size - offset in
        let rest = read_blocks fuel (slot b) (size - n) c v in
        elim (copy_from v b offset n) [
          | done bytes ↦ prepend bytes rest
          | fault ↦ fault
          | out_of_fuel ↦ out_of_fuel
        ]
    | fault ↦ fault
    | out_of_fuel ↦ out_of_fuel
  ]

  -- The bytes that osada_read sends. Its test compares the offset with `file_size - 1` as unsigned
  -- numbers; a chain that ends too soon leaves the rest of the buffer as malloc gave it. `bytes_to_read`,
  -- `bytes_transferred` and `response_size`, that has 5 more, are ints: where the last is 2^31 or more, it
  -- is negative, and the response is written to what malloc gives for that: undefined.
  pub read_bytes : Env → ℕ → ℕ → ℕ → Volume Bits → Run (List ℕ)
  read_bytes env pos size offset v =
      let file_size = (v.file_table pos).file_size in
      let wanted = if ltb file_size (add32 offset size) then sub32 file_size offset else size in
      let movs = offset / osada_block_size in
      let c = open_chain pos v in
      let bytes : Run (List ℕ) = elim (advance movs head c) [
        | done r ↦ elim (read_from (chain_fuel v) r (offset - osada_block_size * movs) wanted c v) [
          | done got ↦ done (overwrite (uninit_bytes env wanted) got)
          | fault ↦ fault
          | out_of_fuel ↦ out_of_fuel
        ]
        | fault ↦ fault
        | out_of_fuel ↦ out_of_fuel
      ] in
      let sent : Run (List ℕ) = if ltb (5 + wanted) (2 ^ 31) then bytes else fault in
      if ltb offset (sub32 file_size 1) then sent else done []

  -- void osada_read(int * client_socket)
  pub osada_read : Env → List ℕ → ℕ → ℕ → Volume Bits → Outcome Bits
  osada_read env path size offset v = elim (locate_node path v) [
    | at pos w ↦
        after (read_bytes env pos size offset w)
          λ bytes. reply (osada_sexe ∷ le32 (length bytes) ++ bytes) (signal unlock pos w)
    | absent w ↦ reply (answer osada_enoent) w
    | unset w ↦ undefined
  ]

  -- The loop of osada_write over the blocks, with the bytes of the buffer that are left. A write to a
  -- block outside the data region faults.
  unfoldable pub write_blocks :
      ℕ → Ref → ℕ → List ℕ → Chain Bits → ℕ → (ℕ → List ℕ) → Run (ℕ → List ℕ)
  write_blocks zero r offset bytes c data_size blocks = out_of_fuel
  write_blocks (suc fuel) r offset [] c data_size blocks = done blocks
  write_blocks (suc fuel) r offset (x ∷ xs) c data_size blocks = elim (load c r) [
    | done b ↦
        let available = osada_block_size - offset in
        let n = if leb available (length (x ∷ xs)) then available else length (x ∷ xs) in
        let blocks' = update blocks b (splice offset (take n (x ∷ xs)) (blocks b)) in
        let rest = write_blocks fuel (slot b) 0 (drop n (x ∷ xs)) c data_size blocks' in
        let next : Run (ℕ → List ℕ) = elim (load c (slot b)) [
          | done nb ↦ if nb == end_of_file then done blocks' else rest
          | fault ↦ fault
          | out_of_fuel ↦ out_of_fuel
        ] in
        if ltb b data_size then next else fault
    | fault ↦ fault
    | out_of_fuel ↦ out_of_fuel
  ]

  -- osada_write once the file is large enough: `movs` blocks on from the first, the loop, the response.
  -- `bytes_to_write` is an int: negative for 2^31 bytes or more, for which the loop is not entered.
  unfoldable pub write_bytes : ℕ → ℕ → List ℕ → Chain Bits → Volume Bits → Outcome Bits
  write_bytes pos offset bytes c v =
      let movs = offset / osada_block_size in
      after (advance movs head c) λ r. after (load c r) λ b.
        let loop =
          write_blocks (suc (length bytes)) r (offset - osada_block_size * movs) bytes c v.data_size
            v.blocks in
        after (if ltb (length bytes) (2 ^ 31) then loop else done v.blocks) λ blocks.
          reply (answer osada_sexe)
            (signal unlock pos (close_chain pos c (record v { blocks = blocks })))

module _ {Bits : Type 0} ⦃ops : BitArray Bits⦄ where
  -- The search for the first block of an empty file: `free_db - BM_DATA_0` where it stops.
  pub first_free : Bits → ℕ → ℕ → ℕ
  first_free bits zero pos = pos
  first_free bits (suc left) pos =
      let rest = first_free bits left (suc pos) in if ops.test_bit bits pos then rest else pos

  -- The chain after that search, if it found a block.
  pub first_block_at : ℕ → Chain Bits → Chain Bits
  first_block_at pos c =
      store (slot pos) end_of_file
        (record c { bitmap = ops.set_bit c.bitmap pos; first_block = pos })

  -- The rest of the branch of osada_write that expands the file to `total` bytes. The bytes still to be
  -- found room for, `total - fsize - (64 - (fsize - movs * 64))`, are an int: negative, for which the loop
  -- is not entered, where there is room already and from 2^31 on.
  pub expand : ℕ → ℕ → ℕ → ℕ → List ℕ → Chain Bits → Volume Bits → Outcome Bits
  expand pos fsize total offset bytes c v =
      after (walk_end (chain_fuel v) (slot c.first_block) 0 c) λ (r, movs).
        let missing = total - (movs * osada_block_size + osada_block_size) in
        let need = if ltb missing (2 ^ 31) then missing else 0 in
        let g = grow osada_block_size v.data_size 0 need r c in
        if leb v.data_size g.pos
        then no_space pos fsize g.chain v
        else write_bytes pos offset bytes g.chain v

  -- osada_write once the file is found, with the bytes of the buffer.
  unfoldable pub write_at : Env → ℕ → ℕ → List ℕ → Volume Bits → Outcome Bits
  write_at env pos offset bytes v0 =
      let v = record v0 {
        file_table = update v0.file_table pos (record (v0.file_table pos) { lastmod = env.now });
      } in
      let fsize = (v.file_table pos).file_size in
      let total = add32 offset (length bytes) in
      let grown = set_size pos total v in
      let c = open_chain pos v in
      let free = first_free c.bitmap v.data_size 0 in
      if ltb fsize total
      then if c.first_block == end_of_file
        then if leb v.data_size free
          then reply (answer osada_enospc) (signal unlock pos (set_size pos fsize grown))
          else expand pos fsize total offset bytes (first_block_at free c) grown
        else expand pos fsize total offset bytes c grown
      else write_bytes pos offset bytes c v

  -- void osada_write(int * client_socket)
  unfoldable pub osada_write : Env → List ℕ → ℕ → List ℕ → Volume Bits → Outcome Bits
  osada_write env path offset bytes v = elim (locate_file path v) [
    | at pos w ↦ write_at env pos offset bytes w
    | absent w ↦ reply (answer osada_enoent) w
    | unset w ↦ undefined
  ]
