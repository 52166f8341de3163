-- ===== src/Osada/File/Size.antt =====
-- osada_truncate and osada_unlink.
pub mod Cut
pub mod Unlink
pub mod Truncate
pub mod Restore
pub mod Extend
use so_unoficial.Prelude.{
  update, ℕ, suc, List, [], ◌∷◌, ◌==◌, if◌then◌else◌, Bool, not, ◌+◌, ◌-◌, ◌*◌, ◌/◌, ◌%◌, ◌^◌, ltb,
  leb, ◌&&◌, ◌||◌,
}
use so_unoficial.Osada.State.{
  osada_enoent, osada_enospc, osada_sexe, osada_block_size, root, OsadaFile, FileState, deleted,
  unlock, BitArray, Volume,
}
use so_unoficial.Osada.Table.{signal}
use so_unoficial.Osada.Chain.{
  Run, done, Ref, head, slot, Chain, open_chain, close_chain, advance, walk_end, release, Grown,
  grow,
}
use so_unoficial.Osada.Reply.{Outcome, reply, undefined, answer, after}
use so_unoficial.Osada.Node.{at, absent, unset}
use so_unoficial.Osada.File.Place.{locate_file}

-- `necessary_blocks` for a size.
unfoldable pub necessary_blocks : ℕ → ℕ
necessary_blocks size =
    let blocks = size / osada_block_size in
    if ltb 0 size && (blocks == 0 || leb 1 (size % osada_block_size)) then blocks + 1 else blocks

-- `necessary_blocks` for a size that is an int: not above 0 for the sizes from 2^31 on, that are negative.
unfoldable pub necessary_of_int : ℕ → ℕ
unfolding necessary_blocks
necessary_of_int size = if ltb size (2 ^ 31) then necessary_blocks size else 0

module _ {Bits : Type 0} where
  -- `node_ptr->file_size = size` and `node_ptr->state = DELETED`
  abbrev pub set_size : ℕ → ℕ → Volume Bits → Volume Bits
  set_size pos size v = record v {
    file_table = update v.file_table pos (record (v.file_table pos) { file_size = size });
  }

  abbrev pub set_deleted : ℕ → Volume Bits → Volume Bits
  set_deleted pos v = record v {
    file_table = update v.file_table pos (record (v.file_table pos) { state = deleted });
  }

  -- A bound on the rounds of a loop along the mapping table: the entries, the node's own pointer and
  -- the round that finds END_OF_FILE.
  abbrev pub chain_fuel : Volume Bits → ℕ
  chain_fuel v = suc (suc v.map_entries)

module _ {Bits : Type 0} ⦃ops : BitArray Bits⦄ where
  -- Keep the first `blocks` blocks of a chain and release the others.
  pub cut : ℕ → ℕ → Chain Bits → Run (Chain Bits)
  cut fuel blocks c = elim (advance blocks head c) [
    | done r ↦ release fuel r c
    | Run.fault ↦ Run.fault
    | Run.out_of_fuel ↦ Run.out_of_fuel
  ]

  -- The end of osada_write and osada_truncate where the volume is full: the size and the chain go back to
  -- those of the old size, which both keep as an int: from 2^31 on every block of the file is released.
  pub no_space : ℕ → ℕ → Chain Bits → Volume Bits → Outcome Bits
  no_space pos old_size c v = after (cut (chain_fuel v) (necessary_of_int old_size) c) λ c'.
      reply (answer osada_enospc) (signal unlock pos (close_chain pos c' (set_size pos old_size v)))

  -- The end of both where all went well.
  pub success : ℕ → Chain Bits → Volume Bits → Outcome Bits
  success pos c v = reply (answer osada_sexe) (signal unlock pos (close_chain pos c v))

  -- The branch of osada_truncate that adds blocks behind the chain's end `r`. `free_db > BM_DATA_1`
  -- is `data_size ≤ g.pos`.
  pub extend : ℕ → ℕ → ℕ → Ref → Chain Bits → Volume Bits → Outcome Bits
  extend pos old_size blocks r c v =
      let g = grow 1 v.data_size 0 blocks r c in
      if leb v.data_size g.pos then no_space pos old_size g.chain v else success pos g.chain v

  -- osada_truncate once the file is found; `v` has the new size already.
  pub resize : ℕ → ℕ → ℕ → Volume Bits → Outcome Bits
  resize pos old_size new_size v =
      let c = open_chain pos v in
      after (walk_end (chain_fuel v) head 0 c) λ (r, current).
        let necessary = necessary_blocks new_size in
        if ltb old_size new_size && ltb current necessary
        then extend pos old_size (necessary - current) r c v
        else if ltb new_size old_size && ltb necessary current
        then after (cut (chain_fuel v) necessary c) (λ c'. success pos c' v)
        else success pos c v

  -- void osada_truncate(int * client_socket)
  pub osada_truncate : List ℕ → ℕ → Volume Bits → Outcome Bits
  osada_truncate path new_size v = elim (locate_file path v) [
    | at pos w ↦
        let old_size = (w.file_table pos).file_size in
        let w' = set_size pos new_size w in
        if new_size == old_size
        then reply (answer osada_sexe) (signal unlock pos w')
        else resize pos old_size new_size w'
    | absent w ↦ reply (answer osada_enoent) w
    | unset w ↦ undefined
  ]

  -- osada_unlink once the file is found.
  pub remove_file : ℕ → Volume Bits → Outcome Bits
  remove_file pos v =
      after (release (chain_fuel v) head (open_chain pos v))
        λ c. reply (answer osada_sexe) (signal unlock pos (set_deleted pos (close_chain pos c v)))

  -- void osada_unlink(int * client_socket)
  pub osada_unlink : List ℕ → Volume Bits → Outcome Bits
  osada_unlink path v = elim (locate_file path v) [
    | at pos w ↦ remove_file pos w
    | absent w ↦ reply (answer osada_enoent) w
    | unset w ↦ undefined
  ]
