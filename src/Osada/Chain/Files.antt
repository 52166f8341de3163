-- ===== src/Osada/Chain/Files.antt =====
-- The chain of a file of the volume: opened, put back, and well formed.
use so_unoficial.Prelude.{update, ℕ, ◌≤◌, ◌≡◌, ap, ◌∙◌, true, List, [], ◌∷◌, length, arith}
use so_unoficial.Osada.State.{end_of_file, BitArray, Volume, OsadaFile, LockTrace}
use so_unoficial.Osada.Chain.{Ref, head, slot, Chain, load, done, open_chain, close_chain}
use so_unoficial.Osada.Chain.Shape.{IsDistinct, AllBelow, IsChain, is_in}
use so_unoficial.Osada.Chain.Splice.{AllUsed}
use so_unoficial.Osada.Chain.Count.{length-le_of_distinct}

module _ {Bits : Type 0} where
  -- A chain that is put back and opened again.
  pub open-close :
      (pos : ℕ) (c : Chain Bits) (v : Volume Bits)
      → c.map_entries ≡ v.map_entries
      → open_chain pos (close_chain pos c v) ≡ c
  unfolding open_chain close_chain
  open-close pos c v e = ground arith

module _ {Bits : Type 0} ⦃ops : BitArray Bits⦄ where
  -- The regions are large enough for the data blocks.
  pub record IsVolume (v : Volume Bits) : Type 0 where
    pub bits_fit : v.data_size ≤ ops.max_bit
    pub entries_fit : v.data_size ≤ v.map_entries
    pub codes_fit : v.data_size ≤ end_of_file

  -- The file block at `pos` owns the blocks `bs`: they are data blocks, none twice, their bits are set,
  -- and the node's `first_block` leads through them to END_OF_FILE.
  pub record Owns (v : Volume Bits) (pos : ℕ) (bs : List ℕ) : Type 0 where
    pub chain : IsChain (open_chain pos v) head bs
    pub distinct : IsDistinct bs
    pub used : AllUsed (open_chain pos v) bs
    pub below : AllBelow v.data_size bs

  pub IsVolume-locks :
      (v w : Volume Bits) → w ≡ record v { locks = w.locks } → IsVolume v → IsVolume w
  IsVolume-locks v w e f =
      rw e (record { bits_fit = f.bits_fit; entries_fit = f.entries_fit; codes_fit = f.codes_fit })

  -- A changed file block leaves the regions as they are.
  pub IsVolume-table :
      (v : Volume Bits) (t : ℕ → OsadaFile) → IsVolume v → IsVolume (record v { file_table = t })
  IsVolume-table v t f = record {
    bits_fit = f.bits_fit;
    entries_fit = f.entries_fit;
    codes_fit = f.codes_fit;
  }

  pub length-Owns :
      (v : Volume Bits) (pos : ℕ) (bs : List ℕ)
      → IsVolume v
      → Owns v pos bs
      → length bs ≤ v.map_entries
  length-Owns v pos bs f o =
      omega (arith, length-le_of_distinct v.data_size bs o.distinct o.below, f.entries_fit)

  -- The locks are no part of this.
  pub Owns-locks :
      (v : Volume Bits) (tr : LockTrace) (pos : ℕ) (bs : List ℕ)
      → Owns v pos bs
      → Owns (record v { locks = tr }) pos bs
  unfolding open_chain
  Owns-locks v tr pos bs o = record {
    chain = o.chain;
    distinct = o.distinct;
    used = o.used;
    below = o.below;
  }

  IsChain-agree :
      (v w : Volume Bits) (pos : ℕ) (r : Ref) (bs : List ℕ)
      → load (open_chain pos w) r ≡ load (open_chain pos v) r
      → ((k : ℕ)
          → is_in k bs ≡ true
          → load (open_chain pos w) (slot k) ≡ load (open_chain pos v) (slot k))
      → IsChain (open_chain pos v) r bs
      → IsChain (open_chain pos w) r bs
  IsChain-agree v w pos r [] here later h = here ∙ h
  IsChain-agree v w pos r (b ∷ bs) here later h = (
    here ∙ h.0,
    h.1,
    IsChain-agree v w pos (slot b) bs (later b (ground arith)) (λ k m. later k (ground arith)) h.2,
  )

  AllUsed-agree :
      (v w : Volume Bits) (pos : ℕ) (bs : List ℕ)
      → ((k : ℕ) → is_in k bs ≡ true → ops.test_bit w.bitmap k ≡ ops.test_bit v.bitmap k)
      → AllUsed (open_chain pos v) bs
      → AllUsed (open_chain pos w) bs
  unfolding open_chain
  AllUsed-agree v w pos [] same u = tt
  AllUsed-agree v w pos (b ∷ bs) same u =
      (same b (ground arith) ∙ u.0, AllUsed-agree v w pos bs (λ k m. same k (ground arith)) u.1)

  -- Another file keeps its blocks where a chain `c` is put back that agrees on them with the chain that
  -- was opened.
  pub Owns-other :
      (v w : Volume Bits) (c : Chain Bits) (pos j : ℕ) (cs : List ℕ)
      → w.data_size ≡ v.data_size
      → w.map_entries ≡ v.map_entries
      → w.mapping ≡ c.mapping
      → w.bitmap ≡ c.bitmap
      → c.map_entries ≡ v.map_entries
      → (w.file_table j).first_block ≡ (v.file_table j).first_block
      → ((k : ℕ) → is_in k cs ≡ true → load c (slot k) ≡ load (open_chain pos v) (slot k))
      → ((k : ℕ) → is_in k cs ≡ true → ops.test_bit c.bitmap k ≡ ops.test_bit v.bitmap k)
      → Owns v j cs
      → Owns w j cs
  unfolding open_chain load
  Owns-other v w c pos j cs size entries maps bits centries first loads tests o = record {
    chain =
        IsChain-agree v w j head cs (ap done first)
          (λ k m. ground (arith, loads k m, entries, centries, ap (λ f. f k) maps)) o.chain;
    distinct = o.distinct;
    used = AllUsed-agree v w j cs (λ k m. ap (λ b. ops.test_bit b k) bits ∙ tests k m) o.used;
    below = rw size o.below;
  }

  -- Changing other fields of a node leaves every file its blocks.
  pub Owns-node :
      (v : Volume Bits) (pos j : ℕ) (f : OsadaFile) (bs : List ℕ)
      → f.first_block ≡ (v.file_table pos).first_block
      → Owns v j bs
      → Owns (record v { file_table = update v.file_table pos f }) j bs
  unfolding open_chain
  Owns-node v pos j f bs e o =
      let same : open_chain j (record v { file_table = update v.file_table pos f })
          ≡ open_chain j v =
        ground arith in
      record { chain = rw same o.chain; distinct = o.distinct; used = o.used; below = o.below }

  -- The file whose chain is put back owns the chain's blocks.
  pub Owns-close :
      (v : Volume Bits) (pos : ℕ) (c : Chain Bits) (bs : List ℕ)
      → c.map_entries ≡ v.map_entries
      → IsChain c head bs
      → IsDistinct bs
      → AllUsed c bs
      → AllBelow v.data_size bs
      → Owns (close_chain pos c v) pos bs
  unfolding close_chain
  Owns-close v pos c bs e h d u b = record {
    chain = rw (open-close pos c v e) h;
    distinct = d;
    used = rw (open-close pos c v e) u;
    below = b;
  }
