-- ===== src/Osada/Table/Search.antt =====
-- What search_node and get_free_file_block return.
use so_unoficial.Prelude.{
  ℕ, zero, suc, ◌+◌, ◌≤◌, ◌<◌, ◌≡◌, ◌⊎◌, inl, inr, refl, Bool, true, false, not, ◌&&◌, ◌||◌, List,
  ◌==◌, ltb, leb, arith, Bool-cases,
}
use so_unoficial.Osada.State.{
  minus, osada_enoent, file_blocks_mount, OsadaFile, LockAction, LockTrace, Volume,
}
use so_unoficial.Osada.Table.{
  is_deleted, is_node, search_from, free_from, search_node, get_free_file_block,
}

-- The positions that search_node accepts, and those that get_free_file_block accepts.
abbrev pub is_hit : (ℕ → OsadaFile) → List ℕ → ℕ → ℕ → ℕ → Bool
is_hit table name pb_pos ignore_pos j =
    not (j == pb_pos || j == ignore_pos) && is_node name pb_pos (table j)

abbrev pub is_free : (ℕ → OsadaFile) → ℕ → ℕ → Bool
is_free table pb_pos j = not (j == pb_pos) && is_deleted (table j).state

-- `r` is the least position from `i` to `i + left` that passes the test, or `otherwise` if none does.
abbrev pub IsFirst : (ℕ → Bool) → ℕ → ℕ → ℕ → ℕ → Type 0
IsFirst test i left otherwise r =
    (r ≡ otherwise) × ((j : ℕ) → (leb i j && (ltb j (i + left) && test j)) ≡ false)
    ⊎ (i ≤ r)
      × (r < i + left)
      × (test r ≡ true)
      × ((j : ℕ) → (leb i j && (ltb j r && test j)) ≡ false)

-- One more position in front of the search.
IsFirst-step :
    (test : ℕ → Bool) (i left otherwise r : ℕ)
    → test i ≡ false
    → IsFirst test (suc i) left otherwise r
    → IsFirst test i (suc left) otherwise r
IsFirst-step test i left otherwise r e (inl (done, none_of)) = inl (
  done,
  λ j. elim (Bool-cases (j == i)) [
    | inl same ↦ ground arith
    | inr other ↦ ground (arith, none_of j)
  ],
)
IsFirst-step test i left otherwise r e (inr (lo_r, hi_r, hit, none_of)) = inr (
  omega arith,
  omega arith,
  hit,
  λ j. elim (Bool-cases (j == i)) [
    | inl same ↦ ground arith
    | inr other ↦ ground (arith, none_of j)
  ],
)

search_from-IsFirst :
    (table : ℕ → OsadaFile) (name : List ℕ) (pb_pos : ℕ) (lock_type : LockAction)
    (ignore_pos left i : ℕ) (tr : LockTrace)
    → IsFirst
        (is_hit table name pb_pos ignore_pos)
        i
        left
        (minus osada_enoent)
        (search_from table name pb_pos lock_type ignore_pos left i tr).0
unfolding search_from
search_from-IsFirst table name pb_pos lock_type ignore_pos zero i tr = inl (refl, λ j. ground arith)
search_from-IsFirst table name pb_pos lock_type ignore_pos (suc left) i tr =
    elim (Bool-cases (is_hit table name pb_pos ignore_pos i)) [
      | inl hit ↦ rw hit (inr (omega arith, omega arith, hit, λ j. ground arith))
      | inr miss ↦ rw miss (
          IsFirst-step (is_hit table name pb_pos ignore_pos) i left (minus osada_enoent) _ miss
            (search_from-IsFirst table name pb_pos lock_type ignore_pos left (suc i) _))
    ]

free_from-IsFirst :
    (table : ℕ → OsadaFile) (pb_pos left i end : ℕ) (tr : LockTrace)
    → i + left ≡ end
    → IsFirst (is_free table pb_pos) i left end (free_from table pb_pos left i tr).0
unfolding free_from
free_from-IsFirst table pb_pos zero i end tr e = inl (omega arith, λ j. ground arith)
free_from-IsFirst table pb_pos (suc left) i end tr e = elim (Bool-cases (is_free table pb_pos i)) [
  | inl hit ↦ rw hit (inr (omega arith, omega arith, hit, λ j. ground arith))
  | inr miss ↦ rw miss (
      IsFirst-step (is_free table pb_pos) i left end _ miss
        (free_from-IsFirst table pb_pos left (suc i) end _ (omega arith)))
]

module _ {Bits : Type 0} where
  -- search_node returns the lowest position, other than the directory's own and the one to ignore,
  -- whose file block is in use and has the given name and parent directory; it returns -OSADA_ENOENT
  -- exactly where no position of the table is such.
  pub search_node-IsFirst :
      (name : List ℕ) (pb_pos : ℕ) (lock_type : LockAction) (ignore_pos : ℕ) (v : Volume Bits)
      → IsFirst
          (is_hit v.file_table name pb_pos ignore_pos)
          0
          file_blocks_mount
          (minus osada_enoent)
          (search_node name pb_pos lock_type ignore_pos v).0
  unfolding search_node
  search_node-IsFirst name pb_pos lock_type ignore_pos v =
      search_from-IsFirst v.file_table name pb_pos lock_type ignore_pos file_blocks_mount 0 v.locks

  -- get_free_file_block returns the lowest position, other than the directory's own, whose file block is
  -- DELETED, or FILE_BLOCKS_MOUNT where there is none.
  pub get_free_file_block-IsFirst :
      (pb_pos : ℕ) (v : Volume Bits)
      → IsFirst
          (is_free v.file_table pb_pos)
          0
          file_blocks_mount
          file_blocks_mount
          (get_free_file_block pb_pos v).0
  unfolding get_free_file_block
  get_free_file_block-IsFirst pb_pos v =
      free_from-IsFirst v.file_table pb_pos file_blocks_mount 0 file_blocks_mount v.locks
        (omega arith)
