-- ===== src/Osada/Node/Target.antt =====
-- The loop of osada_rename over the path `to`, where its last component does not exist.
use so_unoficial.Prelude.{
  ℕ, ◌^◌, ◌<◌, ◌≡◌, refl, ap, inl, inr, true, false, List, [], ◌∷◌, ◌++◌, ◌==◌, ltb, arith,
  Bool-cases,
}
use so_unoficial.Osada.State.{
  minus, osada_enoent, osada_enotdir, file_blocks_mount, OsadaFile, LockAction, lock_read, Volume,
  Env,
}
use so_unoficial.Osada.Table.{is_directory, search_node, search_dir, unlock_unless_root}
use so_unoficial.Osada.Table.Search.{is_hit, search_node-IsFirst}
use so_unoficial.Osada.Table.Frame.{
  IsRelocked, IsRelocked-trans, search_node-IsRelocked, search_dir-IsRelocked,
  unlock_unless_root-IsRelocked,
}
use so_unoficial.Osada.Node.{move_to, rename_to}

-- `d` is the first file block with that name in the directory `pb_pos`, that of `skip` left aside, and
-- is a directory.
pub record IsDirAt (table : ℕ → OsadaFile) (skip : ℕ) (name : List ℕ) (pb_pos d : ℕ) : Type 0 where
  pub in_table : d < file_blocks_mount
  pub hit : is_hit table name pb_pos skip d ≡ true
  pub first : (j : ℕ) → j < d → is_hit table name pb_pos skip j ≡ false
  pub dir : is_directory (table d).state ≡ true

-- The names lead from the directory `pb_pos` to the directory `last`.
abbrev pub Leads : (ℕ → OsadaFile) → ℕ → List (List ℕ) → ℕ → ℕ → Type 0
Leads table skip [] pb_pos last = last ≡ pb_pos
Leads table skip (name ∷ names) pb_pos last =
    (d : ℕ) × IsDirAt table skip name pb_pos d × Leads table skip names d last

-- No file block has that name in that directory.
abbrev pub IsNewName : (ℕ → OsadaFile) → ℕ → List ℕ → ℕ → Type 0
IsNewName table skip name pb_pos =
    (j : ℕ) → j < file_blocks_mount → is_hit table name pb_pos skip j ≡ false

pub Leads-small :
    (table : ℕ → OsadaFile) (skip : ℕ) (names : List (List ℕ)) (pb_pos last : ℕ)
    → pb_pos < 2 ^ 16
    → Leads table skip names pb_pos last
    → last < 2 ^ 16
Leads-small table skip [] pb_pos last small same = omega arith
Leads-small table skip (name ∷ names) pb_pos last small (d, is, more) =
    Leads-small table skip names d last (omega (arith, is.in_table)) more

module _ {Bits : Type 0} where
  search_node_new :
      (name : List ℕ) (pb_pos : ℕ) (lock_type : LockAction) (skip : ℕ) (v : Volume Bits)
      → IsNewName v.file_table skip name pb_pos
      → (search_node name pb_pos lock_type skip v).0 ≡ minus osada_enoent
  search_node_new name pb_pos lock_type skip v new =
      elim (search_node-IsFirst name pb_pos lock_type skip v) [
        | inl (e, h) ↦ e
        | inr (low, high, hit, h) ↦ absurd (cc (hit, new _ high))
      ]

  search_node_dir :
      (name : List ℕ) (pb_pos : ℕ) (lock_type : LockAction) (skip : ℕ) (v : Volume Bits) (d : ℕ)
      → IsDirAt v.file_table skip name pb_pos d
      → (search_node name pb_pos lock_type skip v).0 ≡ d
  search_node_dir name pb_pos lock_type skip v d is =
      let r = (search_node name pb_pos lock_type skip v).0 in
      elim (search_node-IsFirst name pb_pos lock_type skip v) [
        | inl (e, h) ↦ absurd (ground (arith, h d, is.hit, is.in_table))
        | inr (low, high, hit, h) ↦ elim (Bool-cases (ltb r d)) [
          | inl before ↦ absurd (cc (hit, is.first r (ground arith)))
          | inr behind ↦ elim (Bool-cases (ltb d r)) [
            | inl after ↦ absurd (ground (arith, h d, is.hit))
            | inr same ↦ ground arith
          ]
        ]
      ]

  search_dir_new :
      (name : List ℕ) (pb_pos : ℕ) (lock_type : LockAction) (skip : ℕ) (v : Volume Bits)
      → IsNewName v.file_table skip name pb_pos
      → (search_dir name pb_pos lock_type skip v).0 ≡ minus osada_enotdir
  unfolding search_dir
  search_dir_new name pb_pos lock_type skip v new =
      let e = search_node_new name pb_pos lock_type skip v new in rw e refl

  search_dir_dir :
      (name : List ℕ) (pb_pos : ℕ) (lock_type : LockAction) (skip : ℕ) (v : Volume Bits) (d : ℕ)
      → IsDirAt v.file_table skip name pb_pos d
      → (search_dir name pb_pos lock_type skip v).0 ≡ d
  unfolding search_dir
  search_dir_dir name pb_pos lock_type skip v d is =
      let e = search_node_dir name pb_pos lock_type skip v d is in
      let there : (d == minus osada_enoent) ≡ false = ground (arith, is.in_table) in
      let directory = is.dir in rw (e, there, directory) refl

  rename_to_last :
      (env : Env) (from_pos : ℕ) (name : List ℕ) (pb_pos : ℕ) (v : Volume Bits)
      → IsNewName v.file_table from_pos name pb_pos
      → (w : Volume Bits) × (rename_to env from_pos (name ∷ []) pb_pos v
          ≡ move_to from_pos name pb_pos w)
        × IsRelocked v w
  unfolding rename_to
  rename_to_last env from_pos name pb_pos v new =
      let v1 = (search_dir name pb_pos lock_read from_pos v).1 in
      let v3 = (search_node name pb_pos lock_read from_pos v1).1 in
      let same : v1.file_table ≡ v.file_table =
        ap (λ x. x.file_table) (search_dir-IsRelocked name pb_pos lock_read from_pos v) in
      let e = search_dir_new name pb_pos lock_read from_pos v new in
      let e' = search_node_new name pb_pos lock_read from_pos v1 (rw same new) in
      (
        unlock_unless_root pb_pos v3,
        rw (e, e') refl,
        IsRelocked-trans v v1 _ (search_dir-IsRelocked name pb_pos lock_read from_pos v) (
            IsRelocked-trans v1 v3 _ (search_node-IsRelocked name pb_pos lock_read from_pos v1)
              (unlock_unless_root-IsRelocked pb_pos v3)),
      )

  -- Past the directories, the loop comes to move_to on a volume that differs in its locks only.
  pub rename_to_new :
      (env : Env) (from_pos : ℕ) (names : List (List ℕ)) (name : List ℕ) (pb_pos last : ℕ)
      (v : Volume Bits)
      → Leads v.file_table from_pos names pb_pos last
      → IsNewName v.file_table from_pos name last
      → (w : Volume Bits) × (rename_to env from_pos (names ++ name ∷ []) pb_pos v
          ≡ move_to from_pos name last w)
        × IsRelocked v w
  unfolding rename_to
  rename_to_new env from_pos [] name pb_pos last v same new =
      rw same (rename_to_last env from_pos name pb_pos v (rw same at new))
  rename_to_new env from_pos (n ∷ names) name pb_pos last v (d, is, more) new =
      let v1 = (search_dir n pb_pos lock_read from_pos v).1 in
      let v2 = unlock_unless_root pb_pos v1 in
      let round =
        IsRelocked-trans v v1 v2 (search_dir-IsRelocked n pb_pos lock_read from_pos v)
          (unlock_unless_root-IsRelocked pb_pos v1) in
      let table : v2.file_table ≡ v.file_table = ap (λ x. x.file_table) round in
      let e = search_dir_dir n pb_pos lock_read from_pos v d is in
      let there : (d == minus osada_enotdir) ≡ false = ground (arith, is.in_table) in
      let (w, run, same) =
        rename_to_new env from_pos names name d last v2 (rw table more) (rw table new) in
      (w, rw (e, there) run, IsRelocked-trans v v2 w round same)
