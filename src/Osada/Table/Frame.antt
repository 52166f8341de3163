-- ===== src/Osada/Table/Frame.antt =====
-- The searches of the file table change nothing but the locks.
use so_unoficial.Prelude.{ℕ, ◌≡◌, refl, List, arith}
use so_unoficial.Osada.State.{LockAction, Volume}
use so_unoficial.Osada.Table.{search_node, search_dir, unlock_unless_root}

module _ {Bits : Type 0} where
  -- `w` is `v` but for its locks.
  abbrev pub IsRelocked : Volume Bits → Volume Bits → Type 0
  IsRelocked v w = w ≡ record v { locks = w.locks }

  pub IsRelocked-trans : (u v w : Volume Bits) → IsRelocked u v → IsRelocked v w → IsRelocked u w
  IsRelocked-trans u v w p q = ground arith

  pub search_node-IsRelocked :
      (name : List ℕ) (pb_pos : ℕ) (lock_type : LockAction) (ignore_pos : ℕ) (v : Volume Bits)
      → IsRelocked v (search_node name pb_pos lock_type ignore_pos v).1
  unfolding search_node
  search_node-IsRelocked name pb_pos lock_type ignore_pos v = refl

  pub search_dir-IsRelocked :
      (name : List ℕ) (pb_pos : ℕ) (lock_type : LockAction) (ignore_pos : ℕ) (v : Volume Bits)
      → IsRelocked v (search_dir name pb_pos lock_type ignore_pos v).1
  unfolding search_dir
  search_dir-IsRelocked name pb_pos lock_type ignore_pos v =
      ground (arith, search_node-IsRelocked name pb_pos lock_type ignore_pos v)

  pub unlock_unless_root-IsRelocked :
      (pos : ℕ) (v : Volume Bits) → IsRelocked v (unlock_unless_root pos v)
  unlock_unless_root-IsRelocked pos v = ground arith
