-- ===== src/Osada/Node/Frame.antt =====
-- Finding a node changes nothing but the locks.
use so_unoficial.Prelude.{
  c_string, ℕ, ◌≡◌, refl, sym, ◌∙◌, ap, List, [], ◌∷◌, arith, ◌==◌, Bool-cases, inl, inr,
}
use so_unoficial.Osada.State.{Volume, lock_read, minus, osada_enoent, root}
use so_unoficial.Osada.Names.{tokens}
use so_unoficial.Osada.Table.{search_node, unlock_unless_root}
use so_unoficial.Osada.Table.Frame.{
  IsRelocked, IsRelocked-trans, search_node-IsRelocked, unlock_unless_root-IsRelocked,
}
use so_unoficial.Osada.Directory.{Walk, found, missing}
use so_unoficial.Osada.Node.{Located, at, absent, unset, walk_nodes, locate_node}

module _ {Bits : Type 0} where
  -- The volume of a result.
  abbrev pub volume_of : Located Bits → Volume Bits
  volume_of (at pos w) = w
  volume_of (absent w) = w
  volume_of (unset w) = w

  abbrev end_of : Walk Bits → Volume Bits
  end_of (found pos w) = w
  end_of (missing w) = w

  walk_nodes-IsRelocked :
      (nodes : List (List ℕ)) (pb_pos : ℕ) (v : Volume Bits)
      → IsRelocked v (end_of (walk_nodes nodes pb_pos v))
  unfolding walk_nodes
  walk_nodes-IsRelocked [] pb_pos v = refl
  walk_nodes-IsRelocked (node ∷ nodes) pb_pos v =
      let (node_pos, v1) = search_node node pb_pos lock_read pb_pos v in
      let v2 = unlock_unless_root pb_pos v1 in
      let round =
        IsRelocked-trans v v1 v2 (search_node-IsRelocked node pb_pos lock_read pb_pos v)
          (unlock_unless_root-IsRelocked pb_pos v1) in
      elim (Bool-cases (node_pos == minus osada_enoent)) [
        | inl stop ↦ rw stop round
        | inr go ↦ rw go (IsRelocked-trans v v2 _ round (walk_nodes-IsRelocked nodes node_pos v2))
      ]

  locate_from : List (List ℕ) → Volume Bits → Located Bits
  locate_from [] v = unset v
  locate_from (node ∷ nodes) v = elim (walk_nodes (node ∷ nodes) root v) [
    | found pos w ↦ at pos w
    | missing w ↦ absent w
  ]

  locate_from-IsRelocked :
      (nodes : List (List ℕ)) (v : Volume Bits) → IsRelocked v (volume_of (locate_from nodes v))
  unfolding locate_from
  locate_from-IsRelocked [] v = refl
  locate_from-IsRelocked (node ∷ nodes) v =
      ground (arith, walk_nodes-IsRelocked (node ∷ nodes) root v)

  locate_node_from :
      (path : List ℕ) (v : Volume Bits)
      → locate_node path v ≡ locate_from (tokens (c_string path)) v
  unfolding locate_node locate_from
  locate_node_from path v = split (tokens (c_string path))
    where
      split :
          (ts : List (List ℕ))
          → (elim ts [
            | [] ↦ unset v
            | node ∷ nodes ↦ elim (walk_nodes (node ∷ nodes) root v) [
              | found pos w ↦ at pos w
              | missing w ↦ absent w
            ]
          ])
            ≡ locate_from ts v
      split [] = refl
      split (t ∷ ts) = refl

  -- The node is found on the volume as it was, but for the locks.
  pub locate_node-IsRelocked :
      (path : List ℕ) (v w : Volume Bits) (pos : ℕ) → locate_node path v ≡ at pos w → IsRelocked v w
  locate_node-IsRelocked path v w pos h =
      rw (ap volume_of (sym (locate_node_from path v) ∙ h)) at
        (locate_from-IsRelocked (tokens (c_string path)) v)
