-- ===== src/Osada/Tests/Requests.antt =====
-- osada_readdir and osada_rename at examples.
use so_unoficial.Prelude.{
  zero, suc, bytes_eq, c_string, ℕ, ◌≡◌, refl, true, not, ◌&&◌, List, [], ◌∷◌, ◌==◌, if◌then◌else◌,
  arith,
}
use so_unoficial.Osada.State.{semaphore, root, Volume, Env, osada_sexe}
use so_unoficial.Osada.Table.{is_node, search_from, search_node, search_dir}
use so_unoficial.Osada.Names.{emit, tokens_from, tokens, is_slash, get_fname}
use so_unoficial.Osada.Reply.{reply, answer}
use so_unoficial.Osada.Directory.{Walk, found, missing, read_children}
use so_unoficial.Osada.Directory.Listing.{Releases, read_children-Releases}
use so_unoficial.Osada.Node.{walk_from, osada_rename}
use so_unoficial.Osada.Node.Target.{Leads, IsNewName}
use so_unoficial.Osada.Node.Rename.{osada_rename-is_node}
use so_unoficial.Osada.Tests.Sample.{Flags, flags, sample, file_f, path_f}

abbrev env : ℕ → Env
env n = record { now = n; uninit = λ i. 7 }

read_children-Releases_example :
    (bytes : List ℕ) × (u : Volume Flags) × (read_children 0 sample ≡ reply bytes u)
    × Releases 1 [] u.locks (if 1 == 0 && not (0 == root) then 1 else 0)
    × (u.file_table ≡ sample.file_table)
read_children-Releases_example = read_children-Releases 0 sample 1

abbrev old_name : List ℕ
old_name = b'f' ∷ 0 ∷ 0 ∷ 0 ∷ 0 ∷ 0 ∷ 0 ∷ 0 ∷ 0 ∷ 0 ∷ 0 ∷ 0 ∷ 0 ∷ 0 ∷ 0 ∷ 0 ∷ 0 ∷ []

abbrev to_rename : Volume Flags
to_rename = record sample {
  file_table = λ i. if i == 1 then record file_f { fname = old_name } else sample.file_table i;
}

-- "/d/h"
abbrev path_h : List ℕ
path_h = b'/' ∷ b'd' ∷ b'/' ∷ b'h' ∷ []

d-Leads : Leads to_rename.file_table 1 ((b'd' ∷ []) ∷ []) root 0
unfolding bytes_eq get_fname
d-Leads = (
  0,
  record { in_table = omega arith; hit = refl; first = λ j h. absurd (omega arith); dir = refl },
  refl,
)

h-IsNewName : IsNewName to_rename.file_table 1 (b'h' ∷ []) 0
unfolding bytes_eq get_fname
h-IsNewName zero small = refl
h-IsNewName (suc zero) small = refl
h-IsNewName (suc (suc zero)) small = refl
h-IsNewName (suc (suc (suc j))) small = ground arith

walked : Walk Flags
unfolding walk_from
walked = walk_from ((b'd' ∷ []) ∷ (b'f' ∷ []) ∷ []) root to_rename

abbrev volume_at : Walk Flags → Volume Flags
volume_at (found pos w) = w
volume_at (missing w) = w

walked_to : walk_from ((b'd' ∷ []) ∷ (b'f' ∷ []) ∷ []) root to_rename ≡ found 1 (volume_at walked)
unfolding walked walk_from search_dir search_node search_from semaphore bytes_eq get_fname
walked_to = refl

osada_rename-is_node_example :
    (u : Volume Flags) × (osada_rename (env 3) path_f path_h to_rename
      ≡ reply (answer osada_sexe) u)
    × (is_node (b'h' ∷ []) 0 (u.file_table 1) ≡ true)
    × ((j : ℕ)
        → u.file_table j ≡ (
            if 1 == j
            then record (to_rename.file_table j) {
              fname = (u.file_table j).fname;
              parent_directory = 0;
            }
            else to_rename.file_table j))
    × (u.mapping ≡ to_rename.mapping)
    × (u.bitmap ≡ to_rename.bitmap)
    × (u.blocks ≡ to_rename.blocks)
unfolding c_string emit tokens_from tokens is_slash
osada_rename-is_node_example =
    osada_rename-is_node (env 3) path_f path_h to_rename (volume_at walked) (b'd' ∷ [])
      ((b'f' ∷ []) ∷ []) ((b'd' ∷ []) ∷ []) (b'h' ∷ []) 1 0 refl walked_to refl d-Leads h-IsNewName
      refl (omega arith) (omega arith) refl
