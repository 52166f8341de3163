-- ===== src/Osada/Tests/Size.antt =====
-- osada_unlink and osada_truncate on the small volume.
use so_unoficial.Prelude.{ℕ, ◌≡◌, refl, List, [], ◌∷◌, ◌⊎◌, arith}
use so_unoficial.Osada.State.{Volume, osada_sexe, osada_enospc}
use so_unoficial.Osada.Chain.Files.{Owns}
use so_unoficial.Osada.Reply.{reply, answer}
use so_unoficial.Osada.File.Size.{osada_unlink, osada_truncate, necessary_blocks}
use so_unoficial.Osada.File.Size.Unlink.{Unlinked, osada_unlink-Unlinked, osada_unlink-Owns}
use so_unoficial.Osada.File.Size.Truncate.{Shrunk, osada_truncate-Shrunk, osada_truncate-Owns}
use so_unoficial.Osada.Tests.Sample.{
  Flags, flags, sample, located, path_f, sample-IsVolume, sample-Owns, locate_file-sample,
  sample-Owns_other,
}
use so_unoficial.Osada.File.Size.Extend.{Extended, osada_truncate-Extended}
use so_unoficial.Osada.File.Size.Restore.{Restored}

osada_unlink-Unlinked_example :
    (u : Volume Flags) × (osada_unlink path_f sample ≡ reply (answer osada_sexe) u)
    × Unlinked located 1 (3 ∷ 5 ∷ 7 ∷ []) u
osada_unlink-Unlinked_example =
    osada_unlink-Unlinked path_f sample located 1 (3 ∷ 5 ∷ 7 ∷ []) sample-IsVolume
      locate_file-sample sample-Owns

osada_truncate-Shrunk_example :
    (u : Volume Flags) × (osada_truncate path_f 100 sample ≡ reply (answer osada_sexe) u)
    × Shrunk located 1 100 (3 ∷ 5 ∷ []) (7 ∷ []) u
unfolding necessary_blocks
osada_truncate-Shrunk_example =
    osada_truncate-Shrunk path_f sample located 1 100 (3 ∷ 5 ∷ []) (7 ∷ []) sample-IsVolume
      locate_file-sample sample-Owns refl (omega arith)

osada_unlink-Owns_example :
    (u : Volume Flags) × (osada_unlink path_f sample ≡ reply (answer osada_sexe) u)
    × Owns u 2 (4 ∷ [])
osada_unlink-Owns_example =
    osada_unlink-Owns path_f sample located 1 (3 ∷ 5 ∷ 7 ∷ []) 2 (4 ∷ []) sample-IsVolume
      locate_file-sample sample-Owns (omega arith) (omega arith) sample-Owns_other

osada_truncate-Owns_example :
    (u : Volume Flags) × (osada_truncate path_f 100 sample ≡ reply (answer osada_sexe) u)
    × Owns u 2 (4 ∷ [])
unfolding necessary_blocks
osada_truncate-Owns_example =
    osada_truncate-Owns path_f sample located 1 100 (3 ∷ 5 ∷ []) (7 ∷ []) 2 (4 ∷ []) sample-IsVolume
      locate_file-sample sample-Owns refl (omega arith) (omega arith) (omega arith) (omega arith)
      sample-Owns_other

osada_truncate-Extended_example :
    (u : Volume Flags) × ((osada_truncate path_f 300 sample ≡ reply (answer osada_sexe) u)
        × ((bs : List ℕ) × Extended located 1 300 (3 ∷ 5 ∷ 7 ∷ []) bs u)
      ⊎ (osada_truncate path_f 300 sample ≡ reply (answer osada_enospc) u)
        × Restored located 1 (3 ∷ 5 ∷ 7 ∷ []) u)
unfolding necessary_blocks
osada_truncate-Extended_example =
    osada_truncate-Extended path_f sample located 1 300 (3 ∷ 5 ∷ 7 ∷ []) sample-IsVolume
      locate_file-sample sample-Owns refl (omega arith) (omega arith)
