-- ===== src/Osada/Tests/Data.antt =====
-- osada_read and osada_write on the small volume.
use so_unoficial.Prelude.{
  c_string, overwrite, le32, ℕ, ◌≡◌, refl, List, [], ◌∷◌, ◌++◌, take, drop, min, arith, bytes_eq,
}
use so_unoficial.Osada.State.{Volume, Env, semaphore, osada_sexe, unlock}
use so_unoficial.Osada.Names.{emit, tokens_from, tokens, get_fname}
use so_unoficial.Osada.Table.{search_from, search_node, search_dir, signal}
use so_unoficial.Osada.Chain.{load, advance, open_chain, close_chain}
use so_unoficial.Osada.Reply.{Outcome, reply, silent, undefined, endless, answer}
use so_unoficial.Osada.Node.{at, locate_node, walk_nodes}
use so_unoficial.Osada.Node.Frame.{volume_of}
use so_unoficial.Osada.File.Place.{file_from, locate_file}
use so_unoficial.Osada.File.Data.{
  splice, write_blocks, write_bytes, write_at, osada_read, osada_write,
}
use so_unoficial.Osada.File.Data.Contents.{file_bytes, AreBlocks}
use so_unoficial.Osada.File.Data.Read.{osada_read-file_bytes, osada_read_last_byte}
use so_unoficial.Osada.File.Data.Store.{Written, osada_write-Written}
use so_unoficial.Osada.File.Data.RoundTrip.{osada_write-osada_read}
use so_unoficial.Osada.Tests.Sample.{
  Flags, flags, sample, located, path_f, sample-IsVolume, sample-Owns, locate_file-sample,
}

abbrev env : Env
env = record { now = 9; uninit = λ i. 7 }

sample-AreBlocks : AreBlocks sample.blocks sample.data_size (3 ∷ 5 ∷ 7 ∷ [])
sample-AreBlocks = (omega arith, refl, (omega arith, refl, (omega arith, refl, tt)))

seen : Volume Flags
unfolding locate_node
seen = volume_of (locate_node path_f sample)

locate_node-sample : locate_node path_f sample ≡ at 1 seen
unfolding seen locate_node walk_nodes search_node search_from semaphore c_string emit tokens_from
    tokens get_fname bytes_eq
locate_node-sample = refl

-- 20 bytes from byte 60 on, from two blocks.
osada_read-file_bytes_example :
    osada_read env path_f 20 60 sample
    ≡ reply
        (osada_sexe ∷ le32 (min 20 70)
          ++ take (min 20 70) (drop 60 (file_bytes sample.blocks (3 ∷ 5 ∷ 7 ∷ []))))
        (signal unlock 1 seen)
osada_read-file_bytes_example =
    osada_read-file_bytes env path_f 20 60 sample seen 1 (3 ∷ 5 ∷ 7 ∷ []) sample-IsVolume
      locate_node-sample sample-Owns sample-AreBlocks (omega arith) (omega arith) (omega arith)
      (omega arith) (omega arith)

-- Three bytes across the end of the first block.
abbrev new_bytes : List ℕ
new_bytes = 100 ∷ 101 ∷ 102 ∷ []

osada_write-Written_example :
    (u : Volume Flags) × (osada_write env path_f 62 new_bytes sample ≡ reply (answer osada_sexe) u)
    × Written located 9 1 62 new_bytes (3 ∷ 5 ∷ 7 ∷ []) u
osada_write-Written_example =
    osada_write-Written env path_f 62 new_bytes sample located 1 (3 ∷ 5 ∷ 7 ∷ []) locate_file-sample
      sample-Owns sample-AreBlocks (omega arith) (omega arith) (omega arith) (omega arith)
      (omega arith)

abbrev left_by : Outcome Flags → Volume Flags
left_by (reply bytes u) = u
left_by (silent u) = u
left_by undefined = sample
left_by endless = sample

written : Volume Flags
unfolding osada_write
written = left_by (osada_write env path_f 62 new_bytes sample)

osada_write-sample : osada_write env path_f 62 new_bytes sample ≡ reply (answer osada_sexe) written
unfolding written osada_write write_at write_bytes write_blocks splice overwrite advance load
    open_chain close_chain locate_file file_from search_dir search_node search_from semaphore
    c_string emit tokens_from tokens get_fname bytes_eq
osada_write-sample = refl

seen_again : Volume Flags
unfolding locate_node
seen_again = volume_of (locate_node path_f written)

locate_node-written : locate_node path_f written ≡ at 1 seen_again
unfolding seen_again written locate_node walk_nodes osada_write write_at write_bytes write_blocks
    splice overwrite advance load open_chain close_chain locate_file file_from search_dir
    search_node search_from semaphore c_string emit tokens_from tokens get_fname bytes_eq
locate_node-written = refl

osada_write-osada_read_example :
    osada_read env path_f 3 62 written
    ≡ reply (osada_sexe ∷ le32 3 ++ new_bytes) (signal unlock 1 seen_again)
osada_write-osada_read_example =
    osada_write-osada_read env env path_f 62 new_bytes sample located written seen_again 1
      (3 ∷ 5 ∷ 7 ∷ []) sample-IsVolume locate_file-sample sample-Owns sample-AreBlocks (omega arith)
      (omega arith) (omega arith) (omega arith) (omega arith) (omega arith) osada_write-sample
      locate_node-written

-- Byte 129, the last of the file.
osada_read_last_byte_example :
    osada_read env path_f 1 129 sample ≡ reply (osada_sexe ∷ le32 0) (signal unlock 1 seen)
unfolding seen locate_node walk_nodes search_node search_from semaphore c_string emit tokens_from
    tokens get_fname bytes_eq
osada_read_last_byte_example =
    osada_read_last_byte env path_f 1 129 sample seen 1 locate_node-sample (omega arith)
      (omega arith) (omega arith)
