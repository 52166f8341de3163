-- ===== src/Osada/Tests/Sample.antt =====
-- A small volume with a directory "d" and a file "f" in it.
use so_unoficial.Prelude.{
  update, c_string, ℕ, zero, suc, ◌<◌, ◌≡◌, refl, Bool, true, false, List, [], ◌∷◌, ◌==◌,
  if◌then◌else◌, ◌||◌, arith, bytes_eq,
}
use so_unoficial.Osada.State.{
  end_of_file, root, BitArray, Volume, OsadaFile, deleted, regular, directory, semaphore,
}
use so_unoficial.Osada.Names.{emit, tokens_from, tokens, is_slash, get_fname}
use so_unoficial.Osada.Table.{search_from, search_node, search_dir}
use so_unoficial.Osada.Chain.{load, open_chain}
use so_unoficial.Osada.Chain.Files.{IsVolume, Owns}
use so_unoficial.Osada.Node.{at}
use so_unoficial.Osada.File.Place.{file_from, locate_file}
use so_unoficial.Osada.Node.Frame.{volume_of}

-- A bit array as a function.
abbrev pub Flags : Type 0
Flags = ℕ → Bool

pub flags_set :
    (b : Flags) (i j : ℕ) → i < 1024 → update b i true j ≡ (if i == j then true else b j)
flags_set b i j h = refl

pub flags_clean :
    (b : Flags) (i j : ℕ) → i < 1024 → update b i false j ≡ (if i == j then false else b j)
flags_clean b i j h = refl

instance abbrev pub flags : BitArray Flags
flags = record {
  max_bit = 1024;
  test_bit = λ b i. b i;
  set_bit = λ b i. update b i true;
  clean_bit = λ b i. update b i false;
  test_bit-set_bit = flags_set;
  test_bit-clean_bit = flags_clean;
}

abbrev pub empty_file : OsadaFile
empty_file = record {
  state = deleted;
  fname = [];
  parent_directory = 0;
  file_size = 0;
  lastmod = 0;
  first_block = end_of_file;
}

abbrev pub dir_d : OsadaFile
dir_d = record empty_file {
  state = directory;
  fname = b'd' ∷ 0 ∷ [];
  parent_directory = root;
  first_block = 0;
}

-- 130 bytes in the blocks 3, 5 and 7.
abbrev pub file_f : OsadaFile
file_f = record empty_file {
  state = regular;
  fname = b'f' ∷ 0 ∷ [];
  file_size = 130;
  first_block = 3;
}

abbrev pub file_g : OsadaFile
file_g = record empty_file {
  state = regular;
  fname = b'g' ∷ 0 ∷ [];
  file_size = 7;
  first_block = 4;
}

-- `n` bytes of the value `b`.
abbrev pub filled : ℕ → ℕ → List ℕ
filled zero b = []
filled (suc n) b = b ∷ filled n b

abbrev pub sample : Volume Flags
sample = record {
  file_table = λ i.
      if i == 0 then dir_d else if i == 1 then file_f else if i == 2 then file_g else empty_file;
  mapping = λ k. if k == 3 then 5 else if k == 5 then 7 else end_of_file;
  bitmap = λ b. b == 3 || b == 4 || b == 5 || b == 7;
  blocks = λ b. filled 64 b;
  map_entries = 16;
  data_size = 10;
  locks = [];
}

-- "/d/f"
abbrev pub path_f : List ℕ
path_f = b'/' ∷ b'd' ∷ b'/' ∷ b'f' ∷ []

pub sample-IsVolume : IsVolume sample
sample-IsVolume = omega arith

pub sample-Owns : Owns sample 1 (3 ∷ 5 ∷ 7 ∷ [])
unfolding open_chain load
sample-Owns = record {
  chain = (refl, omega arith, (refl, omega arith, (refl, omega arith, refl)));
  distinct = omega arith;
  used = (refl, (refl, (refl, tt)));
  below = omega arith;
}

pub sample-Owns_other : Owns sample 2 (4 ∷ [])
unfolding open_chain load
sample-Owns_other = record {
  chain = (refl, omega arith, refl);
  distinct = omega arith;
  used = (refl, tt);
  below = omega arith;
}

unfoldable pub located : Volume Flags
unfolding locate_file
located = volume_of (locate_file path_f sample)

pub locate_file-sample : locate_file path_f sample ≡ at 1 located
unfolding located locate_file file_from search_dir search_node search_from semaphore c_string emit
    tokens_from tokens is_slash get_fname bytes_eq
locate_file-sample = refl
