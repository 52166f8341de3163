-- ===== src/Osada/Names.antt =====
-- C strings as pokedex-server.c uses them: a string without its final NUL is the list of its bytes.
pub mod Laws
use so_unoficial.Prelude.{
  c_string, overwrite, ℕ, zero, suc, ◌+◌, Bool, true, false, List, [], ◌∷◌, ◌++◌, length, take,
  drop, bytes_eq, ltb, ◌==◌, if◌then◌else◌,
}
use so_unoficial.Osada.State.{osada_filename_length}

unfoldable pub emit : List ℕ → List (List ℕ) → List (List ℕ)
emit [] rest = rest
emit (c ∷ cs) rest = (c ∷ cs) ∷ rest

-- `strtok(path, "/")` and `strtok(NULL, "/")` until NULL: the pieces between slashes, without the
-- empty ones. `word` is the piece read so far.
unfoldable pub tokens_from : List ℕ → List ℕ → List (List ℕ)
tokens_from word [] = emit word []
tokens_from word (c ∷ cs) =
    let rest = tokens_from (if c == b'/' then [] else word ++ c ∷ []) cs in
    if c == b'/' then emit word rest else rest

unfoldable pub tokens : List ℕ → List (List ℕ)
unfolding tokens_from emit
tokens path = tokens_from [] path

-- `strcmp(path, "/") == 0`
unfoldable pub is_slash : List ℕ → Bool
is_slash path = bytes_eq path (b'/' ∷ [])

-- The field after `memcpy(fname, name, strlen(name))`, with a NUL behind a name that leaves room.
unfoldable pub set_fname : List ℕ → List ℕ → List ℕ
unfolding overwrite
set_fname old name =
    overwrite old (if ltb (length name) osada_filename_length then name ++ 0 ∷ [] else name)

-- The loop of search_node and osada_readdir that copies `fname` up to its first NUL.
unfoldable pub get_fname : List ℕ → List ℕ
unfolding c_string
get_fname fname = c_string (take osada_filename_length fname)
