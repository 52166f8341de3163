-- ===== src/Osada/State.antt =====
-- osada.h and the globals of pokedex-server.c: the file table, the block maps and the locks.
-- An `int` that may be negative is its 32-bit pattern, so `-OSADA_ENOENT` is `minus 1`.
use so_unoficial.Prelude.{
  ℕ, refl, ap, zero, suc, length, ◌-◌, ◌^◌, ◌<◌, ◌≡◌, Bool, true, false, List, [], ◌∷◌, ◌==◌,
  if◌then◌else◌,
}

-- The 32-bit pattern of `-k`.
abbrev pub minus : ℕ → ℕ
minus k = 2 ^ 32 - k

abbrev pub osada_enoent : ℕ
osada_enoent = 1

abbrev pub osada_isreg : ℕ
osada_isreg = 2

abbrev pub osada_isdir : ℕ
osada_isdir = 3

abbrev pub osada_enotdir : ℕ
osada_enotdir = 4

abbrev pub osada_enospc : ℕ
osada_enospc = 5

abbrev pub osada_emptydir : ℕ
osada_emptydir = 6

abbrev pub osada_notemptydir : ℕ
osada_notemptydir = 7

abbrev pub osada_sexe : ℕ
osada_sexe = 8

abbrev pub osada_enametoolong : ℕ
osada_enametoolong = 9

abbrev pub osada_block_size : ℕ
osada_block_size = 64

abbrev pub osada_filename_length : ℕ
osada_filename_length = 17

abbrev pub file_blocks_mount : ℕ
file_blocks_mount = 2048

abbrev pub file_table_size : ℕ
file_table_size = 1024

abbrev pub root : ℕ
root = 0xffff

abbrev pub end_of_file : ℕ
end_of_file = 0xffffffff

-- osada_file_state
pub data FileState : Type 0 where
  deleted regular directory : FileState

-- osada_file. `fname` holds the OSADA_FILENAME_LENGTH bytes of the array.
pub record OsadaFile : Type 0 where
  pub state : FileState
  pub fname : List ℕ
  pub parent_directory : ℕ
  pub file_size : ℕ
  pub lastmod : ℕ
  pub first_block : ℕ

-- The t_bitarray of the commons library: its operations, and how `bitarray_test_bit` reads what
-- `bitarray_set_bit` and `bitarray_clean_bit` wrote at a position within the array.
pub record BitArray (Bits : Type 0) : Type 0 where
  pub max_bit : ℕ
  pub test_bit : Bits → ℕ → Bool
  pub set_bit : Bits → ℕ → Bits
  pub clean_bit : Bits → ℕ → Bits
  pub test_bit-set_bit :
      (b : Bits) (i j : ℕ)
      → i < max_bit
      → test_bit (set_bit b i) j ≡ (if i == j then true else test_bit b j)
  pub test_bit-clean_bit :
      (b : Bits) (i j : ℕ)
      → i < max_bit
      → test_bit (clean_bit b i) j ≡ (if i == j then false else test_bit b j)

-- LOCK_READ, LOCK_WRITE and UNLOCK
pub data LockAction : Type 0 where
  lock_read lock_write unlock : LockAction

pub record LockEvent : Type 0 where
  pub action : LockAction
  pub pos : ℕ

-- The calls on the array `locks`, the latest first.
abbrev pub LockTrace : Type 0
LockTrace = List LockEvent

-- void semaphore(int action, int pos)
unfoldable pub semaphore : LockAction → ℕ → LockTrace → LockTrace
semaphore action pos tr = record { action = action; pos = pos } ∷ tr

-- The mapped volume. `file_table`, `mapping` and `blocks` are its arrays; `map_entries` is the
-- number of entries that the mapping table holds, and `data_size` is DATA_SIZE, which the loops over
-- BM_DATA_0 to BM_DATA_1 count.
pub record Volume (Bits : Type 0) : Type 0 where
  pub file_table : ℕ → OsadaFile
  pub mapping : ℕ → ℕ
  pub bitmap : Bits
  pub blocks : ℕ → List ℕ
  pub map_entries : ℕ
  pub data_size : ℕ
  pub locks : LockTrace

-- What the environment supplies to one request: `time(NULL)`, and the bytes that fresh memory
-- happens to hold.
pub record Env : Type 0 where
  pub now : ℕ
  pub uninit : ℕ → ℕ

-- The first `n` bytes of memory from malloc.
uninit_from : (ℕ → ℕ) → ℕ → ℕ → List ℕ
uninit_from f zero i = []
uninit_from f (suc n) i = f i ∷ uninit_from f n (suc i)

pub uninit_bytes : Env → ℕ → List ℕ
unfolding uninit_from
uninit_bytes env n = uninit_from env.uninit n 0

length-uninit_from : (f : ℕ → ℕ) (n i : ℕ) → length (uninit_from f n i) ≡ n
unfolding uninit_from
length-uninit_from f zero i = refl
length-uninit_from f (suc n) i = ap suc (length-uninit_from f n (suc i))

pub length-uninit_bytes : (env : Env) (n : ℕ) → length (uninit_bytes env n) ≡ n
unfolding uninit_bytes
length-uninit_bytes env n = length-uninit_from env.uninit n 0
