-- ===== src/Swap/State.antt =====
-- The globals of Swap.c, and the calls of fseek, fread and fwrite on the swap file.
pub mod Pages
use so_unoficial.Prelude.{
  ℕ, zero, suc, ◌+◌, ◌-◌, ◌*◌, ◌^◌, Bool, List, [], ◌∷◌, length, overwrite, ltb, leb, ◌==◌, min,
  if◌then◌else◌,
}

-- BitMap: one entry of the array `bitMap`. An `int` is its 32-bit pattern.
pub record Entry : Type 0 where
  pub pid : ℕ
  pub estado : ℕ

abbrev pub entry : ℕ → ℕ → Entry
entry pid estado = record { pid = pid; estado = estado }

-- -1 as a PID.
abbrev pub no_pid : ℕ
no_pid = 2 ^ 32 - 1

-- The open file: its size and the bytes in it. Bytes from `size` on are not in the file.
pub record Archivo : Type 0 where
  pub size : ℕ
  pub byte : ℕ → ℕ

-- The globals. `bit_map` also gives what lies in memory behind the entries in use.
pub record Swap : Type 0 where
  pub bit_map : ℕ → Entry
  pub archivo_swap : Archivo
  pub cant_pag : ℕ
  pub tam_pag : ℕ

-- The `n` bytes from `pos` on.
unfoldable pub bytes_at : (ℕ → ℕ) → ℕ → ℕ → List ℕ
bytes_at byte pos zero = []
bytes_at byte pos (suc n) = byte pos ∷ bytes_at byte (suc pos) n

-- `fseek(f, pos, SEEK_SET)` and `fread(buffer, n, 1, f)`: the buffer afterwards. The bytes behind the
-- end of the file are not read.
unfoldable pub read_archivo : Archivo → ℕ → ℕ → List ℕ → List ℕ
unfolding bytes_at overwrite
read_archivo f pos n buffer = overwrite buffer (bytes_at f.byte pos (min n (f.size - pos)))

unfoldable pub put_bytes : (ℕ → ℕ) → ℕ → List ℕ → ℕ → ℕ
put_bytes byte pos [] k = byte k
put_bytes byte pos (b ∷ bs) k = if k == pos then b else put_bytes byte (suc pos) bs k

-- `fseek(f, pos, SEEK_SET)` and `fwrite(bytes, length(bytes), 1, f)`. A gap behind the old end is
-- filled with zeros.
unfoldable pub write_archivo : ℕ → List ℕ → Archivo → Archivo
unfolding put_bytes
write_archivo pos [] f = f
write_archivo pos (b ∷ bs) f = record {
  size = (if leb f.size (pos + length (b ∷ bs)) then pos + length (b ∷ bs) else f.size);
  byte = put_bytes (λ k. if ltb k f.size then f.byte k else 0) pos (b ∷ bs);
}

-- `calloc(1, n)`
unfoldable pub zeros : ℕ → List ℕ
zeros zero = []
zeros (suc n) = 0 ∷ zeros n
