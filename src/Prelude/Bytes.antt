-- ===== src/Prelude/Bytes.antt =====
-- C strings, memcpy into a buffer, and the bytes of a uint32_t.
use Prim.Native.Nat.{ℕ, ◌+◌, ◌*◌, ◌/◌, ◌%◌}
use mathlib.Core.List.{List, [], ◌∷◌, ◌++◌}
use so_unoficial.Prelude.Tests.{◌==◌, if◌then◌else◌}
use so_unoficial.Prelude.Lists.{length, drop}

-- The C string at the start of a buffer: the bytes before the first NUL.
unfoldable pub c_string : List ℕ → List ℕ
c_string [] = []
c_string (c ∷ cs) = if c == 0 then [] else c ∷ c_string cs

-- `memcpy(old, new, length(new))`
unfoldable pub overwrite : List ℕ → List ℕ → List ℕ
overwrite old new = new ++ drop (length new) old

-- The bytes of a uint32_t, lowest first.
unfoldable pub le32 : ℕ → List ℕ
le32 n = n % 256 ∷ n / 256 % 256 ∷ n / 65536 % 256 ∷ n / 16777216 % 256 ∷ []

-- The value of a uint32_t field, lowest byte first.
unfoldable pub value32 : List ℕ → ℕ
value32 [] = 0
value32 (x ∷ xs) = x + 256 * value32 xs
