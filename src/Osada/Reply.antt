-- ===== src/Osada/Reply.antt =====
-- What a request handler of pokedex-server.c comes to, and the bytes that it sends.
use so_unoficial.Prelude.{ℕ, List, [], ◌∷◌}
use so_unoficial.Osada.State.{Volume}
use so_unoficial.Osada.Chain.{Run, done, fault, out_of_fuel}

-- `reply` sends a response; `silent` returns without one. `undefined` stands for a use of a variable
-- that was never set or an access outside the volume, `endless` for a loop that its fuel does not end.
pub data Outcome (Bits : Type 0) : Type 0 where
  reply : List ℕ → Volume Bits → Outcome Bits
  silent : Volume Bits → Outcome Bits
  undefined endless : Outcome Bits

-- A response of one byte, the code.
abbrev pub answer : ℕ → List ℕ
answer code = code ∷ []

module _ {Bits : Type 0} where
  -- To go on with the result of a loop.
  abbrev pub after {ℓ} : {A : Type ℓ} → Run A → (A → Outcome Bits) → Outcome Bits
  after (done a) k = k a
  after fault k = undefined
  after out_of_fuel k = endless
