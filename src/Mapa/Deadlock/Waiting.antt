-- ===== src/Mapa/Deadlock/Waiting.antt =====
-- The arrays of detectarDeadlock where every trainer waits.
use so_unoficial.Prelude.{
  ℕ, zero, suc, ◌≡◌, refl, ap, inl, inr, Bool, Bool-cases, true, false, Option, some, none, List,
  [], ◌∷◌, length, ltb, ◌==◌, arith,
}
use so_unoficial.Mapa.State.{PokeNest, Entrenador, buscar_pokenest}
use so_unoficial.Mapa.Deadlock.{first_request, row_of}

-- The PokeNest that the trainer looks for, the first one with that id, has no pokemon left.
abbrev pub IsWaiting : List PokeNest → Entrenador → Type 0
IsWaiting ns e =
    (n : PokeNest) × (buscar_pokenest ns e.pokenest_buscada ≡ some n) × (n.cantidad ≡ 0)

abbrev pub AllWaiting : List PokeNest → List Entrenador → Type 0
AllWaiting ns [] = Unit
AllWaiting ns (e ∷ es) = IsWaiting ns e × AllWaiting ns es

-- The requests of a trainer that looks for `id`, and a value of each PokeNest.
abbrev pub asks : ℕ → List PokeNest → ℕ → Bool
asks id ns j = row_of (λ n _. n.id == id) (λ _. false) ns j 0

abbrev pub value_at : (PokeNest → ℕ) → List PokeNest → ℕ → ℕ
value_at f ns j = row_of (λ n _. f n) (λ _. 0) ns j 0

first_request-suc :
    (row : ℕ → Bool) (left j : ℕ)
    → first_request row left (suc j) ≡ suc (first_request (λ k. row (suc k)) left j)
unfolding first_request
first_request-suc row zero j = refl
first_request-suc row (suc left) j =
    let rest = first_request-suc row left (suc j) in ground (arith, rest)

abbrev value_or_zero : (PokeNest → ℕ) → Option PokeNest → ℕ
value_or_zero f none = 0
value_or_zero f (some n) = f n

-- The first request of the row is that PokeNest.
pub first_request-found :
    (f : PokeNest → ℕ) (id : ℕ) (ns : List PokeNest) (n : PokeNest)
    → buscar_pokenest ns id ≡ some n
    → let j : ℕ = first_request (asks id ns) (length ns) 0 in
      (ltb j (length ns) ≡ true) × (value_at f ns j ≡ f n)
unfolding buscar_pokenest first_request row_of
first_request-found f id [] n h = absurd (cc)
first_request-found f id (m ∷ ns) n h = elim (Bool-cases (m.id == id)) [
  | inl same ↦ rw same (ground arith, ap (value_or_zero f) (rw same at h))
  | inr other ↦
      let (small, value) = first_request-found f id ns n (ground (arith, h)) in
      rw (other, first_request-suc (asks id (m ∷ ns)) (length ns) 0) (ground (arith, small), value)
]
