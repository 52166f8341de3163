-- ===== src/Mapa/Deadlock/Retained.antt =====
-- The filter at the end of detectarDeadlock, against a description of its own.
use so_unoficial.Prelude.{ℕ, ◌≡◌, ◌⊎◌, inl, inr, Bool-cases, true, List, [], ◌∷◌, ◌==◌, arith}
use so_unoficial.Mapa.State.{InfoPokemon, Entrenador}
use so_unoficial.Mapa.Deadlock.{es_buscado, retiene_algun, filter_retienen, objetivos}

abbrev pub IsSome : {A : Type 0} → (A → Type 0) → List A → Type 0
IsSome P [] = ⊥
IsSome P (x ∷ xs) = P x ⊎ IsSome P xs

-- Some trainer of `es` looks for the PokeNest `id`.
abbrev pub IsWanted : List Entrenador → ℕ → Type 0
IsWanted es id = IsSome {A = Entrenador} (λ f. f.pokenest_buscada ≡ id) es

-- The trainer holds a pokemon of a PokeNest that some trainer of `es` looks for.
abbrev pub IsHolding : List Entrenador → Entrenador → Type 0
IsHolding es e = IsSome {A = InfoPokemon} (λ p. IsWanted es p.id_pokenest) e.pokemons

-- The second list has those of the first that satisfy `P`, in their order, and no others.
pub data Selects (P : Entrenador → Type 0) : List Entrenador → List Entrenador → Type 0 where
  nobody : Selects P [] []
  selected :
      {e : Entrenador} {es ds : List Entrenador}
      → P e
      → Selects P es ds
      → Selects P (e ∷ es) (e ∷ ds)
  left_out :
      {e : Entrenador} {es ds : List Entrenador}
      → (P e → ⊥)
      → Selects P es ds
      → Selects P (e ∷ es) ds

es_buscado-IsWanted :
    (es : List Entrenador) (id : ℕ) → es_buscado (objetivos es) id ≡ true → IsWanted es id
unfolding es_buscado objetivos
es_buscado-IsWanted [] id h = absurd (cc)
es_buscado-IsWanted (f ∷ es) id h = elim (Bool-cases (f.pokenest_buscada == id)) [
  | inl same ↦ inl (ground arith)
  | inr other ↦ inr (es_buscado-IsWanted es id (ground arith))
]

IsWanted-es_buscado :
    (es : List Entrenador) (id : ℕ) → IsWanted es id → es_buscado (objetivos es) id ≡ true
unfolding es_buscado objetivos
IsWanted-es_buscado [] id h = absurd h
IsWanted-es_buscado (f ∷ es) id (inl same) = ground arith
IsWanted-es_buscado (f ∷ es) id (inr more) =
    let rest = IsWanted-es_buscado es id more in ground (arith, rest)

retiene_algun-IsSome :
    (es : List Entrenador) (ps : List InfoPokemon)
    → retiene_algun (objetivos es) ps ≡ true
    → IsSome {A = InfoPokemon} (λ p. IsWanted es p.id_pokenest) ps
unfolding retiene_algun
retiene_algun-IsSome es [] h = absurd (cc)
retiene_algun-IsSome es (p ∷ ps) h = elim (Bool-cases (es_buscado (objetivos es) p.id_pokenest)) [
  | inl wanted ↦ inl (es_buscado-IsWanted es p.id_pokenest wanted)
  | inr other ↦ inr (retiene_algun-IsSome es ps (ground arith))
]

IsSome-retiene_algun :
    (es : List Entrenador) (ps : List InfoPokemon)
    → IsSome {A = InfoPokemon} (λ p. IsWanted es p.id_pokenest) ps
    → retiene_algun (objetivos es) ps ≡ true
unfolding retiene_algun
IsSome-retiene_algun es [] h = absurd h
IsSome-retiene_algun es (p ∷ ps) (inl wanted) =
    let here = IsWanted-es_buscado es p.id_pokenest wanted in ground (arith, here)
IsSome-retiene_algun es (p ∷ ps) (inr more) =
    let rest = IsSome-retiene_algun es ps more in ground (arith, rest)

pub filter_retienen-Selects :
    (all es : List Entrenador) → Selects (IsHolding all) es (filter_retienen (objetivos all) es)
unfolding filter_retienen
filter_retienen-Selects all [] = nobody
filter_retienen-Selects all (e ∷ es) =
    elim (Bool-cases (retiene_algun (objetivos all) e.pokemons)) [
      | inl holds ↦
          rw holds
            (selected (retiene_algun-IsSome all e.pokemons holds) (filter_retienen-Selects all es))
      | inr free ↦ rw free (
          left_out (λ h. cc (free, IsSome-retiene_algun all e.pokemons h))
            (filter_retienen-Selects all es))
    ]
