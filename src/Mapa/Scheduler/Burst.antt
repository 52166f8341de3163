-- ===== src/Mapa/Scheduler/Burst.antt =====
-- The burst of round robin, ejecutarRafagaRR of planificacion.c, of a trainer that only moves.
use so_unoficial.Prelude.{
  update, ℕ, ◌+◌, ◌-◌, ◌*◌, ◌%◌, ◌^◌, ◌≡◌, false, List, [], ◌∷◌, length, ◌==◌,
}
use so_unoficial.Mapa.State.{Mapa, with_entrenador, send}
use so_unoficial.Mapa.Requests.{move}
use so_unoficial.Mapa.Requests.Captures.{times}

-- The messages OC_AVANZAR_POSICION, one byte each, with these directions.
abbrev pub moves_of : List ℕ → List ℕ
moves_of [] = []
moves_of (d ∷ ds) = 3 ∷ 1 ∷ d ∷ moves_of ds

-- The place `x` after as many steps forward and back.
abbrev pub walked : ℕ → ℕ → ℕ → ℕ
walked x forward back = (x + forward + (2 ^ 32 - 1) * back) % 2 ^ 32

-- What is left of the trainer `i` and the map once the moves `ds` are served and `more` is still to
-- be read.
pub record Moved (i : ℕ) (ds more : List ℕ) (m u : Mapa) : Type 0 where
  pub unread : u.entrada i ≡ more
  pub posx : (u.entrenador i).posx ≡ walked (m.entrenador i).posx (times 77 ds) (times 75 ds)
  pub posy : (u.entrenador i).posy ≡ walked (m.entrenador i).posy (times 80 ds) (times 72 ds)
  pub pokemons : (u.entrenador i).pokemons ≡ (m.entrenador i).pokemons
  pub others : (j : ℕ) → i == j ≡ false → u.entrenador j ≡ m.entrenador j
  pub sent : length u.salida ≡ length ds + length m.salida
  pub blocked : u.cola_bloqueados ≡ m.cola_bloqueados
  pub pokenests : u.lista_pokenests ≡ m.lista_pokenests

-- One request.
abbrev advanced : ℕ → ℕ → List ℕ → Mapa → Mapa
advanced i d stream m =
    let e = move d (m.entrenador i) in
    send i (3 ∷ 2 ∷ e.posx % 256 ∷ e.posy % 256 ∷ [])
      (with_entrenador i (λ _. e) (record m { entrada = update m.entrada i stream }))
