-- ===== src/Mapa/State.antt =====
-- The state of mapas: nivel-test.h, and the message codes of bibliotecaCharMander.h.
use so_unoficial.Prelude.{
  update, ℕ, ◌+◌, ◌≡◌, Bool, Option, some, none, List, [], ◌∷◌, ◌==◌, if◌then◌else◌,
}

-- t_infoPokemon, with the species of its t_pokemon.
pub record InfoPokemon : Type 0 where
  pub nombre : List ℕ
  pub species : List ℕ
  pub id_pokenest : ℕ

-- PokeNest. `cantidad` is a `char`: its 8-bit pattern.
pub record PokeNest : Type 0 where
  pub id : ℕ
  pub posx : ℕ
  pub posy : ℕ
  pub cantidad : ℕ
  pub lista_pokemons : List InfoPokemon

-- t_entrenador. An `int` that may be negative is its 32-bit pattern; 0 as `pokenest_buscada` is NULL.
pub record Entrenador : Type 0 where
  pub simbolo : ℕ
  pub posx : ℕ
  pub posy : ℕ
  pub pokenest_buscada : ℕ
  pub ultimo_pokemon : ℕ
  pub pokemons : List InfoPokemon

-- The globals. The lists and queues hold pointers to trainers: a trainer is named by `id`, its
-- socket, and `entrenador` gives what the pointer leads to. `entrada` is what the trainer will send
-- until it disconnects, `salida` what was sent to sockets, the last one first.
pub record Mapa : Type 0 where
  pub entrenador : ℕ → Entrenador
  pub entrenadores : List ℕ
  pub cola_listos : List ℕ
  pub cola_bloqueados : List ℕ
  pub master : ℕ → Bool
  pub lista_pokenests : List PokeNest
  pub entrada : ℕ → List ℕ
  pub salida : List (ℕ × List ℕ)

-- How many elements of a list are of a kind.
unfoldable pub count : {A : Type 0} → (A → Bool) → List A → ℕ
count p [] = 0
count p (x ∷ xs) = (if p x then 1 else 0) + count p xs

-- What the configuration gives, and `list_sort` of the commons library, which is not in the
-- repository: it only moves the elements of the list.
pub record Env : Type 1 where
  pub quantum : ℕ
  pub ruta_mapa : List ℕ
  pub list_sort : {A : Type 0} → (A → A → Bool) → List A → List A
  pub count-list_sort :
      {A : Type 0} (p : A → Bool) (lt : A → A → Bool) (xs : List A)
      → count p (list_sort lt xs) ≡ count p xs

-- What a function comes to: its result, or a use of a null pointer or of memory that was never set
-- or is no longer held, or a loop that does not end within its fuel.
pub data Result {ℓ} (A : Type ℓ) : Type ℓ where
  done : A → Result A
  fault : Result A
  endless : Result A

abbrev pub with_entrenador : ℕ → (Entrenador → Entrenador) → Mapa → Mapa
with_entrenador i f m = record m { entrenador = update m.entrenador i (f (m.entrenador i)) }

abbrev pub send : ℕ → List ℕ → Mapa → Mapa
send i bytes m = record m { salida = (i, bytes) ∷ m.salida }

-- list_find with the PokeNest's id.
unfoldable pub buscar_pokenest : List PokeNest → ℕ → Option PokeNest
buscar_pokenest [] id = none
buscar_pokenest (n ∷ ns) id =
    let rest = buscar_pokenest ns id in if n.id == id then some n else rest

-- A change of the PokeNest that buscarPokenest finds.
unfoldable pub with_pokenest : ℕ → (PokeNest → PokeNest) → List PokeNest → List PokeNest
with_pokenest id f [] = []
with_pokenest id f (n ∷ ns) =
    let rest = with_pokenest id f ns in if n.id == id then f n ∷ ns else n ∷ rest
