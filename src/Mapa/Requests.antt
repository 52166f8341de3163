-- ===== src/Mapa/Requests.antt =====
-- connection_recv and atenderSolicitud of solicitudes.c.
pub mod Captures
use so_unoficial.Prelude.{
  update, ℕ, zero, suc, ◌+◌, ◌-◌, ◌^◌, ◌%◌, Bool, true, false, Option, some, none, List, [], ◌∷◌,
  ◌++◌, length, take, drop, ◌==◌, ltb, ◌||◌, if◌then◌else◌,
}
use so_unoficial.Mapa.State.{
  InfoPokemon, PokeNest, Entrenador, Mapa, Env, Result, done, fault, with_entrenador, send,
  buscar_pokenest, with_pokenest,
}

-- What connection_recv comes to, with the bytes that follow: 0, a code with its message, or a code
-- that it does not know, whose message it neither reads nor sets.
pub data Received : Type 0 where
  disconnected : Received
  message : ℕ → List ℕ → List ℕ → Received
  no_message : ℕ → List ℕ → Received

-- The message of `size` bytes. A text gets a NUL behind it, and may be empty.
unfoldable pub receive_message : Bool → ℕ → ℕ → List ℕ → Received
receive_message is_text op zero stream =
    if is_text then message op (0 ∷ []) stream else disconnected
receive_message is_text op (suc n) [] = disconnected
receive_message is_text op (suc n) (b ∷ bs) =
    message op (take (suc n) (b ∷ bs) ++ (if is_text then 0 ∷ [] else [])) (drop (suc n) (b ∷ bs))

-- The codes of the two groups of cases.
abbrev pub is_coordinates : ℕ → Bool
is_coordinates op = op == 5 || op == 6

abbrev pub is_known_text : ℕ → Bool
is_known_text op =
    op == 1
    || op == 2
    || op == 3
    || op == 13
    || op == 4
    || op == 7
    || op == 8
    || op == 14
    || op == 0

unfoldable pub connection_recv : List ℕ → Received
unfolding receive_message
connection_recv [] = disconnected
connection_recv (op ∷ []) = disconnected
connection_recv (op ∷ size ∷ stream) =
    if is_coordinates op
    then receive_message false op size stream
    else if is_known_text op
    then receive_message true op size stream
    else no_message op stream

-- DESCONEXION, TURNO_NORMAL, CAPTURO_POKEMON and NO_ENCONTRO_POKEMON.
pub data Respuesta : Type 0 where
  desconexion : Respuesta
  turno_normal : Respuesta
  capturo_pokemon : Respuesta
  no_encontro_pokemon : Respuesta

-- The first byte of the message.
unfoldable pub first_byte : List ℕ → ℕ
first_byte [] = 0
first_byte (b ∷ bs) = b

-- The inner switch of OC_AVANZAR_POSICION: MOVE_UP, MOVE_DOWN, MOVE_RIGHT and MOVE_LEFT.
unfoldable pub move : ℕ → Entrenador → Entrenador
move direction e =
    if direction == 72
    then record e { posy = (e.posy + 2 ^ 32 - 1) % 2 ^ 32 }
    else if direction == 80
    then record e { posy = (e.posy + 1) % 2 ^ 32 }
    else if direction == 77
    then record e { posx = (e.posx + 1) % 2 ^ 32 }
    else if direction == 75
    then record e { posx = (e.posx + 2 ^ 32 - 1) % 2 ^ 32 }
    else e

unfoldable pub compare_bytes : List ℕ → List ℕ → Bool
compare_bytes [] ys = false
compare_bytes (x ∷ xs) [] = false
compare_bytes (x ∷ xs) (y ∷ ys) = let rest = compare_bytes xs ys in if x == y then rest else ltb x y

-- comparar_strings of bibliotecaCharMander.c as a test. For strings of two lengths it gives strcmp's
-- result, which is not 0; for equal strings it returns no value.
unfoldable pub comparar_strings : List ℕ → List ℕ → Bool
unfolding compare_bytes
comparar_strings xs ys = if length xs == length ys then compare_bytes xs ys else true

-- buscarPrimerPokemon: the list after list_sort, and its first element taken out.
unfoldable pub remove_first : List InfoPokemon → Option (InfoPokemon × List InfoPokemon)
remove_first [] = none
remove_first (p ∷ ps) = some (p, ps)

unfoldable pub buscar_primer_pokemon :
    Env → List InfoPokemon → Option (InfoPokemon × List InfoPokemon)
unfolding remove_first comparar_strings
buscar_primer_pokemon env ps =
    remove_first (env.list_sort (λ p q. comparar_strings p.nombre q.nombre) ps)

-- The path of the pokemon's file, as notificar_captura_pokemon makes it.
unfoldable pub ruta_pokemon : Env → InfoPokemon → List ℕ
ruta_pokemon env p =
    env.ruta_mapa
    ++ b'/' ∷ b'P' ∷ b'o' ∷ b'k' ∷ b'e' ∷ b'N' ∷ b'e' ∷ b's' ∷ b't' ∷ b's' ∷ b'/' ∷ p.species
    ++ b'/' ∷ p.nombre

unfoldable pub notificar_captura_pokemon : Env → InfoPokemon → ℕ → Mapa → Mapa
unfolding ruta_pokemon
notificar_captura_pokemon env p i m =
    let ruta = ruta_pokemon env p in
    let size = length ruta % 256 in
    with_entrenador i (λ e. record e { pokenest_buscada = 0 })
      (send i (14 ∷ size ∷ take size ruta) m)

unfoldable pub ubicar_pokenest : ℕ → ℕ → Mapa → Result (Respuesta × Mapa)
unfolding buscar_pokenest
ubicar_pokenest i id m = elim (buscar_pokenest m.lista_pokenests id) [
  | none ↦ fault
  | some n ↦ done (
    turno_normal,
    with_entrenador i (λ e. record e { pokenest_buscada = id })
        (send i (5 ∷ 2 ∷ n.posx % 256 ∷ n.posy % 256 ∷ []) m),
  )
]

unfoldable pub avanzar_posicion : ℕ → ℕ → Mapa → Result (Respuesta × Mapa)
unfolding move
avanzar_posicion i direction m =
    let moved = move direction (m.entrenador i) in
    done (
      turno_normal,
      send i (3 ∷ 2 ∷ moved.posx % 256 ∷ moved.posy % 256 ∷ []) (with_entrenador i (λ _. moved) m),
    )

-- What capturing does to the PokeNest: the list without the pokemon, and `cantidad--`.
abbrev pub without : List InfoPokemon → PokeNest → PokeNest
without rest n = record n { lista_pokemons = rest; cantidad = (n.cantidad + 255) % 256 }

abbrev pub with_pokemon : InfoPokemon → Entrenador → Entrenador
with_pokemon p e = record e { pokemons = e.pokemons ++ p ∷ [] }

unfoldable pub atrapar :
    Env → ℕ → ℕ → Option (InfoPokemon × List InfoPokemon) → Mapa → Respuesta × Mapa
unfolding with_pokenest notificar_captura_pokemon
atrapar env i id none m = (no_encontro_pokemon, m)
atrapar env i id (some (p, rest)) m = (
  capturo_pokemon,
  notificar_captura_pokemon env p i (record (with_entrenador i (with_pokemon p) m) {
    lista_pokenests = with_pokenest id (without rest) m.lista_pokenests;
  }),
)

unfoldable pub atrapar_pokemon : Env → ℕ → ℕ → Mapa → Result (Respuesta × Mapa)
unfolding buscar_pokenest buscar_primer_pokemon atrapar
atrapar_pokemon env i id m = elim (buscar_pokenest m.lista_pokenests id) [
  | none ↦ fault
  | some n ↦ done (atrapar env i id (buscar_primer_pokemon env n.lista_pokemons) m)
]

-- The switch of atenderSolicitud for a code that connection_recv knows. OC_ATRAPAR_ULTIMO_POKEMON is
-- not one of them.
unfoldable pub atender_codigo : Env → ℕ → ℕ → ℕ → Mapa → Result (Respuesta × Mapa)
unfolding ubicar_pokenest avanzar_posicion atrapar_pokemon
atender_codigo env i op b m =
    if op == 1
    then ubicar_pokenest i b m
    else if op == 3
    then avanzar_posicion i b m
    else if op == 4
    then atrapar_pokemon env i b m
    else done (turno_normal, m)

-- atenderSolicitud. With a code that connection_recv does not know, every case uses or frees the
-- pointer `buffer`, which was not set.
unfoldable pub atender_solicitud : Env → ℕ → Mapa → Result (Respuesta × Mapa)
unfolding connection_recv first_byte atender_codigo
atender_solicitud env i m = elim (connection_recv (m.entrada i)) [
  | disconnected ↦ done (desconexion, record m { entrada = update m.entrada i [] })
  | message op bytes stream ↦
      atender_codigo env i op (first_byte bytes) (record m { entrada = update m.entrada i stream })
  | no_message op stream ↦ fault
]
