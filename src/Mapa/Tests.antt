-- ===== src/Mapa/Tests.antt =====
-- A small map.
use so_unoficial.Prelude.{◌≡◌, refl, Bool, true, false, List, [], ◌∷◌, ◌==◌, if◌then◌else◌, arith}
use so_unoficial.Mapa.State.{InfoPokemon, PokeNest, Entrenador, Mapa, Env, done, buscar_pokenest}
use so_unoficial.Mapa.Requests.{
  message, connection_recv, receive_message, first_byte, atender_solicitud,
}
use so_unoficial.Mapa.Requests.Captures.{times, total, Serves, is_served, atender_solicitud-Serves}
use so_unoficial.Mapa.Scheduler.{liberar_recursos}
use so_unoficial.Mapa.Scheduler.Release.{
  Orderly, Given, is_pokenest, have_pokenests, liberar_recursos-Given,
}
use so_unoficial.Mapa.Scheduler.Distance.{turnos_hasta}
use so_unoficial.Mapa.Scheduler.Distance.Ends.{IsOver, turnos_hasta-IsOver}
use so_unoficial.Mapa.Deadlock.{detectar_deadlock}
use so_unoficial.Mapa.Deadlock.Retained.{IsHolding, Selects}
use so_unoficial.Mapa.Deadlock.Waiting.{AllWaiting}
use so_unoficial.Mapa.Deadlock.Stuck.{detectar_deadlock-stuck}

abbrev same_order : {A : Type 0} → (A → A → Bool) → List A → List A
same_order lt xs = xs

abbrev settings : Env
settings = record {
  quantum = 2;
  ruta_mapa = b'm' ∷ [];
  list_sort = λ lt xs. xs;
  count-list_sort = λ p lt xs. refl;
}

abbrev pikachu : InfoPokemon
pikachu = record { nombre = b'1' ∷ []; species = b'P' ∷ []; id_pokenest = b'P' }

abbrev nest : PokeNest
nest = record { id = b'P'; posx = 3; posy = 4; cantidad = 1; lista_pokemons = pikachu ∷ [] }

abbrev ash : Entrenador
ash = record {
  simbolo = b'A';
  posx = 1;
  posy = 1;
  pokenest_buscada = b'P';
  ultimo_pokemon = 0;
  pokemons = [];
}

abbrev brock : Entrenador
brock = record ash { simbolo = b'B'; pokenest_buscada = b'Q' }

abbrev misty : Entrenador
misty = record ash { simbolo = b'M'; pokemons = pikachu ∷ [] }

-- Ash, 5, sends two moves and a capture; Brock, 6, is ready; Misty, 7, holds a pokemon.
abbrev small : Mapa
small = record {
  entrenador = λ i. if i == 5 then ash else if i == 7 then misty else brock;
  entrenadores = 5 ∷ 6 ∷ 7 ∷ [];
  cola_listos = 5 ∷ 6 ∷ [];
  cola_bloqueados = [];
  master = λ i. false;
  lista_pokenests = nest ∷ [];
  entrada = λ i. if i == 5 then 4 ∷ 1 ∷ b'P' ∷ [] else [];
  salida = [];
}

abbrev moving : Mapa
moving = record small { entrada = λ i. 3 ∷ 1 ∷ 80 ∷ 3 ∷ 1 ∷ 77 ∷ [] }

small-received : connection_recv (small.entrada 5) ≡ message 4 (b'P' ∷ 0 ∷ []) []
unfolding connection_recv receive_message
small-received = refl

small-is_served : is_served 4 (first_byte (b'P' ∷ 0 ∷ [])) small.lista_pokenests ≡ true
unfolding buscar_pokenest first_byte
small-is_served = refl

ash_once : times 5 (5 ∷ 6 ∷ 7 ∷ []) ≡ 1
unfolding times
ash_once = refl

atender_solicitud-Serves_example :
    Serves b'P'
      (5 ∷ 6 ∷ 7 ∷ [])
      (total b'P' (5 ∷ 6 ∷ 7 ∷ []) small)
      (atender_solicitud settings 5 small)
atender_solicitud-Serves_example =
    atender_solicitud-Serves settings b'P' (5 ∷ 6 ∷ 7 ∷ []) 5 4 (b'P' ∷ 0 ∷ []) [] small ash_once
      small-received small-is_served

-- Ash waits for the pokemon that Misty holds.
abbrev waiting : Mapa
waiting = record small { cola_listos = 6 ∷ []; cola_bloqueados = 5 ∷ [] }

waiting-Orderly : Orderly (5 ∷ 6 ∷ []) waiting
unfolding times
waiting-Orderly = record { blocked = λ b h. ground arith; not_last = λ b. ground arith }

misty_outside : times 7 (5 ∷ 6 ∷ []) ≡ 0
unfolding times
misty_outside = refl

misty_has : have_pokenests (pikachu ∷ []) (nest ∷ []) ≡ true
unfolding have_pokenests is_pokenest
misty_has = refl

liberar_recursos-Given_example :
    (t : Mapa) × (liberar_recursos settings 7 waiting ≡ done t)
    × Given b'P' (5 ∷ 6 ∷ []) (pikachu ∷ []) waiting t
liberar_recursos-Given_example =
    liberar_recursos-Given settings b'P' (5 ∷ 6 ∷ []) 7 waiting waiting-Orderly misty_outside
      misty_has

turnos_hasta-IsOver_example : IsOver (turnos_hasta settings 7 5 moving)
turnos_hasta-IsOver_example = turnos_hasta-IsOver settings 7 5 moving (omega arith)

-- Ash and Brock ask for the pokemons that the other one holds, and none is left.
abbrev stuck_map : List Entrenador
stuck_map =
    record ash { pokemons = record pikachu { id_pokenest = b'Q' } ∷ [] }
    ∷ record brock { pokemons = pikachu ∷ [] }
    ∷ []

abbrev empty_nests : List PokeNest
empty_nests =
    record nest { cantidad = 0; lista_pokemons = [] }
    ∷ record nest { id = b'Q'; cantidad = 0; lista_pokemons = [] }
    ∷ []

stuck_map-AllWaiting : AllWaiting empty_nests stuck_map
unfolding buscar_pokenest
stuck_map-AllWaiting = ((_, refl, refl), ((_, refl, refl), tt))

detectar_deadlock-stuck_example :
    (ds : List Entrenador) × (detectar_deadlock 2 stuck_map empty_nests ≡ done ds)
    × Selects (IsHolding stuck_map) stuck_map ds
detectar_deadlock-stuck_example =
    detectar_deadlock-stuck 2 stuck_map empty_nests (omega arith) (omega arith) stuck_map-AllWaiting
