-- ===== src/Mapa/Scheduler.antt =====
-- planificacion.c: the bursts of the two algorithms, and the queues.
pub mod Burst
pub mod Release
pub mod Distance
use so_unoficial.Prelude.{
  update, ℕ, zero, suc, ◌+◌, ◌-◌, ◌%◌, Bool, true, false, Option, some, none, List, [], ◌∷◌, ◌++◌,
  ◌==◌, if◌then◌else◌,
}
use so_unoficial.Mapa.State.{
  InfoPokemon, PokeNest, Entrenador, Mapa, Env, Result, done, fault, endless, with_entrenador,
  buscar_pokenest, with_pokenest,
}
use so_unoficial.Mapa.Requests.{
  Respuesta, desconexion, turno_normal, capturo_pokemon, no_encontro_pokemon, with_pokemon,
  notificar_captura_pokemon, atender_solicitud,
}

-- buscarEntrenador: the list without the first trainer with this socket.
unfoldable pub without_first : ℕ → List ℕ → List ℕ
without_first i [] = []
without_first i (x ∷ xs) = let rest = without_first i xs in if x == i then xs else x ∷ rest

unfoldable pub bloquear_entrenador : ℕ → Mapa → Mapa
bloquear_entrenador i m = record m {
  cola_bloqueados = m.cola_bloqueados ++ i ∷ [];
  master = update m.master i true;
}

unfoldable pub desbloquear_entrenador : ℕ → Mapa → Mapa
unfolding without_first
desbloquear_entrenador i m = record m {
  cola_bloqueados = without_first i m.cola_bloqueados;
  cola_listos = m.cola_listos ++ i ∷ [];
  master = update m.master i false;
}

-- The loop of liberarRecursos2 over colaBloqueados: the first trainer that looks for the PokeNest.
unfoldable pub buscar_bloqueado : (ℕ → Entrenador) → ℕ → List ℕ → Option ℕ
buscar_bloqueado entrenador id [] = none
buscar_bloqueado entrenador id (b ∷ bs) =
    let rest = buscar_bloqueado entrenador id bs in
    if (entrenador b).pokenest_buscada == id then some b else rest

-- The pokemon goes to a blocked trainer. Where that has `ultimo_pokemon`, the source frees it and
-- leaves it in colaBloqueados.
unfoldable pub asignar_a_bloqueado : Env → InfoPokemon → ℕ → Mapa → Result Mapa
unfolding notificar_captura_pokemon desbloquear_entrenador
asignar_a_bloqueado env p b m =
    if (m.entrenador b).ultimo_pokemon == 0
    then done (
        desbloquear_entrenador b
          (notificar_captura_pokemon env p b (with_entrenador b (with_pokemon p) m)))
    else fault

abbrev pub with_returned : InfoPokemon → PokeNest → PokeNest
with_returned p n = record n {
  lista_pokemons = n.lista_pokemons ++ p ∷ [];
  cantidad = (n.cantidad + 1) % 256;
}

-- The pokemon goes back to its PokeNest.
unfoldable pub devolver_a_pokenest : InfoPokemon → Mapa → Result Mapa
unfolding buscar_pokenest with_pokenest
devolver_a_pokenest p m = elim (buscar_pokenest m.lista_pokenests p.id_pokenest) [
  | none ↦ fault
  | some n ↦ done (record m {
    lista_pokenests = with_pokenest p.id_pokenest (with_returned p) m.lista_pokenests;
  })
]

-- One round of the loop of liberarRecursos2.
unfoldable pub liberar_pokemon : Env → InfoPokemon → Mapa → Result Mapa
unfolding buscar_bloqueado asignar_a_bloqueado devolver_a_pokenest
liberar_pokemon env p m = elim (buscar_bloqueado m.entrenador p.id_pokenest m.cola_bloqueados) [
  | some b ↦ asignar_a_bloqueado env p b m
  | none ↦ devolver_a_pokenest p m
]

-- The loop of liberarRecursos2 over the pokemons of a trainer, which is itself not in colaBloqueados.
unfoldable pub liberar_pokemons : Env → List InfoPokemon → Mapa → Result Mapa
unfolding liberar_pokemon
liberar_pokemons env [] m = done m
liberar_pokemons env (p ∷ ps) m = elim (liberar_pokemon env p m) [
  | done m' ↦ liberar_pokemons env ps m'
  | fault ↦ fault
  | endless ↦ endless
]

-- The loop of liberarEntrenador over `entrenadores`: behind a trainer that it removes it does not
-- look at the next one.
unfoldable pub without_simbolo : (ℕ → Entrenador) → ℕ → Bool → List ℕ → List ℕ
without_simbolo entrenador simbolo skip [] = []
without_simbolo entrenador simbolo true (x ∷ xs) = x ∷ without_simbolo entrenador simbolo false xs
without_simbolo entrenador simbolo false (x ∷ xs) =
    let skipping = without_simbolo entrenador simbolo true xs in
    let going_on = without_simbolo entrenador simbolo false xs in
    if (entrenador x).simbolo == simbolo then skipping else x ∷ going_on

unfoldable pub liberar_entrenador : ℕ → Mapa → Mapa
unfolding without_simbolo
liberar_entrenador i m = record m {
  entrenadores = without_simbolo m.entrenador (m.entrenador i).simbolo false m.entrenadores;
}

unfoldable pub liberar_recursos : Env → ℕ → Mapa → Result Mapa
unfolding liberar_pokemons liberar_entrenador
liberar_recursos env i m =
    elim (liberar_pokemons env (m.entrenador i).pokemons
      (with_entrenador i (λ e. record e { pokemons = [] }) m)) [
        | done m' ↦ done (liberar_entrenador i m')
        | fault ↦ fault
        | endless ↦ endless
      ]

-- What both bursts do with the answer to the last request.
unfoldable pub segun_respuesta : Env → ℕ → Result (Respuesta × Mapa) → Result Mapa
unfolding liberar_recursos bloquear_entrenador
segun_respuesta env i fault = fault
segun_respuesta env i endless = endless
segun_respuesta env i (done (desconexion, m)) = liberar_recursos env i m
segun_respuesta env i (done (no_encontro_pokemon, m)) = done (bloquear_entrenador i m)
segun_respuesta env i (done (turno_normal, m)) =
    done (record m { cola_listos = m.cola_listos ++ i ∷ [] })
segun_respuesta env i (done (capturo_pokemon, m)) =
    done (record m { cola_listos = m.cola_listos ++ i ∷ [] })

-- The loop of ejecutarRafagaRR with `left` requests to go. Without a quantum the answer is not set.
unfoldable pub turnos : Env → ℕ → ℕ → Mapa → Result (Respuesta × Mapa)
unfolding atender_solicitud
turnos env zero i m = fault
turnos env (suc left) i m = elim (atender_solicitud env i m) [
  | done (turno_normal, m') ↦
      let rest = turnos env left i m' in if left == 0 then done (turno_normal, m') else rest
  | done (desconexion, m') ↦ done (desconexion, m')
  | done (capturo_pokemon, m') ↦ done (capturo_pokemon, m')
  | done (no_encontro_pokemon, m') ↦ done (no_encontro_pokemon, m')
  | fault ↦ fault
  | endless ↦ endless
]

unfoldable pub ejecutar_rafaga_rr : Env → Mapa → Result Mapa
unfolding turnos segun_respuesta
ejecutar_rafaga_rr env m = elim m.cola_listos [
  | [] ↦ done m
  | i ∷ rest ↦ segun_respuesta env i (turnos env env.quantum i (record m { cola_listos = rest }))
]
