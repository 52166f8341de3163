-- ===== src/Mapa/Scheduler/Distance.antt =====
-- ejecutarRafagaSRDF of planificacion.c: the trainer nearest to its PokeNest is served first.
pub mod Ends
use so_unoficial.Prelude.{
  ℕ, zero, suc, ◌+◌, ◌-◌, ◌^◌, Bool, true, false, Option, some, none, List, [], ◌∷◌, length, ltb,
  leb, ◌==◌, ◌&&◌, ◌||◌, if◌then◌else◌,
}
use so_unoficial.Mapa.State.{
  PokeNest, Entrenador, Mapa, Env, Result, done, fault, endless, buscar_pokenest,
}
use so_unoficial.Mapa.Requests.{
  Respuesta, desconexion, turno_normal, capturo_pokemon, no_encontro_pokemon, atender_solicitud,
}
use so_unoficial.Mapa.Scheduler.{without_first, segun_respuesta}

-- buscarEntrenadorSinDistanciaDefinida: the first ready trainer that has no PokeNest to look for.
unfoldable pub sin_distancia : (ℕ → Entrenador) → List ℕ → Option ℕ
sin_distancia entrenador [] = none
sin_distancia entrenador (i ∷ is) =
    let rest = sin_distancia entrenador is in
    if (entrenador i).pokenest_buscada == 0 then some i else rest

-- `abs(a - b)` for a coordinate `a` of a PokeNest, from 0 to 127, and an `int` as its 32-bit pattern.
unfoldable pub abs_difference : ℕ → ℕ → ℕ
abs_difference a b = if ltb b (2 ^ 31) then (if ltb a b then b - a else a - b) else a + (2 ^ 32 - b)

-- The distance of a trainer to the PokeNest it looks for, where there is one.
unfoldable pub distancia : List PokeNest → Entrenador → Option ℕ
unfolding buscar_pokenest abs_difference
distancia ns e = elim (buscar_pokenest ns e.pokenest_buscada) [
  | none ↦ none
  | some n ↦ some (abs_difference n.posx e.posx + abs_difference n.posy e.posy)
]

unfoldable pub less : Option ℕ → Option ℕ → Bool
less (some a) (some b) = ltb a b
less none b = false
less (some a) none = false

-- _menor_distancia_a_pokenest.
unfoldable pub menor_distancia : Mapa → ℕ → ℕ → Bool
unfolding distancia less
menor_distancia m i j =
    less (distancia m.lista_pokenests (m.entrenador i))
      (distancia m.lista_pokenests (m.entrenador j))

unfoldable pub all_have_distance : Mapa → List ℕ → Bool
unfolding distancia
all_have_distance m [] = true
all_have_distance m (i ∷ is) =
    (elim (distancia m.lista_pokenests (m.entrenador i)) [ none ↦ false | some d ↦ true ])
    && all_have_distance m is

unfoldable pub first_of : List ℕ → Option ℕ
first_of [] = none
first_of (i ∷ is) = some i

-- buscarEntrenadorConMenorDistancia. The comparison uses a null pointer for a trainer whose PokeNest
-- does not exist; a single trainer is compared with none.
unfoldable pub con_menor_distancia : Env → Mapa → Option ℕ
unfolding all_have_distance menor_distancia first_of
con_menor_distancia env m =
    if leb (length m.cola_listos) 1 || all_have_distance m m.cola_listos
    then first_of (env.list_sort (menor_distancia m) m.cola_listos)
    else none

-- The do loop of ejecutarRafagaSRDF.
unfoldable pub turnos_hasta : Env → ℕ → ℕ → Mapa → Result (Respuesta × Mapa)
unfolding atender_solicitud
turnos_hasta env zero i m = endless
turnos_hasta env (suc fuel) i m = elim (atender_solicitud env i m) [
  | done (turno_normal, t) ↦ turnos_hasta env fuel i t
  | done (desconexion, t) ↦ done (desconexion, t)
  | done (capturo_pokemon, t) ↦ done (capturo_pokemon, t)
  | done (no_encontro_pokemon, t) ↦ done (no_encontro_pokemon, t)
  | fault ↦ fault
  | endless ↦ endless
]

-- Each request takes bytes from what the trainer sends, so these bound the rounds.
unfoldable pub rafaga_con_distancia : Env → Option ℕ → Mapa → Result Mapa
unfolding turnos_hasta segun_respuesta without_first
rafaga_con_distancia env none m = fault
rafaga_con_distancia env (some i) m = segun_respuesta env i (
    turnos_hasta env (suc (length (m.entrada i))) i
      (record m { cola_listos = without_first i m.cola_listos }))

unfoldable pub ejecutar_rafaga_srdf : Env → Mapa → Result Mapa
unfolding sin_distancia rafaga_con_distancia con_menor_distancia
ejecutar_rafaga_srdf env m = elim (sin_distancia m.entrenador m.cola_listos) [
  | some i ↦
      segun_respuesta env i
        (atender_solicitud env i (record m { cola_listos = without_first i m.cola_listos }))
  | none ↦ elim m.cola_listos [
    | [] ↦ done m
    | i ∷ is ↦ rafaga_con_distancia env (con_menor_distancia env m) m
  ]
]
