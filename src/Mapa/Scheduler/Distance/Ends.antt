-- ===== src/Mapa/Scheduler/Distance/Ends.antt =====
-- The do loop of ejecutarRafagaSRDF and the bytes that a trainer sends.
use so_unoficial.Prelude.{
  update, ℕ, zero, suc, ◌+◌, ◌≤◌, ◌<◌, ◌≡◌, refl, ap, inl, inr, Bool, true, false, Option, some,
  none, List, [], ◌∷◌, length, length-drop, ◌==◌, if_cases, Option-cases, ==_refl, arith,
}
use so_unoficial.Mapa.State.{InfoPokemon, Mapa, Env, Result, done, fault, endless, buscar_pokenest}
use so_unoficial.Mapa.Requests.{
  Received, disconnected, message, no_message, is_coordinates, is_known_text, connection_recv,
  receive_message, first_byte, Respuesta, desconexion, turno_normal, capturo_pokemon,
  no_encontro_pokemon, notificar_captura_pokemon, ubicar_pokenest, avanzar_posicion, atrapar,
  atrapar_pokemon, buscar_primer_pokemon, atender_codigo, atender_solicitud,
}
use so_unoficial.Mapa.Scheduler.Distance.{turnos_hasta}

-- A message is behind its code and its size.
abbrev Follows : ℕ → Received → Type 0
Follows n disconnected = Unit
Follows n (message op bytes stream) = length stream + 2 ≤ n
Follows n (no_message op stream) = length stream + 2 ≤ n

receive_message-Follows :
    (is_text : Bool) (op size : ℕ) (stream : List ℕ) (n : ℕ)
    → length stream + 2 ≤ n
    → Follows n (receive_message is_text op size stream)
unfolding receive_message
receive_message-Follows true op zero stream n h = h
receive_message-Follows false op zero stream n h = tt
receive_message-Follows is_text op (suc k) [] n h = tt
receive_message-Follows is_text op (suc k) (b ∷ bs) n h = omega (arith, length-drop k bs)

connection_recv-Follows : (input : List ℕ) → Follows (length input) (connection_recv input)
unfolding connection_recv
connection_recv-Follows [] = tt
connection_recv-Follows (op ∷ []) = tt
connection_recv-Follows (op ∷ size ∷ stream) =
    let P : Received → Type 0 = λ r. Follows (suc (suc (length stream))) r in
    let n = suc (suc (length stream)) in
    if_cases P (is_coordinates op) _ _
      (λ _. receive_message-Follows false op size stream n (omega arith))
      (λ _.
        if_cases P (is_known_text op) _ _
          (λ _. receive_message-Follows true op size stream n (omega arith)) (λ _. omega arith))

-- What a handler leaves unread.
abbrev Unread : Mapa → Result (Respuesta × Mapa) → Type 0
Unread m (done (r, t)) = t.entrada ≡ m.entrada
Unread m fault = Unit
Unread m endless = ⊥

ubicar_pokenest-Unread : (i id : ℕ) (m : Mapa) → Unread m (ubicar_pokenest i id m)
unfolding ubicar_pokenest
ubicar_pokenest-Unread i id m = elim (Option-cases (buscar_pokenest m.lista_pokenests id)) [
  | inl h ↦ rw (ubicar_pokenest, h) tt
  | inr (n, h) ↦ rw (ubicar_pokenest, h) refl
]

atrapar-Unread :
    (env : Env) (i id : ℕ) (o : Option (InfoPokemon × List InfoPokemon)) (m : Mapa)
    → Unread m (done (atrapar env i id o m))
unfolding atrapar notificar_captura_pokemon
atrapar-Unread env i id none m = refl
atrapar-Unread env i id (some (p, rest)) m = refl

atrapar_pokemon-Unread : (env : Env) (i id : ℕ) (m : Mapa) → Unread m (atrapar_pokemon env i id m)
unfolding atrapar_pokemon
atrapar_pokemon-Unread env i id m = elim (Option-cases (buscar_pokenest m.lista_pokenests id)) [
  | inl h ↦ rw (atrapar_pokemon, h) tt
  | inr (n, h) ↦
      rw (atrapar_pokemon, h)
        (atrapar-Unread env i id (buscar_primer_pokemon env n.lista_pokemons) m)
]

atender_codigo-Unread : (env : Env) (i op b : ℕ) (m : Mapa) → Unread m (atender_codigo env i op b m)
unfolding atender_codigo avanzar_posicion
atender_codigo-Unread env i op b m =
    let P : Result (Respuesta × Mapa) → Type 0 = λ r. Unread m r in
    if_cases P (op == 1) _ _ (λ _. ubicar_pokenest-Unread i b m)
      (λ _.
        if_cases P (op == 3) _ _ (λ _. refl)
          (λ _. if_cases P (op == 4) _ _ (λ _. atrapar_pokemon-Unread env i b m) (λ _. refl)))

-- With a normal turn fewer bytes of the trainer are left; no request is endless.
abbrev Consumes : ℕ → Mapa → Result (Respuesta × Mapa) → Type 0
Consumes i m (done (turno_normal, t)) = length (t.entrada i) < length (m.entrada i)
Consumes i m (done (desconexion, t)) = Unit
Consumes i m (done (capturo_pokemon, t)) = Unit
Consumes i m (done (no_encontro_pokemon, t)) = Unit
Consumes i m fault = Unit
Consumes i m endless = ⊥

-- The burst is over: neither without end nor with a normal turn.
abbrev pub IsOver : Result (Respuesta × Mapa) → Type 0
IsOver (done (turno_normal, t)) = ⊥
IsOver (done (desconexion, t)) = Unit
IsOver (done (capturo_pokemon, t)) = Unit
IsOver (done (no_encontro_pokemon, t)) = Unit
IsOver fault = Unit
IsOver endless = ⊥

Unread-Consumes :
    (i : ℕ) (m : Mapa) (stream : List ℕ) (q : Result (Respuesta × Mapa))
    → length stream + 2 ≤ length (m.entrada i)
    → Unread (record m { entrada = update m.entrada i stream }) q
    → Consumes i m q
Unread-Consumes i m stream (done (turno_normal, t)) h e =
    let left = ap (λ f. length (f i)) e in let here = ==_refl i in ground arith
Unread-Consumes i m stream (done (desconexion, t)) h e = tt
Unread-Consumes i m stream (done (capturo_pokemon, t)) h e = tt
Unread-Consumes i m stream (done (no_encontro_pokemon, t)) h e = tt
Unread-Consumes i m stream fault h e = tt
Unread-Consumes i m stream endless h e = e

received-Consumes :
    (env : Env) (i : ℕ) (m : Mapa) (r : Received)
    → connection_recv (m.entrada i) ≡ r
    → Follows (length (m.entrada i)) r
    → Consumes i m (atender_solicitud env i m)
unfolding atender_solicitud
received-Consumes env i m disconnected h f = rw (atender_solicitud, h) tt
received-Consumes env i m (message op bytes stream) h f =
    let next = record m { entrada = update m.entrada i stream } in
    rw (atender_solicitud, h)
      (Unread-Consumes i m stream (atender_codigo env i op (first_byte bytes) next) f
        (atender_codigo-Unread env i op (first_byte bytes) next))
received-Consumes env i m (no_message op stream) h f = rw (atender_solicitud, h) tt

-- The do loop of ejecutarRafagaSRDF, on as many rounds as the trainer still sends bytes and one more,
-- ends: with a disconnection, a capture, a pokemon that was not found, or a fault (memory that was never
-- set, or the NULL that stands for a PokeNest that does not exist), and never with a normal turn.
pub turnos_hasta-IsOver :
    (env : Env) (fuel i : ℕ) (m : Mapa)
    → length (m.entrada i) < fuel
    → IsOver (turnos_hasta env fuel i m)
unfolding turnos_hasta
turnos_hasta-IsOver env zero i m h = absurd (omega arith)
turnos_hasta-IsOver env (suc fuel) i m h =
    by_answer (λ t l. turnos_hasta-IsOver env fuel i t l) (atender_solicitud env i m) refl
      (received-Consumes env i m (connection_recv (m.entrada i)) refl
        (connection_recv-Follows (m.entrada i)))
  where
    by_answer :
        ((t : Mapa) → length (t.entrada i) < fuel → IsOver (turnos_hasta env fuel i t))
        → (r : Result (Respuesta × Mapa)) → atender_solicitud env i m ≡ r
        → Consumes i m r
        → IsOver (turnos_hasta env (suc fuel) i m)
    by_answer later (done (turno_normal, t)) e c = rw (turnos_hasta, e) (later t (omega arith))
    by_answer later (done (desconexion, t)) e c = rw (turnos_hasta, e) tt
    by_answer later (done (capturo_pokemon, t)) e c = rw (turnos_hasta, e) tt
    by_answer later (done (no_encontro_pokemon, t)) e c = rw (turnos_hasta, e) tt
    by_answer later fault e c = rw (turnos_hasta, e) tt
    by_answer later endless e c = absurd c
