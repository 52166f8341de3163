-- ===== src/Mapa/Requests/Captures.antt =====
-- Where the pokemons are, before and after a request.
use so_unoficial.Prelude.{
  update, ℕ, ◌+◌, ◌≡◌, refl, ap, sym, ◌∙◌, inl, inr, Bool, ◌||◌, true, false, Option, some, none,
  List, [], ◌∷◌, ◌++◌, ◌==◌, if◌then◌else◌, if_cases, Option-cases, arith,
}
use so_unoficial.Mapa.State.{
  count, InfoPokemon, PokeNest, Entrenador, Mapa, Env, Result, done, with_entrenador,
  buscar_pokenest, with_pokenest,
}
use so_unoficial.Mapa.Requests.{
  Respuesta, turno_normal, remove_first, buscar_primer_pokemon, comparar_strings,
  notificar_captura_pokemon, ubicar_pokenest, move, avanzar_posicion, without, with_pokemon,
  atrapar, atrapar_pokemon, atender_codigo, atender_solicitud, message, connection_recv, first_byte,
}

-- The pokemons of PokeNest `k` in a list, in the PokeNests, and with the trainers of a list.
unfoldable pub of_pokenest : ℕ → List InfoPokemon → ℕ
unfolding count
of_pokenest k ps = count (λ p. p.id_pokenest == k) ps

unfoldable pub in_pokenests : ℕ → List PokeNest → ℕ
in_pokenests k [] = 0
in_pokenests k (n ∷ ns) = of_pokenest k n.lista_pokemons + in_pokenests k ns

unfoldable pub held : ℕ → (ℕ → Entrenador) → List ℕ → ℕ
held k entrenador [] = 0
held k entrenador (i ∷ is) = of_pokenest k (entrenador i).pokemons + held k entrenador is

-- How often a trainer stands in a list.
unfoldable pub times : ℕ → List ℕ → ℕ
times i [] = 0
times i (x ∷ xs) = (if x == i then 1 else 0) + times i xs

unfoldable pub total : ℕ → List ℕ → Mapa → ℕ
total k who m = in_pokenests k m.lista_pokenests + held k m.entrenador who

pub of_pokenest-append :
    (k : ℕ) (ps qs : List InfoPokemon)
    → of_pokenest k (ps ++ qs) ≡ of_pokenest k ps + of_pokenest k qs
unfolding of_pokenest count
of_pokenest-append k [] qs = omega arith
of_pokenest-append k (p ∷ ps) qs = omega (arith, of_pokenest-append k ps qs)

pub held-update_other :
    (k : ℕ) (f : ℕ → Entrenador) (i : ℕ) (e : Entrenador) (who : List ℕ)
    → times i who ≡ 0
    → held k (update f i e) who ≡ held k f who
unfolding held times
held-update_other k f i e [] h = refl
held-update_other k f i e (x ∷ xs) h = ground (arith, held-update_other k f i e xs)

pub held-update :
    (k : ℕ) (f : ℕ → Entrenador) (i : ℕ) (e : Entrenador) (who : List ℕ)
    → times i who ≡ 1
    → held k (update f i e) who + of_pokenest k (f i).pokemons
      ≡ held k f who + of_pokenest k e.pokemons
unfolding held times
held-update k f i e [] h = absurd (omega arith)
held-update k f i e (x ∷ xs) h =
    ground (arith, held-update k f i e xs, held-update_other k f i e xs)

pub in_pokenests-with_pokenest :
    (k id : ℕ) (f : PokeNest → PokeNest) (ns : List PokeNest) (n : PokeNest)
    → buscar_pokenest ns id ≡ some n
    → in_pokenests k (with_pokenest id f ns) + of_pokenest k n.lista_pokemons
      ≡ in_pokenests k ns + of_pokenest k (f n).lista_pokemons
unfolding in_pokenests with_pokenest buscar_pokenest
in_pokenests-with_pokenest k id f [] n h = ground arith
in_pokenests-with_pokenest k id f (x ∷ xs) n h =
    ground (arith, in_pokenests-with_pokenest k id f xs n)

of_pokenest-remove_first :
    (k : ℕ) (ps : List InfoPokemon) (p : InfoPokemon) (rest : List InfoPokemon)
    → remove_first ps ≡ some (p, rest)
    → of_pokenest k ps ≡ of_pokenest k (p ∷ []) + of_pokenest k rest
unfolding remove_first of_pokenest count
of_pokenest-remove_first k [] p rest h = ground arith
of_pokenest-remove_first k (x ∷ xs) p rest h = ground arith

of_pokenest-buscar_primer_pokemon :
    (env : Env) (k : ℕ) (ps : List InfoPokemon) (p : InfoPokemon) (rest : List InfoPokemon)
    → buscar_primer_pokemon env ps ≡ some (p, rest)
    → of_pokenest k ps ≡ of_pokenest k (p ∷ []) + of_pokenest k rest
unfolding buscar_primer_pokemon of_pokenest
of_pokenest-buscar_primer_pokemon env k ps p rest h =
    let lt : InfoPokemon → InfoPokemon → Bool = λ a b. comparar_strings a.nombre b.nombre in
    sym (env.count-list_sort (λ q. q.id_pokenest == k) lt ps)
    ∙ of_pokenest-remove_first k (env.list_sort lt ps) p rest h

-- The request is answered, and there are as many pokemons of PokeNest `k` as `before`.
abbrev pub Serves : ℕ → List ℕ → ℕ → Result (Respuesta × Mapa) → Type 0
Serves k who before r = (a : Respuesta) × (m : Mapa) × (r ≡ done (a, m)) × (total k who m ≡ before)

-- A change of a trainer that leaves its pokemons.
pub total-with_entrenador :
    (k : ℕ) (who : List ℕ) (i : ℕ) (f : Entrenador → Entrenador) (m : Mapa)
    → times i who ≡ 1
    → (f (m.entrenador i)).pokemons ≡ (m.entrenador i).pokemons
    → total k who (with_entrenador i f m) ≡ total k who m
unfolding total
total-with_entrenador k who i f m h e =
    let moved = held-update k m.entrenador i (f (m.entrenador i)) who h in
    let same = ap (λ ps. of_pokenest k ps) e in omega arith

pub total-notificar_captura_pokemon :
    (env : Env) (k : ℕ) (who : List ℕ) (p : InfoPokemon) (i : ℕ) (m : Mapa)
    → times i who ≡ 1
    → total k who (notificar_captura_pokemon env p i m) ≡ total k who m
unfolding notificar_captura_pokemon total
total-notificar_captura_pokemon env k who p i m h =
    total-with_entrenador k who i (λ e. record e { pokenest_buscada = 0 }) m h refl

ubicar_pokenest-Serves :
    (k : ℕ) (who : List ℕ) (i id : ℕ) (m : Mapa) (n : PokeNest)
    → times i who ≡ 1
    → buscar_pokenest m.lista_pokenests id ≡ some n
    → Serves k who (total k who m) (ubicar_pokenest i id m)
unfolding ubicar_pokenest total
ubicar_pokenest-Serves k who i id m n h found =
    rw (ubicar_pokenest, found)
      (_, _, refl, total-with_entrenador k who i (λ e. record e { pokenest_buscada = id }) m h refl)

move-pokemons : (direction : ℕ) (e : Entrenador) → (move direction e).pokemons ≡ e.pokemons
unfolding move
move-pokemons direction e = ground arith

avanzar_posicion-Serves :
    (k : ℕ) (who : List ℕ) (i direction : ℕ) (m : Mapa)
    → times i who ≡ 1
    → Serves k who (total k who m) (avanzar_posicion i direction m)
unfolding avanzar_posicion total
avanzar_posicion-Serves k who i direction m h = (
  _,
  _,
  refl,
  total-with_entrenador k who i (λ _. move direction (m.entrenador i)) m h
      (move-pokemons direction (m.entrenador i)),
)

total_captured :
    (env : Env) (k : ℕ) (who : List ℕ) (i id : ℕ) (m : Mapa) (n : PokeNest) (p : InfoPokemon)
    (rest : List InfoPokemon)
    → times i who ≡ 1
    → buscar_pokenest m.lista_pokenests id ≡ some n
    → buscar_primer_pokemon env n.lista_pokemons ≡ some (p, rest)
    → total k who (record (with_entrenador i (with_pokemon p) m) {
      lista_pokenests = with_pokenest id (without rest) m.lista_pokenests;
    })
      ≡ total k who m
unfolding total
total_captured env k who i id m n p rest h found first = omega (
  arith,
  held-update k m.entrenador i (with_pokemon p (m.entrenador i)) who h,
  of_pokenest-append k (m.entrenador i).pokemons (p ∷ []),
  in_pokenests-with_pokenest k id (without rest) m.lista_pokenests n found,
  of_pokenest-buscar_primer_pokemon env k n.lista_pokemons p rest first,
)

total-atrapar :
    (env : Env) (k : ℕ) (who : List ℕ) (i id : ℕ) (m : Mapa) (n : PokeNest)
    (o : Option (InfoPokemon × List InfoPokemon))
    → times i who ≡ 1
    → buscar_pokenest m.lista_pokenests id ≡ some n
    → buscar_primer_pokemon env n.lista_pokemons ≡ o
    → total k who (atrapar env i id o m).1 ≡ total k who m
unfolding atrapar
total-atrapar env k who i id m n none h found first = refl
total-atrapar env k who i id m n (some (p, rest)) h found first =
    total-notificar_captura_pokemon env k who p i
      (record (with_entrenador i (with_pokemon p) m) {
        lista_pokenests = with_pokenest id (without rest) m.lista_pokenests;
      })
      h
    ∙ total_captured env k who i id m n p rest h found first

atrapar_pokemon-Serves :
    (env : Env) (k : ℕ) (who : List ℕ) (i id : ℕ) (m : Mapa) (n : PokeNest)
    → times i who ≡ 1
    → buscar_pokenest m.lista_pokenests id ≡ some n
    → Serves k who (total k who m) (atrapar_pokemon env i id m)
unfolding atrapar_pokemon
atrapar_pokemon-Serves env k who i id m n h found =
    let o = buscar_primer_pokemon env n.lista_pokemons in
    rw (atrapar_pokemon, found) (_, _, refl, total-atrapar env k who i id m n o h found refl)

-- Whether the code names a PokeNest, and then whether it exists.
abbrev pub is_served : ℕ → ℕ → List PokeNest → Bool
is_served op b ns =
    if op == 1 || op == 4
    then (elim (buscar_pokenest ns b) [ none ↦ false | some n ↦ true ])
    else true

served_pokenest :
    (op b : ℕ) (ns : List PokeNest)
    → (op == 1 || op == 4) ≡ true
    → is_served op b ns ≡ true
    → (n : PokeNest) × (buscar_pokenest ns b ≡ some n)
served_pokenest op b ns c ok = elim (Option-cases (buscar_pokenest ns b)) [
  | inl missing ↦ absurd (ground arith)
  | inr found ↦ found
]

atender_codigo-Serves :
    (env : Env) (k : ℕ) (who : List ℕ) (i op b : ℕ) (m : Mapa)
    → times i who ≡ 1
    → is_served op b m.lista_pokenests ≡ true
    → Serves k who (total k who m) (atender_codigo env i op b m)
unfolding atender_codigo
atender_codigo-Serves env k who i op b m h ok =
    let P : Result (Respuesta × Mapa) → Type 0 = λ r. Serves k who (total k who m) r in
    if_cases P (op == 1) _ _
      (λ c.
        let (n, found) = served_pokenest op b m.lista_pokenests (ground arith) ok in
        ubicar_pokenest-Serves k who i b m n h found)
      (λ _.
        if_cases P (op == 3) _ _ (λ _. avanzar_posicion-Serves k who i b m h)
          (λ _.
            if_cases P (op == 4) _ _
              (λ c.
                let (n, found) = served_pokenest op b m.lista_pokenests (ground arith) ok in
                atrapar_pokemon-Serves env k who i b m n h found)
              (λ _. (turno_normal, m, refl, refl))))

-- A request of a trainer that stands once in `who`, with a code that connection_recv knows, and with
-- a PokeNest that exists where it names one, is answered; and afterwards the PokeNests and the
-- trainers in `who` hold together as many pokemons of each PokeNest `k` as before.
pub atender_solicitud-Serves :
    (env : Env) (k : ℕ) (who : List ℕ) (i op : ℕ) (bytes stream : List ℕ) (m : Mapa)
    → times i who ≡ 1
    → connection_recv (m.entrada i) ≡ message op bytes stream
    → is_served op (first_byte bytes) m.lista_pokenests ≡ true
    → Serves k who (total k who m) (atender_solicitud env i m)
unfolding atender_solicitud total
atender_solicitud-Serves env k who i op bytes stream m h received ok =
    rw (atender_solicitud, received)
      (atender_codigo-Serves env k who i op (first_byte bytes)
        (record m { entrada = update m.entrada i stream }) h ok)
