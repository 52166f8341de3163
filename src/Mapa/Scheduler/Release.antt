-- ===== src/Mapa/Scheduler/Release.antt =====
-- liberarRecursos2 of planificacion.c: where the pokemons of a trainer go.
use so_unoficial.Prelude.{
  ℕ, ◌+◌, ◌<◌, ◌≡◌, refl, ◌∙◌, inl, inr, Bool, true, false, ◌&&◌, some, List, [], ◌∷◌, ◌++◌, ◌==◌,
  if◌then◌else◌, if_cases, Option-cases, arith,
}
use so_unoficial.Mapa.State.{
  InfoPokemon, PokeNest, Entrenador, Mapa, Env, done, with_entrenador, buscar_pokenest,
  with_pokenest,
}
use so_unoficial.Mapa.Requests.{with_pokemon, notificar_captura_pokemon}
use so_unoficial.Mapa.Requests.Captures.{
  held-update_other, of_pokenest, times, total, of_pokenest-append, held-update,
  in_pokenests-with_pokenest, total-notificar_captura_pokemon,
}
use so_unoficial.Mapa.Scheduler.{
  without_first, desbloquear_entrenador, buscar_bloqueado, asignar_a_bloqueado, with_returned,
  devolver_a_pokenest, liberar_pokemon, liberar_pokemons, liberar_entrenador, liberar_recursos,
}

times-append : (x : ℕ) (xs ys : List ℕ) → times x (xs ++ ys) ≡ times x xs + times x ys
unfolding times
times-append x [] ys = omega arith
times-append x (y ∷ xs) ys = omega (arith, times-append x xs ys)

times-without_first :
    (x i : ℕ) (xs : List ℕ)
    → 0 < times i xs
    → times x (without_first i xs) + times x (i ∷ []) ≡ times x xs
unfolding times without_first
times-without_first x i [] h = absurd (omega arith)
times-without_first x i (y ∷ xs) h = ground (arith, times-without_first x i xs)

times-buscar_bloqueado :
    (entrenador : ℕ → Entrenador) (id : ℕ) (bs : List ℕ) (b : ℕ)
    → buscar_bloqueado entrenador id bs ≡ some b
    → 0 < times b bs
unfolding times buscar_bloqueado
times-buscar_bloqueado entrenador id [] b h = ground arith
times-buscar_bloqueado entrenador id (x ∷ xs) b h =
    ground (arith, times-buscar_bloqueado entrenador id xs b)

-- Whether there is a PokeNest with this id.
unfoldable pub is_pokenest : ℕ → List PokeNest → Bool
is_pokenest id [] = false
is_pokenest id (n ∷ ns) = if n.id == id then true else is_pokenest id ns

is_pokenest-with_pokenest :
    (j id : ℕ) (p : InfoPokemon) (ns : List PokeNest)
    → is_pokenest j (with_pokenest id (with_returned p) ns) ≡ is_pokenest j ns
unfolding is_pokenest with_pokenest
is_pokenest-with_pokenest j id p [] = refl
is_pokenest-with_pokenest j id p (n ∷ ns) = ground (arith, is_pokenest-with_pokenest j id p ns)

buscar_is_pokenest :
    (id : ℕ) (ns : List PokeNest)
    → is_pokenest id ns ≡ true
    → (n : PokeNest) × (buscar_pokenest ns id ≡ some n)
unfolding is_pokenest buscar_pokenest
buscar_is_pokenest id [] h = ground arith
buscar_is_pokenest id (n ∷ ns) h =
    if_cases (λ r. (x : PokeNest) × (r ≡ some x)) (n.id == id) (some n) (buscar_pokenest ns id)
      (λ _. (n, refl)) (λ other. buscar_is_pokenest id ns (ground arith))

unfoldable pub have_pokenests : List InfoPokemon → List PokeNest → Bool
unfolding is_pokenest
have_pokenests [] ns = true
have_pokenests (p ∷ ps) ns = is_pokenest p.id_pokenest ns && have_pokenests ps ns

-- The trainers in colaBloqueados stand once in `who`, and no trainer waits for its last pokemon.
pub record Orderly (who : List ℕ) (m : Mapa) : Type 0 where
  pub blocked : (b : ℕ) → 0 < times b m.cola_bloqueados → times b who ≡ 1
  pub not_last : (b : ℕ) → (m.entrenador b).ultimo_pokemon ≡ 0

-- `t` is `m` with the pokemons `ps` given to blocked trainers or PokeNests.
pub record Given (k : ℕ) (who : List ℕ) (ps : List InfoPokemon) (m t : Mapa) : Type 0 where
  pub gained : total k who t ≡ total k who m + of_pokenest k ps
  pub orderly : Orderly who t
  pub pokenests : (j : ℕ) → is_pokenest j t.lista_pokenests ≡ is_pokenest j m.lista_pokenests
  pub queues :
      (x : ℕ)
      → times x t.cola_listos + times x t.cola_bloqueados
        ≡ times x m.cola_listos + times x m.cola_bloqueados

devolver-Given :
    (k : ℕ) (who : List ℕ) (p : InfoPokemon) (m : Mapa) (n : PokeNest)
    → Orderly who m
    → buscar_pokenest m.lista_pokenests p.id_pokenest ≡ some n
    → Given k who (p ∷ []) m (record m {
      lista_pokenests = with_pokenest p.id_pokenest (with_returned p) m.lista_pokenests;
    })
unfolding total
devolver-Given k who p m n o found = record {
  gained = omega (
    arith,
    in_pokenests-with_pokenest k p.id_pokenest (with_returned p) m.lista_pokenests n found,
    of_pokenest-append k n.lista_pokemons (p ∷ []),
  );
  orderly = record { blocked = o.blocked; not_last = o.not_last };
  pokenests = λ j. is_pokenest-with_pokenest j p.id_pokenest p m.lista_pokenests;
  queues = λ x. refl;
}

asignar-Given :
    (env : Env) (k : ℕ) (who : List ℕ) (p : InfoPokemon) (b : ℕ) (m : Mapa)
    → Orderly who m
    → 0 < times b m.cola_bloqueados
    → Given k who (p ∷ []) m (
        desbloquear_entrenador b
          (notificar_captura_pokemon env p b (with_entrenador b (with_pokemon p) m)))
unfolding desbloquear_entrenador notificar_captura_pokemon total times
asignar-Given env k who p b m o here =
    let once = o.blocked b here in
    record {
      gained = omega (
        arith,
        held-update k m.entrenador b (with_pokemon p (m.entrenador b)) who once,
        of_pokenest-append k (m.entrenador b).pokemons (p ∷ []),
        total-notificar_captura_pokemon env k who p b (with_entrenador b (with_pokemon p) m) once,
      );
      orderly = record {
        blocked =
            λ c h. o.blocked c (omega (arith, times-without_first c b m.cola_bloqueados here));
        not_last = λ c. let last = o.not_last c in ground arith;
      };
      pokenests = λ j. refl;
      queues = λ x. omega (
        arith,
        times-append x m.cola_listos (b ∷ []),
        times-without_first x b m.cola_bloqueados here,
      );
    }

liberar_pokemon-Given :
    (env : Env) (k : ℕ) (who : List ℕ) (p : InfoPokemon) (m : Mapa)
    → Orderly who m
    → is_pokenest p.id_pokenest m.lista_pokenests ≡ true
    → (t : Mapa) × (liberar_pokemon env p m ≡ done t) × Given k who (p ∷ []) m t
unfolding liberar_pokemon asignar_a_bloqueado devolver_a_pokenest
liberar_pokemon-Given env k who p m o exists =
    elim (Option-cases (buscar_bloqueado m.entrenador p.id_pokenest m.cola_bloqueados)) [
      | inl nobody ↦
          let (n, found) = buscar_is_pokenest p.id_pokenest m.lista_pokenests exists in
          (
            _,
            rw (liberar_pokemon, nobody, devolver_a_pokenest, found) refl,
            devolver-Given k who p m n o found,
          )
      | inr (b, found) ↦
          let last = o.not_last b in
          (
            _,
            rw (liberar_pokemon, found, asignar_a_bloqueado, last) refl,
            asignar-Given env k who p b m o
                (times-buscar_bloqueado m.entrenador p.id_pokenest m.cola_bloqueados b found),
          )
    ]

have_pokenests_same :
    (ps : List InfoPokemon) (ns ns' : List PokeNest)
    → ((j : ℕ) → is_pokenest j ns' ≡ is_pokenest j ns)
    → have_pokenests ps ns' ≡ have_pokenests ps ns
unfolding have_pokenests
have_pokenests_same [] ns ns' h = refl
have_pokenests_same (p ∷ ps) ns ns' h = rw (h p.id_pokenest, have_pokenests_same ps ns ns' h) refl

of_pokenest_first :
    (k : ℕ) (p : InfoPokemon) (ps : List InfoPokemon)
    → of_pokenest k (p ∷ ps) ≡ of_pokenest k (p ∷ []) + of_pokenest k ps
of_pokenest_first k p ps = of_pokenest-append k (p ∷ []) ps

liberar_pokemons-Given :
    (env : Env) (k : ℕ) (who : List ℕ) (ps : List InfoPokemon) (m : Mapa)
    → Orderly who m
    → have_pokenests ps m.lista_pokenests ≡ true
    → (t : Mapa) × (liberar_pokemons env ps m ≡ done t) × Given k who ps m t
unfolding liberar_pokemons have_pokenests of_pokenest
liberar_pokemons-Given env k who [] m o exist = (
  m,
  refl,
  record { gained = omega arith; orderly = o; pokenests = λ j. refl; queues = λ x. refl },
)
liberar_pokemons-Given env k who (p ∷ ps) m o exist =
    let (m', one, g) = liberar_pokemon-Given env k who p m o (ground arith) in
    let (t, more, g') =
      liberar_pokemons-Given env k who ps m' g.orderly
        (have_pokenests_same ps m.lista_pokenests m'.lista_pokenests g.pokenests ∙ ground arith) in
    (
      t,
      rw (liberar_pokemons, one) more,
      record {
        gained = omega (arith, g.gained, g'.gained, of_pokenest_first k p ps);
        orderly = g'.orderly;
        pokenests = λ j. g'.pokenests j ∙ g.pokenests j;
        queues = λ x. g'.queues x ∙ g.queues x;
      },
    )

-- liberarRecursos2 for a trainer `i`, where each of its pokemons has a PokeNest, every blocked trainer
-- stands once in `who`, `i` does not, and no trainer waits for its last pokemon: it returns, the
-- PokeNests and the trainers in `who` then hold together exactly the pokemons of `i` more, of each
-- PokeNest `k`, and the trainers in the two queues are the same.
pub liberar_recursos-Given :
    (env : Env) (k : ℕ) (who : List ℕ) (i : ℕ) (m : Mapa)
    → Orderly who m
    → times i who ≡ 0
    → have_pokenests (m.entrenador i).pokemons m.lista_pokenests ≡ true
    → (t : Mapa) × (liberar_recursos env i m ≡ done t) × Given k who (m.entrenador i).pokemons m t
unfolding liberar_recursos liberar_entrenador total
liberar_recursos-Given env k who i m o outside exist =
    let ps = (m.entrenador i).pokemons in
    let emptied = with_entrenador i (λ e. record e { pokemons = [] }) m in
    let tidy : Orderly who emptied = record {
      blocked = o.blocked;
      not_last = λ b. let here = o.not_last i in let there = o.not_last b in ground arith;
    } in
    let (u, run, g) = liberar_pokemons-Given env k who ps emptied tidy exist in
    let gained = g.gained in
    let orderly = g.orderly in
    (
      liberar_entrenador i u,
      rw (liberar_recursos, run) refl,
      record {
        gained = omega (
          arith,
          gained,
          held-update_other k m.entrenador i (record (m.entrenador i) { pokemons = [] }) who
              outside,
        );
        orderly = record { blocked = orderly.blocked; not_last = orderly.not_last };
        pokenests = g.pokenests;
        queues = g.queues;
      },
    )
