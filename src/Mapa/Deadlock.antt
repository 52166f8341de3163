-- ===== src/Mapa/Deadlock.antt =====
-- detectarDeadlock of deteccionDeadlock.c: one check, up to the list of the trainers in a deadlock.
pub mod Retained
pub mod Waiting
pub mod Stuck
use so_unoficial.Prelude.{
  update, ℕ, zero, suc, ◌+◌, ◌-◌, ◌%◌, ◌^◌, Bool, true, false, not, ◌&&◌, ◌||◌, List, [], ◌∷◌, map,
  length, ltb, leb, ◌==◌, if◌then◌else◌,
}
use so_unoficial.Mapa.State.{count, InfoPokemon, PokeNest, Entrenador, Result, done, fault, endless}

-- The local variables of a check: pokemonsDisponibles, atendido, matrizUtilizados, matrizPedidos,
-- hayDeadlock and tieneUnPedido, with cantidadEntrenadores and cantidadPokenest. A number of
-- `disponibles` is an `int`, as its 32-bit pattern.
pub record Check : Type 0 where
  pub entrenadores : ℕ
  pub pokenests : ℕ
  pub disponibles : ℕ → ℕ
  pub atendido : ℕ → Bool
  pub utilizados : ℕ → ℕ → ℕ
  pub pedidos : ℕ → ℕ → Bool
  pub hay_deadlock : Bool
  pub tiene_un_pedido : Bool

-- The loop that stops at the first request of a row: the index it ends with.
unfoldable pub first_request : (ℕ → Bool) → ℕ → ℕ → ℕ
first_request row zero j = j
first_request row (suc left) j =
    let rest = first_request row left (suc j) in if row j then j else rest

-- A `char` as an `int`, and `n > 0` for an `int`.
abbrev pub int_of_char : ℕ → ℕ
int_of_char n = if ltb n 128 then n else 2 ^ 32 - 256 + n

abbrev pub is_positive : ℕ → Bool
is_positive n = ltb 0 n && ltb n (2 ^ 31)

-- The trainer gets the pokemon that it asks for.
unfoldable pub grant : ℕ → ℕ → Check → Check
grant i j c = record c {
  utilizados = update c.utilizados i (update (c.utilizados i) j (c.utilizados i j + 1));
  disponibles = update c.disponibles j (c.disponibles j - 1);
  pedidos = update c.pedidos i (update (c.pedidos i) j false);
  atendido = update c.atendido i true;
  hay_deadlock = false;
}

-- The loop in which a trainer gives all its pokemons back, with `left` PokeNests to go.
unfoldable pub give_back : ℕ → ℕ → ℕ → Check → Check
give_back i zero j c = c
give_back i (suc left) j c = give_back i left (suc j) (record c {
  disponibles = update c.disponibles j ((c.disponibles j + c.utilizados i j) % 2 ^ 32);
  utilizados = update c.utilizados i (update (c.utilizados i) j 0);
  atendido = update c.atendido i true;
})

-- The body of the loop over the trainers. `tieneUnPedido` is not set back for the next trainer, so for
-- a trainer without a request pokemonsDisponibles is then read behind its end.
unfoldable pub attend : ℕ → Check → Result Check
unfolding first_request grant give_back
attend i c =
    let j = first_request (c.pedidos i) c.pokenests 0 in
    let asks = ltb j c.pokenests in
    let c' = record c { tiene_un_pedido = c.tiene_un_pedido || asks } in
    if asks
    then done (if is_positive (c.disponibles j) then grant i j c' else c')
    else if c.tiene_un_pedido
    then fault
    else done (give_back i c.pokenests 0 c')

-- The loop over the trainers from `i` on.
unfoldable pub attend_from : ℕ → ℕ → Check → Result Check
unfolding attend
attend_from zero i c = done c
attend_from (suc left) i c = elim (attend i c) [
  | done c' ↦ attend_from left (suc i) c'
  | fault ↦ fault
  | endless ↦ endless
]

-- hayAlguienParaAtender
unfoldable pub hay_alguien : (ℕ → Bool) → ℕ → ℕ → Bool
hay_alguien atendido zero i = false
hay_alguien atendido (suc left) i = not (atendido i) || hay_alguien atendido left (suc i)

-- The outer loop. For a single trainer that cannot be served it has no end.
unfoldable pub rounds : ℕ → Check → Result Check
unfolding attend_from hay_alguien
rounds zero c = endless
rounds (suc fuel) c =
    let next =
      attend_from c.entrenadores 0
        (record c { hay_deadlock = leb 2 c.entrenadores || c.hay_deadlock }) in
    if not c.hay_deadlock && hay_alguien c.atendido c.entrenadores 0
    then (elim next [ done c' ↦ rounds fuel c' | fault ↦ fault | endless ↦ endless ])
    else done c

-- The trainers that were not served.
unfoldable pub no_atendidos : (ℕ → Bool) → ℕ → List Entrenador → List Entrenador
no_atendidos atendido i [] = []
no_atendidos atendido i (e ∷ es) =
    let rest = no_atendidos atendido (suc i) es in if atendido i then rest else e ∷ rest

-- list_any_satisfy with _esIgual, and with _esUnPokemonBuscadoPorAlguien.
unfoldable pub es_buscado : List ℕ → ℕ → Bool
es_buscado [] id = false
es_buscado (o ∷ os) id = o == id || es_buscado os id

unfoldable pub retiene_algun : List ℕ → List InfoPokemon → Bool
unfolding es_buscado
retiene_algun objetivos [] = false
retiene_algun objetivos (p ∷ ps) = es_buscado objetivos p.id_pokenest || retiene_algun objetivos ps

-- list_filter with retieneAlgunObjetivo.
unfoldable pub filter_retienen : List ℕ → List Entrenador → List Entrenador
unfolding retiene_algun
filter_retienen objetivos [] = []
filter_retienen objetivos (e ∷ es) =
    let rest = filter_retienen objetivos es in
    if retiene_algun objetivos e.pokemons then e ∷ rest else rest

unfoldable pub objetivos : List Entrenador → List ℕ
objetivos es = map (λ e. e.pokenest_buscada) es

-- list_get; the loops stay within the lists.
unfoldable pub row_of : {A B : Type 0} → (A → ℕ → B) → (ℕ → B) → List A → ℕ → ℕ → B
row_of f outside [] i = outside
row_of f outside (a ∷ more) zero = f a
row_of f outside (a ∷ more) (suc i) = row_of f outside more i

-- The loops that fill the arrays.
unfoldable pub start_check : List Entrenador → List PokeNest → Check
unfolding row_of count
start_check es ns = record {
  entrenadores = length es;
  pokenests = length ns;
  disponibles = λ j. row_of (λ n _. int_of_char n.cantidad) (λ _. 0) ns j 0;
  atendido = λ _. false;
  utilizados = λ i j.
      row_of
        (λ e j'. row_of (λ n _. count (λ p. p.id_pokenest == n.id) e.pokemons) (λ _. 0) ns j' 0)
        (λ _. 0) es i j;
  pedidos = λ i j.
      row_of (λ e j'. row_of (λ n _. n.id == e.pokenest_buscada) (λ _. false) ns j' 0) (λ _. false)
        es i j;
  hay_deadlock = false;
  tiene_un_pedido = false;
}

-- One check of detectarDeadlock, up to the filter, with `fuel` rounds of its outer loop.
unfoldable pub detectar_deadlock : ℕ → List Entrenador → List PokeNest → Result (List Entrenador)
unfolding rounds no_atendidos filter_retienen objetivos start_check
detectar_deadlock fuel es ns = elim (rounds fuel (start_check es ns)) [
  | done c ↦
      let deadlockeados = no_atendidos c.atendido 0 es in
      done (filter_retienen (objetivos deadlockeados) deadlockeados)
  | fault ↦ fault
  | endless ↦ endless
]
