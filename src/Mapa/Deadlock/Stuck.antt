-- ===== src/Mapa/Deadlock/Stuck.antt =====
-- detectarDeadlock where no trainer can be served.
use so_unoficial.Prelude.{
  ℕ, zero, suc, ◌+◌, ◌≤◌, ◌<◌, ◌≡◌, refl, ap, ◌∙◌, Bool, true, false, ◌&&◌, List, [], ◌∷◌, length,
  ltb, leb, ◌==◌, arith,
}
use so_unoficial.Mapa.State.{PokeNest, Entrenador, done}
use so_unoficial.Mapa.Deadlock.{
  Check, first_request, attend, attend_from, hay_alguien, rounds, no_atendidos, filter_retienen,
  int_of_char, row_of, objetivos, start_check, detectar_deadlock,
}
use so_unoficial.Mapa.Deadlock.Retained.{IsHolding, Selects, filter_retienen-Selects}
use so_unoficial.Mapa.Deadlock.Waiting.{AllWaiting, asks, value_at, first_request-found}

-- The trainer asks for a pokemon of which none is there.
unfoldable is_stuck : Check → ℕ → Bool
is_stuck c i =
    let j = first_request (c.pedidos i) c.pokenests 0 in ltb j c.pokenests && c.disponibles j == 0

unfoldable all_stuck : Check → ℕ → ℕ → Bool
all_stuck c zero i = true
all_stuck c (suc left) i = is_stuck c i && all_stuck c left (suc i)

attend_stuck :
    (i : ℕ) (c : Check)
    → is_stuck c i ≡ true
    → attend i c ≡ done (record c { tiene_un_pedido = true })
unfolding attend is_stuck
attend_stuck i c h = ground arith

all_stuck_kept :
    (c : Check) (asked found : Bool) (left i : ℕ)
    → all_stuck (record c { tiene_un_pedido = asked; hay_deadlock = found }) left i
      ≡ all_stuck c left i
unfolding all_stuck is_stuck
all_stuck_kept c asked found zero i = refl
all_stuck_kept c asked found (suc left) i = rw (all_stuck_kept c asked found left (suc i)) refl

attend_from_stuck :
    (left i : ℕ) (c : Check)
    → 0 < left
    → all_stuck c left i ≡ true
    → attend_from left i c ≡ done (record c { tiene_un_pedido = true })
unfolding attend_from all_stuck
attend_from_stuck zero i c some_left h = absurd (omega arith)
attend_from_stuck (suc zero) i c some_left h =
    rw (attend_from, attend_stuck i c (ground arith)) refl
attend_from_stuck (suc (suc left)) i c some_left h =
    rw (attend_from, attend_stuck i c (ground arith))
      (attend_from_stuck (suc left) (suc i) (record c { tiene_un_pedido = true }) (omega arith)
        (all_stuck_kept c true c.hay_deadlock (suc left) (suc i) ∙ ground arith))

none_served : (es : List Entrenador) (i : ℕ) → no_atendidos (λ _. false) i es ≡ es
unfolding no_atendidos
none_served [] i = refl
none_served (e ∷ es) i = ap (λ l. e ∷ l) (none_served es (suc i))

someone :
    (atendido : ℕ → Bool) (n : ℕ) → 0 < n → atendido 0 ≡ false → hay_alguien atendido n 0 ≡ true
unfolding hay_alguien
someone atendido zero h e = absurd (omega arith)
someone atendido (suc n) h e = ground arith

-- The outer loop ends after one round that serves nobody.
rounds_stuck :
    (fuel : ℕ) (c : Check)
    → c.hay_deadlock ≡ false
    → c.atendido 0 ≡ false
    → 2 ≤ c.entrenadores
    → all_stuck c c.entrenadores 0 ≡ true
    → rounds (suc (suc fuel)) c ≡ done (record c { tiene_un_pedido = true; hay_deadlock = true })
unfolding rounds
rounds_stuck fuel c fresh first two stuck =
    let enter = someone c.atendido c.entrenadores (omega arith) first in
    let many : leb 2 c.entrenadores ≡ true = ground arith in
    let run =
      attend_from_stuck c.entrenadores 0 (record c { hay_deadlock = true }) (omega arith)
        (all_stuck_kept c c.tiene_un_pedido true c.entrenadores 0 ∙ stuck) in
    rw (rounds, fresh, enter, many, run) refl

-- Every row of the arrays is stuck.
row_stuck :
    (es : List Entrenador) (ns : List PokeNest) (k : ℕ)
    → k < length es
    → AllWaiting ns es
    → let j : ℕ =
        first_request
          (λ j'. row_of (λ e q. asks e.pokenest_buscada ns q) (λ _. false) es k j')
          (length ns)
          0 in
      (ltb j (length ns) && value_at (λ n. int_of_char n.cantidad) ns j == 0) ≡ true
unfolding row_of
row_stuck [] ns k small waiting = absurd (omega arith)
row_stuck (e ∷ es) ns zero small ((n, there, gone), waiting) =
    let (found, value) =
      first_request-found (λ m. int_of_char m.cantidad) e.pokenest_buscada ns n there in
    ground (arith, found, value, gone)
row_stuck (e ∷ es) ns (suc k) small (here, waiting) = row_stuck es ns k (omega arith) waiting

all_stuck_from :
    (c : Check) (left i : ℕ)
    → ((k : ℕ) → k < i + left → is_stuck c k ≡ true)
    → all_stuck c left i ≡ true
unfolding all_stuck
all_stuck_from c zero i h = refl
all_stuck_from c (suc left) i h =
    let rest = all_stuck_from c left (suc i) (λ k small. h k (omega arith)) in
    ground (arith, h i (omega arith), rest)

start_check_stuck :
    (es : List Entrenador) (ns : List PokeNest)
    → AllWaiting ns es
    → all_stuck (start_check es ns) (length es) 0 ≡ true
unfolding start_check is_stuck
start_check_stuck es ns waiting =
    all_stuck_from (start_check es ns) (length es) 0
      (λ k small. row_stuck es ns k (omega arith) waiting)

-- Where at least two trainers are on the map, and the PokeNest that each one looks for has no pokemon left,
-- detectarDeadlock ends, with two rounds of its outer loop or more, and finds as deadlocked exactly the
-- trainers that hold a pokemon of a PokeNest that some trainer on the map looks for, in their order.
pub detectar_deadlock-stuck :
    (fuel : ℕ) (es : List Entrenador) (ns : List PokeNest)
    → 2 ≤ fuel
    → 2 ≤ length es
    → AllWaiting ns es
    → (ds : List Entrenador) × (detectar_deadlock fuel es ns ≡ done ds)
      × Selects (IsHolding es) es ds
unfolding detectar_deadlock rounds start_check hay_alguien
detectar_deadlock-stuck zero es ns enough two waiting = absurd (omega arith)
detectar_deadlock-stuck (suc zero) es ns enough two waiting = absurd (omega arith)
detectar_deadlock-stuck (suc (suc fuel)) es ns enough two waiting =
    let run =
      rounds_stuck fuel (start_check es ns) refl refl two (start_check_stuck es ns waiting) in
    (
      filter_retienen (objetivos es) es,
      rw (detectar_deadlock, run, none_served es 0) refl,
      filter_retienen-Selects es es,
    )
