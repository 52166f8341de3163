-- ===== src/Swap/BitMap.antt =====
-- The functions of Swap.c that only use the array `bitMap`.
pub mod Windows
use so_unoficial.Prelude.{
  update, ℕ, zero, suc, ◌+◌, ◌-◌, Bool, Option, none, some, ltb, ◌==◌, ◌&&◌, if◌then◌else◌,
}
use so_unoficial.Swap.State.{Entry, entry, no_pid, Swap}

-- The loop of espacioDisponible at entry `i`, with `left` entries to go: the final `j`.
unfoldable pub count_from : (ℕ → Entry) → ℕ → ℕ → ℕ → ℕ → ℕ
count_from bit_map paginas zero i j = j
count_from bit_map paginas (suc left) i j =
    let j' = if (bit_map i).estado == 0 then suc j else j in
    let rest = count_from bit_map paginas left (suc i) j' in if j == paginas then j else rest

unfoldable pub espacio_disponible : ℕ → Swap → Bool
unfolding count_from
espacio_disponible paginas s = count_from s.bit_map paginas s.cant_pag 0 0 == paginas

-- The loop of contiguo at entry `i`: the final `j`, and the final `fin` where it was set.
unfoldable pub contiguo_from : (ℕ → Entry) → ℕ → ℕ → ℕ → ℕ → ℕ → ℕ × ℕ
contiguo_from bit_map paginas zero i j fin = (j, fin)
contiguo_from bit_map paginas (suc left) i j fin =
    let both = (bit_map i).estado == 0 && (bit_map (i + 1)).estado == 0 in
    let rest =
      contiguo_from bit_map paginas left (suc i) (if both then suc j else 0)
        (if both then i else fin) in
    if j == paginas then (j, fin) else rest

-- contiguo: `none` is -1. For no pages the source computes with `fin` that was never set; `fin` is
-- the value it then has.
unfoldable pub contiguo : ℕ → ℕ → Swap → Option ℕ
unfolding contiguo_from
contiguo fin paginas s =
    let (j, last) = contiguo_from s.bit_map paginas s.cant_pag 0 0 fin in
    if j == paginas then some (last + 1 - paginas) else none

-- The loop of asignacion, with `paginas` entries to go.
unfoldable pub asignacion : ℕ → ℕ → ℕ → (ℕ → Entry) → ℕ → Entry
asignacion pid zero inicio bit_map = bit_map
asignacion pid (suc paginas) inicio bit_map =
    asignacion pid paginas (suc inicio) (update bit_map inicio (entry pid 1))

-- `while(bitMap[i].PID != pid && i < bound) i++`, with `left` steps to the bound.
unfoldable pub find_pid : (ℕ → Entry) → ℕ → ℕ → ℕ → ℕ
find_pid bit_map pid zero i = i
find_pid bit_map pid (suc left) i =
    let rest = find_pid bit_map pid left (suc i) in if (bit_map i).pid == pid then i else rest

-- inicializarBitMap for the entries from `i` on.
unfoldable pub inicializar_bit_map : ℕ → ℕ → (ℕ → Entry) → ℕ → Entry
inicializar_bit_map zero i bit_map = bit_map
inicializar_bit_map (suc left) i bit_map =
    inicializar_bit_map left (suc i) (update bit_map i (entry no_pid 0))
