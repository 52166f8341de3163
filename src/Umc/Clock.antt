-- ===== src/Umc/Clock.antt =====
-- The two clock algorithms of umc/funciones.c, which look for the frame that a new page takes.
pub mod Steps
pub mod Pointer
pub mod Turns
pub mod Wait
pub mod Bound
pub mod Modified
use so_unoficial.Prelude.{
  ℕ, zero, suc, ◌+◌, ◌*◌, Bool, true, false, not, Option, none, some, List, [], ◌∷◌, modify,
  get_elem?, length, ◌==◌, ◌&&◌, ◌||◌, if◌then◌else◌,
}
use so_unoficial.Umc.State.{
  Frame, Proceso, Umc, Resultado, listo, falla, sin_fin, ◌>>=◌, ◌>>◌, esperar, obtener,
}
use so_unoficial.Umc.Tables.{encontrar_posicion_en_procesos}

-- `indice++`, back to 0 at the end of the list.
unfoldable pub siguiente : ℕ → List Frame → ℕ
siguiente i fs = if suc i == length fs then 0 else suc i

unfoldable pub proximo_marco : ℕ → ℕ → ℕ → List Frame → Resultado ℕ
proximo_marco zero pid i fs = sin_fin
proximo_marco (suc fuel) pid i fs = elim (get_elem? fs i) [
  | none ↦ falla
  | some f ↦
      let rest = proximo_marco fuel pid (siguiente i fs) fs in
      if f.pid == pid then listo i else rest
]

-- moverPunteroProximaPosibleVictima: the next frame of the process.
unfoldable pub mover_puntero : ℕ → ℕ → List Frame → Resultado ℕ
mover_puntero indice pid fs = proximo_marco (suc (length fs)) pid (siguiente indice fs) fs

unfoldable pub sin_referencia : ℕ → List Frame → List Frame
sin_referencia i fs = modify (λ f. record f { bit_referencia = 0 }) i fs

-- The loop of buscarVictimaClock: the position of the victim, and the frames. Without a frame at
-- `indice` the victim is not set.
unfoldable pub recorrer : ℕ → ℕ → ℕ → List Frame → Resultado (ℕ × List Frame)
recorrer zero pid i fs = sin_fin
recorrer (suc fuel) pid i fs = elim (get_elem? fs i) [
  | none ↦ falla
  | some f ↦
      let passed = recorrer fuel pid (siguiente i fs) fs in
      let cleared = recorrer fuel pid (siguiente i fs) (sin_referencia i fs) in
      if f.pid == pid
      then if f.bit_referencia == 0
        then listo (i, fs)
        else if f.bit_referencia == 1
        then cleared
        else passed
      else passed
]

-- What both algorithms do with a victim: the pointer of the process moves behind it.
unfoldable pub con_victima : ℕ → ℕ → Umc → ℕ × List Frame → Resultado (ℕ × Umc)
con_victima pid indice u (victima, fs) = do
  puntero ← mover_puntero victima pid fs
  listo (
    victima,
    record u {
      lista_de_frames = fs;
      lista_de_procesos =
          modify (λ p. record p { indice_recorrida_clock = puntero }) indice u.lista_de_procesos;
    },
  )

unfoldable pub buscar_victima_clock : ℕ → Umc → Resultado (ℕ × Umc)
buscar_victima_clock pid u = do
  let i = encontrar_posicion_en_procesos pid u.lista_de_procesos
  p ← obtener (get_elem? u.lista_de_procesos i)
  esperar u.mutex_marcos
  hallada ←
      recorrer (suc (2 * length u.lista_de_frames)) pid p.indice_recorrida_clock u.lista_de_frames
  con_victima pid i u hallada

-- The loop of buscarVictimaClockModificado. `segunda` is `recorrida == 1`: the turn that accepts a
-- modified frame and clears the bits of reference; a turn ends at `vuelta`.
unfoldable pub recorrer_modificado : ℕ → ℕ → ℕ → Bool → ℕ → List Frame → Resultado (ℕ × List Frame)
recorrer_modificado zero pid vuelta segunda i fs = sin_fin
recorrer_modificado (suc fuel) pid vuelta segunda i fs = elim (get_elem? fs i) [
  | none ↦ falla
  | some f ↦
      let j = siguiente i fs in
      let turno = if j == vuelta then not segunda else segunda in
      let passed = recorrer_modificado fuel pid vuelta turno j fs in
      let cleared = recorrer_modificado fuel pid vuelta turno j (sin_referencia i fs) in
      if f.pid == pid
      then if f.bit_referencia == 0 && f.bit_modificado == (if segunda then 1 else 0)
        then listo (i, fs)
        else if segunda
        then cleared
        else passed
      else passed
]

unfoldable pub buscar_victima_clock_modificado : ℕ → Umc → Resultado (ℕ × Umc)
buscar_victima_clock_modificado pid u = do
  let i = encontrar_posicion_en_procesos pid u.lista_de_procesos
  p ← obtener (get_elem? u.lista_de_procesos i)
  esperar u.mutex_marcos
  hallada ←
      recorrer_modificado (suc (4 * length u.lista_de_frames)) pid p.indice_recorrida_clock false
        p.indice_recorrida_clock u.lista_de_frames
  con_victima pid i u hallada
