-- ===== src/Umc/Replace.antt =====
-- How umc/funciones.c brings a page into memory: a free frame or the replacement of another page.
pub mod Load
use so_unoficial.Prelude.{
  ℕ, zero, suc, ◌+◌, ◌*◌, ◌^◌, ◌%◌, Bool, true, false, not, Option, none, some, List, [], ◌∷◌,
  modify, get_elem?, find_first, last_of, position_from, bytes_eq, length, ltb, ◌-◌, ◌==◌, ◌&&◌,
  ◌||◌, if◌then◌else◌,
}
use so_unoficial.Umc.State.{
  Frame, Pagina, Proceso, Umc, Env, Resultado, listo, falla, ◌>>=◌, ◌>>◌, esperar, obtener,
}
use so_unoficial.Umc.Frames.{cantidad_frames_disponibles, cuenta_libres}
use so_unoficial.Umc.Tlb.{limpiar_entradas_tlb_por_frame}
use so_unoficial.Umc.Tables.{
  encontrar_posicion_en_procesos, pagina_vieja, cambiar_paginas, realizar_cambios_en_pagina_vieja,
  realizar_cambios_en_pagina_nueva,
}
use so_unoficial.Umc.Memory.{lectura_memoria, escritura_memoria}
use so_unoficial.Umc.Swapping.{mandar_a_swap}
use so_unoficial.Umc.Clock.{buscar_victima_clock, buscar_victima_clock_modificado}

-- `nodoPagAux` behind the loop of indicarPaginaQueVaAlSwapyEnviar: the first page with the frame, else
-- the last page.
unfoldable pub pagina_recorrida : ℕ → List Pagina → Option Pagina
pagina_recorrida frame ps = elim (find_first (λ q. q.id_frame == frame) ps) [
  | some q ↦ some q
  | none ↦ last_of ps
]

-- The page `q` is sent, read from the frame, when the frame was modified.
unfoldable pub enviar_si_modificado : Env → ℕ → ℕ → ℕ → Option Pagina → Umc → Resultado Umc
enviar_si_modificado env id_frame bit_modificado pid q u =
    if bit_modificado == 1
    then (do
      (buffer, t) ← lectura_memoria id_frame 0 u.tamanio_frame u
      esperar t.mutex_swap
      pagina ← obtener q
      mandar_a_swap env pid pagina.nro_pagina buffer t)
    else listo u

unfoldable pub indicar_pagina_que_va_al_swap_y_enviar : Env → ℕ → ℕ → ℕ → ℕ → Umc → Resultado Umc
indicar_pagina_que_va_al_swap_y_enviar env id_frame indice bit_modificado pid u = do
  p ← obtener (get_elem? u.lista_de_procesos indice)
  t ← realizar_cambios_en_pagina_vieja id_frame indice u
  enviar_si_modificado env id_frame bit_modificado pid (pagina_recorrida id_frame p.lista_paginas) t

-- "CLOCK" and "CLOCK-M"
abbrev pub clock : List ℕ
clock = 67 ∷ 76 ∷ 79 ∷ 67 ∷ 75 ∷ []

abbrev pub clock_m : List ℕ
clock_m = 67 ∷ 76 ∷ 79 ∷ 67 ∷ 75 ∷ 45 ∷ 77 ∷ []

-- The choice of the victim. The result of strcmp with "CLOCK-M" is not compared with 0: for that
-- name no victim is set.
unfoldable pub victima : ℕ → Umc → Resultado (ℕ × Umc)
victima pid u =
    if bytes_eq u.algoritmo clock
    then buscar_victima_clock pid u
    else if bytes_eq u.algoritmo clock_m
    then falla
    else buscar_victima_clock_modificado pid u

-- What algoritmoDeReemplazo does with a modified victim, mutexMarcos taken.
unfoldable pub guardar_victima : Env → Frame → ℕ → ℕ → ℕ → Umc → Resultado Umc
guardar_victima env f v indice pid u =
    if f.bit_modificado == 1
    then (do
      t ←
          indicar_pagina_que_va_al_swap_y_enviar env f.id_frame indice f.bit_modificado pid
            (record u { mutex_marcos = true })
      listo (record t {
        lista_de_frames = modify (λ g. record g { bit_modificado = 0 }) v t.lista_de_frames;
        mutex_marcos = false;
      }))
    else listo u

-- algoritmoDeReemplazo: the frame that `codigo` was written to.
unfoldable pub algoritmo_de_reemplazo : Env → ℕ → ℕ → List ℕ → Umc → Resultado (ℕ × Umc)
algoritmo_de_reemplazo env pid pag_nueva codigo u = do
  (v, t1) ← victima pid u
  let indice = encontrar_posicion_en_procesos pid t1.lista_de_procesos
  esperar t1.mutex_marcos
  f ← obtener (get_elem? t1.lista_de_frames v)
  t2 ← guardar_victima env f v indice pid t1
  t3 ← realizar_cambios_en_pagina_vieja f.id_frame indice t2
  t4 ←
      realizar_cambios_en_pagina_nueva pag_nueva f.id_frame indice
        (limpiar_entradas_tlb_por_frame f.id_frame t3)
  t5 ← escritura_memoria f.id_frame 0 t4.tamanio_frame codigo t4
  listo (f.id_frame, t5)

-- `framesAux` behind the loop over the frames: the first free one, else the last.
unfoldable pub marco_recorrido : List Frame → Option Frame
marco_recorrido fs = elim (find_first (λ f. f.pid == 0) fs) [ some f ↦ some f | none ↦ last_of fs ]

-- A free frame at position `j` taken for the page; without one the frames stay and `*id_frame` is
-- not set.
unfoldable pub tomar_marco : ℕ → ℕ → ℕ → ℕ → Option ℕ → Umc → Resultado (ℕ × Umc)
tomar_marco pid nro_pagina indice id_frame none u = listo (id_frame, u)
tomar_marco pid nro_pagina indice id_frame (some j) u = do
  f ← obtener (get_elem? u.lista_de_frames j)
  t ← realizar_cambios_en_pagina_nueva nro_pagina j indice (record u {
    lista_de_frames =
        modify (λ g. record g { pid = pid; bit_referencia = 1; bit_modificado = 0 }) j
          u.lista_de_frames;
  })
  listo (f.id_frame, t)

-- One frame more for the process, a uint8_t; with the first one the clock starts there.
unfoldable pub un_marco_mas : ℕ → Proceso → Proceso
un_marco_mas j p =
    let n = suc p.cant_frames_asignados % 256 in
    record p {
      cant_frames_asignados = n;
      indice_recorrida_clock = (if n == 1 then j else p.indice_recorrida_clock);
    }

-- `j` behind the loop over the frames.
unfoldable pub posicion_libre : Option ℕ → List Frame → ℕ
posicion_libre none fs = length fs
posicion_libre (some j) fs = j

-- The branch of cargarPaginaenMemoria for a process that may have another frame.
unfoldable pub cargar_en_libre : ℕ → ℕ → ℕ → List ℕ → ℕ → Umc → Resultado (ℕ × Umc)
cargar_en_libre pid nro_pagina indice buffer id_frame u = do
  esperar u.mutex_marcos
  let libre = position_from (λ f. f.pid == 0) 0 u.lista_de_frames
  g ← obtener (marco_recorrido u.lista_de_frames)
  (id, t) ← tomar_marco pid nro_pagina indice id_frame libre u
  v ← escritura_memoria g.id_frame 0 t.tamanio_frame buffer (record t {
    lista_de_procesos =
        modify (un_marco_mas (posicion_libre libre u.lista_de_frames)) indice t.lista_de_procesos;
  })
  listo (id, v)

-- The process that the first loop of cargarPaginaenMemoria ends at, and whether it has the PID.
unfoldable pub proceso_recorrido : ℕ → List Proceso → ℕ × Bool
proceso_recorrido pid ps = elim (position_from (λ p. p.pid == pid) 0 ps) [
  | some i ↦ (i, true)
  | none ↦ (length ps - 1, false)
]

-- `cantDisponibles`, which is only set for a process that is permitted its first frame.
unfoldable pub cant_disponibles : Env → Bool → Proceso → Umc → Resultado ℕ
cant_disponibles env permitido p u =
    if permitido && p.cant_frames_asignados == 0
    then cantidad_frames_disponibles u
    else listo env.entero

-- The branches of cargarPaginaenMemoria: none for -1.
unfoldable pub cargar_segun :
    Env → ℕ → ℕ → ℕ → List ℕ → ℕ → Proceso → Bool → ℕ → Umc → Resultado (Option ℕ × Umc)
cargar_segun env pid nro_pagina indice buffer id_frame p permitido cant u =
    if cant == 0 && p.cant_frames_asignados == 0 then listo (none, u) else (do
      (id, t) ←
          if permitido
          then cargar_en_libre pid nro_pagina indice buffer id_frame u
          else algoritmo_de_reemplazo env pid nro_pagina buffer u
      listo (some id, t))

-- cargarPaginaenMemoria: the frame is `id_frame` where none is set.
unfoldable pub cargar_pagina_en_memoria :
    Env → ℕ → ℕ → List ℕ → ℕ → Umc → Resultado (Option ℕ × Umc)
cargar_pagina_en_memoria env pid nro_pagina buffer id_frame u = do
  let (indice, hallado) = proceso_recorrido pid u.lista_de_procesos
  p ← obtener (get_elem? u.lista_de_procesos indice)
  let permitido = hallado && ltb p.cant_frames_asignados u.marcos_x_proc
  cant ← cant_disponibles env permitido p u
  esperar u.mutex_marcos
  cargar_segun env pid nro_pagina indice buffer id_frame p permitido cant u
