-- ===== src/Umc/Requests.antt =====
-- solicitarBytes and almacenarBytesPagina of umc/funciones.c: what a CPU reads and writes.
pub mod Resident
pub mod Locks
pub mod Fault
use so_unoficial.Prelude.{
  ℕ, zero, suc, ◌+◌, ◌-◌, ◌^◌, Bool, true, false, Option, none, some, List, [], ◌∷◌, ◌++◌, le32,
  ltb, ◌==◌, ◌&&◌, if◌then◌else◌,
}
use so_unoficial.Umc.State.{
  Umc, Env, Resultado, listo, falla, ◌>>=◌, ◌>>◌, esperar, menos_uno, overflow, mayor_que_menos_uno,
}
use so_unoficial.Umc.Frames.{actualizar_bit_modificado}
use so_unoficial.Umc.Tlb.{buscar_en_tlb, actualizar_bit_ultimo_acceso_tlb, cargar_en_tlb}
use so_unoficial.Umc.Tables.{buscar_en_lista_procesos}
use so_unoficial.Umc.Memory.{lectura_memoria, escritura_memoria}
use so_unoficial.Umc.Swapping.{traer_de_swap, avisar_fin_a_swap}
use so_unoficial.Umc.Replace.{cargar_pagina_en_memoria}
use so_unoficial.Umc.Programs.{
  finalizar_programa, error_overflow, avisar_nucleo_fin_programa,
  avisar_nucleo_fin_programa_por_overflow,
}

-- OK_SOLICITUD_UMC
abbrev pub ok_solicitud_umc : ℕ
ok_solicitud_umc = 15

unfoldable pub responder : List ℕ → Umc → Umc
responder bytes u = record u { a_cpu = u.a_cpu ++ bytes }

-- The frame of a TLB hit.
unfoldable pub acierto_tlb : ℕ → ℕ → Umc → Option ℕ
acierto_tlb pid nro_pagina u =
    let nro_frame = buscar_en_tlb pid nro_pagina u.tlb in
    if ltb 0 u.entradas_tlb && mayor_que_menos_uno nro_frame then some nro_frame else none

-- A page that was found in its table goes into the TLB, where there is one.
unfoldable pub recordar_en_tlb : ℕ → ℕ → ℕ → Umc → Resultado Umc
recordar_en_tlb pid nro_pagina nro_frame u =
    if ltb 0 u.entradas_tlb
    then (do
      t ← cargar_en_tlb pid nro_pagina nro_frame u
      actualizar_bit_ultimo_acceso_tlb pid nro_frame t)
    else listo u

-- A page that the process does not have ends it; Swap is told once by finalizarPrograma and once here.
unfoldable pub terminar_por_overflow : Env → ℕ → Umc → Resultado Umc
terminar_por_overflow env pid u = do
  t ← finalizar_programa env pid u
  v ← avisar_fin_a_swap env pid (avisar_nucleo_fin_programa_por_overflow pid t)
  listo (responder (le32 error_overflow) v)

-- What solicitarBytes does with a page that Swap keeps: `nro_frame` is -1 from the search.
unfoldable pub solicitar_de_swap : Env → ℕ → ℕ → ℕ → ℕ → ℕ → Umc → Resultado Umc
solicitar_de_swap env nro_pagina offset tamanio pid nro_frame u = do
  (buffer, t) ← traer_de_swap env nro_pagina pid u
  (validacion, v) ← cargar_pagina_en_memoria env pid nro_pagina buffer nro_frame t
  elim validacion [
    | none ↦ do
      esperar v.mutex_swap
      w ← avisar_fin_a_swap env pid (responder (le32 0) v)
      listo (avisar_nucleo_fin_programa pid w)
    | some frame ↦ do
      (bytes, w) ← lectura_memoria frame offset tamanio v
      listo (responder (le32 ok_solicitud_umc ++ bytes) w)
  ]

-- What solicitarBytes does with what the search in the page tables gave.
unfoldable pub solicitar_segun : Env → ℕ → ℕ → ℕ → ℕ → ℕ → Umc → Resultado Umc
solicitar_segun env nro_pagina offset tamanio pid nro_frame u =
    if nro_frame == overflow
    then terminar_por_overflow env pid u
    else if mayor_que_menos_uno nro_frame
    then (do
      (bytes, t) ← lectura_memoria nro_frame offset tamanio u
      v ← recordar_en_tlb pid nro_pagina nro_frame t
      listo (responder (le32 ok_solicitud_umc ++ bytes) v))
    else solicitar_de_swap env nro_pagina offset tamanio pid nro_frame u

-- solicitarBytes with a TLB hit, or without.
unfoldable pub solicitar_con : Env → ℕ → ℕ → ℕ → ℕ → Option ℕ → Umc → Resultado Umc
solicitar_con env nro_pagina offset tamanio pid (some nro_frame) u = do
  (bytes, t) ← lectura_memoria nro_frame offset tamanio u
  v ← actualizar_bit_ultimo_acceso_tlb pid nro_frame t
  listo (responder (le32 ok_solicitud_umc ++ bytes) v)
solicitar_con env nro_pagina offset tamanio pid none u =
    solicitar_segun env nro_pagina offset tamanio pid
      (buscar_en_lista_procesos pid nro_pagina u.lista_de_procesos) u

unfoldable pub solicitar_bytes : Env → ℕ → ℕ → ℕ → ℕ → Umc → Resultado Umc
solicitar_bytes env nro_pagina offset tamanio pid u =
    solicitar_con env nro_pagina offset tamanio pid (acierto_tlb pid nro_pagina u) u

-- almacenarBytesPagina for a page that could not be loaded, mutexSwap taken, with the frame of a
-- second search.
unfoldable pub almacenar_sin_marco : Env → ℕ → ℕ → List ℕ → ℕ → ℕ → Umc → Resultado Umc
almacenar_sin_marco env offset tamanio buffer pid nro_frame u =
    if nro_frame == overflow
    then (do
      t ← finalizar_programa env pid u
      v ← avisar_fin_a_swap env pid t
      listo (avisar_nucleo_fin_programa pid (record v { mutex_swap = false })))
    else escritura_memoria nro_frame offset tamanio buffer (responder (le32 ok_solicitud_umc) u)

-- The end of almacenarBytesPagina. After a page that Swap kept has been loaded, nothing is written
-- and nothing is answered; the answer `OK` stands in the branch of the page that could not be loaded.
unfoldable pub almacenar_de_swap : Env → ℕ → ℕ → ℕ → List ℕ → ℕ → ℕ → Umc → Resultado Umc
almacenar_de_swap env nro_pagina offset tamanio buffer pid nro_frame u = do
  (recibo, t) ← traer_de_swap env nro_pagina pid u
  (validacion, v) ← cargar_pagina_en_memoria env pid nro_pagina recibo nro_frame t
  elim validacion [
    | none ↦ do
      esperar v.mutex_swap
      almacenar_sin_marco env offset tamanio buffer pid
          (buscar_en_lista_procesos pid nro_pagina v.lista_de_procesos)
          (record (responder (le32 env.entero) v) { mutex_swap = true })
    | some frame ↦ listo v
  ]

unfoldable pub almacenar_segun : Env → ℕ → ℕ → ℕ → List ℕ → ℕ → ℕ → Umc → Resultado Umc
almacenar_segun env nro_pagina offset tamanio buffer pid nro_frame u =
    if nro_frame == overflow
    then (do
      t ← finalizar_programa env pid u
      esperar t.mutex_swap
      v ← avisar_fin_a_swap env pid (avisar_nucleo_fin_programa_por_overflow pid t)
      listo (responder (le32 error_overflow) v))
    else if mayor_que_menos_uno nro_frame
    then (do
      t ← recordar_en_tlb pid nro_pagina nro_frame u
      v ← escritura_memoria nro_frame offset tamanio buffer (responder (le32 ok_solicitud_umc) t)
      actualizar_bit_modificado nro_frame v)
    else almacenar_de_swap env nro_pagina offset tamanio buffer pid nro_frame u

-- almacenarBytesPagina with a TLB hit, or without.
unfoldable pub almacenar_con : Env → ℕ → ℕ → ℕ → List ℕ → ℕ → Option ℕ → Umc → Resultado Umc
almacenar_con env nro_pagina offset tamanio buffer pid (some nro_frame) u = do
  t ← escritura_memoria nro_frame offset tamanio buffer u
  v ← actualizar_bit_modificado nro_frame t
  w ← actualizar_bit_ultimo_acceso_tlb pid nro_frame v
  listo (responder (le32 ok_solicitud_umc) w)
almacenar_con env nro_pagina offset tamanio buffer pid none u =
    almacenar_segun env nro_pagina offset tamanio buffer pid
      (buscar_en_lista_procesos pid nro_pagina u.lista_de_procesos) u

unfoldable pub almacenar_bytes_pagina : Env → ℕ → ℕ → ℕ → List ℕ → ℕ → Umc → Resultado Umc
almacenar_bytes_pagina env nro_pagina offset tamanio buffer pid u =
    almacenar_con env nro_pagina offset tamanio buffer pid (acierto_tlb pid nro_pagina u) u
