-- ===== src/Umc/Programs.antt =====
-- The programs of umc/funciones.c: how one starts, ends, and takes the place of another in a CPU.
pub mod End
use so_unoficial.Prelude.{
  ℕ, zero, suc, ◌+◌, ◌-◌, ◌*◌, ◌/◌, ◌^◌, ◌%◌, Bool, true, false, List, [], ◌∷◌, ◌++◌, erase_at,
  length, c_string, le32, ltb, ◌==◌, if◌then◌else◌,
}
use so_unoficial.Umc.State.{Proceso, Umc, Env, Resultado, listo, falla, ◌>>=◌, ◌>>◌, esperar}
use so_unoficial.Umc.Frames.{liberar_marcos}
use so_unoficial.Umc.Tlb.{limpiar_entradas_tlb}
use so_unoficial.Umc.Tables.{encontrar_posicion_en_procesos, liberar_paginas, paginas_desde}
use so_unoficial.Umc.Swapping.{pedido_de_inicio, avisar_fin_a_swap, enviar_codigo_al_swap}

-- FINALIZAR_PROGRAMA_UMC, ERROR_OVERFLOW, PROGRAMA_INICIALIZADO and PROGRAMA_NO_INICIALIZADO
abbrev pub finalizar_programa_umc : ℕ
finalizar_programa_umc = 8

abbrev pub error_overflow : ℕ
error_overflow = 9

abbrev pub programa_inicializado : ℕ
programa_inicializado = 10

abbrev pub programa_no_inicializado : ℕ
programa_no_inicializado = 11

unfoldable pub avisar_nucleo : List ℕ → Umc → Umc
avisar_nucleo bytes u = record u { a_nucleo = u.a_nucleo ++ bytes }

unfoldable pub avisar_nucleo_fin_programa_por_overflow : ℕ → Umc → Umc
avisar_nucleo_fin_programa_por_overflow pid u = avisar_nucleo (le32 pid ++ le32 error_overflow) u

unfoldable pub avisar_nucleo_fin_programa : ℕ → Umc → Umc
avisar_nucleo_fin_programa pid u = avisar_nucleo (le32 pid ++ le32 finalizar_programa_umc) u

-- The pages that `largo` bytes take.
unfoldable pub cantidad_paginas_codigo : ℕ → ℕ → ℕ
cantidad_paginas_codigo largo tamanio_frame =
    if ltb 0 (largo % tamanio_frame) then suc (largo / tamanio_frame) else largo / tamanio_frame

-- The number of rounds of a loop up to an `int`.
unfoldable pub vueltas : ℕ → ℕ
vueltas n = if ltb n (2 ^ 31) then n else 0

-- The new process. `cantPaginas` is a uint8_t; the position of the clock is not set.
unfoldable pub proceso_nuevo : Env → ℕ → ℕ → Umc → Proceso
proceso_nuevo env pid cant_paginas u = record {
  pid = pid;
  cant_paginas = cant_paginas % 256;
  cant_frames_asignados = 0;
  indice_recorrida_clock = env.entero;
  lista_paginas = paginas_desde (suc u.cantidad_de_frames) 0 (vueltas cant_paginas);
}

-- What inicializarPrograma does with the answer of Swap. Swap answers EXITO_SWAP or ERROR_SWAP; the
-- code looks for 1, and gives mutexSwap back only then.
unfoldable pub segun_validacion : Env → ℕ → ℕ → ℕ → List ℕ → ℕ → Umc → Resultado Umc
segun_validacion env pid cant_paginas cant_codigo codigo validacion u =
    if validacion == 1 then listo (avisar_nucleo (le32 programa_no_inicializado) u) else do
      t ←
          enviar_codigo_al_swap env pid cant_codigo codigo
            (record (avisar_nucleo (le32 programa_inicializado) u) { mutex_swap = true })
      listo (record t {
        lista_de_procesos = t.lista_de_procesos ++ proceso_nuevo env pid cant_paginas t ∷ [];
      })

-- inicializarPrograma, with the bytes at `codPrograma` up to a NUL.
unfoldable pub inicializar_programa : Env → ℕ → ℕ → List ℕ → Umc → Resultado Umc
inicializar_programa env pid cant_paginas cod_programa u =
    let codigo = c_string cod_programa in
    let cant_codigo = cantidad_paginas_codigo (suc (length codigo)) u.tamanio_frame in
    if u.tamanio_frame == 0 then falla else do
      esperar u.mutex_swap
      (validacion, t) ← pedido_de_inicio env cant_codigo pid u
      segun_validacion env pid cant_paginas cant_codigo codigo validacion t

unfoldable pub finalizar_programa : Env → ℕ → Umc → Resultado Umc
finalizar_programa env pid u = do
  let indice = encontrar_posicion_en_procesos pid u.lista_de_procesos
  t1 ← liberar_marcos pid u
  t2 ← liberar_paginas indice t1
  let t3 = record t2 { lista_de_procesos = erase_at indice t2.lista_de_procesos }
  let t4 = if ltb 0 t3.entradas_tlb then limpiar_entradas_tlb pid t3 else t3
  esperar t4.mutex_swap
  avisar_fin_a_swap env pid t4

-- cambioProceso: the new active process.
unfoldable pub cambio_proceso : ℕ → ℕ → Umc → ℕ × Umc
cambio_proceso id_nuevo_programa id_proceso_activo u = (
  id_nuevo_programa,
  if ltb 0 u.entradas_tlb then limpiar_entradas_tlb id_proceso_activo u else u,
)
