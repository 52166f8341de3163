-- ===== src/Umc/Tlb.antt =====
-- The translation buffer of umc/funciones.c, a list of entries of which those with PID 0 are free.
pub mod Oldest
pub mod Loaded
use so_unoficial.Prelude.{
  ℕ, zero, suc, ◌+◌, ◌^◌, ◌%◌, Bool, Option, none, some, List, [], ◌∷◌, ◌++◌, map, modify,
  modify_first, find_first, position_from, get_elem?, ltb, ◌==◌, ◌&&◌, if◌then◌else◌,
}
use so_unoficial.Umc.State.{
  EntradaTlb, Umc, Env, Resultado, listo, ◌>>=◌, ◌>>◌, esperar, obtener, menos_uno,
}

-- `ultimo_acceso` is a uint16_t.
unfoldable pub acceso_actual : Umc → ℕ
acceso_actual u = u.accesos_a_memoria % 2 ^ 16

-- The frame of a page, or -1.
unfoldable pub buscar_en_tlb : ℕ → ℕ → List EntradaTlb → ℕ
buscar_en_tlb pid nro_pagina [] = menos_uno
buscar_en_tlb pid nro_pagina (e ∷ es) =
    let rest = buscar_en_tlb pid nro_pagina es in
    if (e.pid == pid) && (e.nro_pagina == nro_pagina) then e.id_frame else rest

-- actualizarBitUltimoAccesoTLB with the position of the first entry of the process with the frame.
unfoldable pub marcar_acceso : Option ℕ → Umc → Resultado Umc
marcar_acceso none u = listo u
marcar_acceso (some i) u = do
  esperar u.mutex_acceso_mem
  listo (record u { tlb = modify (λ e. record e { ultimo_acceso = acceso_actual u }) i u.tlb })

unfoldable pub actualizar_bit_ultimo_acceso_tlb : ℕ → ℕ → Umc → Resultado Umc
actualizar_bit_ultimo_acceso_tlb pid nro_frame u =
    marcar_acceso (position_from (λ e. e.pid == pid && e.id_frame == nro_frame) 0 u.tlb) u

unfoldable pub flush_tlb : Umc → Umc
flush_tlb u = record u { tlb = map {A = EntradaTlb} (λ e. record e { pid = 0 }) u.tlb }

unfoldable pub limpiar_entradas_tlb_por_frame : ℕ → Umc → Umc
limpiar_entradas_tlb_por_frame frame u = record u {
  tlb = map {A = EntradaTlb} (λ e. if e.id_frame == frame then record e { pid = 0 } else e) u.tlb;
}

unfoldable pub limpiar_entradas_tlb : ℕ → Umc → Umc
limpiar_entradas_tlb pid u = record u {
  tlb = map {A = EntradaTlb} (λ e. if e.pid == pid then record e { pid = 0 } else e) u.tlb;
}

-- The loop of buscarEntradaMasAntigua: `j` is the oldest entry up to `i`, with its `acceso`.
unfoldable pub mas_antigua : ℕ → ℕ → ℕ → List EntradaTlb → ℕ
mas_antigua j acceso i [] = j
mas_antigua j acceso i (e ∷ es) =
    let older = mas_antigua i e.ultimo_acceso (suc i) es in
    let rest = mas_antigua j acceso (suc i) es in if ltb e.ultimo_acceso acceso then older else rest

-- The number of accesses is read as an `int`, which no `ultimo_acceso` is below when it is negative.
unfoldable pub buscar_entrada_mas_antigua : Umc → Resultado ℕ
buscar_entrada_mas_antigua u = do
  esperar u.mutex_acceso_mem
  listo (if ltb u.accesos_a_memoria (2 ^ 31) then mas_antigua 0 u.accesos_a_memoria 0 u.tlb else 0)

unfoldable pub nueva_entrada : ℕ → ℕ → ℕ → Umc → EntradaTlb
nueva_entrada pid nro_pagina nro_frame u = record {
  nro_pagina = nro_pagina;
  id_frame = nro_frame;
  pid = pid;
  ultimo_acceso = acceso_actual u;
}

unfoldable pub lru : ℕ → ℕ → ℕ → Umc → Resultado Umc
lru pagina_nueva pid frame_nuevo u = do
  i ← buscar_entrada_mas_antigua u
  obtener (get_elem? u.tlb i)
  listo (record u { tlb = modify (λ e. nueva_entrada pid pagina_nueva frame_nuevo u) i u.tlb })

-- cargarenTLB with the position of the first free entry; else the oldest goes.
unfoldable pub cargar_en : ℕ → ℕ → ℕ → Option ℕ → Umc → Resultado Umc
cargar_en pid nro_pagina nro_frame (some i) u = do
  esperar u.mutex_acceso_mem
  listo (record u { tlb = modify (λ e. nueva_entrada pid nro_pagina nro_frame u) i u.tlb })
cargar_en pid nro_pagina nro_frame none u = lru nro_pagina pid nro_frame u

unfoldable pub cargar_en_tlb : ℕ → ℕ → ℕ → Umc → Resultado Umc
cargar_en_tlb pid nro_pagina nro_frame u =
    cargar_en pid nro_pagina nro_frame (position_from (λ e. e.pid == 0) 0 u.tlb) u

-- inicializarTLB: the fields that it does not set are those of fresh memory.
unfoldable pub entradas_nuevas : EntradaTlb → ℕ → List EntradaTlb
entradas_nuevas e zero = []
entradas_nuevas e (suc n) = e ∷ entradas_nuevas e n

unfoldable pub inicializar_tlb : EntradaTlb → Umc → Umc
inicializar_tlb fresh u = record u {
  tlb = u.tlb ++ entradas_nuevas (record fresh { ultimo_acceso = acceso_actual u }) u.entradas_tlb;
}
