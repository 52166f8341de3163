-- ===== src/Umc/Tables.antt =====
-- The processes of umc/funciones.c and their page tables.
pub mod Lookup
use so_unoficial.Prelude.{
  ℕ, zero, suc, ◌+◌, ◌^◌, ◌%◌, Bool, Option, none, some, List, [], ◌∷◌, ◌++◌, map, modify, drop,
  modify_first, find_first, position_from, get_elem?, length, ltb, ◌==◌, ◌&&◌, if◌then◌else◌,
}
use so_unoficial.Umc.State.{
  Pagina, Proceso, Status, en_memoria, en_swap, Umc, Env, Resultado, listo, ◌>>=◌, ◌>>◌, esperar,
  obtener, menos_uno, overflow,
}

unfoldable pub posicion : Option ℕ → ℕ
posicion none = menos_uno
posicion (some i) = i

unfoldable pub encontrar_posicion_en_procesos : ℕ → List Proceso → ℕ
encontrar_posicion_en_procesos pid ps = posicion (position_from (λ p. p.pid == pid) 0 ps)

-- The frame of a page, -1 when it is in Swap.
unfoldable pub marco : Pagina → ℕ
marco p = elim p.status [ en_memoria ↦ p.id_frame | en_swap ↦ menos_uno ]

-- buscarEnListaProcesos. The position `j` in a page table is not set back for the next process with
-- the PID.
unfoldable pub buscar_desde : ℕ → ℕ → ℕ → List Proceso → ℕ
buscar_desde pid nro_pagina j [] = overflow
buscar_desde pid nro_pagina j (p ∷ ps) =
    let skipped = buscar_desde pid nro_pagina j ps in
    let later =
      buscar_desde pid nro_pagina
        (if ltb j (length p.lista_paginas) then length p.lista_paginas else j) ps in
    if p.pid == pid
    then elim (find_first (λ q. q.nro_pagina == nro_pagina) (drop j p.lista_paginas)) [
      | some q ↦ marco q
      | none ↦ later
    ]
    else skipped

unfoldable pub buscar_en_lista_procesos : ℕ → ℕ → List Proceso → ℕ
buscar_en_lista_procesos pid nro_pagina ps = buscar_desde pid nro_pagina 0 ps

-- A change of the page table of the process at a position, which the code reads with list_get.
unfoldable pub cambiar_paginas : (List Pagina → List Pagina) → ℕ → Umc → Resultado Umc
cambiar_paginas f indice u = do
  obtener (get_elem? u.lista_de_procesos indice)
  listo (record u {
    lista_de_procesos =
        modify (λ p. record p { lista_paginas = f p.lista_paginas }) indice u.lista_de_procesos;
  })

-- The loop of realizarCambiosEnPaginaVieja.
unfoldable pub pagina_vieja : ℕ → List Pagina → List Pagina
pagina_vieja frame ps =
    modify_first (λ q. q.id_frame == frame) (λ q. record q { status = en_swap }) ps

unfoldable pub realizar_cambios_en_pagina_vieja : ℕ → ℕ → Umc → Resultado Umc
realizar_cambios_en_pagina_vieja frame indice u = cambiar_paginas (pagina_vieja frame) indice u

-- The loop of realizarCambiosEnPaginaNueva.
unfoldable pub pagina_nueva : ℕ → ℕ → List Pagina → List Pagina
pagina_nueva nro_pagina frame ps =
    modify_first (λ q. q.nro_pagina == nro_pagina)
      (λ q. record q { id_frame = frame; status = en_memoria }) ps

unfoldable pub realizar_cambios_en_pagina_nueva : ℕ → ℕ → ℕ → Umc → Resultado Umc
realizar_cambios_en_pagina_nueva nro_pagina frame indice u =
    cambiar_paginas (pagina_nueva nro_pagina frame) indice u

unfoldable pub liberar_paginas : ℕ → Umc → Resultado Umc
liberar_paginas indice u = cambiar_paginas (λ ps. []) indice u

-- The pages that inicializarPrograma lists, from number `i` on.
unfoldable pub paginas_desde : ℕ → ℕ → ℕ → List Pagina
paginas_desde id_frame i zero = []
paginas_desde id_frame i (suc n) =
    record { id_frame = id_frame; nro_pagina = i; status = en_swap }
    ∷ paginas_desde id_frame (suc i) n
