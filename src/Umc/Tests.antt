-- ===== src/Umc/Tests.antt =====
-- The UMC with two frames of four bytes, and Swap with a small file.
use so_unoficial.Prelude.{
  ℕ, zero, suc, ◌≤◌, ◌<◌, ◌≡◌, ◌≢◌, refl, ap, ◌⊎◌, inr, false, some, none, List, [], ◌∷◌, ◌++◌,
  le32, modify, get_elem?, c_string, ◌==◌, if◌then◌else◌, arith,
}
use so_unoficial.Swap.State.{entry, no_pid, Swap}
use so_unoficial.Swap.Orders.{answered, copiar, realizar_pedido_umc}
use so_unoficial.Swap.Orders.Content.{Stored}
use so_unoficial.Umc.Messages.{pedir_al_swap, enviar_pagina_al_swap}
use so_unoficial.Umc.Paging.{enviar_pagina_al_swap-pedir_al_swap}
use so_unoficial.Swap.State.{zeros, bytes_at}
use so_unoficial.Swap.State.Pages.{length-zeros, page}
use so_unoficial.Umc.State.{
  Frame, Pagina, Proceso, EntradaTlb, en_memoria, en_swap, Umc, Env, listo, bloqueado,
}
use so_unoficial.Umc.Tlb.{buscar_en_tlb, nueva_entrada, cargar_en_tlb}
use so_unoficial.Umc.Tlb.Oldest.{DesdeAcceso}
use so_unoficial.Umc.Tlb.Loaded.{cargar_en_tlb-buscar_en_tlb}
use so_unoficial.Umc.Tables.{
  posicion, encontrar_posicion_en_procesos, marco, buscar_desde, buscar_en_lista_procesos,
  pagina_vieja, pagina_nueva,
}
use so_unoficial.Umc.Memory.Access.{Libres}
use so_unoficial.Umc.Swapping.Fetch.{Guardada}
use so_unoficial.Umc.Clock.{buscar_victima_clock, buscar_victima_clock_modificado}
use so_unoficial.Umc.Clock.Pointer.{Elige}
use so_unoficial.Umc.Clock.Turns.{buscar_victima_clock-ends}
use so_unoficial.Umc.Clock.Modified.{buscar_victima_clock_modificado-ends}
use so_unoficial.Umc.Replace.{clock}
use so_unoficial.Umc.Replace.Load.{HayLibre}
use so_unoficial.Umc.Programs.{finalizar_programa}
use so_unoficial.Umc.Programs.End.{Terminado, finalizar_programa-Terminado}
use so_unoficial.Umc.Requests.{
  acierto_tlb, ok_solicitud_umc, solicitar_bytes, almacenar_bytes_pagina,
}
use so_unoficial.Umc.Requests.Resident.{almacenar_bytes_pagina-solicitar_bytes}
use so_unoficial.Umc.Requests.Locks.{solicitar_bytes_waits}
use so_unoficial.Umc.Requests.Fault.{solicitar_bytes_from_swap}

-- Two pages of 3 bytes; the second is the first one of process 8.
abbrev two_pages : Swap
two_pages = record {
  bit_map = λ i. if i == 1 then entry 8 1 else entry no_pid 0;
  archivo_swap = record { size = 6; byte = λ k. 0 };
  cant_pag = 2;
  tam_pag = 3;
}

two_pages_first : (k : ℕ) → k < 1 → (two_pages.bit_map k).pid ≢ 8
two_pages_first zero h e = ground arith
two_pages_first (suc k) h e = absurd (omega arith)

enviar_pagina_al_swap-pedir_al_swap_example :
    (t : Swap) × (realizar_pedido_umc 0
        (copiar 3 (0 ∷ 5 ∷ []) (enviar_pagina_al_swap 3 8 0 (7 ∷ 8 ∷ 9 ∷ [])))
        two_pages
      ≡ answered [] (7 ∷ 8 ∷ 9 ∷ []) t)
    × (realizar_pedido_umc 0 (copiar 3 (6 ∷ 0 ∷ []) (pedir_al_swap 8 0)) t
        ≡ answered ((7 ∷ 8 ∷ 9 ∷ []) ++ 6 ∷ []) (7 ∷ 8 ∷ 9 ∷ []) t)
    × Stored 1 (7 ∷ 8 ∷ 9 ∷ []) two_pages t
unfolding c_string
enviar_pagina_al_swap-pedir_al_swap_example =
    enviar_pagina_al_swap-pedir_al_swap 0 8 0 (7 ∷ 8 ∷ 9 ∷ []) (0 ∷ 5 ∷ []) (6 ∷ 0 ∷ []) two_pages 1
      (omega arith) refl two_pages_first (omega arith) (omega arith) (omega arith) refl refl refl
      (omega arith) (omega arith)

-- Three pages of 4 bytes; those of process 8 are the last two.
abbrev three_pages : Swap
three_pages = record {
  bit_map = λ i. if i == 0 then entry no_pid 0 else entry 8 1;
  archivo_swap = record { size = 12; byte = λ k. k };
  cant_pag = 3;
  tam_pag = 4;
}

abbrev page_in_memory : Pagina
page_in_memory = record { id_frame = 0; nro_pagina = 0; status = en_memoria }

abbrev page_in_swap : Pagina
page_in_swap = record { id_frame = 3; nro_pagina = 1; status = en_swap }

abbrev process : Proceso
process = record {
  pid = 8;
  cant_paginas = 2;
  cant_frames_asignados = 1;
  indice_recorrida_clock = 0;
  lista_paginas = page_in_memory ∷ page_in_swap ∷ [];
}

abbrev used_frame : Frame
used_frame = record { id_frame = 0; pid = 8; bit_referencia = 1; bit_modificado = 1 }

abbrev free_frame : Frame
free_frame = record { id_frame = 1; pid = 0; bit_referencia = 0; bit_modificado = 0 }

abbrev umc : Umc
umc = record {
  lista_de_procesos = process ∷ [];
  lista_de_frames = used_frame ∷ free_frame ∷ [];
  tlb = [];
  memoria_principal = λ k. 0;
  accesos_a_memoria = 5;
  entradas_tlb = 0;
  marcos_x_proc = 2;
  tamanio_frame = 4;
  cantidad_de_frames = 2;
  algoritmo = clock;
  mutex_marcos = false;
  mutex_swap = false;
  mutex_acceso_mem = false;
  swap = three_pages;
  de_swap = [];
  a_cpu = [];
  a_nucleo = [];
}

abbrev free_entry : EntradaTlb
free_entry = record { nro_pagina = 0; id_frame = 0; pid = 0; ultimo_acceso = 2 }

abbrev umc_with_tlb : Umc
umc_with_tlb = record umc { tlb = free_entry ∷ []; entradas_tlb = 1 }

abbrev env : Env
env = record {
  fresh = zeros;
  length_fresh = length-zeros;
  entero = 77;
  fin = 0;
  detras = 0 ∷ 5 ∷ [];
}

free_locks : Libres umc
free_locks = record { marcos = refl; acceso_mem = refl }

buscar_victima_clock-ends_example : Elige 8 0 umc (buscar_victima_clock 8 umc)
unfolding encontrar_posicion_en_procesos posicion
buscar_victima_clock-ends_example =
    buscar_victima_clock-ends 8 0 0 umc process used_frame refl refl (omega arith) refl refl refl
      (omega arith)

buscar_victima_clock_modificado-ends_example : Elige 8 0 umc (buscar_victima_clock_modificado 8 umc)
unfolding encontrar_posicion_en_procesos posicion
buscar_victima_clock_modificado-ends_example =
    buscar_victima_clock_modificado-ends 8 0 0 umc process used_frame refl refl (omega arith) refl
      refl refl (omega arith)

almacenar_bytes_pagina-solicitar_bytes_example :
    (t : Umc) × (v : Umc) × (almacenar_bytes_pagina env 0 1 2 (5 ∷ 6 ∷ []) 8 umc ≡ listo t)
    × (solicitar_bytes env 0 1 2 8 t ≡ listo v)
    × (v.a_cpu ≡ ([] ++ le32 ok_solicitud_umc) ++ (le32 ok_solicitud_umc ++ 5 ∷ 6 ∷ []))
    × (v.lista_de_procesos ≡ umc.lista_de_procesos)
unfolding buscar_en_lista_procesos buscar_desde marco
almacenar_bytes_pagina-solicitar_bytes_example =
    almacenar_bytes_pagina-solicitar_bytes env 0 1 2 8 0 (5 ∷ 6 ∷ []) umc refl refl (omega arith)
      (record { fits = omega arith; small = omega arith }) free_locks refl

solicitar_bytes_waits_example : solicitar_bytes env 0 1 2 8 umc_with_tlb ≡ bloqueado
unfolding acierto_tlb buscar_en_tlb buscar_en_lista_procesos buscar_desde marco
solicitar_bytes_waits_example =
    solicitar_bytes_waits env 0 1 2 8 0 umc_with_tlb (omega arith) (inr (refl, refl)) (omega arith)
      (record { fits = omega arith; small = omega arith })
      (record { marcos = refl; acceso_mem = refl })

three_pages_first : (k : ℕ) → k < 1 → (three_pages.bit_map k).pid ≢ 8
three_pages_first zero h e = ground arith
three_pages_first (suc k) h e = absurd (omega arith)

page_kept : Guardada 8 1 1 4 (8 ∷ 9 ∷ 10 ∷ 11 ∷ []) three_pages
unfolding page bytes_at c_string
page_kept = record {
  cover = omega arith;
  found = refl;
  first = three_pages_first;
  listed = omega arith;
  reached = omega arith;
  size = refl;
  some_size = omega arith;
  content = refl;
  whole = refl;
  no_nul = refl;
  pid32 = omega arith;
  nro32 = omega arith;
}

room_left : HayLibre 8 0 1 process free_frame umc
room_left = record {
  listed = refl;
  process = refl;
  allowed = omega arith;
  free_at = refl;
  free_frame = refl;
  there = record { fits = omega arith; small = omega arith };
}

solicitar_bytes_from_swap_example :
    (v : Umc) × (solicitar_bytes env 1 1 2 8 umc ≡ listo v)
    × (v.a_cpu ≡ [] ++ (le32 ok_solicitud_umc ++ 9 ∷ 10 ∷ []))
    × (buscar_en_lista_procesos 8 1 v.lista_de_procesos ≡ 1)
    × (v.swap ≡ three_pages)
unfolding acierto_tlb buscar_en_tlb
solicitar_bytes_from_swap_example =
    solicitar_bytes_from_swap env 1 1 2 8 1 0 1 (8 ∷ 9 ∷ 10 ∷ 11 ∷ []) process page_in_swap
      free_frame umc refl refl refl page_kept refl room_left free_locks
      (record { fits = omega arith; small = omega arith }) (omega arith)

finalizar_programa-Terminado_example :
    (t : Umc) × (finalizar_programa env 8 umc_with_tlb ≡ listo t) × Terminado 8 0 umc_with_tlb t
finalizar_programa-Terminado_example =
    finalizar_programa-Terminado env 8 0 process umc_with_tlb (omega arith) refl refl refl refl

cargar_en_tlb-buscar_en_tlb_example :
    (t : Umc) × (k : ℕ) × (e : EntradaTlb) × (cargar_en_tlb 8 0 0 umc_with_tlb ≡ listo t)
    × (buscar_en_tlb 8 0 t.tlb ≡ 0)
    × (t.tlb ≡ modify (λ x. nueva_entrada 8 0 0 umc_with_tlb) k umc_with_tlb.tlb)
    × (get_elem? umc_with_tlb.tlb k ≡ some e)
    × ((e.pid ≡ 0)
        ⊎ (((m : ℕ) (x : EntradaTlb) → get_elem? umc_with_tlb.tlb m ≡ some x → x.pid ≢ 0)
            × DesdeAcceso e.ultimo_acceso umc_with_tlb.tlb))
cargar_en_tlb-buscar_en_tlb_example =
    cargar_en_tlb-buscar_en_tlb 8 0 0 umc_with_tlb refl (omega arith) refl (omega arith) times
  where
    times : (k : ℕ) (x : EntradaTlb) → get_elem? umc_with_tlb.tlb k ≡ some x → x.ultimo_acceso ≤ 5
    times zero x h =
        let t = ap (λ o. elim o [ some e ↦ e.ultimo_acceso | none ↦ x.ultimo_acceso ]) h in
        omega (arith, t)
    times (suc k) x h = absurd (ground arith)

-- Pages 0 and 1 of a process with one frame, page 0 having been replaced by page 1: with page 2 in their
-- place, page 1 still counts as in memory, as the first page with the number of the frame is page 0.
abbrev tables : List Pagina
tables =
    record { id_frame = 0; nro_pagina = 0; status = en_swap }
    ∷ record { id_frame = 0; nro_pagina = 1; status = en_memoria }
    ∷ record { id_frame = 9; nro_pagina = 2; status = en_swap }
    ∷ []

two_pages_in_one_frame :
    pagina_nueva 2 0 (pagina_vieja 0 tables)
    ≡ record { id_frame = 0; nro_pagina = 0; status = en_swap }
      ∷ record { id_frame = 0; nro_pagina = 1; status = en_memoria }
      ∷ record { id_frame = 0; nro_pagina = 2; status = en_memoria }
      ∷ []
unfolding pagina_nueva pagina_vieja
two_pages_in_one_frame = refl
