-- ===== src/Umc/Replace/Load.antt =====
-- cargarPaginaenMemoria for a process that may have one more of the frames that are free.
use so_unoficial.Prelude.{
  ℕ, suc, ◌+◌, ◌<◌, ◌≡◌, refl, ap, ◌∙◌, inl, inr, Bool, true, false, Bool-cases, some, List, [],
  ◌∷◌, modify, position_from, find_position, get_elem?, take, ltb, ◌==◌, ◌&&◌, arith,
}
use so_unoficial.Umc.State.{Frame, Proceso, Umc, Env, listo, ◌>>=◌, obtener, mutex_free}
use so_unoficial.Umc.Frames.{cuenta_libres, cantidad_frames_disponibles}
use so_unoficial.Umc.Tables.{cambiar_paginas, pagina_nueva, realizar_cambios_en_pagina_nueva}
use so_unoficial.Umc.Memory.Access.{EnMemoria, Libres, escrito, writing}
use so_unoficial.Umc.Replace.{
  marco_recorrido, tomar_marco, un_marco_mas, posicion_libre, cargar_en_libre, proceso_recorrido,
  cant_disponibles, cargar_segun, cargar_pagina_en_memoria,
}

abbrev pub libre : Frame → Bool
libre f = f.pid == 0

-- The first process with the PID stands at `indice` and has fewer frames than it may have; the first
-- free frame is `g`, at position `j`, and lies in the memory.
pub record HayLibre (pid indice j : ℕ) (p : Proceso) (g : Frame) (u : Umc) : Type 0 where
  pub listed : position_from {A = Proceso} (λ q. q.pid == pid) 0 u.lista_de_procesos ≡ some indice
  pub process : get_elem? u.lista_de_procesos indice ≡ some p
  pub allowed : p.cant_frames_asignados < u.marcos_x_proc
  pub free_at : position_from {A = Frame} libre 0 u.lista_de_frames ≡ some j
  pub free_frame : get_elem? u.lista_de_frames j ≡ some g
  pub there : EnMemoria g.id_frame 0 u.tamanio_frame u

some_free :
    (i k : ℕ) (fs : List Frame)
    → position_from {A = Frame} libre i fs ≡ some k
    → 0 < cuenta_libres fs
unfolding cuenta_libres
some_free i k [] e = absurd (ground arith)
some_free i k (f ∷ fs) e = elim (Bool-cases (f.pid == 0)) [
  | inl here ↦ rw here (omega arith)
  | inr away ↦ rw away (some_free (suc i) k fs (ground arith))
]

module _ (env : Env) (pid nro_pagina indice j id : ℕ) (buffer : List ℕ) (p : Proceso) (g : Frame)
    (u : Umc) (h : HayLibre pid indice j p g u) (free : Libres u) where
  counting :
      (cant : ℕ) × (cant_disponibles env true p u ≡ listo cant)
      × ((cant == 0 && p.cant_frames_asignados == 0) ≡ false)
  unfolding cant_disponibles cantidad_frames_disponibles
  counting = elim (Bool-cases (p.cant_frames_asignados == 0)) [
    | inl none_yet ↦
        let some_left = some_free 0 j u.lista_de_frames h.free_at in
        (cuenta_libres u.lista_de_frames, rw (none_yet, mutex_free free.marcos) refl, ground arith)
    | inr one_more ↦ (env.entero, rw one_more refl, ground arith)
  ]

  -- The globals with the frame taken for the page.
  abbrev pub tomado : Umc
  tomado = record u {
    lista_de_frames =
        modify {A = Frame} (λ f. record f { pid = pid; bit_referencia = 1; bit_modificado = 0 }) j
          u.lista_de_frames;
    lista_de_procesos = modify (un_marco_mas j) indice (
        modify {A = Proceso}
          (λ q. record q { lista_paginas = pagina_nueva nro_pagina j q.lista_paginas }) indice
          u.lista_de_procesos);
  }

  -- The globals with the page in it.
  abbrev pub cargado : Umc
  cargado = escrito g.id_frame 0 (take u.tamanio_frame buffer) tomado

  taking :
      tomar_marco pid nro_pagina indice id (some j) u
      ≡ listo (
        g.id_frame,
        record tomado {
          lista_de_procesos =
              modify {A = Proceso}
                (λ q. record q { lista_paginas = pagina_nueva nro_pagina j q.lista_paginas })
                indice
                u.lista_de_procesos;
        },
      )
  unfolding tomar_marco realizar_cambios_en_pagina_nueva cambiar_paginas obtener
  taking = rw (h.free_frame, h.process) refl

  last_frame : marco_recorrido u.lista_de_frames ≡ some g
  unfolding marco_recorrido
  last_frame =
      let at : position_from {A = Frame} libre 0 u.lista_de_frames ≡ some (0 + j) =
        h.free_at ∙ ap some (omega arith) in
      let same = find_position {A = Frame} libre 0 j u.lista_de_frames g at h.free_frame in
      rw (same, marco_recorrido) refl

  into_free : cargar_en_libre pid nro_pagina indice buffer id u ≡ listo (g.id_frame, cargado)
  unfolding cargar_en_libre obtener posicion_libre
  into_free =
      rw (mutex_free free.marcos, last_frame, h.free_at, taking)
        (ap (λ r. r >>= (λ v. listo (g.id_frame, v)))
          (writing g.id_frame 0 u.tamanio_frame buffer tomado
            (record { fits = h.there.fits; small = h.there.small })
            (record { marcos = free.marcos; acceso_mem = free.acceso_mem })))

  located : proceso_recorrido pid u.lista_de_procesos ≡ (indice, true)
  unfolding proceso_recorrido
  located = rw (h.listed, proceso_recorrido) refl

  -- The page is loaded into the free frame.
  pub loading :
      cargar_pagina_en_memoria env pid nro_pagina buffer id u ≡ listo (some g.id_frame, cargado)
  unfolding cargar_pagina_en_memoria obtener cargar_segun
  loading =
      let (cant, count, go) = counting in
      let may : ltb p.cant_frames_asignados u.marcos_x_proc ≡ true = ground (arith, h.allowed) in
      rw (located, h.process, may, count, mutex_free free.marcos, go)
        (ap (λ r. r >>= (λ x. listo (some x.0, x.1))) into_free)
