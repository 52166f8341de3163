-- ===== src/Umc/Requests/Fault.antt =====
-- solicitarBytes of a page that Swap keeps, loaded into a free frame.
use so_unoficial.Prelude.{
  ℕ, zero, suc, ◌+◌, ◌*◌, ◌≤◌, ◌≡◌, refl, ap, ◌∙◌, some, none, List, [], ◌∷◌, ◌++◌, length, take,
  drop, take_all, find_first, le32, c_string, ◌==◌, arith,
}
use so_unoficial.Swap.State.{bytes_at, put_bytes}
use so_unoficial.Swap.State.Pages.{bytes_at-put_bytes}
use so_unoficial.Umc.State.{Frame, Pagina, Proceso, en_swap, Umc, Env, listo, menos_uno}
use so_unoficial.Umc.Tables.{marco, buscar_en_lista_procesos}
use so_unoficial.Umc.Tables.Lookup.{buscar_found, buscar_loaded}
use so_unoficial.Umc.Memory.{un_acceso_mas}
use so_unoficial.Umc.Memory.Access.{EnMemoria, Libres, leido, reading}
use so_unoficial.Umc.Swapping.Fetch.{Guardada, fetching}
use so_unoficial.Umc.Replace.{un_marco_mas}
use so_unoficial.Umc.Replace.Load.{HayLibre, cargado, loading}
use so_unoficial.Umc.Requests.{
  acierto_tlb, responder, ok_solicitud_umc, solicitar_de_swap, solicitar_segun, solicitar_con,
  solicitar_bytes,
}

take_bytes :
    (byte : ℕ → ℕ) (pos n m : ℕ) → n ≤ m → bytes_at byte pos n ≡ take n (bytes_at byte pos m)
unfolding bytes_at
take_bytes byte pos zero m h = refl
take_bytes byte pos (suc n) zero h = absurd (omega arith)
take_bytes byte pos (suc n) (suc m) h =
    ap (λ l. byte pos ∷ l) (take_bytes byte (suc pos) n m (omega arith))

-- A part of a range of bytes.
part_of_bytes :
    (byte : ℕ → ℕ) (pos m offset n : ℕ)
    → offset + n ≤ m
    → bytes_at byte (pos + offset) n ≡ take n (drop offset (bytes_at byte pos m))
unfolding bytes_at
part_of_bytes byte pos m zero n h =
    ap (λ p. bytes_at byte p n) (omega arith) ∙ take_bytes byte pos n m (omega arith)
part_of_bytes byte pos zero (suc offset) n h = absurd (omega arith)
part_of_bytes byte pos (suc m) (suc offset) n h =
    ap (λ p. bytes_at byte p n) (omega arith)
    ∙ part_of_bytes byte (suc pos) m offset n (omega arith)

module _ (env : Env) (nro_pagina offset tamanio pid i indice j : ℕ) (bytes : List ℕ) (p : Proceso)
    (g : Frame) (u : Umc) (stored : Guardada pid nro_pagina i u.tamanio_frame bytes u.swap)
    (quiet : u.de_swap ≡ []) (room : HayLibre pid indice j p g u) (free : Libres u)
    (part : EnMemoria g.id_frame offset tamanio u) where
  -- The globals when the page has come.
  abbrev traido : Umc
  traido = record u { de_swap = c_string env.detras }

  abbrev room' : HayLibre pid indice j p g traido
  room' = record {
    listed = room.listed;
    process = room.process;
    allowed = room.allowed;
    free_at = room.free_at;
    free_frame = room.free_frame;
    there = record { fits = room.there.fits; small = room.there.small };
  }

  abbrev free' : Libres traido
  free' = record { marcos = free.marcos; acceso_mem = free.acceso_mem }

  abbrev cargado_de_swap : Umc
  cargado_de_swap = cargado env pid nro_pagina indice j menos_uno bytes p g traido room' free'

  abbrev respuesta : List ℕ
  respuesta =
      le32 ok_solicitud_umc
      ++ bytes_at cargado_de_swap.memoria_principal (g.id_frame * u.tamanio_frame + offset) tamanio

  from_swap :
      solicitar_de_swap env nro_pagina offset tamanio pid menos_uno u
      ≡ listo (responder respuesta (leido g.id_frame cargado_de_swap))
  unfolding solicitar_de_swap un_acceso_mas
  from_swap =
      rw
        (
          fetching env pid nro_pagina i bytes u stored quiet,
          loading env pid nro_pagina indice j menos_uno bytes p g traido room' free',
          reading g.id_frame offset tamanio cargado_de_swap
              (record { fits = part.fits; small = part.small })
              (record { marcos = free.marcos; acceso_mem = free.acceso_mem }),
        )
        refl

  -- The bytes that are answered.
  served :
      offset + tamanio ≤ u.tamanio_frame
      → bytes_at cargado_de_swap.memoria_principal (g.id_frame * u.tamanio_frame + offset) tamanio
        ≡ take tamanio (drop offset bytes)
  unfolding un_acceso_mas
  served h =
      let at = g.id_frame * u.tamanio_frame in
      let here : g.id_frame * u.tamanio_frame + 0 ≡ at = omega arith in
      let l = stored.whole in
      rw (take_all u.tamanio_frame bytes (omega (arith, l)), here)
        (part_of_bytes (put_bytes u.memoria_principal at bytes) at (length bytes) offset tamanio
            (omega (arith, l))
          ∙ ap (λ x. take tamanio (drop offset x))
              (bytes_at-put_bytes u.memoria_principal at bytes))

-- A page fault is served from Swap: where the page is not in memory, the process has fewer frames than
-- it may have, a frame is free, and Swap keeps the page for it, without a NUL and with no answer of
-- Swap unread, solicitarBytes answers OK_SOLICITUD_UMC and the bytes of the page in Swap from `offset`
-- on; afterwards the page table has the page in the free frame, and Swap is as before. Swap follows
-- the messages with realizarPedidoUMC; the range is within the page and mutexMarcos and mutexAccesoMem
-- are free.
pub solicitar_bytes_from_swap :
    (env : Env) (nro_pagina offset tamanio pid i indice j : ℕ) (bytes : List ℕ) (p : Proceso)
    (q : Pagina) (g : Frame) (u : Umc)
    → acierto_tlb pid nro_pagina u ≡ none
    → find_first {A = Pagina} (λ x. x.nro_pagina == nro_pagina) p.lista_paginas ≡ some q
    → q.status ≡ en_swap
    → Guardada pid nro_pagina i u.tamanio_frame bytes u.swap
    → u.de_swap ≡ []
    → HayLibre pid indice j p g u
    → Libres u
    → EnMemoria g.id_frame offset tamanio u
    → offset + tamanio ≤ u.tamanio_frame
    → (v : Umc) × (solicitar_bytes env nro_pagina offset tamanio pid u ≡ listo v)
      × (v.a_cpu ≡ u.a_cpu ++ (le32 ok_solicitud_umc ++ take tamanio (drop offset bytes)))
      × (buscar_en_lista_procesos pid nro_pagina v.lista_de_procesos ≡ j)
      × (v.swap ≡ u.swap)
unfolding solicitar_bytes solicitar_con solicitar_segun responder un_acceso_mas marco un_marco_mas
solicitar_bytes_from_swap env nro_pagina offset tamanio pid i indice j bytes p q g u miss page away
      stored quiet room free part within =
    let found =
      buscar_found pid nro_pagina indice u.lista_de_procesos p q room.listed room.process page in
    let in_swap : marco q ≡ menos_uno = rw (away, marco) refl in
    let fetched =
      from_swap env nro_pagina offset tamanio pid i indice j bytes p g u stored quiet room free
        part in
    let answer =
      served env nro_pagina offset tamanio pid i indice j bytes p g u stored quiet room free part
        within in
    (
      responder
          (respuesta env nro_pagina offset tamanio pid i indice j bytes p g u stored quiet room free
            part)
          (leido g.id_frame (
            cargado_de_swap env nro_pagina offset tamanio pid i indice j bytes p g u stored quiet
              room free part)),
      rw (miss, found, in_swap) fetched,
      ap (λ l. u.a_cpu ++ (le32 ok_solicitud_umc ++ l)) answer,
      buscar_loaded (un_marco_mas j) pid nro_pagina j indice u.lista_de_procesos p q (λ x. refl)
          (λ x. refl) room.listed room.process page,
      refl,
    )
