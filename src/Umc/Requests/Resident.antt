-- ===== src/Umc/Requests/Resident.antt =====
-- The pages that are in memory: what almacenarBytesPagina writes and solicitarBytes reads.
use so_unoficial.Prelude.{
  ℕ, ◌+◌, ◌*◌, ◌^◌, ◌<◌, ◌≡◌, refl, ap, sym, true, false, if_cases, none, List, ◌++◌, length, take,
  take_all, le32, ltb, ◌==◌, arith,
}
use so_unoficial.Swap.State.{bytes_at, put_bytes}
use so_unoficial.Swap.State.Pages.{bytes_at-put_bytes}
use so_unoficial.Umc.State.{Umc, Env, listo, ◌>>=◌, overflow, mayor_que_menos_uno, mutex_free}
use so_unoficial.Umc.Frames.{marcar_referencia, marcar_modificado, actualizar_bit_modificado}
use so_unoficial.Umc.Tables.{buscar_en_lista_procesos}
use so_unoficial.Umc.Memory.{un_acceso_mas}
use so_unoficial.Umc.Memory.Access.{EnMemoria, Libres, leido, escrito, reading, writing}
use so_unoficial.Umc.Requests.{
  acierto_tlb, responder, recordar_en_tlb, ok_solicitud_umc, solicitar_con, solicitar_segun,
  solicitar_bytes, almacenar_con, almacenar_segun, almacenar_bytes_pagina,
}

no_tlb : (pid nro_pagina : ℕ) (u : Umc) → u.entradas_tlb ≡ 0 → acierto_tlb pid nro_pagina u ≡ none
unfolding acierto_tlb
no_tlb pid nro_pagina u off = ground (arith, off)

nothing_remembered :
    (pid nro_pagina frame : ℕ) (u : Umc)
    → u.entradas_tlb ≡ 0
    → recordar_en_tlb pid nro_pagina frame u ≡ listo u
unfolding recordar_en_tlb
nothing_remembered pid nro_pagina frame u off =
    if_cases (λ r. r ≡ listo u) (ltb 0 u.entradas_tlb) _ (listo u) (λ c. absurd (ground arith))
      (λ c. refl)

marked :
    (frame : ℕ) (u : Umc)
    → u.mutex_marcos ≡ false
    → actualizar_bit_modificado frame u
      ≡ listo (record u { lista_de_frames = marcar_modificado frame u.lista_de_frames })
unfolding actualizar_bit_modificado
marked frame u m =
    ap
      (λ r.
        r
        >>= (λ b. listo (record u { lista_de_frames = marcar_modificado frame u.lista_de_frames })))
      (mutex_free m)

-- The globals after a write of `bytes` to a resident page and its answer.
abbrev pub guardado : ℕ → ℕ → List ℕ → Umc → Umc
guardado frame offset bytes u = record (escrito frame offset bytes u) {
  lista_de_frames = marcar_modificado frame (marcar_referencia frame u.lista_de_frames);
  a_cpu = u.a_cpu ++ le32 ok_solicitud_umc;
}

-- The globals after a read from a resident page and its answer.
abbrev pub servido : ℕ → ℕ → ℕ → Umc → Umc
servido frame offset tamanio u = record (leido frame u) {
  a_cpu =
      u.a_cpu
      ++ (le32 ok_solicitud_umc
          ++ bytes_at u.memoria_principal (frame * u.tamanio_frame + offset) tamanio);
}

module _ (env : Env) (nro_pagina offset tamanio pid frame : ℕ) (u : Umc) (off : u.entradas_tlb ≡ 0)
    (resident : buscar_en_lista_procesos pid nro_pagina u.lista_de_procesos ≡ frame)
    (plain : frame < 2 ^ 31) (there : EnMemoria frame offset tamanio u) (free : Libres u) where
  pub storing :
      (buffer : List ℕ)
      → almacenar_bytes_pagina env nro_pagina offset tamanio buffer pid u
        ≡ listo (guardado frame offset (take tamanio buffer) u)
  unfolding almacenar_bytes_pagina almacenar_con almacenar_segun responder un_acceso_mas
  storing buffer =
      let not_over : (frame == overflow) ≡ false = ground arith in
      let found : mayor_que_menos_uno frame ≡ true = ground arith in
      rw
        (
          no_tlb pid nro_pagina u off,
          resident,
          not_over,
          found,
          nothing_remembered pid nro_pagina frame u off,
          writing frame offset tamanio buffer (responder (le32 ok_solicitud_umc) u)
              (record { fits = there.fits; small = there.small })
              (record { marcos = free.marcos; acceso_mem = free.acceso_mem }),
        )
        (marked frame
          (escrito frame offset (take tamanio buffer) (responder (le32 ok_solicitud_umc) u))
          free.marcos)

  pub serving :
      solicitar_bytes env nro_pagina offset tamanio pid u ≡ listo (servido frame offset tamanio u)
  unfolding solicitar_bytes solicitar_con solicitar_segun responder un_acceso_mas
  serving =
      let not_over : (frame == overflow) ≡ false = ground arith in
      let found : mayor_que_menos_uno frame ≡ true = ground arith in
      rw
        (
          no_tlb pid nro_pagina u off,
          resident,
          not_over,
          found,
          reading frame offset tamanio u there free,
          nothing_remembered pid nro_pagina frame (leido frame u) off,
        )
        refl

-- Where there is no TLB, what a CPU stores in a page that is in memory it gets back: with the range in
-- the memory and mutexMarcos and mutexAccesoMem free, almacenarBytesPagina of `tamanio` bytes answers
-- OK_SOLICITUD_UMC, and solicitarBytes of the same range then answers OK_SOLICITUD_UMC and these bytes.
-- The page tables stay.
pub almacenar_bytes_pagina-solicitar_bytes :
    (env : Env) (nro_pagina offset tamanio pid frame : ℕ) (buffer : List ℕ) (u : Umc)
    → u.entradas_tlb ≡ 0
    → buscar_en_lista_procesos pid nro_pagina u.lista_de_procesos ≡ frame
    → frame < 2 ^ 31
    → EnMemoria frame offset tamanio u
    → Libres u
    → length buffer ≡ tamanio
    → (t : Umc) × (v : Umc) × (almacenar_bytes_pagina env nro_pagina offset tamanio buffer pid u
        ≡ listo t)
      × (solicitar_bytes env nro_pagina offset tamanio pid t ≡ listo v)
      × (v.a_cpu ≡ (u.a_cpu ++ le32 ok_solicitud_umc) ++ (le32 ok_solicitud_umc ++ buffer))
      × (v.lista_de_procesos ≡ u.lista_de_procesos)
unfolding un_acceso_mas
almacenar_bytes_pagina-solicitar_bytes env nro_pagina offset tamanio pid frame buffer u off resident
      plain there free whole =
    let at = frame * u.tamanio_frame + offset in
    let t = guardado frame offset (take tamanio buffer) u in
    let read : bytes_at (put_bytes u.memoria_principal at (take tamanio buffer)) at tamanio
        ≡ buffer =
      rw (take_all tamanio buffer (omega arith), sym whole)
        (bytes_at-put_bytes u.memoria_principal at buffer) in
    (
      t,
      servido frame offset tamanio t,
      storing env nro_pagina offset tamanio pid frame u off resident plain there free buffer,
      serving env nro_pagina offset tamanio pid frame t off resident plain
          (record { fits = there.fits; small = there.small })
          (record { marcos = free.marcos; acceso_mem = free.acceso_mem }),
      ap (λ l. (u.a_cpu ++ le32 ok_solicitud_umc) ++ (le32 ok_solicitud_umc ++ l)) read,
      refl,
    )
