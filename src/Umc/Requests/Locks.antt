-- ===== src/Umc/Requests/Locks.antt =====
-- mutexAccesoMem, which lecturaMemoria leaves taken: what waits for it.
use so_unoficial.Prelude.{
  ℕ, suc, ◌^◌, ◌<◌, ◌≡◌, refl, ◌⊎◌, inl, inr, true, false, Bool-cases, Option, some, none, List, [],
  ◌∷◌, position_from, ltb, ◌==◌, ◌&&◌, arith,
}
use so_unoficial.Umc.State.{
  EntradaTlb, Umc, Env, bloqueado, overflow, mayor_que_menos_uno, mutex_taken,
}
use so_unoficial.Umc.Tlb.{
  buscar_en_tlb, marcar_acceso, actualizar_bit_ultimo_acceso_tlb, buscar_entrada_mas_antigua, lru,
  cargar_en, cargar_en_tlb,
}
use so_unoficial.Umc.Tables.{buscar_en_lista_procesos}
use so_unoficial.Umc.Memory.{un_acceso_mas}
use so_unoficial.Umc.Memory.Access.{EnMemoria, Libres, leido, reading}
use so_unoficial.Umc.Requests.{
  acierto_tlb, recordar_en_tlb, solicitar_con, solicitar_segun, solicitar_bytes,
}

cargar_waits :
    (pid nro_pagina frame : ℕ) (o : Option ℕ) (u : Umc)
    → u.mutex_acceso_mem ≡ true
    → cargar_en pid nro_pagina frame o u ≡ bloqueado
unfolding cargar_en lru buscar_entrada_mas_antigua
cargar_waits pid nro_pagina frame (some i) u taken = rw (mutex_taken taken) refl
cargar_waits pid nro_pagina frame none u taken = rw (mutex_taken taken) refl

recordar_waits :
    (pid nro_pagina frame : ℕ) (u : Umc)
    → 0 < u.entradas_tlb
    → u.mutex_acceso_mem ≡ true
    → recordar_en_tlb pid nro_pagina frame u ≡ bloqueado
unfolding recordar_en_tlb cargar_en_tlb
recordar_waits pid nro_pagina frame u some_tlb taken =
    let on : ltb 0 u.entradas_tlb ≡ true = ground arith in
    rw
      (
        on,
        cargar_waits pid nro_pagina frame (position_from {A = EntradaTlb} (λ e. e.pid == 0) 0 u.tlb)
            u taken,
      )
      refl

-- The entry of a hit has the PID and the frame.
hit_position :
    (pid nro_pagina frame i : ℕ) (es : List EntradaTlb)
    → frame < 2 ^ 31
    → buscar_en_tlb pid nro_pagina es ≡ frame
    → (j : ℕ) × (position_from {A = EntradaTlb} (λ e. e.pid == pid && e.id_frame == frame) i es
        ≡ some j)
unfolding buscar_en_tlb
hit_position pid nro_pagina frame i [] small h = absurd (omega arith)
hit_position pid nro_pagina frame i (e ∷ es) small h =
    elim (Bool-cases (e.pid == pid && e.id_frame == frame)) [
      | inl here ↦ (i, rw here refl)
      | inr away ↦
          let (j, q) = hit_position pid nro_pagina frame (suc i) es small (ground arith) in
          (j, rw away q)
    ]

-- A TLB hit, or a page that its table has in memory.
abbrev pub EnMarco : ℕ → ℕ → ℕ → Umc → Type 0
EnMarco pid nro_pagina frame u =
    (acierto_tlb pid nro_pagina u ≡ some frame)
    ⊎ ((acierto_tlb pid nro_pagina u ≡ none)
        × (buscar_en_lista_procesos pid nro_pagina u.lista_de_procesos ≡ frame))

hit_frame :
    (pid nro_pagina frame : ℕ) (u : Umc)
    → acierto_tlb pid nro_pagina u ≡ some frame
    → buscar_en_tlb pid nro_pagina u.tlb ≡ frame
unfolding acierto_tlb
hit_frame pid nro_pagina frame u h = ground arith

acceso_waits :
    (pid nro_pagina frame : ℕ) (u : Umc)
    → frame < 2 ^ 31
    → buscar_en_tlb pid nro_pagina u.tlb ≡ frame
    → u.mutex_acceso_mem ≡ true
    → actualizar_bit_ultimo_acceso_tlb pid frame u ≡ bloqueado
unfolding actualizar_bit_ultimo_acceso_tlb marcar_acceso
acceso_waits pid nro_pagina frame u small hit taken =
    let (j, q) = hit_position pid nro_pagina frame 0 u.tlb small hit in
    rw (q, mutex_taken taken) refl

-- With a TLB, solicitarBytes of a page that is in memory never answers: lecturaMemoria leaves
-- mutexAccesoMem taken, and both the hit, which notes the time of the access, and the miss, which
-- loads the TLB, wait for it. The range is in the memory, and mutexMarcos and mutexAccesoMem are
-- free before.
pub solicitar_bytes_waits :
    (env : Env) (nro_pagina offset tamanio pid frame : ℕ) (u : Umc)
    → 0 < u.entradas_tlb
    → EnMarco pid nro_pagina frame u
    → frame < 2 ^ 31
    → EnMemoria frame offset tamanio u
    → Libres u
    → solicitar_bytes env nro_pagina offset tamanio pid u ≡ bloqueado
unfolding solicitar_bytes solicitar_con solicitar_segun un_acceso_mas
solicitar_bytes_waits env nro_pagina offset tamanio pid frame u on (inl hit) small there free =
    rw
      (
        hit,
        reading frame offset tamanio u there free,
        acceso_waits pid nro_pagina frame (leido frame u) small
            (hit_frame pid nro_pagina frame u hit) refl,
      )
      refl
solicitar_bytes_waits env nro_pagina offset tamanio pid frame u on (inr (miss, resident)) small
      there free =
    let not_over : (frame == overflow) ≡ false = ground arith in
    let found : mayor_que_menos_uno frame ≡ true = ground arith in
    rw
      (
        miss,
        resident,
        not_over,
        found,
        reading frame offset tamanio u there free,
        recordar_waits pid nro_pagina frame (leido frame u) on refl,
      )
      refl
