-- ===== src/Umc/Programs/End.antt =====
-- finalizarPrograma: what a program leaves.
use so_unoficial.Prelude.{
  ℕ, zero, suc, ◌+◌, ◌<◌, ◌≡◌, ◌≢◌, refl, sym, ap, ◌∙◌, inl, inr, false, Bool-cases, some, none,
  List, [], ◌∷◌, ◌++◌, map, modify, erase_at, position_from, get_elem?, le32, value32, ltb, ◌==◌,
  if◌then◌else◌, arith,
}
use so_unoficial.Swap.State.{Swap}
use so_unoficial.Swap.Orders.{copiar, realizar_pedido_umc, liberar_memoria, exito_swap}
use so_unoficial.Umc.State.{
  Frame, EntradaTlb, Proceso, Umc, Env, listo, obtener, menos_uno, mutex_free,
}
use so_unoficial.Umc.Frames.{sin_marcos, liberar_marcos, cuenta_libres}
use so_unoficial.Umc.Tlb.{buscar_en_tlb, limpiar_entradas_tlb}
use so_unoficial.Umc.Tables.{
  posicion, encontrar_posicion_en_procesos, cambiar_paginas, liberar_paginas,
}
use so_unoficial.Umc.Messages.{avisar_swap_fin_programa}
use so_unoficial.Umc.Swapping.{segun_respuesta_de_swap, enviar, avisar_fin_a_swap}
use so_unoficial.Umc.Programs.{finalizar_programa}

-- How many frames a process has.
unfoldable pub cuenta_de : ℕ → List Frame → ℕ
cuenta_de pid [] = 0
cuenta_de pid (f ∷ fs) = let rest = cuenta_de pid fs in if f.pid == pid then suc rest else rest

none_left :
    (pid : ℕ) (fs : List Frame) (k : ℕ) (f : Frame)
    → pid ≢ 0
    → get_elem? (sin_marcos pid fs) k ≡ some f
    → f.pid ≢ pid
unfolding sin_marcos
none_left pid [] k f ne at = absurd (ground arith)
none_left pid (x ∷ fs) zero f ne at = λ own. elim (Bool-cases (x.pid == pid)) [
  | inl here ↦
      let q : some (record x { pid = 0 }) ≡ some f =
        sym (ap (λ b. some (if b then record x { pid = 0 } else x)) here) ∙ at in
      let z = ap (λ o. elim o [ some y ↦ y.pid | none ↦ x.pid ]) q in ne (omega (arith, z, own))
  | inr away ↦
      let q : some x ≡ some f =
        sym (ap (λ b. some (if b then record x { pid = 0 } else x)) away) ∙ at in
      let z = ap (λ o. elim o [ some y ↦ y.pid | none ↦ x.pid ]) q in ground (arith, z, own)
]
none_left pid (x ∷ fs) (suc k) f ne at = none_left pid fs k f ne at

others_kept :
    (pid : ℕ) (fs : List Frame) (k : ℕ) (f : Frame)
    → get_elem? fs k ≡ some f
    → f.pid ≢ pid
    → get_elem? (sin_marcos pid fs) k ≡ some f
unfolding sin_marcos
others_kept pid [] k f at ne = absurd (ground arith)
others_kept pid (x ∷ fs) zero f at ne =
    let own = ap (λ o. elim o [ some y ↦ y.pid | none ↦ x.pid ]) at in
    let away : (x.pid == pid) ≡ false = ground (arith, own) in
    ap (λ b. some (if b then record x { pid = 0 } else x)) away ∙ at
others_kept pid (x ∷ fs) (suc k) f at ne = others_kept pid fs k f at ne

free_again :
    (pid : ℕ) (fs : List Frame)
    → pid ≢ 0
    → cuenta_libres (sin_marcos pid fs) ≡ cuenta_libres fs + cuenta_de pid fs
unfolding cuenta_libres cuenta_de sin_marcos
free_again pid [] ne = refl
free_again pid (f ∷ fs) ne = elim (Bool-cases (f.pid == pid)) [
  | inl here ↦
      let used : (f.pid == 0) ≡ false = ground arith in
      rw (here, used) (omega (arith, free_again pid fs ne))
  | inr away ↦ elim (Bool-cases (f.pid == 0)) [
    | inl free ↦ rw (away, free) (omega (arith, free_again pid fs ne))
    | inr used ↦ rw (away, used) (free_again pid fs ne)
  ]
]

unfoldable sin_entradas : ℕ → List EntradaTlb → List EntradaTlb
sin_entradas pid es =
    map {A = EntradaTlb} (λ e. if e.pid == pid then record e { pid = 0 } else e) es

forgotten :
    (pid nro_pagina : ℕ) (es : List EntradaTlb)
    → pid ≢ 0
    → buscar_en_tlb pid nro_pagina (sin_entradas pid es) ≡ menos_uno
unfolding buscar_en_tlb sin_entradas
forgotten pid nro_pagina [] ne = refl
forgotten pid nro_pagina (e ∷ es) ne = elim (Bool-cases (e.pid == pid)) [
  | inl here ↦
      let gone : (0 == pid) ≡ false = ground arith in
      rw (here, gone) (forgotten pid nro_pagina es ne)
  | inr away ↦ rw (away, away) (forgotten pid nro_pagina es ne)
]

finishing :
    (env : Env) (pid : ℕ) (u : Umc)
    → (s : Swap) × (avisar_fin_a_swap env pid u
        ≡ listo (record u { swap = s; de_swap = u.de_swap ++ le32 exito_swap }))
unfolding avisar_fin_a_swap enviar segun_respuesta_de_swap avisar_swap_fin_programa copiar
    realizar_pedido_umc liberar_memoria le32 value32
finishing env pid u = (_, refl)

-- What is left of a program: none of its frames, entries of the TLB or of the table of processes.
pub record Terminado (pid indice : ℕ) (u t : Umc) : Type 0 where
  pub no_frame : (k : ℕ) (f : Frame) → get_elem? t.lista_de_frames k ≡ some f → f.pid ≢ pid
  pub other_frames :
      (k : ℕ) (f : Frame)
      → get_elem? u.lista_de_frames k ≡ some f
      → f.pid ≢ pid
      → get_elem? t.lista_de_frames k ≡ some f
  pub free_frames :
      cuenta_libres t.lista_de_frames
      ≡ cuenta_libres u.lista_de_frames + cuenta_de pid u.lista_de_frames
  pub no_process :
      t.lista_de_procesos
      ≡ erase_at indice
          (modify {A = Proceso} (λ p. record p { lista_paginas = [] }) indice u.lista_de_procesos)
  pub no_entry :
      0 < u.entradas_tlb → (nro_pagina : ℕ) → buscar_en_tlb pid nro_pagina t.tlb ≡ menos_uno
  pub unread : t.de_swap ≡ u.de_swap ++ le32 exito_swap

-- finalizarPrograma of a program that is listed, with mutexMarcos and mutexSwap free and a PID other
-- than 0, gives all its frames back and takes it out of the table of processes and, where there is a
-- TLB, out of the TLB; the frames of the other programs stay. The answer EXITO_SWAP of Swap is left
-- unread.
pub finalizar_programa-Terminado :
    (env : Env) (pid indice : ℕ) (p : Proceso) (u : Umc)
    → pid ≢ 0
    → position_from {A = Proceso} (λ q. q.pid == pid) 0 u.lista_de_procesos ≡ some indice
    → get_elem? u.lista_de_procesos indice ≡ some p
    → u.mutex_marcos ≡ false
    → u.mutex_swap ≡ false
    → (t : Umc) × (finalizar_programa env pid u ≡ listo t) × Terminado pid indice u t
unfolding finalizar_programa liberar_marcos liberar_paginas cambiar_paginas obtener
    encontrar_posicion_en_procesos posicion limpiar_entradas_tlb sin_entradas
finalizar_programa-Terminado env pid indice p u ne listed process marcos swap =
    elim (Bool-cases (ltb 0 u.entradas_tlb)) [
      | inl on ↦
          let (s, told) = finishing env pid (cerrado (sin_entradas pid u.tlb)) in
          (
            record (cerrado (sin_entradas pid u.tlb)) {
              swap = s;
              de_swap = u.de_swap ++ le32 exito_swap;
            },
            rw (listed, mutex_free marcos, process, on, mutex_free swap) told,
            record {
              no_frame = λ k f. none_left pid u.lista_de_frames k f ne;
              other_frames = λ k f. others_kept pid u.lista_de_frames k f;
              free_frames = free_again pid u.lista_de_frames ne;
              no_process = refl;
              no_entry = λ h nro_pagina. forgotten pid nro_pagina u.tlb ne;
              unread = refl;
            },
          )
      | inr off ↦
          let (s, told) = finishing env pid (cerrado u.tlb) in
          (
            record (cerrado u.tlb) { swap = s; de_swap = u.de_swap ++ le32 exito_swap },
            rw (listed, mutex_free marcos, process, off, mutex_free swap) told,
            record {
              no_frame = λ k f. none_left pid u.lista_de_frames k f ne;
              other_frames = λ k f. others_kept pid u.lista_de_frames k f;
              free_frames = free_again pid u.lista_de_frames ne;
              no_process = refl;
              no_entry = λ h. absurd (ground arith);
              unread = refl;
            },
          )
    ]
  where
    cerrado : List EntradaTlb → Umc
    cerrado es = record u {
      lista_de_frames = sin_marcos pid u.lista_de_frames;
      lista_de_procesos =
          erase_at indice (
            modify {A = Proceso} (λ q. record q { lista_paginas = [] }) indice u.lista_de_procesos);
      tlb = es;
    }
