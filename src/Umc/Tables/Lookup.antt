-- ===== src/Umc/Tables/Lookup.antt =====
-- What buscarEnListaProcesos finds, and what realizarCambiosEnPaginaNueva changes in it.
use so_unoficial.Prelude.{
  ℕ, zero, suc, ◌+◌, ◌≡◌, refl, ap, ◌∙◌, inl, inr, Bool-cases, some, none, List, [], ◌∷◌, modify,
  find_first, find_first_modify, position_from, position_later, position_modify, get_elem?,
  get_elem_modify, ◌==◌, arith,
}
use so_unoficial.Umc.State.{Pagina, Proceso, en_memoria}
use so_unoficial.Umc.Tables.{marco, buscar_desde, buscar_en_lista_procesos, pagina_nueva}

buscar_position :
    (pid nro_pagina i k : ℕ) (ps : List Proceso) (p : Proceso) (q : Pagina)
    → position_from {A = Proceso} (λ x. x.pid == pid) i ps ≡ some (i + k)
    → get_elem? ps k ≡ some p
    → find_first {A = Pagina} (λ x. x.nro_pagina == nro_pagina) p.lista_paginas ≡ some q
    → buscar_desde pid nro_pagina 0 ps ≡ marco q
unfolding buscar_desde
buscar_position pid nro_pagina i k [] p q e h f = absurd (ground arith)
buscar_position pid nro_pagina i zero (r ∷ ps) p q e h f = elim (Bool-cases (r.pid == pid)) [
  | inl here ↦
      let same : r ≡ p = ap (λ o. elim o [ some x ↦ x | none ↦ r ]) h in
      let there : find_first {A = Pagina} (λ x. x.nro_pagina == nro_pagina) r.lista_paginas
          ≡ some q =
        ap (λ x. find_first {A = Pagina} (λ y. y.nro_pagina == nro_pagina) x.lista_paginas) same
        ∙ f in
      rw (here, there, buscar_desde) refl
  | inr away ↦ absurd (
      let late =
        position_later {A = Proceso} (λ x. x.pid == pid) (suc i) (i + 0) ps (ground arith) in
      omega (arith, late))
]
buscar_position pid nro_pagina i (suc k) (r ∷ ps) p q e h f = elim (Bool-cases (r.pid == pid)) [
  | inl here ↦ absurd (ground arith)
  | inr away ↦ rw away (buscar_position pid nro_pagina (suc i) k ps p q (ground arith) h f)
]

-- A page in the table of the first process with the PID.
pub buscar_found :
    (pid nro_pagina k : ℕ) (ps : List Proceso) (p : Proceso) (q : Pagina)
    → position_from {A = Proceso} (λ x. x.pid == pid) 0 ps ≡ some k
    → get_elem? ps k ≡ some p
    → find_first {A = Pagina} (λ x. x.nro_pagina == nro_pagina) p.lista_paginas ≡ some q
    → buscar_en_lista_procesos pid nro_pagina ps ≡ marco q
unfolding buscar_en_lista_procesos
buscar_found pid nro_pagina k ps p q e h f =
    buscar_position pid nro_pagina 0 k ps p q (e ∙ ap some (omega arith)) h f

-- The page table of the process after realizarCambiosEnPaginaNueva.
abbrev pub con_pagina_nueva : ℕ → ℕ → Proceso → Proceso
con_pagina_nueva nro_pagina frame p = record p {
  lista_paginas = pagina_nueva nro_pagina frame p.lista_paginas;
}

-- The page is found in its frame afterwards.
pub buscar_loaded :
    (g : Proceso → Proceso) (pid nro_pagina frame k : ℕ) (ps : List Proceso) (p : Proceso)
    (q : Pagina)
    → ((x : Proceso) → (g x).pid ≡ x.pid)
    → ((x : Proceso) → (g x).lista_paginas ≡ x.lista_paginas)
    → position_from {A = Proceso} (λ x. x.pid == pid) 0 ps ≡ some k
    → get_elem? ps k ≡ some p
    → find_first {A = Pagina} (λ x. x.nro_pagina == nro_pagina) p.lista_paginas ≡ some q
    → buscar_en_lista_procesos pid nro_pagina
        (modify g k (modify (con_pagina_nueva nro_pagina frame) k ps))
      ≡ frame
unfolding pagina_nueva marco
buscar_loaded g pid nro_pagina frame k ps p q keeps_pid keeps_pages e h f =
    let new = con_pagina_nueva nro_pagina frame in
    let at = get_elem_modify g k (modify new k ps) (new p) (get_elem_modify new k ps p h) in
    let position =
      position_modify {A = Proceso} (λ x. x.pid == pid) g 0 k (modify new k ps)
        (λ x. ap (λ n. n == pid) (keeps_pid x))
      ∙ position_modify {A = Proceso} (λ x. x.pid == pid) new 0 k ps (λ x. refl)
      ∙ e in
    let page =
      find_first_modify {A = Pagina} (λ x. x.nro_pagina == nro_pagina)
        (λ x. record x { id_frame = frame; status = en_memoria }) p.lista_paginas q (λ x. refl) f in
    buscar_found pid nro_pagina k (modify g k (modify new k ps)) (g (new p))
      (record q { id_frame = frame; status = en_memoria }) position at
      (ap (λ l. find_first {A = Pagina} (λ x. x.nro_pagina == nro_pagina) l) (keeps_pages (new p))
        ∙ page)
