-- ===== src/Umc/Tlb/Loaded.antt =====
-- cargarenTLB: which entry goes, and what buscarenTLB finds afterwards.
use so_unoficial.Prelude.{
  ℕ, zero, suc, ◌+◌, ◌^◌, ◌≤◌, ◌<◌, ◌≡◌, ◌≢◌, refl, ap, ◌∙◌, ◌⊎◌, inl, inr, Bool, true, false,
  ==_refl, Bool-cases, Option-cases, some, none, List, [], ◌∷◌, modify, find_first, position_from,
  get_elem?, length, ltb, ◌==◌, ◌&&◌, arith,
}
use so_unoficial.Umc.State.{EntradaTlb, Umc, listo, obtener, mutex_free}
use so_unoficial.Umc.Tlb.{
  buscar_en_tlb, mas_antigua, buscar_entrada_mas_antigua, nueva_entrada, lru, cargar_en,
  cargar_en_tlb,
}
use so_unoficial.Umc.Tlb.Oldest.{DesdeAcceso, oldest_entry}

abbrev pub es_de : ℕ → ℕ → EntradaTlb → Bool
es_de pid nro_pagina e = e.pid == pid && e.nro_pagina == nro_pagina

position_some :
    (i r : ℕ) (es : List EntradaTlb)
    → position_from {A = EntradaTlb} (λ e. e.pid == 0) i es ≡ some r
    → (k : ℕ) × (e : EntradaTlb) × (r ≡ i + k) × (get_elem? es k ≡ some e) × (e.pid ≡ 0)
position_some i r [] h = absurd (ground arith)
position_some i r (e ∷ es) h = elim (Bool-cases (e.pid == 0)) [
  | inl here ↦ (0, e, ground arith, refl, ground arith)
  | inr away ↦
      let (k, x, q, at, free) = position_some (suc i) r es (ground arith) in
      (suc k, x, omega arith, at, free)
]

position_none :
    (i k : ℕ) (es : List EntradaTlb) (e : EntradaTlb)
    → position_from {A = EntradaTlb} (λ x. x.pid == 0) i es ≡ none
    → get_elem? es k ≡ some e
    → e.pid ≢ 0
position_none i k [] e h at = absurd (ground arith)
position_none i zero (x ∷ es) e h at =
    let same : x ≡ e = ap (λ o. elim o [ some y ↦ y | none ↦ x ]) at in
    λ free. let own = ap (λ y. y.pid) same in ground (arith, own)
position_none i (suc k) (x ∷ es) e h at = elim (Bool-cases (x.pid == 0)) [
  | inl here ↦ absurd (ground arith)
  | inr away ↦ position_none (suc i) k es e (ground arith) at
]

-- The new entry is found where no other is for the page.
buscar_modified :
    (pid nro_pagina k : ℕ) (es : List EntradaTlb) (e new : EntradaTlb)
    → find_first (es_de pid nro_pagina) es ≡ none
    → get_elem? es k ≡ some e
    → es_de pid nro_pagina new ≡ true
    → buscar_en_tlb pid nro_pagina (modify (λ x. new) k es) ≡ new.id_frame
unfolding buscar_en_tlb
buscar_modified pid nro_pagina k [] e new h at is = absurd (ground arith)
buscar_modified pid nro_pagina zero (x ∷ es) e new h at is = rw is refl
buscar_modified pid nro_pagina (suc k) (x ∷ es) e new h at is =
    elim (Bool-cases (es_de pid nro_pagina x)) [
      | inl here ↦ absurd (ground arith)
      | inr away ↦ rw away (buscar_modified pid nro_pagina k es e new (ground arith) at is)
    ]

oldest_of :
    {acceso : ℕ} (es : List EntradaTlb)
    → 0 < length es
    → ((k : ℕ) (x : EntradaTlb) → get_elem? es k ≡ some x → x.ultimo_acceso ≤ acceso)
    → (x : EntradaTlb) × (get_elem? es (mas_antigua 0 acceso 0 es) ≡ some x)
      × DesdeAcceso x.ultimo_acceso es
oldest_of [] h past = absurd (omega arith)
oldest_of {acceso} (e ∷ es) h past = oldest_entry acceso e es past

least_recent :
    (pid nro_pagina frame : ℕ) (u : Umc) (e : EntradaTlb)
    → get_elem? u.tlb (mas_antigua 0 u.accesos_a_memoria 0 u.tlb) ≡ some e
    → u.mutex_acceso_mem ≡ false
    → u.accesos_a_memoria < 2 ^ 31
    → lru nro_pagina pid frame u
      ≡ listo (record u {
        tlb =
            modify
              (λ x. nueva_entrada pid nro_pagina frame u)
              (mas_antigua 0 u.accesos_a_memoria 0 u.tlb)
              u.tlb;
      })
unfolding lru buscar_entrada_mas_antigua obtener
least_recent pid nro_pagina frame u e at free small =
    let plain : ltb u.accesos_a_memoria (2 ^ 31) ≡ true = ground arith in
    rw (mutex_free free, plain, at) refl

-- cargarenTLB of a page that the TLB does not have: buscarenTLB finds its frame afterwards. One entry has gone:
-- a free one where there was one, else one that no other was used before. The TLB has an entry,
-- mutexAccesoMem is free, the number of accesses is below 2^31, and no entry has a later time.
pub cargar_en_tlb-buscar_en_tlb :
    (pid nro_pagina frame : ℕ) (u : Umc)
    → find_first (es_de pid nro_pagina) u.tlb ≡ none
    → 0 < length u.tlb
    → u.mutex_acceso_mem ≡ false
    → u.accesos_a_memoria < 2 ^ 31
    → ((k : ℕ) (x : EntradaTlb)
        → get_elem? u.tlb k ≡ some x
        → x.ultimo_acceso ≤ u.accesos_a_memoria)
    → (t : Umc) × (k : ℕ) × (e : EntradaTlb) × (cargar_en_tlb pid nro_pagina frame u ≡ listo t)
      × (buscar_en_tlb pid nro_pagina t.tlb ≡ frame)
      × (t.tlb ≡ modify (λ x. nueva_entrada pid nro_pagina frame u) k u.tlb)
      × (get_elem? u.tlb k ≡ some e)
      × ((e.pid ≡ 0)
          ⊎ (((m : ℕ) (x : EntradaTlb) → get_elem? u.tlb m ≡ some x → x.pid ≢ 0)
              × DesdeAcceso e.ultimo_acceso u.tlb))
unfolding cargar_en_tlb cargar_en nueva_entrada
cargar_en_tlb-buscar_en_tlb pid nro_pagina frame u absent some_entry free small past =
    let new = nueva_entrada pid nro_pagina frame u in
    let is : es_de pid nro_pagina new ≡ true = ground (arith, ==_refl pid, ==_refl nro_pagina) in
    elim (Option-cases (position_from {A = EntradaTlb} (λ e. e.pid == 0) 0 u.tlb)) [
      | inr (r, q) ↦
          let (k, e, i, at, own) = position_some 0 r u.tlb q in
          let here : get_elem? u.tlb r ≡ some e =
            ap (λ m. get_elem? u.tlb m) (i ∙ omega arith) ∙ at in
          (
            record u { tlb = modify (λ x. new) r u.tlb },
            r,
            e,
            rw (q, cargar_en, mutex_free free) refl,
            buscar_modified pid nro_pagina r u.tlb e new absent here is,
            refl,
            here,
            inl own,
          )
      | inl q ↦
          let k = mas_antigua 0 u.accesos_a_memoria 0 u.tlb in
          let (e, at, oldest) = oldest_of u.tlb some_entry past in
          (
            record u { tlb = modify (λ x. new) k u.tlb },
            k,
            e,
            rw q (least_recent pid nro_pagina frame u e at free small),
            buscar_modified pid nro_pagina k u.tlb e new absent at is,
            refl,
            at,
            inr ((λ m x. position_none 0 m u.tlb x q), oldest),
          )
    ]
