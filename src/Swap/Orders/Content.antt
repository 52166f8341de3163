-- ===== src/Swap/Orders/Content.antt =====
-- The orders LEER and ESCRIBIR of Swap.c.
use so_unoficial.Prelude.{
  ℕ, zero, suc, ◌+◌, ◌*◌, ◌≤◌, ◌<◌, ◌≡◌, ◌≢◌, refl, ap, sym, ◌∙◌, false, List, [], ◌∷◌, ◌++◌,
  length, drop, c_string, ltb, ◌==◌, arith, ==_refl, if_cases, Bool-cases, ltb→lt, inl, inr,
}
use mathlib.Core.List.{append-nil}
use so_unoficial.Swap.State.{Entry, Swap, write_archivo}
use so_unoficial.Swap.State.Pages.{
  page, Covers, page_in, page-write_archivo, read_archivo_all, write_archivo-size, bytes_at_written,
}
use so_unoficial.Swap.BitMap.{find_pid}
use so_unoficial.Swap.Orders.{OrdenProceso, answered, leer, escribir}

-- The search ends at the first entry of the process.
pub find_pid_first :
    (bit_map : ℕ → Entry) (pid i left start : ℕ)
    → (bit_map i).pid ≡ pid
    → ((k : ℕ) → k < i → (bit_map k).pid ≢ pid)
    → start ≤ i
    → i ≤ start + left
    → find_pid bit_map pid left start ≡ i
unfolding find_pid
find_pid_first bit_map pid i zero start found first low high = omega arith
find_pid_first bit_map pid i (suc left) start found first low high =
    if_cases (λ r. r ≡ i) ((bit_map start).pid == pid) start (find_pid bit_map pid left (suc start))
      (λ h. elim (Bool-cases (ltb start i)) [
        | inl before ↦ absurd (first start (ltb→lt start i before) (ground arith))
        | inr behind ↦ ground arith
      ])
      (λ h. elim (Bool-cases (ltb start i)) [
        | inl before ↦
            find_pid_first bit_map pid i left (suc start) found first (ltb→lt start i before)
              (omega arith)
        | inr behind ↦ let here : start ≡ i = ground arith in absurd (rw_here here h)
      ])
  where
    rw_here : start ≡ i → ((bit_map start).pid == pid) ≡ false → ⊥
    rw_here here h = ground arith

-- Where a buffer has no NUL byte, strlen runs on behind it.
pub c_string-append : (xs ys : List ℕ) → c_string xs ≡ xs → c_string (xs ++ ys) ≡ xs ++ c_string ys
unfolding c_string
c_string-append [] ys h = refl
c_string-append (x ∷ xs) ys h = elim (Bool-cases (x == 0)) [
  | inl nul ↦ absurd (ground (arith, ap length h))
  | inr some ↦ rw some (ap (λ l. x ∷ l) (c_string-append xs ys (ap (λ l. drop 1 l) (rw some at h))))
]

-- LEER of page `nro_pagina` of a process whose first entry `i` lies within the bound of leer's loop,
-- tamPag, into a buffer of at most a page: the answer is the page, and what lies behind the buffer,
-- up to the first NUL byte, and nothing changes.
pub leer-page :
    (o : OrdenProceso) (s : Swap) (i : ℕ)
    → Covers s
    → (s.bit_map i).pid ≡ o.pid
    → ((k : ℕ) → k < i → (s.bit_map k).pid ≢ o.pid)
    → i + o.nro_pagina < s.cant_pag
    → i ≤ s.tam_pag
    → length o.contenido ≤ s.tam_pag
    → leer o s
      ≡ answered (c_string (page s (i + o.nro_pagina) ++ o.detras)) (page s (i + o.nro_pagina)) s
unfolding leer page
leer-page o s i cover found first inside bound room =
    let at = find_pid_first s.bit_map o.pid i s.tam_pag 0 found first (omega arith) (omega arith) in
    let got =
      read_archivo_all s.archivo_swap ((i + o.nro_pagina) * s.tam_pag) s.tam_pag o.contenido
        (omega (arith, page_in (i + o.nro_pagina) s.cant_pag s.tam_pag inside)) room in
    rw (at, got) refl

-- What ESCRIBIR leaves: page `n` holds the bytes, every other page and the array are as before.
pub record Stored (n : ℕ) (bytes : List ℕ) (s t : Swap) : Type 0 where
  pub here : page t n ≡ bytes
  pub other : (j : ℕ) → j < s.cant_pag → n ≢ j → page t j ≡ page s j
  pub entries : t.bit_map ≡ s.bit_map

-- ESCRIBIR of as many bytes as a page has, none of them NUL, with a NUL byte behind their buffer, to page
-- `nro_pagina` of a process whose first entry is `i`: the page with that number behind `i` holds the
-- bytes and every other page is as before; and LEER of the same page, where leer's loop reaches `i`,
-- answers the same bytes, and behind them what lies behind its buffer up to a NUL byte.
pub escribir-leer :
    (o p : OrdenProceso) (s : Swap) (i : ℕ)
    → Covers s
    → (s.bit_map i).pid ≡ o.pid
    → ((k : ℕ) → k < i → (s.bit_map k).pid ≢ o.pid)
    → i + o.nro_pagina < s.cant_pag
    → i ≤ s.tam_pag
    → length o.contenido ≡ s.tam_pag
    → c_string o.contenido ≡ o.contenido
    → c_string o.detras ≡ []
    → p.pid ≡ o.pid
    → p.nro_pagina ≡ o.nro_pagina
    → length p.contenido ≤ s.tam_pag
    → (t : Swap) × (escribir o s ≡ answered [] o.contenido t)
      × (leer p t ≡ answered (o.contenido ++ c_string p.detras) o.contenido t)
      × Stored (i + o.nro_pagina) o.contenido s t
unfolding escribir page
escribir-leer o p s i cover found first inside bound full no_nul ended pid nro room =
    let at =
      find_pid_first s.bit_map o.pid i s.cant_pag 0 found first (omega arith) (omega arith) in
    let n = i + o.nro_pagina in
    let t = record s { archivo_swap = write_archivo (n * s.tam_pag) o.contenido s.archivo_swap } in
    let size =
      write_archivo-size (n * s.tam_pag) o.contenido s.archivo_swap
        (omega (arith, page_in n s.cant_pag s.tam_pag inside)) in
    let here : page t n ≡ o.contenido =
      bytes_at_written (n * s.tam_pag) o.contenido s.archivo_swap s.tam_pag full in
    let whole : c_string (o.contenido ++ o.detras) ≡ o.contenido =
      c_string-append o.contenido o.detras no_nul
      ∙ ap (λ l. o.contenido ++ l) ended
      ∙ append-nil o.contenido in
    (
      t,
      rw (at, found, ==_refl o.pid, whole) refl,
      leer-page p t i (omega (arith, cover, size)) (found ∙ sym pid) (λ k h e. first k h (e ∙ pid))
            (omega arith) bound room
          ∙ ap (λ l. answered (c_string (l ++ p.detras)) l t) (ap (λ m. page t (i + m)) nro ∙ here)
          ∙ ap (λ l. answered l o.contenido t) (c_string-append o.contenido p.detras no_nul),
      record {
        here = here;
        other = λ j h ne. page-write_archivo s n o.contenido j cover h (omega arith) ne;
        entries = refl;
      },
    )
