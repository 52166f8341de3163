-- ===== src/Swap/Orders/Release.antt =====
-- The order FINALIZAR of Swap.c.
use so_unoficial.Prelude.{
  ℕ, zero, suc, ◌+◌, ◌-◌, ◌*◌, ◌≤◌, ◌<◌, ◌≡◌, ◌≢◌, refl, ap, sym, ◌∙◌, ◌⊎◌, inl, inr, le32, ltb,
  leb, ◌==◌, ◌&&◌, if◌then◌else◌, update, if_cases, Bool-cases, ltb→lt, arith,
}
use so_unoficial.Swap.State.{entry, no_pid, Swap, write_archivo, zeros}
use so_unoficial.Swap.State.Pages.{
  page, Covers, page_in, page-write_archivo, write_archivo-size, bytes_at_written, length-zeros,
}
use so_unoficial.Swap.Orders.{OrdenProceso, answered, exito_swap, free_run, liberar_memoria}
use so_unoficial.Swap.Orders.Content.{find_pid_first}

-- The entries from `i` up to `stop` are free in `t`, without a process, and their pages are zeros; all
-- others are as in `s`.
pub record Released (i stop : ℕ) (s t : Swap) : Type 0 where
  pub kept_count : t.cant_pag ≡ s.cant_pag
  pub kept_size : t.tam_pag ≡ s.tam_pag
  pub cover : Covers t
  pub entries :
      (k : ℕ) → t.bit_map k ≡ (if leb i k && ltb k stop then entry no_pid 0 else s.bit_map k)
  pub pages :
      (k : ℕ)
      → k < s.cant_pag
      → page t k ≡ (if leb i k && ltb k stop then zeros s.tam_pag else page s k)

freeing_nothing : (i : ℕ) (s : Swap) → Covers s → Released i i s s
freeing_nothing i s cover = record {
  kept_count = refl;
  kept_size = refl;
  cover = cover;
  entries = λ k. ground arith;
  pages = λ k h. ground arith;
}

-- `s` after one round of the loop.
abbrev freed : ℕ → Swap → Swap
freed i s = record s {
  bit_map = update s.bit_map i (entry no_pid 0);
  archivo_swap = write_archivo (i * s.tam_pag) (zeros s.tam_pag) s.archivo_swap;
}

freeing_one_page : (i : ℕ) (s : Swap) → Covers s → i < s.cant_pag → Released i (suc i) s (freed i s)
unfolding page
freeing_one_page i s cover inside =
    let l = length-zeros s.tam_pag in
    record {
      kept_count = refl;
      kept_size = refl;
      cover = omega (
        arith,
        cover,
        page_in i s.cant_pag s.tam_pag inside,
        write_archivo-size (i * s.tam_pag) (zeros s.tam_pag) s.archivo_swap,
      );
      entries = λ k. ground arith;
      pages = λ k h. elim (Bool-cases (i == k)) [
        | inl same ↦
            let here : i ≡ k = ground arith in
            let written : page (freed i s) k ≡ zeros s.tam_pag =
              ap (λ m. page (freed i s) m) (sym here)
              ∙ bytes_at_written (i * s.tam_pag) (zeros s.tam_pag) s.archivo_swap s.tam_pag l in
            ground arith
        | inr other ↦
            let kept : page (freed i s) k ≡ page s k =
              page-write_archivo s i (zeros s.tam_pag) k cover h (omega arith) (ground arith) in
            ground arith
      ];
    }

freeing_further :
    (i stop : ℕ) (s t u : Swap)
    → i < stop
    → Released i (suc i) s t
    → Released (suc i) stop t u
    → Released i stop s u
freeing_further i stop s t u h p q = record {
  kept_count = q.kept_count ∙ p.kept_count;
  kept_size = q.kept_size ∙ p.kept_size;
  cover = q.cover;
  entries = λ k. let a = p.entries k in let b = q.entries k in ground arith;
  pages = λ k l.
      let z = ap (λ n. zeros n) p.kept_size in
      let a = p.pages k l in let b = q.pages k (omega (arith, p.kept_count)) in ground arith;
}

free_run-Released :
    (pid left i stop : ℕ) (s : Swap)
    → Covers s
    → i + left ≡ s.cant_pag
    → i ≤ stop
    → stop ≤ s.cant_pag
    → ((k : ℕ) → i ≤ k → k < stop → (s.bit_map k).pid ≡ pid)
    → (stop ≡ s.cant_pag) ⊎ ((s.bit_map stop).pid ≢ pid)
    → Released i stop s (free_run pid left i s)
unfolding free_run
free_run-Released pid zero i stop s cover fits low high run end =
    let here : stop ≡ i = omega arith in rw here (freeing_nothing i s cover)
free_run-Released pid (suc left) i stop s cover fits low high run end =
    if_cases (λ r. Released i stop s r) ((s.bit_map i).pid == pid)
      (free_run pid left (suc i) (freed i s)) s
      (λ mine.
        let before : i < stop = goes_on (ground arith) in
        let one = freeing_one_page i s cover (omega arith) in
        freeing_further i stop s (freed i s) (free_run pid left (suc i) (freed i s)) before one (
          free_run-Released pid left (suc i) stop (freed i s) one.cover (omega arith) (omega arith)
            high (λ k l u. let mine' = run k (omega arith) u in ground arith) (end_later before)))
      (λ other. let here : stop ≡ i = ends (ground arith) in rw here (freeing_nothing i s cover))
  where
    goes_on : (s.bit_map i).pid ≡ pid → i < stop
    goes_on mine = elim (Bool-cases (ltb i stop)) [
      | inl more ↦ ltb→lt i stop more
      | inr no_more ↦
          let here : i ≡ stop = ground arith in
          absurd (elim end [
            | inl e ↦ omega arith
            | inr ne ↦ ne (ap (λ m. (s.bit_map m).pid) (sym here) ∙ mine)
          ])
    ]

    ends : (s.bit_map i).pid ≢ pid → stop ≡ i
    ends other = elim (Bool-cases (ltb i stop)) [
      | inl more ↦ absurd (other (run i (omega arith) (ltb→lt i stop more)))
      | inr no_more ↦ ground arith
    ]

    end_later : i < stop → (stop ≡ s.cant_pag) ⊎ (((freed i s).bit_map stop).pid ≢ pid)
    end_later h = elim end [ inl e ↦ inl e | inr ne ↦ inr (λ e. ne (ground arith)) ]

-- FINALIZAR of a process whose entries are those from `inicio` up to `stop`, on a file that holds
-- every page: the UMC gets EXITO_SWAP, the entries are free and without a process, their pages are
-- zeros, and all other entries and pages are as before.
pub liberar_memoria-Released :
    (o : OrdenProceso) (s : Swap) (inicio stop : ℕ)
    → Covers s
    → inicio < stop
    → stop ≤ s.cant_pag
    → ((k : ℕ) → k < inicio → (s.bit_map k).pid ≢ o.pid)
    → ((k : ℕ) → inicio ≤ k → k < stop → (s.bit_map k).pid ≡ o.pid)
    → (stop ≡ s.cant_pag) ⊎ ((s.bit_map stop).pid ≢ o.pid)
    → (t : Swap) × (liberar_memoria o s ≡ answered (le32 exito_swap) o.contenido t)
      × Released inicio stop s t
unfolding liberar_memoria
liberar_memoria-Released o s inicio stop cover some_page high first run end =
    let at =
      find_pid_first s.bit_map o.pid inicio s.cant_pag 0 (run inicio (omega arith) some_page) first
        (omega arith) (omega arith) in
    (
      free_run o.pid (s.cant_pag - inicio) inicio s,
      rw at refl,
      free_run-Released o.pid (s.cant_pag - inicio) inicio stop s cover (omega arith) (omega arith)
          high run end,
    )
