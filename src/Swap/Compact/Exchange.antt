-- ===== src/Swap/Compact/Exchange.antt =====
-- One step of compactar's inner loop, on the swap file and the array `bitMap` as a list of slots.
use so_unoficial.Prelude.{
  ℕ, zero, suc, ◌+◌, ◌*◌, ◌≤◌, ◌<◌, ◌≡◌, ◌≢◌, refl, ap₂, Bool, true, false, not, ◌&&◌, List, [],
  ◌∷◌, length, ◌==◌, if_cases, arith,
}
use so_unoficial.Swap.State.{Entry, Swap}
use so_unoficial.Swap.State.Pages.{
  page, Covers, page_in, read_archivo_all, length-bytes_at, file2-size, file2_here, file2_next,
  file2_other,
}
use so_unoficial.Swap.Compact.{Compacting, exchange, compact_step}

-- An entry with its page.
abbrev pub Slot : Type 0
Slot = Entry × List ℕ

abbrev pub slot : Swap → ℕ → Slot
slot s i = (s.bit_map i, page s i)

unfoldable pub slots_from : Swap → ℕ → ℕ → List Slot
slots_from s i zero = []
slots_from s i (suc n) = slot s i ∷ slots_from s (suc i) n

abbrev pub slots : Swap → List Slot
slots s = slots_from s 0 s.cant_pag

abbrev pub is_free : Slot → Bool
is_free (e, p) = e.estado == 0

-- `estado` is 0 or 1 in every entry of the array.
abbrev pub IsMarked : Swap → Type 0
IsMarked s = (i : ℕ) → i < s.cant_pag → (s.bit_map i).estado ≤ 1

-- What the body of compactar's loops keeps: the file holds all pages, the buffers hold one.
pub record Ready (c : Compacting) : Type 0 where
  pub cover : Covers c.swap_now
  pub marked : IsMarked c.swap_now
  pub room : length c.aux ≤ c.swap_now.tam_pag
  pub room2 : length c.aux2 ≤ c.swap_now.tam_pag

-- The slots of `c` and `d` are the same, but that `i` and the next are exchanged.
pub record Exchanged (i : ℕ) (c d : Compacting) : Type 0 where
  pub kept_count : d.swap_now.cant_pag ≡ c.swap_now.cant_pag
  pub ready : Ready d
  pub here : slot d.swap_now i ≡ slot c.swap_now (i + 1)
  pub next : slot d.swap_now (i + 1) ≡ slot c.swap_now i
  pub others :
      (k : ℕ) → k < c.swap_now.cant_pag → i ≢ k → i + 1 ≢ k → slot d.swap_now k ≡ slot c.swap_now k

exchange-Exchanged :
    (i : ℕ) (c : Compacting) → Ready c → i + 1 < c.swap_now.cant_pag → Exchanged i c (exchange i c)
unfolding exchange page
exchange-Exchanged i c r inside =
    let s = c.swap_now in
    let t = s.tam_pag in
    let end1 : i * t + t ≤ s.archivo_swap.size =
      omega (arith, page_in i s.cant_pag t (omega arith), r.cover) in
    let end2 : (i + 1) * t + t ≤ s.archivo_swap.size =
      omega (arith, page_in (i + 1) s.cant_pag t inside, r.cover) in
    let got1 = read_archivo_all s.archivo_swap (i * t) t c.aux end1 r.room in
    let got2 = read_archivo_all s.archivo_swap ((i + 1) * t) t c.aux2 end2 r.room2 in
    let first = page s i in
    let second = page s (i + 1) in
    let l1 = length-bytes_at s.archivo_swap.byte (i * t) t in
    let l2 = length-bytes_at s.archivo_swap.byte ((i + 1) * t) t in
    rw (got1, got2)
      (record {
        kept_count = refl;
        ready = record {
          cover = omega (arith, r.cover, file2-size s.archivo_swap i t first second l1 l2 end2);
          marked = λ k h.
              if_cases (λ e. e.estado ≤ 1) (i + 1 == k) (s.bit_map i) _
                (λ _. r.marked i (omega arith))
                (λ _.
                  if_cases (λ e. e.estado ≤ 1) (i == k) (s.bit_map (i + 1)) (s.bit_map k)
                    (λ _. r.marked (i + 1) (omega arith)) (λ _. r.marked k h));
          room = omega (arith, l1);
          room2 = omega (arith, l2);
        };
        here =
            ap₂ (λ e p. (e, p)) (ground arith)
              (file2_here s.archivo_swap i t first second l1 l2 end2);
        next =
            ap₂ (λ e p. (e, p)) (ground arith)
              (file2_next s.archivo_swap i t first second l1 l2 end2);
        others = λ k h ne ne'.
            ap₂ (λ e p. (e, p)) (ground arith)
              (file2_other s.archivo_swap i t first second l1 l2 end2 k ne ne'
                (omega (arith, page_in k s.cant_pag t h, r.cover)));
      })

-- Whether the entry is free and the next one is used.
abbrev pub moves : ℕ → Compacting → Bool
moves i c = is_free (slot c.swap_now i) && not (is_free (slot c.swap_now (suc i)))

pub compact_step_exchanges :
    (i : ℕ) (c : Compacting)
    → Ready c
    → i + 1 < c.swap_now.cant_pag
    → moves i c ≡ true
    → Exchanged i c (compact_step i c)
unfolding compact_step
compact_step_exchanges i c r inside h =
    let marked = r.marked (i + 1) inside in
    let used : ((c.swap_now.bit_map i).estado == 0 && (c.swap_now.bit_map (i + 1)).estado == 1)
        ≡ true =
      ground arith in
    rw used (exchange-Exchanged i c r inside)

pub compact_step_stays : (i : ℕ) (c : Compacting) → moves i c ≡ false → compact_step i c ≡ c
unfolding compact_step
compact_step_stays i c h = ground arith
