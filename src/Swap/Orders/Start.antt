-- ===== src/Swap/Orders/Start.antt =====
-- The order INICIAR of Swap.c.
use so_unoficial.Prelude.{
  ℕ, zero, suc, ◌+◌, ◌-◌, ◌≤◌, ◌<◌, ◌≡◌, refl, ap, ap₂, sym, ◌∙◌, ◌⊎◌, inl, inr, true, Option, some,
  none, ◌&&◌, List, [], ◌∷◌, ◌++◌, length, drop, length-append, le32, ltb, leb, update,
  if◌then◌else◌, Bool-cases, arith,
}
use so_unoficial.Swap.State.{Entry, entry, Swap}
use so_unoficial.Swap.State.Pages.{Covers}
use so_unoficial.Swap.BitMap.{espacio_disponible, contiguo, asignacion}
use so_unoficial.Swap.BitMap.Windows.{
  free_count, all_free, all_free_at, all_free_from, espacio_disponible-free_count, IsWindow,
  contiguo-IsWindow,
}
use so_unoficial.Swap.Compact.{compactar}
use so_unoficial.Swap.Compact.Partition.{used_of, free_of, all_of, all_of-free_of}
use so_unoficial.Swap.Compact.Exchange.{Slot, slots_from, slots, is_free, IsMarked}
use so_unoficial.Swap.Compact.Passes.{length-slots_from, compactar-partition}
use so_unoficial.Swap.Orders.{
  OrdenProceso, Answer, answered, exito_swap, error_swap, assign, place, iniciar,
}

all_of-slots_from :
    (s : Swap) (i n : ℕ) → all_of is_free (slots_from s i n) ≡ all_free s.bit_map i n
unfolding all_of slots_from all_free
all_of-slots_from s i zero = refl
all_of-slots_from s i (suc n) = ground (arith, all_of-slots_from s (suc i) n)

drop-slots_from : (s : Swap) (i m l : ℕ) → drop m (slots_from s i l) ≡ slots_from s (i + m) (l - m)
unfolding slots_from
drop-slots_from s i zero l = ap₂ (λ j n. slots_from s j n) (omega arith) (omega arith)
drop-slots_from s i (suc m) zero =
    let nothing : 0 - suc m ≡ 0 = omega arith in ap (λ n. slots_from s (i + suc m) n) (sym nothing)
drop-slots_from s i (suc m) (suc l) =
    drop-slots_from s (suc i) m l ∙ ap₂ (λ j n. slots_from s j n) (omega arith) (omega arith)

-- How many slots are free, and how many are not.
length-free_of :
    (s : Swap) (i n : ℕ) → length (free_of is_free (slots_from s i n)) ≡ free_count s.bit_map i n
unfolding slots_from free_of free_count
length-free_of s i zero = refl
length-free_of s i (suc n) = ground (arith, length-free_of s (suc i) n)

length-used_of :
    (xs : List Slot) → length (used_of is_free xs) + length (free_of is_free xs) ≡ length xs
unfolding used_of free_of
length-used_of [] = refl
length-used_of (x ∷ xs) = ground (arith, length-used_of xs)

drop_front : (us fs : List Slot) → drop (length us) (us ++ fs) ≡ fs
drop_front [] fs = refl
drop_front (u ∷ us) fs = drop_front us fs

all_free_part :
    (bit_map : ℕ → Entry) (i n m : ℕ)
    → m ≤ n
    → all_free bit_map i n ≡ true
    → all_free bit_map i m ≡ true
all_free_part bit_map i n m h e =
    all_free_from bit_map i m (λ k l u. all_free_at bit_map i n k e l (omega arith))

-- compactar leaves the free entries at the end of the array.
pub record Compacted (s t : Swap) : Type 0 where
  pub kept_count : t.cant_pag ≡ s.cant_pag
  pub room : free_count s.bit_map 0 s.cant_pag ≤ s.cant_pag
  pub tail :
      all_free t.bit_map
        (s.cant_pag - free_count s.bit_map 0 s.cant_pag)
        (free_count s.bit_map 0 s.cant_pag)
      ≡ true

compactar-Compacted : (s : Swap) → Covers s → IsMarked s → Compacted s (compactar s)
compactar-Compacted s cover marked =
    let t = compactar s in
    let us = used_of is_free (slots s) in
    let fs = free_of is_free (slots s) in
    let parts : slots t ≡ us ++ fs = compactar-partition s cover marked in
    let count : length fs ≡ free_count s.bit_map 0 s.cant_pag = length-free_of s 0 s.cant_pag in
    let total = length-used_of (slots s) in
    let all_s = length-slots_from s 0 s.cant_pag in
    let all_t = length-slots_from t 0 t.cant_pag in
    let both = ap (λ l. length l) parts ∙ length-append us fs in
    let n = free_count s.bit_map 0 s.cant_pag in
    let w = s.cant_pag - n in
    let start : w ≡ 0 + length us = omega arith in
    let rest : n ≡ t.cant_pag - length us = omega arith in
    let behind : slots_from t w n ≡ fs =
      ap₂ (λ j m. slots_from t j m) start rest
      ∙ sym (drop-slots_from t 0 (length us) t.cant_pag)
      ∙ ap (λ l. drop (length us) l) parts
      ∙ drop_front us fs in
    record {
      kept_count = omega arith;
      room = omega arith;
      tail =
          sym (all_of-slots_from t w n)
          ∙ ap (λ l. all_of is_free l) behind
          ∙ all_of-free_of is_free (slots s);
    }

-- The entries from `inicio` on belong to the process.
asignacion_entries :
    (pid paginas inicio : ℕ) (bit_map : ℕ → Entry) (k : ℕ)
    → asignacion pid paginas inicio bit_map k
      ≡ (if leb inicio k && ltb k (inicio + paginas) then entry pid 1 else bit_map k)
unfolding asignacion
asignacion_entries pid zero inicio bit_map k = ground arith
asignacion_entries pid (suc paginas) inicio bit_map k =
    ground
      (arith, asignacion_entries pid paginas (suc inicio) (update bit_map inicio (entry pid 1)) k)

-- INICIAR gave the process consecutive entries of the array, in `t`, which were free there.
pub record Started (o : OrdenProceso) (s t : Swap) (r : Answer) : Type 0 where
  pub inicio : ℕ
  pub inside : inicio + o.cant_paginas ≤ s.cant_pag
  pub were_free : all_free t.bit_map inicio o.cant_paginas ≡ true
  pub entries : ℕ → Entry
  pub answer : r ≡ answered (le32 exito_swap) o.contenido (record t { bit_map = entries })
  pub given :
      (k : ℕ)
      → entries k
        ≡ (if leb inicio k && ltb k (inicio + o.cant_paginas) then entry o.pid 1 else t.bit_map k)

assign-Started :
    (o : OrdenProceso) (s t : Swap) (i w : ℕ)
    → t.cant_pag ≡ s.cant_pag
    → IsWindow o.cant_paginas w t (some i)
    → Started o s t (assign o (some i) t)
unfolding assign
assign-Started o s t i w count (inside, free) = record {
  inicio = i;
  inside = omega arith;
  were_free = all_free_part t.bit_map i (o.cant_paginas + 1) o.cant_paginas (omega arith) free;
  entries = asignacion o.pid o.cant_paginas i t.bit_map;
  answer = refl;
  given = λ k. asignacion_entries o.pid o.cant_paginas i t.bit_map k;
}

assign_at :
    (o : OrdenProceso) (s t : Swap) (w : ℕ)
    → t.cant_pag ≡ s.cant_pag
    → all_free t.bit_map w (o.cant_paginas + 1) ≡ true
    → (r : Option ℕ) → IsWindow o.cant_paginas w t r
    → Started o s t (assign o r t)
assign_at o s t w count free none window = absurd (ground arith)
assign_at o s t w count free (some i) window = assign-Started o s t i w count window

-- Where the free entries are at the end and one more than asked for, contiguo gives a place.
assign_at_tail :
    (fin : ℕ) (o : OrdenProceso) (s t : Swap)
    → Compacted s t
    → 0 < o.cant_paginas
    → o.cant_paginas < free_count s.bit_map 0 s.cant_pag
    → Started o s t (assign o (contiguo fin o.cant_paginas t) t)
assign_at_tail fin o s t c some_page enough =
    let n = free_count s.bit_map 0 s.cant_pag in
    let w = s.cant_pag - n in
    let kept = c.kept_count in
    let room = c.room in
    let window = contiguo-IsWindow fin o.cant_paginas w t some_page (omega arith) in
    let free = all_free_part t.bit_map w n (o.cant_paginas + 1) (omega arith) c.tail in
    assign_at o s t w kept free (contiguo fin o.cant_paginas t) window

place-Started :
    (fin : ℕ) (o : OrdenProceso) (s : Swap)
    → Compacted s (compactar s)
    → 0 < o.cant_paginas
    → o.cant_paginas < free_count s.bit_map 0 s.cant_pag
    → (r : Option ℕ) → IsWindow o.cant_paginas 0 s r
    → Started o s s (place fin o s r) ⊎ Started o s (compactar s) (place fin o s r)
unfolding place
place-Started fin o s c some_page enough (some i) window =
    inl (assign-Started o s s i 0 refl window)
place-Started fin o s c some_page enough none window =
    inr (assign_at_tail fin o s (compactar s) c some_page enough)

-- INICIAR for at least one page, on a swap file that holds every page and an array with entries 0
-- and 1 of which more are free than pages are asked for, succeeds: the UMC gets EXITO_SWAP, and the
-- process gets as many consecutive entries, all within the array and free until then, of the array
-- as it was or as compactar leaves it; every other entry stays.
pub iniciar-Started :
    (fin : ℕ) (o : OrdenProceso) (s : Swap)
    → Covers s
    → IsMarked s
    → 0 < o.cant_paginas
    → o.cant_paginas < free_count s.bit_map 0 s.cant_pag
    → Started o s s (iniciar fin o s) ⊎ Started o s (compactar s) (iniciar fin o s)
unfolding iniciar
iniciar-Started fin o s cover marked some_page enough =
    let yes_room : espacio_disponible o.cant_paginas s ≡ true =
      (espacio_disponible-free_count o.cant_paginas s).1 (omega arith) in
    let c = compactar-Compacted s cover marked in
    let room = c.room in
    rw yes_room (
      place-Started fin o s c some_page enough (contiguo fin o.cant_paginas s)
        (contiguo-IsWindow fin o.cant_paginas 0 s some_page (omega arith)))

-- INICIAR for more pages than entries are free answers ERROR_SWAP and changes nothing.
pub iniciar_full :
    (fin : ℕ) (o : OrdenProceso) (s : Swap)
    → free_count s.bit_map 0 s.cant_pag < o.cant_paginas
    → iniciar fin o s ≡ answered (le32 error_swap) o.contenido s
unfolding iniciar
iniciar_full fin o s full = elim (Bool-cases (espacio_disponible o.cant_paginas s)) [
  | inl h ↦ absurd (omega (arith, (espacio_disponible-free_count o.cant_paginas s).0 h))
  | inr h ↦ rw h refl
]
