-- ===== src/Swap/Tests.antt =====
-- Orders on a small swap file.
use so_unoficial.Prelude.{
  ℕ, zero, suc, ◌+◌, ◌≤◌, ◌<◌, ◌≡◌, ◌≢◌, refl, ◌⊎◌, inr, ◌↔◌, true, none, List, [], ◌∷◌, ◌++◌,
  c_string, le32, ◌==◌, if◌then◌else◌, arith,
}
use so_unoficial.Swap.State.{Entry, entry, no_pid, Swap}
use so_unoficial.Swap.State.Pages.{Covers}
use so_unoficial.Swap.BitMap.{espacio_disponible, contiguo}
use so_unoficial.Swap.BitMap.Windows.{
  free_count, espacio_disponible-free_count, IsWindow, contiguo-IsWindow,
}
use so_unoficial.Swap.Compact.{compactar}
use so_unoficial.Swap.Compact.Partition.{used_of, free_of}
use so_unoficial.Swap.Compact.Exchange.{slots, is_free, IsMarked}
use so_unoficial.Swap.Compact.Passes.{compactar-partition}
use so_unoficial.Swap.Orders.{
  OrdenProceso, answered, exito_swap, error_swap, leer, escribir, iniciar, liberar_memoria,
}
use so_unoficial.Swap.Orders.Start.{Started, iniciar-Started, iniciar_full}
use so_unoficial.Swap.Orders.Content.{Stored, escribir-leer}
use so_unoficial.Swap.Orders.Release.{Released, liberar_memoria-Released}

-- Pages of 4 bytes; the processes 7 and 9 have the pages 1 and 3 of 6.
abbrev small_map : ℕ → Entry
small_map i = if i == 1 then entry 7 1 else if i == 3 then entry 9 1 else entry no_pid 0

abbrev small : Swap
small = record {
  bit_map = small_map;
  archivo_swap = record { size = 24; byte = λ k. k + 1 };
  cant_pag = 6;
  tam_pag = 4;
}

abbrev order : ℕ → ℕ → ℕ → List ℕ → OrdenProceso
order pid cant_paginas nro_pagina contenido = record {
  pid = pid;
  orden = 0;
  cant_paginas = cant_paginas;
  nro_pagina = nro_pagina;
  contenido = contenido;
  detras = 0 ∷ 5 ∷ [];
}

small-Covers : Covers small
small-Covers = omega arith

small-IsMarked : IsMarked small
small-IsMarked i h = ground arith

small_free : free_count small_map 0 6 ≡ 4
unfolding free_count
small_free = refl

-- No three entries in a row are free.
no_window : contiguo 0 3 small ≡ none
unfolding contiguo
no_window = refl

espacio_disponible-free_count_example :
    (espacio_disponible 3 small ≡ true) ↔ (3 ≤ free_count small_map 0 6)
espacio_disponible-free_count_example = espacio_disponible-free_count 3 small

contiguo-IsWindow_example : IsWindow 1 2 small (contiguo 0 1 small)
contiguo-IsWindow_example = contiguo-IsWindow 0 1 2 small (omega arith) (omega arith)

compactar-partition_example :
    slots (compactar small) ≡ used_of is_free (slots small) ++ free_of is_free (slots small)
compactar-partition_example = compactar-partition small small-Covers small-IsMarked

iniciar-Started_example :
    Started (order 5 3 0 []) small small (iniciar 0 (order 5 3 0 []) small)
    ⊎ Started (order 5 3 0 []) small (compactar small) (iniciar 0 (order 5 3 0 []) small)
iniciar-Started_example =
    iniciar-Started 0 (order 5 3 0 []) small small-Covers small-IsMarked (omega arith)
      (omega (arith, small_free))

iniciar_full_example : iniciar 0 (order 5 5 0 []) small ≡ answered (le32 error_swap) [] small
iniciar_full_example = iniciar_full 0 (order 5 5 0 []) small (omega (arith, small_free))

small_first : (k : ℕ) → k < 3 → (small_map k).pid ≢ 9
small_first zero h e = ground arith
small_first (suc k) h e = ground arith

escribir-leer_example :
    (t : Swap) × (escribir (order 9 0 0 (1 ∷ 2 ∷ 3 ∷ 4 ∷ [])) small
      ≡ answered [] (1 ∷ 2 ∷ 3 ∷ 4 ∷ []) t)
    × (leer (order 9 0 0 []) t ≡ answered (1 ∷ 2 ∷ 3 ∷ 4 ∷ []) (1 ∷ 2 ∷ 3 ∷ 4 ∷ []) t)
    × Stored 3 (1 ∷ 2 ∷ 3 ∷ 4 ∷ []) small t
unfolding c_string
escribir-leer_example =
    escribir-leer (order 9 0 0 (1 ∷ 2 ∷ 3 ∷ 4 ∷ [])) (order 9 0 0 []) small 3 small-Covers refl
      small_first (omega arith) (omega arith) refl refl refl refl refl (omega arith)

liberar_memoria-Released_example :
    (t : Swap) × (liberar_memoria (order 9 0 0 []) small ≡ answered (le32 exito_swap) [] t)
    × Released 3 4 small t
liberar_memoria-Released_example =
    liberar_memoria-Released (order 9 0 0 []) small 3 4 small-Covers (omega arith) (omega arith)
      small_first (λ k l u. ground arith) (inr (λ e. ground arith))
