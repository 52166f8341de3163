-- ===== src/Swap/Compact.antt =====
-- compactar of Swap.c.
pub mod Partition
pub mod Exchange
pub mod Passes
use so_unoficial.Prelude.{
  update, ℕ, zero, suc, ◌+◌, ◌-◌, ◌*◌, List, [], ◌∷◌, ◌==◌, ◌&&◌, if◌then◌else◌,
}
use so_unoficial.Swap.State.{Entry, Archivo, Swap, read_archivo, write_archivo, zeros}

-- What the loops of compactar change: the globals, and the buffers archivoAux and archivoAux2.
pub record Compacting : Type 0 where
  pub swap_now : Swap
  pub aux : List ℕ
  pub aux2 : List ℕ

-- The body of the inner `if` at entry `i`.
unfoldable pub exchange : ℕ → Compacting → Compacting
unfolding read_archivo write_archivo
exchange i c =
    let s = c.swap_now in
    let first = read_archivo s.archivo_swap (i * s.tam_pag) s.tam_pag c.aux in
    let second = read_archivo s.archivo_swap ((i + 1) * s.tam_pag) s.tam_pag c.aux2 in
    let entries = update (update s.bit_map i (s.bit_map (i + 1))) (i + 1) (s.bit_map i) in
    let file = write_archivo (i * s.tam_pag) second s.archivo_swap in
    record {
      swap_now = record s {
        bit_map = entries;
        archivo_swap = write_archivo ((i + 1) * s.tam_pag) first file;
      };
      aux = first;
      aux2 = second;
    }

unfoldable pub compact_step : ℕ → Compacting → Compacting
unfolding exchange
compact_step i c =
    if (c.swap_now.bit_map i).estado == 0 && (c.swap_now.bit_map (i + 1)).estado == 1
    then exchange i c
    else c

-- The inner loop from entry `i` on, with `left` rounds to go.
unfoldable pub pass_from : ℕ → ℕ → Compacting → Compacting
unfolding compact_step
pass_from zero i c = c
pass_from (suc left) i c = pass_from left (suc i) (compact_step i c)

-- The outer loop.
unfoldable pub passes : ℕ → Compacting → Compacting
unfolding pass_from
passes zero c = c
passes (suc left) c = passes left (pass_from (c.swap_now.cant_pag - 1) 0 c)

unfoldable pub compactar : Swap → Swap
unfolding passes zeros
compactar s =
    (passes s.cant_pag
      (record { swap_now = s; aux = zeros s.tam_pag; aux2 = zeros s.tam_pag })).swap_now
