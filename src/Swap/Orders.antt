-- ===== src/Swap/Orders.antt =====
-- The orders that the UMC sends: leer, escribir, liberarMemoria, realizarPedidoUMC and copiar of Swap.c.
pub mod Start
pub mod Content
pub mod Release
use so_unoficial.Prelude.{
  update, ℕ, zero, suc, ◌+◌, ◌-◌, ◌*◌, Bool, Option, none, some, List, [], ◌∷◌, ◌++◌, length, take,
  drop, le32, value32, c_string, ltb, ◌==◌, if◌then◌else◌,
}
use so_unoficial.Swap.State.{Entry, entry, no_pid, Swap, read_archivo, write_archivo, zeros}
use so_unoficial.Swap.BitMap.{espacio_disponible, contiguo, asignacion, find_pid}
use so_unoficial.Swap.Compact.{compactar}

-- OrdenProceso. `orden` is 0 for INICIAR, 1 for LEER, 2 for ESCRIBIR and 3 for FINALIZAR. `contenido` is
-- the buffer of calloc(1, tamPag); strlen does not stop at its end, and `detras` is what lies behind it.
pub record OrdenProceso : Type 0 where
  pub pid : ℕ
  pub orden : ℕ
  pub cant_paginas : ℕ
  pub nro_pagina : ℕ
  pub contenido : List ℕ
  pub detras : List ℕ

-- EXITO_SWAP and ERROR_SWAP, the values of the globals `exito` and `error`.
abbrev pub exito_swap : ℕ
exito_swap = 5

abbrev pub error_swap : ℕ
error_swap = 6

-- What an order comes to: the bytes sent, the new `contenido` of the order and the new globals, or
-- entries in front of the array `bitMap` that were written.
pub data Answer : Type 0 where
  answered : List ℕ → List ℕ → Swap → Answer
  out_of_bounds : Answer

unfoldable pub leer : OrdenProceso → Swap → Answer
unfolding find_pid read_archivo c_string
leer o s =
    let i = find_pid s.bit_map o.pid s.tam_pag 0 in
    let contenido =
      read_archivo s.archivo_swap ((i + o.nro_pagina) * s.tam_pag) s.tam_pag o.contenido in
    answered (c_string (contenido ++ o.detras)) contenido s

unfoldable pub escribir : OrdenProceso → Swap → Answer
unfolding find_pid write_archivo c_string
escribir o s =
    let i = find_pid s.bit_map o.pid s.cant_pag 0 in
    if (s.bit_map i).pid == o.pid
    then answered [] o.contenido (record s {
      archivo_swap =
          write_archivo ((i + o.nro_pagina) * s.tam_pag) (c_string (o.contenido ++ o.detras))
            s.archivo_swap;
    })
    else answered [] o.contenido s

-- The second loop of liberarMemoria, with `left` entries to the end.
unfoldable pub free_run : ℕ → ℕ → ℕ → Swap → Swap
unfolding write_archivo zeros
free_run pid zero i s = s
free_run pid (suc left) i s =
    let rest = free_run pid left (suc i) (record s {
      bit_map = update s.bit_map i (entry no_pid 0);
      archivo_swap = write_archivo (i * s.tam_pag) (zeros s.tam_pag) s.archivo_swap;
    }) in
    if (s.bit_map i).pid == pid then rest else s

unfoldable pub liberar_memoria : OrdenProceso → Swap → Answer
unfolding find_pid free_run le32
liberar_memoria o s =
    let i = find_pid s.bit_map o.pid s.cant_pag 0 in
    answered (le32 exito_swap) o.contenido (free_run o.pid (s.cant_pag - i) i s)

-- asignacion with the result of contiguo as `inicio`, and the answer to the UMC.
unfoldable pub assign : OrdenProceso → Option ℕ → Swap → Answer
unfolding asignacion le32
assign o none s = out_of_bounds
assign o (some inicio) s =
    answered (le32 exito_swap) o.contenido
      (record s { bit_map = asignacion o.pid o.cant_paginas inicio s.bit_map })

-- What INICIAR does with the result of the first call of contiguo.
unfoldable pub place : ℕ → OrdenProceso → Swap → Option ℕ → Answer
unfolding contiguo assign compactar
place fin o s (some inicio) = assign o (some inicio) s
place fin o s none = let t = compactar s in assign o (contiguo fin o.cant_paginas t) t

-- The case INICIAR of realizarPedidoUMC.
unfoldable pub iniciar : ℕ → OrdenProceso → Swap → Answer
unfolding espacio_disponible contiguo place le32
iniciar fin o s =
    if espacio_disponible o.cant_paginas s
    then place fin o s (contiguo fin o.cant_paginas s)
    else answered (le32 error_swap) o.contenido s

unfoldable pub realizar_pedido_umc : ℕ → OrdenProceso → Swap → Answer
unfolding iniciar leer escribir liberar_memoria
realizar_pedido_umc fin o s =
    if o.orden == 0
    then iniciar fin o s
    else if o.orden == 1
    then leer o s
    else if o.orden == 2
    then escribir o s
    else if o.orden == 3
    then liberar_memoria o s
    else answered [] o.contenido s

-- copiar: the fields of the message `aux`; memcpy puts tamPag bytes into `contenido`. For a shorter
-- message the source reads on behind it; here a field is what the message has of it. `detras` lies in
-- memory behind those bytes.
unfoldable pub copiar : ℕ → List ℕ → List ℕ → OrdenProceso
unfolding value32
copiar tam_pag detras aux = record {
  pid = value32 (take 4 aux);
  orden = value32 (take 4 (drop 4 aux));
  cant_paginas = value32 (take 4 (drop 8 aux));
  nro_pagina = value32 (take 4 (drop 12 aux));
  contenido = take tam_pag (drop 16 aux);
  detras = detras;
}
