-- ===== src/Umc/Paging.antt =====
-- The UMC's messages as Swap reads them.
use so_unoficial.Prelude.{
  ℕ, ◌+◌, ◌^◌, ◌≤◌, ◌<◌, ◌≡◌, ◌≢◌, refl, ap, ◌∙◌, List, [], ◌∷◌, ◌++◌, length, take, take_all, le32,
  value32, c_string, arith,
}
use so_unoficial.Swap.State.{Swap}
use so_unoficial.Swap.State.Pages.{Covers}
use so_unoficial.Swap.Orders.{OrdenProceso, answered, copiar, realizar_pedido_umc}
use so_unoficial.Swap.Orders.Content.{Stored, escribir-leer}
use so_unoficial.Umc.Messages.{serializar, pedir_al_swap, enviar_pagina_al_swap}

value32-le32 : (n : ℕ) → n < 2 ^ 32 → value32 (le32 n) ≡ n
unfolding value32 le32
value32-le32 n h = omega arith

abbrev pub order : List ℕ → ℕ → ℕ → ℕ → ℕ → List ℕ → OrdenProceso
order detras pid orden cant_paginas nro_pagina contenido = record {
  pid = pid;
  orden = orden;
  cant_paginas = cant_paginas;
  nro_pagina = nro_pagina;
  contenido = contenido;
  detras = detras;
}

-- copiar, in Swap, reads back what the UMC put into a message, with 32-bit numbers and a content that
-- is not longer than a page.
pub copiar-serializar :
    (tam_pag : ℕ) (detras : List ℕ) (pid orden cant_paginas nro_pagina : ℕ) (contenido : List ℕ)
    → pid < 2 ^ 32
    → orden < 2 ^ 32
    → cant_paginas < 2 ^ 32
    → nro_pagina < 2 ^ 32
    → length contenido ≤ tam_pag
    → copiar tam_pag detras (serializar pid orden cant_paginas nro_pagina contenido) ≡ record {
      pid = pid;
      orden = orden;
      cant_paginas = cant_paginas;
      nro_pagina = nro_pagina;
      contenido = contenido;
      detras = detras;
    }
unfolding copiar serializar le32
copiar-serializar tam_pag detras pid orden cant_paginas nro_pagina contenido p o c n l =
    let later = take_all tam_pag contenido l in
    ap
      (λ x.
        order detras x (value32 (le32 orden)) (value32 (le32 cant_paginas))
          (value32 (le32 nro_pagina)) (take tam_pag contenido))
      (value32-le32 pid p)
    ∙ ap
        (λ x.
          order detras pid x (value32 (le32 cant_paginas)) (value32 (le32 nro_pagina))
            (take tam_pag contenido))
        (value32-le32 orden o)
    ∙ ap (λ x. order detras pid orden x (value32 (le32 nro_pagina)) (take tam_pag contenido))
        (value32-le32 cant_paginas c)
    ∙ ap (λ x. order detras pid orden cant_paginas x (take tam_pag contenido))
        (value32-le32 nro_pagina n)
    ∙ ap (λ x. order detras pid orden cant_paginas nro_pagina x) later

-- A page that the UMC sends to Swap with enviarPaginaAlSwap and asks for with pedirAlSwap comes back:
-- Swap, which reads the messages with copiar and follows them with realizarPedidoUMC, answers the
-- bytes of the page, and behind them what then lies behind the buffer of copiar up to a NUL byte, and
-- has changed no other page. The page has tamPag bytes, none of them NUL, a NUL byte lies behind the
-- buffer of copiar that takes it, the swap file holds every page, `i` is the first entry of the
-- process, within leer's bound, and the page lies in the array.
pub enviar_pagina_al_swap-pedir_al_swap :
    (fin pid nro_pagina : ℕ) (page detras detras' : List ℕ) (s : Swap) (i : ℕ)
    → Covers s
    → (s.bit_map i).pid ≡ pid
    → ((k : ℕ) → k < i → (s.bit_map k).pid ≢ pid)
    → i + nro_pagina < s.cant_pag
    → i ≤ s.tam_pag
    → 0 < s.tam_pag
    → length page ≡ s.tam_pag
    → c_string page ≡ page
    → c_string detras ≡ []
    → pid < 2 ^ 32
    → nro_pagina < 2 ^ 32
    → (t : Swap) × (realizar_pedido_umc fin
          (copiar s.tam_pag detras (enviar_pagina_al_swap s.tam_pag pid nro_pagina page))
          s
        ≡ answered [] page t)
      × (realizar_pedido_umc fin (copiar s.tam_pag detras' (pedir_al_swap pid nro_pagina)) t
          ≡ answered (page ++ c_string detras') page t)
      × Stored (i + nro_pagina) page s t
unfolding enviar_pagina_al_swap pedir_al_swap realizar_pedido_umc
enviar_pagina_al_swap-pedir_al_swap fin pid nro_pagina page detras detras' s i cover found first
      inside bound room full no_nul ended p n =
    let whole = take_all s.tam_pag page (omega arith) in
    let sent =
      copiar-serializar s.tam_pag detras pid 2 0 nro_pagina page p (omega arith) (omega arith) n
        (omega arith) in
    let asked =
      copiar-serializar s.tam_pag detras' pid 1 0 nro_pagina (0 ∷ []) p (omega arith) (omega arith)
        n (omega arith) in
    let (t, wrote, read, stored) =
      escribir-leer (order detras pid 2 0 nro_pagina page)
        (order detras' pid 1 0 nro_pagina (0 ∷ [])) s i cover found first inside bound full no_nul
        ended refl refl (omega arith) in
    (
      t,
      ap
            (λ l.
              realizar_pedido_umc fin (copiar s.tam_pag detras (serializar pid 2 0 nro_pagina l)) s)
            whole
          ∙ ap (λ o. realizar_pedido_umc fin o s) sent
          ∙ wrote,
      ap (λ o. realizar_pedido_umc fin o t) asked ∙ read,
      stored,
    )
