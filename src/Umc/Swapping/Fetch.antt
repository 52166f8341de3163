-- ===== src/Umc/Swapping/Fetch.antt =====
-- pedirAlSwap: the page that Swap keeps comes into the buffer.
use so_unoficial.Prelude.{
  ℕ, ◌+◌, ◌^◌, ◌≤◌, ◌<◌, ◌≡◌, ◌≢◌, refl, ap, sym, ◌∙◌, List, [], ◌∷◌, ◌++◌, length, take, drop,
  take-append, drop-length, overwrite, c_string, arith,
}
use mathlib.Core.List.{append-nil}
use so_unoficial.Swap.State.{Swap}
use so_unoficial.Swap.State.Pages.{Covers, page}
use so_unoficial.Swap.Orders.{answered, copiar, realizar_pedido_umc}
use so_unoficial.Swap.Orders.Content.{c_string-append, leer-page}
use so_unoficial.Umc.State.{Umc, Env, listo, ◌>>=◌}
use so_unoficial.Umc.Messages.{pedir_al_swap}
use so_unoficial.Umc.Paging.{order, copiar-serializar}
use so_unoficial.Umc.Swapping.{segun_respuesta_de_swap, enviar, recibir_de, recibir, traer_de_swap}

-- Page `nro_pagina` of the process, whose entries in Swap begin at `i`, holds `bytes`, none of them
-- NUL, within leer's bound and as long as a frame.
pub record Guardada (pid nro_pagina i tamanio : ℕ) (bytes : List ℕ) (s : Swap) : Type 0 where
  pub cover : Covers s
  pub found : (s.bit_map i).pid ≡ pid
  pub first : (k : ℕ) → k < i → (s.bit_map k).pid ≢ pid
  pub listed : i + nro_pagina < s.cant_pag
  pub reached : i ≤ s.tam_pag
  pub size : s.tam_pag ≡ tamanio
  pub some_size : 0 < tamanio
  pub content : page s (i + nro_pagina) ≡ bytes
  pub whole : length bytes ≡ tamanio
  pub no_nul : c_string bytes ≡ bytes
  pub pid32 : pid < 2 ^ 32
  pub nro32 : nro_pagina < 2 ^ 32

answering :
    (env : Env) (pid nro_pagina i tamanio : ℕ) (bytes : List ℕ) (s : Swap)
    → Guardada pid nro_pagina i tamanio bytes s
    → realizar_pedido_umc env.fin (copiar s.tam_pag env.detras (pedir_al_swap pid nro_pagina)) s
      ≡ answered (bytes ++ c_string env.detras) bytes s
unfolding pedir_al_swap realizar_pedido_umc
answering env pid nro_pagina i tamanio bytes s h =
    let asked =
      copiar-serializar s.tam_pag env.detras pid 1 0 nro_pagina (0 ∷ []) h.pid32 (omega arith)
        (omega arith) h.nro32 (omega (arith, h.size, h.some_size)) in
    ap (λ o. realizar_pedido_umc env.fin o s) asked
    ∙ leer-page (order env.detras pid 1 0 nro_pagina (0 ∷ [])) s i h.cover h.found h.first h.listed
        h.reached (omega (arith, h.size, h.some_size))
    ∙ ap (λ b. answered (c_string (b ++ env.detras)) b s) h.content
    ∙ ap (λ b. answered b bytes s) (c_string-append bytes env.detras h.no_nul)

drop_front : (xs ys : List ℕ) → drop (length xs) (xs ++ ys) ≡ ys
drop_front [] ys = refl
drop_front (x ∷ xs) ys = drop_front xs ys

receiving :
    (env : Env) (n : ℕ) (bytes more : List ℕ) (u : Umc)
    → 0 < n
    → length bytes ≡ n
    → recibir_de env n (bytes ++ more) u ≡ listo (bytes, record u { de_swap = more })
unfolding recibir_de overwrite
receiving env n [] more u some_size whole = absurd (omega arith)
receiving env n (b ∷ bs) more u some_size whole =
    rw
      (
        ap (λ k. take k (b ∷ bs ++ more)) (sym whole) ∙ take-append (b ∷ bs) more,
        ap (λ k. drop k (b ∷ bs ++ more)) (sym whole) ∙ drop_front (b ∷ bs) more,
        drop-length (length (b ∷ bs)) (env.fresh n) (omega (arith, env.length_fresh n)),
        append-nil (b ∷ bs),
      )
      refl

sending :
    (env : Env) (pid nro_pagina i : ℕ) (bytes : List ℕ) (u : Umc)
    → Guardada pid nro_pagina i u.tamanio_frame bytes u.swap
    → u.de_swap ≡ []
    → enviar env (pedir_al_swap pid nro_pagina) u
      ≡ listo (record u { de_swap = bytes ++ c_string env.detras })
unfolding enviar segun_respuesta_de_swap
sending env pid nro_pagina i bytes u h quiet =
    ap (λ a. segun_respuesta_de_swap u a)
      (answering env pid nro_pagina i u.tamanio_frame bytes u.swap h)
    ∙ ap (λ l. listo (record u { de_swap = l ++ (bytes ++ c_string env.detras) })) quiet

-- The buffer of pedirAlSwap, where all that Swap had answered before has been read; what leer sent of
-- the memory behind its buffer is left.
pub fetching :
    (env : Env) (pid nro_pagina i : ℕ) (bytes : List ℕ) (u : Umc)
    → Guardada pid nro_pagina i u.tamanio_frame bytes u.swap
    → u.de_swap ≡ []
    → traer_de_swap env nro_pagina pid u ≡ listo (bytes, record u { de_swap = c_string env.detras })
unfolding traer_de_swap recibir
fetching env pid nro_pagina i bytes u h quiet =
    ap (λ r. r >>= (λ t. recibir env t.tamanio_frame t))
      (sending env pid nro_pagina i bytes u h quiet)
    ∙ receiving env u.tamanio_frame bytes (c_string env.detras)
        (record u { de_swap = bytes ++ c_string env.detras }) h.some_size h.whole
