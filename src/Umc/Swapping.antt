-- ===== src/Umc/Swapping.antt =====
-- The connection of umc/funciones.c with Swap: what is sent is followed by Swap, and its answers are read.
pub mod Fetch
use so_unoficial.Prelude.{
  ℕ, zero, suc, ◌+◌, ◌-◌, ◌*◌, ◌/◌, ◌^◌, ◌%◌, Bool, true, false, List, [], ◌∷◌, ◌++◌, length, take,
  drop, overwrite, le32, value32, ltb, ◌==◌, if◌then◌else◌,
}
use so_unoficial.Swap.State.{Swap}
use so_unoficial.Swap.Orders.{Answer, answered, out_of_bounds, copiar, realizar_pedido_umc}
use so_unoficial.Umc.State.{Umc, Env, Resultado, listo, falla, bloqueado, ◌>>=◌, ◌>>◌, esperar}
use so_unoficial.Umc.Messages.{
  serializar, inicializar_en_swap, pedir_al_swap, enviar_pagina_al_swap, avisar_swap_fin_programa,
}

-- What Swap does with a message.
unfoldable pub segun_respuesta_de_swap : Umc → Answer → Resultado Umc
segun_respuesta_de_swap u (answered bytes contenido s) =
    listo (record u { swap = s; de_swap = u.de_swap ++ bytes })
segun_respuesta_de_swap u out_of_bounds = falla

-- The two calls of send, of the size and of the message.
unfoldable pub enviar : Env → List ℕ → Umc → Resultado Umc
enviar env mensaje u =
    segun_respuesta_de_swap u
      (realizar_pedido_umc env.fin (copiar u.swap.tam_pag env.detras mensaje) u.swap)

-- recv of at most `n` bytes of those that have come, into fresh memory; it waits when none have come.
unfoldable pub recibir_de : Env → ℕ → List ℕ → Umc → Resultado (List ℕ × Umc)
recibir_de env n [] u = bloqueado
recibir_de env n (b ∷ bs) u =
    listo (overwrite (env.fresh n) (take n (b ∷ bs)), record u { de_swap = drop n (b ∷ bs) })

unfoldable pub recibir : Env → ℕ → Umc → Resultado (List ℕ × Umc)
recibir env n u = recibir_de env n u.de_swap u

-- inicializarEnSwap: the answer of Swap.
unfoldable pub pedido_de_inicio : Env → ℕ → ℕ → Umc → Resultado (ℕ × Umc)
pedido_de_inicio env cant_paginas pid u = do
  t ← enviar env (inicializar_en_swap pid cant_paginas) u
  (bytes, v) ← recibir env 4 t
  listo (value32 bytes, v)

-- pedirAlSwap: the page that came into the buffer.
unfoldable pub traer_de_swap : Env → ℕ → ℕ → Umc → Resultado (List ℕ × Umc)
traer_de_swap env nro_pagina pid u = do
  t ← enviar env (pedir_al_swap pid nro_pagina) u
  recibir env t.tamanio_frame t

unfoldable pub mandar_a_swap : Env → ℕ → ℕ → List ℕ → Umc → Resultado Umc
mandar_a_swap env pid nro_pagina buffer u =
    enviar env (enviar_pagina_al_swap u.tamanio_frame pid nro_pagina buffer) u

-- The answer of Swap to FINALIZAR is not read.
unfoldable pub avisar_fin_a_swap : Env → ℕ → Umc → Resultado Umc
avisar_fin_a_swap env pid u = enviar env (avisar_swap_fin_programa pid) u

-- The loop of enviarCodigoAlSwap: `left` pages from number `i` on, with `tamanio` bytes of the code,
-- a uint32_t, from `puntero` on.
unfoldable pub enviar_codigo_desde : Env → ℕ → ℕ → ℕ → ℕ → ℕ → List ℕ → Umc → Resultado Umc
enviar_codigo_desde env pid zero i tamanio puntero codigo u = listo u
enviar_codigo_desde env pid (suc left) i tamanio puntero codigo u = do
  let cantidad = if ltb tamanio u.tamanio_frame then tamanio else u.tamanio_frame
  t ← enviar env (serializar pid 2 0 i (take cantidad (drop puntero codigo))) u
  enviar_codigo_desde env pid left (suc i) ((tamanio + (2 ^ 32 - u.tamanio_frame)) % 2 ^ 32)
      (puntero + u.tamanio_frame) codigo t

unfoldable pub enviar_codigo_al_swap : Env → ℕ → ℕ → List ℕ → Umc → Resultado Umc
enviar_codigo_al_swap env pid cant_paginas codigo u =
    enviar_codigo_desde env pid cant_paginas 0 (length codigo) 0 codigo u
