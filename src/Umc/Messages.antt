-- ===== src/Umc/Messages.antt =====
-- The orders that umc/funciones.c sends to Swap, as the bytes on the socket behind their size.
use so_unoficial.Prelude.{ℕ, List, [], ◌∷◌, ◌++◌, le32, take}

-- What the functions put into the buffer: PID, orden, pages and page number, then the content.
unfoldable pub serializar : ℕ → ℕ → ℕ → ℕ → List ℕ → List ℕ
unfolding le32
serializar pid orden cant_paginas nro_pagina contenido =
    le32 pid ++ le32 orden ++ le32 cant_paginas ++ le32 nro_pagina ++ contenido

-- inicializarEnSwap: INICIAR, with the empty string and its NUL.
unfoldable pub inicializar_en_swap : ℕ → ℕ → List ℕ
unfolding serializar
inicializar_en_swap pid cant_paginas = serializar pid 0 cant_paginas 0 (0 ∷ [])

-- pedirAlSwap: LEER.
unfoldable pub pedir_al_swap : ℕ → ℕ → List ℕ
unfolding serializar
pedir_al_swap pid nro_pagina = serializar pid 1 0 nro_pagina (0 ∷ [])

-- enviarPaginaAlSwap: ESCRIBIR with `tamanioFrame` bytes of the buffer.
unfoldable pub enviar_pagina_al_swap : ℕ → ℕ → ℕ → List ℕ → List ℕ
unfolding serializar
enviar_pagina_al_swap tamanio_frame pid nro_pagina buffer =
    serializar pid 2 0 nro_pagina (take tamanio_frame buffer)

-- avisarSwapFinPrograma: FINALIZAR. The offset is not moved behind the page number, so the NUL
-- of the empty string goes over its first byte and the other three are not sent.
unfoldable pub avisar_swap_fin_programa : ℕ → List ℕ
unfolding le32
avisar_swap_fin_programa pid = le32 pid ++ le32 3 ++ le32 0 ++ 0 ∷ []
