-- ===== src/Umc/Frames.antt =====
-- The list of frames of umc/funciones.c: its bits, its owners, and how many frames are free.
use so_unoficial.Prelude.{ℕ, zero, suc, List, [], ◌∷◌, ◌++◌, map, modify_first, ◌==◌, if◌then◌else◌}
use so_unoficial.Umc.State.{Frame, Umc, Resultado, listo, ◌>>◌, esperar}

unfoldable pub marcar_referencia : ℕ → List Frame → List Frame
marcar_referencia id_frame fs =
    modify_first (λ f. f.id_frame == id_frame) (λ f. record f { bit_referencia = 1 }) fs

unfoldable pub marcar_modificado : ℕ → List Frame → List Frame
marcar_modificado id_frame fs =
    modify_first (λ f. f.id_frame == id_frame) (λ f. record f { bit_modificado = 1 }) fs

unfoldable pub actualizar_bit_referencia : ℕ → Umc → Resultado Umc
actualizar_bit_referencia id_frame u = do
  esperar u.mutex_marcos
  listo (record u { lista_de_frames = marcar_referencia id_frame u.lista_de_frames })

unfoldable pub actualizar_bit_modificado : ℕ → Umc → Resultado Umc
actualizar_bit_modificado id_frame u = do
  esperar u.mutex_marcos
  listo (record u { lista_de_frames = marcar_modificado id_frame u.lista_de_frames })

unfoldable pub flush_memoria : Umc → Resultado Umc
flush_memoria u = do
  esperar u.mutex_marcos
  listo (record u {
    lista_de_frames = map {A = Frame} (λ f. record f { bit_modificado = 1 }) u.lista_de_frames;
  })

-- The loop of liberarMarcos.
unfoldable pub sin_marcos : ℕ → List Frame → List Frame
sin_marcos pid fs = map {A = Frame} (λ f. if f.pid == pid then record f { pid = 0 } else f) fs

unfoldable pub liberar_marcos : ℕ → Umc → Resultado Umc
liberar_marcos pid u = do
  esperar u.mutex_marcos
  listo (record u { lista_de_frames = sin_marcos pid u.lista_de_frames })

-- The loop of cantidadFramesDisponibles.
unfoldable pub cuenta_libres : List Frame → ℕ
cuenta_libres [] = 0
cuenta_libres (f ∷ fs) = let rest = cuenta_libres fs in if f.pid == 0 then suc rest else rest

unfoldable pub cantidad_frames_disponibles : Umc → Resultado ℕ
cantidad_frames_disponibles u = do esperar u.mutex_marcos; listo (cuenta_libres u.lista_de_frames)

unfoldable pub marcos_desde : ℕ → ℕ → List Frame
marcos_desde i zero = []
marcos_desde i (suc n) =
    record { id_frame = i; pid = 0; bit_referencia = 0; bit_modificado = 0 }
    ∷ marcos_desde (suc i) n

unfoldable pub inicializar_lista_frames : Umc → Umc
inicializar_lista_frames u = record u {
  lista_de_frames = u.lista_de_frames ++ marcos_desde 0 u.cantidad_de_frames;
}
