-- ===== src/Umc/Memory.antt =====
-- lecturaMemoria and escrituraMemoria of umc/funciones.c: the bytes of the frames.
pub mod Access
use so_unoficial.Prelude.{
  ℕ, suc, ◌+◌, ◌*◌, ◌^◌, ◌%◌, Bool, true, false, List, length, take, leb, ◌&&◌, if◌then◌else◌,
}
use so_unoficial.Swap.State.{bytes_at, put_bytes}
use so_unoficial.Umc.State.{Umc, Env, Resultado, listo, falla, ◌>>=◌, ◌>>◌, esperar}
use so_unoficial.Umc.Frames.{actualizar_bit_referencia}

-- `(int) frame * tamanioFrame + offset`; a negative number is its 32-bit pattern.
unfoldable pub posicion_de_byte : ℕ → ℕ → Umc → ℕ
posicion_de_byte frame offset u = (frame * u.tamanio_frame + offset) % 2 ^ 32

-- memcpy at that place stays in the memory that was allocated.
unfoldable pub dentro : ℕ → ℕ → Umc → Resultado Bool
dentro posicion tamanio u =
    if leb (posicion + tamanio) (u.cantidad_de_frames * u.tamanio_frame) then listo true else falla

unfoldable pub un_acceso_mas : Umc → Umc
un_acceso_mas u = record u { accesos_a_memoria = suc u.accesos_a_memoria % 2 ^ 32 }

-- lecturaMemoria unlocks mutexMP a second time, where mutexAccesoMem would be meant.
unfoldable pub lectura_memoria : ℕ → ℕ → ℕ → Umc → Resultado (List ℕ × Umc)
lectura_memoria frame offset tamanio u = do
  let at = posicion_de_byte frame offset u
  dentro at tamanio u
  esperar u.mutex_acceso_mem
  t ← actualizar_bit_referencia frame (record (un_acceso_mas u) { mutex_acceso_mem = true })
  listo (bytes_at u.memoria_principal at tamanio, t)

-- escrituraMemoria with the bytes that lie at `buffer`.
unfoldable pub escritura_memoria : ℕ → ℕ → ℕ → List ℕ → Umc → Resultado Umc
escritura_memoria frame offset tamanio buffer u = do
  let at = posicion_de_byte frame offset u
  dentro at tamanio u
  esperar u.mutex_acceso_mem
  actualizar_bit_referencia frame (record (un_acceso_mas u) {
    memoria_principal = put_bytes u.memoria_principal at (take tamanio buffer);
  })
