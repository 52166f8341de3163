-- ===== src/Umc/Memory/Access.antt =====
-- What lecturaMemoria and escrituraMemoria do within the memory, with the mutexes free.
use so_unoficial.Prelude.{
  ℕ, ◌+◌, ◌*◌, ◌^◌, ◌≤◌, ◌<◌, ◌≡◌, refl, ap, true, false, List, take, leb, arith,
}
use so_unoficial.Swap.State.{bytes_at, put_bytes}
use so_unoficial.Umc.State.{Umc, listo, ◌>>=◌, mutex_free}
use so_unoficial.Umc.Frames.{marcar_referencia, actualizar_bit_referencia}
use so_unoficial.Umc.Memory.{
  posicion_de_byte, dentro, un_acceso_mas, lectura_memoria, escritura_memoria,
}

-- The range lies in the memory, whose size is an `int`.
pub record EnMemoria (frame offset tamanio : ℕ) (u : Umc) : Type 0 where
  pub fits : frame * u.tamanio_frame + offset + tamanio ≤ u.cantidad_de_frames * u.tamanio_frame
  pub small : u.cantidad_de_frames * u.tamanio_frame < 2 ^ 31

-- The mutexes that an access takes are free.
pub record Libres (u : Umc) : Type 0 where
  pub marcos : u.mutex_marcos ≡ false
  pub acceso_mem : u.mutex_acceso_mem ≡ false

position_there :
    (frame offset tamanio : ℕ) (u : Umc)
    → EnMemoria frame offset tamanio u
    → posicion_de_byte frame offset u ≡ frame * u.tamanio_frame + offset
unfolding posicion_de_byte
position_there frame offset tamanio u h = omega (arith, h.fits, h.small)

inside :
    (at tamanio : ℕ) (u : Umc)
    → at + tamanio ≤ u.cantidad_de_frames * u.tamanio_frame
    → dentro at tamanio u ≡ listo true
unfolding dentro
inside at tamanio u h =
    let e : leb (at + tamanio) (u.cantidad_de_frames * u.tamanio_frame) ≡ true = ground arith in
    rw e refl

-- The globals after a read: mutexAccesoMem stays taken.
abbrev pub leido : ℕ → Umc → Umc
leido frame u = record (un_acceso_mas u) {
  mutex_acceso_mem = true;
  lista_de_frames = marcar_referencia frame u.lista_de_frames;
}

abbrev pub escrito : ℕ → ℕ → List ℕ → Umc → Umc
escrito frame offset bytes u = record (un_acceso_mas u) {
  memoria_principal = put_bytes u.memoria_principal (frame * u.tamanio_frame + offset) bytes;
  lista_de_frames = marcar_referencia frame u.lista_de_frames;
}

marked :
    (frame : ℕ) (u : Umc)
    → u.mutex_marcos ≡ false
    → actualizar_bit_referencia frame u
      ≡ listo (record u { lista_de_frames = marcar_referencia frame u.lista_de_frames })
unfolding actualizar_bit_referencia
marked frame u m =
    ap
      (λ r.
        r
        >>= (λ b. listo (record u { lista_de_frames = marcar_referencia frame u.lista_de_frames })))
      (mutex_free m)

pub reading :
    (frame offset tamanio : ℕ) (u : Umc)
    → EnMemoria frame offset tamanio u
    → Libres u
    → lectura_memoria frame offset tamanio u
      ≡ listo
          (bytes_at u.memoria_principal (frame * u.tamanio_frame + offset) tamanio, leido frame u)
unfolding lectura_memoria un_acceso_mas
reading frame offset tamanio u h free =
    rw
      (
        position_there frame offset tamanio u h,
        inside (frame * u.tamanio_frame + offset) tamanio u h.fits,
        mutex_free free.acceso_mem,
        marked frame (record (un_acceso_mas u) { mutex_acceso_mem = true }) free.marcos,
      )
      refl

pub writing :
    (frame offset tamanio : ℕ) (buffer : List ℕ) (u : Umc)
    → EnMemoria frame offset tamanio u
    → Libres u
    → escritura_memoria frame offset tamanio buffer u
      ≡ listo (escrito frame offset (take tamanio buffer) u)
unfolding escritura_memoria un_acceso_mas
writing frame offset tamanio buffer u h free =
    rw
      (
        position_there frame offset tamanio u h,
        inside (frame * u.tamanio_frame + offset) tamanio u h.fits,
        mutex_free free.acceso_mem,
      )
      (marked frame _ free.marcos)
