-- ===== src/Umc/State.antt =====
-- estructurasUMC.h and variablesGlobalesUMC.h: the tables of the UMC, its memory, and Swap behind its socket.
use so_unoficial.Prelude.{
  ℕ, ◌-◌, ◌^◌, ◌≡◌, refl, Bool, true, false, Option, none, some, List, length, ltb, if◌then◌else◌,
}
use so_unoficial.Swap.State.{Swap}

-- t_nodo_lista_frames
pub record Frame : Type 0 where
  pub id_frame : ℕ
  pub pid : ℕ
  pub bit_referencia : ℕ
  pub bit_modificado : ℕ

-- 'M' and 'S'
pub data Status : Type 0 where
  en_memoria en_swap : Status

-- t_nodo_lista_paginas
pub record Pagina : Type 0 where
  pub id_frame : ℕ
  pub nro_pagina : ℕ
  pub status : Status

-- t_nodo_lista_procesos
pub record Proceso : Type 0 where
  pub pid : ℕ
  pub cant_paginas : ℕ
  pub cant_frames_asignados : ℕ
  pub indice_recorrida_clock : ℕ
  pub lista_paginas : List Pagina

-- t_entrada_TLB
pub record EntradaTlb : Type 0 where
  pub nro_pagina : ℕ
  pub id_frame : ℕ
  pub pid : ℕ
  pub ultimo_acceso : ℕ

-- The globals, with the three mutexes that some function leaves taken or takes twice; Swap; the bytes
-- that it has sent and the UMC has not read; and the bytes sent to the CPU and to the Nucleo.
pub record Umc : Type 0 where
  pub lista_de_procesos : List Proceso
  pub lista_de_frames : List Frame
  pub tlb : List EntradaTlb
  pub memoria_principal : ℕ → ℕ
  pub accesos_a_memoria : ℕ
  pub entradas_tlb : ℕ
  pub marcos_x_proc : ℕ
  pub tamanio_frame : ℕ
  pub cantidad_de_frames : ℕ
  pub algoritmo : List ℕ
  pub mutex_marcos : Bool
  pub mutex_swap : Bool
  pub mutex_acceso_mem : Bool
  pub swap : Swap
  pub de_swap : List ℕ
  pub a_cpu : List ℕ
  pub a_nucleo : List ℕ

-- What a function comes to: its result, a use of memory that was not set or lies outside, a wait
-- that never ends, or a loop that does not end within its fuel.
pub data Resultado {ℓ} (A : Type ℓ) : Type ℓ where
  listo : A → Resultado A
  falla : Resultado A
  bloqueado : Resultado A
  sin_fin : Resultado A

infixl 5 ◌>>=◌ ◌>>◌
abbrev pub ◌>>=◌ {ℓ κ} : {A : Type ℓ} {B : Type κ} → Resultado A → (A → Resultado B) → Resultado B
listo a >>= k = k a
falla >>= k = falla
bloqueado >>= k = bloqueado
sin_fin >>= k = sin_fin

abbrev pub ◌>>◌ {ℓ κ} : {A : Type ℓ} {B : Type κ} → Resultado A → Resultado B → Resultado B
m >> k = m >>= (λ a. k)

-- What lies in fresh memory: `n` bytes of it, and an `int`; contiguo's `fin` in Swap; and what lies
-- there behind the buffer of copiar.
pub record Env : Type 0 where
  pub fresh : ℕ → List ℕ
  pub length_fresh : (n : ℕ) → length (fresh n) ≡ n
  pub entero : ℕ
  pub fin : ℕ
  pub detras : List ℕ

-- -1 and OVERFLOW as 32-bit patterns, and `n > -1` for an `int`.
abbrev pub menos_uno : ℕ
menos_uno = 2 ^ 32 - 1

abbrev pub overflow : ℕ
overflow = 2 ^ 32 - 2

abbrev pub mayor_que_menos_uno : ℕ → Bool
mayor_que_menos_uno n = ltb n (2 ^ 31)

-- pthread_mutex_lock of a mutex of the default kind.
unfoldable pub esperar : Bool → Resultado Bool
esperar taken = if taken then bloqueado else listo true

-- The element that list_get gives; it gives NULL outside the list, and each use follows the pointer.
unfoldable pub obtener {ℓ} : {A : Type ℓ} → Option A → Resultado A
obtener none = falla
obtener (some a) = listo a

-- A mutex that is free.
pub mutex_free : {b : Bool} → b ≡ false → esperar b ≡ listo true
unfolding esperar
mutex_free e = rw e refl

pub mutex_taken : {b : Bool} → b ≡ true → esperar b ≡ bloqueado
unfolding esperar
mutex_taken e = rw e refl
