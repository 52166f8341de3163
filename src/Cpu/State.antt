-- ===== src/Cpu/State.antt =====
-- The structures of Librerias/estructuras.h and the globals of cpu/globales.h.
use so_unoficial.Prelude.{ℕ, Option, List, ◌++◌, length, take, drop, leb, if◌then◌else◌}
use so_unoficial.Umc.State.{Resultado, listo, bloqueado}

-- t_posMemoria
pub record PosMemoria : Type 0 where
  pub pag : ℕ
  pub offset : ℕ

-- t_variable
pub record Variable : Type 0 where
  pub id : ℕ
  pub posicion_en_memoria : PosMemoria

-- t_stack. A list whose pointer was not set is none.
pub record Contexto : Type 0 where
  pub cant_args : ℕ
  pub args : Option (List Variable)
  pub cant_vars : ℕ
  pub vars : Option (List Variable)
  pub ret_pos : ℕ
  pub ret_var : PosMemoria

-- t_intructions of the parser: two numbers.
pub record Instruccion : Type 0 where
  pub start : ℕ
  pub offset : ℕ

-- t_PCB, the index of labels as its bytes.
pub record Pcb : Type 0 where
  pub pid : ℕ
  pub pc : ℕ
  pub paginas_codigo : ℕ
  pub paginas_stack : ℕ
  pub cant_operac_io : ℕ
  pub tamanio_indice_de_codigo : ℕ
  pub indice_de_codigo : List Instruccion
  pub etiquetas_size : ℕ
  pub etiquetas : List ℕ
  pub sp : ℕ
  pub tamanio_indice_stack : ℕ
  pub indice_de_stack : List Contexto

-- The globals, with the bytes on the sockets: those to read from the Nucleo and the UMC, and those sent.
pub record Cpu : Type 0 where
  pub pcb : Pcb
  pub tamanio_pagina : ℕ
  pub quantum_sleep : ℕ
  pub tamanio_hasta_ahora : ℕ
  pub sigo_ejecutando : ℕ
  pub flag_salto_linea : ℕ
  pub de_nucleo : List ℕ
  pub de_umc : List ℕ
  pub a_nucleo : List ℕ
  pub a_umc : List ℕ

-- A new t_stack as malloc gives it, metadata_buscar_etiqueta of the parser, and string_itoa of the
-- commons library.
pub record Env : Type 0 where
  pub fresh : Contexto
  pub buscar_etiqueta : List ℕ → List ℕ → ℕ → ℕ
  pub string_itoa : ℕ → List ℕ

unfoldable pub mandar_a_nucleo : List ℕ → Cpu → Cpu
mandar_a_nucleo bytes c = record c { a_nucleo = c.a_nucleo ++ bytes }

unfoldable pub mandar_a_umc : List ℕ → Cpu → Cpu
mandar_a_umc bytes c = record c { a_umc = c.a_umc ++ bytes }

-- recv of `n` bytes, all of which come together.
unfoldable pub esperar_bytes : ℕ → List ℕ → Resultado (List ℕ × List ℕ)
esperar_bytes n bs = if leb n (length bs) then listo (take n bs, drop n bs) else bloqueado
