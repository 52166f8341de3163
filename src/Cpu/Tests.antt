-- ===== src/Cpu/Tests.antt =====
-- A program with one context, on a CPU with pages of 8 bytes.
use so_unoficial.Prelude.{
  ℕ, ◌+◌, ◌-◌, ◌*◌, ◌^◌, ◌/◌, ◌%◌, ◌≡◌, refl, some, [], ◌∷◌, ◌++◌, le32, get_elem?, arith,
}
use so_unoficial.Umc.State.{listo}
use so_unoficial.Cpu.State.{Variable, Contexto, Cpu, Env}
use so_unoficial.Cpu.Pcb.{sacar, con_tamanio}
use so_unoficial.Cpu.Primitives.{
  es_argumento, puntero, obtener_posicion_variable, variable, definir_primera, definir_variable,
  cuenta_variables, llamar_con_retorno, retornar,
}
use so_unoficial.Cpu.Primitives.Calls.{llamar_con_retorno-retornar}

abbrev first_context : Contexto
first_context = record {
  cant_args = 0;
  args = some [];
  cant_vars = 0;
  vars = some [];
  ret_pos = 0;
  ret_var = record { pag = 0; offset = 0 };
}

abbrev cpu : Cpu
cpu = record {
  pcb = record {
    pid = 6;
    pc = 3;
    paginas_codigo = 2;
    paginas_stack = 1;
    cant_operac_io = 0;
    tamanio_indice_de_codigo = 0;
    indice_de_codigo = [];
    etiquetas_size = 0;
    etiquetas = [];
    sp = 0;
    tamanio_indice_stack = 1;
    indice_de_stack = first_context ∷ [];
  };
  tamanio_pagina = 8;
  quantum_sleep = 0;
  tamanio_hasta_ahora = 0;
  sigo_ejecutando = 1;
  flag_salto_linea = 0;
  de_nucleo = [];
  de_umc = le32 15;
  a_nucleo = [];
  a_umc = [];
}

abbrev env : Env
env = record {
  fresh = first_context;
  buscar_etiqueta = λ etiqueta etiquetas size. 5;
  string_itoa = λ n. n ∷ [];
}

llamar_con_retorno-retornar_example :
    (t : Cpu) × (u : Cpu) × (v : Cpu) × (p : ℕ) × (s : Contexto) × (x : Variable)
    × (llamar_con_retorno env [] 20 cpu ≡ listo t)
    × (definir_variable env 97 t ≡ listo (p, u))
    × (get_elem? u.pcb.indice_de_stack u.pcb.sp ≡ some s)
    × (s.vars ≡ some (x ∷ []))
    × (x.id ≡ 97)
    × (let place : ℕ = cuenta_variables t.pcb.indice_de_stack * 4 in
        x.posicion_en_memoria ≡ record {
          pag = (place / 8 + cpu.pcb.paginas_codigo + (2 ^ 32 - 1)) % 2 ^ 32;
          offset = place % 8;
        })
    × (obtener_posicion_variable 97 u ≡ listo (puntero 8 x.posicion_en_memoria))
    × (retornar 9 u ≡ listo v)
    × (v.pcb ≡ cpu.pcb)
    × (v.a_umc ≡ [] ++ (le32 13 ++ le32 (20 / 8) ++ le32 (20 % 8) ++ le32 4 ++ le32 9))
unfolding es_argumento le32
llamar_con_retorno-retornar_example =
    llamar_con_retorno-retornar env [] 20 97 9 [] cpu (omega arith) (omega arith) refl (omega arith)
      refl refl

-- Of three elements list_remove in the loop leaves the second.
second_stays : sacar {A = ℕ} 3 0 (7 ∷ 8 ∷ 9 ∷ []) ≡ (7 ∷ 9 ∷ [], 8 ∷ [])
unfolding sacar
second_stays = refl

-- The address that definirVariable gives for the first variable is one page before its place.
first_address : (definir_primera env 97 cpu).0 ≡ 8
unfolding definir_primera
first_address = refl

first_place : puntero 8 (variable 97 cpu.pcb.paginas_codigo 0).posicion_en_memoria ≡ 16
unfolding puntero variable
first_place = refl

-- The size of the PCB takes the place of the PID, 6.
pid_is_lost :
    con_tamanio (le32 1 ++ le32 3 ++ le32 6 ++ le32 3) ≡ le32 1 ++ le32 3 ++ le32 8 ++ le32 3
unfolding con_tamanio le32
pid_is_lost = refl
