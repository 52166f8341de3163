-- ===== src/Cpu/Primitives.antt =====
-- The primitives of AnSISOP, cpu/primitivas.c, and buscarVariable of cpu/funciones.c.
pub mod Calls
use so_unoficial.Prelude.{
  ℕ, zero, suc, ◌+◌, ◌-◌, ◌*◌, ◌/◌, ◌%◌, ◌^◌, Bool, Option, some, none, List, [], ◌∷◌, ◌++◌, length,
  modify, get_elem?, erase_at, find_first, le32, value32, leb, ltb, ◌==◌, ◌&&◌, if◌then◌else◌,
}
use so_unoficial.Umc.State.{Resultado, listo, falla, ◌>>=◌, ◌>>◌, obtener, menos_uno}
use so_unoficial.Cpu.State.{PosMemoria, Variable, Contexto, Pcb, Cpu, Env}
use so_unoficial.Cpu.Messages.{
  con_nul, enviar_imprimir, solicitar_valor_var_compartida, enviar_asignar_valor, aviso_signal,
}
use so_unoficial.Cpu.Pcb.{fin_ansisop}
use so_unoficial.Cpu.Memory.{
  solicitar_bytes_umc, almacenar_bytes_umc, aviso_wait, aviso_entrada_salida,
}

-- A digit names an argument.
unfoldable pub es_argumento : ℕ → Bool
es_argumento id = leb 48 id && leb id 57

-- `pag * tamanioPagina + offset`
unfoldable pub puntero : ℕ → PosMemoria → ℕ
puntero tamanio_pagina p = (p.pag * tamanio_pagina + p.offset) % 2 ^ 32

-- The loops of buscarVariable.
unfoldable pub posicion_de : ℕ → ℕ → List Variable → ℕ
posicion_de tamanio_pagina id [] = menos_uno
posicion_de tamanio_pagina id (v ∷ vs) =
    let rest = posicion_de tamanio_pagina id vs in
    if v.id == id then puntero tamanio_pagina v.posicion_en_memoria else rest

unfoldable pub buscar_variable : ℕ → ℕ → Contexto → Resultado ℕ
buscar_variable tamanio_pagina id s = do
  vs ← obtener (if es_argumento id then s.args else s.vars)
  listo (posicion_de tamanio_pagina id vs)

unfoldable pub obtener_posicion_variable : ℕ → Cpu → Resultado ℕ
obtener_posicion_variable id c = do
  s ← obtener (get_elem? c.pcb.indice_de_stack c.pcb.sp)
  buscar_variable c.tamanio_pagina id s

unfoldable pub con_pcb : Pcb → Cpu → Cpu
con_pcb p c = record c { pcb = p }

unfoldable pub variable : ℕ → ℕ → ℕ → Variable
variable id pag offset = record {
  id = id;
  posicion_en_memoria = record { pag = pag; offset = offset };
}

-- definirVariable of the first variable. The context is new; what it does not set is that of fresh memory.
unfoldable pub definir_primera : Env → ℕ → Cpu → ℕ × Cpu
definir_primera env id c = (
  (c.pcb.paginas_codigo + (2 ^ 32 - 1)) * c.tamanio_pagina % 2 ^ 32,
  con_pcb
      (record c.pcb {
        indice_de_stack =
            record env.fresh {
              vars = some (variable id c.pcb.paginas_codigo 0 ∷ []);
              cant_vars = suc env.fresh.cant_vars % 2 ^ 32;
              cant_args = 0;
            }
            ∷ [];
        sp = 0;
        tamanio_indice_stack = suc c.pcb.tamanio_indice_stack % 2 ^ 32;
      })
      c,
)

-- The sum of cantArgs and cantVars over the contexts.
unfoldable pub cuenta_variables : List Contexto → ℕ
cuenta_variables [] = 0
cuenta_variables (s ∷ ss) = (s.cant_args + s.cant_vars + cuenta_variables ss) % 2 ^ 32

-- The new variable in its context; the number of arguments is not raised.
unfoldable pub con_variable : Variable → Contexto → Resultado Contexto
con_variable v s = do
  vs ← obtener (if es_argumento v.id then s.args else s.vars)
  listo (
      if es_argumento v.id
      then record s { args = some (vs ++ v ∷ []) }
      else record s { vars = some (vs ++ v ∷ []); cant_vars = suc s.cant_vars % 2 ^ 32 })

-- definirVariable behind `cant` variables, each of 4 bytes from page `paginasCodigo - 1` on.
unfoldable pub definir_otra : ℕ → ℕ → Cpu → Resultado (ℕ × Cpu)
definir_otra cant id c = do
  let pag = (cant * 4 / c.tamanio_pagina + c.pcb.paginas_codigo + (2 ^ 32 - 1)) % 2 ^ 32
  s ← obtener (get_elem? c.pcb.indice_de_stack c.pcb.sp)
  t ← con_variable (variable id pag (cant * 4 % c.tamanio_pagina)) s
  listo (
    (cant * 4 + c.pcb.paginas_codigo + (2 ^ 32 - 1)) % 2 ^ 32,
    con_pcb (record c.pcb { indice_de_stack = modify (λ x. t) c.pcb.sp c.pcb.indice_de_stack }) c,
  )

-- definirVariable: its result and the new globals. A page has some bytes.
unfoldable pub definir_variable : Env → ℕ → Cpu → Resultado (ℕ × Cpu)
definir_variable env id c =
    if c.pcb.tamanio_indice_stack == 0
    then listo (definir_primera env id c)
    else if c.tamanio_pagina == 0
    then falla
    else definir_otra (cuenta_variables c.pcb.indice_de_stack) id c

-- The page and the offset of an address.
unfoldable pub partir : ℕ → Cpu → Resultado (ℕ × ℕ)
partir direccion c =
    if c.tamanio_pagina == 0
    then falla
    else listo (direccion / c.tamanio_pagina, direccion % c.tamanio_pagina)

-- dereferenciar. Where solicitarBytesUMC gives NULL, memcpy reads from it.
unfoldable pub dereferenciar : ℕ → Cpu → Resultado (ℕ × Cpu)
dereferenciar direccion c = do
  (pagina, offset) ← partir direccion c
  (linea, t) ← solicitar_bytes_umc pagina offset 4 c
  valor ← obtener linea
  listo (value32 valor, t)

unfoldable pub asignar : ℕ → ℕ → Cpu → Resultado Cpu
asignar direccion valor c = do
  (pagina, offset) ← partir direccion c
  almacenar_bytes_umc pagina offset 4 valor c

unfoldable pub obtener_valor_compartida : List ℕ → Cpu → Resultado (ℕ × Cpu)
obtener_valor_compartida variable c = solicitar_valor_var_compartida variable c

unfoldable pub asignar_valor_compartida : List ℕ → ℕ → Cpu → ℕ × Cpu
asignar_valor_compartida variable valor c = (valor, enviar_asignar_valor variable valor c)

unfoldable pub ir_al_label : Env → List ℕ → Cpu → Cpu
ir_al_label env etiqueta c =
    record (con_pcb
      (record c.pcb { pc = env.buscar_etiqueta etiqueta c.pcb.etiquetas c.pcb.etiquetas_size }) c) {
        flag_salto_linea = 1;
      }

-- llamarConRetorno: a context behind the others, which becomes the current one.
unfoldable pub llamar_con_retorno : Env → List ℕ → ℕ → Cpu → Resultado Cpu
llamar_con_retorno env etiqueta donde_retornar c = do
  (pagina, offset) ← partir donde_retornar c
  let s = record env.fresh {
    args = some [];
    vars = some [];
    cant_args = 0;
    cant_vars = 0;
    ret_var = record { pag = pagina; offset = offset };
    ret_pos = c.pcb.pc;
  }
  listo (
      ir_al_label env etiqueta (
        con_pcb
          (record c.pcb {
            indice_de_stack = c.pcb.indice_de_stack ++ s ∷ [];
            sp = length c.pcb.indice_de_stack;
          })
          c))

-- retornar: the current context goes, its result goes to the place that the call named.
unfoldable pub retornar : ℕ → Cpu → Resultado Cpu
retornar retorno c = do
  s ← obtener (get_elem? c.pcb.indice_de_stack c.pcb.sp)
  t ← almacenar_bytes_umc s.ret_var.pag s.ret_var.offset 4 retorno (
      con_pcb
        (record c.pcb {
          indice_de_stack = erase_at c.pcb.sp c.pcb.indice_de_stack;
          pc = s.ret_pos;
          sp = (c.pcb.sp + (2 ^ 32 - 1)) % 2 ^ 32;
        })
        c)
  listo (record t { flag_salto_linea = 1 })

unfoldable pub imprimir_texto : List ℕ → Cpu → Cpu
imprimir_texto texto c = enviar_imprimir (con_nul texto) c.pcb.pid (suc (length texto)) c

unfoldable pub imprimir : Env → ℕ → Cpu → Cpu
imprimir env valor_mostrar c = imprimir_texto (env.string_itoa valor_mostrar) c

unfoldable pub entrada_salida : List ℕ → Cpu → Resultado Cpu
entrada_salida dispositivo c = do
  t ← aviso_entrada_salida dispositivo c
  listo (record t { sigo_ejecutando = 0 })

unfoldable pub finalizar : Cpu → Resultado Cpu
finalizar c = do t ← fin_ansisop c; listo (record t { sigo_ejecutando = 0 })

unfoldable pub wait : List ℕ → Cpu → Resultado Cpu
wait semaforo c = aviso_wait semaforo c

unfoldable pub signal_primitiva : List ℕ → Cpu → Resultado Cpu
signal_primitiva semaforo c = aviso_signal semaforo c
