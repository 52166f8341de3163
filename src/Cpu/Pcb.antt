-- ===== src/Cpu/Pcb.antt =====
-- The PCB on the socket: serializarYEnvioPCB, agregarPBCYEnviar and recibirPCBparaCPU of cpu/funciones.c.
use so_unoficial.Prelude.{
  ℕ, zero, suc, ◌-◌, Option, some, none, List, [], ◌∷◌, ◌++◌, length, take, drop, le32, value32,
  get_elem?, erase_at, ltb, ◌==◌, if◌then◌else◌,
}
use so_unoficial.Umc.State.{Resultado, listo, falla, ◌>>=◌}
use so_unoficial.Cpu.State.{
  Variable, Contexto, Instruccion, Pcb, Cpu, mandar_a_nucleo, esperar_bytes,
}
use so_unoficial.Cpu.Messages.{id_cpu}

-- The loops `list_remove(list, i); i++`: the elements that are removed, and those that are left.
unfoldable pub sacar {ℓ} : {A : Type ℓ} → ℕ → ℕ → List A → List A × List A
sacar zero i xs = ([], xs)
sacar (suc fuel) i xs =
    let (sacados, quedan) = sacar fuel (suc i) (erase_at i xs) in
    elim (get_elem? xs i) [ none ↦ ([], xs) | some x ↦ (x ∷ sacados, quedan) ]

unfoldable pub bytes_de_variable : Variable → List ℕ
bytes_de_variable v =
    v.id ∷ [] ++ le32 v.posicion_en_memoria.pag ++ le32 v.posicion_en_memoria.offset

unfoldable pub concatenar {ℓ} : {A : Type ℓ} → (A → List ℕ) → List A → List ℕ
concatenar f [] = []
concatenar f (x ∷ xs) = f x ++ concatenar f xs

-- The variables of a context, behind their number; their list is only read for a number that is not 0.
unfoldable pub bytes_de_variables : ℕ → Option (List Variable) → Resultado (List ℕ)
bytes_de_variables cant none = if ltb 0 cant then falla else listo (le32 cant)
bytes_de_variables cant (some vs) =
    if ltb 0 cant
    then listo (le32 cant ++ concatenar bytes_de_variable (sacar (length vs) 0 vs).0)
    else listo (le32 cant)

unfoldable pub bytes_de_contexto : Contexto → Resultado (List ℕ)
bytes_de_contexto s = do
  args ← bytes_de_variables s.cant_args s.args
  vars ← bytes_de_variables s.cant_vars s.vars
  listo (args ++ vars ++ le32 s.ret_pos ++ le32 s.ret_var.pag ++ le32 s.ret_var.offset)

unfoldable pub bytes_de_contextos : List Contexto → Resultado (List ℕ)
bytes_de_contextos [] = listo []
bytes_de_contextos (s ∷ ss) = do
  first ← bytes_de_contexto s
  rest ← bytes_de_contextos ss
  listo (first ++ rest)

unfoldable pub bytes_de_instruccion : Instruccion → List ℕ
bytes_de_instruccion i = le32 i.start ++ le32 i.offset

-- From the PID to the size of the index of code.
unfoldable pub cabecera_de_pcb : Pcb → List ℕ
cabecera_de_pcb p =
    le32 p.pid
    ++ le32 p.pc
    ++ le32 p.paginas_codigo
    ++ le32 p.paginas_stack
    ++ le32 p.cant_operac_io
    ++ le32 p.tamanio_indice_de_codigo

-- The contexts that are sent, and those that stay in the list.
unfoldable pub contextos_enviados : Pcb → List Contexto × List Contexto
contextos_enviados p =
    if ltb 0 p.tamanio_indice_stack
    then sacar (length p.indice_de_stack) 0 p.indice_de_stack
    else ([], p.indice_de_stack)

-- From the size of the labels to the end.
unfoldable pub final_de_pcb : Pcb → Resultado (List ℕ)
final_de_pcb p = do
  stack ← bytes_de_contextos (contextos_enviados p).0
  listo (
      le32 p.etiquetas_size
      ++ take p.etiquetas_size p.etiquetas
      ++ le32 p.sp
      ++ le32 p.tamanio_indice_stack
      ++ stack)

-- memcpy of the size of the PCB to `buffer + 8`.
unfoldable pub con_tamanio : List ℕ → List ℕ
con_tamanio bytes = take 8 bytes ++ le32 (length bytes - 8) ++ drop 12 bytes

unfoldable pub mandar_pcb : List ℕ → Cpu → Cpu
mandar_pcb bytes c =
    mandar_a_nucleo (con_tamanio bytes)
      (record c { pcb = record c.pcb { indice_de_stack = (contextos_enviados c.pcb).1 } })

-- serializarYEnvioPCB. The size goes over the PID.
unfoldable pub serializar_y_envio_pcb : ℕ → Cpu → Resultado Cpu
serializar_y_envio_pcb accion c = do
  final ← final_de_pcb c.pcb
  listo (
      mandar_pcb
        (le32 id_cpu
          ++ le32 accion
          ++ cabecera_de_pcb c.pcb
          ++ concatenar bytes_de_instruccion
              (take c.pcb.tamanio_indice_de_codigo c.pcb.indice_de_codigo)
          ++ final)
        c)

-- agregarPBCYEnviar, behind what the buffer has. Of the index of code as many bytes are copied as it has
-- instructions.
unfoldable pub agregar_pcb_y_enviar : List ℕ → Cpu → Resultado Cpu
agregar_pcb_y_enviar buffer c = do
  final ← final_de_pcb c.pcb
  listo (
      mandar_pcb
        (buffer
          ++ cabecera_de_pcb c.pcb
          ++ take c.pcb.tamanio_indice_de_codigo
              (concatenar bytes_de_instruccion c.pcb.indice_de_codigo)
          ++ final)
        c)

-- enviarPCBparaNucleo with ENTRADA_SALIDA, BLOQUEAR_PCB_SEMAFORO, FIN_QUANTUM and FIN_ANSISOP.
unfoldable pub enviar_pcb_para_nucleo : ℕ → List ℕ → Cpu → Resultado Cpu
enviar_pcb_para_nucleo accion buffer c =
    if accion == 8
    then agregar_pcb_y_enviar buffer c
    else if accion == 9
    then agregar_pcb_y_enviar buffer c
    else if accion == 12
    then serializar_y_envio_pcb accion c
    else if accion == 3
    then serializar_y_envio_pcb accion c
    else listo c

unfoldable pub fin_ansisop : Cpu → Resultado Cpu
fin_ansisop c = enviar_pcb_para_nucleo 3 [] c

-- recv of a uint32_t.
unfoldable pub recibir32 : List ℕ → Resultado (ℕ × List ℕ)
recibir32 bs = do (bytes, rest) ← esperar_bytes 4 bs; listo (value32 bytes, rest)

unfoldable pub recibir_instrucciones : ℕ → List ℕ → Resultado (List Instruccion × List ℕ)
recibir_instrucciones zero bs = listo ([], bs)
recibir_instrucciones (suc n) bs = do
  (start, bs1) ← recibir32 bs
  (offset, bs2) ← recibir32 bs1
  (rest, bs3) ← recibir_instrucciones n bs2
  listo (record { start = start; offset = offset } ∷ rest, bs3)

-- A context: with arguments or variables recv writes to the list that was not set.
unfoldable pub recibir_contexto : Contexto → List ℕ → Resultado (Contexto × List ℕ)
recibir_contexto fresh bs = do
  (cant_args, bs1) ← recibir32 bs
  cero ← (if ltb 0 cant_args then falla else listo cant_args)
  (cant_vars, bs2) ← recibir32 bs1
  cero2 ← (if ltb 0 cant_vars then falla else listo cant_vars)
  (ret_pos, bs3) ← recibir32 bs2
  (pag, bs4) ← recibir32 bs3
  (offset, bs5) ← recibir32 bs4
  listo (
    record fresh {
      cant_args = cant_args;
      cant_vars = cant_vars;
      ret_pos = ret_pos;
      ret_var = record { pag = pag; offset = offset };
    },
    bs5,
  )

unfoldable pub recibir_contextos : Contexto → ℕ → List ℕ → Resultado (List Contexto × List ℕ)
recibir_contextos fresh zero bs = listo ([], bs)
recibir_contextos fresh (suc n) bs = do
  (s, bs1) ← recibir_contexto fresh bs
  (rest, bs2) ← recibir_contextos fresh n bs1
  listo (s ∷ rest, bs2)

-- recibirPCBparaCPU behind ENVIO_PCB: the quantum, and the PCB behind its size.
unfoldable pub recibir_pcb : Contexto → List ℕ → Resultado ((ℕ × Pcb) × List ℕ)
recibir_pcb fresh bs = do
  (quantum_sleep, bs1) ← recibir32 bs
  (tam_pcb, bs2) ← recibir32 bs1
  (pid, bs3) ← recibir32 bs2
  (pc, bs4) ← recibir32 bs3
  (paginas_codigo, bs5) ← recibir32 bs4
  (paginas_stack, bs6) ← recibir32 bs5
  (cant_operac_io, bs7) ← recibir32 bs6
  (tamanio_indice_de_codigo, bs8) ← recibir32 bs7
  (indice_de_codigo, bs9) ← recibir_instrucciones tamanio_indice_de_codigo bs8
  (etiquetas_size, bs10) ← recibir32 bs9
  (etiquetas, bs11) ← esperar_bytes etiquetas_size bs10
  (sp, bs12) ← recibir32 bs11
  (tamanio_indice_stack, bs13) ← recibir32 bs12
  (indice_de_stack, bs14) ← recibir_contextos fresh tamanio_indice_stack bs13
  listo (
    (
      quantum_sleep,
      record {
        pid = pid;
        pc = pc;
        paginas_codigo = paginas_codigo;
        paginas_stack = paginas_stack;
        cant_operac_io = cant_operac_io;
        tamanio_indice_de_codigo = tamanio_indice_de_codigo;
        indice_de_codigo = indice_de_codigo;
        etiquetas_size = etiquetas_size;
        etiquetas = etiquetas;
        sp = sp;
        tamanio_indice_stack = tamanio_indice_stack;
        indice_de_stack = indice_de_stack;
      },
    ),
    bs14,
  )

-- What follows ENVIO_PCB, which is 2; another number is only reported.
unfoldable pub segun_accion : Contexto → ℕ → Cpu → Resultado Cpu
segun_accion fresh accion c =
    if accion == 2
    then (do
      (recibido, bs) ← recibir_pcb fresh c.de_nucleo
      listo (record c { pcb = recibido.1; quantum_sleep = recibido.0; de_nucleo = bs }))
    else listo c

unfoldable pub recibir_pcb_para_cpu : Contexto → Cpu → Resultado Cpu
recibir_pcb_para_cpu fresh c = do
  (accion, bs) ← recibir32 c.de_nucleo
  segun_accion fresh accion (record c { de_nucleo = bs })
