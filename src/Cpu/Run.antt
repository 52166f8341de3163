-- ===== src/Cpu/Run.antt =====
-- cpu/CPU.c: one instruction after the other, until the Nucleo takes the PCB back.
use so_unoficial.Prelude.{
  ℕ, suc, ◌%◌, ◌^◌, Option, List, [], ◌++◌, get_elem?, le32, ◌==◌, if◌then◌else◌,
}
use so_unoficial.Umc.State.{Resultado, listo, ◌>>=◌, obtener}
use so_unoficial.Cpu.State.{Cpu, mandar_a_nucleo, mandar_a_umc}
use so_unoficial.Cpu.Messages.{id_cpu}
use so_unoficial.Cpu.Pcb.{agregar_pcb_y_enviar, enviar_pcb_para_nucleo, recibir32}
use so_unoficial.Cpu.Memory.{solicitar_bytes_umc}
use so_unoficial.Cpu.Primitives.{partir}

-- notificarNucleoQuantum with the answer: DEVOLVER_PCB is 3, SEGUIR_EJECUTANDO is 4.
unfoldable pub segun_quantum : ℕ → Cpu → Resultado Cpu
segun_quantum resultado c =
    if resultado == 3
    then (do t ← enviar_pcb_para_nucleo 12 [] c; listo (record t { sigo_ejecutando = 0 }))
    else if resultado == 4
    then listo (record c { sigo_ejecutando = 1 })
    else listo c

unfoldable pub notificar_nucleo_quantum : Cpu → Resultado Cpu
notificar_nucleo_quantum c = do
  let t = mandar_a_nucleo (le32 id_cpu ++ le32 2 ++ le32 0) c
  (resultado, bs) ← recibir32 t.de_nucleo
  segun_quantum resultado (record t { de_nucleo = bs })

-- finalizarCPU: the PCB, then FIN_CPU.
unfoldable pub finalizar_cpu : Cpu → Resultado Cpu
finalizar_cpu c = do
  t ← agregar_pcb_y_enviar [] (record c { tamanio_hasta_ahora = 0 })
  listo (mandar_a_nucleo (le32 id_cpu ++ le32 13 ++ le32 0) (record t { tamanio_hasta_ahora = 12 }))

unfoldable pub enviar_cambio_proceso_umc : Cpu → Cpu
enviar_cambio_proceso_umc c =
    mandar_a_umc (le32 14 ++ le32 c.pcb.pid) (record c { tamanio_hasta_ahora = 8 })

-- calcularNumPag and calcularOffset, with the length that the code takes from the next instruction.
unfoldable pub lugar_de_linea : Cpu → Resultado ((ℕ × ℕ) × ℕ)
lugar_de_linea c = do
  i ← obtener (get_elem? c.pcb.indice_de_codigo c.pcb.pc)
  siguiente ← obtener (get_elem? c.pcb.indice_de_codigo (suc c.pcb.pc))
  lugar ← partir i.start c
  listo (lugar, siguiente.offset)

-- The flag of a jump is taken back, or the program counter goes on.
unfoldable pub avanzar : Cpu → Cpu
avanzar c =
    if c.flag_salto_linea == 1
    then record c { flag_salto_linea = 0 }
    else record c { pcb = record c.pcb { pc = suc c.pcb.pc % 2 ^ 32 } }

-- One round of the inner loop of main. analizadorLinea is the parser's, which calls the primitives.
unfoldable pub ejecutar_linea : (Option (List ℕ) → Cpu → Resultado Cpu) → Cpu → Resultado Cpu
ejecutar_linea analizador_linea c = do
  (lugar, tamanio) ← lugar_de_linea c
  (linea, t) ← solicitar_bytes_umc lugar.0 lugar.1 tamanio c
  v ← analizador_linea linea t
  notificar_nucleo_quantum (avanzar v)
