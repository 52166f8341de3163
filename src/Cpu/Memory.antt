-- ===== src/Cpu/Memory.antt =====
-- solicitarBytesUMC, almacenarBytesUMC and avisoWait of cpu/funciones.c: the CPU asks and waits for an answer.
use so_unoficial.Prelude.{ℕ, Option, some, none, List, ◌++◌, length, le32, ◌==◌, if◌then◌else◌}
use so_unoficial.Umc.State.{Resultado, listo, falla, ◌>>=◌}
use so_unoficial.Cpu.State.{Cpu, mandar_a_nucleo, mandar_a_umc, esperar_bytes}
use so_unoficial.Cpu.Messages.{serializar_wait, serializar_entrada_salida, serializar_pedido_umc}
use so_unoficial.Cpu.Pcb.{enviar_pcb_para_nucleo, fin_ansisop, recibir32}

-- solicitarBytesUMC with the answer of the UMC: the bytes, or NULL. ERROR_OVERFLOW ends the program;
-- with another answer the CPU aborts.
unfoldable pub segun_solicitud : ℕ → ℕ → Cpu → Resultado (Option (List ℕ) × Cpu)
segun_solicitud respuesta tamanio c =
    if respuesta == 15
    then (do
      (linea, bs) ← esperar_bytes tamanio c.de_umc
      listo (some linea, record c { de_umc = bs }))
    else if respuesta == 9
    then (do t ← fin_ansisop c; listo (none, record t { sigo_ejecutando = 0 }))
    else falla

unfoldable pub solicitar_bytes_umc : ℕ → ℕ → ℕ → Cpu → Resultado (Option (List ℕ) × Cpu)
solicitar_bytes_umc num_pag offset tamanio c = do
  let t = mandar_a_umc (serializar_pedido_umc num_pag offset tamanio) c
  (respuesta, bs) ← recibir32 t.de_umc
  segun_solicitud respuesta tamanio (record t { de_umc = bs })

unfoldable pub segun_almacenamiento : ℕ → Cpu → Resultado Cpu
segun_almacenamiento respuesta c =
    if respuesta == 15
    then listo c
    else if respuesta == 9
    then (do t ← fin_ansisop c; listo (record t { sigo_ejecutando = 0 }))
    else falla

unfoldable pub almacenar_bytes_umc : ℕ → ℕ → ℕ → ℕ → Cpu → Resultado Cpu
almacenar_bytes_umc num_pag offset tamanio valor c = do
  let t = mandar_a_umc (le32 13 ++ le32 num_pag ++ le32 offset ++ le32 tamanio ++ le32 valor) c
  (respuesta, bs) ← recibir32 t.de_umc
  segun_almacenamiento respuesta (record t { de_umc = bs })

-- avisoWait with the answer of the Nucleo: BLOQUEADO, which is 0, gives the PCB back behind the message.
unfoldable pub segun_wait : ℕ → List ℕ → Cpu → Resultado Cpu
segun_wait resultado mensaje c =
    if resultado == 0
    then (do t ← enviar_pcb_para_nucleo 9 mensaje c; listo (record t { sigo_ejecutando = 0 }))
    else listo c

unfoldable pub aviso_wait : List ℕ → Cpu → Resultado Cpu
aviso_wait semaforo c = do
  let mensaje = serializar_wait semaforo
  let t = mandar_a_nucleo mensaje (record c { tamanio_hasta_ahora = length mensaje })
  (resultado, bs) ← recibir32 t.de_nucleo
  segun_wait resultado mensaje (record t { de_nucleo = bs })

unfoldable pub aviso_entrada_salida : List ℕ → Cpu → Resultado Cpu
aviso_entrada_salida dispositivo c = do
  let mensaje = serializar_entrada_salida dispositivo
  enviar_pcb_para_nucleo 8 mensaje (record c { tamanio_hasta_ahora = length mensaje })
