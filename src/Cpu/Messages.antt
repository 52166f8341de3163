-- ===== src/Cpu/Messages.antt =====
-- The messages of cpu/funciones.c to the Nucleo, as bytes.
use so_unoficial.Prelude.{
  ℕ, suc, ◌+◌, List, [], ◌∷◌, ◌++◌, length, take, le32, value32, ◌==◌, if◌then◌else◌,
}
use so_unoficial.Umc.State.{Resultado, listo, falla, ◌>>=◌}
use so_unoficial.Cpu.State.{Cpu, mandar_a_nucleo, esperar_bytes}

-- ID_CPU, and the orders to the Nucleo.
abbrev pub id_cpu : ℕ
id_cpu = 1

abbrev pub signal_orden : ℕ
signal_orden = 7

abbrev pub wait_orden : ℕ
wait_orden = 6

abbrev pub obtener_valor : ℕ
obtener_valor = 4

abbrev pub grabar_valor : ℕ
grabar_valor = 5

abbrev pub entrada_salida_orden : ℕ
entrada_salida_orden = 8

abbrev pub imprimir_texto_orden : ℕ
imprimir_texto_orden = 11

-- A string with its NUL.
unfoldable pub con_nul : List ℕ → List ℕ
con_nul texto = texto ++ 0 ∷ []

unfoldable pub serializar_imprimir : ℕ → List ℕ → ℕ → List ℕ
serializar_imprimir pid texto longitud =
    le32 id_cpu ++ le32 imprimir_texto_orden ++ le32 longitud ++ take longitud texto ++ le32 pid

unfoldable pub enviar_imprimir : List ℕ → ℕ → ℕ → Cpu → Cpu
enviar_imprimir texto pid longitud c = mandar_a_nucleo (serializar_imprimir pid texto longitud) c

unfoldable pub serializar_obtener_valor : List ℕ → ℕ → List ℕ
serializar_obtener_valor variable longitud =
    le32 id_cpu ++ le32 obtener_valor ++ le32 longitud ++ take longitud (con_nul variable)

-- solicitarValorVarCompartida: the value that the Nucleo answers.
unfoldable pub solicitar_valor_var_compartida : List ℕ → Cpu → Resultado (ℕ × Cpu)
solicitar_valor_var_compartida variable c = do
  let t = mandar_a_nucleo (serializar_obtener_valor variable (suc (length variable))) c
  (bytes, rest) ← esperar_bytes 4 t.de_nucleo
  listo (value32 bytes, record t { de_nucleo = rest })

unfoldable pub serializar_asignar_valor : List ℕ → ℕ → List ℕ
serializar_asignar_valor variable valor =
    le32 id_cpu
    ++ le32 grabar_valor
    ++ le32 (suc (length variable) + 4)
    ++ le32 valor
    ++ con_nul variable

unfoldable pub enviar_asignar_valor : List ℕ → ℕ → Cpu → Cpu
enviar_asignar_valor variable valor c = mandar_a_nucleo (serializar_asignar_valor variable valor) c

unfoldable pub serializar_wait : List ℕ → List ℕ
serializar_wait semaforo =
    le32 id_cpu ++ le32 wait_orden ++ le32 (suc (length semaforo)) ++ con_nul semaforo

-- serializarSignal, which no function calls.
unfoldable pub serializar_signal : List ℕ → List ℕ
serializar_signal semaforo =
    le32 id_cpu ++ le32 signal_orden ++ le32 (suc (length semaforo)) ++ con_nul semaforo

-- avisoSignal calls serializarWait, which writes from `tamanioHastaAhora` on, into a buffer of the
-- size of the message: only with 0 there it stays in the buffer.
unfoldable pub aviso_signal : List ℕ → Cpu → Resultado Cpu
aviso_signal semaforo c =
    if c.tamanio_hasta_ahora == 0
    then listo (
        mandar_a_nucleo (serializar_wait semaforo)
          (record c { tamanio_hasta_ahora = length (serializar_wait semaforo) }))
    else falla

unfoldable pub serializar_entrada_salida : List ℕ → List ℕ
serializar_entrada_salida dispositivo =
    le32 id_cpu
    ++ le32 entrada_salida_orden
    ++ le32 (suc (length dispositivo))
    ++ con_nul dispositivo

-- The order to the UMC.
unfoldable pub serializar_pedido_umc : ℕ → ℕ → ℕ → List ℕ
serializar_pedido_umc num_pag offset tamanio =
    le32 12 ++ le32 num_pag ++ le32 offset ++ le32 tamanio
