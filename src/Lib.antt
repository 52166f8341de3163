-- ===== src/Lib.antt =====
-- A model of the programs of this repository, tp-2016-2c-Stranger-Code and tp-2016-1c-SO-2016-1C, in the parts
-- described here: the server of the OSADA file system, tp-2016-2c-Stranger-Code/pokedex-server, the server of a map, tp-2016-2c-Stranger-Code/mapas,
-- the swap process, tp-2016-1c-SO-2016-1C/Swap,
-- the UMC, tp-2016-1c-SO-2016-1C/umc, the memory in front of it,
-- and the CPU, tp-2016-1c-SO-2016-1C/cpu, that runs the programs.
--
-- pokedex-server maps a volume into memory and answers the requests of its clients, one thread for each connection.
-- A volume has a header, a bitmap of its data blocks, a table of 2,048 file blocks, a mapping table that gives
-- each data block its successor, and the data blocks of 64 bytes. All of the program is in pokedex-server.c and osada.h.
--
--   Osada/State: osada.h and the globals. A Volume is the mapped memory with the calls on the array `locks`. The
--     bitmap is a t_bitarray of the commons library, which is not in the repository: it is the parameter BitArray, the
--     operations with the two laws that the code relies on. An `int` that may be negative is its 32-bit
--     pattern. Env holds the time and the bytes that fresh memory happens to hold.
--   Osada/Geometry: read_and_set, the place of each region.
--   Osada/Names: strtok on a path, and the name field of a file block.
--   Osada/Table: search_dir, search_node, get_free_file_block, create_dir and create_node with their locks.
--   Osada/Chain: the loops over the mapping table. A Ref is the pointer `aux_map_ptr`, which points to the node's
--     first_block or into the mapping table. A read outside the mapping table is `fault`.
--   Osada/Reply: what a handler comes to: the bytes of its response and the volume it leaves, no response, a use of
--     memory that was never set or lies outside, or a loop that does not end within its fuel.
--   Osada/Directory: osada_mkdir, osada_readdir and osada_rmdir.
--   Osada/Node: osada_getattr, osada_mknod and osada_rename.
--   Osada/File: the search for a file (Place), osada_truncate and osada_unlink (Size), osada_read and osada_write (Data).
--     Sizes that the code keeps in an int are negative from 2^31 on: a loop that counts one down is then not entered.
--   Osada/Server: process_request, the requests of one connection as the bytes on its socket.
--   Osada/Tests: examples on a small volume.
--
-- mapas runs one map of the game: trainers connect, ask for moves and captures in turns that the scheduler gives
-- them, wait in colaBloqueados for pokemons that are not there, and give theirs back when they leave.
--
--   Mapa/State: nivel-test.h. Lists and queues of pointers to trainers are lists of their sockets, and a map from
--     sockets to trainers is the memory behind the pointers. The bytes that each trainer still sends, and those sent to
--     it, are part of the state. list_sort of the commons library is a field of Env with the law that it
--     only moves elements.
--   Mapa/Requests: connection_recv and atenderSolicitud of solicitudes.c. A message that the connection cuts short is
--     the part that arrived. Captures counts the pokemons.
--   Mapa/Scheduler: the queues, liberarRecursos2 and ejecutarRafagaRR of planificacion.c; liberarEntrenador of
--     nivel-test.c. What uses a null pointer or freed memory is `fault`, and so is a blocked trainer that waits for its last
--     pokemon: no message makes a trainer wait so, as connection_recv does not know OC_ATRAPAR_ULTIMO_POKEMON.
--     Distance is ejecutarRafagaSRDF; its loop runs on as many rounds as the trainer sends bytes, since a request takes
--     two at least.
--   Mapa/Deadlock: one check of detectarDeadlock, up to the list of the trainers in a deadlock. Its outer loop runs on
--     fuel; reading behind an array is `fault`. Waiting and Retained describe who waits and who is found.
--   Mapa/Tests: examples on a small map.
--
-- Swap keeps the pages of the programs that the UMC runs in one file, tp-2016-1c-SO-2016-1C/Swap/src/Swap.c. The array
-- bitMap says which pages are in use and by which process; each process has consecutive pages.
--
--   Swap/State: the globals, and fseek, fread and fwrite on the swap file, which is its size and its bytes.
--     Pages has the file by pages.
--   Swap/BitMap: espacioDisponible, contiguo, asignacion and the search for a PID. The array is a function, which also
--     gives the entry behind its end that contiguo reads.
--   Swap/Compact: compactar with its two buffers. Partition is its inner loop on a list, Exchange and Passes relate both.
--   Swap/Orders: leer, escribir, liberarMemoria, realizarPedidoUMC and copiar. An order comes to the bytes sent, the
--     buffer `contenido` and the globals, or to a write in front of the array. contiguo's `fin`, which is not set
--     when no pages are asked for, is a parameter. strlen does not stop at the end of `contenido`: an order has the
--     memory behind that buffer too.
--   Swap/Tests: examples on a small swap file.
--
-- The UMC, tp-2016-1c-SO-2016-1C/umc/funciones.c, keeps pages of the programs in the frames of a memory, in front of Swap.
-- Its functions are one step each. A wait for a mutex that is not given back, or for an answer that does not come, is
-- `bloqueado`; NULL, an index or an address outside, and a variable that was not set are `falla`.
--
--   Umc/State: the tables, the memory, the mutexes that a function leaves taken or takes twice, and the Swap process
--     of Swap/Orders behind the socket. What fresh memory holds, and the memory behind
--     the buffer of Swap, are fields of Env. An `int` is its 32-bit pattern.
--   Umc/Messages: the bytes of the orders that inicializarEnSwap, pedirAlSwap, enviarPaginaAlSwap and
--     avisarSwapFinPrograma send. Paging: these messages as Swap reads them with copiar and follows them.
--   Umc/Swapping: what is sent to Swap is followed by it at once, and its answers are read in their order; recv gives
--     what has come, up to its size. Fetch is pedirAlSwap of a page that Swap keeps.
--   Umc/Frames, Umc/Tlb, Umc/Tables, Umc/Memory: the functions on the frames, the translation buffer, the processes with
--     their page tables, and the bytes. Each has the lemmas about it below it.
--   Umc/Clock: buscarVictimaClock and buscarVictimaClockModificado. Their loops have fuel for two and four turns, and one step, over the
--     frames: each step brings nearer a frame of the process that is taken when it is met (Steps, Wait, Bound).
--   Umc/Replace: algoritmoDeReemplazo and cargarPaginaenMemoria. Umc/Programs: inicializarPrograma,
--     finalizarPrograma and cambioProceso. Umc/Requests: solicitarBytes and almacenarBytesPagina.
--   Umc/Tests: examples with two frames.
--
-- cpu runs a program line by line: it gets a PCB from the Nucleo, reads the lines from the UMC, and the parser calls the
-- primitives. A wait for bytes that do not come is `bloqueado`; recv gives all the bytes that it asks for.
--
--   Cpu/State: the structures of Librerias/estructuras.h and the globals, with the bytes on the sockets. The parser's
--     search for a label, string_itoa, and what a new t_stack holds are fields of Env. A list pointer may be unset.
--   Cpu/Messages, Cpu/Memory, Cpu/Pcb: cpu/funciones.c, the messages, the requests that wait for an answer, and the PCB.
--   Cpu/Primitives: cpu/primitivas.c and buscarVariable; Calls: a call and its return. Cpu/Run: cpu/CPU.c.
--   Cpu/Tests: an example.
--
--   Prelude: names and lemmas that all parts share.
--
-- A handler of pokedex-server takes what it received and a volume, calls the searches of Table with the locks, opens the chain of
-- its file (open_chain), runs the loops of Chain over it, and puts it back (close_chain).
--
-- Its loops over the mapping table run on fuel, the number of its entries and two more: a chain that uses no block twice
-- is not longer. The loops of osada_write that move bytes have as much fuel as bytes.
--
-- Not modelled: main, the log, mmap and the configuration of the servers; two threads at once (a handler is one
-- step; the locks of pokedex-server are recorded in their order, and of the UMC the mutexes named above); of mapas the
-- battles after a deadlock, the hand shake, the drawing and the mutexes; of Swap main and the connection; of the UMC the
-- threads of UMC.c, the dumps and the delays; of the CPU the connections, the signal and the parser; the other programs of the repository: pokedex-client,
-- entrenador, the libraries and examples beside them, and Nucleo and consola of tp-2016-1c-SO-2016-1C.
pub mod Prelude
pub mod Osada
pub mod Swap
pub mod Mapa
pub mod Umc
pub mod Cpu
