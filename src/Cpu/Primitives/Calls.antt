-- ===== src/Cpu/Primitives/Calls.antt =====
-- A call, a local variable and the return: the context lasts as long as the call.
use so_unoficial.Prelude.{
  ℕ, suc, ◌+◌, ◌-◌, ◌*◌, ◌/◌, ◌%◌, ◌^◌, ◌<◌, ◌≡◌, ◌≢◌, refl, ap, false, ==_refl, some, List, [],
  ◌∷◌, ◌++◌, length, modify, get_elem?, erase_at, le32, value32, ◌==◌, arith,
}
use so_unoficial.Umc.State.{Resultado, listo, ◌>>=◌, obtener}
use so_unoficial.Cpu.State.{PosMemoria, Variable, Contexto, Cpu, Env, mandar_a_umc, esperar_bytes}
use so_unoficial.Cpu.Pcb.{recibir32}
use so_unoficial.Cpu.Memory.{segun_almacenamiento, almacenar_bytes_umc}
use so_unoficial.Cpu.Primitives.{
  es_argumento, puntero, posicion_de, buscar_variable, obtener_posicion_variable, con_pcb, variable,
  cuenta_variables, con_variable, definir_otra, definir_variable, partir, ir_al_label,
  llamar_con_retorno, retornar,
}

module _ {A : Type 0} where
  get_last : (xs : List A) (x : A) → get_elem? (xs ++ x ∷ []) (length xs) ≡ some x
  get_last [] x = refl
  get_last (y ∷ xs) x = get_last xs x

  change_last : (xs : List A) (x y : A) → modify (λ z. y) (length xs) (xs ++ x ∷ []) ≡ xs ++ y ∷ []
  change_last [] x y = refl
  change_last (z ∷ xs) x y = ap (λ l. z ∷ l) (change_last xs x y)

  drop_last : (xs : List A) (x : A) → erase_at (length xs) (xs ++ x ∷ []) ≡ xs
  drop_last [] x = refl
  drop_last (y ∷ xs) x = ap (λ l. y ∷ l) (drop_last xs x)

-- almacenarBytesUMC with the answer OK_SOLICITUD_UMC.
answered_ok :
    (pag offset valor : ℕ) (rest : List ℕ) (c : Cpu)
    → c.de_umc ≡ le32 15 ++ rest
    → almacenar_bytes_umc pag offset 4 valor c
      ≡ listo (record c {
        a_umc = c.a_umc ++ (le32 13 ++ le32 pag ++ le32 offset ++ le32 4 ++ le32 valor);
        de_umc = rest;
      })
unfolding almacenar_bytes_umc mandar_a_umc recibir32 esperar_bytes segun_almacenamiento le32 value32
answered_ok pag offset valor rest c ok = rw ok (ground arith)

abbrev saltada : Cpu → Resultado Cpu
saltada t = listo (record t { flag_salto_linea = 1 })

module _ (env : Env) (etiqueta : List ℕ) (donde id valor : ℕ) (rest : List ℕ) (c : Cpu)
    (some_page : 0 < c.tamanio_pagina) (started : c.pcb.tamanio_indice_stack ≢ 0)
    (local : es_argumento id ≡ false) (answer : c.de_umc ≡ le32 15 ++ rest) where
  abbrev lugar : PosMemoria
  lugar = record { pag = donde / c.tamanio_pagina; offset = donde % c.tamanio_pagina }

  -- The context of the call, and the same with the variable.
  abbrev nuevo : Contexto
  nuevo = record env.fresh {
    args = some [];
    vars = some [];
    cant_args = 0;
    cant_vars = 0;
    ret_var = lugar;
    ret_pos = c.pcb.pc;
  }

  abbrev en_llamada : Cpu
  en_llamada = ir_al_label env etiqueta (
      con_pcb
        (record c.pcb {
          indice_de_stack = c.pcb.indice_de_stack ++ nuevo ∷ [];
          sp = length c.pcb.indice_de_stack;
        })
        c)

  split : partir donde c ≡ listo (donde / c.tamanio_pagina, donde % c.tamanio_pagina)
  unfolding partir
  split = let page : (c.tamanio_pagina == 0) ≡ false = ground arith in rw page refl

  calling : llamar_con_retorno env etiqueta donde c ≡ listo en_llamada
  unfolding llamar_con_retorno
  calling = rw split refl

  abbrev cant : ℕ
  cant = cuenta_variables (c.pcb.indice_de_stack ++ nuevo ∷ [])

  abbrev definida : Variable
  definida =
      variable id ((cant * 4 / c.tamanio_pagina + c.pcb.paginas_codigo + (2 ^ 32 - 1)) % 2 ^ 32)
        (cant * 4 % c.tamanio_pagina)

  abbrev con_local : Contexto
  con_local = record nuevo { vars = some (definida ∷ []); cant_vars = 1 }

  abbrev con_definida : Cpu
  con_definida =
      con_pcb (record en_llamada.pcb { indice_de_stack = c.pcb.indice_de_stack ++ con_local ∷ [] })
        en_llamada

  defining :
      definir_variable env id en_llamada
      ≡ listo ((cant * 4 + c.pcb.paginas_codigo + (2 ^ 32 - 1)) % 2 ^ 32, con_definida)
  unfolding definir_variable definir_otra con_variable con_pcb ir_al_label variable obtener
  defining =
      let page : (c.tamanio_pagina == 0) ≡ false = ground arith in
      let first : (c.pcb.tamanio_indice_stack == 0) ≡ false = ground arith in
      rw
        (
          first,
          page,
          get_last c.pcb.indice_de_stack nuevo,
          local,
          change_last c.pcb.indice_de_stack nuevo con_local,
        )
        refl

  noted : get_elem? con_definida.pcb.indice_de_stack con_definida.pcb.sp ≡ some con_local
  unfolding con_pcb ir_al_label
  noted = get_last c.pcb.indice_de_stack con_local

  finding :
      obtener_posicion_variable id con_definida
      ≡ listo (puntero c.tamanio_pagina definida.posicion_en_memoria)
  unfolding obtener_posicion_variable buscar_variable posicion_de con_pcb ir_al_label variable
      obtener
  finding = rw (get_last c.pcb.indice_de_stack con_local, local, ==_refl id) refl

  abbrev devuelta : Cpu
  devuelta = record c {
    pcb = record c.pcb { sp = (length c.pcb.indice_de_stack + (2 ^ 32 - 1)) % 2 ^ 32 };
    flag_salto_linea = 1;
    de_umc = rest;
    a_umc = c.a_umc ++ (le32 13 ++ le32 lugar.pag ++ le32 lugar.offset ++ le32 4 ++ le32 valor);
  }

  returning : retornar valor con_definida ≡ listo devuelta
  unfolding retornar con_pcb ir_al_label obtener
  returning =
      rw (get_last c.pcb.indice_de_stack con_local, drop_last c.pcb.indice_de_stack con_local)
        (ap (λ r. r >>= saltada)
          (answered_ok lugar.pag lugar.offset valor rest
            (record c {
              pcb = record c.pcb { sp = (length c.pcb.indice_de_stack + (2 ^ 32 - 1)) % 2 ^ 32 };
              flag_salto_linea = 1;
            })
            answer))

-- A call leaves no trace but its result: with at least one context before, the current one the last, a
-- page of some bytes and OK_SOLICITUD_UMC as the answer of the UMC, llamarConRetorno, then definirVariable of a
-- variable that is no argument, then retornar all end; after definirVariable the current context has this variable and no
-- other, at the place behind the variables of all contexts, each of 4 bytes, from page `paginasCodigo - 1` on, and
-- obtenerPosicionVariable gives the address of that page and offset; afterwards the contexts, the program counter and
-- the stack pointer are those before the call, and the UMC was told to store the result at the address
-- that the call named.
pub llamar_con_retorno-retornar :
    (env : Env) (etiqueta : List ℕ) (donde id valor : ℕ) (rest : List ℕ) (c : Cpu)
    → 0 < c.tamanio_pagina
    → c.pcb.tamanio_indice_stack ≢ 0
    → suc c.pcb.sp ≡ length c.pcb.indice_de_stack
    → length c.pcb.indice_de_stack < 2 ^ 32
    → es_argumento id ≡ false
    → c.de_umc ≡ le32 15 ++ rest
    → (t : Cpu) × (u : Cpu) × (v : Cpu) × (p : ℕ) × (s : Contexto) × (x : Variable)
      × (llamar_con_retorno env etiqueta donde c ≡ listo t)
      × (definir_variable env id t ≡ listo (p, u))
      × (get_elem? u.pcb.indice_de_stack u.pcb.sp ≡ some s)
      × (s.vars ≡ some (x ∷ []))
      × (x.id ≡ id)
      × (let place : ℕ = cuenta_variables t.pcb.indice_de_stack * 4 in
          x.posicion_en_memoria ≡ record {
            pag = (place / c.tamanio_pagina + c.pcb.paginas_codigo + (2 ^ 32 - 1)) % 2 ^ 32;
            offset = place % c.tamanio_pagina;
          })
      × (obtener_posicion_variable id u ≡ listo (puntero c.tamanio_pagina x.posicion_en_memoria))
      × (retornar valor u ≡ listo v)
      × (v.pcb ≡ c.pcb)
      × (v.a_umc
          ≡ c.a_umc
            ++ (le32 13
                ++ le32 (donde / c.tamanio_pagina)
                ++ le32 (donde % c.tamanio_pagina)
                ++ le32 4
                ++ le32 valor))
unfolding variable ir_al_label con_pcb
llamar_con_retorno-retornar env etiqueta donde id valor rest c some_page started last small local
      answer =
    (
      en_llamada env etiqueta donde id valor rest c some_page started local answer,
      con_definida env etiqueta donde id valor rest c some_page started local answer,
      devuelta env etiqueta donde id valor rest c some_page started local answer,
      _,
      con_local env etiqueta donde id valor rest c some_page started local answer,
      definida env etiqueta donde id valor rest c some_page started local answer,
      calling env etiqueta donde id valor rest c some_page started local answer,
      defining env etiqueta donde id valor rest c some_page started local answer,
      noted env etiqueta donde id valor rest c some_page started local answer,
      refl,
      refl,
      refl,
      finding env etiqueta donde id valor rest c some_page started local answer,
      returning env etiqueta donde id valor rest c some_page started local answer,
      ap (λ n. record c.pcb { sp = n }) (omega (arith, last)),
      refl,
    )
