-- ===== src/Umc/Clock/Modified.antt =====
-- buscarVictimaClockModificado ends within four turns.
use so_unoficial.Prelude.{
  ℕ, zero, suc, ◌+◌, ◌*◌, ◌≤◌, ◌<◌, ◌≡◌, ◌≢◌, refl, ap, sym, ◌∙◌, inl, inr, Bool, true, false,
  Bool-cases, if_cases, some, List, length, get_elem?, get_elem_some, get_elem_inside, ◌==◌,
  if◌then◌else◌, arith,
}
use mathlib.Core.Path.{subst}
use so_unoficial.Umc.State.{Frame, Proceso, Umc, listo, obtener, mutex_free}
use so_unoficial.Umc.Tables.{encontrar_posicion_en_procesos}
use so_unoficial.Umc.Clock.{
  siguiente, sin_referencia, recorrer_modificado, buscar_victima_clock_modificado,
}
use so_unoficial.Umc.Clock.Steps.{
  pasos, siguiente_inside, pasos_bound, length_cleared, cleared_here, cleared_elsewhere, some_same,
  Halla, through_clearing,
}
use so_unoficial.Umc.Clock.Pointer.{Elige, con_victima_ends}
use so_unoficial.Umc.Clock.Wait.{resto, alike, turno, falta, espera_bound, falta_passing}
use so_unoficial.Umc.Clock.Bound.{quiere, cota, toma, cota_cleared, cota_missed}

recorrer_modificado_step :
    (fuel pid vuelta : ℕ) (segunda : Bool) (i : ℕ) (fs : List Frame) (g : Frame)
    → get_elem? fs i ≡ some g
    → recorrer_modificado (suc fuel) pid vuelta segunda i fs ≡ (
        if g.pid == pid
        then if toma g segunda
          then listo (i, fs)
          else if segunda
          then recorrer_modificado fuel pid vuelta
              (turno segunda (siguiente i fs) vuelta)
              (siguiente i fs)
              (sin_referencia i fs)
          else recorrer_modificado fuel pid vuelta
              (turno segunda (siguiente i fs) vuelta)
              (siguiente i fs)
              fs
        else recorrer_modificado fuel pid vuelta
            (turno segunda (siguiente i fs) vuelta)
            (siguiente i fs)
            fs)
unfolding recorrer_modificado
recorrer_modificado_step fuel pid vuelta segunda i fs g e = rw (e, recorrer_modificado) refl

-- After a step over position `i` whose bit is cleared, a frame of the process is still ahead.
module _ (fuel pid vuelta k : ℕ) where
  abbrev Ends : Bool → ℕ → List Frame → Type 0
  Ends segunda i fs =
      (f : Frame)
      → i < length fs
      → vuelta < length fs
      → get_elem? fs k ≡ some f
      → f.pid ≡ pid
      → f.bit_modificado ≤ 1
      → cota (length fs) k vuelta f segunda i < fuel
      → Halla pid fs (recorrer_modificado fuel pid vuelta segunda i fs)

  after_clearing :
      (i : ℕ) (fs : List Frame) (f g : Frame)
      → i < length fs
      → vuelta < length fs
      → get_elem? fs k ≡ some f
      → get_elem? fs i ≡ some g
      → f.pid ≡ pid
      → f.bit_modificado ≤ 1
      → toma g true ≡ false
      → cota (length fs) k vuelta f true i < suc fuel
      → Ends (turno true (siguiente i fs) vuelta) (siguiente i fs) (sin_referencia i fs)
      → Halla pid fs (
          recorrer_modificado fuel pid vuelta
            (turno true (siguiente i fs) vuelta)
            (siguiente i fs)
            (sin_referencia i fs))
  after_clearing i fs f g h r at e own m no_hit enough ends =
      let n = length_cleared i fs in
      let l = get_elem_inside fs k f at in
      let next = subst (λ x. siguiente i fs < x) (sym n) (siguiente_inside i fs h) in
      let back = subst (λ x. vuelta < x) (sym n) r in
      let cota_here : Frame → ℕ → Type 0 =
        λ x b. cota b k vuelta x (turno true (siguiente i fs) vuelta) (siguiente i fs) < fuel in
      through_clearing pid i fs _ (elim (Bool-cases (i == k)) [
        | inl here ↦
            let q : i ≡ k = ground arith in
            let same : g ≡ f = some_same g f e (ap (λ j. get_elem? fs j) q ∙ at) in
            let there = ap (λ j. get_elem? (sin_referencia j fs) k) q ∙ cleared_here k fs f at in
            let less =
              subst
                (λ j.
                  suc (
                    cota (length fs) k vuelta (record f { bit_referencia = 0 })
                      (turno true (siguiente j fs) vuelta) (siguiente j fs))
                  ≤ cota (length fs) k vuelta f true j)
                (sym q)
                (cota_cleared k vuelta fs f l r m (ap (λ x. toma x true) (sym same) ∙ no_hit)) in
            ends (record f { bit_referencia = 0 }) next back there own m
              (subst (cota_here (record f { bit_referencia = 0 })) (sym n) (omega (arith, less)))
        | inr away ↦
            let ne : i ≢ k = λ q. ground arith in
            let less = falta_passing i k vuelta (quiere f) true fs h r l ne in
            ends f next back (cleared_elsewhere i k fs ne ∙ at) own m
              (subst (cota_here f) (sym n) (omega (arith, less)))
      ])

modified_turns_end :
    (fuel pid vuelta k : ℕ) (segunda : Bool) (i : ℕ) (fs : List Frame)
    → Ends fuel pid vuelta k segunda i fs
modified_turns_end zero pid vuelta k segunda i fs f h r at own m enough = absurd (omega arith)
modified_turns_end (suc fuel) pid vuelta k segunda i fs f h r at own m enough =
    let (g, e) = get_elem_some fs i h in
    let l = get_elem_inside fs k f at in
    let j = siguiente i fs in
    let rest = recorrer_modificado fuel pid vuelta (turno segunda j vuelta) j fs in
    let same : (i ≡ k) → g ≡ f = λ q. some_same g f e (ap (λ x. get_elem? fs x) q ∙ at) in
    let shorter : suc (cota (length fs) k vuelta f (turno segunda j vuelta) j)
          ≤ cota (length fs) k vuelta f segunda i
        → Halla pid fs rest =
      λ less.
        modified_turns_end fuel pid vuelta k (turno segunda j vuelta) j fs f
          (siguiente_inside i fs h) r at own m (omega (arith, less)) in
    let passed : (i ≢ k) → Halla pid fs rest = λ ne.
      shorter (
        let less = falta_passing i k vuelta (quiere f) segunda fs h r l ne in
        omega (arith, less)) in
    subst (Halla pid fs) (sym (recorrer_modificado_step fuel pid vuelta segunda i fs g e)) (
      if_cases (Halla pid fs) (g.pid == pid) _ _
        (λ mine.
          if_cases (Halla pid fs) (toma g segunda) _ _
            (λ hit. (i, fs, g, refl, e, ground arith, ground arith, refl))
            (λ no_hit.
              if_cases (Halla pid fs) segunda _ _
                (λ second.
                  subst
                    (λ b. Halla pid fs (
                      recorrer_modificado fuel pid vuelta (turno b j vuelta) j
                        (sin_referencia i fs)))
                    (sym second)
                    (after_clearing fuel pid vuelta k i fs f g h r at e own m
                      (ap (λ b. toma g b) (sym second) ∙ no_hit)
                      (subst (λ b. cota (length fs) k vuelta f b i < suc fuel) second enough)
                      (modified_turns_end fuel pid vuelta k (turno true j vuelta) j
                        (sin_referencia i fs))))
                (λ first. elim (Bool-cases (i == k)) [
                  | inl here ↦
                      let q : i ≡ k = ground arith in
                      shorter (
                        cota_missed i k vuelta segunda fs f l r q m first
                          (ap (λ x. toma x segunda) (sym (same q)) ∙ no_hit))
                  | inr away ↦ passed (λ q. ground arith)
                ])))
        (λ other. passed (λ q. ground (arith, ap (λ x. x.pid) (same q)))))

-- The clock that looks at modified frames ends within four turns: where the process is listed, its
-- pointer lies in the list of frames, some frame belongs to it with a modified bit of 0 or 1, and
-- mutexMarcos is free, buscarVictimaClockModificado gives a frame of the process without reference; the
-- pointer it leaves stands at a frame of the process again; no frame has changed but for its bit of
-- reference, and no process but for the pointer.
pub buscar_victima_clock_modificado-ends :
    (pid i k : ℕ) (u : Umc) (p : Proceso) (f : Frame)
    → encontrar_posicion_en_procesos pid u.lista_de_procesos ≡ i
    → get_elem? u.lista_de_procesos i ≡ some p
    → p.indice_recorrida_clock < length u.lista_de_frames
    → u.mutex_marcos ≡ false
    → get_elem? u.lista_de_frames k ≡ some f
    → f.pid ≡ pid
    → f.bit_modificado ≤ 1
    → Elige pid i u (buscar_victima_clock_modificado pid u)
unfolding buscar_victima_clock_modificado obtener
buscar_victima_clock_modificado-ends pid i k u p f found listed inside free at own m =
    let fs = u.lista_de_frames in
    let start = p.indice_recorrida_clock in
    let l = get_elem_inside fs k f at in
    let bound =
      espera_bound (length fs) (pasos (length fs) start k) (resto (length fs) start start)
        (alike false (quiere f)) (pasos_bound (length fs) start k inside l) in
    let ends =
      modified_turns_end (suc (4 * length fs)) pid start k false start fs f inside inside at own m (
        if_cases (λ x. falta (length fs) k start (quiere f) false start + x < suc (4 * length fs))
          (f.bit_referencia == 0) 0 (2 * length fs) (λ c. omega (arith, bound))
          (λ c. omega (arith, bound))) in
    rw (found, listed, mutex_free free) (con_victima_ends pid i u _ ends)
