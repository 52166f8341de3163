-- ===== src/Umc/Clock/Turns.antt =====
-- buscarVictimaClock ends: a frame of the process that the pointer will meet bounds its turns.
use so_unoficial.Prelude.{
  ℕ, zero, suc, ◌+◌, ◌*◌, ◌≤◌, ◌<◌, ◌≡◌, ◌≢◌, refl, ap, sym, ◌∙◌, inl, inr, false, Bool-cases,
  if_cases, some, List, length, get_elem?, get_elem_some, get_elem_inside, ◌==◌, if◌then◌else◌,
  arith,
}
use mathlib.Core.Path.{subst}
use so_unoficial.Umc.State.{Frame, Proceso, Umc, listo, obtener, mutex_free}
use so_unoficial.Umc.Tables.{encontrar_posicion_en_procesos}
use so_unoficial.Umc.Clock.{siguiente, sin_referencia, recorrer, buscar_victima_clock}
use so_unoficial.Umc.Clock.Steps.{
  pasos, siguiente_inside, pasos_next, pasos_around, pasos_bound, length_cleared, cleared_here,
  cleared_elsewhere, some_same, Halla, through_clearing,
}
use so_unoficial.Umc.Clock.Pointer.{Elige, con_victima_ends}

recorrer_step :
    (fuel pid i : ℕ) (fs : List Frame) (g : Frame)
    → get_elem? fs i ≡ some g
    → recorrer (suc fuel) pid i fs ≡ (
        if g.pid == pid
        then if g.bit_referencia == 0
          then listo (i, fs)
          else if g.bit_referencia == 1
          then recorrer fuel pid (siguiente i fs) (sin_referencia i fs)
          else recorrer fuel pid (siguiente i fs) fs
        else recorrer fuel pid (siguiente i fs) fs)
unfolding recorrer
recorrer_step fuel pid i fs g e = rw (e, recorrer) refl

recorrer_ends :
    (fuel pid i k : ℕ) (fs : List Frame) (f : Frame)
    → i < length fs
    → get_elem? fs k ≡ some f
    → f.pid ≡ pid
    → f.bit_referencia ≤ 1
    → pasos (length fs) i k + f.bit_referencia * length fs < fuel
    → Halla pid fs (recorrer fuel pid i fs)
recorrer_ends zero pid i k fs f h at own bit enough = absurd (omega arith)
recorrer_ends (suc fuel) pid i k fs f h at own bit enough =
    let (g, e) = get_elem_some fs i h in
    let l = get_elem_inside fs k f at in
    let passed : (i ≢ k) → Halla pid fs (recorrer fuel pid (siguiente i fs) fs) = λ ne.
      recorrer_ends fuel pid (siguiente i fs) k fs f (siguiente_inside i fs h) at own bit
        (omega (arith, pasos_next i k fs h l ne)) in
    let same : (i ≡ k) → g ≡ f = λ q. some_same g f e (ap (λ j. get_elem? fs j) q ∙ at) in
    subst (Halla pid fs) (sym (recorrer_step fuel pid i fs g e)) (
      if_cases (Halla pid fs) (g.pid == pid) _ _
        (λ mine.
          if_cases (Halla pid fs) (g.bit_referencia == 0) _ _
            (λ clear. (i, fs, g, refl, e, ground arith, ground arith, refl))
            (λ set.
              if_cases (Halla pid fs) (g.bit_referencia == 1) _ _
                (λ one. through_clearing pid i fs _ (
                  after_clearing fuel pid i k fs f g h at e own bit l enough (ground arith)
                    (recorrer_ends fuel pid (siguiente i fs) k (sin_referencia i fs))))
                (λ more. passed (λ q. ground (arith, ap (λ x. x.bit_referencia) (same q))))))
        (λ other. passed (λ q. ground (arith, ap (λ x. x.pid) (same q)))))
  where
    after_clearing :
        (fuel pid i k : ℕ) (fs : List Frame) (f g : Frame)
        → i < length fs
        → get_elem? fs k ≡ some f
        → get_elem? fs i ≡ some g
        → f.pid ≡ pid
        → f.bit_referencia ≤ 1
        → k < length fs
        → pasos (length fs) i k + f.bit_referencia * length fs < suc fuel
        → g.bit_referencia ≡ 1
        → ((f : Frame)
            → siguiente i fs < length (sin_referencia i fs)
            → get_elem? (sin_referencia i fs) k ≡ some f
            → f.pid ≡ pid
            → f.bit_referencia ≤ 1
            → pasos (length (sin_referencia i fs)) (siguiente i fs) k
                + f.bit_referencia * length (sin_referencia i fs)
              < fuel
            → Halla pid
                (sin_referencia i fs)
                (recorrer fuel pid (siguiente i fs) (sin_referencia i fs)))
        → Halla pid (sin_referencia i fs) (recorrer fuel pid (siguiente i fs) (sin_referencia i fs))
    after_clearing fuel pid i k fs f g h at e own bit l enough one ends =
        let n = length_cleared i fs in
        elim (Bool-cases (i == k)) [
          | inl yes' ↦
              let q : i ≡ k = ground arith in
              let at' = cleared_here k fs f at in
              let there : get_elem? (sin_referencia i fs) k
                  ≡ some (record f { bit_referencia = 0 }) =
                ap (λ j. get_elem? (sin_referencia j fs) k) q ∙ at' in
              let same : g ≡ f = some_same g f e (ap (λ j. get_elem? fs j) q ∙ at) in
              let set : f.bit_referencia ≡ 1 = sym (ap (λ x. x.bit_referencia) same) ∙ one in
              let around : suc (pasos (length fs) (siguiente i fs) k) ≡ length fs =
                ap (λ j. suc (pasos (length fs) (siguiente j fs) k)) q ∙ pasos_around k fs l in
              ends (record f { bit_referencia = 0 })
                (subst (λ m. siguiente i fs < m) (sym n) (siguiente_inside i fs h)) there own
                (omega arith)
                (subst (λ m. pasos m (siguiente i fs) k + 0 * m < fuel) (sym n)
                  (let big = ap (λ b. b * length fs) set in omega (arith, around, big)))
          | inr no' ↦
              let ne : i ≢ k = λ q. ground arith in
              ends f (subst (λ m. siguiente i fs < m) (sym n) (siguiente_inside i fs h))
                (cleared_elsewhere i k fs ne ∙ at) own bit
                (subst (λ m. pasos m (siguiente i fs) k + f.bit_referencia * m < fuel) (sym n)
                  (omega (arith, pasos_next i k fs h l ne)))
        ]

-- The clock ends within two turns: where the process is listed, its pointer lies in the list of
-- frames, some frame belongs to it with a bit of reference, and mutexMarcos is free, buscarVictimaClock
-- gives a frame of the process without reference; the pointer it leaves stands at a frame of the
-- process again; no frame has changed but for its bit of reference, and no process but for the pointer.
pub buscar_victima_clock-ends :
    (pid i k : ℕ) (u : Umc) (p : Proceso) (f : Frame)
    → encontrar_posicion_en_procesos pid u.lista_de_procesos ≡ i
    → get_elem? u.lista_de_procesos i ≡ some p
    → p.indice_recorrida_clock < length u.lista_de_frames
    → u.mutex_marcos ≡ false
    → get_elem? u.lista_de_frames k ≡ some f
    → f.pid ≡ pid
    → f.bit_referencia ≤ 1
    → Elige pid i u (buscar_victima_clock pid u)
unfolding buscar_victima_clock obtener
buscar_victima_clock-ends pid i k u p f found listed inside free at own bit =
    let n = length u.lista_de_frames in
    let steps =
      pasos_bound n p.indice_recorrida_clock k inside (get_elem_inside u.lista_de_frames k f at) in
    let ends =
      recorrer_ends (suc (2 * n)) pid p.indice_recorrida_clock k u.lista_de_frames f inside at own
        bit (enough n f.bit_referencia steps bit) in
    rw (found, listed, mutex_free free) (con_victima_ends pid i u _ ends)
  where
    enough : {s : ℕ} (n b : ℕ) → s < n → b ≤ 1 → s + b * n < suc (2 * n)
    enough {s} n zero h l = omega arith
    enough {s} n (suc zero) h l = omega arith
    enough {s} n (suc (suc b)) h l = absurd (omega arith)
