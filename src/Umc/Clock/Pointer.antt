-- ===== src/Umc/Clock/Pointer.antt =====
-- moverPunteroProximaPosibleVictima ends, and what a search for a victim leaves.
use so_unoficial.Prelude.{
  ℕ, zero, suc, ◌<◌, ◌≡◌, refl, ap, sym, ◌∙◌, if_cases, some, List, length, modify, get_elem?,
  get_elem_some, get_elem_inside, ◌==◌, if◌then◌else◌, arith,
}
use mathlib.Core.Path.{subst}
use so_unoficial.Umc.State.{Frame, Umc, Resultado, listo, ◌>>=◌}
use so_unoficial.Umc.Clock.{siguiente, proximo_marco, mover_puntero, con_victima}
use so_unoficial.Umc.Clock.Steps.{
  pasos, siguiente_inside, pasos_next, pasos_around, sin_bits, some_same, Halla,
}

proximo_step :
    (fuel pid i : ℕ) (fs : List Frame) (g : Frame)
    → get_elem? fs i ≡ some g
    → proximo_marco (suc fuel) pid i fs
      ≡ (if g.pid == pid then listo i else proximo_marco fuel pid (siguiente i fs) fs)
unfolding proximo_marco
proximo_step fuel pid i fs g e = rw (e, proximo_marco) refl

-- A position at which a frame of the process stands.
abbrev pub Propio : ℕ → List Frame → Resultado ℕ → Type 0
Propio pid fs r = (w : ℕ) × (f : Frame) × (r ≡ listo w) × (get_elem? fs w ≡ some f) × (f.pid ≡ pid)

proximo_ends :
    (fuel pid i k : ℕ) (fs : List Frame) (f : Frame)
    → i < length fs
    → get_elem? fs k ≡ some f
    → f.pid ≡ pid
    → pasos (length fs) i k < fuel
    → Propio pid fs (proximo_marco fuel pid i fs)
proximo_ends zero pid i k fs f h at own enough = absurd (omega arith)
proximo_ends (suc fuel) pid i k fs f h at own enough =
    let (g, e) = get_elem_some fs i h in
    subst (Propio pid fs) (sym (proximo_step fuel pid i fs g e)) (
      if_cases (Propio pid fs) (g.pid == pid) _ _ (λ mine. (i, g, refl, e, ground arith))
        (λ other. proximo_ends fuel pid (siguiente i fs) k fs f (siguiente_inside i fs h) at own (
          omega (
            arith,
            pasos_next i k fs h (get_elem_inside fs k f at) (λ q.
                ground
                  (arith, ap (λ x. x.pid) (some_same g f e (ap (λ j. get_elem? fs j) q ∙ at)))),
          ))))

mover_ends :
    (v pid : ℕ) (fs : List Frame) (f : Frame)
    → get_elem? fs v ≡ some f
    → f.pid ≡ pid
    → Propio pid fs (mover_puntero v pid fs)
unfolding mover_puntero
mover_ends v pid fs f at own =
    let l = get_elem_inside fs v f at in
    proximo_ends (suc (length fs)) pid (siguiente v fs) v fs f (siguiente_inside v fs l) at own
      (omega (arith, pasos_around v fs l))

-- What a search for a victim leaves: a victim and a pointer at frames of the process, no frame
-- changed but for its bit of reference, and no process but for the pointer.
abbrev pub Elige : ℕ → ℕ → Umc → Resultado (ℕ × Umc) → Type 0
Elige pid i u r =
    (v : ℕ) × (t : Umc) × (f : Frame) × (w : ℕ) × (g : Frame) × (r ≡ listo (v, t))
    × (get_elem? t.lista_de_frames v ≡ some f)
    × (f.pid ≡ pid)
    × (f.bit_referencia ≡ 0)
    × (get_elem? t.lista_de_frames w ≡ some g)
    × (g.pid ≡ pid)
    × (sin_bits t.lista_de_frames ≡ sin_bits u.lista_de_frames)
    × (t.lista_de_procesos
        ≡ modify (λ p. record p { indice_recorrida_clock = w }) i u.lista_de_procesos)

pub con_victima_ends :
    (pid i : ℕ) (u : Umc) (r : Resultado (ℕ × List Frame))
    → Halla pid u.lista_de_frames r
    → Elige pid i u (r >>= con_victima pid i u)
unfolding con_victima
con_victima_ends pid i u r (v, gs, f, e, at, own, bit, same) =
    let (w, g, moved, at', own') = mover_ends v pid gs f at own in
    (
      v,
      record u {
        lista_de_frames = gs;
        lista_de_procesos =
            modify (λ p. record p { indice_recorrida_clock = w }) i u.lista_de_procesos;
      },
      f,
      w,
      g,
      rw (e, moved) refl,
      at,
      own,
      bit,
      at',
      own',
      same,
      refl,
    )
