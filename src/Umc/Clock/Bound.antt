-- ===== src/Umc/Clock/Bound.antt =====
-- A bound on the steps until buscarVictimaClockModificado takes a frame of the process.
use so_unoficial.Prelude.{
  ℕ, suc, ◌+◌, ◌*◌, ◌≤◌, ◌<◌, ◌≡◌, refl, ap, sym, ◌∙◌, inl, inr, Bool, true, false, Bool-cases,
  List, length, ◌==◌, ◌&&◌, if◌then◌else◌, arith,
}
use mathlib.Core.Path.{subst}
use so_unoficial.Umc.State.{Frame}
use so_unoficial.Umc.Clock.{siguiente}
use so_unoficial.Umc.Clock.Steps.{pasos, siguiente_inside, pasos_bound}
use so_unoficial.Umc.Clock.Wait.{resto, alike, turno, falta, espera_bound, falta_missed}

-- The kind of turn that takes the frame once its bit of reference is clear, or that clears it.
abbrev pub quiere : Frame → Bool
quiere f = if f.bit_referencia == 0 then f.bit_modificado == 1 else true

-- The steps until the frame at `k` is taken, at most.
abbrev pub cota : ℕ → ℕ → ℕ → Frame → Bool → ℕ → ℕ
cota n k vuelta f segunda i =
    falta n k vuelta (quiere f) segunda i + (if f.bit_referencia == 0 then 0 else 2 * n)

-- The test of the loop.
abbrev pub toma : Frame → Bool → Bool
toma g segunda = g.bit_referencia == 0 && g.bit_modificado == (if segunda then 1 else 0)

not_taken_first :
    (f : Frame) → f.bit_modificado ≤ 1 → toma f false ≡ false → alike false (quiere f) ≡ false
not_taken_first f m h = ground arith

-- The frame at `k` in its second turn loses its bit of reference: the rest is shorter.
pub cota_cleared :
    (k vuelta : ℕ) (fs : List Frame) (f : Frame)
    → k < length fs
    → vuelta < length fs
    → f.bit_modificado ≤ 1
    → toma f true ≡ false
    → suc (
        cota
          (length fs)
          k
          vuelta
          (record f { bit_referencia = 0 })
          (turno true (siguiente k fs) vuelta)
          (siguiente k fs))
      ≤ cota (length fs) k vuelta f true k
cota_cleared k vuelta fs f l r m h = elim (Bool-cases (f.bit_referencia == 0)) [
  | inl clear ↦
      let other : (f.bit_modificado == 1) ≡ false = ground arith in
      let missed = falta_missed k vuelta false true fs l r refl in
      rw (clear, other) (omega (arith, missed))
  | inr set ↦
      let bound =
        espera_bound (length fs) (pasos (length fs) (siguiente k fs) k)
          (resto (length fs) (siguiente k fs) vuelta)
          (alike (turno true (siguiente k fs) vuelta) (f.bit_modificado == 1))
          (pasos_bound (length fs) (siguiente k fs) k (siguiente_inside k fs l) l) in
      rw set (omega (arith, bound))
]

-- The frame at `k` is not taken in its first turn: it waits for the second.
pub cota_missed :
    (i k vuelta : ℕ) (segunda : Bool) (fs : List Frame) (f : Frame)
    → k < length fs
    → vuelta < length fs
    → i ≡ k
    → f.bit_modificado ≤ 1
    → segunda ≡ false
    → toma f segunda ≡ false
    → suc (cota (length fs) k vuelta f (turno segunda (siguiente i fs) vuelta) (siguiente i fs))
      ≤ cota (length fs) k vuelta f segunda i
cota_missed i k vuelta segunda fs f l r q m first h =
    subst
      (λ b.
        suc (cota (length fs) k vuelta f (turno b (siguiente i fs) vuelta) (siguiente i fs))
        ≤ cota (length fs) k vuelta f b i)
      (sym first)
      (subst
        (λ j.
          suc (cota (length fs) k vuelta f (turno false (siguiente j fs) vuelta) (siguiente j fs))
          ≤ cota (length fs) k vuelta f false j)
        (sym q)
        (let less =
            falta_missed k vuelta (quiere f) false fs l r
              (not_taken_first f m (ap (λ b. toma f b) (sym first) ∙ h)) in
          omega (arith, less)))
