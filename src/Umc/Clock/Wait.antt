-- ===== src/Umc/Clock/Wait.antt =====
-- How long the turns of buscarVictimaClockModificado take to meet a frame.
use so_unoficial.Prelude.{
  ℕ, suc, ◌+◌, ◌-◌, ◌*◌, ◌≤◌, ◌<◌, ◌≡◌, ◌≢◌, refl, ap, sym, ◌∙◌, ◌⊎◌, inl, inr, Bool, true, false,
  not, Bool-cases, List, length, ltb, ◌==◌, if◌then◌else◌, arith,
}
use so_unoficial.Umc.State.{Frame}
use so_unoficial.Umc.Clock.{siguiente}
use so_unoficial.Umc.Clock.Steps.{pasos, pasos_next, pasos_around, pasos_bound}

-- The steps from position `i` to the end of the turn, at `vuelta`.
abbrev pub resto : ℕ → ℕ → ℕ → ℕ
resto n i vuelta = if ltb i vuelta then vuelta - i else n + vuelta - i

abbrev pub alike : Bool → Bool → Bool
alike a b = if a then b else not b

-- The steps to a position `d` steps away, `c` steps before the end of the turn, in a turn that is, or is
-- not, of the kind that is waited for.
abbrev pub espera : ℕ → ℕ → ℕ → Bool → ℕ
espera n d c same = if ltb d c then (if same then d else d + n) else (if same then d + n else d)

pub espera_bound : (n d c : ℕ) (same : Bool) → d < n → espera n d c same < 2 * n
espera_bound n d c true h = ground arith
espera_bound n d c false h = ground arith

-- One step further in the same turn, and into the next turn.
espera_same : (n d c : ℕ) (same : Bool) → suc (espera n d c same) ≡ espera n (suc d) (suc c) same
espera_same n d c true = ground arith
espera_same n d c false = ground arith

espera_turn :
    (n d : ℕ) (same : Bool) → d < n → suc (espera n d n (not same)) ≡ espera n (suc d) 1 same
espera_turn n d true h = ground arith
espera_turn n d false h = ground arith

-- The turn of the next step, and what is left of it.
abbrev pub turno : Bool → ℕ → ℕ → Bool
turno segunda j vuelta = if j == vuelta then not segunda else segunda

resto_next :
    (i vuelta : ℕ) (fs : List Frame)
    → i < length fs
    → vuelta < length fs
    → ((siguiente i fs ≡ vuelta)
        × (resto (length fs) i vuelta ≡ 1)
        × (resto (length fs) (siguiente i fs) vuelta ≡ length fs))
      ⊎ ((siguiente i fs ≢ vuelta)
          × (suc (resto (length fs) (siguiente i fs) vuelta) ≡ resto (length fs) i vuelta))
unfolding siguiente
resto_next i vuelta fs h r = elim (Bool-cases (siguiente i fs == vuelta)) [
  | inl e ↦ inl (ground arith, ground arith, ground arith)
  | inr e ↦ inr ((λ q. ground arith), ground arith)
]

turned_alike : (a b : Bool) → alike (not a) b ≡ not (alike a b)
turned_alike true true = refl
turned_alike true false = refl
turned_alike false true = refl
turned_alike false false = refl

-- The wait for a visit of position `k` in a turn of the kind `quiere`.
abbrev pub falta : ℕ → ℕ → ℕ → Bool → Bool → ℕ → ℕ
falta n k vuelta quiere segunda i = espera n (pasos n i k) (resto n i vuelta) (alike segunda quiere)

-- With the distance to `k` known behind the step, the wait there.
falta_step :
    (i k vuelta d : ℕ) (quiere segunda : Bool) (fs : List Frame)
    → i < length fs
    → vuelta < length fs
    → d < length fs
    → pasos (length fs) (siguiente i fs) k ≡ d
    → suc
        (falta (length fs) k vuelta quiere (turno segunda (siguiente i fs) vuelta) (siguiente i fs))
      ≡ espera (length fs) (suc d) (resto (length fs) i vuelta) (alike segunda quiere)
falta_step i k vuelta d quiere segunda fs h r small e = elim (resto_next i vuelta fs h r) [
  | inl (q, one, all) ↦
      let turned : turno segunda (siguiente i fs) vuelta ≡ not segunda = ground arith in
      rw (e, all, turned, turned_alike segunda quiere, one)
        (espera_turn (length fs) d (alike segunda quiere) small)
  | inr (ne, less) ↦
      let turned : turno segunda (siguiente i fs) vuelta ≡ segunda = ground arith in
      rw (e, turned, sym less)
        (espera_same (length fs) d (resto (length fs) (siguiente i fs) vuelta)
          (alike segunda quiere))
]

pub falta_passing :
    (i k vuelta : ℕ) (quiere segunda : Bool) (fs : List Frame)
    → i < length fs
    → vuelta < length fs
    → k < length fs
    → i ≢ k
    → suc
        (falta (length fs) k vuelta quiere (turno segunda (siguiente i fs) vuelta) (siguiente i fs))
      ≡ falta (length fs) k vuelta quiere segunda i
falta_passing i k vuelta quiere segunda fs h r l ne =
    let next = pasos_next i k fs h l ne in
    falta_step i k vuelta (pasos (length fs) (siguiente i fs) k) quiere segunda fs h r
      (omega (arith, next, pasos_bound (length fs) i k h l)) refl
    ∙ ap (λ d. espera (length fs) d (resto (length fs) i vuelta) (alike segunda quiere)) next

resto_positive : (n i vuelta : ℕ) → i < n → 0 < resto n i vuelta
resto_positive n i vuelta h = ground arith

-- The position itself, in a turn of the other kind: the wait is a whole turn.
pub falta_missed :
    (k vuelta : ℕ) (quiere segunda : Bool) (fs : List Frame)
    → k < length fs
    → vuelta < length fs
    → alike segunda quiere ≡ false
    → suc
        (falta (length fs) k vuelta quiere (turno segunda (siguiente k fs) vuelta) (siguiente k fs))
      ≤ falta (length fs) k vuelta quiere segunda k
falta_missed k vuelta quiere segunda fs l r other =
    let around = pasos_around k fs l in
    let d = pasos (length fs) (siguiente k fs) k in
    let step = falta_step k k vuelta d quiere segunda fs l r (omega arith) refl in
    rw (step, other)
      (missed (length fs) d (pasos (length fs) k k) (resto (length fs) k vuelta) around
        (ground arith) (resto_positive (length fs) k vuelta l) (ground arith))
  where
    missed :
        (n d e c : ℕ)
        → suc d ≡ n
        → e ≡ 0
        → 0 < c
        → c ≤ n
        → espera n (suc d) c false ≤ espera n e c false
    missed n d e c a z p q = ground arith
