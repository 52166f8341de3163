-- ===== src/Umc/Clock/Steps.antt =====
-- The pointer of the clocks going round the frames, and the bits that they clear.
use so_unoficial.Prelude.{
  ℕ, zero, suc, ◌+◌, ◌-◌, ◌<◌, ◌≡◌, ◌≢◌, refl, ap, sym, ◌∙◌, Option, none, some, List, [], ◌∷◌, map,
  length, get_elem?, leb, if◌then◌else◌, arith,
}
use so_unoficial.Umc.State.{Frame, Resultado, listo}
use so_unoficial.Umc.Clock.{siguiente, sin_referencia}

-- The steps from position `i` of `n` to position `k`.
abbrev pub pasos : ℕ → ℕ → ℕ → ℕ
pasos n i k = if leb i k then k - i else n + k - i

pub siguiente_inside : (i : ℕ) (fs : List Frame) → i < length fs → siguiente i fs < length fs
unfolding siguiente
siguiente_inside i fs h = ground arith

pub pasos_next :
    (i k : ℕ) (fs : List Frame)
    → i < length fs
    → k < length fs
    → i ≢ k
    → suc (pasos (length fs) (siguiente i fs) k) ≡ pasos (length fs) i k
unfolding siguiente
pasos_next i k fs h l ne = ground arith

pub pasos_around :
    (k : ℕ) (fs : List Frame)
    → k < length fs
    → suc (pasos (length fs) (siguiente k fs) k) ≡ length fs
unfolding siguiente
pasos_around k fs l = ground arith

pub pasos_bound : (n i k : ℕ) → i < n → k < n → pasos n i k < n
pasos_bound n i k h l = ground arith

-- The frames apart from their bits of reference.
unfoldable pub sin_bits : List Frame → List Frame
sin_bits fs = map {A = Frame} (λ f. record f { bit_referencia = 0 }) fs

pub length_cleared : (i : ℕ) (fs : List Frame) → length (sin_referencia i fs) ≡ length fs
unfolding sin_referencia
length_cleared i [] = refl
length_cleared zero (f ∷ fs) = refl
length_cleared (suc i) (f ∷ fs) = ap suc (length_cleared i fs)

pub sin_bits_cleared : (i : ℕ) (fs : List Frame) → sin_bits (sin_referencia i fs) ≡ sin_bits fs
unfolding sin_referencia sin_bits
sin_bits_cleared i [] = refl
sin_bits_cleared zero (f ∷ fs) = refl
sin_bits_cleared (suc i) (f ∷ fs) =
    ap (λ gs. record f { bit_referencia = 0 } ∷ gs) (sin_bits_cleared i fs)

pub cleared_here :
    (i : ℕ) (fs : List Frame) (f : Frame)
    → get_elem? fs i ≡ some f
    → get_elem? (sin_referencia i fs) i ≡ some (record f { bit_referencia = 0 })
unfolding sin_referencia
cleared_here i [] f h = absurd (ground arith)
cleared_here zero (g ∷ fs) f h =
    ap (λ o. elim o [ some x ↦ some (record x { bit_referencia = 0 }) | none ↦ none ]) h
cleared_here (suc i) (g ∷ fs) f h = cleared_here i fs f h

pub cleared_elsewhere :
    (i k : ℕ) (fs : List Frame) → i ≢ k → get_elem? (sin_referencia i fs) k ≡ get_elem? fs k
unfolding sin_referencia
cleared_elsewhere i k [] ne = refl
cleared_elsewhere zero zero (g ∷ fs) ne = absurd (ne refl)
cleared_elsewhere zero (suc k) (g ∷ fs) ne = refl
cleared_elsewhere (suc i) zero (g ∷ fs) ne = refl
cleared_elsewhere (suc i) (suc k) (g ∷ fs) ne = cleared_elsewhere i k fs (λ e. ne (ap suc e))

pub some_same : {A : Type 0} {o : Option A} (a b : A) → o ≡ some a → o ≡ some b → a ≡ b
some_same {A} {o} a b p q = ap (λ x. elim x [ some y ↦ y | none ↦ a ]) (sym p ∙ q)

-- A clock that ends: the victim is a frame of the process without reference, and no more than bits
-- of reference have changed.
abbrev pub Halla : ℕ → List Frame → Resultado (ℕ × List Frame) → Type 0
Halla pid fs r =
    (v : ℕ) × (gs : List Frame) × (f : Frame) × (r ≡ listo (v, gs))
    × (get_elem? gs v ≡ some f)
    × (f.pid ≡ pid)
    × (f.bit_referencia ≡ 0)
    × (sin_bits gs ≡ sin_bits fs)

pub through_clearing :
    (pid i : ℕ) (fs : List Frame) (r : Resultado (ℕ × List Frame))
    → Halla pid (sin_referencia i fs) r
    → Halla pid fs r
through_clearing pid i fs r (v, gs, f, e, g, p, b, s) =
    (v, gs, f, e, g, p, b, s ∙ sin_bits_cleared i fs)
