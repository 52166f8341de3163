-- ===== src/Umc/Tlb/Oldest.antt =====
-- buscarEntradaMasAntigua: the entry that was used least recently.
use so_unoficial.Prelude.{
  ℕ, zero, suc, ◌+◌, ◌≤◌, ◌<◌, ◌≡◌, refl, ap, ◌∙◌, ◌⊎◌, inl, inr, if_cases, some, none, List, [],
  ◌∷◌, get_elem?, ltb, arith,
}
use mathlib.Core.Path.{subst}
use so_unoficial.Umc.State.{EntradaTlb}
use so_unoficial.Umc.Tlb.{mas_antigua}

-- No entry was used before `acceso`.
abbrev pub DesdeAcceso : ℕ → List EntradaTlb → Type 0
DesdeAcceso acceso es =
    (k : ℕ) (e : EntradaTlb) → get_elem? es k ≡ some e → acceso ≤ e.ultimo_acceso

-- The entry found so far stays, or an older one behind it is the oldest.
abbrev Antigua : ℕ → ℕ → ℕ → List EntradaTlb → ℕ → Type 0
Antigua j acceso i es r =
    ((r ≡ j) × DesdeAcceso acceso es)
    ⊎ ((k : ℕ) × (e : EntradaTlb) × (r ≡ i + k)
        × (get_elem? es k ≡ some e)
        × (e.ultimo_acceso < acceso)
        × DesdeAcceso e.ultimo_acceso es)

entry_first :
    (e : EntradaTlb) (es : List EntradaTlb) (acceso : ℕ)
    → acceso ≤ e.ultimo_acceso
    → DesdeAcceso acceso es
    → DesdeAcceso acceso (e ∷ es)
entry_first e es acceso h rest zero x q =
    let same : e ≡ x = ap (λ o. elim o [ some y ↦ y | none ↦ e ]) q in
    subst (λ y. acceso ≤ y.ultimo_acceso) same h
entry_first e es acceso h rest (suc k) x q = rest k x q

mas_antigua-Antigua :
    (j acceso i : ℕ) (es : List EntradaTlb) → Antigua j acceso i es (mas_antigua j acceso i es)
unfolding mas_antigua
mas_antigua-Antigua j acceso i [] = inl (refl, λ k e h. absurd (ground arith))
mas_antigua-Antigua j acceso i (e ∷ es) =
    if_cases (Antigua j acceso i (e ∷ es)) (ltb e.ultimo_acceso acceso) _ _
      (λ older. elim (mas_antigua-Antigua i e.ultimo_acceso (suc i) es) [
        | inl (r, rest) ↦ inr (
          0,
          e,
          r ∙ omega arith,
          refl,
          ground arith,
          entry_first e es e.ultimo_acceso (omega arith) rest,
        )
        | inr (k, x, r, at, less, rest) ↦ inr (
          suc k,
          x,
          r ∙ omega arith,
          at,
          ground arith,
          entry_first e es x.ultimo_acceso (omega arith) rest,
        )
      ])
      (λ newer. elim (mas_antigua-Antigua j acceso (suc i) es) [
        | inl (r, rest) ↦ inl (r, entry_first e es acceso (ground arith) rest)
        | inr (k, x, r, at, less, rest) ↦ inr (
          suc k,
          x,
          r ∙ omega arith,
          at,
          less,
          entry_first e es x.ultimo_acceso (ground arith) rest,
        )
      ])

-- With no time behind the number of accesses, the entry is one of the TLB and none is older.
pub oldest_entry :
    (acceso : ℕ) (e : EntradaTlb) (es : List EntradaTlb)
    → ((k : ℕ) (x : EntradaTlb) → get_elem? (e ∷ es) k ≡ some x → x.ultimo_acceso ≤ acceso)
    → (x : EntradaTlb) × (get_elem? (e ∷ es) (mas_antigua 0 acceso 0 (e ∷ es)) ≡ some x)
      × DesdeAcceso x.ultimo_acceso (e ∷ es)
oldest_entry acceso e es past = elim (mas_antigua-Antigua 0 acceso 0 (e ∷ es)) [
  | inl (r, rest) ↦ (
    e,
    ap (λ k. get_elem? (e ∷ es) k) r,
    λ k x h. let first = past 0 e refl in let other = rest k x h in omega (arith, first, other),
  )
  | inr (k, x, r, at, less, rest) ↦ (x, ap (λ m. get_elem? (e ∷ es) m) (r ∙ omega arith) ∙ at, rest)
]
