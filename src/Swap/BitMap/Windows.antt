-- ===== src/Swap/BitMap/Windows.antt =====
-- The searches for free entries of the array `bitMap`, espacioDisponible and contiguo of Swap.c.
use so_unoficial.Prelude.{
  ℕ, zero, suc, ◌+◌, ◌-◌, ◌≤◌, ◌<◌, ◌≡◌, refl, ◌⊎◌, inl, inr, ◌↔◌, Bool, true, false, Option, none,
  some, min, ◌==◌, ◌&&◌, if◌then◌else◌, Bool-cases, if_cases, arith,
}
use so_unoficial.Swap.State.{Entry, Swap}
use so_unoficial.Swap.BitMap.{count_from, espacio_disponible, contiguo_from, contiguo}

-- The number of free entries among the `n` from `i` on.
unfoldable pub free_count : (ℕ → Entry) → ℕ → ℕ → ℕ
free_count bit_map i zero = 0
free_count bit_map i (suc n) =
    (if (bit_map i).estado == 0 then 1 else 0) + free_count bit_map (suc i) n

-- Whether the `n` entries from `i` on are free.
unfoldable pub all_free : (ℕ → Entry) → ℕ → ℕ → Bool
all_free bit_map i zero = true
all_free bit_map i (suc n) = (bit_map i).estado == 0 && all_free bit_map (suc i) n

count_from-free_count :
    (bit_map : ℕ → Entry) (paginas left i j : ℕ)
    → j ≤ paginas
    → count_from bit_map paginas left i j ≡ min paginas (j + free_count bit_map i left)
unfolding count_from free_count
count_from-free_count bit_map paginas zero i j h = omega arith
count_from-free_count bit_map paginas (suc left) i j h = ground (
  arith,
  count_from-free_count bit_map paginas left (suc i) j,
  count_from-free_count bit_map paginas left (suc i) (suc j),
)

-- espacioDisponible holds exactly where at least as many entries are free as were asked for.
pub espacio_disponible-free_count :
    (paginas : ℕ) (s : Swap)
    → (espacio_disponible paginas s ≡ true) ↔ (paginas ≤ free_count s.bit_map 0 s.cant_pag)
unfolding espacio_disponible
espacio_disponible-free_count paginas s =
    let e = count_from-free_count s.bit_map paginas s.cant_pag 0 0 (omega arith) in
    (λ h. ground arith, λ h. ground arith)

pub all_free_at :
    (bit_map : ℕ → Entry) (i n k : ℕ)
    → all_free bit_map i n ≡ true
    → i ≤ k
    → k < i + n
    → (bit_map k).estado ≡ 0
unfolding all_free
all_free_at bit_map i zero k h low high = absurd (omega arith)
all_free_at bit_map i (suc n) k h low high = ground (arith, all_free_at bit_map (suc i) n k)

pub all_free_from :
    (bit_map : ℕ → Entry) (i n : ℕ)
    → ((k : ℕ) → i ≤ k → k < i + n → (bit_map k).estado ≡ 0)
    → all_free bit_map i n ≡ true
unfolding all_free
all_free_from bit_map i zero h = refl
all_free_from bit_map i (suc n) h =
    let rest = all_free_from bit_map (suc i) n (λ k low high. h k (omega arith) (omega arith)) in
    let here = h i (omega arith) (omega arith) in ground arith

-- Whether the test of contiguo holds at entry `k`.
abbrev pub both_free : (ℕ → Entry) → ℕ → Bool
both_free bit_map k = (bit_map k).estado == 0 && (bit_map (k + 1)).estado == 0

module _ (bit_map : ℕ → Entry) (paginas : ℕ) (some_page : 0 < paginas) where
  run_on :
      (i j : ℕ)
      → ((k : ℕ) → i - j ≤ k → k < i → both_free bit_map k ≡ true)
      → both_free bit_map i ≡ true
      → (k : ℕ) → suc i - suc j ≤ k
      → k < suc i
      → both_free bit_map k ≡ true
  run_on i j run both k low high = ground (arith, run k)

  -- Where the loop that ends before `stop` counted all pages, the last ones it saw are a window.
  abbrev IsLast : ℕ → ℕ × ℕ → Type 0
  IsLast stop (j', fin') =
      j' ≡ paginas
      → (fin' + 1 ≤ stop)
        × (paginas ≤ fin' + 1)
        × ((k : ℕ) → fin' + 1 - paginas ≤ k → k < fin' + 1 → both_free bit_map k ≡ true)

  stopping_here :
      (stop i j fin : ℕ)
      → i ≤ stop
      → j ≤ i
      → (j ≡ 0) ⊎ (fin + 1 ≡ i)
      → ((k : ℕ) → i - j ≤ k → k < i → both_free bit_map k ≡ true)
      → IsLast stop (j, fin)
  stopping_here stop i j fin h small last run e =
      (ground arith, ground arith, λ k low high. run k (ground arith) (ground arith))

  contiguo_from-IsLast :
      (stop left i j fin : ℕ)
      → i + left ≡ stop
      → j ≤ i
      → (j ≡ 0) ⊎ (fin + 1 ≡ i)
      → ((k : ℕ) → i - j ≤ k → k < i → both_free bit_map k ≡ true)
      → IsLast stop (contiguo_from bit_map paginas left i j fin)
  unfolding contiguo_from
  contiguo_from-IsLast stop zero i j fin h small last run =
      stopping_here stop i j fin (omega arith) small last run
  contiguo_from-IsLast stop (suc left) i j fin h small last run =
      elim (Bool-cases (both_free bit_map i)) [
        | inl both ↦ rw both (
            if_cases (λ r. IsLast stop r) (j == paginas) (j, fin)
              (contiguo_from bit_map paginas left (suc i) (suc j) i)
              (λ _. stopping_here stop i j fin (omega arith) small last run)
              (λ _.
                contiguo_from-IsLast stop left (suc i) (suc j) i (omega arith) (omega arith)
                  (inr (omega arith)) (run_on i j run both)))
        | inr broken ↦ rw broken (
            if_cases (λ r. IsLast stop r) (j == paginas) (j, fin)
              (contiguo_from bit_map paginas left (suc i) 0 fin)
              (λ _. stopping_here stop i j fin (omega arith) small last run)
              (λ _.
                contiguo_from-IsLast stop left (suc i) 0 fin (omega arith) (omega arith) (inl refl)
                  (λ k low high. absurd (omega arith))))
      ]

  contiguo_from_complete :
      (left i j fin w : ℕ)
      → j ≤ i
      → i - j ≤ w
      → w + paginas ≤ i + left
      → j ≤ paginas
      → ((k : ℕ) → w ≤ k → k < w + paginas → both_free bit_map k ≡ true)
      → (contiguo_from bit_map paginas left i j fin).0 ≡ paginas
  unfolding contiguo_from
  contiguo_from_complete zero i j fin w small before fits bound window = omega arith
  contiguo_from_complete (suc left) i j fin w small before fits bound window =
      elim (Bool-cases (both_free bit_map i)) [
        | inl both ↦ rw both (
            if_cases (λ r. r.0 ≡ paginas) (j == paginas) (j, fin)
              (contiguo_from bit_map paginas left (suc i) (suc j) i) (λ h. ground arith)
              (λ h.
                contiguo_from_complete left (suc i) (suc j) i w (omega arith) (omega arith)
                  (omega arith) (ground arith) window))
        | inr broken ↦ rw broken (
            if_cases (λ r. r.0 ≡ paginas) (j == paginas) (j, fin)
              (contiguo_from bit_map paginas left (suc i) 0 fin) (λ h. ground arith)
              (λ h.
                contiguo_from_complete left (suc i) 0 fin w (omega arith) (ground (arith, window i))
                  (omega arith) (omega arith) window))
      ]

window_free :
    (bit_map : ℕ → Entry) (i n : ℕ)
    → 0 < n
    → ((k : ℕ) → i ≤ k → k < i + n → both_free bit_map k ≡ true)
    → (k : ℕ) → i ≤ k
    → k ≤ i + n
    → (bit_map k).estado ≡ 0
window_free bit_map i n h run zero low high = ground (arith, run 0)
window_free bit_map i n h run (suc k) low high = ground (arith, run (suc k), run k)

free_both :
    (bit_map : ℕ → Entry) (i n k : ℕ)
    → all_free bit_map i (n + 1) ≡ true
    → i ≤ k
    → k < i + n
    → both_free bit_map k ≡ true
free_both bit_map i n k h low high =
    let here = all_free_at bit_map i (n + 1) k h low (omega arith) in
    let next = all_free_at bit_map i (n + 1) (k + 1) h (omega arith) (omega arith) in ground arith

-- What contiguo promises: `some i` is the start of as many entries as were asked for, within the
-- array, which are free and have one more free entry behind them; with `none`, the place `w` is not
-- one.
abbrev pub IsWindow : ℕ → ℕ → Swap → Option ℕ → Type 0
IsWindow paginas w s (some i) =
    (i + paginas ≤ s.cant_pag) × (all_free s.bit_map i (paginas + 1) ≡ true)
IsWindow paginas w s none = all_free s.bit_map w (paginas + 1) ≡ false

-- Where contiguo, asked for at least one page, gives a place, as many entries from there on lie in
-- the array and are free, and so is the entry behind them; where it gives -1, no place `w` in the
-- array is of that kind.
pub contiguo-IsWindow :
    (fin paginas w : ℕ) (s : Swap)
    → 0 < paginas
    → w + paginas ≤ s.cant_pag
    → IsWindow paginas w s (contiguo fin paginas s)
unfolding contiguo
contiguo-IsWindow fin paginas w s some_page fits =
    let (j, last) = contiguo_from s.bit_map paginas s.cant_pag 0 0 fin in
    if_cases (λ r. IsWindow paginas w s r) (j == paginas) (some (last + 1 - paginas)) none
      (λ h.
        let (inside, low, run) =
          contiguo_from-IsLast s.bit_map paginas some_page s.cant_pag s.cant_pag 0 0 fin
            (omega arith) (omega arith) (inl refl) (λ k l u. absurd (omega arith)) (ground arith) in
        (
          omega arith,
          all_free_from s.bit_map (last + 1 - paginas) (paginas + 1) (λ k l u.
              window_free s.bit_map (last + 1 - paginas) paginas some_page
                (λ m l' u'. run m l' (omega arith)) k l (omega arith)),
        ))
      (λ h. elim (Bool-cases (all_free s.bit_map w (paginas + 1))) [
        | inr taken ↦ taken
        | inl free ↦
            let found =
              contiguo_from_complete s.bit_map paginas some_page s.cant_pag 0 0 fin w (omega arith)
                (omega arith) (omega arith) (omega arith)
                (λ k l u. free_both s.bit_map w paginas k free l u) in
            absurd (ground arith)
      ])
