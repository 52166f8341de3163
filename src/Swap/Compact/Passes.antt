-- ===== src/Swap/Compact/Passes.antt =====
-- compactar on the swap file and the array `bitMap`, seen as the list of their slots.
use so_unoficial.Prelude.{
  ℕ, zero, suc, ◌+◌, ◌-◌, ◌≤◌, ◌<◌, ◌≡◌, refl, ap, ap₂, sym, ◌∙◌, inl, inr, true, false, ◌∷◌, ◌++◌,
  length, Bool-cases, arith,
}
use so_unoficial.Swap.State.{Swap, zeros}
use so_unoficial.Swap.State.Pages.{Covers, length-zeros}
use so_unoficial.Swap.Compact.{Compacting, compact_step, pass_from, passes, compactar}
use so_unoficial.Swap.Compact.Partition.{
  carry, one_pass, repeat_pass, used_of, free_of, repeat_pass-length,
}
use so_unoficial.Swap.Compact.Exchange.{
  slot, slots_from, slots, is_free, IsMarked, Ready, Exchanged, moves, compact_step_exchanges,
  compact_step_stays,
}

-- The slots after the inner loop from `i` on, with as many rounds to go as slots behind `i`.
record Passed (i left : ℕ) (c d : Compacting) : Type 0 where
  kept_count : d.swap_now.cant_pag ≡ c.swap_now.cant_pag
  ready : Ready d
  before : (k : ℕ) → k < i → slot d.swap_now k ≡ slot c.swap_now k
  carried :
      slots_from d.swap_now i (suc left)
      ≡ carry is_free (slot c.swap_now i) (slots_from c.swap_now (suc i) left)

slots_from_same :
    (s t : Swap) (i n : ℕ)
    → ((k : ℕ) → i ≤ k → k < i + n → slot s k ≡ slot t k)
    → slots_from s i n ≡ slots_from t i n
unfolding slots_from
slots_from_same s t i zero h = refl
slots_from_same s t i (suc n) h =
    ap₂ (λ x xs. x ∷ xs) (h i (omega arith) (omega arith))
      (slots_from_same s t (suc i) n (λ k low high. h k (omega arith) (omega arith)))

passing_swaps :
    (left i : ℕ) (c d e : Compacting)
    → i + suc (suc left) ≡ c.swap_now.cant_pag
    → moves i c ≡ true
    → Exchanged i c d
    → Passed (suc i) left d e
    → Passed i (suc left) c e
unfolding slots_from carry
passing_swaps left i c d e fits h x p =
    let after : suc i ≡ i + 1 = omega arith in
    record {
      kept_count = p.kept_count ∙ x.kept_count;
      ready = p.ready;
      before =
          λ k l. p.before k (omega arith) ∙ x.others k (omega arith) (omega arith) (omega arith);
      carried = rw h (
          ap₂ (λ y ys. y ∷ ys)
            (p.before i (omega arith) ∙ x.here ∙ ap (λ k. slot c.swap_now k) (sym after))
            (p.carried
              ∙ ap₂ (λ y ys. carry is_free y ys) (ap (λ k. slot d.swap_now k) after ∙ x.next)
                  (slots_from_same d.swap_now c.swap_now (suc (suc i)) left
                    (λ k low high. x.others k (omega arith) (omega arith) (omega arith)))));
    }

passing_keeps :
    (left i : ℕ) (c e : Compacting)
    → moves i c ≡ false
    → Passed (suc i) left c e
    → Passed i (suc left) c e
unfolding slots_from carry
passing_keeps left i c e h p = record {
  kept_count = p.kept_count;
  ready = p.ready;
  before = λ k l. p.before k (omega arith);
  carried = rw h (ap₂ (λ y ys. y ∷ ys) (p.before i (omega arith)) p.carried);
}

pass_from-Passed :
    (left i : ℕ) (c : Compacting)
    → Ready c
    → i + suc left ≡ c.swap_now.cant_pag
    → Passed i left c (pass_from left i c)
unfolding pass_from slots_from carry
pass_from-Passed zero i c r fits = record {
  kept_count = refl;
  ready = r;
  before = λ k h. refl;
  carried = refl;
}
pass_from-Passed (suc left) i c r fits = elim (Bool-cases (moves i c)) [
  | inl h ↦
      let x = compact_step_exchanges i c r (omega arith) h in
      passing_swaps left i c (compact_step i c) (pass_from left (suc i) (compact_step i c)) fits h x
        (pass_from-Passed left (suc i) (compact_step i c) x.ready (omega (arith, x.kept_count)))
  | inr h ↦ rw (compact_step_stays i c h) (
      passing_keeps left i c (pass_from left (suc i) c) h
        (pass_from-Passed left (suc i) c r (omega arith)))
]

-- The inner loop is one pass over the slots.
record OnePass (c d : Compacting) : Type 0 where
  kept_count : d.swap_now.cant_pag ≡ c.swap_now.cant_pag
  ready : Ready d
  passed : slots d.swap_now ≡ one_pass is_free (slots c.swap_now)

inner-OnePass :
    (c : Compacting) (n : ℕ) → Ready c → c.swap_now.cant_pag ≡ n → OnePass c (pass_from (n - 1) 0 c)
unfolding pass_from slots_from one_pass
inner-OnePass c zero r h = record { kept_count = refl; ready = r; passed = rw h refl }
inner-OnePass c (suc n) r h =
    let p = pass_from-Passed n 0 c r (omega arith) in
    let rounds : suc n - 1 ≡ n = omega arith in
    rw rounds (record {
      kept_count = p.kept_count;
      ready = p.ready;
      passed =
          ap (λ m. slots_from (pass_from n 0 c).swap_now 0 m) (p.kept_count ∙ h)
          ∙ p.carried
          ∙ ap (λ m. one_pass is_free (slots_from c.swap_now 0 m)) (sym h);
    })

passes-repeat_pass :
    (n : ℕ) (c : Compacting)
    → Ready c
    → slots (passes n c).swap_now ≡ repeat_pass is_free n (slots c.swap_now)
unfolding passes repeat_pass
passes-repeat_pass zero c r = refl
passes-repeat_pass (suc n) c r =
    let p = inner-OnePass c c.swap_now.cant_pag r refl in
    passes-repeat_pass n (pass_from (c.swap_now.cant_pag - 1) 0 c) p.ready
    ∙ ap (λ l. repeat_pass is_free n l) p.passed

pub length-slots_from : (s : Swap) (i n : ℕ) → length (slots_from s i n) ≡ n
unfolding slots_from
length-slots_from s i zero = refl
length-slots_from s i (suc n) = omega (arith, length-slots_from s (suc i) n)

-- compactar, on a swap file that holds every page and an array with entries 0 and 1, leaves the
-- slots (each an entry of the array with the bytes of its page) so that the used ones come first,
-- then the free ones, both in the order they had: no page is lost or mixed up.
pub compactar-partition :
    (s : Swap)
    → Covers s
    → IsMarked s
    → slots (compactar s) ≡ used_of is_free (slots s) ++ free_of is_free (slots s)
unfolding compactar
compactar-partition s cover marked =
    passes-repeat_pass s.cant_pag
      (record { swap_now = s; aux = zeros s.tam_pag; aux2 = zeros s.tam_pag })
      (record {
        cover = cover;
        marked = marked;
        room = omega (arith, length-zeros s.tam_pag);
        room2 = omega (arith, length-zeros s.tam_pag);
      })
    ∙ ap (λ n. repeat_pass is_free n (slots s)) (sym (length-slots_from s 0 s.cant_pag))
    ∙ repeat_pass-length is_free (slots s)
