-- ===== src/Osada/Names/Laws.antt =====
-- Names in a file block.
use so_unoficial.Prelude.{
  c_string, overwrite, ℕ, zero, suc, ◌≤◌, ◌<◌, ◌≡◌, ◌≢◌, refl, ap, List, [], ◌∷◌, ◌++◌, length,
  take, drop, ltb, arith, Bool-cases, ltb→lt, inl, inr, length-append, length-drop, drop-length,
  take_all,
}
use so_unoficial.Osada.State.{osada_filename_length}
use so_unoficial.Osada.Names.{set_fname, get_fname}

-- No byte is NUL.
abbrev pub IsText : List ℕ → Type 0
IsText [] = Unit
IsText (c ∷ cs) = (c ≢ 0) × IsText cs

c_string-append : (n rest : List ℕ) → IsText n → c_string (n ++ 0 ∷ rest) ≡ n
unfolding c_string
c_string-append [] rest t = refl
c_string-append (c ∷ cs) rest t = ground (arith, c_string-append cs rest t.1)

c_string_text : (n : List ℕ) → IsText n → c_string n ≡ n
unfolding c_string
c_string_text [] t = refl
c_string_text (c ∷ cs) t = ground (arith, c_string_text cs t.1)

take-append_nul :
    (k : ℕ) (n rest : List ℕ)
    → length n < k
    → (more : List ℕ) × (take k (n ++ 0 ∷ rest) ≡ n ++ 0 ∷ more)
take-append_nul zero n rest h = absurd (omega arith)
take-append_nul (suc k) [] rest h = (take k rest, refl)
take-append_nul (suc k) (c ∷ cs) rest h =
    let (more, e) = take-append_nul k cs rest (omega arith) in (more, ap (λ l. c ∷ l) e)

append-assoc_nul : (n rest : List ℕ) → (n ++ 0 ∷ []) ++ rest ≡ n ++ 0 ∷ rest
append-assoc_nul [] rest = refl
append-assoc_nul (c ∷ cs) rest = ap (λ l. c ∷ l) (append-assoc_nul cs rest)

append_nil : (n : List ℕ) → n ++ [] ≡ n
append_nil [] = refl
append_nil (c ∷ cs) = ap (λ l. c ∷ l) (append_nil cs)

-- A name of at most 17 bytes, none of them NUL, is read back from the name field that it was written
-- to, whatever the 17 bytes of the field were before.
pub get_fname-set_fname :
    (old name : List ℕ)
    → length old ≡ osada_filename_length
    → length name ≤ osada_filename_length
    → IsText name
    → get_fname (set_fname old name) ≡ name
unfolding get_fname set_fname overwrite
get_fname-set_fname old name full fits t = elim (Bool-cases (ltb (length name) 17)) [
  | inl short ↦
      let (more, e) =
        take-append_nul 17 name (drop (length (name ++ 0 ∷ [])) old)
          (omega (arith, ltb→lt (length name) 17 short)) in
      rw (short, append-assoc_nul, e) (c_string-append name more t)
  | inr long ↦
      let whole : length name ≡ 17 = ground arith in
      rw
        (
          long,
          drop-length (length name) old (omega arith),
          append_nil name,
          take_all 17 name (omega arith),
        )
        (c_string_text name t)
]

pub length-set_fname :
    (old name : List ℕ)
    → length old ≡ osada_filename_length
    → length name ≤ osada_filename_length
    → length (set_fname old name) ≡ osada_filename_length
unfolding set_fname overwrite
length-set_fname old name full fits = ground (
  arith,
  length-append name (0 ∷ []),
  length-append name (drop (length name) old),
  length-append (name ++ 0 ∷ []) (drop (length (name ++ 0 ∷ [])) old),
  length-drop (length name) old,
  length-drop (length (name ++ 0 ∷ [])) old,
)
