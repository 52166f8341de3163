-- ===== src/Swap/State/Pages.antt =====
-- The swap file as a sequence of pages.
use so_unoficial.Prelude.{
  Bool-cases, ltb→lt, ℕ, zero, suc, ◌+◌, ◌-◌, ◌*◌, ◌≤◌, ◌<◌, ◌≡◌, ◌≢◌, refl, ap, ap₂, sym, ◌∙◌, ◌⊎◌,
  inl, inr, List, [], ◌∷◌, length, overwrite, drop-length, ltb, min, if◌then◌else◌, arith,
}
use mathlib.Core.List.{append-nil}
use so_unoficial.Swap.State.{Archivo, Swap, bytes_at, read_archivo, put_bytes, write_archivo, zeros}

pub length-bytes_at : (byte : ℕ → ℕ) (pos n : ℕ) → length (bytes_at byte pos n) ≡ n
unfolding bytes_at
length-bytes_at byte pos zero = refl
length-bytes_at byte pos (suc n) = omega (arith, length-bytes_at byte (suc pos) n)

pub length-zeros : (n : ℕ) → length (zeros n) ≡ n
unfolding zeros
length-zeros zero = refl
length-zeros (suc n) = omega (arith, length-zeros n)

pub bytes_at_same :
    (byte byte' : ℕ → ℕ) (pos n : ℕ)
    → ((k : ℕ) → pos ≤ k → k < pos + n → byte k ≡ byte' k)
    → bytes_at byte pos n ≡ bytes_at byte' pos n
unfolding bytes_at
bytes_at_same byte byte' pos zero h = refl
bytes_at_same byte byte' pos (suc n) h =
    ap₂ (λ x xs. x ∷ xs) (h pos (omega arith) (omega arith))
      (bytes_at_same byte byte' (suc pos) n (λ k low high. h k (omega arith) (omega arith)))

pub put_bytes_outside :
    (byte : ℕ → ℕ) (pos : ℕ) (bs : List ℕ) (k : ℕ)
    → (k < pos) ⊎ (pos + length bs ≤ k)
    → put_bytes byte pos bs k ≡ byte k
unfolding put_bytes
put_bytes_outside byte pos [] k h = refl
put_bytes_outside byte pos (b ∷ bs) k h = ground (arith, put_bytes_outside byte (suc pos) bs k)

pub bytes_at-put_bytes :
    (byte : ℕ → ℕ) (pos : ℕ) (bs : List ℕ) → bytes_at (put_bytes byte pos bs) pos (length bs) ≡ bs
unfolding bytes_at put_bytes
bytes_at-put_bytes byte pos [] = refl
bytes_at-put_bytes byte pos (b ∷ bs) =
    ap₂ (λ x xs. x ∷ xs) (ground arith)
      (bytes_at_same (put_bytes byte pos (b ∷ bs)) (put_bytes byte (suc pos) bs) (suc pos)
          (length bs) (λ k low high. ground arith)
        ∙ bytes_at-put_bytes byte (suc pos) bs)

-- A read that lies in the file fills the buffer.
pub read_archivo_all :
    (f : Archivo) (pos n : ℕ) (buffer : List ℕ)
    → pos + n ≤ f.size
    → length buffer ≤ n
    → read_archivo f pos n buffer ≡ bytes_at f.byte pos n
unfolding read_archivo overwrite
read_archivo_all f pos n buffer h l =
    let count : min n (f.size - pos) ≡ n = omega arith in
    rw
      (
        count,
        drop-length (length (bytes_at f.byte pos n)) buffer
            (omega (arith, length-bytes_at f.byte pos n)),
      )
      (append-nil (bytes_at f.byte pos n))

-- A write that lies in the file leaves its size.
pub write_archivo-size :
    (pos : ℕ) (bs : List ℕ) (f : Archivo)
    → pos + length bs ≤ f.size
    → (write_archivo pos bs f).size ≡ f.size
unfolding write_archivo
write_archivo-size pos [] f h = refl
write_archivo-size pos (b ∷ bs) f h = ground arith

write_archivo-outside :
    (pos : ℕ) (bs : List ℕ) (f : Archivo) (k : ℕ)
    → k < f.size
    → (k < pos) ⊎ (pos + length bs ≤ k)
    → (write_archivo pos bs f).byte k ≡ f.byte k
unfolding write_archivo
write_archivo-outside pos [] f k h out = refl
write_archivo-outside pos (b ∷ bs) f k h out =
    let e = put_bytes_outside (λ m. if ltb m f.size then f.byte m else 0) pos (b ∷ bs) k out in
    ground (arith, e)

-- The bytes that were written.
pub bytes_at-write_archivo :
    (pos : ℕ) (bs : List ℕ) (f : Archivo)
    → bytes_at (write_archivo pos bs f).byte pos (length bs) ≡ bs
unfolding write_archivo bytes_at
bytes_at-write_archivo pos [] f = refl
bytes_at-write_archivo pos (b ∷ bs) f =
    bytes_at-put_bytes (λ m. if ltb m f.size then f.byte m else 0) pos (b ∷ bs)

pub bytes_at_written :
    (pos : ℕ) (bs : List ℕ) (f : Archivo) (n : ℕ)
    → length bs ≡ n
    → bytes_at (write_archivo pos bs f).byte pos n ≡ bs
bytes_at_written pos bs f n h =
    ap (λ m. bytes_at (write_archivo pos bs f).byte pos m) (sym h) ∙ bytes_at-write_archivo pos bs f

-- Bytes that lie in the file outside the range that is written stay.
pub bytes_at-write_outside :
    (pos : ℕ) (bs : List ℕ) (f : Archivo) (at n : ℕ)
    → at + n ≤ f.size
    → (at + n ≤ pos) ⊎ (pos + length bs ≤ at)
    → bytes_at (write_archivo pos bs f).byte at n ≡ bytes_at f.byte at n
bytes_at-write_outside pos bs f at n h out =
    bytes_at_same (write_archivo pos bs f).byte f.byte at n
      (λ k low high. write_archivo-outside pos bs f k (omega arith) (ground arith))

pub page_in : (i n t : ℕ) → i < n → i * t + t ≤ n * t
page_in i n t h = grind arith

-- Pages with different numbers do not overlap.
pub pages_apart : (i j t : ℕ) → i ≢ j → (i * t + t ≤ j * t) ⊎ (j * t + t ≤ i * t)
pages_apart i j t h = elim (Bool-cases (ltb i j)) [
  | inl less ↦ inl (page_in i j t (ltb→lt i j less))
  | inr more ↦ inr (page_in j i t (ground arith))
]

-- The page with number `i`.
unfoldable pub page : Swap → ℕ → List ℕ
page s i = bytes_at s.archivo_swap.byte (i * s.tam_pag) s.tam_pag

-- The file holds every page whole.
abbrev pub Covers : Swap → Type 0
Covers s = s.cant_pag * s.tam_pag ≤ s.archivo_swap.size

-- Writing into one page leaves the others.
pub page-write_archivo :
    (s : Swap) (i : ℕ) (bs : List ℕ) (j : ℕ)
    → Covers s
    → j < s.cant_pag
    → length bs ≤ s.tam_pag
    → i ≢ j
    → page (record s { archivo_swap = write_archivo (i * s.tam_pag) bs s.archivo_swap }) j
      ≡ page s j
unfolding page
page-write_archivo s i bs j cover inside small other =
    bytes_at-write_outside (i * s.tam_pag) bs s.archivo_swap (j * s.tam_pag) s.tam_pag
      (omega (arith, page_in j s.cant_pag s.tam_pag inside))
      (elim (pages_apart i j s.tam_pag other) [ inl h ↦ inr (omega arith) | inr h ↦ inl h ])

-- Two pages, `first` and `second`, written in each other's place.
module _ (f : Archivo) (i t : ℕ) (first second : List ℕ) (length1 : length first ≡ t)
    (length2 : length second ≡ t) (inside : (i + 1) * t + t ≤ f.size) where
  abbrev pub file1 : Archivo
  file1 = write_archivo (i * t) second f

  abbrev pub file2 : Archivo
  file2 = write_archivo ((i + 1) * t) first file1

  next_page : i * t + t ≤ (i + 1) * t
  next_page = page_in i (i + 1) t (omega arith)

  file1-size : file1.size ≡ f.size
  file1-size = write_archivo-size (i * t) second f (omega (arith, next_page))

  pub file2-size : file2.size ≡ f.size
  file2-size = write_archivo-size ((i + 1) * t) first file1 (omega (arith, file1-size)) ∙ file1-size

  pub file2_here : bytes_at file2.byte (i * t) t ≡ second
  file2_here =
      bytes_at-write_outside ((i + 1) * t) first file1 (i * t) t
        (omega (arith, file1-size, next_page)) (inl next_page)
      ∙ bytes_at_written (i * t) second f t length2

  pub file2_next : bytes_at file2.byte ((i + 1) * t) t ≡ first
  file2_next = bytes_at_written ((i + 1) * t) first file1 t length1

  pub file2_other :
      (k : ℕ)
      → i ≢ k
      → i + 1 ≢ k
      → k * t + t ≤ f.size
      → bytes_at file2.byte (k * t) t ≡ bytes_at f.byte (k * t) t
  file2_other k ne ne' h =
      bytes_at-write_outside ((i + 1) * t) first file1 (k * t) t (omega (arith, file1-size))
        (apart (i + 1) first length1 ne')
      ∙ bytes_at-write_outside (i * t) second f (k * t) t h (apart i second length2 ne)
    where
      apart :
          (j : ℕ) (bs : List ℕ)
          → length bs ≡ t
          → j ≢ k
          → (k * t + t ≤ j * t) ⊎ (j * t + length bs ≤ k * t)
      apart j bs l n = elim (pages_apart j k t n) [ inl h ↦ inr (omega arith) | inr h ↦ inl h ]
