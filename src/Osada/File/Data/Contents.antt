-- ===== src/Osada/File/Data/Contents.antt =====
-- The contents of a file as one list of bytes.
use so_unoficial.Prelude.{
  ℕ, suc, ◌+◌, ◌-◌, ◌*◌, ◌≤◌, ◌<◌, ◌≡◌, refl, ap, ◌∙◌, List, [], ◌∷◌, ◌++◌, length, take, drop,
  arith, length-append, take-append_both, drop-append_both, drop-length, length-drop,
}

-- The blocks one behind the other.
unfoldable pub file_bytes : (ℕ → List ℕ) → List ℕ → List ℕ
file_bytes blocks [] = []
file_bytes blocks (b ∷ bs) = blocks b ++ file_bytes blocks bs

-- Each of the blocks is a data block, and has 64 bytes.
abbrev pub AreBlocks : (ℕ → List ℕ) → ℕ → List ℕ → Type 0
AreBlocks blocks n [] = Unit
AreBlocks blocks n (b ∷ bs) = (b < n) × (length (blocks b) ≡ 64) × AreBlocks blocks n bs

pub length-file_bytes :
    (blocks : ℕ → List ℕ) (n : ℕ) (bs : List ℕ)
    → AreBlocks blocks n bs
    → length (file_bytes blocks bs) ≡ 64 * length bs
unfolding file_bytes
length-file_bytes blocks n [] h = refl
length-file_bytes blocks n (b ∷ bs) h =
    omega (
      arith,
      length-append (blocks b) (file_bytes blocks bs),
      length-file_bytes blocks n bs h.2,
      h.1,
    )

pub AreBlocks-right :
    (blocks : ℕ → List ℕ) (n : ℕ) (xs ys : List ℕ)
    → AreBlocks blocks n (xs ++ ys)
    → AreBlocks blocks n xs × AreBlocks blocks n ys
AreBlocks-right blocks n [] ys h = (tt, h)
AreBlocks-right blocks n (x ∷ xs) ys h =
    let (l, r) = AreBlocks-right blocks n xs ys h.2 in ((h.0, h.1, l), r)

-- What lies behind whole blocks.
pub drop-file_bytes :
    (blocks : ℕ → List ℕ) (n : ℕ) (xs ys : List ℕ) (k : ℕ)
    → AreBlocks blocks n xs
    → drop (64 * length xs + k) (file_bytes blocks (xs ++ ys)) ≡ drop k (file_bytes blocks ys)
unfolding file_bytes
drop-file_bytes blocks n [] ys k h = ap (λ i. drop i (file_bytes blocks ys)) (omega arith)
drop-file_bytes blocks n (x ∷ xs) ys k h =
    rw
      (
        drop-append_both (64 * suc (length xs) + k) (blocks x) (file_bytes blocks (xs ++ ys)),
        drop-length (64 * suc (length xs) + k) (blocks x) (omega (arith, h.1)),
      )
      (ap (λ i. drop i (file_bytes blocks (xs ++ ys))) (omega (arith, h.1))
        ∙ drop-file_bytes blocks n xs ys k h.2)

-- The first bytes of a list whose first block has 64 of them.
pub take_step :
    (need : ℕ) (block rest : List ℕ)
    → length block ≡ 64
    → take need (block ++ rest) ≡ take need block ++ take (need - 64) rest
take_step need block rest h =
    take-append_both need block rest ∙ ap (λ k. take need block ++ take (need - k) rest) h

-- The same from an offset in the first block.
pub slice_step :
    (offset need : ℕ) (block rest : List ℕ)
    → length block ≡ 64
    → offset ≤ 64
    → take need (drop offset (block ++ rest))
      ≡ take need (drop offset block) ++ take (need - (64 - offset)) rest
slice_step offset need block rest h small =
    let gap : offset - length block ≡ 0 = omega arith in
    let left : length (drop offset block) ≡ 64 - offset =
      omega (arith, length-drop offset block, h) in
    let none_left : drop (offset - length block) rest ≡ rest = ap (λ i. drop i rest) (gap) in
    rw
      (
        drop-append_both offset block rest,
        none_left,
        take-append_both need (drop offset block) rest,
      )
      (ap (λ k. take need (drop offset block) ++ take (need - k) rest) left)
