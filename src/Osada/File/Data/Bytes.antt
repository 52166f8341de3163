-- ===== src/Osada/File/Data/Bytes.antt =====
-- Writing into a list of bytes.
use so_unoficial.Prelude.{
  overwrite, ℕ, ◌+◌, ◌-◌, ◌≤◌, ◌≡◌, refl, sym, ap, ◌∙◌, List, [], ◌++◌, length, take, drop, arith,
  length-append, length-take, length-drop, take-append, take-append_both, drop-append_both,
  take_all, drop-length, take-drop,
}
use mathlib.Core.List.{append-nil, append_assoc}
use so_unoficial.Osada.File.Data.{splice}

-- `memcpy` into the second part of two.
drop_behind : {A : Type 0} (n : ℕ) (xs ys : List A) → n ≡ length xs → drop n (xs ++ ys) ≡ ys
drop_behind n xs ys e =
    let none_left : n - length xs ≡ 0 = omega arith in
    rw (drop-append_both n xs ys, drop-length n xs (omega arith), none_left) refl

pub length-splice :
    (offset : ℕ) (bytes block : List ℕ)
    → offset + length bytes ≤ length block
    → length (splice offset bytes block) ≡ length block
unfolding splice overwrite
length-splice offset bytes block h = omega (
  arith,
  length-append (take offset block) (bytes ++ drop (length bytes) (drop offset block)),
  length-append bytes (drop (length bytes) (drop offset block)),
  length-take offset block,
  length-drop (length bytes) (drop offset block),
  length-drop offset block,
)

pub splice_nothing : (offset : ℕ) (block : List ℕ) → splice offset [] block ≡ block
unfolding splice overwrite
splice_nothing offset block = take-drop offset block

-- The bytes all lie in the first block.
pub splice_first :
    (offset : ℕ) (bytes block rest : List ℕ)
    → offset + length bytes ≤ length block
    → splice offset bytes (block ++ rest) ≡ splice offset bytes block ++ rest
unfolding splice overwrite
splice_first offset bytes block rest h =
    let gap : offset - length block ≡ 0 = omega arith in
    let gap' : length bytes - length (drop offset block) ≡ 0 =
      omega (arith, length-drop offset block) in
    rw
      (
        take-append_both offset block rest,
        drop-append_both offset block rest,
        gap,
        drop-append_both (length bytes) (drop offset block) rest,
        gap',
        append-nil (take offset block),
      )
      (sym (
        append_assoc (take offset block) (bytes ++ drop (length bytes) (drop offset block)) rest
        ∙ ap (λ l. take offset block ++ l)
            (append_assoc bytes (drop (length bytes) (drop offset block)) rest)))

-- The bytes fill the first block and go on in the rest.
pub splice_more :
    (offset n : ℕ) (bytes block rest : List ℕ)
    → n + offset ≡ length block
    → n ≤ length bytes
    → splice offset bytes (block ++ rest)
      ≡ splice offset (take n bytes) block ++ splice 0 (drop n bytes) rest
unfolding splice overwrite
splice_more offset n bytes block rest h k =
    let gap : offset - length block ≡ 0 = omega arith in
    let left : length bytes - length (drop offset block) ≡ length (drop n bytes) =
      omega (arith, length-drop offset block, length-drop n bytes) in
    rw
      (
        take-append_both offset block rest,
        drop-append_both offset block rest,
        gap,
        drop-append_both (length bytes) (drop offset block) rest,
        left,
        append-nil (take offset block),
        drop-length (length bytes) (drop offset block) (omega (arith, length-drop offset block)),
        drop-length (length (take n bytes)) (drop offset block)
            (omega (arith, length-drop offset block, length-take n bytes)),
        append-nil (take n bytes),
      )
      (sym (
        append_assoc (take offset block) (take n bytes)
          (drop n bytes ++ drop (length (drop n bytes)) rest)
        ∙ ap (λ l. take offset block ++ l)
            (sym (append_assoc (take n bytes) (drop n bytes) (drop (length (drop n bytes)) rest))
              ∙ ap (λ l. l ++ drop (length (drop n bytes)) rest) (take-drop n bytes))))

-- The bytes all lie behind the first block.
pub splice_behind :
    (offset k : ℕ) (bytes block rest : List ℕ)
    → k ≡ length block + offset
    → splice k bytes (block ++ rest) ≡ block ++ splice offset bytes rest
unfolding splice overwrite
splice_behind offset k bytes block rest h =
    let gap : k - length block ≡ offset = omega arith in
    rw
      (
        take-append_both k block rest,
        drop-append_both k block rest,
        gap,
        take_all k block (omega arith),
        drop-length k block (omega arith),
      )
      (append_assoc block (take offset rest) (bytes ++ drop (length bytes) (drop offset rest)))

-- The bytes that were written are read back.
pub slice_splice :
    (offset : ℕ) (bytes old : List ℕ)
    → offset ≤ length old
    → take (length bytes) (drop offset (splice offset bytes old)) ≡ bytes
unfolding splice overwrite
slice_splice offset bytes old h =
    rw
      (drop_behind offset (take offset old) (bytes ++ drop (length bytes) (drop offset old))
        (omega (arith, length-take offset old)))
      (take-append bytes (drop (length bytes) (drop offset old)))
