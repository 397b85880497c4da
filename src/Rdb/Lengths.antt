-- ===== src/Rdb/Lengths.antt =====
-- The lengths of a dump file.
use mmog.Common.{
  ℕ, ◌+◌, ◌*◌, ◌/◌, ◌%◌, ◌^◌, ◌<◌, ◌≤◌, ◌≡◌, refl, ap, inl, inr, arith, false, some, List, [], ◌∷◌,
  ◌++◌, length, take, drop, ltb, Bool-cases, not_below,
}
use mmog.Rdb.{read, save_len, load_wide, load_len}

-- A 32-bit length, written in one, two or five bytes, is read back, with the bytes behind it left.
pub load_len-save_len :
    (len : ℕ) (rest : List ℕ) → len < 2 ^ 32 → load_len (save_len len ++ rest) ≡ (len, false, rest)
unfolding load_len save_len load_wide
load_len-save_len len rest h = elim (Bool-cases (ltb len (2 ^ 6))) [
  | inl small ↦
      let type : (len % 256 / 64 % 4) ≡ 0 = ground arith in
      let value : (len % 256 % 64) ≡ len = ground arith in rw (small, type, value) refl
  | inr large ↦ elim (Bool-cases (ltb len (2 ^ 14))) [
    | inl middle ↦
        let type : ((len / 256 % 256 + 1 * 64) / 64 % 4) ≡ 1 = ground arith in
        let value : ((len / 256 % 256 + 1 * 64) % 64 * 256 + len % 256) ≡ len = ground arith in
        rw (large, middle, type, value) refl
    | inr wide ↦
        let value : (len / 2 ^ 24 % 256 * 2 ^ 24
              + len / 2 ^ 16 % 256 * 2 ^ 16
              + len / 2 ^ 8 % 256 * 2 ^ 8
              + len % 256)
            ≡ len =
          omega arith in
        rw (large, wide, value) refl
  ]
]

-- The bytes of a string behind its length.
pub read-append : (s rest : List ℕ) → read (length s) (s ++ rest) ≡ some (s, rest)
unfolding read
read-append s rest =
    let enough : ltb (length (s ++ rest)) (length s) ≡ false = not_below _ _ (longer s rest) in
    rw (enough, front s rest, back s rest) refl
  where
    longer : (s rest : List ℕ) → length s ≤ length (s ++ rest)
    longer [] rest = omega arith
    longer (x ∷ s) rest = omega (arith, longer s rest)

    front : (s rest : List ℕ) → take (length s) (s ++ rest) ≡ s
    front [] rest = refl
    front (x ∷ s) rest = ap (λ l. x ∷ l) (front s rest)

    back : (s rest : List ℕ) → drop (length s) (s ++ rest) ≡ rest
    back [] rest = refl
    back (x ∷ s) rest = back s rest
