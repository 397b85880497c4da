-- ===== src/Strings/Ranges/Patches.antt =====
-- What SETRANGE writes, byte by byte, and the offsets that pass its check.
use mmog.Common.{
  ℕ, ◌+◌, ◌-◌, ◌^◌, ◌≤◌, ◌<◌, ◌≡◌, ◌∙◌, inl, inr, arith, false, some, ◌++◌, length, length-append,
  length-replicate, length-take, take, drop, replicate, get_elem?, get_elem?-take, get_elem?-drop,
  get_elem?-append, get_elem?-replicate, max, length-drop, ltb, if◌then◌else◌, pos, Bool-cases,
}
use mmog.Common.Bytes.{Bytes}
use mmog.Memory.Signed.{to_word, of_word}
use mmog.Strings.{max_size, end_of, is_too_long}
use mmog.Strings.Ranges.{patch}

-- The old string up to the offset, with zero bytes where it is shorter, the new bytes, and the old
-- string behind them.
abbrev pub IsPatched : Bytes → ℕ → Bytes → Bytes → Type 0
IsPatched old offset value r =
    (i : ℕ)
    → get_elem? r i ≡ (
        if ltb i offset
        then if ltb i (length old) then get_elem? old i else some 0
        else if ltb i (offset + length value)
        then get_elem? value (i - offset)
        else get_elem? old i)

padded :
    (old : Bytes) (offset : ℕ)
    → length (take offset (old ++ replicate (offset - length old) 0)) ≡ offset
padded old offset =
    length-take offset (old ++ replicate (offset - length old) 0)
    ∙ ground (
      arith,
      length-append old (replicate (offset - length old) 0),
      length-replicate {A = ℕ} (offset - length old) 0,
    )

pub patch-IsPatched :
    (old : Bytes) (offset : ℕ) (value : Bytes) → IsPatched old offset value (patch old offset value)
unfolding patch
patch-IsPatched old offset value i =
    let front = take offset (old ++ replicate (offset - length old) 0) in
    let back = drop (offset + length value) old in
    rw (get_elem?-append front (value ++ back) i, padded old offset)
      (elim (Bool-cases (ltb i offset)) [
        | inl before ↦ rw before (
            ground (
              arith,
              get_elem?-take offset (old ++ replicate (offset - length old) 0) i,
              get_elem?-append old (replicate (offset - length old) 0) i,
              get_elem?-replicate {A = ℕ} (offset - length old) 0 (i - length old),
            ))
        | inr behind ↦ rw behind (
            ground (
              arith,
              get_elem?-append value back (i - offset),
              get_elem?-drop (offset + length value) old (i - offset - length value),
            ))
      ])

pub length-patch :
    (old : Bytes) (offset : ℕ) (value : Bytes)
    → length (patch old offset value) ≡ max (length old) (offset + length value)
unfolding patch
length-patch old offset value = omega (
  arith,
  padded old offset,
  length-append (take offset (old ++ replicate (offset - length old) 0))
      (value ++ drop (offset + length value) old),
  length-append value (drop (offset + length value) old),
  length-drop (offset + length value) old,
)

-- The check is exact where the sum does not wrap.
pub end_of_lem :
    (offset len : ℕ) → offset + len < 2 ^ 63 → end_of (pos offset) len ≡ pos (offset + len)
unfolding end_of to_word of_word
end_of_lem offset len h = ground arith

pub end_of_wraps :
    (offset len : ℕ)
    → offset < 2 ^ 63
    → len ≤ max_size
    → 2 ^ 63 ≤ offset + len
    → is_too_long (end_of (pos offset) len) ≡ false
unfolding end_of to_word of_word is_too_long
end_of_wraps offset len h h' k = ground arith
