-- ===== src/Protocol/Rounds.antt =====
-- One round of the loop of `processMultibulkBuffer`: the line of an argument, and its bytes.
use mmog.Common.{
  ℕ, suc, ◌+◌, ◌-◌, ◌*◌, ◌≤◌, ◌≡◌, ◌≢◌, refl, sym, ap, ap₂, ◌∙◌, inl, inr, arith, true, false, ◌&&◌,
  Option, none, some, List, [], ◌∷◌, ◌++◌, append_assoc, length, length-append, take, drop, get_or,
  ltb, leb, ◌==◌, Bool-cases, pos,
}
use mmog.Common.Bytes.{Bytes}
use mmog.Numbers.{string2ll, ll2string}
use mmog.Numbers.RoundTrip.{string2ll-ll2string}
use mmog.Protocol.{
  inline_max_size, mbulk_big_arg, Request, Client, Header, find_cr, check_bulklen, read_bulklen,
  read_argument,
}
use mmog.Protocol.Encode.{crlf, line}
use mmog.Protocol.Lines.{
  Plain, ll2string-Plain, Line, split-Line, Body, split-Body, take_front, drop_front,
}

-- A client in the middle of a request, with nothing wrong so far.
abbrev pub reading : Bytes → List Bytes → ℕ → Option ℕ → Client
reading buf argv m n = record {
  querybuf = buf;
  argv = argv;
  multibulklen = m;
  bulklen = n;
  reqtype = some Request.multibulk;
  close_after_reply = false;
  blocked = false;
  errors = [];
}

-- Reading the line of an argument of `n` bytes, with `pre` behind and `more` to come.
pub data LineRead (n : ℕ) (pre s future more : Bytes) (argv : List Bytes) (m : ℕ)
    : Header → Type 0 where
  line_waits :
      future ≢ []
      → LineRead n pre s future more argv m (Header.waits (reading (pre ++ s) argv m none))
  line_known :
      (pre' rest : Bytes)
      → rest ++ future ≡ more
      → length pre' ≤ length pre + length (line b'$' n)
      → LineRead n pre s future more argv m
          (Header.known n (length pre') (reading (pre' ++ rest) argv m none))

module _ (n : ℕ) (pre s future more : Bytes) (argv : List Bytes) (m : ℕ) where
  digits : Bytes
  digits = ll2string 31 (pos n)

  text : Bytes
  text = b'$' ∷ digits

  checked :
      (rest : Bytes)
      → n ≤ inline_max_size
      → rest ++ future ≡ more
      → s ≡ text ++ (crlf ++ rest)
      → LineRead n pre s future more argv m (
          check_bulklen
            (some (pos n))
            (length pre)
            (length pre + length text + 2)
            (reading (pre ++ s) argv m none))
  unfolding text digits line check_bulklen
  checked rest small f eq =
      let ok_size : ltb (512 * 1024 * 1024) n ≡ false = ground arith in
      let whole : pre ++ s ≡ (pre ++ (text ++ crlf)) ++ rest =
        ap (λ t. pre ++ t) (eq ∙ sym (append_assoc text crlf rest))
        ∙ sym (append_assoc pre (text ++ crlf) rest) in
      let size : length (pre ++ (text ++ crlf)) ≡ length pre + length text + 2 =
        length-append pre (text ++ crlf) ∙ omega (arith, length-append text crlf) in
      let room : length (pre ++ (text ++ crlf)) ≤ length pre + length (line b'$' n) =
        omega (arith, length-append pre (text ++ crlf)) in
      elim (Bool-cases (leb mbulk_big_arg n)) [
        | inl big ↦
            let left : drop (length pre + length text + 2) (pre ++ s) ≡ rest =
              ap₂ drop (sym size) whole ∙ drop_front (pre ++ (text ++ crlf)) rest in
            rw (ok_size, big, left) (line_known [] rest f (omega arith))
        | inr small_arg ↦
            rw (ok_size, small_arg, whole, sym size)
              (line_known (pre ++ (text ++ crlf)) rest f room)
      ]

  -- The line of an argument of a request that is not too long for the buffer.
  pub read_bulklen-LineRead :
      n ≤ inline_max_size
      → length pre + length (line b'$' n) ≤ inline_max_size
      → s ++ future ≡ line b'$' n ++ more
      → LineRead n pre s future more argv m
          (read_bulklen (length pre) (reading (pre ++ s) argv m none))
  unfolding read_bulklen text digits line
  read_bulklen-LineRead small bound e =
      let plain : Plain text = (omega arith, ll2string-Plain n (omega arith)) in
      let width : length (line b'$' n) ≡ length text + 2 = length-append text crlf in
      let size = length-append pre s in
      let at_start = ap find_cr (drop_front pre s) in
      elim (split-Line text s future more plain (e ∙ append_assoc text crlf more)) [
        | Line.short lt (inl missing) ne ↦
            let fits : ltb inline_max_size (length (pre ++ s)) ≡ false = ground arith in
            rw (at_start ∙ missing, read_bulklen, fits) (line_waits ne)
        | Line.short lt (inr found) ne ↦
            let no_newline : ltb (length (pre ++ s)) (length pre + length text + 2) ≡ true =
              ground arith in
            rw (at_start ∙ found, read_bulklen, no_newline) (line_waits ne)
        | Line.whole rest eq f found ↦
            let size' : length s ≡ length text + (2 + length rest) =
              omega (arith, ap length eq, length-append text (crlf ++ rest)) in
            let newline : ltb (length (pre ++ s)) (length pre + length text + 2) ≡ false =
              ground arith in
            let parsed : string2ll (take (length text - 1) (drop 1 s)) ≡ some (pos n) =
              ap (λ (t : Bytes). string2ll (take (length text - 1) (drop 1 t))) eq
              ∙ ap (λ (k : ℕ). string2ll (take k (digits ++ (crlf ++ rest)))) (omega arith)
              ∙ ap string2ll (take_front digits (crlf ++ rest))
              ∙ string2ll-ll2string 31 (pos n) (omega arith, omega arith) (omega arith) in
            let dollar : get_or s 0 0 ≡ b'$' = ap (λ (t : Bytes). get_or t 0 0) eq in
            rw (at_start ∙ found, read_bulklen, newline, drop_front pre s, dollar, parsed)
              (checked rest small f eq)
      ]

-- The bytes of an argument: more are needed, or it is read and the loop goes on.
pub data ArgumentRead (o pre s future more : Bytes) (argv : List Bytes) (m : ℕ) : Type 0 where
  part_read :
      future ≢ []
      → ltb (length (pre ++ s)) (length pre + (length o + 2)) ≡ true
      → ArgumentRead o pre s future more argv m
  all_read :
      (pre' rest : Bytes)
      → rest ++ future ≡ more
      → length pre' ≤ length pre + (length o + 2)
      → ltb (length (pre ++ s)) (length pre + (length o + 2)) ≡ false
      → ((b : Option ℕ)
          → read_argument (length o) (length pre) (reading (pre ++ s) argv (suc m) b)
            ≡ (length pre', reading (pre' ++ rest) (argv ++ (o ∷ [])) m none))
      → ArgumentRead o pre s future more argv m

module _ (o pre s future more : Bytes) (argv : List Bytes) (m : ℕ) where
  read_all :
      (rest : Bytes)
      → rest ++ future ≡ more
      → s ≡ o ++ (crlf ++ rest)
      → ArgumentRead o pre s future more argv m
  unfolding read_argument
  read_all rest f eq =
      let size : length s ≡ length o + (2 + length rest) =
        omega (arith, ap length eq, length-append o (crlf ++ rest)) in
      let enough : ltb (length (pre ++ s)) (length pre + (length o + 2)) ≡ false =
        ground (arith, length-append pre s) in
      let one_less : suc m - 1 ≡ m = omega arith in
      elim (Bool-cases
        (length pre == 0 && (leb mbulk_big_arg (length o) && length (pre ++ s) == length o + 2))) [
          | inl alone ↦
              let no_rest : length rest ≡ 0 = ground (arith, length-append pre s) in
              let no_pre : length pre ≡ 0 = ground arith in
              let nothing : [] ++ future ≡ more =
                ap (λ t. t ++ future) (sym (no_bytes rest no_rest)) ∙ f in
              let argument : take (length o) (pre ++ s) ≡ o =
                ap (λ t. take (length o) (t ++ s)) (no_bytes pre no_pre)
                ∙ ap (take (length o)) eq
                ∙ take_front o (crlf ++ rest) in
              all_read [] [] nothing (omega arith) enough (λ b. rw (alone, argument, one_less) refl)
          | inr shared ↦
              let whole : pre ++ s ≡ (pre ++ (o ++ crlf)) ++ rest =
                ap (λ t. pre ++ t) (eq ∙ sym (append_assoc o crlf rest))
                ∙ sym (append_assoc pre (o ++ crlf) rest) in
              let width : length (pre ++ (o ++ crlf)) ≡ length pre + (length o + 2) =
                length-append pre (o ++ crlf) ∙ omega (arith, length-append o crlf) in
              let argument : take (length o) (drop (length pre) (pre ++ s)) ≡ o =
                ap (take (length o)) (drop_front pre s ∙ eq) ∙ take_front o (crlf ++ rest) in
              all_read (pre ++ (o ++ crlf)) rest f (omega arith) enough
                (λ b. rw (shared, argument, one_less, sym width, sym whole) refl)
        ]
    where
      no_bytes : (t : Bytes) → length t ≡ 0 → t ≡ []
      no_bytes [] e = refl
      no_bytes (x ∷ t) e = absurd (omega arith)

  pub read-ArgumentRead :
      s ++ future ≡ o ++ (crlf ++ more) → ArgumentRead o pre s future more argv m
  read-ArgumentRead e =
      elim (split-Body (o ++ crlf) s future more (e ∙ sym (append_assoc o crlf more))) [
        | Body.all rest eq f ↦ read_all rest f (eq ∙ append_assoc o crlf rest)
        | Body.part lt ne ↦ part_read ne (ground (arith, length-append pre s, length-append o crlf))
      ]
