-- ===== src/Protocol/Resume.antt =====
-- What a call of `processMultibulkBuffer` makes of a client in the middle of a well-formed request.
use mmog.Common.{
  ℕ, suc, ◌+◌, ◌-◌, ◌*◌, ◌≤◌, ◌<◌, ◌≡◌, ◌≢◌, sym, ap, ◌∙◌, inl, inr, arith, true, false, Bool, none,
  some, List, [], ◌∷◌, ◌++◌, append_assoc, length, length-append, ltb, ◌==◌, refl, take, drop,
  get_or, pos,
}
use mmog.Common.Bytes.{Bytes}
use mmog.Numbers.{string2ll, ll2string}
use mmog.Numbers.RoundTrip.{string2ll-ll2string}
use mmog.Protocol.{
  inline_max_size, Client, Code, ok, err, read_bulklen, bulk_loop, finish, check_multibulklen,
  process_multibulk_buffer,
}
use mmog.Protocol.Encode.{crlf, line, arguments, request}
use mmog.Protocol.Lines.{Plain, ll2string-Plain, Line, split-Line, take_front, drop_front}
use mmog.Protocol.Rounds.{reading}
use mmog.Protocol.Expects.{Stopped, bulk_loop-Stopped, known_step}

-- The client holds the start of the request for `argv`; the rest of it, and the bytes `tail` behind
-- it, are still to come in `future`.
pub data Expects (future : Bytes) (argv : List Bytes) (tail : Bytes) : Client → Type 0 where
  at_header :
      (s : Bytes)
      → s ++ future ≡ request argv ++ tail
      → Expects future argv tail (reading s [] 0 none)
  at_line :
      (s o : Bytes) (todo done : List Bytes)
      → done ++ (o ∷ todo) ≡ argv
      → s ++ future ≡ arguments (o ∷ todo) ++ tail
      → length (arguments (o ∷ todo)) ≤ inline_max_size
      → Expects future argv tail (reading s done (suc (length todo)) none)
  at_body :
      (s o : Bytes) (todo done : List Bytes)
      → done ++ (o ∷ todo) ≡ argv
      → s ++ future ≡ o ++ (crlf ++ (arguments todo ++ tail))
      → length o + 2 + length (arguments todo) ≤ inline_max_size
      → Expects future argv tail (reading s done (suc (length todo)) (some (length o)))

-- The result for a buffer of `n` bytes.
pub data Parsed (future : Bytes) (argv : List Bytes) (tail : Bytes) (n : ℕ)
    : Code × Client → Type 0 where
  whole :
      (s : Bytes)
      → s ++ future ≡ tail
      → length s < n
      → Parsed future argv tail n (ok, reading s argv 0 none)
  partial :
      (c : Client) → Expects future argv tail c → future ≢ [] → Parsed future argv tail n (err, c)

finish-Parsed :
    (argv : List Bytes) (future tail : Bytes) (n : ℕ) (r : Bool × ℕ × Client)
    → length tail < n + length future
    → Stopped argv future tail r
    → Parsed future argv tail n (finish r)
unfolding finish
finish-Parsed argv future tail n _ more (Stopped.complete pre s e) =
    rw (drop_front pre s) (whole s e (omega (arith, ap length e, length-append s future)))
finish-Parsed argv future tail n _ more (Stopped.in_line pre s o todo done e f bound ne) =
    let some_left : (suc (length todo) == 0) ≡ false = ground arith in
    rw (some_left, drop_front pre s) (partial _ (at_line s o todo done e f bound) ne)
finish-Parsed argv future tail n _ more (Stopped.in_body pre s o todo done e f bound ne) =
    let some_left : (suc (length todo) == 0) ≡ false = ground arith in
    rw (some_left, drop_front pre s) (partial _ (at_body s o todo done e f bound) ne)

pub length-arguments : (argv : List Bytes) → length argv ≤ length (arguments argv)
unfolding arguments line
length-arguments [] = omega arith
length-arguments (o ∷ argv) = omega (
  arith,
  length-arguments argv,
  length-append (line b'$' (length o)) (o ++ (crlf ++ arguments argv)),
  length-append o (crlf ++ arguments argv),
)

pub line_pos : (first n : ℕ) → 0 < length (line first n)
unfolding line
line_pos first n = omega arith

module _ (future : Bytes) (argv : List Bytes) (tail : Bytes) where
  -- The line with the number of arguments is there.
  counted :
      (s : Bytes)
      → argv ≢ []
      → length (request argv) ≤ inline_max_size
      → s ++ future ≡ arguments argv ++ tail
      → Parsed future argv tail (length (line b'*' (length argv) ++ s)) (
          check_multibulklen
            (some (pos (length argv)))
            (length (line b'*' (length argv)))
            (reading (line b'*' (length argv) ++ s) [] 0 none))
  unfolding check_multibulklen request
  counted s ne bound e =
      let sizes = length-append (line b'*' (length argv)) (arguments argv) in
      let few : ltb (1024 * 1024) (length argv) ≡ false = ground (arith, length-arguments argv) in
      let some_args : (length argv == 0) ≡ false = nonempty_length argv ne in
      let shorter : length tail < length (line b'*' (length argv) ++ s) + length future = omega (
        arith,
        ap length e,
        length-append s future,
        length-append (arguments argv) tail,
        length-append (line b'*' (length argv)) s,
        line_pos b'*' (length argv),
      ) in
      rw (few, some_args)
        (finish-Parsed argv future tail (length (line b'*' (length argv) ++ s)) _ shorter (
          bulk_loop-Stopped argv argv [] (line b'*' (length argv)) s future tail refl e
            (omega arith)))
    where
      nonempty_length : (l : List Bytes) → l ≢ [] → (length l == 0) ≡ false
      nonempty_length [] h = absurd (h refl)
      nonempty_length (x ∷ l) h = ground arith

  digits : Bytes
  digits = ll2string 31 (pos (length argv))

  text : Bytes
  text = b'*' ∷ digits

  from_header :
      (s : Bytes)
      → argv ≢ []
      → length (request argv) ≤ inline_max_size
      → s ++ future ≡ request argv ++ tail
      → Parsed future argv tail (length s) (process_multibulk_buffer (reading s [] 0 none))
  unfolding process_multibulk_buffer text digits
  from_header s ne bound e =
      let sizes : length (request argv)
          ≡ length (line b'*' (length argv)) + length (arguments argv) =
        unfold request in length-append (line b'*' (length argv)) (arguments argv) in
      let few : length argv ≤ inline_max_size = omega (arith, length-arguments argv) in
      let plain : Plain text = (omega arith, ll2string-Plain (length argv) (omega arith)) in
      let behind : request argv ++ tail ≡ text ++ (crlf ++ (arguments argv ++ tail)) =
        unfold request line in
        append_assoc (text ++ crlf) (arguments argv) tail
        ∙ append_assoc text crlf (arguments argv ++ tail) in
      let width : length text + 2 ≤ length (request argv) =
        unfold request line in
        omega (arith, length-append (text ++ crlf) (arguments argv), length-append text crlf) in
      elim (split-Line text s future (arguments argv ++ tail) plain (e ∙ behind)) [
        | Line.short lt (inl missing) more ↦
            let fits : ltb inline_max_size (length s) ≡ false = ground arith in
            rw (missing, fits) (partial _ (at_header s e) more)
        | Line.short lt (inr found) more ↦
            let no_newline : ltb (length s) (length text + 2) ≡ true = ground arith in
            rw (found, no_newline) (partial _ (at_header s e) more)
        | Line.whole rest eq f found ↦
            let size : length s ≡ length text + (2 + length rest) =
              omega (arith, ap length eq, length-append text (crlf ++ rest)) in
            let newline : ltb (length s) (length text + 2) ≡ false = ground arith in
            let parsed : string2ll (take (length text - 1) (drop 1 s)) ≡ some (pos (length argv)) =
              ap (λ (t : Bytes). string2ll (take (length text - 1) (drop 1 t))) eq
              ∙ ap (λ (k : ℕ). string2ll (take k (digits ++ (crlf ++ rest)))) (omega arith)
              ∙ ap string2ll (take_front digits (crlf ++ rest))
              ∙ string2ll-ll2string 31 (pos (length argv)) (omega arith, omega arith)
                  (omega arith) in
            let star : get_or s 0 0 ≡ b'*' = ap (λ (t : Bytes). get_or t 0 0) eq in
            let whole_line : s ≡ line b'*' (length argv) ++ rest =
              unfold line in eq ∙ sym (append_assoc text crlf rest) in
            let at : length text + 2 ≡ length (line b'*' (length argv)) =
              unfold line in sym (length-append text crlf) in
            rw (found, newline, star, parsed, at, whole_line) (counted rest ne bound f)
      ]

  from_line :
      (s o : Bytes) (todo done : List Bytes)
      → done ++ (o ∷ todo) ≡ argv
      → s ++ future ≡ arguments (o ∷ todo) ++ tail
      → length (arguments (o ∷ todo)) ≤ inline_max_size
      → Parsed future argv tail
          (length s)
          (process_multibulk_buffer (reading s done (suc (length todo)) none))
  unfolding process_multibulk_buffer
  from_line s o todo done e f small =
      let started : (suc (length todo) == 0) ≡ false = ground arith in
      let shorter : length tail < length s + length future = omega (
        arith,
        ap length f,
        length-append s future,
        length-append (arguments (o ∷ todo)) tail,
        length-arguments (o ∷ todo),
      ) in
      rw started (
        finish-Parsed argv future tail (length s) _ shorter
          (bulk_loop-Stopped argv (o ∷ todo) done [] s future tail e f (omega arith)))

  from_body :
      (s o : Bytes) (todo done : List Bytes)
      → done ++ (o ∷ todo) ≡ argv
      → s ++ future ≡ o ++ (crlf ++ (arguments todo ++ tail))
      → length o + 2 + length (arguments todo) ≤ inline_max_size
      → Parsed future argv tail
          (length s)
          (process_multibulk_buffer (reading s done (suc (length todo)) (some (length o))))
  unfolding process_multibulk_buffer bulk_loop read_bulklen
  from_body s o todo done e f small =
      let started : (suc (length todo) == 0) ≡ false = ground arith in
      let shorter : length tail < length s + length future = omega (
        arith,
        ap length f,
        length-append s future,
        length-append o (crlf ++ (arguments todo ++ tail)),
        length-append (arguments todo) tail,
      ) in
      rw started (
        finish-Parsed argv future tail (length s) _ shorter (
          known_step argv done o todo [] s future tail (some (length o)) e f (omega arith)
            (λ pre' s' g h.
              bulk_loop-Stopped argv todo (done ++ (o ∷ [])) pre' s' future tail
                (append_assoc done (o ∷ []) todo ∙ e) g h)))

  -- A call with more bytes in the buffer than the last one left there, or the first one.
  pub process_multibulk_buffer-Parsed :
      (c : Client)
      → argv ≢ []
      → length (request argv) ≤ inline_max_size
      → Expects future argv tail c
      → Parsed future argv tail (length c.querybuf) (process_multibulk_buffer c)
  process_multibulk_buffer-Parsed _ ne bound (at_header s e) = from_header s ne bound e
  process_multibulk_buffer-Parsed _ ne bound (at_line s o todo done e f small) =
      from_line s o todo done e f small
  process_multibulk_buffer-Parsed _ ne bound (at_body s o todo done e f small) =
      from_body s o todo done e f small
