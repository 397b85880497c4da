-- ===== src/Protocol/Expects.antt =====
-- The states between two calls of `processMultibulkBuffer`, while a peer sends well-formed requests.
use mmog.Common.{
  ℕ, suc, ◌+◌, ◌≤◌, ◌≡◌, ◌≢◌, sym, ap, ◌∙◌, arith, Bool, true, false, Option, none, some, List, [],
  ◌∷◌, ◌++◌, append_assoc, append-nil, length, length-append, ltb,
}
use mmog.Common.Bytes.{Bytes}
use mmog.Protocol.{inline_max_size, Client, Header, read_argument, bulk_loop}
use mmog.Protocol.Encode.{crlf, line, arguments}
use mmog.Protocol.Rounds.{reading, LineRead, read_bulklen-LineRead, ArgumentRead, read-ArgumentRead}

-- Where the loop stops: at the end of the request, or in the middle, waiting for more bytes.
pub data Stopped (argv : List Bytes) (future tail : Bytes) : Bool × ℕ × Client → Type 0 where
  complete :
      (pre s : Bytes)
      → s ++ future ≡ tail
      → Stopped argv future tail (false, length pre, reading (pre ++ s) argv 0 none)
  in_line :
      (pre s o : Bytes) (todo done : List Bytes)
      → done ++ (o ∷ todo) ≡ argv
      → s ++ future ≡ arguments (o ∷ todo) ++ tail
      → length (arguments (o ∷ todo)) ≤ inline_max_size
      → future ≢ []
      → Stopped argv future tail
          (false, length pre, reading (pre ++ s) done (suc (length todo)) none)
  in_body :
      (pre s o : Bytes) (todo done : List Bytes)
      → done ++ (o ∷ todo) ≡ argv
      → s ++ future ≡ o ++ (crlf ++ (arguments todo ++ tail))
      → length o + 2 + length (arguments todo) ≤ inline_max_size
      → future ≢ []
      → Stopped argv future tail
          (false, length pre, reading (pre ++ s) done (suc (length todo)) (some (length o)))

-- A round once the length is known, with the rounds after it.
pub known_step :
    (argv done : List Bytes) (o : Bytes) (todo : List Bytes) (pre s future tail : Bytes)
    (b : Option ℕ)
    → done ++ (o ∷ todo) ≡ argv
    → s ++ future ≡ o ++ (crlf ++ (arguments todo ++ tail))
    → length pre + (length o + 2) + length (arguments todo) ≤ inline_max_size
    → ((pre' s' : Bytes)
        → s' ++ future ≡ arguments todo ++ tail
        → length pre' + length (arguments todo) ≤ inline_max_size
        → Stopped argv future tail (
            bulk_loop
              (length todo)
              (length pre')
              (reading (pre' ++ s') (done ++ (o ∷ [])) (length todo) none)))
    → Stopped argv future tail (elim (ltb (length (pre ++ s)) (length pre + (length o + 2))) [
      | true ↦ (false, length pre, reading (pre ++ s) done (suc (length todo)) (some (length o)))
      | false ↦
          bulk_loop
            (length todo)
            (read_argument
              (length o)
              (length pre)
              (reading (pre ++ s) done (suc (length todo)) b)).0
            (read_argument
              (length o)
              (length pre)
              (reading (pre ++ s) done (suc (length todo)) b)).1
    ])
known_step argv done o todo pre s future tail b e f bound next =
    elim (read-ArgumentRead o pre s future (arguments todo ++ tail) done (length todo) f) [
      | ArgumentRead.part_read ne short ↦ rw short (in_body pre s o todo done e f (omega arith) ne)
      | ArgumentRead.all_read pre' rest g shorter enough got ↦
          rw (enough, got b) (next pre' rest g (omega arith))
    ]

pub bulk_loop-Stopped :
    (argv todo done : List Bytes) (pre s future tail : Bytes)
    → done ++ todo ≡ argv
    → s ++ future ≡ arguments todo ++ tail
    → length pre + length (arguments todo) ≤ inline_max_size
    → Stopped argv future tail
        (bulk_loop (length todo) (length pre) (reading (pre ++ s) done (length todo) none))
unfolding bulk_loop arguments
bulk_loop-Stopped argv [] done pre s future tail e f bound =
    rw (sym e, append-nil done) (complete pre s f)
bulk_loop-Stopped argv (o ∷ todo) done pre s future tail e f bound =
    let parts : arguments (o ∷ todo) ++ tail
        ≡ line b'$' (length o) ++ (o ++ (crlf ++ (arguments todo ++ tail))) =
      append_assoc (line b'$' (length o)) (o ++ (crlf ++ arguments todo)) tail
      ∙ ap (λ t. line b'$' (length o) ++ t) (append_assoc o (crlf ++ arguments todo) tail) in
    let size : length (arguments (o ∷ todo))
        ≡ length (line b'$' (length o)) + (length o + 2 + length (arguments todo)) =
      omega (
        arith,
        length-append (line b'$' (length o)) (o ++ (crlf ++ arguments todo)),
        length-append o (crlf ++ arguments todo),
      ) in
    by_line _
      (read_bulklen-LineRead (length o) pre s future (o ++ (crlf ++ (arguments todo ++ tail))) done
        (suc (length todo)) (omega arith) (omega arith) (f ∙ parts))
      size
      (λ pre' s' g h.
        bulk_loop-Stopped argv todo (done ++ (o ∷ [])) pre' s' future tail
          (append_assoc done (o ∷ []) todo ∙ e) g h)
  where
    by_line :
        (h : Header)
        → LineRead
            (length o)
            pre
            s
            future
            (o ++ (crlf ++ (arguments todo ++ tail)))
            done
            (suc (length todo))
            h
        → length (arguments (o ∷ todo))
          ≡ length (line b'$' (length o)) + (length o + 2 + length (arguments todo))
        → ((pre' s' : Bytes)
            → s' ++ future ≡ arguments todo ++ tail
            → length pre' + length (arguments todo) ≤ inline_max_size
            → Stopped argv future tail (
                bulk_loop
                  (length todo)
                  (length pre')
                  (reading (pre' ++ s') (done ++ (o ∷ [])) (length todo) none)))
        → Stopped argv future tail (elim h [
          | Header.waits d ↦ (false, length pre, d)
          | Header.fails d ↦ (true, length pre, d)
          | Header.known n p d ↦ elim (ltb (length d.querybuf) (p + (n + 2))) [
            | true ↦ (false, p, record d { bulklen = some n })
            | false ↦ bulk_loop (length todo) (read_argument n p d).0 (read_argument n p d).1
          ]
        ])
    by_line _ (LineRead.line_waits ne) size next = in_line pre s o todo done e f (omega arith) ne
    by_line _ (LineRead.line_known pre' rest g shorter) size next =
        known_step argv done o todo pre' rest future tail none e g (omega arith) next
