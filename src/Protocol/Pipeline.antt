-- ===== src/Protocol/Pipeline.antt =====
-- A peer that sends well-formed requests: each of them is executed, once and in order, wherever the
-- reads cut the stream of bytes.
use mmog.Common.{
  ℕ, suc, zero, ◌+◌, ◌≤◌, ◌<◌, ◌≡◌, ◌≢◌, sym, ap, subst, ◌∙◌, inl, inr, arith, true, false, Bool,
  none, some, List, [], ◌∷◌, ◌++◌, length, length-append, ◌==◌, refl, Bool-cases, if◌then◌else◌,
}
use mmog.Common.Bytes.{Bytes}
use mmog.Protocol.{
  inline_max_size, Request, Client, Code, ok, err, assertion_failed, process_multibulk_buffer,
  reset_client,
}
use mmog.Protocol.Encode.{line, crlf, arguments, request, requests}
use mmog.Protocol.Lines.{cons_inv}
use mmog.Protocol.Rounds.{reading}
use mmog.Protocol.Resume.{
  Expects, at_header, at_line, at_body, Parsed, whole, partial, process_multibulk_buffer-Parsed,
  length-arguments,
}
use mmog.Protocol.Input.{request_type, parse, execute, input_loop}

-- Requests that have arguments and fit the buffer that the server searches for a line's end.
abbrev pub Small : List (List Bytes) → Type 0
Small [] = Unit
Small (argv ∷ commands) = (argv ≢ []) × (length (request argv) ≤ inline_max_size) × Small commands

-- A client between two requests.
abbrev pub idle : Bytes → Client
idle s = record {
  querybuf = s;
  argv = [];
  multibulklen = 0;
  bulklen = none;
  reqtype = none;
  close_after_reply = false;
  blocked = false;
  errors = [];
}

-- The requests in `queue` are still to be executed, and `future` is still to arrive.
pub data Waiting (future : Bytes) (queue : List (List Bytes)) : Client → Type 0 where
  free : (s : Bytes) → s ++ future ≡ requests queue → Waiting future queue (idle s)
  busy :
      (c : Client) (argv : List Bytes) (rest : List (List Bytes))
      → queue ≡ argv ∷ rest
      → Expects future argv (requests rest) c
      → Waiting future queue c

-- A round of the loop that finds bytes in the buffer.
record Started (future : Bytes) (queue : List (List Bytes)) (c : Client) : Type 0 where
  pub argv : List Bytes
  pub rest : List (List Bytes)
  pub front : queue ≡ argv ∷ rest
  pub is_open : c.close_after_reply ≡ false
  pub is_free : c.blocked ≡ false
  pub kind : request_type c ≡ Request.multibulk
  pub expects : Expects future argv (requests rest) (record c { reqtype = some Request.multibulk })

Expects-Started :
    {future : Bytes} {queue : List (List Bytes)} (c : Client) (argv : List Bytes)
    (rest : List (List Bytes))
    → queue ≡ argv ∷ rest
    → Expects future argv (requests rest) c
    → Started future queue c
unfolding request_type
Expects-Started _ argv rest q (at_header s e) = record {
  argv = argv;
  rest = rest;
  front = q;
  is_open = refl;
  is_free = refl;
  kind = refl;
  expects = at_header s e;
}
Expects-Started _ argv rest q (at_line s o todo done e f b) = record {
  argv = argv;
  rest = rest;
  front = q;
  is_open = refl;
  is_free = refl;
  kind = refl;
  expects = at_line s o todo done e f b;
}
Expects-Started _ argv rest q (at_body s o todo done e f b) = record {
  argv = argv;
  rest = rest;
  front = q;
  is_open = refl;
  is_free = refl;
  kind = refl;
  expects = at_body s o todo done e f b;
}

free-Started :
    (future : Bytes) (queue : List (List Bytes)) (x : ℕ) (s : Bytes)
    → (x ∷ s) ++ future ≡ requests queue
    → Started future queue (idle (x ∷ s))
unfolding requests request line request_type
free-Started future [] x s e = absurd (cc e)
free-Started future (argv ∷ rest) x s e =
    let star : (x == b'*') ≡ true = ground (arith, (cons_inv e).0) in
    record {
      argv = argv;
      rest = rest;
      front = refl;
      is_open = refl;
      is_free = refl;
      kind = rw star refl;
      expects = at_header (x ∷ s) e;
    }

Waiting-Started :
    {future : Bytes} {queue : List (List Bytes)} (c : Client)
    → Waiting future queue c
    → (length c.querybuf == 0) ≡ false
    → Started future queue c
Waiting-Started _ (busy c argv rest q x) h = Expects-Started c argv rest q x
Waiting-Started {future} {queue} _ (free s e) h = by_bytes s e h
  where
    by_bytes :
        (s : Bytes)
        → s ++ future ≡ requests queue
        → (length s == 0) ≡ false
        → Started future queue (idle s)
    by_bytes [] e h = absurd (ground arith)
    by_bytes (x ∷ s) e h = free-Started future queue x s e

pub request_pos : (argv : List Bytes) → 0 < length (request argv)
unfolding request line
request_pos argv = omega arith

-- Where the buffer is empty, what is left to execute is left to arrive.
nothing_held :
    (future : Bytes) (queue : List (List Bytes)) (c : Client)
    → Waiting future queue c
    → (length c.querybuf == 0) ≡ true
    → queue ≢ []
    → future ≢ []
nothing_held future [] c x h ne z = ne refl
nothing_held future (argv ∷ rest) _ (free s e) h ne z =
    let sizes : length (requests (argv ∷ rest)) ≡ length (request argv) + length (requests rest) =
      unfold requests in length-append (request argv) (requests rest) in
    let long = request_pos argv in ground (arith, ap length e, length-append s future, ap length z)
nothing_held future (argv ∷ rest) c (busy _ _ more q x) h ne z = expects_more c x h (ap length z)
  where
    expects_more :
        {argv : List Bytes} {tail : Bytes} (c : Client)
        → Expects future argv tail c
        → (length c.querybuf == 0) ≡ true
        → length future ≡ 0
        → ⊥
    expects_more {argv} {tail} _ (at_header s e) h z =
        let long = request_pos argv in
        ground (arith, ap length e, length-append s future, length-append (request argv) tail)
    expects_more {tail} _ (at_line s o todo done d e b) h z = ground (
      arith,
      ap length e,
      length-append s future,
      length-append (arguments (o ∷ todo)) tail,
      length-arguments (o ∷ todo),
    )
    expects_more {tail} _ (at_body s o todo done d e b) h z = ground (
      arith,
      ap length e,
      length-append s future,
      length-append o (crlf ++ (arguments todo ++ tail)),
    )

if_false : {A : Type 0} (x y : A) (b : Bool) → b ≡ false → (if b then x else y) ≡ y
if_false x y b e = rw e refl

module _ {W : Type 0} (process_command : W → Client → Bool × W × Client) (step : W → List Bytes → W)
    (IsPlain : List Bytes → Type 0)
    (executes : (w : W) (c : Client)
      → IsPlain c.argv
      → (argv : List Bytes) × (process_command w c
          ≡ (true, step w c.argv, record c { argv = argv }))) where
  -- Every command is one that is run to its end and leaves the parser alone.
  abbrev pub ArePlain : List (List Bytes) → Type 0
  ArePlain [] = Unit
  ArePlain (argv ∷ commands) = IsPlain argv × ArePlain commands

  -- The requests executed one after the other.
  abbrev pub run : W → List (List Bytes) → W
  run w [] = w
  run w (argv ∷ commands) = run (step w argv) commands

  -- Some requests were executed, and the others wait for bytes.
  pub data Ran (future : Bytes) (queue : List (List Bytes)) (w : W) : W × Client → Type 0 where
    ran :
        (done left : List (List Bytes)) (c : Client)
        → done ++ left ≡ queue
        → Waiting future left c
        → (left ≢ [] → future ≢ [])
        → Ran future queue w (run w done, c)

  Ran-cons :
      (future : Bytes) (argv : List Bytes) (rest : List (List Bytes)) (w : W) (p : W × Client)
      → Ran future rest (step w argv) p
      → Ran future (argv ∷ rest) w p
  Ran-cons future argv rest w _ (ran done left c e x ne) =
      ran (argv ∷ done) left c (ap (λ l. argv ∷ l) e) x ne

  execute_lem :
      (w : W) (s : Bytes) (argv : List Bytes)
      → argv ≢ []
      → IsPlain argv
      → execute process_command w (reading s argv 0 none) ≡ (step w argv, idle s)
  unfolding execute reset_client
  execute_lem w s [] ne plain = absurd (ne refl)
  execute_lem w s (a ∷ argv) ne plain =
      let some_args : (length (a ∷ argv) == 0) ≡ false = ground arith in
      let (left, called) = executes w (reading s (a ∷ argv) 0 none) plain in
      rw (some_args, called) refl

  -- What the loop does with the result of a parser.
  abbrev proceed : ℕ → W → Code × Client → W × Client
  proceed fuel w p = elim p.0 [
    | ok ↦
        input_loop process_command fuel (execute process_command w p.1).0
          (execute process_command w p.1).1
    | err ↦ (w, p.1)
    | assertion_failed ↦ (w, p.1)
  ]

  input_loop-suc :
      (fuel : ℕ) (w : W) (c : Client)
      → (length c.querybuf == 0) ≡ false
      → c.blocked ≡ false
      → c.close_after_reply ≡ false
      → request_type c ≡ Request.multibulk
      → input_loop process_command (suc fuel) w c
        ≡ proceed fuel w (process_multibulk_buffer (record c { reqtype = some Request.multibulk }))
  unfolding input_loop parse
  input_loop-suc fuel w c some_left is_free is_open kind =
      if_false _ _ _ some_left
      ∙ if_false _ _ _ is_free
      ∙ if_false _ _ _ is_open
      ∙ ap (λ r. proceed fuel w (parse r (record c { reqtype = some r }))) kind

  pub input_loop-Ran :
      (fuel : ℕ) (w : W) (c : Client) (future : Bytes) (queue : List (List Bytes))
      → Small queue
      → ArePlain queue
      → length c.querybuf < fuel
      → Waiting future queue c
      → Ran future queue w (input_loop process_command fuel w c)
  unfolding input_loop
  input_loop-Ran zero w c future queue small plain h x = absurd (omega arith)
  input_loop-Ran (suc fuel) w c future queue small plain h x =
      elim (Bool-cases (length c.querybuf == 0)) [
        | inl none_left ↦
            rw none_left (ran [] queue c refl x (nothing_held future queue c x none_left))
        | inr some_left ↦
            let t = Waiting-Started c x some_left in
            let small' : Small (t.argv ∷ t.rest) = subst Small t.front small in
            let plain' : ArePlain (t.argv ∷ t.rest) = subst ArePlain t.front plain in
            let p =
              process_multibulk_buffer-Parsed future t.argv (requests t.rest)
                (record c { reqtype = some Request.multibulk }) small'.0 small'.1 t.expects in
            subst (Ran future queue w)
              (sym (input_loop-suc fuel w c some_left t.is_free t.is_open t.kind))
              (subst
                (λ q. Ran future q w (
                  proceed fuel w
                    (process_multibulk_buffer (record c { reqtype = some Request.multibulk }))))
                (sym t.front)
                (by_parse t.argv t.rest (length c.querybuf) _ h small' plain'.0 p
                  (λ v s lt. input_loop-Ran fuel v (idle s) future t.rest small'.2 plain'.1 lt)))
      ]
    where
      by_parse :
          (argv : List Bytes) (rest : List (List Bytes)) (n : ℕ) (p : Code × Client)
          → n < suc fuel
          → Small (argv ∷ rest)
          → IsPlain argv
          → Parsed future argv (requests rest) n p
          → ((v : W) (s : Bytes)
              → length s < fuel
              → Waiting future rest (idle s)
              → Ran future rest v (input_loop process_command fuel v (idle s)))
          → Ran future (argv ∷ rest) w (proceed fuel w p)
      by_parse argv rest n _ lt small plain (whole s e shorter) next =
          rw (execute_lem w s argv small.0 plain)
            (Ran-cons future argv rest w _ (next (step w argv) s (omega arith) (free s e)))
      by_parse argv rest n _ lt small plain (partial c x ne) next =
          ran [] (argv ∷ rest) c refl (busy c argv rest refl x) (λ _. ne)
