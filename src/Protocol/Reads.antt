-- ===== src/Protocol/Reads.antt =====
-- The stream of requests as `readQueryFromClient` gets it, piece by piece.
use mmog.Common.{
  ℕ, suc, ◌+◌, ◌≤◌, ◌≡◌, ◌≢◌, sym, ap, subst, ◌∙◌, arith, true, false, Bool, some, List, [], ◌∷◌,
  ◌++◌, append_assoc, append-nil, length, length-append, ◌==◌, refl, not_below,
}
use mmog.Common.Bytes.{Bytes}
use mmog.Protocol.{inline_max_size, Client}
use mmog.Protocol.Encode.{crlf, arguments, request, requests, cat_commands, cat_commands_lem}
use mmog.Protocol.Resume.{Expects, at_header, at_line, at_body}
use mmog.Protocol.Input.{
  process_input_buffer, ReadResult, arrived, again, failed, read_query, read_queries,
}
use mmog.Protocol.Pipeline.{
  ArePlain, Small, idle, Waiting, free, busy, run, Ran, ran, input_loop-Ran, request_pos,
}

-- The bytes that were read.
abbrev pub payload : List ReadResult → Bytes
payload [] = []
payload (arrived bytes ∷ results) = bytes ++ payload results
payload (again ∷ results) = payload results
payload (failed ∷ results) = payload results

-- The connection does not end and has no error.
abbrev pub IsSteady : List ReadResult → Type 0
IsSteady [] = Unit
IsSteady (arrived bytes ∷ results) = (bytes ≢ []) × IsSteady results
IsSteady (again ∷ results) = IsSteady results
IsSteady (failed ∷ results) = ⊥

shift_future : (s bytes future r : Bytes) → s ++ (bytes ++ future) ≡ r → (s ++ bytes) ++ future ≡ r
shift_future s bytes future r e = append_assoc s bytes future ∙ e

Expects-arrived :
    (bytes future tail : Bytes) (argv : List Bytes) (c : Client)
    → Expects (bytes ++ future) argv tail c
    → Expects future argv tail (record c { querybuf = c.querybuf ++ bytes })
Expects-arrived bytes future tail argv _ (at_header s e) =
    at_header (s ++ bytes) (shift_future s bytes future _ e)
Expects-arrived bytes future tail argv _ (at_line s o todo done d e b) =
    at_line (s ++ bytes) o todo done d (shift_future s bytes future _ e) b
Expects-arrived bytes future tail argv _ (at_body s o todo done d e b) =
    at_body (s ++ bytes) o todo done d (shift_future s bytes future _ e) b

Waiting-arrived :
    (bytes future : Bytes) (queue : List (List Bytes)) (c : Client)
    → Waiting (bytes ++ future) queue c
    → Waiting future queue (record c { querybuf = c.querybuf ++ bytes })
Waiting-arrived bytes future queue _ (free s e) =
    free (s ++ bytes) (shift_future s bytes future _ e)
Waiting-arrived bytes future queue c (busy _ argv rest q x) =
    busy _ argv rest q (Expects-arrived bytes future (requests rest) argv c x)

-- The buffer holds no more than a request and what follows it.
Expects-le :
    (future tail : Bytes) (argv : List Bytes) (c : Client)
    → length (request argv) ≤ inline_max_size
    → Expects future argv tail c
    → length c.querybuf ≤ inline_max_size + length tail
Expects-le future tail argv _ small (at_header s e) =
    omega (arith, ap length e, length-append s future, length-append (request argv) tail)
Expects-le future tail argv _ small (at_line s o todo done d e b) =
    omega (arith, ap length e, length-append s future, length-append (arguments (o ∷ todo)) tail)
Expects-le future tail argv _ small (at_body s o todo done d e b) = omega (
  arith,
  ap length e,
  length-append s future,
  length-append o (crlf ++ (arguments todo ++ tail)),
  length-append (arguments todo) tail,
)

length-requests_cons :
    (argv : List Bytes) (rest : List (List Bytes))
    → length (requests (argv ∷ rest)) ≡ length (request argv) + length (requests rest)
unfolding requests
length-requests_cons argv rest = length-append (request argv) (requests rest)

Waiting-le :
    (future : Bytes) (queue : List (List Bytes)) (c : Client)
    → Small queue
    → Waiting future queue c
    → length c.querybuf ≤ inline_max_size + length (requests queue)
Waiting-le future queue _ small (free s e) = omega (arith, ap length e, length-append s future)
Waiting-le future queue c small (busy _ argv rest q x) =
    let small' : Small (argv ∷ rest) = subst Small q small in
    let room = Expects-le future (requests rest) argv c small'.1 x in
    rw q (omega (arith, length-requests_cons argv rest))

Small-append : (done left : List (List Bytes)) → Small (done ++ left) → Small left
Small-append [] left h = h
Small-append (argv ∷ done) left h = Small-append done left h.2

length-requests_append :
    (done left : List (List Bytes)) → length (requests left) ≤ length (requests (done ++ left))
length-requests_append [] left = omega arith
length-requests_append (argv ∷ done) left =
    omega (arith, length-requests_append done left, length-requests_cons argv (done ++ left))

cons≢[] : {argv : List Bytes} {rest queue : List (List Bytes)} → queue ≡ argv ∷ rest → queue ≢ []
cons≢[] e z = cc

-- Nothing is left where nothing more arrives.
all_done :
    (future : Bytes) (queue : List (List Bytes)) (c : Client)
    → future ≡ []
    → Waiting future queue c
    → (queue ≢ [] → future ≢ [])
    → (queue ≡ []) × (c ≡ idle [])
unfolding requests
all_done future [] _ z (free s e) h =
    (refl, ap idle (sym (append-nil s) ∙ ap (λ t. s ++ t) (sym z) ∙ e))
all_done future [] c z (busy _ argv rest q x) h = absurd (cons≢[] q refl)
all_done future (argv ∷ queue) c z x h = absurd (h (λ e. cons≢[] (sym e) refl) z)

no_bytes : (bytes : Bytes) → bytes ≢ [] → (length bytes == 0) ≡ false
no_bytes [] h = absurd (h refl)
no_bytes (x ∷ bytes) h = ground arith

module _ {W : Type 0} (process_command : W → Client → Bool × W × Client) (step : W → List Bytes → W)
    (IsPlain : List Bytes → Type 0)
    (executes : (w : W) (c : Client)
      → IsPlain c.argv
      → (argv : List Bytes) × (process_command w c
          ≡ (true, step w c.argv, record c { argv = argv }))) where
  run-append :
      (w : W) (done left : List (List Bytes))
      → run process_command step IsPlain executes w (done ++ left)
        ≡ run process_command step IsPlain executes
            (run process_command step IsPlain executes w done)
            left
  run-append w [] left = refl
  run-append w (argv ∷ done) left = run-append (step w argv) done left

  ArePlain-append :
      (done left : List (List Bytes))
      → ArePlain process_command step IsPlain executes (done ++ left)
      → ArePlain process_command step IsPlain executes left
  ArePlain-append [] left h = h
  ArePlain-append (argv ∷ done) left h = ArePlain-append done left h.1

  read_query_lem :
      (limit : ℕ) (w : W) (c : Client) (bytes : Bytes)
      → bytes ≢ []
      → length (c.querybuf ++ bytes) ≤ limit
      → read_query process_command limit w c (arrived bytes)
        ≡ some
            (process_input_buffer process_command w (record c { querybuf = c.querybuf ++ bytes }))
  unfolding read_query
  read_query_lem limit w c bytes ne h = rw (no_bytes bytes ne, not_below _ _ h) refl

  nothing_read :
      (limit : ℕ) (w : W) (c : Client) → read_query process_command limit w c again ≡ some (w, c)
  unfolding read_query
  nothing_read limit w c = refl

  -- From any state in the middle of the stream.
  read_queries-runs :
      (limit : ℕ) (results : List ReadResult) (w : W) (c : Client) (queue : List (List Bytes))
      → IsSteady results
      → Small queue
      → ArePlain process_command step IsPlain executes queue
      → inline_max_size + length (requests queue) ≤ limit
      → Waiting (payload results) queue c
      → (queue ≢ [] → payload results ≢ [])
      → read_queries process_command limit w c results
        ≡ some (run process_command step IsPlain executes w queue, idle [])
  unfolding read_queries process_input_buffer
  read_queries-runs limit [] w c queue steady small plain room x ne =
      let (none_left, fresh) = all_done [] queue c refl x ne in rw (none_left, fresh) refl
  read_queries-runs limit (failed ∷ results) w c queue steady small plain room x ne =
      elim steady [ ]
  read_queries-runs limit (again ∷ results) w c queue steady small plain room x ne =
      rw (nothing_read limit w c, read_queries)
        (read_queries-runs limit results w c queue steady small plain room x ne)
  read_queries-runs limit (arrived bytes ∷ results) w c queue steady small plain room x ne =
      let d = record c { querybuf = c.querybuf ++ bytes } in
      let y = Waiting-arrived bytes (payload results) queue c x in
      let room' : length (c.querybuf ++ bytes) ≤ limit =
        omega (arith, Waiting-le (payload results) queue d small y) in
      rw (read_query_lem limit w c bytes steady.0 room', read_queries)
        (by_loop w queue small plain room _
          (input_loop-Ran process_command step IsPlain executes (suc (length (c.querybuf ++ bytes)))
            w d (payload results) queue small plain (omega arith) y)
          (λ v c' left h p k more. read_queries-runs limit results v c' left steady.1 h p k more))
    where
      by_loop :
          (w : W) (queue : List (List Bytes))
          → Small queue
          → ArePlain process_command step IsPlain executes queue
          → inline_max_size + length (requests queue) ≤ limit
          → (p : W × Client) → Ran process_command step IsPlain executes (payload results) queue w p
          → ((v : W) (c' : Client) (left : List (List Bytes))
              → Small left
              → ArePlain process_command step IsPlain executes left
              → inline_max_size + length (requests left) ≤ limit
              → Waiting (payload results) left c'
              → (left ≢ [] → payload results ≢ [])
              → read_queries process_command limit v c' results
                ≡ some (run process_command step IsPlain executes v left, idle []))
          → read_queries process_command limit p.0 p.1 results
            ≡ some (run process_command step IsPlain executes w queue, idle [])
      by_loop w queue small plain room _ (ran done left c' e x ne) next =
          let shorter = length-requests_append done left in
          let same = ap (λ q. length (requests q)) e in
          next (run process_command step IsPlain executes w done) c' left
            (Small-append done left (subst Small (sym e) small))
            (ArePlain-append done left
              (subst (ArePlain process_command step IsPlain executes) (sym e) plain))
            (omega arith) x ne
          ∙ ap (λ v. some (v, idle []))
              (sym (run-append w done left) ∙ ap (run process_command step IsPlain executes w) e)

  -- A peer sends commands as `catAppendOnlyGenericCommand` writes them, one behind the other, to a
  -- client that is between two requests. Each request has arguments and at most 65,536 bytes, the
  -- reads cut the bytes in any way, some of them finding none, and the limit on the buffer lets in a
  -- request more than all of them. Each command sent is one that `processCommand` runs to its end,
  -- leaving of the client's parser at most other arguments, so none like QUIT that closes the
  -- connection or BLPOP that blocks the client. Then the commands are run, each once and in their order,
  -- and the client is between two requests again, with no byte left.
  pub read_queries-cat_commands :
      (limit : ℕ) (results : List ReadResult) (w : W) (commands : List (List Bytes))
      → IsSteady results
      → Small commands
      → ArePlain process_command step IsPlain executes commands
      → inline_max_size + length (cat_commands [] commands) ≤ limit
      → payload results ≡ cat_commands [] commands
      → read_queries process_command limit w (idle []) results
        ≡ some (run process_command step IsPlain executes w commands, idle [])
  read_queries-cat_commands limit results w commands steady small plain room e =
      let written = cat_commands_lem [] commands in
      read_queries-runs limit results w (idle []) commands steady small plain
        (omega (arith, ap length written)) (free [] (e ∙ written))
        (λ ne z. ne (no_commands commands (sym written ∙ sym e ∙ z)))
    where
      no_commands : (commands : List (List Bytes)) → requests commands ≡ [] → commands ≡ []
      no_commands [] h = refl
      no_commands (argv ∷ rest) h =
          absurd (omega (arith, ap length h, length-requests_cons argv rest, request_pos argv))
