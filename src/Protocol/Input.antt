-- ===== src/Protocol/Input.antt =====
-- `processInputBuffer`, and the buffer that `readQueryFromClient` fills.
use mmog.Common.{
  ℕ, zero, suc, Bool, Option, none, some, List, [], ◌∷◌, ◌++◌, length, get_or, ltb, ◌==◌,
  if◌then◌else◌,
}
use mmog.Common.Bytes.{Bytes}
use mmog.Protocol.{
  Request, Client, Code, ok, err, assertion_failed, reset_client, process_inline_buffer,
  process_multibulk_buffer,
}

-- The type of a request that has none yet.
unfoldable pub request_type : Client → Request
request_type c = elim c.reqtype [
  | some r ↦ r
  | none ↦ if get_or c.querybuf 0 0 == b'*' then Request.multibulk else Request.inline
]

unfoldable pub parse : Request → Client → Code × Client
parse Request.inline c = process_inline_buffer c
parse Request.multibulk c = process_multibulk_buffer c

-- What `read` returns: bytes, none of them at the end of the connection, or EAGAIN, or an error.
pub data ReadResult : Type 0 where
  arrived : Bytes → ReadResult
  again : ReadResult
  failed : ReadResult

-- `process_command` stands for `processCommand` of redis.c, with the rest of the server as a state. It
-- answers whether the client is to be reset.
module _ {W : Type 0} (process_command : W → Client → Bool × W × Client) where
  -- What follows a request that was read.
  unfoldable pub execute : W → Client → W × Client
  execute w c =
      if length c.argv == 0
      then (w, reset_client c)
      else let (done, w', d) = process_command w c in (w', if done then reset_client d else d)

  -- The loop, where each round reads at least one byte.
  unfoldable pub input_loop : ℕ → W → Client → W × Client
  input_loop zero w c = (w, c)
  input_loop (suc fuel) w c =
      let typed = record c { reqtype = some (request_type c) } in
      let p = parse (request_type c) typed in
      let rest = input_loop fuel (execute w p.1).0 (execute w p.1).1 in
      if length c.querybuf == 0
      then (w, c)
      else if c.blocked
      then (w, c)
      else if c.close_after_reply
      then (w, c)
      else elim p.0 [ ok ↦ rest | err ↦ (w, p.1) | assertion_failed ↦ (w, p.1) ]

  unfoldable pub process_input_buffer : W → Client → W × Client
  process_input_buffer w c = input_loop (suc (length c.querybuf)) w c

  -- `readQueryFromClient`, with `client_max_querybuf_len`: `none` for a client that is freed. Nothing
  -- happens where there is nothing to read.
  unfoldable pub read_query : ℕ → W → Client → ReadResult → Option (W × Client)
  read_query limit w c again = some (w, c)
  read_query limit w c failed = none
  read_query limit w c (arrived bytes) =
      let d = record c { querybuf = c.querybuf ++ bytes } in
      if length bytes == 0
      then none
      else if ltb limit (length d.querybuf)
      then none
      else some (process_input_buffer w d)

  unfoldable pub read_queries : ℕ → W → Client → List ReadResult → Option (W × Client)
  read_queries limit w c [] = some (w, c)
  read_queries limit w c (r ∷ results) = elim (read_query limit w c r) [
    | none ↦ none
    | some p ↦ read_queries limit p.0 p.1 results
  ]
