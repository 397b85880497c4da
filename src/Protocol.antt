-- ===== src/Protocol.antt =====
-- The request parser of redis-stable/src/networking.c. A buffer is the list of its bytes, without the
-- nul byte that ends it.
pub mod Encode
pub mod Input
pub mod Resume
pub mod Pipeline
pub mod Reads
pub mod Lines
pub mod Rounds
pub mod Expects
mod Tests
use mmog.Common.{
  ℕ, zero, suc, ◌+◌, ◌-◌, ◌*◌, ◌^◌, ◌&&◌, not, Bool, true, false, Option, none, some, List, [], ◌∷◌,
  ◌++◌, length, take, drop, get_or, ltb, leb, ◌==◌, if◌then◌else◌, ℤ, pos, negsuc,
}
use mmog.Common.Bytes.{Bytes}
use mmog.Numbers.{string2ll}
use mmog.Sds.Text.{split_len}

-- REDIS_INLINE_MAX_SIZE and REDIS_MBULK_BIG_ARG
abbrev pub inline_max_size : ℕ
inline_max_size = 1024 * 64

abbrev pub mbulk_big_arg : ℕ
mbulk_big_arg = 1024 * 32

pub data ProtocolError : Type 0 where
  big_inline_request : ProtocolError
  big_mbulk_count : ProtocolError
  big_bulk_count : ProtocolError
  invalid_multibulk_length : ProtocolError
  invalid_bulk_length : ProtocolError
  expected_dollar : ℕ → ProtocolError

pub data Request : Type 0 where
  inline : Request
  multibulk : Request

-- The part of `redisClient` that the parser uses. A `bulklen` of -1 is `none`, and so is a `reqtype`
-- of 0; `argc` is the length of `argv`. `errors` are the error replies, newest first.
pub record Client : Type 0 where
  pub querybuf : Bytes
  pub argv : List Bytes
  pub multibulklen : ℕ
  pub bulklen : Option ℕ
  pub reqtype : Option Request
  pub close_after_reply : Bool
  pub blocked : Bool
  pub errors : List ProtocolError

-- REDIS_OK and REDIS_ERR, or an assertion that fails.
pub data Code : Type 0 where
  ok : Code
  err : Code
  assertion_failed : Code

-- `resetClient`
unfoldable pub reset_client : Client → Client
reset_client c = record c { argv = []; reqtype = none; multibulklen = 0; bulklen = none }

-- `addReplyError`, then `setProtocolError`.
unfoldable pub protocol_error : ProtocolError → ℕ → Client → Client
protocol_error e at c = record c {
  querybuf = drop at c.querybuf;
  close_after_reply = true;
  errors = e ∷ c.errors;
}

-- The index of the first carriage return of a nul-terminated string, as `strchr` finds it.
unfoldable pub find_cr : Bytes → Option ℕ
find_cr [] = none
find_cr (x ∷ s) =
    let rest = find_cr s in
    if x == b'\r'
    then some 0
    else if x == 0
    then none
    else elim rest [ none ↦ none | some i ↦ some (suc i) ]

-- `strstr(s,"\r\n")`
unfoldable pub find_crlf : Bytes → Option ℕ
find_crlf [] = none
find_crlf (x ∷ s) =
    let rest = find_crlf s in
    if x == b'\r' && get_or s 0 0 == b'\n'
    then some 0
    else if x == 0
    then none
    else elim rest [ none ↦ none | some i ↦ some (suc i) ]

-- The arguments that are not empty.
unfoldable pub nonempty : List Bytes → List Bytes
nonempty [] = []
nonempty (a ∷ argv) = if length a == 0 then nonempty argv else a ∷ nonempty argv

-- `processInlineBuffer`
unfoldable pub process_inline_buffer : Client → Code × Client
process_inline_buffer c = elim (find_crlf c.querybuf) [
  | none ↦ (
    err,
    if ltb inline_max_size (length c.querybuf) then protocol_error big_inline_request 0 c else c,
  )
  | some querylen ↦
      let tokens : List Bytes = elim (split_len (take querylen c.querybuf) (b' ' ∷ [])) [
        | none ↦ []
        | some t ↦ t
      ] in
      (ok, record c { querybuf = drop (querylen + 2) c.querybuf; argv = nonempty tokens })
]

-- What reading the length of an argument comes to: it is known, or more bytes are needed, with the
-- client as it is then, or the request is wrong.
pub data Header : Type 0 where
  known : ℕ → ℕ → Client → Header
  waits : Client → Header
  fails : Client → Header

-- The check of a length that was read, and the step behind its line.
unfoldable pub check_bulklen : Option ℤ → ℕ → ℕ → Client → Header
check_bulklen none at behind c = fails (protocol_error invalid_bulk_length at c)
check_bulklen (some (negsuc n)) at behind c = fails (protocol_error invalid_bulk_length at c)
check_bulklen (some (pos ll)) at behind c =
    if ltb (512 * 1024 * 1024) ll
    then fails (protocol_error invalid_bulk_length at c)
    else if leb mbulk_big_arg ll
    then known ll 0 (record c { querybuf = drop behind c.querybuf })
    else known ll behind c

-- The start of a round of `processMultibulkBuffer`, at `at` in the buffer.
unfoldable pub read_bulklen : ℕ → Client → Header
read_bulklen at c = elim c.bulklen [
  | some n ↦ known n at c
  | none ↦
      let rest = drop at c.querybuf in
      elim (find_cr rest) [
        | none ↦ waits (
            if ltb inline_max_size (length c.querybuf)
            then protocol_error big_bulk_count 0 c
            else c)
        | some i ↦
            if ltb (length c.querybuf) (at + i + 2)
            then waits c
            else if not (get_or rest 0 0 == b'$')
            then fails (protocol_error (expected_dollar (get_or rest 0 0)) at c)
            else check_bulklen (string2ll (take (i - 1) (drop 1 rest))) at (at + i + 2) c
      ]
]

-- An argument of `n` bytes at `at`, which are all there. The buffer itself becomes the argument if it
-- is large and nothing else is in the buffer.
unfoldable pub read_argument : ℕ → ℕ → Client → ℕ × Client
read_argument n at c =
    let d = record c { bulklen = none; multibulklen = c.multibulklen - 1 } in
    if at == 0 && (leb mbulk_big_arg n && length c.querybuf == n + 2)
    then (0, record d { argv = c.argv ++ (take n c.querybuf ∷ []); querybuf = [] })
    else (at + (n + 2), record d { argv = c.argv ++ (take n (drop at c.querybuf) ∷ []) })

-- The loop of `processMultibulkBuffer`, a round for each argument that is missing: whether it returned
-- with an error, the position, and the client.
unfoldable pub bulk_loop : ℕ → ℕ → Client → Bool × ℕ × Client
bulk_loop zero at c = (false, at, c)
bulk_loop (suc m) at c = elim (read_bulklen at c) [
  | waits d ↦ (false, at, d)
  | fails d ↦ (true, at, d)
  | known n p d ↦ elim (ltb (length d.querybuf) (p + (n + 2))) [
    | true ↦ (false, p, record d { bulklen = some n })
    | false ↦ bulk_loop m (read_argument n p d).0 (read_argument n p d).1
  ]
]

-- The end of `processMultibulkBuffer`.
unfoldable pub finish : Bool × ℕ × Client → Code × Client
finish (true, at, c) = (err, c)
finish (false, at, c) =
    (if c.multibulklen == 0 then ok else err, record c { querybuf = drop at c.querybuf })

-- The check of the number of arguments.
unfoldable pub check_multibulklen : Option ℤ → ℕ → Client → Code × Client
check_multibulklen none behind c = (err, protocol_error invalid_multibulk_length 0 c)
check_multibulklen (some (negsuc n)) behind c = (ok, record c { querybuf = drop behind c.querybuf })
check_multibulklen (some (pos ll)) behind c =
    if ltb (1024 * 1024) ll
    then (err, protocol_error invalid_multibulk_length 0 c)
    else if ll == 0
    then (ok, record c { querybuf = drop behind c.querybuf })
    else finish (bulk_loop ll behind (record c { multibulklen = ll; argv = [] }))

-- `processMultibulkBuffer`
unfoldable pub process_multibulk_buffer : Client → Code × Client
process_multibulk_buffer c =
    if not (c.multibulklen == 0)
    then finish (bulk_loop c.multibulklen 0 c)
    else if not (length c.argv == 0)
    then (assertion_failed, c)
    else elim (find_cr c.querybuf) [
      | none ↦ (
        err,
        if ltb inline_max_size (length c.querybuf) then protocol_error big_mbulk_count 0 c else c,
      )
      | some i ↦
          if ltb (length c.querybuf) (i + 2)
          then (err, c)
          else if not (get_or c.querybuf 0 0 == b'*')
          then (assertion_failed, c)
          else check_multibulklen (string2ll (take (i - 1) (drop 1 c.querybuf))) (i + 2) c
    ]
