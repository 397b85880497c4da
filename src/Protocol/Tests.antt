-- ===== src/Protocol/Tests.antt =====
-- Concrete requests.
use mmog.Common.{
  ◌≡◌, refl, arith, Bool, true, false, some, ◌==◌, if◌then◌else◌, List, [], ◌∷◌, ◌++◌,
}
use mmog.Common.Bytes.{Bytes}
use mmog.Numbers.{string2ll, ll2string, number_text, print_digits, parse_unsigned}
use mmog.Sds.Text.{split_len, split_loop, starts_with}
use mmog.Protocol.{
  Client, ok, find_cr, find_crlf, nonempty, protocol_error, check_multibulklen,
  process_inline_buffer, process_multibulk_buffer,
}
use mmog.Protocol.Encode.{
  line, arguments, request, cat_arguments, cat_generic_command, cat_commands,
}
use mmog.Protocol.Pipeline.{idle, run}
use mmog.Protocol.Input.{ReadResult, arrived, again, read_queries}
use mmog.Protocol.Reads.{read_queries-cat_commands}

-- A server that keeps a log of its commands.
abbrev Log : Type 0
Log = List (List Bytes)

abbrev append_to_log : Log → List Bytes → Log
append_to_log w argv = w ++ (argv ∷ [])

-- A request of one argument that begins with Q ends the connection, as QUIT does; another is logged,
-- and its arguments are rewritten.
abbrev ends : List Bytes → Bool
ends ((c ∷ name) ∷ []) = c == b'Q'
ends argv = false

abbrev IsLogged : List Bytes → Type 0
IsLogged argv = ends argv ≡ false

abbrev log_command : Log → Client → Bool × Log × Client
log_command w c =
    if ends c.argv
    then (false, w, record c { close_after_reply = true })
    else (true, append_to_log w c.argv, record c { argv = [] })

log_command_lem :
    (w : Log) (c : Client)
    → IsLogged c.argv
    → (argv : List Bytes) × (log_command w c
        ≡ (true, append_to_log w c.argv, record c { argv = argv }))
log_command_lem w c h = ([], rw (log_command, h) refl)

-- PING and GET k
abbrev two_commands : List (List Bytes)
two_commands =
    ((b'P' ∷ b'I' ∷ b'N' ∷ b'G' ∷ []) ∷ []) ∷ ((b'G' ∷ b'E' ∷ b'T' ∷ []) ∷ (b'k' ∷ []) ∷ []) ∷ []

-- "*1\r\n$4\r\nPING\r\n*2\r\n$3\r\nGET\r\n$1\r\nk\r\n", cut inside a line, an argument and a line's end.
abbrev chunks : List ReadResult
chunks =
    arrived (b'*' ∷ b'1' ∷ b'\r' ∷ [])
    ∷ arrived (b'\n' ∷ b'$' ∷ b'4' ∷ b'\r' ∷ b'\n' ∷ b'P' ∷ b'I' ∷ [])
    ∷ again
    ∷ arrived (
        b'N' ∷ b'G' ∷ b'\r' ∷ b'\n' ∷ b'*' ∷ b'2' ∷ b'\r' ∷ b'\n' ∷ b'$' ∷ b'3' ∷ b'\r' ∷ b'\n'
        ∷ b'G' ∷ [])
    ∷ arrived
        (b'E' ∷ b'T' ∷ b'\r' ∷ b'\n' ∷ b'$' ∷ b'1' ∷ b'\r' ∷ b'\n' ∷ b'k' ∷ b'\r' ∷ b'\n' ∷ [])
    ∷ []

read_queries-cat_commands_example :
    read_queries log_command 100000 [] (idle []) chunks
    ≡ some (run log_command append_to_log IsLogged log_command_lem [] two_commands, idle [])
unfolding cat_commands cat_generic_command cat_arguments request arguments line ll2string
    number_text print_digits
read_queries-cat_commands_example =
    read_queries-cat_commands log_command append_to_log IsLogged log_command_lem 100000 chunks []
      two_commands ((λ e. cc), ((λ e. cc), ((λ e. cc), ((λ e. cc), tt))))
      ((λ e. cc), omega arith, ((λ e. cc), omega arith, tt)) (refl, (refl, tt)) (omega arith) refl

-- An inline request, with spaces that are dropped.
inline_request :
    process_inline_buffer (idle (b'G' ∷ b'E' ∷ b'T' ∷ b' ' ∷ b' ' ∷ b'k' ∷ b'\r' ∷ b'\n' ∷ []))
    ≡ (ok, record (idle []) { argv = (b'G' ∷ b'E' ∷ b'T' ∷ []) ∷ (b'k' ∷ []) ∷ [] })
unfolding process_inline_buffer find_crlf nonempty split_len split_loop starts_with
inline_request = refl

-- A length that is no number closes the connection after the error.
invalid_length :
    (process_multibulk_buffer (idle (b'*' ∷ b'x' ∷ b'\r' ∷ b'\n' ∷ []))).1.close_after_reply ≡ true
unfolding process_multibulk_buffer find_cr string2ll parse_unsigned check_multibulklen
    protocol_error
invalid_length = refl
