-- ===== src/Protocol/Encode.antt =====
-- `catAppendOnlyGenericCommand` of redis-stable/src/aof.c, which writes a command as the request that
-- the parser reads.
use mmog.Common.{ℕ, ◌≡◌, sym, ap, ◌∙◌, List, [], ◌∷◌, ◌++◌, append_assoc, append-nil, length, pos}
use mmog.Common.Bytes.{Bytes}
use mmog.Numbers.{ll2string}

abbrev pub crlf : Bytes
crlf = b'\r' ∷ b'\n' ∷ []

-- A line in `buf`: its first byte and a number.
unfoldable pub line : ℕ → ℕ → Bytes
line first n = first ∷ ll2string 31 (pos n) ++ crlf

-- The loop over the arguments.
unfoldable pub cat_arguments : Bytes → List Bytes → Bytes
cat_arguments dst [] = dst
cat_arguments dst (o ∷ argv) = cat_arguments (((dst ++ line b'$' (length o)) ++ o) ++ crlf) argv

-- `catAppendOnlyGenericCommand`
unfoldable pub cat_generic_command : Bytes → List Bytes → Bytes
cat_generic_command dst argv = cat_arguments (dst ++ line b'*' (length argv)) argv

-- The bytes of the arguments alone.
unfoldable pub arguments : List Bytes → Bytes
arguments [] = []
arguments (o ∷ argv) = line b'$' (length o) ++ (o ++ (crlf ++ arguments argv))

unfoldable pub request : List Bytes → Bytes
request argv = line b'*' (length argv) ++ arguments argv

cat_arguments_lem :
    (dst : Bytes) (argv : List Bytes) → cat_arguments dst argv ≡ dst ++ arguments argv
unfolding cat_arguments arguments
cat_arguments_lem dst [] = sym (append-nil dst)
cat_arguments_lem dst (o ∷ argv) =
    cat_arguments_lem (((dst ++ line b'$' (length o)) ++ o) ++ crlf) argv
    ∙ append_assoc ((dst ++ line b'$' (length o)) ++ o) crlf (arguments argv)
    ∙ append_assoc (dst ++ line b'$' (length o)) o (crlf ++ arguments argv)
    ∙ append_assoc dst (line b'$' (length o)) (o ++ (crlf ++ arguments argv))

-- The commands of a file or of a pipeline, one behind the other.
unfoldable pub cat_commands : Bytes → List (List Bytes) → Bytes
cat_commands dst [] = dst
cat_commands dst (argv ∷ commands) = cat_commands (cat_generic_command dst argv) commands

unfoldable pub requests : List (List Bytes) → Bytes
requests [] = []
requests (argv ∷ commands) = request argv ++ requests commands

pub cat_commands_lem :
    (dst : Bytes) (commands : List (List Bytes))
    → cat_commands dst commands ≡ dst ++ requests commands
unfolding cat_commands requests cat_generic_command request
cat_commands_lem dst [] = sym (append-nil dst)
cat_commands_lem dst (argv ∷ commands) =
    cat_commands_lem (cat_arguments (dst ++ line b'*' (length argv)) argv) commands
    ∙ ap (λ s. s ++ requests commands) (cat_arguments_lem (dst ++ line b'*' (length argv)) argv)
    ∙ append_assoc (dst ++ line b'*' (length argv)) (arguments argv) (requests commands)
    ∙ append_assoc dst (line b'*' (length argv)) (arguments argv ++ requests commands)
    ∙ ap (λ s. dst ++ s)
        (sym (append_assoc (line b'*' (length argv)) (arguments argv) (requests commands)))
