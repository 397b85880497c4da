-- ===== src/Slowlog.antt =====
-- redis-stable/src/slowlog.c: the log of the slowest commands.
pub mod Trim
pub mod Entries
mod Tests
use mmog.Common.{
  ℕ, zero, suc, ◌+◌, ◌-◌, ◌&&◌, not, Bool, true, false, List, [], ◌∷◌, ◌++◌, length, take, ltb, leb,
  ◌==◌, if◌then◌else◌, ℤ, pos, negsuc, ltb_ℤ,
}
use mmog.Numbers.{number_text}

-- SLOWLOG_ENTRY_MAX_ARGC and SLOWLOG_ENTRY_MAX_STRING
abbrev pub max_argc : ℕ
max_argc = 32

abbrev pub max_string : ℕ
max_string = 128

-- An argument: a string object with raw encoding, or any other object, which is shared.
pub data Arg : Type 0 where
  raw : List ℕ → Arg
  shared : ℕ → Arg

-- "... (%lu more bytes)" and "... (%d more arguments)"
abbrev pub note : ℕ → List ℕ → List ℕ
note n what = b'.' ∷ b'.' ∷ b'.' ∷ b' ' ∷ b'(' ∷ number_text (pos n) ++ what

abbrev pub more_bytes : List ℕ
more_bytes = b' ' ∷ b'm' ∷ b'o' ∷ b'r' ∷ b'e' ∷ b' ' ∷ b'b' ∷ b'y' ∷ b't' ∷ b'e' ∷ b's' ∷ b')' ∷ []

abbrev pub more_arguments : List ℕ
more_arguments =
    b' ' ∷ b'm' ∷ b'o' ∷ b'r' ∷ b'e' ∷ b' ' ∷ b'a' ∷ b'r' ∷ b'g' ∷ b'u' ∷ b'm' ∷ b'e' ∷ b'n' ∷ b't'
    ∷ b's' ∷ b')' ∷ []

-- `slowlogEntry`
pub record Entry : Type 0 where
  pub argv : List Arg
  pub id : ℕ
  pub duration : ℤ
  pub time : ℤ

-- The server's fields for the log.
pub record Log : Type 0 where
  pub entries : List Entry
  pub entry_id : ℕ
  pub log_slower_than : ℤ
  pub max_len : ℕ

-- The copy of one argument, with a string cut off that is too long.
unfoldable pub copy_arg : Arg → Arg
copy_arg (raw s) =
    if ltb max_string (length s)
    then raw (take max_string s ++ note (length s - max_string) more_bytes)
    else raw s
copy_arg (shared o) = shared o

-- The loop of `slowlogCreateEntry` from argument `j` on.
unfoldable pub copy_args : ℕ → ℕ → ℕ → List Arg → List Arg
copy_args argc slargc j [] = []
copy_args argc slargc j (a ∷ args) =
    let rest = copy_args argc slargc (j + 1) args in
    if ltb j slargc
    then (if not (slargc == argc) && j == slargc - 1
        then raw (note (argc - slargc + 1) more_arguments)
        else copy_arg a)
      ∷ rest
    else []

-- `slowlogCreateEntry` with the time that the clock gives, less the new value of the id.
unfoldable pub create_entry : List Arg → ℤ → ℤ → ℕ → Entry
create_entry argv duration now id =
    let argc = length argv in
    let slargc = if ltb max_argc argc then max_argc else argc in
    record { argv = copy_args argc slargc 0 argv; id = id; duration = duration; time = now }

-- `slowlogInit`
unfoldable pub init : Log → Log
init l = record l { entries = []; entry_id = 0 }

-- `listDelNode(server.slowlog, listLast(server.slowlog))`
unfoldable pub delete_last : List Entry → List Entry
delete_last [] = []
delete_last (e ∷ []) = []
delete_last (e ∷ f ∷ es) = e ∷ delete_last (f ∷ es)

-- The loop that removes old entries, with fuel for all of them.
unfoldable pub trim : ℕ → ℕ → List Entry → List Entry
trim zero max_len es = es
trim (suc fuel) max_len es =
    let rest = trim fuel max_len (delete_last es) in if ltb max_len (length es) then rest else es

-- `slowlogPushEntryIfNeeded`
unfoldable pub push_entry_if_needed : Log → List Arg → ℤ → ℤ → Log
push_entry_if_needed l argv duration now =
    if ltb_ℤ l.log_slower_than (pos 0)
    then l
    else let slow = not (ltb_ℤ duration l.log_slower_than) in
      let es = if slow then create_entry argv duration now l.entry_id ∷ l.entries else l.entries in
      record l {
        entries = trim (length es) l.max_len es;
        entry_id = if slow then l.entry_id + 1 else l.entry_id;
      }

-- `slowlogReset`
unfoldable pub reset_log : Log → Log
reset_log l = record l { entries = trim (length l.entries) 0 l.entries }

-- The loop of SLOWLOG GET: `count--` is 0 only where the count comes down to it.
unfoldable pub get_entries : ℤ → List Entry → List Entry
get_entries count [] = []
get_entries (pos zero) (e ∷ es) = []
get_entries (pos (suc n)) (e ∷ es) = e ∷ get_entries (pos n) es
get_entries (negsuc n) (e ∷ es) = e ∷ get_entries (negsuc (suc n)) es

-- The subcommand that the arguments of SLOWLOG name, with the count of GET where it is given.
pub data Subcommand : Type 0 where
  reset_entries : Subcommand
  len_entries : Subcommand
  get_default : Subcommand
  get_count : ℤ → Subcommand
  unknown : Subcommand

pub data Reply : Type 0 where
  ok : Reply
  number : ℕ → Reply
  rows : List Entry → Reply
  error : Reply

-- `slowlogCommand`
unfoldable pub slowlog_command : Log → Subcommand → Reply × Log
slowlog_command l reset_entries = (ok, reset_log l)
slowlog_command l len_entries = (number (length l.entries), l)
slowlog_command l get_default = (rows (get_entries (pos 10) l.entries), l)
slowlog_command l (get_count n) = (rows (get_entries n l.entries), l)
slowlog_command l unknown = (error, l)
