-- ===== src/Slowlog/Entries.antt =====
-- The slow log as its commands see it.
use mmog.Common.{
  ℕ, zero, suc, ◌+◌, ◌-◌, ◌≤◌, ◌<◌, ◌≡◌, refl, ◌∙◌, inl, inr, arith, min, List, [], ◌∷◌, length,
  take, ltb, if◌then◌else◌, Bool-cases, ℤ, pos, negsuc, ltb_ℤ,
}
use mmog.Slowlog.{
  Arg, Entry, Log, max_argc, copy_args, create_entry, push_entry_if_needed, reset_log,
  slowlog_command,
}
use mmog.Slowlog.Reply.{rows}
use mmog.Slowlog.Subcommand.{reset_entries, get_count}
use mmog.Slowlog.Trim.{trim_lem, get_entries_lem, get_entries_negative}

length-copy_args :
    (argc slargc j : ℕ) (args : List Arg)
    → length (copy_args argc slargc j args) ≡ min (length args) (slargc - j)
unfolding copy_args
length-copy_args argc slargc j [] = omega arith
length-copy_args argc slargc j (a ∷ args) = elim (Bool-cases (ltb j slargc)) [
  | inl e ↦
      let more : j < slargc = ground arith in
      rw e (omega (arith, length-copy_args argc slargc (j + 1) args))
  | inr e ↦ let no_more : slargc ≤ j = ground arith in rw e (omega arith)
]

-- An entry keeps all arguments of its command, or 32 of more.
pub length-create_entry :
    (argv : List Arg) (duration now : ℤ) (id : ℕ)
    → length (create_entry argv duration now id).argv ≡ min (length argv) max_argc
unfolding create_entry
length-create_entry argv duration now id =
    length-copy_args (length argv) (if ltb max_argc (length argv) then max_argc else length argv) 0
      argv
    ∙ ground arith

-- After a command the log holds the newest entries, as many as `slowlog_max_len` allows, the one of
-- this command in front if it was slow; a log that is switched off is left alone.
pub push_entry_if_needed_lem :
    (l : Log) (argv : List Arg) (duration now : ℤ)
    → (push_entry_if_needed l argv duration now).entries ≡ (
        if ltb_ℤ l.log_slower_than (pos 0)
        then l.entries
        else take l.max_len (
            if ltb_ℤ duration l.log_slower_than
            then l.entries
            else create_entry argv duration now l.entry_id ∷ l.entries))
unfolding push_entry_if_needed
push_entry_if_needed_lem l argv duration now = elim (Bool-cases (ltb_ℤ l.log_slower_than (pos 0))) [
  | inl off ↦ rw off refl
  | inr on ↦ rw on (elim (Bool-cases (ltb_ℤ duration l.log_slower_than)) [
    | inl fast ↦ rw fast (trim_lem (length l.entries) l.max_len l.entries (omega arith))
    | inr slow ↦ rw slow (
        trim_lem (suc (length l.entries)) l.max_len
          (create_entry argv duration now l.entry_id ∷ l.entries) (omega arith))
  ])
]

-- The ids fall from the front of the list to its end, all below the bound.
unfoldable pub Descending : ℕ → List Entry → Type 0
Descending bound [] = Unit
Descending bound (e ∷ es) = (e.id < bound) × Descending e.id es

Descending-take :
    (n bound : ℕ) (es : List Entry) → Descending bound es → Descending bound (take n es)
unfolding Descending
Descending-take zero bound es h = tt
Descending-take (suc n) bound [] h = tt
Descending-take (suc n) bound (e ∷ es) h = (h.0, Descending-take n e.id es h.1)

-- The ids of the log stay unique and in order: if they fall from the front and are below the next
-- id, they do so after any command.
pub push_entry_if_needed-Descending :
    (l : Log) (argv : List Arg) (duration now : ℤ)
    → Descending l.entry_id l.entries
    → let m = push_entry_if_needed l argv duration now in Descending m.entry_id m.entries
unfolding push_entry_if_needed Descending
push_entry_if_needed-Descending l argv duration now h =
    elim (Bool-cases (ltb_ℤ l.log_slower_than (pos 0))) [
      | inl off ↦ rw off h
      | inr on ↦ rw on (elim (Bool-cases (ltb_ℤ duration l.log_slower_than)) [
        | inl fast ↦
            rw (fast, trim_lem (length l.entries) l.max_len l.entries (omega arith))
              (Descending-take l.max_len l.entry_id l.entries h)
        | inr slow ↦
            rw
              (
                slow,
                trim_lem (suc (length l.entries)) l.max_len
                    (create_entry argv duration now l.entry_id ∷ l.entries) (omega arith),
              )
              (Descending-take l.max_len (l.entry_id + 1)
                (create_entry argv duration now l.entry_id ∷ l.entries)
                (unfold create_entry in (omega arith, h)))
      ])
    ]

-- SLOWLOG GET with a count answers with the newest entries, that many of them, and with all where
-- the count is negative; SLOWLOG RESET leaves none.
pub slowlog_command_lem :
    (l : Log) (n : ℕ)
    → (slowlog_command l (get_count (pos n)) ≡ (rows (take n l.entries), l))
      × (slowlog_command l (get_count (negsuc n)) ≡ (rows l.entries, l))
      × ((slowlog_command l reset_entries).1.entries ≡ [])
unfolding slowlog_command reset_log
slowlog_command_lem l n = (
  rw (get_entries_lem n l.entries) refl,
  rw (get_entries_negative n l.entries) refl,
  trim_lem (length l.entries) 0 l.entries (omega arith),
)
