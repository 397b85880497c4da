-- ===== src/Multi/Steps/Exec.antt =====
-- EXEC: what it answers, and that a transaction whose key was touched never runs.
use mmog.Common.{
  ℕ, ◌≡◌, ◌≢◌, Option, none, refl, sym, ap, ◌∙◌, inl, inr, arith, leb, Bool, true, false, not, ◌||◌,
  some, List, [], ◌∷◌, length, ◌==◌, if◌then◌else◌, Bool-cases,
}
use mmog.Multi.{
  Key, WatchedKey, MultiCmd, Client, Server, Reply, set_client, unwatch_all_keys, touch_watched_key,
}
use mmog.Multi.Reply.{
  ok, discard_without_multi, exec_without_multi, exec_abort, null_multi_bulk, multi_bulk,
}
use mmog.Multi.Watch.{watching, Consistent, watch_for_key-Watches}
use mmog.Multi.Unwatch.{Unwatches, unwatch_all_keys-Unwatches}
use mmog.Multi.Touch.{dirty_if, touch_watched_key-Touches}
use mmog.Multi.Commands.{
  queue_multi_command, flag_transaction, multi_command, discard_command, clear_dirty,
  unwatch_command, discard_transaction, Executed, finished, exec_loop, exec_command,
  watches_flushed, touch_watched_keys_on_flush,
}
use mmog.Multi.Steps.{
  update-Consistent, client-set_client, AreQuiet, Discards, discard_transaction-Discards, Step,
  Steps, Doomed, update-Doomed,
}

fields_true :
    (b : Bool) (x : Client)
    → x.multi ≡ true
    → x.dirty_cas ≡ true
    → ((dirty_if b x).multi ≡ true) × ((dirty_if b x).dirty_cas ≡ true)
fields_true true x m d = (m, refl)
fields_true false x m d = (m, d)

same_fields-Doomed :
    {c : ℕ} {s : Server} (t : Server)
    → Consistent t
    → t.client c ≡ s.client c
    → Doomed c s
    → Doomed c t
same_fields-Doomed t v e h = record {
  valid = v;
  multi = ap (λ x. x.multi) e ∙ h.multi;
  dirty = ap (λ x. x.dirty_cas) e ∙ h.dirty;
}

same_result :
    (o : Option (Reply × Server)) (p r : Reply × Server) → o ≡ some p → o ≡ some r → p.1 ≡ r.1
same_result o p r e f = ap (λ (x : Reply × Server). x.1) (unwrap (sym e ∙ f))
  where
    unwrap : {a b : Reply × Server} → some a ≡ some b → a ≡ b
    unwrap h = cc

same_server : (o : Option Server) (p r : Server) → o ≡ some p → o ≡ some r → p ≡ r
same_server o p r e f = unwrap (sym e ∙ f)
  where
    unwrap : {a b : Server} → some a ≡ some b → a ≡ b
    unwrap h = cc

flush-Doomed :
    {c : ℕ} (cs : List ℕ) (s : Server) (dbid : Option ℕ) (present : WatchedKey → Bool)
    → Doomed c s
    → Doomed c (touch_watched_keys_on_flush s cs dbid present)
unfolding touch_watched_keys_on_flush
flush-Doomed [] s dbid present h = h
flush-Doomed {c} (q ∷ cs) s dbid present h =
    flush-Doomed cs _ dbid present
      (by_flag (watches_flushed dbid present (s.client q).watched_keys))
  where
    by_flag :
        (b : Bool)
        → Doomed c (if b then set_client s q (record (s.client q) { dirty_cas = true }) else s)
    by_flag true = update-Doomed c s q _ refl (λ e. e) (λ e. refl) h
    by_flag false = h

-- Whether one of the commands is no read-only one.
unfoldable pub writes : List MultiCmd → Bool
writes [] = false
writes (mc ∷ mcs) = not mc.readonly || writes mcs

module _ (call : Server → ℕ → MultiCmd → Server) where
  exec_loop-Doomed :
      {c : ℕ} (s : Server) (q : ℕ) (mcs : List MultiCmd) (must : Bool)
      → AreQuiet call c mcs
      → q ≢ c
      → Doomed c s
      → Doomed c (exec_loop call s q mcs must).2
  unfolding exec_loop
  exec_loop-Doomed s q [] must quiet ne h = h
  exec_loop-Doomed {c} s q (mc ∷ mcs) must quiet ne h =
      let (v, (b, marked)) = quiet.0 s q ne h.valid in
      let (m, d) = fields_true b (s.client c) h.multi h.dirty in
      exec_loop-Doomed (call s q mc) q mcs (must || not mc.readonly) quiet.1 ne (record {
        valid = v;
        multi = ap (λ x. x.multi) marked ∙ m;
        dirty = ap (λ x. x.dirty_cas) marked ∙ d;
      })

  -- Discarding the transaction of another client.
  discard-Doomed :
      {c : ℕ} (s : Server) (q : ℕ) (r : Reply) (called : List MultiCmd) (must : Bool) (e : Executed)
      → q ≢ c
      → finished call r called must (discard_transaction s q) ≡ some e
      → Doomed c s
      → Doomed c e.server
  discard-Doomed {c} s q r called must e ne ran h =
      let (u, done, w) = discard_transaction-Discards s q h.valid in
      let result : u ≡ e.server =
        same_executed (finished call r called must (discard_transaction s q)) u e (rw done refl)
          ran in
      rw (sym result) (same_fields-Doomed u w.valid (w.others c (λ f. ne (sym f))) h)
    where
      same_executed :
          (o : Option Executed) (u : Server) (e : Executed)
          → o ≡ some (record { reply = r; called = called; must_propagate = must; server = u })
          → o ≡ some e
          → u ≡ e.server
      same_executed o u e p q = ap (λ (x : Executed). x.server) (unwrap (sym p ∙ q))
        where
          unwrap : {a b : Executed} → some a ≡ some b → a ≡ b
          unwrap h = cc

  exec_command-Doomed :
      {c : ℕ} (s : Server) (q : ℕ) (e : Executed)
      → AreQuiet call c (s.client q).commands
      → q ≢ c
      → exec_command call s q ≡ some e
      → Doomed c s
      → Doomed c e.server
  unfolding exec_command
  exec_command-Doomed {c} s q e quiet ne ran h = elim (Bool-cases (s.client q).multi) [
    | inr idle ↦
        let answered : exec_command call s q ≡ finished call exec_without_multi [] false (some s) =
          rw (idle, exec_command) refl in
        let result : s ≡ e.server = ap server_of (sym answered ∙ ran) in rw (sym result) h
    | inl multi ↦ elim (Bool-cases ((s.client q).dirty_cas || (s.client q).dirty_exec)) [
      | inl dirty ↦ discard-Doomed s q _ [] false e ne (rw (multi, exec_command, dirty) at ran) h
      | inr clean ↦
          let (t, left, w) = unwatch_all_keys-Unwatches s q h.valid in
          let kept = same_fields-Doomed t w.valid (w.others c (λ f. ne (sym f))) h in
          discard-Doomed _ q _ _ _ e ne (rw (multi, exec_command, clean, left) at ran)
            (exec_loop-Doomed t q (s.client q).commands false quiet ne kept)
    ]
  ]
    where
      server_of : Option Executed → Server
      server_of none = s
      server_of (some x) = x.server

  Step-Doomed : {c : ℕ} {s t : Server} → Step call c s t → Doomed c s → Doomed c t
  unfolding queue_multi_command multi_command flag_transaction unwatch_command discard_command
      clear_dirty
  Step-Doomed {c} {s} (Step.watches q key) h =
      let w = watch_for_key-Watches s q key h.valid in
      record {
        valid = w.valid;
        multi = ap (λ x. x.multi) (w.flags c) ∙ h.multi;
        dirty = ap (λ x. x.dirty_cas) (w.flags c) ∙ h.dirty;
      }
  Step-Doomed {c} {s} (Step.touches db key) h =
      let w = touch_watched_key-Touches s db key h.valid in
      let (m, d) = fields_true (leb 1 (watching s c (key, db))) (s.client c) h.multi h.dirty in
      record {
        valid = w.valid;
        multi = ap (λ x. x.multi) (w.clients c) ∙ m;
        dirty = ap (λ x. x.dirty_cas) (w.clients c) ∙ d;
      }
  Step-Doomed {c} {s} (Step.queues q mc) h = update-Doomed c s q _ refl (λ e. e) (λ e. e) h
  Step-Doomed {c} {s} (Step.begins q) h = elim (Bool-cases (s.client q).multi) [
    | inl e ↦ rw (e, multi_command) h
    | inr e ↦ rw (e, multi_command) (update-Doomed c s q _ refl (λ f. refl) (λ f. f) h)
  ]
  Step-Doomed {c} {s} (Step.fails q) h = elim (Bool-cases (s.client q).multi) [
    | inl e ↦
        rw (e, flag_transaction)
          (update-Doomed c s q (record (s.client q) { multi = true; dirty_exec = true }) refl
            (λ f. refl) (λ f. f) h)
    | inr e ↦ rw (e, flag_transaction) h
  ]
  Step-Doomed {c} {s} (Step.unwatches q r t ne e) h =
      let (u, ran, w) = unwatch_all_keys-Unwatches s q h.valid in
      let result =
        same_result (unwatch_command s q) (ok, clear_dirty u q) (r, t)
          (rw (ran, unwatch_command) refl) e in
      let apart : (c == q) ≡ false = ground arith in
      rw (sym result) (
        same_fields-Doomed (clear_dirty u q) (update-Consistent u q _ refl w.valid)
          (client-set_client u q c _ ∙ rw apart (w.others c (λ f. ne (sym f)))) h)
  Step-Doomed {c} {s} (Step.discards q r t ne e) h = elim (Bool-cases (s.client q).multi) [
    | inr m ↦
        let result =
          same_result (discard_command s q) (discard_without_multi, s) (r, t)
            (rw (m, discard_command) refl) e in
        rw (sym result) h
    | inl m ↦
        let (u, ran, w) = discard_transaction-Discards s q h.valid in
        let result =
          same_result (discard_command s q) (ok, u) (r, t) (rw (m, discard_command, ran) refl) e in
        rw (sym result) (same_fields-Doomed u w.valid (w.others c (λ f. ne (sym f))) h)
  ]
  Step-Doomed {c} {s} (Step.flushes cs dbid present) h = flush-Doomed cs s dbid present h
  Step-Doomed {c} {s} (Step.selects q db) h = update-Doomed c s q _ refl (λ e. e) (λ e. e) h
  Step-Doomed {c} {s} (Step.executes q e ne quiet ran) h = exec_command-Doomed s q e quiet ne ran h
  Step-Doomed {c} {s} (Step.disconnects q t ne e) h =
      let (u, ran, w) = unwatch_all_keys-Unwatches s q h.valid in
      let result : u ≡ t = same_server (unwatch_all_keys s q) u t ran e in
      rw (sym result) (same_fields-Doomed u w.valid (w.others c (λ f. ne (sym f))) h)

  Steps-Doomed : {c : ℕ} {s t : Server} → Steps call c s t → Doomed c s → Doomed c t
  Steps-Doomed Steps.done h = h
  Steps-Doomed (Steps.next before last) h = Step-Doomed last (Steps-Doomed before h)

  -- EXEC in a transaction that has one of the two dirty flags runs no command: it answers with an
  -- error if a command was refused while queueing, and otherwise with a nil, and ends the
  -- transaction.
  pub exec_command-aborts :
      (s : Server) (c : ℕ)
      → Consistent s
      → (s.client c).multi ≡ true
      → ((s.client c).dirty_cas || (s.client c).dirty_exec) ≡ true
      → (t : Server) × (exec_command call s c
          ≡ some (record {
            reply = if (s.client c).dirty_exec then exec_abort else null_multi_bulk;
            called = [];
            must_propagate = false;
            server = t;
          }))
        × Discards s c t
  unfolding exec_command
  exec_command-aborts s c v multi dirty =
      let (t, ran, d) = discard_transaction-Discards s c v in
      (t, rw (multi, exec_command, dirty, ran) refl, d)

  -- Optimistic locking: let a client in MULTI watch a key that is touched. Then clients take steps in
  -- any order and number: any client watches or touches a key, flushes, selects a database, begins,
  -- queues or has a command refused, and any other client unwatches, discards, disconnects or executes
  -- its transaction, whose commands keep the server consistent and leave this client alone, but that
  -- they may touch its keys. The next EXEC of the client then runs no command and ends the transaction.
  pub touched-aborts :
      (s t : Server) (c db : ℕ) (key : Key)
      → Consistent s
      → (s.client c).multi ≡ true
      → watching s c (key, db) ≡ 1
      → Steps call c (touch_watched_key s db key) t
      → (u : Server) × (exec_command call t c
          ≡ some (record {
            reply = if (t.client c).dirty_exec then exec_abort else null_multi_bulk;
            called = [];
            must_propagate = false;
            server = u;
          }))
        × Discards t c u
  touched-aborts s t c db key v multi watched steps =
      let w = touch_watched_key-Touches s db key v in
      let marked = w.clients c ∙ ap (λ (n : ℕ). dirty_if (leb 1 n) (s.client c)) watched in
      let start : Doomed c (touch_watched_key s db key) = record {
        valid = w.valid;
        multi = ap (λ x. x.multi) marked ∙ multi;
        dirty = ap (λ x. x.dirty_cas) marked;
      } in
      let h = Steps-Doomed steps start in exec_command-aborts t c h.valid h.multi (rw h.dirty refl)

  -- The server after commands that are run one after the other.
  unfoldable pub after_all : Server → ℕ → List MultiCmd → Server
  after_all s c [] = s
  after_all s c (mc ∷ mcs) = after_all (call s c mc) c mcs

  exec_loop_lem :
      ((s : Server) (c : ℕ) (mc : MultiCmd) → Consistent s → Consistent (call s c mc))
      → (s : Server) (c : ℕ) (mcs : List MultiCmd) (must : Bool) → Consistent s
      → Consistent (after_all s c mcs)
        × (exec_loop call s c mcs must ≡ (mcs, must || writes mcs, after_all s c mcs))
  unfolding exec_loop writes after_all
  exec_loop_lem keep s c [] true v = (v, refl)
  exec_loop_lem keep s c [] false v = (v, refl)
  exec_loop_lem keep s c (mc ∷ mcs) must v =
      let t = call s c mc in
      let (valid, all) = exec_loop_lem keep t c mcs (must || not mc.readonly) (keep s c mc v) in
      (
        valid,
        ap (λ (r : List MultiCmd × Bool × Server). (mc ∷ r.0, r.1, r.2)) all
            ∙ ap (λ (b : Bool). (mc ∷ mcs, b, after_all t c mcs))
                (or_assoc must (not mc.readonly) (writes mcs)),
      )
    where
      or_assoc : (a b d : Bool) → ((a || b) || d) ≡ (a || (b || d))
      or_assoc true b d = refl
      or_assoc false b d = refl

  -- EXEC in a clean transaction unwatches its keys, calls the queued commands, all of them and in their
  -- order, each on the server that the one before leaves, answers with their number, propagates a MULTI exactly if one of them is no read-only command, and ends
  -- the transaction, provided that running a command keeps the server consistent.
  pub exec_command-runs :
      (s : Server) (c : ℕ)
      → ((s : Server) (c : ℕ) (mc : MultiCmd) → Consistent s → Consistent (call s c mc))
      → Consistent s
      → (s.client c).multi ≡ true
      → ((s.client c).dirty_cas || (s.client c).dirty_exec) ≡ false
      → (t u : Server) × Unwatches s c [] t
        × Discards (after_all t c (s.client c).commands) c u
        × (exec_command call s c
            ≡ some (record {
              reply = multi_bulk (length (s.client c).commands);
              called = (s.client c).commands;
              must_propagate = writes (s.client c).commands;
              server = u;
            }))
  unfolding exec_command
  exec_command-runs s c keep v multi clean =
      let (t, left, w) = unwatch_all_keys-Unwatches s c v in
      let (valid, all) = exec_loop_lem keep t c (s.client c).commands false w.valid in
      let (u, ran, d) =
        discard_transaction-Discards (after_all t c (s.client c).commands) c valid in
      (t, u, w, d, rw (multi, exec_command, clean, left, all, ran) refl)
