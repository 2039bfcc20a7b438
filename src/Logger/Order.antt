-- ===== src/Logger/Order.antt =====
-- src/logger.cc: the order of the lines of the asynchronous logger.
use hxrpc.Common.{
  ◌≡◌, refl, sym, ap, ◌∙◌, true, List, [], ◌∷◌, ◌++◌, map, append_assoc, append-nil, Bytes, ltb,
  if◌then◌else◌, arith, Bool-cases, inl, inr, subst, ap₂,
}
use hxrpc.Logger.{
  LogEntry, LoggerImpl, rank, write_unlocked, write, take_batch, write_first, write_next, stop,
  has_ended, Logs, end, writes, takes, prints, stops,
}
use hxrpc.Settings.Parse.{LogLevel}

-- The entries that pass the filter.
abbrev pub kept : LogLevel → List LogEntry → List LogEntry
kept min [] = []
kept min (e ∷ es) = if ltb (rank e.level) (rank min) then kept min es else e ∷ kept min es

module _ (format_line : LogEntry → Bytes) where
  lines-append :
      (a b : List LogEntry) → map format_line (a ++ b) ≡ map format_line a ++ map format_line b
  lines-append [] b = refl
  lines-append (e ∷ a) b = ap (◌∷◌ (format_line e)) (lines-append a b)

  -- What the standard error stream holds once the batch and the queue are printed.
  abbrev pub due : LoggerImpl → List Bytes
  due l = l.err ++ map format_line (l.batch ++ l.queue)

  -- The asynchronous mode with the standard error stream.
  abbrev pub IsAsync : LoggerImpl → Type 0
  IsAsync l = (l.options.async_enabled ≡ true) × (l.options.stderr_enabled ≡ true)

  -- The lines of `ks` are due behind those of `l`, and the options are the same.
  record Follows (l : LoggerImpl) (ks : List LogEntry) (m : LoggerImpl) : Type 0 where
    same_options : m.options ≡ l.options
    adds : due m ≡ due l ++ map format_line ks

  due-write :
      (e : LogEntry) (l : LoggerImpl)
      → IsAsync l
      → due (write format_line e l) ≡ due l ++ map format_line (kept l.options.min_level (e ∷ []))
  unfolding write
  due-write e l (async, err) = elim (Bool-cases (ltb (rank e.level) (rank l.options.min_level))) [
    | inl low ↦ rw (low, kept) (sym (append-nil (due l)))
    | inr high ↦
        rw (high, async, kept)
          (ap (λ x. l.err ++ map format_line x) (sym (append_assoc l.batch l.queue (e ∷ [])))
            ∙ ap (◌++◌ l.err) (lines-append (l.batch ++ l.queue) (e ∷ []))
            ∙ sym (append_assoc l.err (map format_line (l.batch ++ l.queue)) (format_line e ∷ [])))
  ]

  options-write : (e : LogEntry) (l : LoggerImpl) → (write format_line e l).options ≡ l.options
  unfolding write write_unlocked
  options-write e l = ground arith

  due-take_batch : (l : LoggerImpl) → due (take_batch format_line l) ≡ due l
  unfolding take_batch
  due-take_batch l = ap (λ x. l.err ++ map format_line x) (append-nil (l.batch ++ l.queue))

  due-write_first :
      (es : List LogEntry) (l : LoggerImpl)
      → l.batch ≡ es
      → l.options.stderr_enabled ≡ true
      → due (write_first format_line es l) ≡ due l
  unfolding write_first write_unlocked
  due-write_first [] l e err = refl
  due-write_first (x ∷ es) l e err = rw err (
      append_assoc l.err (format_line x ∷ []) (map format_line (es ++ l.queue))
      ∙ ap (λ b. l.err ++ map format_line (b ++ l.queue)) (sym e))

  options-write_first :
      (es : List LogEntry) (l : LoggerImpl) → (write_first format_line es l).options ≡ l.options
  unfolding write_first write_unlocked
  options-write_first [] l = refl
  options-write_first (x ∷ es) l = refl

  kept-cons :
      (min : LogLevel) (e : LogEntry) (es : List LogEntry)
      → kept min (e ∷ es) ≡ kept min (e ∷ []) ++ kept min es
  kept-cons min e es = ground arith

  Follows-append :
      {l m n : LoggerImpl} {a b : List LogEntry}
      → Follows l a m
      → Follows m b n
      → Follows l (a ++ b) n
  Follows-append {l} {a} {b} f g = record {
    same_options = g.same_options ∙ f.same_options;
    adds =
        g.adds
        ∙ ap (λ x. x ++ map format_line b) f.adds
        ∙ append_assoc (due l) (map format_line a) (map format_line b)
        ∙ ap (◌++◌ (due l)) (sym (lines-append a b));
  }

  -- A step that brings in no entry.
  idle : (l m : LoggerImpl) → m.options ≡ l.options → due m ≡ due l → Follows l [] m
  idle l m o e = record { same_options = o; adds = e ∙ sym (append-nil (due l)) }

  Logs-Follows :
      {l m : LoggerImpl} {es : List LogEntry}
      → Logs format_line l es m
      → IsAsync l
      → Follows l (kept l.options.min_level es) m
  unfolding take_batch write_next stop
  Logs-Follows (end {l}) a = idle l l refl refl
  Logs-Follows (writes {l} {m} {es} e rest) a =
      let o = options-write e l in
      let later = Logs-Follows rest (rw o a) in
      subst (λ ks. Follows l ks m) (sym (kept-cons l.options.min_level e es))
        (Follows-append (record { same_options = o; adds = due-write e l a })
          (subst (λ x. Follows (write format_line e l) (kept x.min_level es) m) o later))
  Logs-Follows (takes {l} rest) a =
      Follows-append (idle l (take_batch format_line l) refl (due-take_batch l))
        (Logs-Follows rest a)
  Logs-Follows (prints {l} {m} {es} rest) a =
      let o = options-write_first l.batch l in
      Follows-append (idle l (write_next format_line l) o (due-write_first l.batch l refl a.1)) (
        subst (λ x. Follows (write_next format_line l) (kept x.min_level es) m) o
          (Logs-Follows rest (rw o a)))
  Logs-Follows (stops {l} rest) a = Follows-append (idle l (stop l) refl refl) (Logs-Follows rest a)

  -- When the worker of an asynchronous logger with the standard error stream has ended, in a run
  -- with no Configure, the stream has got the lines of every entry that passed the filter, each
  -- once and in the order of the writes, behind what was due before: stopping loses nothing.
  pub err-Logs :
      {l m : LoggerImpl} {es : List LogEntry}
      → Logs format_line l es m
      → IsAsync l
      → has_ended m ≡ true
      → m.err ≡ due l ++ map format_line (kept l.options.min_level es)
  unfolding has_ended
  err-Logs {m} run a ended =
      let empty : (m.batch ≡ []) × (m.queue ≡ []) = ground arith in
      sym (append-nil m.err)
      ∙ ap (λ x. m.err ++ map format_line x) (ap₂ ◌++◌ (sym empty.0) (sym empty.1))
      ∙ (Logs-Follows run a).adds
