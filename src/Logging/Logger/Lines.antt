-- ===== src/Logging/Logger/Lines.antt =====
-- A run of log statements writes the lines that they are for, as if the time had been formatted for each.
use so_l.Common.{
  ℕ, ◌/◌, ◌%◌, ◌≤◌, ◌<◌, ◌≡◌, ◌⊎◌, inl, inr, sym, ap, subst, ◌∙◌, Bool, true, false, ◌==◌,
  if◌then◌else◌, Bool-cases, Option, none, some, List, [], ◌∷◌, ◌++◌, length, ◌>>=◌, Ensures, arith,
}
use so_l.Calendar.Utc.{Tm}
use so_l.TimeZone.{Data}
use so_l.Logging.FixedBuffer.{FixedBuffer, new_buffer}
use so_l.Logging.Stream.{Item, put_all}
use so_l.Logging.Stream.Lines.{AllPrintable}
use so_l.Logging.Logger.{
  Environment, LogLevel, fatal_level, Call, level_of, is_enabled, text, func_items, Log, print_time,
  print_micros, micros_length, level_named, close, finish_items, Op, statement_op, level_op,
  named_op, zone_op, civil, refresh, put_time, format_time, head_items, impl, log,
}
use so_l.Logging.Logger.Texts.{
  put_all-++, put_thrice, beside, >>=-assoc, >>=-under, IsPrinted, length-print_time,
  length-print_micros,
}

abbrev pub is_fatal : LogLevel → Bool
is_fatal fatal_level = true
is_fatal level = false

module _ (env : Environment) where
  -- The text that is kept is that of the second that is kept, if there is one.
  abbrev pub IsCached : Log → Type 0
  IsCached s =
      (s.last_second ≡ 0)
      ⊎ Ensures (λ tm. s.time_text ≡ print_time tm) (civil env s.zone s.last_second)

  abbrev pub stamped : Log → ℕ → Tm → Log
  stamped s seconds tm = record s { last_second = seconds; time_text = print_time tm }

  refresh-stamped :
      (s : Log) (seconds : ℕ) (tm : Tm)
      → IsCached s
      → 1 ≤ seconds
      → civil env s.zone seconds ≡ some tm
      → IsPrinted tm
      → refresh env seconds s ≡ some (stamped s seconds tm)
  unfolding refresh
  refresh-stamped s seconds tm cached later at printed =
      elim (Bool-cases (seconds == s.last_second)) [
        | inl same ↦
            let e : seconds ≡ s.last_second = ground (arith, same) in
            rw same (elim cached [
              | inl never ↦ absurd (omega (arith, e, never))
              | inr kept ↦
                  let here : s.time_text ≡ print_time tm =
                    subst (Ensures (λ tm. s.time_text ≡ print_time tm))
                      (ap (civil env s.zone) (sym e) ∙ at) kept in
                  ap (λ n. some (record s { last_second = n })) (sym e)
                  ∙ ap (λ x. some (record s { last_second = seconds; time_text = x })) here
            ])
        | inr other ↦ rw other (
            ap
              (λ m. m >>= λ tm.
                if length (print_time tm) == 17 then some (stamped s seconds tm) else none)
              at
            ∙ ap (λ n. if n == 17 then some (stamped s seconds tm) else none)
                (length-print_time tm printed))
      ]

  -- The head of a line.
  abbrev pub time_items : Option Data → Tm → ℕ → List Item
  time_items zone tm time = text (print_time tm) ∷ text (print_micros zone (time % 1000000)) ∷ []

  format_time-stamped :
      (s : Log) (time : ℕ) (tm : Tm)
      → IsCached s
      → 1 ≤ time / 1000000
      → civil env s.zone (time / 1000000) ≡ some tm
      → IsPrinted tm
      → format_time env time s ≡ (
          put_all (new_buffer 4000) (time_items s.zone tm time) >>= λ b.
          some (stamped s (time / 1000000) tm, b))
  unfolding format_time put_time
  format_time-stamped s time tm cached later at printed =
      let seconds = time / 1000000 in
      let micros = print_micros s.zone (time % 1000000) in
      let puts : Option (Log × FixedBuffer) =
        put_all (new_buffer 4000) (time_items s.zone tm time) >>= λ b.
        some (stamped s seconds tm, b) in
      let sized : length micros ≡ micros_length s.zone =
        length-print_micros s.zone (time % 1000000) (omega arith) in
      let same : (length micros == micros_length s.zone) ≡ true = ground (arith, sized) in
      let long : (length (print_time tm) == 17) ≡ true =
        ground (arith, length-print_time tm printed) in
      ap (λ r. r >>= λ t. put_time env time t)
        (refresh-stamped s seconds tm cached later at printed)
      ∙ ap (λ b. if b then (if length (print_time tm) == 17 then puts else none) else none) same
      ∙ ap (λ b. if b then puts else none) long

  -- All that a line is made of, in order.
  abbrev pub line_items : Option Data → Tm → Call → List Item
  line_items zone tm c =
      time_items zone tm c.time
      ++ (head_items env c ++ ((func_items c.statement c.func ++ c.items) ++ finish_items c))

  pub log-line_items :
      (s : Log) (c : Call) (tm : Tm)
      → IsCached s
      → is_enabled s.log_level c.statement ≡ true
      → 1 ≤ c.time / 1000000
      → civil env s.zone (c.time / 1000000) ≡ some tm
      → IsPrinted tm
      → log env s c ≡ (
          put_all (new_buffer 4000) (line_items s.zone tm c) >>= λ b.
          some (close (level_of c.statement) (stamped s (c.time / 1000000) tm) b))
  unfolding log impl
  log-line_items s c tm cached enabled later at printed =
      let t = stamped s (c.time / 1000000) tm in
      let own = func_items c.statement c.func ++ c.items in
      let head : FixedBuffer → Option (Log × FixedBuffer) =
        λ b. put_all b (head_items env c) >>= λ b. some (t, b) in
      let rest : Log × FixedBuffer → Option Log = λ r. put_all r.1 own >>= λ b.
      put_all b (finish_items c) >>= λ b. some (close (level_of c.statement) r.0 b) in
      let behind = head_items env c ++ (own ++ finish_items c) in
      let ended : FixedBuffer → Log = λ b. close (level_of c.statement) t b in
      let timed = put_all (new_buffer 4000) (time_items s.zone tm c.time) in
      rw enabled (
        ap (λ m. (m >>= λ r. put_all r.1 (head_items env c) >>= λ b. some (r.0, b)) >>= rest)
          (format_time-stamped s c.time tm cached later at printed)
        ∙ ap (λ m. m >>= rest)
            (beside t timed (λ r. put_all r.1 (head_items env c) >>= λ b. some (r.0, b)))
        ∙ >>=-assoc timed head rest
        ∙ >>=-under timed (λ b. head b >>= rest) (λ b. put_all b behind >>= λ b. some (ended b))
            (λ b.
              beside t (put_all b (head_items env c)) rest
              ∙ put_thrice b (head_items env c) own (finish_items c) ended)
        ∙ sym (>>=-assoc timed (λ b. put_all b behind) (λ b. some (ended b)))
        ∙ ap (λ m. m >>= λ b. some (ended b))
            (sym (put_all-++ (new_buffer 4000) (time_items s.zone tm c.time) behind)))

  -- The line of a log statement, with its time formatted afresh.
  abbrev pub line_of : Option Data → Call → Option (List ℕ)
  line_of tz c = civil env tz (c.time / 1000000) >>= λ tm.
      put_all (new_buffer 4000) (line_items tz tm c) >>= λ b. some b.bytes

  -- The lines of a list of statements and settings of the level, up to a fatal one.
  unfoldable pub lines : Option Data → LogLevel → List Op → Option (List (List ℕ))
  lines tz level [] = some []
  lines tz level (statement_op c ∷ ops) =
      let rest = lines tz level ops in
      if is_enabled level c.statement
      then (line_of tz c >>= λ l.
          if is_fatal (level_of c.statement) then some (l ∷ []) else (rest >>= λ ls. some (l ∷ ls)))
      else rest
  lines tz level (level_op new ∷ ops) = lines tz new ops
  lines tz level (named_op name ∷ ops) = lines tz (level_named name level) ops
  lines tz level (zone_op new ∷ ops) = lines (some new) level ops

  -- Statements later than the first second of the epoch, whose time has a civil form that fits the format and
  -- whose numbers have 64 bits; the time zone stays.
  abbrev pub IsLoggable : Option Data → Op → Type 0
  IsLoggable tz (statement_op c) =
      (1 ≤ c.time / 1000000)
      × Ensures IsPrinted (civil env tz (c.time / 1000000))
      × AllPrintable c.items
      × (c.line < 18446744073709551616)
      × (c.errno < 18446744073709551616)
  IsLoggable tz (level_op new) = Unit
  IsLoggable tz (named_op name) = Unit
  IsLoggable tz (zone_op new) = ⊥

  abbrev pub AllLoggable : Option Data → List Op → Type 0
  AllLoggable tz [] = Unit
  AllLoggable tz (op ∷ ops) = IsLoggable tz op × AllLoggable tz ops
