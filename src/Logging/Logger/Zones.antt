-- ===== src/Logging/Logger/Zones.antt =====
-- A new time zone does not change the text of a second that is kept.
use so_l.Common.{
  ℕ, ◌/◌, ◌%◌, ◌≡◌, inl, inr, refl, sym, ap, ◌∙◌, true, ◌==◌, if◌then◌else◌, Bool-cases, Option,
  none, some, List, [], ◌∷◌, ◌++◌, length, ◌>>=◌, arith,
}
use so_l.TimeZone.{Data}
use so_l.Logging.FixedBuffer.{FixedBuffer, new_buffer}
use so_l.Logging.Stream.{put_all}
use so_l.Logging.Logger.{
  Environment, LogLevel, trace_level, debug_level, info_level, warn_level, error_level, fatal_level,
  Call, level_of, is_enabled, text, func_items, Log, print_micros, close, finish_items,
  set_time_zone, refresh, put_time, format_time, head_items, impl, log,
}

-- The lines that are written by then.
abbrev pub written_by : Option Log → Option (List (List ℕ))
written_by m = m >>= λ t. some t.written

written-close :
    (level : LogLevel) (t : Log) (b : FixedBuffer)
    → (close level t b).written ≡ t.written ++ (b.bytes ∷ [])
unfolding close
written-close trace_level t b = refl
written-close debug_level t b = refl
written-close info_level t b = refl
written-close warn_level t b = refl
written-close error_level t b = refl
written-close fatal_level t b = refl

abbrev paired : Log → FixedBuffer → Option (Log × FixedBuffer)
paired t b = some (t, b)

-- A stream that goes through the parts of a statement, beside a log that stays.
through :
    (t : Log) (level : LogLevel) (p q r : FixedBuffer → Option FixedBuffer) (m : Option FixedBuffer)
    → written_by (
        ((m >>= λ b. paired t b) >>= λ x. p x.1 >>= λ b. paired x.0 b) >>= λ x.
        q x.1 >>= λ b. r b >>= λ b. some (close level x.0 b))
      ≡ (m >>= λ b. p b >>= λ b. q b >>= λ b. r b >>= λ b. some (t.written ++ (b.bytes ∷ [])))
through t level p q r none = refl
through t level p q r (some b) = second (p b)
  where
    fourth :
        (m : Option FixedBuffer)
        → written_by (m >>= λ b. some (close level t b))
          ≡ (m >>= λ b. some (t.written ++ (b.bytes ∷ [])))
    fourth none = refl
    fourth (some b) = ap some (written-close level t b)

    third :
        (m : Option FixedBuffer)
        → written_by (m >>= λ b. r b >>= λ b. some (close level t b))
          ≡ (m >>= λ b. r b >>= λ b. some (t.written ++ (b.bytes ∷ [])))
    third none = refl
    third (some b) = fourth (r b)

    second :
        (m : Option FixedBuffer)
        → written_by
            ((m >>= λ b. paired t b) >>= λ x. q x.1 >>= λ b. r b >>= λ b. some (close level x.0 b))
          ≡ (m >>= λ b. q b >>= λ b. r b >>= λ b. some (t.written ++ (b.bytes ∷ [])))
    second none = refl
    second (some b) = third (q b)

module _ (env : Environment) where
  -- What a statement writes in the second that is kept, with the text that is kept.
  abbrev kept : Log → Call → Data → Option (List (List ℕ))
  kept s c tz =
      put_all (new_buffer 4000)
        (text s.time_text ∷ text (print_micros (some tz) (c.time % 1000000)) ∷ [])
      >>= λ b. put_all b (head_items env c) >>= λ b.
          put_all b (func_items c.statement c.func ++ c.items) >>= λ b.
          put_all b (finish_items c) >>= λ b. some (s.written ++ (b.bytes ∷ []))

  log-kept :
      (s : Log) (c : Call) (tz : Data)
      → (c.time / 1000000 == s.last_second) ≡ true
      → written_by (log env (set_time_zone tz s) c) ≡ (
          if is_enabled s.log_level c.statement
          then (if length (print_micros (some tz) (c.time % 1000000)) == 8
              then (if length s.time_text == 17 then kept s c tz else none)
              else none)
          else some s.written)
  unfolding log impl format_time put_time refresh set_time_zone
  log-kept s c tz same = elim (Bool-cases (is_enabled s.log_level c.statement)) [
    | inr off ↦ rw off refl
    | inl on ↦ elim (Bool-cases (length (print_micros (some tz) (c.time % 1000000)) == 8)) [
      | inr wrong ↦ rw (on, same, wrong) refl
      | inl sized ↦ elim (Bool-cases (length s.time_text == 17)) [
        | inr wrong ↦ rw (on, same, sized, wrong) refl
        | inl long ↦
            rw (on, same, sized, long)
              (through (record s { zone = some tz }) (level_of c.statement)
                (λ b. put_all b (head_items env c))
                (λ b. put_all b (func_items c.statement c.func ++ c.items))
                (λ b. put_all b (finish_items c)) _)
      ]
    ]
  ]

  -- If the time zone is set, the next statement, in the second that the thread has formatted last, writes the
  -- same line whichever zone was set: the time in it is not that of the zone.
  pub log-set_time_zone :
      (s : Log) (c : Call) (tz other : Data)
      → c.time / 1000000 ≡ s.last_second
      → written_by (log env (set_time_zone tz s) c) ≡ written_by (log env (set_time_zone other s) c)
  unfolding print_micros
  log-set_time_zone s c tz other e =
      let same : (c.time / 1000000 == s.last_second) ≡ true = ground (arith, e) in
      log-kept s c tz same ∙ sym (log-kept s c other same)
