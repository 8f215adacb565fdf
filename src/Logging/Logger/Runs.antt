-- ===== src/Logging/Logger/Runs.antt =====
-- A run of log statements and settings goes on to its end or to a fatal statement, and its lines are as they are to be.
use so_l.Common.{
  ℕ, ◌+◌, ◌/◌, ◌≤◌, ◌<◌, ◌≡◌, inl, inr, refl, sym, ap, subst, ◌∙◌, Bool, true, false, ◌==◌,
  if◌then◌else◌, Bool-cases, Option, some, Option-cases, List, [], ◌∷◌, ◌++◌, Ensures-mono,
  append-nil, append_assoc, ◌>>=◌, Ensures, arith,
}
use so_l.Calendar.Utc.{Tm}
use so_l.TimeZone.{Data}
use so_l.Logging.FixedBuffer.{FixedBuffer, new_buffer, IsValid}
use so_l.Logging.Stream.{Item, put_all}
use so_l.Logging.Stream.Lines.{AllPrintable, put_all-IsValid}
use so_l.Logging.Logger.{
  Environment, LogLevel, trace_level, debug_level, info_level, warn_level, error_level, fatal_level,
  Statement, log_trace, log_debug, log_info, log_warn, log_error, log_fatal, log_syserr,
  log_sysfatal, Call, level_of, is_enabled, func_items, errno_of, saved_errno, Log, new_log,
  level_named, close, set_log_level, set_log_level_named, finish_items, Op, statement_op, level_op,
  named_op, zone_op, civil, print_time, errno_items, head_items, log, apply, run,
}
use so_l.Logging.Logger.Texts.{IsPrinted}
use so_l.Logging.Logger.Lines.{
  is_fatal, IsCached, stamped, line_items, log-line_items, line_of, lines, IsLoggable, AllLoggable,
}

AllPrintable-++ : (is js : List Item) → AllPrintable is → AllPrintable js → AllPrintable (is ++ js)
AllPrintable-++ [] js h k = k
AllPrintable-++ (i ∷ is) js (p, h) k = (p, AllPrintable-++ is js h k)

func_items-AllPrintable : (st : Statement) (func : List ℕ) → AllPrintable (func_items st func)
func_items-AllPrintable log_trace func = (tt, (tt, tt))
func_items-AllPrintable log_debug func = (tt, (tt, tt))
func_items-AllPrintable log_info func = tt
func_items-AllPrintable log_warn func = tt
func_items-AllPrintable log_error func = tt
func_items-AllPrintable log_fatal func = tt
func_items-AllPrintable log_syserr func = tt
func_items-AllPrintable log_sysfatal func = tt

errno_of-le : (st : Statement) (n : ℕ) → errno_of st n ≤ n
errno_of-le log_trace n = omega arith
errno_of-le log_debug n = omega arith
errno_of-le log_info n = omega arith
errno_of-le log_warn n = omega arith
errno_of-le log_error n = omega arith
errno_of-le log_fatal n = omega arith
errno_of-le log_syserr n = omega arith
errno_of-le log_sysfatal n = omega arith

finish_items-AllPrintable :
    (c : Call) → c.line < 18446744073709551616 → AllPrintable (finish_items c)
unfolding finish_items
finish_items-AllPrintable c h = (tt, (tt, (tt, (h, (tt, tt)))))

close_fatal :
    (level : LogLevel) (s : Log) (b : FixedBuffer)
    → is_fatal level ≡ true
    → close level s b
      ≡ record s { written = s.written ++ (b.bytes ∷ []); flushes = s.flushes + 1; aborted = true }
unfolding close
close_fatal fatal_level s b h = refl
close_fatal trace_level s b h = absurd (ground (arith, h))
close_fatal debug_level s b h = absurd (ground (arith, h))
close_fatal info_level s b h = absurd (ground (arith, h))
close_fatal warn_level s b h = absurd (ground (arith, h))
close_fatal error_level s b h = absurd (ground (arith, h))

close_other :
    (level : LogLevel) (s : Log) (b : FixedBuffer)
    → is_fatal level ≡ false
    → close level s b ≡ record s { written = s.written ++ (b.bytes ∷ []) }
unfolding close
close_other fatal_level s b h = absurd (ground (arith, h))
close_other trace_level s b h = refl
close_other debug_level s b h = refl
close_other info_level s b h = refl
close_other warn_level s b h = refl
close_other error_level s b h = refl

module _ (env : Environment) where
  errno_items-AllPrintable : (n : ℕ) → n < 18446744073709551616 → AllPrintable (errno_items env n)
  unfolding errno_items
  errno_items-AllPrintable n h = elim (Bool-cases (n == 0)) [
    | inl nothing ↦ rw nothing tt
    | inr set ↦ rw set (tt, (tt, (h, (tt, tt))))
  ]

  line_items-AllPrintable :
      (tz : Option Data) (tm : Tm) (c : Call)
      → AllPrintable c.items
      → c.line < 18446744073709551616
      → c.errno < 18446744073709551616
      → AllPrintable (line_items env tz tm c)
  unfolding head_items
  line_items-AllPrintable tz tm c items line errno =
      let errno_items_ =
        errno_items-AllPrintable (saved_errno c)
          (omega (arith, errno, errno_of-le c.statement c.errno)) in
      let own = AllPrintable-++ _ c.items (func_items-AllPrintable c.statement c.func) items in
      (
        tt,
        (
          tt,
          AllPrintable-++ (head_items env c) _ (tt, (tt, errno_items_))
              (AllPrintable-++ _ (finish_items c) own (finish_items-AllPrintable c line)),
        ),
      )

  -- An enabled statement writes its line.
  log-line_of :
      (s : Log) (c : Call)
      → IsCached env s
      → is_enabled s.log_level c.statement ≡ true
      → IsLoggable env s.zone (statement_op c)
      → (tm : Tm) × (b : FixedBuffer) × (line_of env s.zone c ≡ some b.bytes)
        × (log env s c
            ≡ some (close (level_of c.statement) (stamped env s (c.time / 1000000) tm) b))
        × (civil env s.zone (c.time / 1000000) ≡ some tm)
  log-line_of s c cached enabled (later, made, items, line, errno) =
      elim (Option-cases (civil env s.zone (c.time / 1000000))) [
        | inl missing ↦ absurd (subst (Ensures IsPrinted) missing made)
        | inr (tm, at) ↦
            let valid =
              put_all-IsValid (new_buffer 4000) (line_items env s.zone tm c)
                (record { within = omega arith })
                (line_items-AllPrintable s.zone tm c items line errno) in
            elim (Option-cases (put_all (new_buffer 4000) (line_items env s.zone tm c))) [
              | inl fails ↦ absurd (subst (Ensures IsValid) fails valid)
              | inr (b, puts) ↦ (
                tm,
                b,
                ap
                      (λ m. m >>= λ tm.
                        put_all (new_buffer 4000) (line_items env s.zone tm c) >>= λ b.
                        some b.bytes)
                      at
                    ∙ ap (λ m. m >>= λ b. some b.bytes) puts,
                log-line_items env s c tm cached enabled later at
                      (subst (Ensures IsPrinted) at made)
                    ∙ ap
                        (λ m. m >>= λ b.
                          some
                            (close (level_of c.statement) (stamped env s (c.time / 1000000) tm) b))
                        puts,
                at,
              )
            ]
      ]

  log_disabled :
      (s : Log) (c : Call) → is_enabled s.log_level c.statement ≡ false → log env s c ≡ some s
  unfolding log
  log_disabled s c off = rw off refl

  lines_disabled :
      (tz : Option Data) (level : LogLevel) (c : Call) (ops : List Op)
      → is_enabled level c.statement ≡ false
      → lines env tz level (statement_op c ∷ ops) ≡ lines env tz level ops
  unfolding lines
  lines_disabled tz level c ops off = rw off refl

  -- How the lines go on behind that of an enabled statement.
  abbrev goes_on : Bool → List ℕ → Option (List (List ℕ)) → Option (List (List ℕ))
  goes_on fatal l rest = if fatal then some (l ∷ []) else (rest >>= λ ls. some (l ∷ ls))

  lines_enabled :
      (tz : Option Data) (level : LogLevel) (c : Call) (ops : List Op) (l : List ℕ)
      → is_enabled level c.statement ≡ true
      → line_of env tz c ≡ some l
      → lines env tz level (statement_op c ∷ ops)
        ≡ goes_on (is_fatal (level_of c.statement)) l (lines env tz level ops)
  unfolding lines
  lines_enabled tz level c ops l enabled e =
      rw enabled (
        ap (λ m. m >>= λ l. goes_on (is_fatal (level_of c.statement)) l (lines env tz level ops)) e)

  -- What a run from a state leaves: its lines behind those that were there.
  abbrev Written : Log → List Op → Log → Type 0
  Written s ops t =
      (ls : List (List ℕ)) × (lines env s.zone s.log_level ops ≡ some ls)
      × (t.written ≡ s.written ++ ls)

  abbrev continues : List Op → Log → Option Log
  continues ops t = if t.aborted then some t else run env t ops

  continues-Ensures :
      (P : Log → Type 0) (m : Option Log) (t : Log) (ops : List Op)
      → m ≡ some t
      → t.aborted ≡ false
      → Ensures P (run env t ops)
      → Ensures P (m >>= λ t. continues ops t)
  continues-Ensures P m t ops e on h =
      subst (λ m. Ensures P (m >>= λ t. continues ops t)) (sym e)
        (subst (λ b. Ensures P (if b then some t else run env t ops)) (sym on) h)

  lines-nil : (tz : Option Data) (level : LogLevel) → lines env tz level [] ≡ some []
  unfolding lines
  lines-nil tz level = refl

  lines-level :
      (tz : Option Data) (level new : LogLevel) (ops : List Op)
      → lines env tz level (level_op new ∷ ops) ≡ lines env tz new ops
  unfolding lines
  lines-level tz level new ops = refl

  lines-named :
      (tz : Option Data) (level : LogLevel) (name : List ℕ) (ops : List Op)
      → lines env tz level (named_op name ∷ ops) ≡ lines env tz (level_named name level) ops
  unfolding lines
  lines-named tz level name ops = refl

  -- The same lines, of other operations.
  retell :
      (s t : Log) (r q : Option (List (List ℕ)))
      → r ≡ q
      → (ls : List (List ℕ)) × (q ≡ some ls) × (t.written ≡ s.written ++ ls)
      → (ls : List (List ℕ)) × (r ≡ some ls) × (t.written ≡ s.written ++ ls)
  retell s t r q e (ls, f, w) = (ls, e ∙ f, w)

  -- An enabled statement, with its line `b`, and what the rest does.
  enabled-Written :
      (s t : Log) (c : Call) (ops : List Op) (b : FixedBuffer) (level : LogLevel)
      → is_fatal level ≡ false
      → lines env s.zone s.log_level (statement_op c ∷ ops)
        ≡ goes_on (is_fatal level) b.bytes (lines env s.zone s.log_level ops)
      → (ls : List (List ℕ)) × (lines env s.zone s.log_level ops ≡ some ls)
        × (t.written ≡ (s.written ++ (b.bytes ∷ [])) ++ ls)
      → Written s (statement_op c ∷ ops) t
  enabled-Written s t c ops b level other first (ls, e, w) = (
    b.bytes ∷ ls,
    first
        ∙ ap (λ f. goes_on f b.bytes (lines env s.zone s.log_level ops)) other
        ∙ ap (λ r. r >>= λ ls. some (b.bytes ∷ ls)) e,
    w ∙ append_assoc s.written (b.bytes ∷ []) ls,
  )

  run-Written :
      (ops : List Op) (s : Log)
      → IsCached env s
      → s.aborted ≡ false
      → AllLoggable env s.zone ops
      → Ensures (Written s ops) (run env s ops)
  unfolding run apply set_log_level set_log_level_named
  run-Written [] s cached on h = ([], lines-nil s.zone s.log_level, sym (append-nil s.written))
  run-Written (level_op new ∷ ops) s cached on (_, h) =
      let u = set_log_level new s in
      continues-Ensures (Written s (level_op new ∷ ops)) (some u) u ops refl on (
        Ensures-mono (Written u ops) _ (run env u ops)
          (λ t. retell s t _ _ (lines-level s.zone s.log_level new ops))
          (run-Written ops u cached on h))
  run-Written (named_op name ∷ ops) s cached on (_, h) =
      let u = set_log_level_named name s in
      continues-Ensures (Written s (named_op name ∷ ops)) (some u) u ops refl on (
        Ensures-mono (Written u ops) _ (run env u ops)
          (λ t. retell s t _ _ (lines-named s.zone s.log_level name ops))
          (run-Written ops u cached on h))
  run-Written (zone_op tz ∷ ops) s cached on (never, h) = absurd never
  run-Written (statement_op c ∷ ops) s cached on (here, h) =
      elim (Bool-cases (is_enabled s.log_level c.statement)) [
        | inr off ↦
            continues-Ensures (Written s (statement_op c ∷ ops)) (log env s c) s ops
              (log_disabled s c off) on
              (Ensures-mono (Written s ops) _ (run env s ops)
                (λ t. retell s t _ _ (lines_disabled s.zone s.log_level c ops off))
                (run-Written ops s cached on h))
        | inl enabled ↦
            let (tm, b, line, goes, at) = log-line_of s c cached enabled here in
            let first = lines_enabled s.zone s.log_level c ops b.bytes enabled line in
            let stamp = stamped env s (c.time / 1000000) tm in
            elim (Bool-cases (is_fatal (level_of c.statement))) [
              | inl fatal ↦
                  subst
                    (λ m. Ensures (Written s (statement_op c ∷ ops)) (m >>= λ t. continues ops t))
                    (sym (goes ∙ ap (some) (close_fatal (level_of c.statement) stamp b fatal)))
                    (
                      b.bytes ∷ [],
                      first ∙ ap (λ f. goes_on f b.bytes (lines env s.zone s.log_level ops)) fatal,
                      refl,
                    )
              | inr other ↦
                  let u = record stamp { written = s.written ++ (b.bytes ∷ []) } in
                  let kept : IsCached env u =
                    inr (subst (Ensures (λ t. print_time tm ≡ print_time t)) (sym at) refl) in
                  continues-Ensures (Written s (statement_op c ∷ ops)) (log env s c) u ops
                    (goes ∙ ap (some) (close_other (level_of c.statement) stamp b other)) on
                    (Ensures-mono (Written u ops) _ (run env u ops)
                      (λ t. enabled-Written s t c ops b (level_of c.statement) other first)
                      (run-Written ops u kept on h))
            ]
      ]

  -- From a log with any time zone and level, for any statements after the first second of the epoch and settings
  -- of the level, where each time has a civil form of four digits for the year and the numbers have 64 bits: no
  -- assertion fails, and the lines given to the output function are those of the enabled statements, up to a
  -- fatal one, each with its time formatted afresh, cut at 4000 bytes as one chain of texts.
  pub run-lines :
      (tz : Option Data) (level : LogLevel) (ops : List Op)
      → AllLoggable env tz ops
      → Ensures
          (λ t. some t.written ≡ lines env tz level ops)
          (run env (record new_log { zone = tz; log_level = level }) ops)
  unfolding new_log
  run-lines tz level ops h =
      let s : Log = record new_log { zone = tz; log_level = level } in
      Ensures-mono (Written s ops) _ (run env s ops) (λ t (ls, e, w). ap (some) w ∙ sym e)
        (run-Written ops s (inl refl) refl h)
