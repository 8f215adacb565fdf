-- ===== src/Logging/Logger.antt =====
-- `Logger` of base/Logging.h and base/Logging.cpp, from the macro of a log statement to the line that is given
-- to the output function, as one thread sees it: `t_lastSecond` and `t_time` are its own.
--
-- Times are microseconds from the epoch on. `localtime_r`, whose answer depends on the system's zone, `gmtime_r`
-- and `strerror_r` are parameters, and so is the thread's number. An assertion that fails gives `none`.
pub mod Texts
pub mod Lines
pub mod Runs
pub mod Zones
mod Examples
use so_l.Common.{
  ◌>>=◌, ℕ, ◌+◌, ◌*◌, ◌/◌, ◌%◌, Bool, true, false, ltb, leb, ◌==◌, if◌then◌else◌, Option, none,
  some, List, [], ◌∷◌, ◌++◌, length,
}
use so_l.Common.Search.{same_text}
use so_l.Common.Int.{ℤ, pos, ◌+ℤ◌}
use so_l.Common.Text.{codes}
use so_l.Calendar.Utc.{Tm}
use so_l.TimeZone.{Data, LocalTm, to_local_time}
use so_l.Logging.FixedBuffer.{FixedBuffer, new_buffer}
use so_l.Logging.Stream.{Integer, Item, char_item, integer_item, text_item, put_all}
use so_l.Logging.Printf.{zero_padded, space_padded, space_padded_int}

pub data LogLevel : Type 0 where
  trace_level debug_level info_level warn_level error_level fatal_level : LogLevel

abbrev pub rank : LogLevel → ℕ
rank trace_level = 0
rank debug_level = 1
rank info_level = 2
rank warn_level = 3
rank error_level = 4
rank fatal_level = 5

abbrev pub log_level_name : LogLevel → List ℕ
log_level_name trace_level = codes "TRACE "
log_level_name debug_level = codes "DEBUG "
log_level_name info_level = codes "INFO  "
log_level_name warn_level = codes "WARN  "
log_level_name error_level = codes "ERROR "
log_level_name fatal_level = codes "FATAL "

-- The macros, and what a log statement is given.
pub data Statement : Type 0 where
  log_trace log_debug log_info log_warn log_error log_fatal log_syserr log_sysfatal : Statement

pub record Call : Type 0 where
  pub statement : Statement
  -- `__FILE__`, `__LINE__` and `__func__`
  pub file : List ℕ
  pub line : ℕ
  pub func : List ℕ
  -- `Timestamp::now()`, and `errno`
  pub time : ℕ
  pub errno : ℕ
  pub items : List Item

abbrev pub level_of : Statement → LogLevel
level_of log_trace = trace_level
level_of log_debug = debug_level
level_of log_info = info_level
level_of log_warn = warn_level
level_of log_error = error_level
level_of log_fatal = fatal_level
level_of log_syserr = error_level
level_of log_sysfatal = fatal_level

-- The test in the macro; only the first three have one.
abbrev pub is_enabled : LogLevel → Statement → Bool
is_enabled level log_trace = leb (rank level) 0
is_enabled level log_debug = leb (rank level) 1
is_enabled level log_info = leb (rank level) 2
is_enabled level st = true

abbrev pub text : List ℕ → Item
text bytes = text_item (some bytes)

-- What the constructor that the macro calls puts behind the head of the line.
abbrev pub func_items : Statement → List ℕ → List Item
func_items log_trace func = text func ∷ char_item 32 ∷ []
func_items log_debug func = text func ∷ char_item 32 ∷ []
func_items st func = []

-- The `errno` that the constructor hands on.
abbrev pub errno_of : Statement → ℕ → ℕ
errno_of log_syserr n = n
errno_of log_sysfatal n = n
errno_of st n = 0

abbrev pub saved_errno : Call → ℕ
saved_errno c = errno_of c.statement c.errno

-- `SourceFile`: what follows the last slash of the name.
unfoldable pub basename_from : List ℕ → List ℕ → List ℕ
basename_from base [] = base
basename_from base (c ∷ cs) = basename_from (if c == 47 then cs else base) cs

abbrev pub basename : List ℕ → List ℕ
basename name = basename_from name name

-- The global variables and those of the thread; and the lines given to the output function, the calls of the
-- flush function, and whether the process was aborted.
pub record Log : Type 0 where
  pub log_level : LogLevel
  pub zone : Option Data
  pub last_second : ℕ
  pub time_text : List ℕ
  pub written : List (List ℕ)
  pub flushes : ℕ
  pub aborted : Bool

unfoldable pub new_log : Log
new_log = record {
  log_level = info_level;
  zone = none;
  last_second = 0;
  time_text = [];
  written = [];
  flushes = 0;
  aborted = false;
}

-- `snprintf(t_time, ..., "%4d%02d%02d %02d:%02d:%02d", ...)`
unfoldable pub print_time : Tm → List ℕ
print_time tm =
    let clock =
      zero_padded 2 tm.tm_hour
      ++ (codes ":" ++ (zero_padded 2 tm.tm_min ++ (codes ":" ++ zero_padded 2 tm.tm_sec))) in
    space_padded_int 4 (tm.tm_year +ℤ pos 1900)
    ++ (zero_padded 2 (tm.tm_mon + 1) ++ (zero_padded 2 tm.tm_mday ++ (codes " " ++ clock)))

-- `Fmt us(".%06d ", microseconds)`, with a `Z` where there is no time zone, and the length that is asserted.
unfoldable pub print_micros : Option Data → ℕ → List ℕ
print_micros (some zone) micros = codes "." ++ (zero_padded 6 micros ++ codes " ")
print_micros none micros = codes "." ++ (zero_padded 6 micros ++ codes "Z ")

abbrev pub micros_length : Option Data → ℕ
micros_length (some zone) = 8
micros_length none = 9

-- `setLogLevel` by a name of `log_level_map`; it leaves the level for any other name.
abbrev pub level_named : List ℕ → LogLevel → LogLevel
level_named name level =
    if same_text name (codes "trace")
    then trace_level
    else if same_text name (codes "debug")
    then debug_level
    else if same_text name (codes "info")
    then info_level
    else if same_text name (codes "warning")
    then warn_level
    else if same_text name (codes "error")
    then error_level
    else if same_text name (codes "fatal")
    then fatal_level
    else level

unfoldable pub set_log_level_named : List ℕ → Log → Log
unfolding same_text
set_log_level_named name s = record s { log_level = level_named name s.log_level }

unfoldable pub set_log_level : LogLevel → Log → Log
set_log_level level s = record s { log_level = level }

unfoldable pub set_time_zone : Data → Log → Log
set_time_zone tz s = record s { zone = some tz }

-- The end of `~Logger`: the line is given out, and a fatal one ends the process.
unfoldable pub close : LogLevel → Log → FixedBuffer → Log
close fatal_level s b = record s {
  written = s.written ++ (b.bytes ∷ []);
  flushes = s.flushes + 1;
  aborted = true;
}
close level s b = record s { written = s.written ++ (b.bytes ∷ []) }

-- `Impl::finish`
unfoldable pub finish_items : Call → List Item
unfolding basename_from
finish_items c =
    text (codes " - ")
    ∷ text (basename c.file)
    ∷ char_item 58
    ∷ integer_item (record { negative = false; magnitude = c.line })
    ∷ char_item 10
    ∷ []

pub data Op : Type 0 where
  statement_op : Call → Op
  level_op : LogLevel → Op
  named_op : List ℕ → Op
  zone_op : Data → Op

-- What the system answers: `localtime_r`, `gmtime_r`, `strerror_r` and `gettid`.
pub record Environment : Type 0 where
  pub localtime : ℕ → Tm
  pub gmtime : ℤ → Tm
  pub strerror : ℕ → List ℕ
  pub tid : ℕ

module _ (env : Environment) where
  -- The civil time of a second.
  unfoldable pub civil : Option Data → ℕ → Option Tm
  unfolding to_local_time
  civil (some tz) seconds = to_local_time env.gmtime tz (pos seconds) >>= λ local. some local.tm
  civil none seconds = some (env.localtime seconds)

  -- The first half of `Impl::formatTime`: the text of the second is made when the second is another one.
  unfoldable pub refresh : ℕ → Log → Option Log
  unfolding civil print_time
  refresh seconds s =
      if seconds == s.last_second
      then some s
      else civil s.zone seconds >>= λ tm.
          if length (print_time tm) == 17
          then some (record s { last_second = seconds; time_text = print_time tm })
          else none

  -- Its second half, with the asserts of `Fmt` and `T`, on the stream that is still empty.
  unfoldable pub put_time : ℕ → Log → Option (Log × FixedBuffer)
  unfolding print_micros
  put_time time t =
      let micros = print_micros t.zone (time % 1000000) in
      if length micros == micros_length t.zone
      then if length t.time_text == 17
        then (put_all (new_buffer 4000) (text t.time_text ∷ text micros ∷ []) >>= λ b. some (t, b))
        else none
      else none

  unfoldable pub format_time : ℕ → Log → Option (Log × FixedBuffer)
  unfolding refresh put_time
  format_time time s = refresh (time / 1000000) s >>= λ t. put_time time t

  unfoldable pub errno_items : ℕ → List Item
  errno_items n =
      if n == 0
      then []
      else text (env.strerror n)
        ∷ text (codes " (errno=")
        ∷ integer_item (record { negative = false; magnitude = n })
        ∷ text (codes ") ")
        ∷ []

  abbrev pub tid_string : List ℕ
  tid_string = space_padded 5 env.tid ++ codes " "

  -- What the constructor puts behind the time.
  unfoldable pub head_items : Call → List Item
  unfolding errno_items
  head_items c =
      text tid_string ∷ text (log_level_name (level_of c.statement)) ∷ errno_items (saved_errno c)

  -- `Impl::Impl`
  unfoldable pub impl : Log → Call → Option (Log × FixedBuffer)
  unfolding format_time head_items
  impl s c = format_time c.time s >>= λ r. put_all r.1 (head_items c) >>= λ b. some (r.0, b)

  -- A log statement: the macro, the `Logger` that it makes, what is put into its stream, and its end.
  unfoldable pub log : Log → Call → Option Log
  unfolding impl
  log s c =
      if is_enabled s.log_level c.statement
      then (impl s c >>= λ r. put_all r.1 (func_items c.statement c.func ++ c.items) >>= λ b.
          put_all b (finish_items c) >>= λ b. some (close (level_of c.statement) r.0 b))
      else some s

  unfoldable pub apply : Log → Op → Option Log
  unfolding log
  apply s (statement_op c) = log s c
  apply s (level_op level) = some (set_log_level level s)
  apply s (named_op name) = some (set_log_level_named name s)
  apply s (zone_op tz) = some (set_time_zone tz s)

  -- A process that was aborted does nothing more.
  unfoldable pub run : Log → List Op → Option Log
  unfolding apply
  run s [] = some s
  run s (op ∷ ops) = apply s op >>= λ t. if t.aborted then some t else run t ops
