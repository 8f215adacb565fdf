-- ===== src/Logging/Logger/Examples.antt =====
-- A program that logs two lines, turns the level up, and dies.
use so_l.Common.{◌≡◌, refl, false, none, some, List, [], ◌∷◌, ◌++◌, Ensures, arith}
use so_l.Common.Int.{ℤ, pos, ◌+ℤ◌}
use so_l.Common.Text.{codes}
use so_l.Common.Search.{same_text}
use so_l.Calendar.Utc.{Tm}
use so_l.TimeZone.{Data}
use so_l.Logging.FixedBuffer.{avail, append}
use so_l.Logging.Stream.{digits_loop, convert, format_integer, text_item, put, put_all}
use so_l.Logging.Printf.{excess, zero_padded, space_padded_int, space_padded}
use so_l.Logging.Logger.{
  Environment, info_level, log_info, log_sysfatal, Call, basename_from, Log, new_log, print_time,
  print_micros, set_time_zone, finish_items, Op, statement_op, named_op, civil, errno_items,
  head_items, log, run,
}
use so_l.Logging.Logger.Texts.{IsPrinted}
use so_l.Logging.Logger.Lines.{lines, IsLoggable}
use so_l.Logging.Logger.Runs.{run-lines}
use so_l.Logging.Logger.Zones.{written_by, log-set_time_zone}

-- The morning of the twenty-second of November, 2020.
abbrev morning : Tm
morning = record {
  tm_sec = 5;
  tm_min = 0;
  tm_hour = 10;
  tm_mday = 22;
  tm_mon = 10;
  tm_year = pos 120;
  tm_wday = 0;
  tm_yday = 0;
}

morning-IsPrinted : IsPrinted morning
unfolding ◌+ℤ◌
morning-IsPrinted = record {
  year = 2020;
  year-tm_year = refl;
  year-bound = omega arith;
  month = omega arith;
  day = omega arith;
  hour = omega arith;
  minute = omega arith;
  second = omega arith;
}

abbrev system : Environment
system = record {
  localtime = λ seconds. morning;
  gmtime = λ seconds. morning;
  strerror = λ n. codes "Bad file descriptor";
  tid = 77;
}

abbrev hello : Call
hello = record {
  statement = log_info;
  file = codes "net/Server.cpp";
  line = 12;
  func = codes "main";
  time = 1606010405000042;
  errno = 0;
  items = text_item (some (codes "hello")) ∷ [];
}

abbrev dies : Call
dies = record hello { statement = log_sysfatal; errno = 9; line = 99; items = [] }

abbrev session : List Op
session =
    statement_op hello
    ∷ named_op (codes "error")
    ∷ statement_op hello
    ∷ statement_op dies
    ∷ statement_op dies
    ∷ []

lines-session :
    lines system none info_level session
    ≡ some (
        (codes "20201122 10:00:05.000042Z    77 INFO  hello - Server.cpp:12" ++ (10 ∷ []))
        ∷ (codes
              "20201122 10:00:05.000042Z    77 FATAL Bad file descriptor (errno=9)  - Server.cpp:99"
            ++ (10 ∷ []))
        ∷ [])
unfolding lines civil put_all put append avail format_integer convert digits_loop print_time
    print_micros zero_padded space_padded_int space_padded ◌+ℤ◌ excess finish_items head_items
    errno_items basename_from same_text
lines-session = refl

hello-IsLoggable : IsLoggable system none (statement_op hello)
unfolding civil
hello-IsLoggable = (omega arith, morning-IsPrinted, (tt, tt), omega arith, omega arith)

dies-IsLoggable : IsLoggable system none (statement_op dies)
unfolding civil
dies-IsLoggable = (omega arith, morning-IsPrinted, tt, omega arith, omega arith)

run-lines_example :
    Ensures
      (λ t. some t.written ≡ lines system none info_level session)
      (run system (record new_log { zone = none; log_level = info_level }) session)
run-lines_example =
    run-lines system none info_level session
      (hello-IsLoggable, (tt, (hello-IsLoggable, (dies-IsLoggable, (dies-IsLoggable, tt)))))

-- A thread that has logged in that second, before a zone is set.
abbrev logged : Log
logged = record {
  log_level = info_level;
  zone = none;
  last_second = 1606010405;
  time_text = codes "20201122 10:00:05";
  written = [];
  flushes = 0;
  aborted = false;
}

abbrev zone_with : ℤ → Data
zone_with offset = record {
  transitions = [];
  localtimes = record { gmt_offset = offset; is_dst = false; arrb_idx = 0 } ∷ [];
  abbreviation = codes "ABC ";
}

log-set_time_zone_example :
    written_by (log system (set_time_zone (zone_with (pos 3600)) logged) hello)
    ≡ written_by (log system (set_time_zone (zone_with (pos 28800)) logged) hello)
log-set_time_zone_example =
    log-set_time_zone system logged hello (zone_with (pos 3600)) (zone_with (pos 28800)) refl
