-- ===== src/Logging/LogFile/Examples.antt =====
-- The theorems on log files at a file that a line fills, which fwrite takes in three calls.
use so_l.Common.{ℕ, ◌≡◌, ◌++◌, refl, true, false, some, List, [], ◌∷◌, Ensures, arith}
use so_l.Common.Text.{codes}
use so_l.Logging.LogFile.{
  AppendFile, new_file, write_rest, append, LogFile, roll_file, after_write, write, append_unlocked,
}
use so_l.Logging.LogFile.Rolling.{IsPrefix, content, IsOpen, IsRolled, allowed, append_unlocked_lem}

abbrev used : AppendFile
used = record { written = codes "old"; flushed = 0; written_bytes = 3 }

abbrev log : LogFile
log = record {
  roll_size = 8;
  flush_interval = 3;
  check_every_n = 1024;
  count = 1;
  start_of_period = 0;
  last_roll = 1000;
  last_flush = 1000;
  files = used ∷ [];
  forbit_write = false;
}

IsOpen-log : IsOpen log
IsOpen-log = record { some_file = omega arith; count_in = omega arith }

rolls :
    append_unlocked 1005 true 400000000 (2 ∷ 3 ∷ 9 ∷ []) log (codes "newest")
    ≡ some (record {
      roll_size = 8;
      flush_interval = 3;
      check_every_n = 1024;
      count = 1;
      start_of_period = 0;
      last_roll = 1005;
      last_flush = 1005;
      files =
          new_file ∷ record { written = codes "oldnewest"; flushed = 0; written_bytes = 9 } ∷ [];
      forbit_write = false;
    })
unfolding append_unlocked append write write_rest after_write roll_file
rolls = refl

append_unlocked_lem_example :
    Ensures
      (λ q.
        IsOpen q
        × ((out : List ℕ) × IsPrefix out (allowed false (codes "newest"))
            × (content q.files ≡ codes "old" ++ out))
        × IsRolled 1005 q)
      (append_unlocked 1005 true 400000000 (2 ∷ 3 ∷ 9 ∷ 0 ∷ 0 ∷ 0 ∷ 0 ∷ []) log (codes "newest"))
append_unlocked_lem_example =
    append_unlocked_lem 1005 400000000 (2 ∷ 3 ∷ 9 ∷ 0 ∷ 0 ∷ 0 ∷ 0 ∷ []) (codes "newest") log
      IsOpen-log (omega arith)
