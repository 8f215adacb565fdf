-- ===== src/Logging/LogFile.antt =====
-- `LogFile` of base/log_file.h and base/log_file.cpp, and `AppendFile` of base/file_util.cpp. The
-- answers of fwrite are a list, one for each call; an answer is at most what it was given. The time,
-- the space on the disk and whether a file can be opened are arguments, the same within one call.
-- A failed assertion is `none`. The locks are not modelled.
pub mod Rolling
mod Examples
use so_l.Common.{
  ℕ, suc, ◌+◌, ◌-◌, ◌*◌, ◌/◌, Bool, true, false, not, ltb, leb, ◌==◌, if◌then◌else◌, Option, none,
  some, List, [], ◌∷◌, ◌++◌, length, take, drop, ◌>>=◌,
}

-- The bytes that fwrite took, the first of them that a flush has passed on, and `writtenBytes_`.
pub record AppendFile : Type 0 where
  pub written : List ℕ
  pub flushed : ℕ
  pub written_bytes : ℕ

abbrev pub new_file : AppendFile
new_file = record { written = []; flushed = 0; written_bytes = 0 }

unfoldable pub dummy_inc_written_bytes : AppendFile → ℕ → AppendFile
dummy_inc_written_bytes f len = record f { written_bytes = f.written_bytes + len }

-- The loop of `append`: the bytes that go out. `none`: the answers end, and it still runs.
unfoldable pub write_rest : List ℕ → List ℕ → Option (List ℕ)
write_rest [] [] = some []
write_rest [] (c ∷ cs) = none
write_rest (x ∷ xs) [] = some []
write_rest (x ∷ xs) (c ∷ cs) =
    let rest = write_rest xs (drop x (c ∷ cs)) in
    if x == 0 then some [] else rest >>= λ out. some (take x (c ∷ cs) ++ out)

-- `AppendFile::append`; the first call of fwrite is made in any case.
unfoldable pub append : AppendFile → List ℕ → List ℕ → Option AppendFile
unfolding write_rest
append f [] line = none
append f (n ∷ answers) line = write_rest answers (drop n line) >>= λ out. some (record f {
  written = f.written ++ (take n line ++ out);
  written_bytes = f.written_bytes + length line;
})

abbrev pub flush : AppendFile → AppendFile
flush f = record f { flushed = length f.written }

-- `files` holds `file_`, if it is there, and behind it the files that were closed.
pub record LogFile : Type 0 where
  pub roll_size : ℕ
  pub flush_interval : ℕ
  pub check_every_n : ℕ
  pub count : ℕ
  pub start_of_period : ℕ
  pub last_roll : ℕ
  pub last_flush : ℕ
  pub files : List AppendFile
  pub forbit_write : Bool

abbrev pub roll_per_seconds : ℕ
roll_per_seconds = 86400

abbrev pub period : ℕ → ℕ
period now = now / roll_per_seconds * roll_per_seconds

-- `rollFile`, without the answer, which nothing reads. `opened` is whether fopen succeeds; if it does not,
-- the assertion in the constructor of `AppendFile` fails. An error of statvfs is a space of 0.
unfoldable pub roll_file : ℕ → Bool → ℕ → LogFile → Option LogFile
roll_file now opened available p =
    if ltb p.last_roll now
    then (if opened
        then some (record p {
          last_roll = now;
          last_flush = now;
          start_of_period = period now;
          files = new_file ∷ p.files;
          forbit_write = ltb available 314572800;
        })
        else none)
    else some p

-- The constructor.
unfoldable pub init : ℕ → Bool → ℕ → ℕ → ℕ → ℕ → Option LogFile
unfolding roll_file
init now opened available roll_size flush_interval check_every_n =
    roll_file now opened available (record {
      roll_size = roll_size;
      flush_interval = flush_interval;
      check_every_n = check_every_n;
      count = 0;
      start_of_period = 0;
      last_roll = 0;
      last_flush = 0;
      files = [];
      forbit_write = false;
    })

-- What follows a write, on the file `g` that was written and those behind it.
unfoldable pub after_write : ℕ → Bool → ℕ → LogFile → AppendFile → List AppendFile → Option LogFile
unfolding roll_file
after_write now opened available p g gs =
    if ltb p.roll_size g.written_bytes
    then roll_file now opened available (record p { files = g ∷ gs })
    else if ltb (p.count + 1) p.check_every_n
    then some (record p { count = p.count + 1; files = g ∷ gs })
    else if not (period now == p.start_of_period)
    then roll_file now opened available (record p { count = 0; files = g ∷ gs })
    else if ltb p.flush_interval (now - p.last_flush)
    then some (record p { count = 0; last_flush = now; files = flush g ∷ gs })
    else some (record p { count = 0; files = g ∷ gs })

-- `file_->append`, or only the count of its bytes. `none` is also a file that is not there.
unfoldable pub write :
    Bool → List AppendFile → List ℕ → List ℕ → Option (AppendFile × List AppendFile)
unfolding append dummy_inc_written_bytes
write forbit_write [] answers line = none
write forbit_write (f ∷ fs) answers line =
    (if forbit_write then some (dummy_inc_written_bytes f (length line)) else append f answers line)
    >>= λ g. some (g, fs)

-- `append_unlocked`
unfoldable pub append_unlocked : ℕ → Bool → ℕ → List ℕ → LogFile → List ℕ → Option LogFile
unfolding write after_write
append_unlocked now opened available answers p line =
    write p.forbit_write p.files answers line >>= λ w. after_write now opened available p w.0 w.1
