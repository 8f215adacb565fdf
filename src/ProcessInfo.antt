-- ===== src/ProcessInfo.antt =====
-- `ProcessInfo::procname` of base/process_info.cpp, with the file that it reads by `ReadSmallFile::readToString`
-- of base/file_util.cpp and the `StringPiece` of base/string_piece.h that it cuts out.
--
-- What open(2) and read(2) answer is an argument: an answer for each call of read that the loop makes; where the
-- list ends before the loop does, the result is `none`. The file's size and times are not asked for.
pub mod Reading
pub mod Name
mod Examples
use so_l.Common.{
  ◌>>=◌, ℕ, ◌+◌, ◌-◌, Bool, true, false, ◌&&◌, ltb, ◌==◌, if◌then◌else◌, Option, none, some, List,
  [], ◌∷◌, ◌++◌, length,
}
use so_l.Common.Search.{find, shift, substr}

-- What read(2) returns: bytes, none at the end of the file, or -1 with `errno`.
pub data FileAnswer : Type 0 where
  got : List ℕ → FileAnswer
  failed : ℕ → FileAnswer

-- The loop: the errno that is returned, and the content.
unfoldable pub read_loop : ℕ → ℕ → List ℕ → List FileAnswer → Option (ℕ × List ℕ)
read_loop max_size err content [] =
    if ltb (length content) max_size then none else some (err, content)
read_loop max_size err content (got bs ∷ answers) =
    let rest = read_loop max_size err (content ++ bs) answers in
    if ltb (length content) max_size
    then (if length bs == 0 then some (err, content) else rest)
    else some (err, content)
read_loop max_size err content (failed errno ∷ answers) =
    if ltb (length content) max_size then some (errno, content) else some (err, content)

-- `ReadSmallFile`: the error of open(2), if there was one, and then the answers of read(2).
pub record SmallFile : Type 0 where
  pub open_error : Option ℕ
  pub answers : List FileAnswer

-- `readToString`, on a string that holds `content`.
unfoldable pub read_to_string : ℕ → List ℕ → SmallFile → Option (ℕ × List ℕ)
unfolding read_loop
read_to_string max_size content file = by_open file.open_error
  where
    by_open : Option ℕ → Option (ℕ × List ℕ)
    by_open none = read_loop max_size 0 [] file.answers
    by_open (some errno) = some (errno, content)

-- `ProcessInfo::procStat`
unfoldable pub proc_stat : SmallFile → Option (List ℕ)
unfolding read_to_string
proc_stat file = read_to_string 65536 [] file >>= λ r. some r.1

abbrev pub or_here : Bool → Option ℕ → Option ℕ
or_here here (some i) = some (1 + i)
or_here true none = some 0
or_here false none = none

-- `str.rfind(c)`
unfoldable pub rfind : ℕ → List ℕ → Option ℕ
rfind c [] = none
rfind c (x ∷ xs) = or_here (x == c) (rfind c xs)

-- What stands between two places, or the empty piece.
abbrev pub between : List ℕ → Option ℕ → Option ℕ → List ℕ
between stat (some lp) (some rp) = if ltb lp rp then substr (lp + 1) (rp - lp - 1) stat else []
between stat (some lp) none = []
between stat none rp = []

-- `procname(const string &)`
unfoldable pub procname_of : List ℕ → List ℕ
unfolding find rfind
procname_of stat = between stat (find 40 stat) (rfind 41 stat)

-- `procname()`
unfoldable pub procname : SmallFile → Option (List ℕ)
unfolding proc_stat procname_of
procname file = proc_stat file >>= λ stat. some (procname_of stat)
