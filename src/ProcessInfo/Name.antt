-- ===== src/ProcessInfo/Name.antt =====
-- The name of a process is found in its line of /proc, whatever bytes it is made of.
use so_l.Common.{
  ℕ, ◌+◌, ◌-◌, ◌≤◌, ◌≡◌, refl, sym, ap, ◌∙◌, true, ltb, ◌==◌, if◌then◌else◌, none, some, List, [],
  ◌∷◌, ◌++◌, length, take_all, append_assoc, length-append, ◌>>=◌, arith,
}
use so_l.Common.Search.{find-Without, Without, substr, substr-append}
use so_l.ProcessInfo.{FileAnswer, read_to_string, proc_stat, rfind, between, procname_of, procname}
use so_l.ProcessInfo.Reading.{Served, read_loop-Served}

rfind-none : (c : ℕ) (xs : List ℕ) → Without c xs → rfind c xs ≡ none
unfolding rfind
rfind-none c [] h = refl
rfind-none c (x ∷ xs) (e, h) = rw (e, rfind-none c xs h) refl

-- The last one is found when none is behind it.
rfind-Without :
    (c : ℕ) (xs ys : List ℕ) → Without c ys → rfind c (xs ++ (c ∷ ys)) ≡ some (length xs)
unfolding rfind
rfind-Without c [] ys h =
    let same : (c == c) ≡ true = ground arith in rw (same, rfind-none c ys h) refl
rfind-Without c (x ∷ xs) ys h = rw (rfind-Without c xs ys h) (ap some (omega arith))

-- The text of /proc/self/stat.
abbrev pub print_stat : List ℕ → List ℕ → List ℕ → List ℕ
print_stat pid name fields = pid ++ (40 ∷ (name ++ (41 ∷ fields)))

procname_of-print_stat :
    (pid name fields : List ℕ)
    → Without 40 pid
    → Without 41 fields
    → procname_of (print_stat pid name fields) ≡ name
unfolding procname_of
procname_of-print_stat pid name fields no_open no_close =
    let stat = print_stat pid name fields in
    let n = length (pid ++ (40 ∷ name)) in
    let opens = find-Without 40 pid (name ++ (41 ∷ fields)) no_open in
    let closes : rfind 41 stat ≡ some n =
      ap (rfind 41) (sym (append_assoc pid (40 ∷ name) (41 ∷ fields)))
      ∙ rfind-Without 41 (pid ++ (40 ∷ name)) fields no_close in
    let order : ltb (length pid) n ≡ true = ground (arith, length-append pid (40 ∷ name)) in
    let from : length pid + 1 ≡ length (pid ++ (40 ∷ [])) =
      omega (arith, length-append pid (40 ∷ [])) in
    let size : n - length pid - 1 ≡ length name = omega (arith, length-append pid (40 ∷ name)) in
    ap (λ o. between stat o (rfind 41 stat)) opens
    ∙ ap (between stat (some (length pid))) closes
    ∙ ap (λ b. if b then substr (length pid + 1) (n - length pid - 1) stat else []) order
    ∙ ap (λ k. substr k (n - length pid - 1) stat) from
    ∙ ap (λ k. substr (length (pid ++ (40 ∷ []))) k stat) size
    ∙ ap (substr (length (pid ++ (40 ∷ []))) (length name))
        (sym (append_assoc pid (40 ∷ []) (name ++ (41 ∷ fields))))
    ∙ substr-append (pid ++ (40 ∷ [])) name (41 ∷ fields)

-- The number of the process has no opening parenthesis, and the fields behind its name have no closing one; the
-- name is any bytes. Then, if the text has at most 65536 bytes and the file can be opened, however the
-- kernel cuts it, `procname` returns the name.
pub procname-print_stat :
    (pid name fields : List ℕ) (answers : List FileAnswer)
    → Without 40 pid
    → Without 41 fields
    → length (print_stat pid name fields) ≤ 65536
    → Served 65536 (print_stat pid name fields) answers
    → procname (record { open_error = none; answers = answers }) ≡ some name
unfolding procname proc_stat read_to_string
procname-print_stat pid name fields answers no_open no_close short served =
    let stat = print_stat pid name fields in
    ap (λ r. (r >>= λ r. some r.1) >>= λ stat. some (procname_of stat))
      (read_loop-Served 65536 0 [] stat answers served)
    ∙ ap (λ stat. some (procname_of stat)) (take_all 65536 stat short)
    ∙ ap some (procname_of-print_stat pid name fields no_open no_close)
