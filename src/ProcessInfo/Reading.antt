-- ===== src/ProcessInfo/Reading.antt =====
-- The loop reads a file up to its end or up to the limit, however the kernel cuts it.
use so_l.Common.{
  ℕ, ◌-◌, ◌≤◌, ◌≡◌, ◌⊎◌, inl, inr, sym, ap, subst, ◌∙◌, true, false, ltb, ◌==◌, Bool-cases, some,
  List, [], ◌∷◌, ◌++◌, length, take, take_all, take-append, length-append, append-nil, append_assoc,
  arith,
}
use so_l.ProcessInfo.{FileAnswer, got, failed, read_loop}

-- read(2) gives the bytes in order, some at each call but no more than was asked for, and none at the end of the
-- file; `left` is what is to be read yet. It is not called when that is nothing.
abbrev pub Served : ℕ → List ℕ → List FileAnswer → Type 0
Served left data_ [] = left ≡ 0
Served left data_ (failed errno ∷ answers) = left ≡ 0
Served left data_ (got bs ∷ answers) =
    (left ≡ 0)
    ⊎ ((data_ ≡ []) × (bs ≡ []))
    ⊎ ((rest : List ℕ) × (data_ ≡ bs ++ rest)
        × (1 ≤ length bs)
        × (length bs ≤ left)
        × (length bs ≤ 65536)
        × Served (left - length bs) rest answers)

not_full : (n m : ℕ) → 1 ≤ m - n → ltb n m ≡ true
not_full n m h = ground arith

is_full : (n m : ℕ) → m - n ≡ 0 → ltb n m ≡ false
is_full n m h = ground arith

full-read_loop :
    (max_size err : ℕ) (content data_ : List ℕ) (answers : List FileAnswer)
    → max_size - length content ≡ 0
    → read_loop max_size err content answers
      ≡ some (err, content ++ take (max_size - length content) data_)
unfolding read_loop
full-read_loop m err content data_ [] h =
    rw (is_full (length content) m h, h) (ap (λ c. some (err, c)) (sym (append-nil content)))
full-read_loop m err content data_ (got bs ∷ answers) h =
    rw (is_full (length content) m h, h) (ap (λ c. some (err, c)) (sym (append-nil content)))
full-read_loop m err content data_ (failed errno ∷ answers) h =
    rw (is_full (length content) m h, h) (ap (λ c. some (err, c)) (sym (append-nil content)))

pub read_loop-Served :
    (max_size err : ℕ) (content data_ : List ℕ) (answers : List FileAnswer)
    → Served (max_size - length content) data_ answers
    → read_loop max_size err content answers
      ≡ some (err, content ++ take (max_size - length content) data_)
unfolding read_loop
read_loop-Served m err content data_ [] h = full-read_loop m err content data_ [] h
read_loop-Served m err content data_ (failed errno ∷ answers) h =
    full-read_loop m err content data_ (failed errno ∷ answers) h
read_loop-Served m err content data_ (got bs ∷ answers) (inl full) =
    full-read_loop m err content data_ (got bs ∷ answers) full
read_loop-Served m err content data_ (got bs ∷ answers) (inr (inl (e, f))) =
    let same : content ≡ content ++ take (m - length content) data_ =
      sym (append-nil content)
      ∙ ap (◌++◌ content) (
          sym (take_all (m - length content) [] (omega arith))
          ∙ ap (take (m - length content)) (sym e)) in
    elim (Bool-cases (ltb (length content) m)) [
      | inl room ↦ rw (room, f) (ap (λ c. some (err, c)) same)
      | inr none_left ↦ rw none_left (ap (λ c. some (err, c)) same)
    ]
read_loop-Served m err content data_ (got bs ∷ answers)
      (inr (inr (rest, e, some_, fits, buffer, h))) =
    let left : m - length (content ++ bs) ≡ m - length content - length bs =
      omega (arith, length-append content bs) in
    let there =
      read_loop-Served m err (content ++ bs) rest answers
        (subst (λ n. Served n rest answers) (sym left) h) in
    let whole : (content ++ bs) ++ take (m - length (content ++ bs)) rest
        ≡ content ++ take (m - length content) data_ =
      append_assoc content bs (take (m - length (content ++ bs)) rest)
      ∙ ap (λ n. content ++ (bs ++ take n rest)) left
      ∙ ap (◌++◌ content) (
          sym (take-append (m - length content) bs rest fits)
          ∙ ap (take (m - length content)) (sym e)) in
    let room : ltb (length content) m ≡ true = not_full (length content) m (omega arith) in
    let more : (length bs == 0) ≡ false = ground (arith, some_) in
    rw (room, more) (there ∙ ap (λ c. some (err, c)) whole)
