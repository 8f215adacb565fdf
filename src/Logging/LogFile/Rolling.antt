-- ===== src/Logging/LogFile/Rolling.antt =====
-- What reaches the files, and when a new one is begun.
use so_l.Common.{
  ℕ, zero, suc, ◌+◌, ◌-◌, ◌≤◌, ◌<◌, ◌≡◌, ◌⊎◌, refl, sym, ap, ◌∙◌, Bool, true, false, not, ltb, ◌==◌,
  if◌then◌else◌, some, List, [], ◌∷◌, ◌++◌, length, take, drop, Ensures, >>=-Ensures, Ensures-mono,
  Bool-cases, lt→ltb, arith, inl, inr, append_assoc, append-nil,
}
use so_l.Logging.LogFile.{
  AppendFile, dummy_inc_written_bytes, write_rest, append, LogFile, period, roll_file, init,
  after_write, write, append_unlocked,
}

-- `out` is a first part of `line`.
abbrev pub IsPrefix : List ℕ → List ℕ → Type 0
IsPrefix out line = (rest : List ℕ) × (line ≡ out ++ rest)

take-drop : (n : ℕ) (xs : List ℕ) → xs ≡ take n xs ++ drop n xs
take-drop zero xs = refl
take-drop (suc n) [] = refl
take-drop (suc n) (x ∷ xs) = ap (◌∷◌ x) (take-drop n xs)

length-drop_le : (n : ℕ) (xs : List ℕ) → length (drop n xs) ≤ length xs
length-drop_le zero xs = omega arith
length-drop_le (suc n) [] = omega arith
length-drop_le (suc n) (x ∷ xs) = omega (arith, length-drop_le n xs)

length-drop_lt : (n : ℕ) (x : ℕ) (xs : List ℕ) → 1 ≤ n → length (drop n (x ∷ xs)) < suc (length xs)
length-drop_lt zero x xs h = absurd (omega (arith, h))
length-drop_lt (suc n) x xs h = omega (arith, length-drop_le n xs)

IsPrefix-take :
    (n : ℕ) (xs out : List ℕ) → IsPrefix out (drop n xs) → IsPrefix (take n xs ++ out) xs
IsPrefix-take n xs out (rest, e) =
    (rest, take-drop n xs ∙ ap (◌++◌ (take n xs)) e ∙ sym (append_assoc (take n xs) out rest))

write_rest-IsPrefix :
    (answers line : List ℕ)
    → length line ≤ length answers
    → Ensures (λ out. IsPrefix out line) (write_rest answers line)
unfolding write_rest
write_rest-IsPrefix [] [] h = ([], refl)
write_rest-IsPrefix [] (c ∷ cs) h = absurd (omega (arith, h))
write_rest-IsPrefix (x ∷ xs) [] h = ([], refl)
write_rest-IsPrefix (x ∷ xs) (c ∷ cs) h = elim (Bool-cases (x == 0)) [
  | inl stop ↦ rw stop (c ∷ cs, refl)
  | inr more ↦ rw more (
      >>=-Ensures (λ out. IsPrefix out (drop x (c ∷ cs))) (λ out. IsPrefix out (c ∷ cs))
        (write_rest xs (drop x (c ∷ cs))) (λ out. some (take x (c ∷ cs) ++ out))
        (write_rest-IsPrefix xs (drop x (c ∷ cs))
          (omega (arith, h, length-drop_lt x c cs (ground (arith, more)))))
        (λ out e p. IsPrefix-take x (c ∷ cs) out p))
]

-- With an answer for each byte and one more, `append` returns: a first part of the line is in the
-- file, and the whole line is counted.
pub append-IsPrefix :
    (f : AppendFile) (answers line : List ℕ)
    → length line < length answers
    → Ensures
        (λ g.
          ((out : List ℕ) × IsPrefix out line × (g.written ≡ f.written ++ out))
          × (g.written_bytes ≡ f.written_bytes + length line))
        (append f answers line)
unfolding append
append-IsPrefix f [] line h = absurd (omega (arith, h))
append-IsPrefix f (n ∷ answers) line h =
    >>=-Ensures (λ out. IsPrefix out (drop n line)) _ (write_rest answers (drop n line)) _
      (write_rest-IsPrefix answers (drop n line) (omega (arith, h, length-drop_le n line)))
      (λ out e p. ((take n line ++ out, IsPrefix-take n line out p, refl), refl))

-- All bytes in the files, the oldest first.
abbrev pub content : List AppendFile → List ℕ
content [] = []
content (f ∷ fs) = content fs ++ f.written

abbrev top_bytes : List AppendFile → ℕ
top_bytes [] = 0
top_bytes (f ∷ fs) = f.written_bytes

-- There is a file, and the count of lines is less than the number at which the time is checked.
pub record IsOpen (p : LogFile) : Type 0 where
  pub some_file : 1 ≤ length p.files
  pub count_in : p.count < p.check_every_n

-- The file in use has not outgrown the size for rolling, or the last roll is not before that time.
abbrev pub IsRolled : ℕ → LogFile → Type 0
IsRolled now p = (top_bytes p.files ≤ p.roll_size) ⊎ (now ≤ p.last_roll)

IsAfter : ℕ → List ℕ → LogFile → Type 0
IsAfter now bytes p = IsOpen p × (content p.files ≡ bytes) × IsRolled now p

roll_file-IsAfter :
    (now available : ℕ) (p : LogFile)
    → IsOpen p
    → Ensures (IsAfter now (content p.files)) (roll_file now true available p)
unfolding roll_file IsAfter
roll_file-IsAfter now available p v = elim (Bool-cases (ltb p.last_roll now)) [
  | inl later ↦ rw later (
    record { some_file = omega arith; count_in = v.count_in },
    append-nil (content p.files),
    inl (omega arith),
  )
  | inr early ↦ rw early (v, refl, inr (ground (arith, early)))
]

after_write-IsAfter :
    (now available : ℕ) (p : LogFile) (g : AppendFile) (gs : List AppendFile)
    → p.count < p.check_every_n
    → Ensures (IsAfter now (content gs ++ g.written)) (after_write now true available p g gs)
unfolding after_write IsAfter
after_write-IsAfter now available p g gs h = elim (Bool-cases (ltb p.roll_size g.written_bytes)) [
  | inl full ↦ rw full (
      roll_file-IsAfter now available (record p { files = g ∷ gs })
        (record { some_file = omega arith; count_in = h }))
  | inr fits ↦
      let small : (g.written_bytes ≤ p.roll_size) = ground (arith, fits) in
      rw fits (elim (Bool-cases (ltb (p.count + 1) p.check_every_n)) [
        | inl before ↦
            rw before (
              record { some_file = omega arith; count_in = ground (arith, before) },
              refl,
              inl small,
            )
        | inr check ↦ rw check (elim (Bool-cases (not (period now == p.start_of_period))) [
          | inl other_day ↦ rw other_day (
              roll_file-IsAfter now available (record p { count = 0; files = g ∷ gs })
                (record { some_file = omega arith; count_in = omega (arith, h) }))
          | inr same_day ↦
              rw same_day (elim (Bool-cases (ltb p.flush_interval (now - p.last_flush))) [
                | inl due ↦ rw due (
                  record { some_file = omega arith; count_in = omega (arith, h) },
                  refl,
                  inl small,
                )
                | inr idle ↦ rw idle (
                  record { some_file = omega arith; count_in = omega (arith, h) },
                  refl,
                  inl small,
                )
              ])
        ])
      ])
]

-- What may be written: nothing, when the disk was too full at the last roll.
abbrev pub allowed : Bool → List ℕ → List ℕ
allowed forbit_write line = if forbit_write then [] else line

abbrev IsWritten : Bool → List ℕ → List ℕ → AppendFile × List AppendFile → Type 0
IsWritten forbit_write line before w =
    (out : List ℕ) × IsPrefix out (allowed forbit_write line)
    × (content w.1 ++ w.0.written ≡ before ++ out)

write-IsWritten :
    (forbit_write : Bool) (fs : List AppendFile) (answers line : List ℕ)
    → 1 ≤ length fs
    → length line < length answers
    → Ensures (IsWritten forbit_write line (content fs)) (write forbit_write fs answers line)
unfolding write dummy_inc_written_bytes
write-IsWritten forbit_write [] answers line some_file h = absurd (omega (arith, some_file))
write-IsWritten true (f ∷ fs) answers line some_file h =
    ([], ([], refl), sym (append-nil (content fs ++ f.written)))
write-IsWritten false (f ∷ fs) answers line some_file h =
    >>=-Ensures _ (IsWritten false line (content (f ∷ fs))) (append f answers line)
      (λ g. some (g, fs)) (append-IsPrefix f answers line h)
      (λ g e ((out, pre, w), counted).
        (out, pre, ap (◌++◌ (content fs)) w ∙ sym (append_assoc (content fs) f.written out)))

-- Appending a line to an open file, with an answer of fwrite for each byte and one more, returns if a new
-- file can be opened. The bytes of all files, closed ones included, are those that were there and a first
-- part of the line, or nothing if writing is forbidden; a file stays open, the count stays in its range,
-- and the file in use has not outgrown the size for rolling unless the last roll is not before the
-- present time.
pub append_unlocked_lem :
    (now available : ℕ) (answers line : List ℕ) (p : LogFile)
    → IsOpen p
    → length line < length answers
    → Ensures
        (λ q.
          IsOpen q
          × ((out : List ℕ) × IsPrefix out (allowed p.forbit_write line)
              × (content q.files ≡ content p.files ++ out))
          × IsRolled now q)
        (append_unlocked now true available answers p line)
unfolding append_unlocked IsAfter
append_unlocked_lem now available answers line p v h =
    >>=-Ensures (IsWritten p.forbit_write line (content p.files)) _
      (write p.forbit_write p.files answers line) (λ w. after_write now true available p w.0 w.1)
      (write-IsWritten p.forbit_write p.files answers line v.some_file h)
      (λ w e (out, pre, same).
        Ensures-mono (IsAfter now (content w.1 ++ w.0.written)) _
          (after_write now true available p w.0 w.1)
          (λ q (opened, all, rolled). (opened, (out, pre, all ∙ same), rolled))
          (after_write-IsAfter now available p w.0 w.1 v.count_in))

-- A log that is made at a time behind the epoch, with a positive number of lines between checks, is
-- open and empty, and forbids writing just when less than 300 MiB are free.
pub init-IsOpen :
    (now available roll_size flush_interval check_every_n : ℕ)
    → 1 ≤ now
    → 1 ≤ check_every_n
    → Ensures
        (λ p. IsOpen p × (content p.files ≡ []) × (p.forbit_write ≡ ltb available 314572800))
        (init now true available roll_size flush_interval check_every_n)
unfolding init roll_file
init-IsOpen now available roll_size flush_interval check_every_n h c =
    rw (lt→ltb 0 now h)
      (record { some_file = omega arith; count_in = omega (arith, c) }, refl, refl)
