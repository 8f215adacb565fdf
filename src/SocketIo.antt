-- ===== src/SocketIo.antt =====
-- The loops round read(2) and write(2) of net/Util.cpp. The kernel's answers are a list, an answer
-- for each call that the loop makes; where the list ends before the loop does, the loop is still
-- running, and the result is `none`.
pub mod Reading
pub mod Writing
mod Examples
use so_l.Common.{
  ℕ, ◌+◌, ◌-◌, Bool, true, false, ltb, ◌==◌, if◌then◌else◌, Option, none, some, List, [], ◌∷◌, ◌++◌,
  length, take, drop,
}

-- What read(2) returns: the bytes (none at the end of the stream), or -1 with `errno`.
pub data ReadAnswer : Type 0 where
  got : List ℕ → ReadAnswer
  interrupted would_block failed : ReadAnswer

-- What write(2) returns: the number of bytes taken, or -1 with `errno`.
pub data WriteAnswer : Type 0 where
  wrote : ℕ → WriteAnswer
  interrupted would_block failed : WriteAnswer

-- An `ssize_t`: a count, or -1.
pub data Count : Type 0 where
  count : ℕ → Count
  minus_one : Count

-- `readn(int, void *, size_t)`: what is returned, and what stands in the buffer.
unfoldable pub readn_loop : ℕ → ℕ → List ℕ → List ReadAnswer → Option (Count × List ℕ)
readn_loop nleft sum buff [] = if nleft == 0 then some (count sum, buff) else none
readn_loop nleft sum buff (got bs ∷ answers) =
    let rest = readn_loop (nleft - length bs) (sum + length bs) (buff ++ bs) answers in
    if nleft == 0
    then some (count sum, buff)
    else if length bs == 0
    then some (count sum, buff)
    else rest
readn_loop nleft sum buff (ReadAnswer.interrupted ∷ answers) =
    let rest = readn_loop nleft sum buff answers in
    if nleft == 0 then some (count sum, buff) else rest
readn_loop nleft sum buff (ReadAnswer.would_block ∷ answers) = some (count sum, buff)
readn_loop nleft sum buff (ReadAnswer.failed ∷ answers) =
    if nleft == 0 then some (count sum, buff) else some (minus_one, buff)

unfoldable pub readn : ℕ → List ReadAnswer → Option (Count × List ℕ)
readn n answers = readn_loop n 0 [] answers

-- `readn(int, std::string &, bool &)`: what is returned, the string and the flag `zero`.
unfoldable pub readn_string_loop :
    ℕ → List ℕ → Bool → List ReadAnswer → Option (Count × List ℕ × Bool)
readn_string_loop sum in_buffer flag [] = none
readn_string_loop sum in_buffer flag (got bs ∷ answers) =
    let rest = readn_string_loop (sum + length bs) (in_buffer ++ bs) flag answers in
    if length bs == 0 then some (count sum, in_buffer, true) else rest
readn_string_loop sum in_buffer flag (ReadAnswer.interrupted ∷ answers) =
    readn_string_loop sum in_buffer flag answers
readn_string_loop sum in_buffer flag (ReadAnswer.would_block ∷ answers) =
    some (count sum, in_buffer, flag)
readn_string_loop sum in_buffer flag (ReadAnswer.failed ∷ answers) =
    some (minus_one, in_buffer, flag)

unfoldable pub readn_string : List ℕ → Bool → List ReadAnswer → Option (Count × List ℕ × Bool)
readn_string in_buffer flag answers = readn_string_loop 0 in_buffer flag answers

-- How a loop round write(2) ends: all is written, EAGAIN, or another error.
pub data Ending : Type 0 where
  done again error : Ending

-- The loop of both `writen`: `sum` bytes are written, `sent` is what went out.
unfoldable pub writen_loop : List ℕ → ℕ → List ℕ → List WriteAnswer → Option (Ending × ℕ × List ℕ)
writen_loop ptr sum sent [] = if length ptr == 0 then some (done, sum, sent) else none
writen_loop ptr sum sent (wrote k ∷ answers) =
    let rest = writen_loop (drop k ptr) (sum + k) (sent ++ take k ptr) answers in
    if length ptr == 0 then some (done, sum, sent) else rest
writen_loop ptr sum sent (WriteAnswer.interrupted ∷ answers) =
    let rest = writen_loop ptr sum sent answers in
    if length ptr == 0 then some (done, sum, sent) else rest
writen_loop ptr sum sent (WriteAnswer.would_block ∷ answers) =
    if length ptr == 0 then some (done, sum, sent) else some (again, sum, sent)
writen_loop ptr sum sent (WriteAnswer.failed ∷ answers) =
    if length ptr == 0 then some (done, sum, sent) else some (error, sum, sent)

abbrev pub to_count : Ending → ℕ → Count
to_count error sum = minus_one
to_count done sum = count sum
to_count again sum = count sum

-- `writen(int, char *, size_t)`: what is returned, and the bytes that went out.
unfoldable pub writen : List ℕ → List WriteAnswer → Option (Count × List ℕ)
writen ptr answers = elim (writen_loop ptr 0 [] answers) [
  | none ↦ none
  | some (e, sum, sent) ↦ some (to_count e sum, sent)
]

-- The end of `writen(int, std::string &)`: -1 leaves the string alone.
abbrev pub keep_unsent : Ending → ℕ → List ℕ → List ℕ
keep_unsent error sum sbuff = sbuff
keep_unsent done sum sbuff = if sum == length sbuff then [] else drop sum sbuff
keep_unsent again sum sbuff = if sum == length sbuff then [] else drop sum sbuff

-- `writen(int, std::string &)`: what is returned, the string afterwards, and the bytes that went out.
unfoldable pub writen_string : List ℕ → List WriteAnswer → Option (Count × List ℕ × List ℕ)
writen_string sbuff answers = elim (writen_loop sbuff 0 [] answers) [
  | none ↦ none
  | some (e, sum, sent) ↦ some (to_count e sum, keep_unsent e sum sbuff, sent)
]
