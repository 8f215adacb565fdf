-- ===== src/SocketIo/Examples.antt =====
-- The theorems on `readn` and `writen` at short exchanges.
use so_l.Common.{ℕ, ◌≡◌, refl, false, some, List, [], ◌∷◌, Ensures, arith}
use so_l.SocketIo.{
  ReadAnswer, got, WriteAnswer, wrote, count, minus_one, readn_loop, readn, readn_string,
  writen_loop, writen_string,
}
use so_l.SocketIo.Reading.{IsReadAll, readn_string-IsReadAll}
use so_l.SocketIo.Writing.{Leaves, writen_string-Leaves}

abbrev answers : List ReadAnswer
answers = got (7 ∷ 8 ∷ []) ∷ ReadAnswer.interrupted ∷ got (9 ∷ []) ∷ got [] ∷ []

readn_runs : readn 8 answers ≡ some (count 3, 7 ∷ 8 ∷ 9 ∷ [])
unfolding readn readn_loop
readn_runs = refl

readn_string-IsReadAll_example :
    Ensures (IsReadAll 0 (1 ∷ []) false answers) (readn_string (1 ∷ []) false answers)
readn_string-IsReadAll_example = readn_string-IsReadAll (1 ∷ []) false answers tt

abbrev message : List ℕ
message = 1 ∷ 2 ∷ 3 ∷ 4 ∷ []

abbrev acceptances : List WriteAnswer
acceptances = wrote 1 ∷ WriteAnswer.interrupted ∷ wrote 2 ∷ WriteAnswer.would_block ∷ []

-- After an error the string still begins with bytes that went out.
writen_string_error :
    writen_string message (wrote 2 ∷ WriteAnswer.failed ∷ [])
    ≡ some (minus_one, message, 1 ∷ 2 ∷ [])
unfolding writen_string writen_loop
writen_string_error = refl

writen_string-Leaves_example : Ensures (Leaves message) (writen_string message acceptances)
writen_string-Leaves_example = writen_string-Leaves message acceptances (omega arith) tt
