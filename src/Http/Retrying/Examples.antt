-- ===== src/Http/Retrying/Examples.antt =====
-- A read that is retried.
use so_l.Common.{◌≡◌, refl, some, List, [], ◌∷◌}
use so_l.SocketIo.{ReadAnswer, got}
use so_l.Http.Retrying.{readn}

-- Four bytes are asked for; three come, and then an error.
abbrev answers : List ReadAnswer
answers =
    ReadAnswer.would_block
    ∷ got (1 ∷ 2 ∷ [])
    ∷ ReadAnswer.interrupted
    ∷ got (3 ∷ [])
    ∷ ReadAnswer.failed
    ∷ ReadAnswer.failed
    ∷ ReadAnswer.failed
    ∷ ReadAnswer.failed
    ∷ ReadAnswer.failed
    ∷ ReadAnswer.failed
    ∷ ReadAnswer.failed
    ∷ ReadAnswer.failed
    ∷ ReadAnswer.failed
    ∷ ReadAnswer.failed
    ∷ ReadAnswer.failed
    ∷ []

readn-answers : readn 4 answers ≡ some (3, 1 ∷ 2 ∷ 3 ∷ [])
unfolding readn
readn-answers = refl
