-- ===== src/Http/Retrying.antt =====
-- `readn` of Examples/Ver0.1/utility.cpp. What read(2) returns is a list, an answer for each call; where
-- it ends before the loop does, the loop is still running, and the result is `none`.
pub mod Progress
mod Examples
use so_l.Common.{
  ℕ, zero, suc, ◌+◌, ◌-◌, ◌==◌, if◌then◌else◌, Option, none, some, List, [], ◌∷◌, ◌++◌, length,
}
use so_l.SocketIo.{ReadAnswer, got, interrupted, would_block, failed}

-- The loop, with the bytes that are left to read, the retries that are left, and what was read.
unfoldable pub readn_loop : ℕ → ℕ → ℕ → List ℕ → List ReadAnswer → Option (ℕ × List ℕ)
readn_loop zero retry_count nread buf answers = some (nread, buf)
readn_loop (suc left) retry_count nread buf [] = none
readn_loop (suc left) retry_count nread buf (got bs ∷ answers) =
    let rest =
      readn_loop (suc left - length bs) retry_count (nread + length bs) (buf ++ bs) answers in
    if length bs == 0 then some (nread, buf) else rest
readn_loop (suc left) zero nread buf (ReadAnswer.interrupted ∷ answers) = some (nread, buf)
readn_loop (suc left) (suc retry) nread buf (ReadAnswer.interrupted ∷ answers) =
    readn_loop (suc left) retry nread buf answers
readn_loop (suc left) zero nread buf (ReadAnswer.would_block ∷ answers) = some (nread, buf)
readn_loop (suc left) (suc retry) nread buf (ReadAnswer.would_block ∷ answers) =
    readn_loop (suc left) retry nread buf answers
readn_loop (suc left) retry_count nread buf (ReadAnswer.failed ∷ answers) = some (nread, buf)

unfoldable pub readn : ℕ → List ReadAnswer → Option (ℕ × List ℕ)
unfolding readn_loop
readn n answers = readn_loop n 10 0 [] answers
