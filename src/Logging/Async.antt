-- ===== src/Logging/Async.antt =====
-- `AsyncLogging` of base/async_logging.cpp: producers append lines to a front buffer under a mutex,
-- and a consumer thread takes the full buffers and writes them to the log file.
--
-- A `System` is what the producers share and the consumer's local variables. What is done under the
-- mutex is one step: `append`, and `collect`, the block at the head of the consumer's loop. Here a
-- wait on the condition ends; what it does to the mutex, when no buffer is full, is in
-- Threads/TimedWait. `drain` is the rest of that round, on local variables alone, so a round is two
-- steps, between which any number of lines may be appended. A `unique_ptr` that was moved from is
-- `none`. An assertion that fails gives `none`.
pub mod Buffers
pub mod Invariant
pub mod Delivery
pub mod Rounds
mod Examples
use so_l.Common.{
  ◌>>=◌, ℕ, ◌+◌, ◌-◌, Bool, true, false, ltb, leb, ◌==◌, if◌then◌else◌, Option, none, some, List,
  [], ◌∷◌, ◌++◌, ◌&&◌, length, take,
}
use so_l.Logging.FixedBuffer.{FixedBuffer, new_buffer, avail, append as buffer_append, reset}

pub record System : Type 0 where
  pub buffer_size : ℕ
  pub sync : Bool
  -- shared, under the mutex
  pub current_buffer : FixedBuffer
  pub next_buffer : Option FixedBuffer
  pub buffers : List FixedBuffer
  -- local to the consumer
  pub new_buffer1 : Option FixedBuffer
  pub new_buffer2 : Option FixedBuffer
  pub buffers_to_write : List FixedBuffer
  -- the bytes given to `LogFile::append`, and the number of calls of `LogFile::flush`
  pub output : List ℕ
  pub flushes : ℕ

-- The constructor, and the head of `threadFunc` up to its loop.
unfoldable pub init : ℕ → Bool → System
init size sync = record {
  buffer_size = size;
  sync = sync;
  current_buffer = new_buffer size;
  next_buffer = some (new_buffer size);
  buffers = [];
  new_buffer1 = some (new_buffer size);
  new_buffer2 = some (new_buffer size);
  buffers_to_write = [];
  output = [];
  flushes = 0;
}

-- `nextBuffer_`, or a new buffer.
abbrev pub spare : ℕ → Option FixedBuffer → FixedBuffer
spare size (some b) = b
spare size none = new_buffer size

-- `AsyncLogging::append`, with whether it notifies the consumer.
unfoldable pub append : System → List ℕ → System × Bool
append s logline =
    if ltb (length logline) (avail s.current_buffer)
    then (record s { current_buffer = buffer_append s.current_buffer logline }, s.sync)
    else (
      record s {
        current_buffer = buffer_append (spare s.buffer_size s.next_buffer) logline;
        next_buffer = none;
        buffers = s.buffers ++ (s.current_buffer ∷ []);
      },
      true,
    )

-- `newBuffer && newBuffer->length() == 0`
abbrev pub is_clean : Option FixedBuffer → Bool
is_clean (some b) = length b.bytes == 0
is_clean none = false

abbrev pub is_empty {ℓ} : {A : Type ℓ} → List A → Bool
is_empty [] = true
is_empty (x ∷ xs) = false

-- `if (!nextBuffer_) nextBuffer_ = std::move(newBuffer2)`: the new values of the two.
abbrev pub move_into_empty :
    Option FixedBuffer → Option FixedBuffer → Option FixedBuffer × Option FixedBuffer
move_into_empty none from = (from, none)
move_into_empty (some b) from = (some b, from)

-- The asserts at the head of the loop and the block under the mutex.
pub collect_into : System → Option FixedBuffer → Option System
collect_into s none = none
collect_into s (some fresh) =
    let (next, second) = move_into_empty s.next_buffer s.new_buffer2 in
    some (record s {
      current_buffer = fresh;
      next_buffer = next;
      buffers = [];
      new_buffer1 = none;
      new_buffer2 = second;
      buffers_to_write = s.buffers ++ (s.current_buffer ∷ []);
    })

unfoldable pub collect : System → Option System
unfolding collect_into
collect s =
    if is_clean s.new_buffer1 && is_clean s.new_buffer2 && is_empty s.buffers_to_write
    then collect_into s s.new_buffer1
    else none

pub concat : List FixedBuffer → List ℕ
concat [] = []
concat (b ∷ bs) = b.bytes ++ concat bs

abbrev pub push_front {ℓ} : {A : Type ℓ} → A → Option (A × List A) → Option (A × List A)
push_front x none = some (x, [])
push_front x (some (y, rest)) = some (y, x ∷ rest)

-- `v.back()` and `v` after `v.pop_back()`.
unfoldable pub split_back {ℓ} : {A : Type ℓ} → List A → Option (A × List A)
split_back [] = none
split_back (x ∷ xs) = push_front x (split_back xs)

abbrev pub reset_back :
    Option (FixedBuffer × List FixedBuffer) → Option (FixedBuffer × List FixedBuffer)
reset_back none = none
reset_back (some (b, rest)) = some (reset b, rest)

-- `if (!newBuffer) { assert(!buffersToWrite.empty()); newBuffer = back; pop_back; reset }`
unfoldable pub refill :
    Option FixedBuffer → List FixedBuffer → Option (FixedBuffer × List FixedBuffer)
refill (some b) to_write = some (b, to_write)
refill none to_write = reset_back (split_back to_write)

-- The two refills at the end of a round: the new `newBuffer1` and `newBuffer2`.
unfoldable pub refill_both :
    Option FixedBuffer → Option FixedBuffer → List FixedBuffer → Option (FixedBuffer × FixedBuffer)
refill_both a b to_write = do
  (first, rest) ← refill a to_write
  (second, _) ← refill b rest
  some (first, second)

-- A producer appends a line, or the consumer makes its next step.
pub data Event : Type 0 where
  line : List ℕ → Event
  consume : Event

-- The text of a report of dropped buffers, which `snprintf` formats with the time: a parameter.
module _ (report : ℕ → List ℕ) where
  -- What is written before the buffers, and the buffers that are kept, when there are too many.
  unfoldable pub shed : List FixedBuffer → List ℕ × List FixedBuffer
  shed to_write =
      if ltb 25 (length to_write)
      then (report (length to_write - 2), take 2 to_write)
      else ([], to_write)

  -- The rest of a round, behind the assert that there is something to write.
  unfoldable pub drain : System → Option System
  drain s =
      let (notice, kept) = shed s.buffers_to_write in
      if is_empty s.buffers_to_write
      then none
      else refill_both s.new_buffer1 s.new_buffer2 (take 2 kept) >>= λ fresh. some (record s {
        new_buffer1 = some fresh.0;
        new_buffer2 = some fresh.1;
        buffers_to_write = [];
        output = s.output ++ (notice ++ concat kept);
        flushes = s.flushes + 1;
      })

  unfoldable pub step : System → Event → Option System
  step s (line l) = some (append s l).0
  step s consume = if is_empty s.buffers_to_write then collect s else drain s

  unfoldable pub run : System → List Event → Option System
  run s [] = some s
  run s (e ∷ es) = step s e >>= λ t. run t es
