-- ===== src/Http/Headers.antt =====
-- `requestData::parse_Headers`: the state machine of the header lines. A local variable that is -1 is
-- missing; an iterator that is made from a missing one lies before the text, and the model stops at a
-- `fault` there.
pub mod Scanning
pub mod Block
use so_l.Common.{
  ℕ, suc, ◌+◌, ◌-◌, Bool, true, false, ◌||◌, ltb, leb, ◌==◌, if◌then◌else◌, Option, none, some,
  List, [], ◌∷◌, take, drop,
}
use so_l.Common.Search.{same_text, substr}
use so_l.Http.{
  Request, HeadersState, h_start, h_key, h_colon, h_spaces_after_colon, h_value, h_cr, h_lf,
  h_end_cr, h_end_lf,
}

abbrev pub Headers : Type 0
Headers = List (List ℕ × List ℕ)

-- `headers[key] = value`
unfoldable pub insert : List ℕ → List ℕ → Headers → Headers
insert key value [] = (key, value) ∷ []
insert key value ((k, v) ∷ rest) =
    if same_text k key then (k, value) ∷ rest else (k, v) ∷ insert key value rest

-- `headers.find(key)`
unfoldable pub lookup : List ℕ → Headers → Option (List ℕ)
lookup key [] = none
lookup key ((k, v) ∷ rest) = if same_text k key then some v else lookup key rest

-- `h_state`, `headers` and the local variables.
pub record Scan : Type 0 where
  pub h_state : HeadersState
  pub key_start : Option ℕ
  pub key_end : Option ℕ
  pub value_start : Option ℕ
  pub value_end : Option ℕ
  pub now_read_line_begin : ℕ
  pub not_finish : Bool
  pub headers : Headers

pub data Outcome : Type 0 where
  ok : Scan → Outcome
  header_error : Scan → Outcome
  fault : Outcome

-- `i - start`
abbrev since : ℕ → Option ℕ → ℕ
since i none = i + 1
since i (some start) = i - start

-- The text between two iterators.
between : List ℕ → Option ℕ → Option ℕ → Option (List ℕ)
between str (some a) (some b) = some (substr a (b - a) str)
between str _ _ = none

store : ℕ → Option (List ℕ) → Option (List ℕ) → Scan → Outcome
unfolding insert
store i (some key) (some value) s =
    ok (record s { headers = insert key value s.headers; now_read_line_begin = i })
store i _ _ s = fault

-- The `switch`, for the byte `c` at `i`.
unfoldable pub step_in : HeadersState → List ℕ → ℕ → ℕ → Scan → Outcome
unfolding store between
step_in h_start str i c s =
    if c == b'\n' || c == b'\r'
    then ok s
    else ok (record s { h_state = h_key; key_start = some i; now_read_line_begin = i })
step_in h_key str i c s =
    if c == b':'
    then if leb (since i s.key_start) 0
      then header_error (record s { key_end = some i })
      else ok (record s { key_end = some i; h_state = h_colon })
    else if c == b'\n' || c == b'\r'
    then header_error s
    else ok s
step_in h_colon str i c s =
    if c == b' ' then ok (record s { h_state = h_spaces_after_colon }) else header_error s
step_in h_spaces_after_colon str i c s = ok (record s { h_state = h_value; value_start = some i })
step_in h_value str i c s =
    if c == b'\r'
    then if leb (since i s.value_start) 0
      then header_error (record s { h_state = h_cr; value_end = some i })
      else ok (record s { h_state = h_cr; value_end = some i })
    else if ltb 255 (since i s.value_start)
    then header_error s
    else ok s
step_in h_cr str i c s =
    if c == b'\n'
    then store i (between str s.key_start s.key_end) (between str s.value_start s.value_end)
        (record s { h_state = h_lf })
    else header_error s
step_in h_lf str i c s =
    if c == b'\r'
    then ok (record s { h_state = h_end_cr })
    else ok (record s { key_start = some i; h_state = h_key })
step_in h_end_cr str i c s =
    if c == b'\n' then ok (record s { h_state = h_end_lf }) else header_error s
step_in h_end_lf str i c s =
    ok (record s { not_finish = false; key_start = some i; now_read_line_begin = i })

infixl 5 ◌>>=◌
abbrev pub ◌>>=◌ : Outcome → (Scan → Outcome) → Outcome
ok s >>= f = f s
header_error s >>= f = header_error s
fault >>= f = fault

-- The loop, from `i` on; the bytes are those from there on.
unfoldable pub scan : List ℕ → ℕ → List ℕ → Scan → Outcome
unfolding step_in
scan str i [] s = ok s
scan str i (c ∷ cs) s =
    if s.not_finish then (step_in s.h_state str i c s >>= λ t. scan str (i + 1) cs t) else ok s

abbrev pub start_scan : HeadersState → Headers → Scan
start_scan h_state headers = record {
  h_state = h_state;
  key_start = none;
  key_end = none;
  value_start = none;
  value_end = none;
  now_read_line_begin = 0;
  not_finish = true;
  headers = headers;
}

-- `PARSE_HEADER_AGAIN`, `PARSE_HEADER_ERROR` and `PARSE_HEADER_SUCCESS`, with the request afterwards;
-- or a read before the text.
pub data HeadersAnswer : Type 0 where
  headers_again headers_failed headers_success : Request → HeadersAnswer
  headers_fault : HeadersAnswer

abbrev pub is_end_lf : HeadersState → Bool
is_end_lf h_end_lf = true
is_end_lf _ = false

answer : Request → Outcome → HeadersAnswer
answer r (ok s) =
    let q : Request = record r {
      h_state = s.h_state;
      headers = s.headers;
      content = drop s.now_read_line_begin r.content;
    } in
    if is_end_lf s.h_state then headers_success q else headers_again q
answer r (header_error s) = headers_failed (record r { h_state = s.h_state; headers = s.headers })
answer r fault = headers_fault

unfoldable pub parse_headers : Request → HeadersAnswer
unfolding scan answer
parse_headers r = answer r (scan r.content 0 r.content (start_scan r.h_state r.headers))
