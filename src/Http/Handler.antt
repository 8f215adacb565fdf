-- ===== src/Http/Handler.antt =====
-- `requestData::handleRequest`: the loop that reads, parses and answers. What each `readn` returns is
-- a list, where nothing is a negative count.
pub mod Requests
pub mod Bodies
mod Examples
use so_l.Common.{
  ℕ, ◌+◌, ◌-◌, ◌*◌, ◌<◌, Bool, true, false, not, ◌&&◌, ◌||◌, ltb, leb, ◌==◌, if◌then◌else◌, Option,
  none, some, List, [], ◌∷◌, ◌++◌, length,
}
use so_l.Common.Text.{codes}
use so_l.Http.{
  Request, State, parse_uri_state, parse_headers_state, recv_body, analysis, finish, Method,
  no_method, get, post,
}
use so_l.Http.Uri.{UriAnswer, uri_again, uri_error, uri_success, parse_uri}
use so_l.Http.Headers.{
  lookup, HeadersAnswer, headers_again, headers_failed, headers_success, headers_fault,
  parse_headers,
}
use so_l.Http.Analysis.{Env, Answer, analysis_request}

-- `std::stoi`: the sign and the magnitude, or an exception.
skip_spaces : List ℕ → List ℕ
skip_spaces [] = []
skip_spaces (c ∷ cs) = if c == b' ' || leb b'\t' c && leb c b'\r' then skip_spaces cs else c ∷ cs

abbrev is_digit : ℕ → Bool
is_digit c = leb b'0' c && leb c b'9'

digits_value : ℕ → List ℕ → ℕ
digits_value n [] = n
digits_value n (c ∷ cs) =
    let more = digits_value (n * 10 + (c - b'0')) cs in if is_digit c then more else n

in_range : Bool → ℕ → Option (Bool × ℕ)
in_range negative n =
    if ltb (if negative then 2147483648 else 2147483647) n then none else some (negative, n)

unsigned_value : Bool → List ℕ → Option (Bool × ℕ)
unfolding digits_value in_range
unsigned_value negative [] = none
unsigned_value negative (c ∷ cs) =
    if is_digit c then in_range negative (digits_value 0 (c ∷ cs)) else none

signed_value : List ℕ → Option (Bool × ℕ)
unfolding unsigned_value
signed_value [] = none
signed_value (c ∷ cs) =
    if c == b'-'
    then unsigned_value true cs
    else if c == b'+'
    then unsigned_value false cs
    else unsigned_value false (c ∷ cs)

unfoldable pub stoi : List ℕ → Option (Bool × ℕ)
unfolding skip_spaces signed_value
stoi str = signed_value (skip_spaces str)

-- `content.size() < content_length`, where the length becomes an unsigned number of 64 bits.
unfoldable pub is_short : ℕ → Bool × ℕ → Bool
is_short size (negative, n) =
    if negative && not (n == 0) then ltb size (18446744073709551616 - n) else ltb size n

-- A round of the loop, or the loop: it ends with `isError` and what was written; it goes on; it is left
-- by an exception of `stoi`; or it reads before a text.
pub data Round : Type 0 where
  stops : Bool → Request → List (List ℕ) → Round
  goes_on throws : Request → Round
  faults : Round

unfoldable pub finish_with : Answer → Round
finish_with a =
    if a.success
    then stops false (record a.request { state = finish }) a.written
    else stops true a.request a.written

-- The rest of a round, from each test of `state` on.
analysis_part : State → Env → Request → Round
unfolding finish_with
analysis_part analysis env r = finish_with (analysis_request env r)
analysis_part _ env r = goes_on r

with_length : Option (Bool × ℕ) → Env → Request → Round
unfolding analysis_part is_short
with_length none env r = throws r
with_length (some n) env r =
    if is_short (length r.content) n
    then goes_on r
    else analysis_part analysis env (record r { state = analysis })

length_of : Option (List ℕ) → Env → Request → Round
unfolding with_length
length_of none env r = stops true r []
length_of (some text) env r = with_length (stoi text) env r

body_part : State → Env → Request → Round
unfolding length_of analysis_part
body_part recv_body env r = length_of (lookup (codes "Content-length") r.headers) env r
body_part analysis env r = analysis_part analysis env r
body_part finish env r = analysis_part finish env r
body_part parse_uri_state env r = analysis_part parse_uri_state env r
body_part parse_headers_state env r = analysis_part parse_headers_state env r

abbrev after_headers : Method → State
after_headers post = recv_body
after_headers _ = analysis

headers_done : HeadersAnswer → Env → Round
unfolding body_part
headers_done (headers_again q) env = stops false q []
headers_done (headers_failed q) env = stops true q []
headers_done (headers_success q) env =
    body_part (after_headers q.method) env (record q { state = after_headers q.method })
headers_done headers_fault env = faults

headers_part : State → Env → Request → Round
unfolding headers_done body_part
headers_part parse_headers_state env r = headers_done (parse_headers r) env
headers_part parse_uri_state env r = body_part parse_uri_state env r
headers_part recv_body env r = body_part recv_body env r
headers_part analysis env r = body_part analysis env r
headers_part finish env r = body_part finish env r

uri_done : UriAnswer × Request → Env → Round
unfolding headers_part
uri_done (uri_again, q) env = stops false q []
uri_done (uri_error, q) env = stops true q []
uri_done (uri_success, q) env = headers_part q.state env q

uri_part : State → Env → Request → Round
unfolding uri_done headers_part
uri_part parse_uri_state env r = uri_done (parse_uri r) env
uri_part parse_headers_state env r = headers_part parse_headers_state env r
uri_part recv_body env r = headers_part recv_body env r
uri_part analysis env r = headers_part analysis env r
uri_part finish env r = headers_part finish env r

unfoldable pub round : Env → Option (List ℕ) → Request → Round
unfolding uri_part
round env none r = stops true r []
round env (some bytes) r = uri_part r.state env (record r { content = r.content ++ bytes })

infixl 5 ◌>>=◌
abbrev pub ◌>>=◌ : Round → (Request → Round) → Round
goes_on r >>= f = f r
stops b r w >>= f = stops b r w
throws r >>= f = throws r
faults >>= f = faults

-- The loop; it goes on where the reads end.
unfoldable pub handle_request : Env → List (Option (List ℕ)) → Request → Round
unfolding round
handle_request env [] r = goes_on r
handle_request env (read ∷ reads) r = round env read r >>= λ q. handle_request env reads q
