-- ===== src/Http/Uri.antt =====
-- `requestData::parse_URI`: the request line. Each helper is the rest of the function from the point
-- at which it has searched for a byte.
pub mod Printing
pub mod RoundTrip
use so_l.Common.{
  ℕ, ◌+◌, ◌-◌, Bool, Option, none, some, List, [], ◌∷◌, ltb, leb, if◌then◌else◌, length, take, drop,
}
use so_l.Common.Text.{codes}
use so_l.Common.Search.{find, find_from, find_text, substr, same_text}
use so_l.Http.{Request, State, parse_headers_state, Method, get, post, Version, http_10, http_11}

-- `PARSE_URI_AGAIN`, `PARSE_URI_ERROR` and `PARSE_URI_SUCCESS`
pub data UriAnswer : Type 0 where
  uri_again uri_error uri_success : UriAnswer

version_of : List ℕ → Request → UriAnswer × Request
version_of ver r =
    if same_text ver (codes "1.0")
    then (uri_success, record r { http_version = http_10; state = parse_headers_state })
    else if same_text ver (codes "1.1")
    then (uri_success, record r { http_version = http_11; state = parse_headers_state })
    else (uri_error, r)

version_at : Option ℕ → List ℕ → Request → UriAnswer × Request
unfolding version_of
version_at none line r = (uri_error, r)
version_at (some pos) line r =
    if leb (length line - pos) 3 then (uri_error, r) else version_of (substr (pos + 1) 3 line) r

cut_query : Option ℕ → List ℕ → List ℕ
cut_query none name = name
cut_query (some pos) name = take pos name

before_query : List ℕ → List ℕ
unfolding cut_query
before_query name = cut_query (find b'?' name) name

-- What lies between the slash at `pos` and the space at `end`, up to a question mark.
target : ℕ → ℕ → List ℕ → List ℕ
unfolding before_query
target pos end line =
    if ltb 1 (end - pos)
    then before_query (substr (pos + 1) (end - pos - 1) line)
    else codes "index.html"

pub target_end : ℕ → Option ℕ → List ℕ → Request → UriAnswer × Request
unfolding target version_at
target_end pos none line r = (uri_error, r)
target_end pos (some end) line r =
    version_at (find_from b'/' line end) line (record r { file_name = target pos end line })

target_at : Option ℕ → List ℕ → Request → UriAnswer × Request
unfolding target_end
target_at none line r = (uri_error, r)
target_at (some pos) line r = target_end pos (find_from b' ' line pos) line r

parse_method : Option ℕ → Option ℕ → List ℕ → Request → UriAnswer × Request
unfolding target_at
parse_method (some pos) _ line r =
    target_at (find_from b'/' line pos) line (record r { method = get })
parse_method none (some pos) line r =
    target_at (find_from b'/' line pos) line (record r { method = post })
parse_method none none line r = (uri_error, r)

request_line : Option ℕ → Request → UriAnswer × Request
unfolding parse_method
request_line none r = (uri_again, r)
request_line (some pos) r =
    let line = take pos r.content in
    let rest = if ltb (pos + 1) (length r.content) then drop (pos + 1) r.content else [] in
    parse_method (find_text (codes "GET") line) (find_text (codes "POST") line) line
      (record r { content = rest })

unfoldable pub parse_uri : Request → UriAnswer × Request
unfolding request_line
parse_uri r = request_line (find_from b'\r' r.content r.now_read_pos) r
