-- ===== src/Http/Handler/Requests.antt =====
-- A request that comes in one piece.
use so_l.Common.{ℕ, ◌≡◌, ap, ◌∙◌, Option, some, List, ◌∷◌, ◌++◌}
use so_l.Http.{
  Request, new_request, State, parse_headers_state, analysis, Method, get, Version, h_end_lf,
}
use so_l.Http.Uri.Printing.{IsKnown, IsTarget, file_of, print_line}
use so_l.Http.Uri.RoundTrip.{IsPlain, parse_uri-print_line}
use so_l.Http.Headers.Scanning.{Line, print_headers}
use so_l.Http.Headers.Block.{AllLines, insert_all, left_over, parse_headers-print_headers}
use so_l.Http.Analysis.{Env, Answer, analysis_request}
use so_l.Http.Handler.{
  finish_with, after_headers, uri_done, headers_done, body_part, round, ◌>>=◌, handle_request,
}
use so_l.Http.Handler.Bodies.{finish_with-IsStopped, bind-IsStopped}

-- A whole request: its line, its header lines, a blank line, and a body.
abbrev pub print_request :
    Method → List ℕ → Option (List ℕ) → Version → Line → List Line → List ℕ → List ℕ
print_request m name query v l ls body =
    print_line m name query v ++ (b'\r' ∷ b'\n' ∷ print_headers (l ∷ ls) (b'\r' ∷ b'\n' ∷ body))

-- The request as its parts are read.
abbrev pub parsed :
    Request
    → Method
    → List ℕ
    → Option (List ℕ)
    → Version
    → Line
    → List Line
    → List ℕ
    → State
    → Request
parsed r m name query v l ls body state = record r {
  content = left_over body;
  method = m;
  file_name = file_of name query;
  http_version = v;
  state = state;
  now_read_pos = 0;
  h_state = h_end_lf;
  headers = insert_all (l ∷ ls) r.headers;
}

-- The round up to the headers' end.
round-printed :
    (env : Env) (epollfd fd : ℕ) (path : List ℕ) (m : Method) (name : List ℕ)
    (query : Option (List ℕ)) (v : Version) (l : Line) (ls : List Line) (body : List ℕ)
    → IsKnown v
    → IsTarget name query
    → IsPlain m (print_line m name query v)
    → AllLines (l ∷ ls)
    → round env (some (print_request m name query v l ls body)) (new_request epollfd fd path)
      ≡ body_part
          (after_headers m)
          env
          (parsed (new_request epollfd fd path) m name query v l ls body (after_headers m))
unfolding round new_request
round-printed env epollfd fd path m name query v l ls body known t plain lines =
    let new : Request = new_request epollfd fd path in
    let rest : List ℕ = b'\n' ∷ print_headers (l ∷ ls) (b'\r' ∷ b'\n' ∷ body) in
    let q : Request = record new {
      method = m;
      file_name = file_of name query;
      http_version = v;
      state = parse_headers_state;
      now_read_pos = 0;
    } in
    ap (λ a. uri_done a env) (parse_uri-print_line new m name query v rest known t plain)
    ∙ ap (λ a. headers_done a env) (parse_headers-print_headers q l ls body lines)

-- A request to get a file that comes whole in the first read, on a new connection, is answered as
-- `analysisRequest` answers its parts, whatever follows, and the loop ends.
pub handle_request-get :
    (env : Env) (epollfd fd : ℕ) (path name : List ℕ) (query : Option (List ℕ)) (v : Version)
    (l : Line) (ls : List Line) (body : List ℕ) (reads : List (Option (List ℕ)))
    → IsKnown v
    → IsTarget name query
    → AllLines (l ∷ ls)
    → handle_request env
        (some (print_request get name query v l ls body) ∷ reads)
        (new_request epollfd fd path)
      ≡ finish_with (
          analysis_request env
            (parsed (new_request epollfd fd path) get name query v l ls body analysis))
unfolding handle_request
handle_request-get env epollfd fd path name query v l ls body reads known t lines =
    let answer : Answer =
      analysis_request env
        (parsed (new_request epollfd fd path) get name query v l ls body analysis) in
    ap (λ m. m >>= λ q. handle_request env reads q)
      (round-printed env epollfd fd path get name query v l ls body known t tt lines)
    ∙ bind-IsStopped (finish_with answer) _ (finish_with-IsStopped answer)
