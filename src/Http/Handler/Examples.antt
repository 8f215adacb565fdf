-- ===== src/Http/Handler/Examples.antt =====
-- The theorems on requests at small ones.
use so_l.Common.{◌≡◌, refl, false, none, some, [], ◌∷◌, ◌++◌, map, replicate, arith}
use so_l.Common.Text.{codes}
use so_l.Common.Search.{find_from, find_text, starts, same_text}
use so_l.Http.{
  Request, new_request, parse_headers_state, analysis, finish, get, post, http_10, http_11, h_start,
  h_end_lf,
}
use so_l.Http.Uri.{uri_success, parse_uri}
use so_l.Http.Uri.Printing.{IsTarget, print_line}
use so_l.Http.Uri.RoundTrip.{parse_uri-print_line}
use so_l.Http.Headers.{insert, lookup, headers_success, parse_headers}
use so_l.Http.Headers.Scanning.{Line, IsLine, print_headers}
use so_l.Http.Headers.Block.{insert_all, parse_headers-print_headers}
use so_l.Http.Analysis.{unmapped, mapped, Env, analysis_request}
use so_l.Http.Analysis.Framing.{AllFramed, analysis_request-IsAnswer}
use so_l.Http.Handler.{stoi, is_short, stops, goes_on, finish_with, handle_request}
use so_l.Http.Handler.Requests.{print_request, parsed, handle_request-get}
use so_l.Http.Handler.Bodies.{waiting, IsAnswered, handle_request-IsAnswered, body_never_comes}

abbrev new : Request
new = new_request 5 7 []

abbrev host : Line
host = record {
  key_first = b'H';
  key_rest = codes "ost";
  value_first = b'a';
  value_rest = codes ".org";
}

IsLine-host : IsLine host
IsLine-host = record {
  key_colon = (refl, (refl, (refl, (refl, tt))));
  key_lf = (refl, (refl, (refl, (refl, tt))));
  key_cr = (refl, (refl, (refl, (refl, tt))));
  value_cr = (refl, (refl, (refl, (refl, tt))));
  value_short = omega arith;
}

IsTarget-file : IsTarget (codes "f.txt") (some (codes "x=1"))
IsTarget-file = record {
  name_part =
      ((refl, (refl, (refl, (refl, (refl, tt))))), (refl, (refl, (refl, (refl, (refl, tt))))));
  no_mark = (refl, (refl, (refl, (refl, (refl, tt)))));
  query_part = ((refl, (refl, (refl, tt))), (refl, (refl, (refl, tt))));
}

-- A printer that knows one number, and one file.
abbrev env : Env
env = record {
  file = λ name. mapped (codes "hi");
  destroyed = λ text. text;
  print_number = λ n. codes "2";
  first_sent = some 64;
  second_sent = some 2;
}

parse_uri-print_line_example :
    parse_uri (record new {
      content =
          print_line post (codes "f.txt") (some (codes "x=1")) http_10 ++ (b'\r' ∷ codes "\nrest");
      now_read_pos = 0;
    })
    ≡ (
      uri_success,
      record new {
        content = codes "\nrest";
        method = post;
        file_name = codes "f.txt";
        http_version = http_10;
        state = parse_headers_state;
        now_read_pos = 0;
      },
    )
unfolding find_text starts
parse_uri-print_line_example =
    parse_uri-print_line new post (codes "f.txt") (some (codes "x=1")) http_10 (codes "\nrest") tt
      IsTarget-file refl

parse_headers-print_headers_example :
    parse_headers (record new {
      content = b'\n' ∷ print_headers (host ∷ []) (b'\r' ∷ b'\n' ∷ []);
      h_state = h_start;
    })
    ≡ headers_success (record new {
      content = codes "\n\r\n";
      h_state = h_end_lf;
      headers = insert_all (host ∷ []) new.headers;
    })
parse_headers-print_headers_example = parse_headers-print_headers new host [] [] (IsLine-host, tt)

-- What is read is one byte, and the file cannot be mapped.
abbrev poor : Env
poor = record env { file = λ name. unmapped 2; destroyed = λ text. 0 ∷ [] }

analysis_request-IsAnswer_example :
    AllFramed poor.print_number (analysis_request poor (record new { method = get })).written
analysis_request-IsAnswer_example =
    analysis_request-IsAnswer poor (record new { method = get }) (λ n. omega arith)
      (λ text. omega arith)

handle_request-get_example :
    handle_request env
      (some (print_request get (codes "f.txt") (some (codes "x=1")) http_11 host [] (codes "b"))
        ∷ none
        ∷ [])
      (new_request 5 7 [])
    ≡ finish_with (
        analysis_request env (
          parsed
            (new_request 5 7 [])
            get
            (codes "f.txt")
            (some (codes "x=1"))
            http_11
            host
            []
            (codes "b")
            analysis))
handle_request-get_example =
    handle_request-get env 5 7 [] (codes "f.txt") (some (codes "x=1")) http_11 host [] (codes "b")
      (none ∷ []) tt IsTarget-file (IsLine-host, tt)

abbrev posting : Request
posting = record new { method = post; headers = (codes "Content-length", codes " 5") ∷ [] }

handle_request-IsAnswered_example :
    IsAnswered env posting 5
      (codes "ab")
      (codes "c" ∷ codes "def" ∷ [])
      (handle_request env (map some (codes "c" ∷ codes "def" ∷ [])) (waiting posting (codes "ab")))
unfolding lookup same_text stoi
handle_request-IsAnswered_example =
    handle_request-IsAnswered env posting (codes " 5") 5 refl refl (codes "ab") (codes "c")
      (codes "def" ∷ []) (omega arith)

body_never_comes_example :
    handle_request env (replicate 1000 (some [])) (waiting posting (codes "ab"))
    ≡ goes_on (waiting posting (codes "ab"))
unfolding lookup same_text stoi is_short
body_never_comes_example =
    body_never_comes env posting (codes " 5") (false, 5) refl refl (codes "ab") 1000 refl

whole_get :
    handle_request env (some (codes "GET /f.txt?x=1 HTTP/1.1\r\nHost: a.org\r\n\r\nb") ∷ []) new
    ≡ stops false
        (record new {
          content = codes "b";
          method = get;
          http_version = http_11;
          file_name = codes "f.txt";
          state = finish;
          h_state = h_end_lf;
          headers = (codes "Host", codes "a.org") ∷ [];
        })
        (codes "HTTP/1.1 200 OK\r\nContent-type: text/plain\r\nContent-length: 2\r\n\r\n"
          ∷ codes "hi"
          ∷ [])
unfolding handle_request new_request parse_uri find_from find_text parse_headers insert lookup
    same_text analysis_request
whole_get = refl
