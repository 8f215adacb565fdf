-- ===== src/Http/Uri/RoundTrip.antt =====
-- A request line that is printed from a method, a target and a version is parsed into them.
use so_l.Common.{
  ℕ, ◌+◌, ◌≡◌, refl, ap, true, Option, none, some, List, [], ◌∷◌, ◌++◌, ltb, if◌then◌else◌, length,
  drop, arith, length-append, false,
}
use so_l.Common.Text.{codes}
use so_l.Common.Search.{
  find, find_from, find_text, starts, Without, find-Without, Without-append, take-length-append,
  drop-length-add,
}
use so_l.Http.{
  Request, parse_headers_state, Method, no_method, get, post, Version, no_version, http_10, http_11,
}
use so_l.Http.Uri.{uri_success, target_at, parse_method, request_line, parse_uri}
use so_l.Http.Uri.Printing.{
  version_part, method_text, query_text, print_line, file_of, IsQuery, IsTarget, IsKnown,
  target_end-printed,
}

-- A request that is posted is recognised only if nothing in the line reads `GET`.
abbrev pub IsPlain : Method → List ℕ → Type 0
IsPlain no_method line = ⊥
IsPlain get line = Unit
IsPlain post line = find_text (codes "GET") line ≡ none

find_from_start : (c : ℕ) (str : List ℕ) (n : ℕ) → find c str ≡ some n → find_from c str 0 ≡ some n
unfolding find_from
find_from_start c str n e = rw e (ap some (omega arith))

rest_of_content :
    (line rest : List ℕ) (c : ℕ)
    → (if ltb (length line + 1) (length (line ++ (c ∷ rest)))
        then drop (length line + 1) (line ++ (c ∷ rest))
        else [])
      ≡ rest
rest_of_content line [] c =
    let last : (ltb (length line + 1) (length (line ++ (c ∷ []))) ≡ false) =
      ground (arith, length-append line (c ∷ [])) in
    rw last refl
rest_of_content line (x ∷ rest) c =
    let more : (ltb (length line + 1) (length (line ++ (c ∷ x ∷ rest))) ≡ true) =
      ground (arith, length-append line (c ∷ x ∷ rest)) in
    rw more (drop-length-add line (c ∷ x ∷ rest) 1)

parse_method-printed :
    (m : Method) (name : List ℕ) (query : Option (List ℕ)) (v : Version) (r : Request)
    → IsKnown v
    → Without b'?' name
    → Without b' ' (name ++ query_text query)
    → let line = print_line m name query v in
      IsPlain m line
      → parse_method (find_text (codes "GET") line) (find_text (codes "POST") line) line r ≡ (
        uri_success,
        record r {
          method = m;
          file_name = file_of name query;
          http_version = v;
          state = parse_headers_state;
        },
      )
unfolding parse_method target_at find_text starts find_from find
parse_method-printed no_method name query v r known mark space plain = absurd plain
parse_method-printed get name query v r known mark space plain =
    target_end-printed (codes "GET ") name query v (record r { method = get }) known mark space
parse_method-printed post name query v r known mark space plain =
    rw plain (
      target_end-printed (codes "POST ") name query v (record r { method = post }) known mark space)

Without-version : (v : Version) → Without b'\r' (version_part v)
Without-version no_version =
    (refl, (refl, (refl, (refl, (refl, (refl, (refl, (refl, (refl, tt)))))))))
Without-version http_10 = (refl, (refl, (refl, (refl, (refl, (refl, (refl, (refl, (refl, tt)))))))))
Without-version http_11 = (refl, (refl, (refl, (refl, (refl, (refl, (refl, (refl, (refl, tt)))))))))

Without-method : (m : Method) → Without b'\r' (method_text m)
Without-method no_method = (refl, (refl, (refl, (refl, tt))))
Without-method get = (refl, (refl, (refl, (refl, tt))))
Without-method post = (refl, (refl, (refl, (refl, (refl, tt)))))

Without-query :
    (query : Option (List ℕ))
    → IsQuery query
    → Without b'\r' (query_text query) × Without b' ' (query_text query)
Without-query none h = (tt, tt)
Without-query (some q) (h, k) = ((refl, h), (refl, k))

Without-print_line :
    (m : Method) (name : List ℕ) (query : Option (List ℕ)) (v : Version)
    → IsTarget name query
    → Without b'\r' (print_line m name query v)
Without-print_line m name query v t =
    let mid : List ℕ = name ++ query_text query in
    let inner : Without b'\r' mid =
      Without-append b'\r' name (query_text query) t.name_part.0
        (Without-query query t.query_part).0 in
    Without-append b'\r' (method_text m) (b'/' ∷ (mid ++ version_part v)) (Without-method m)
      (refl, Without-append b'\r' mid (version_part v) inner (Without-version v))

-- A request line that is printed from a method, a target, with or without a query, and a version, and
-- that the carriage return ends, is parsed into them: the file is the target without its query, and
-- index.html for an empty one, and what follows the carriage return stays in the content. A posted
-- line must not contain `GET`.
pub parse_uri-print_line :
    (r : Request) (m : Method) (name : List ℕ) (query : Option (List ℕ)) (v : Version)
    (rest : List ℕ)
    → IsKnown v
    → IsTarget name query
    → IsPlain m (print_line m name query v)
    → parse_uri
        (record r { content = print_line m name query v ++ (b'\r' ∷ rest); now_read_pos = 0 })
      ≡ (
        uri_success,
        record r {
          content = rest;
          method = m;
          file_name = file_of name query;
          http_version = v;
          state = parse_headers_state;
          now_read_pos = 0;
        },
      )
unfolding parse_uri request_line
parse_uri-print_line r m name query v rest known t plain =
    let line : List ℕ = print_line m name query v in
    rw
      (find_from_start b'\r' (line ++ (b'\r' ∷ rest)) (length line)
        (find-Without b'\r' line rest (Without-print_line m name query v t)))
      (rw (rest_of_content line rest b'\r', take-length-append line (b'\r' ∷ rest))
        (parse_method-printed m name query v (record r { content = rest; now_read_pos = 0 }) known
          t.no_mark
          (Without-append b' ' name (query_text query) t.name_part.1
            (Without-query query t.query_part).1)
          plain))
