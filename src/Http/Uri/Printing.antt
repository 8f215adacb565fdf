-- ===== src/Http/Uri/Printing.antt =====
-- How a request line is printed, and that its target and its version are found again.
use so_l.Common.{
  ℕ, ◌+◌, ◌-◌, ◌≡◌, refl, sym, ◌∙◌, true, Option, none, some, List, [], ◌∷◌, ◌++◌, ltb, leb, length,
  arith, length-append, append_assoc, append-nil, take_all, false, ◌==◌, ◌≤◌, suc,
}
use so_l.Common.Text.{codes}
use so_l.Common.Search.{
  find, find_from, same_text, Without, find-Without, find-none, find_from-append, Without-append,
  take-length-append, drop-length-add,
}
use so_l.Http.{Request, parse_headers_state, Method, post, Version, no_version, http_10, http_11}
use so_l.Http.Uri.{uri_success, version_of, version_at, before_query, target, target_end}

abbrev pub version_text : Version → List ℕ
version_text http_10 = codes "1.0"
version_text _ = codes "1.1"

-- ` HTTP/1.x`
abbrev pub version_part : Version → List ℕ
version_part v = codes " HTTP/" ++ version_text v

abbrev pub method_text : Method → List ℕ
method_text post = codes "POST "
method_text _ = codes "GET "

-- A query, with its question mark.
abbrev pub query_text : Option (List ℕ) → List ℕ
query_text none = []
query_text (some q) = b'?' ∷ q

abbrev pub print_line : Method → List ℕ → Option (List ℕ) → Version → List ℕ
print_line m name query v = method_text m ++ (b'/' ∷ ((name ++ query_text query) ++ version_part v))

-- The file that a target names.
abbrev pub file_of : List ℕ → Option (List ℕ) → List ℕ
file_of [] none = codes "index.html"
file_of name query = name

abbrev IsPart : List ℕ → Type 0
IsPart xs = Without b'\r' xs × Without b' ' xs

abbrev pub IsQuery : Option (List ℕ) → Type 0
IsQuery none = Unit
IsQuery (some q) = IsPart q

-- A text that can stand in the request line as its target.
pub record IsTarget (name : List ℕ) (query : Option (List ℕ)) : Type 0 where
  pub name_part : IsPart name
  pub no_mark : Without b'?' name
  pub query_part : IsQuery query

abbrev pub IsKnown : Version → Type 0
IsKnown no_version = ⊥
IsKnown http_10 = Unit
IsKnown http_11 = Unit

version_of-printed :
    (v : Version) (r : Request)
    → IsKnown v
    → version_of (version_text v) r
      ≡ (uri_success, record r { http_version = v; state = parse_headers_state })
unfolding version_of same_text
version_of-printed no_version r h = absurd h
version_of-printed http_10 r h = refl
version_of-printed http_11 r h = refl

version_at-printed :
    (front : List ℕ) (v : Version) (r : Request)
    → IsKnown v
    → version_at
        (find_from b'/' (front ++ version_part v) (length front))
        (front ++ version_part v)
        r
      ≡ (uri_success, record r { http_version = v; state = parse_headers_state })
unfolding version_at find
version_at-printed front v r h =
    let line : List ℕ = front ++ version_part v in
    let size : (length (version_text v) ≡ 3) = version_length v in
    let long : (leb (length line - (length front + 5)) 3 ≡ false) =
      ground (arith, length-append front (version_part v), size) in
    let place : (length front + 5 + 1 ≡ length front + 6) = omega arith in
    rw (find_from-append b'/' front (version_part v) 5 refl) (
      rw long (
        rw place (
          rw (drop-length-add front (version_part v) 6)
            (rw (take_all 3 (version_text v) (omega (arith, size))) (version_of-printed v r h)))))
  where
    version_length : (v : Version) → length (version_text v) ≡ 3
    version_length no_version = refl
    version_length http_10 = refl
    version_length http_11 = refl

before_query-printed :
    (name : List ℕ) (query : Option (List ℕ))
    → Without b'?' name
    → before_query (name ++ query_text query) ≡ name
unfolding before_query
before_query-printed name none h = rw (append-nil name) (rw (find-none b'?' name h) refl)
before_query-printed name (some q) h =
    rw (find-Without b'?' name q h) (take-length-append name (b'?' ∷ q))

target-long :
    (front mid rest : List ℕ)
    → 1 ≤ length mid
    → target (length front) (length front + suc (length mid)) (front ++ (b'/' ∷ (mid ++ rest)))
      ≡ before_query mid
unfolding target
target-long front mid rest h =
    let long : (ltb 1 (length front + suc (length mid) - length front) ≡ true) = ground arith in
    let size : (length front + suc (length mid) - length front - 1 ≡ length mid) = omega arith in
    rw (long, size, drop-length-add front (b'/' ∷ (mid ++ rest)) 1, take-length-append mid rest)
      refl

target-printed :
    (front name : List ℕ) (query : Option (List ℕ)) (rest : List ℕ)
    → Without b'?' name
    → let mid = name ++ query_text query in
      target (length front) (length front + suc (length mid)) (front ++ (b'/' ∷ (mid ++ rest)))
      ≡ file_of name query
unfolding target
target-printed front [] none rest h =
    let short : (ltb 1 (length front + 1 - length front) ≡ false) = ground arith in rw short refl
target-printed front [] (some q) rest h =
    target-long front (b'?' ∷ q) rest (omega arith) ∙ before_query-printed [] (some q) h
target-printed front (c ∷ cs) query rest h =
    target-long front ((c ∷ cs) ++ query_text query) rest (omega arith)
    ∙ before_query-printed (c ∷ cs) query h

Without-mid :
    (c : ℕ) (name : List ℕ) (query : Option (List ℕ))
    → (b'?' == c) ≡ false
    → Without c name
    → Without c (query_text query)
    → Without c (name ++ query_text query)
Without-mid c name query e h k = Without-append c name (query_text query) h k

pub target_end-printed :
    (front name : List ℕ) (query : Option (List ℕ)) (v : Version) (r : Request)
    → IsKnown v
    → Without b'?' name
    → Without b' ' (name ++ query_text query)
    → let line = front ++ (b'/' ∷ ((name ++ query_text query) ++ version_part v)) in
      target_end (length front) (find_from b' ' line (length front)) line r ≡ (
        uri_success,
        record r { file_name = file_of name query; http_version = v; state = parse_headers_state },
      )
unfolding target_end
target_end-printed front name query v r known mark space =
    let mid : List ℕ = name ++ query_text query in
    let tail : List ℕ = codes "HTTP/" ++ version_text v in
    let line : List ℕ = front ++ (b'/' ∷ (mid ++ version_part v)) in
    let again : (line ≡ (front ++ (b'/' ∷ mid)) ++ version_part v) =
      sym (append_assoc front (b'/' ∷ mid) (version_part v)) in
    let end : (length front + suc (length mid) ≡ length (front ++ (b'/' ∷ mid))) =
      omega (arith, length-append front (b'/' ∷ mid)) in
    rw
      (find_from-append b' ' front (b'/' ∷ (mid ++ version_part v)) (suc (length mid))
        (find-Without b' ' (b'/' ∷ mid) tail (refl, space)))
      (rw (target-printed front name query (version_part v) mark) (
        rw (end, again)
          (version_at-printed (front ++ (b'/' ∷ mid)) v
            (record r { file_name = file_of name query }) known)))
