-- ===== src/Http/Headers/Block.antt =====
-- The machine on a block of header lines, with the line break of the request line before it, and a
-- blank line and the body behind it.
use so_l.Common.{
  ℕ, zero, suc, ◌+◌, ◌≡◌, refl, sym, ap, ◌∙◌, Bool, true, false, Option, none, some, List, [], ◌∷◌,
  ◌++◌, length, drop, arith, length-append, append_assoc, drop-length-append, if◌then◌else◌,
}
use so_l.Common.Text.{codes}
use so_l.Http.{Request, HeadersState, h_start, h_lf, h_end_lf}
use so_l.Http.Headers.{
  Headers, insert, Scan, ok, step_in, scan, headers_again, headers_success, is_end_lf, answer,
  parse_headers,
}
use so_l.Http.Headers.Scanning.{
  Line, IsLine, key_of, value_of, print_header, print_headers, at_state, IsBetween, colon_at,
  feed_at, after_line, scan-line, print_header-append, length-print_header,
}

abbrev pub is_empty : List ℕ → Bool
is_empty [] = true
is_empty (c ∷ cs) = false

abbrev pub insert_all : List Line → Headers → Headers
insert_all [] hs = hs
insert_all (l ∷ ls) hs = insert_all ls (insert (key_of l) (value_of l) hs)

abbrev pub AllLines : List Line → Type 0
AllLines [] = Unit
AllLines (l ∷ ls) = IsLine l × AllLines ls

-- The place of the last line feed of a line and of those behind it.
abbrev last_feed : ℕ → Line → List Line → ℕ
last_feed i l [] = feed_at i l
last_feed i l (m ∷ ls) = last_feed (feed_at i l + 1) m ls

abbrev after_lines : ℕ → Line → List Line → Headers → Scan
after_lines i l [] hs = after_line i l hs
after_lines i l (m ∷ ls) hs = after_lines (feed_at i l + 1) m ls (insert (key_of l) (value_of l) hs)

after_lines-eq :
    (i : ℕ) (l : Line) (ls : List Line) (hs : Headers)
    → (ks ke vs ve : Option ℕ) × (after_lines i l ls hs
        ≡ at_state h_lf ks ke vs ve (last_feed i l ls) (insert_all (l ∷ ls) hs))
after_lines-eq i l [] hs = (_, _, _, _, refl)
after_lines-eq i l (m ∷ ls) hs =
    after_lines-eq (feed_at i l + 1) m ls (insert (key_of l) (value_of l) hs)

length-print_headers :
    (i : ℕ) (l : Line) (ls : List Line) (rest : List ℕ)
    → last_feed i l ls + 1 + length rest ≡ i + length (print_headers (l ∷ ls) rest)
length-print_headers i l [] rest = omega (
  arith,
  length-print_header i l,
  ap (length {0}) (print_header-append l rest),
  length-append (print_header l []) rest,
)
length-print_headers i l (m ∷ ls) rest =
    let behind : List ℕ = print_headers (m ∷ ls) rest in
    omega (
      arith,
      length-print_headers (feed_at i l + 1) m ls rest,
      length-print_header i l,
      ap (length {0}) (print_header-append l behind),
      length-append (print_header l []) behind,
    )

-- The scan of one line of a longer text.
scan-line_at :
    (h : HeadersState) (str pre rest : List ℕ) (i : ℕ) (l : Line) (ks ke vs ve : Option ℕ)
    (begin : ℕ) (hs : Headers)
    → IsBetween h
    → IsLine l
    → str ≡ pre ++ print_header l rest
    → i ≡ length pre
    → scan str i (print_header l rest) (at_state h ks ke vs ve begin hs)
      ≡ scan str (feed_at i l + 1) rest (after_line i l hs)
scan-line_at h str pre rest i l ks ke vs ve begin hs b v e f =
    rw (e, f) (scan-line h pre rest l ks ke vs ve begin hs b v)

scan-lines :
    (h : HeadersState) (str pre rest : List ℕ) (i : ℕ) (l : Line) (ls : List Line)
    (ks ke vs ve : Option ℕ) (begin : ℕ) (hs : Headers)
    → IsBetween h
    → AllLines (l ∷ ls)
    → str ≡ pre ++ print_headers (l ∷ ls) rest
    → i ≡ length pre
    → scan str i (print_headers (l ∷ ls) rest) (at_state h ks ke vs ve begin hs)
      ≡ scan str (last_feed i l ls + 1) rest (after_lines i l ls hs)
scan-lines h str pre rest i l [] ks ke vs ve begin hs b (v, all) e f =
    scan-line_at h str pre rest i l ks ke vs ve begin hs b v e f
scan-lines h str pre rest i l (m ∷ ls) ks ke vs ve begin hs b (v, all) e f =
    let behind : List ℕ = print_headers (m ∷ ls) rest in
    let front : List ℕ = pre ++ print_header l [] in
    let whole : (pre ++ print_header l behind ≡ front ++ behind) =
      ap (◌++◌ pre) (print_header-append l behind)
      ∙ sym (append_assoc pre (print_header l []) behind) in
    let place : (feed_at i l + 1 ≡ length front) =
      omega (arith, length-print_header i l, length-append pre (print_header l []), f) in
    scan-line_at h str pre behind i l ks ke vs ve begin hs b v e f
    ∙ scan-lines h_lf str front rest (feed_at i l + 1) m ls (some i) (some (colon_at i l))
        (some (colon_at i l + 1 + 1)) (some (colon_at i l + 1 + 1 + 1 + length l.value_rest))
        (feed_at i l) (insert (key_of l) (value_of l) hs) tt all (e ∙ whole) place

-- The blank line, and one byte of the body, if there is one.
scan-blank :
    (str body : List ℕ) (i : ℕ) (ks ke vs ve : Option ℕ) (begin : ℕ) (hs : Headers)
    → (t : Scan) × (scan str i (b'\r' ∷ b'\n' ∷ body) (at_state h_lf ks ke vs ve begin hs) ≡ ok t)
      × (t.h_state ≡ h_end_lf)
      × (t.headers ≡ hs)
      × (t.now_read_line_begin ≡ (if is_empty body then begin else i + 1 + 1))
unfolding scan step_in
scan-blank str [] i ks ke vs ve begin hs = (_, refl, refl, refl, refl)
scan-blank str (c ∷ []) i ks ke vs ve begin hs = (_, refl, refl, refl, refl)
scan-blank str (c ∷ d ∷ body) i ks ke vs ve begin hs = (_, refl, refl, refl, refl)

drop-add : (n k : ℕ) (xs : List ℕ) → drop (n + k) xs ≡ drop k (drop n xs)
drop-add zero k xs = let e : (0 + k ≡ k) = omega arith in rw e refl
drop-add (suc n) zero [] = let e : (suc n + 0 ≡ suc n) = omega arith in rw e refl
drop-add (suc n) (suc k) [] = let e : (suc n + suc k ≡ suc (n + suc k)) = omega arith in rw e refl
drop-add (suc n) k (x ∷ xs) =
    let e : (suc n + k ≡ suc (n + k)) = omega arith in rw e (drop-add n k xs)

drop-feed_at :
    (pre rest : List ℕ) (l : Line)
    → drop (feed_at (length pre) l) (pre ++ print_header l rest) ≡ b'\n' ∷ rest
drop-feed_at pre rest l =
    let front : List ℕ = key_of l ++ (b':' ∷ b' ' ∷ (value_of l ++ (b'\r' ∷ []))) in
    let split : (print_header l rest ≡ front ++ (b'\n' ∷ rest)) = simp append_assoc in
    let size : (feed_at (length pre) l ≡ length (pre ++ front)) = omega (
      arith,
      length-append pre front,
      length-append l.key_rest (b':' ∷ b' ' ∷ (value_of l ++ (b'\r' ∷ []))),
      length-append l.value_rest (b'\r' ∷ []),
    ) in
    ap (drop (feed_at (length pre) l))
      (ap (◌++◌ pre) split ∙ sym (append_assoc pre front (b'\n' ∷ rest)))
    ∙ rw size (drop-length-append (pre ++ front) (b'\n' ∷ rest))

-- What lies behind the last carriage return of a block.
drop-last_feed :
    (str pre rest : List ℕ) (i : ℕ) (l : Line) (ls : List Line)
    → str ≡ pre ++ print_headers (l ∷ ls) rest
    → i ≡ length pre
    → drop (last_feed i l ls) str ≡ b'\n' ∷ rest
drop-last_feed str pre rest i l [] e f = rw (e, f) (drop-feed_at pre rest l)
drop-last_feed str pre rest i l (m ∷ ls) e f =
    let behind : List ℕ = print_headers (m ∷ ls) rest in
    let front : List ℕ = pre ++ print_header l [] in
    drop-last_feed str front rest (feed_at i l + 1) m ls
      (e
        ∙ ap (◌++◌ pre) (print_header-append l behind)
        ∙ sym (append_assoc pre (print_header l []) behind))
      (omega (arith, length-print_header i l, length-append pre (print_header l []), f))

answer-eq :
    (r : Request) (t : Scan) (headers : Headers) (begin : ℕ)
    → t.h_state ≡ h_end_lf
    → t.headers ≡ headers
    → t.now_read_line_begin ≡ begin
    → answer r (ok t)
      ≡ headers_success
          (record r { h_state = h_end_lf; headers = headers; content = drop begin r.content })
unfolding answer
answer-eq r t headers begin e f g = λ i.
    let q : Request = record r { h_state = e i; headers = f i; content = drop (g i) r.content } in
    if is_end_lf (e i) then headers_success q else headers_again q

-- What stays in the content behind a block.
abbrev pub left_over : List ℕ → List ℕ
left_over body = if is_empty body then codes "\n\r\n" else body

left_over-eq :
    (feed : ℕ) (text body : List ℕ)
    → drop feed text ≡ b'\n' ∷ b'\r' ∷ b'\n' ∷ body
    → drop (if is_empty body then feed else feed + 1 + 1 + 1) text ≡ left_over body
left_over-eq feed text [] h = h
left_over-eq feed text (c ∷ cs) h =
    let e : (feed + 1 + 1 + 1 ≡ feed + 3) = omega arith in
    rw e (drop-add feed 3 text ∙ ap (drop 3) h)

-- A block of header lines, at least one, that the line feed of the request line precedes and a blank
-- line ends, is read whole, and each value is stored under its key, a later one in place of an earlier
-- one. If bytes of the body follow, they are left in the content; if none do yet, the last three bytes
-- of the block are left there.
pub parse_headers-print_headers :
    (r : Request) (l : Line) (ls : List Line) (body : List ℕ)
    → AllLines (l ∷ ls)
    → let text = b'\n' ∷ print_headers (l ∷ ls) (b'\r' ∷ b'\n' ∷ body) in
      parse_headers (record r { content = text; h_state = h_start })
      ≡ headers_success (record r {
        content = left_over body;
        h_state = h_end_lf;
        headers = insert_all (l ∷ ls) r.headers;
      })
unfolding parse_headers scan step_in
parse_headers-print_headers r l ls body all =
    let text : List ℕ = b'\n' ∷ print_headers (l ∷ ls) (b'\r' ∷ b'\n' ∷ body) in
    let q : Request = record r { content = text; h_state = h_start } in
    let lines =
      scan-lines h_start text (b'\n' ∷ []) (b'\r' ∷ b'\n' ∷ body) 1 l ls none none none none 0
        r.headers tt all refl refl in
    let (ks, ke, vs, ve, e) = after_lines-eq 1 l ls r.headers in
    let (t, u, state, headers, begin) =
      scan-blank text body (last_feed 1 l ls + 1) ks ke vs ve (last_feed 1 l ls)
        (insert_all (l ∷ ls) r.headers) in
    let feed : ℕ = last_feed 1 l ls in
    let content : (drop (if is_empty body then feed else feed + 1 + 1 + 1) text ≡ left_over body) =
      left_over-eq feed text body
        (drop-last_feed text (b'\n' ∷ []) (b'\r' ∷ b'\n' ∷ body) 1 l ls refl refl) in
    ap (answer q) (lines ∙ ap (scan text (feed + 1) (b'\r' ∷ b'\n' ∷ body)) e ∙ u)
    ∙ answer-eq q t (insert_all (l ∷ ls) r.headers)
        (if is_empty body then feed else feed + 1 + 1 + 1) state headers begin
    ∙ ap
        (λ c.
          headers_success
            (record r { content = c; h_state = h_end_lf; headers = insert_all (l ∷ ls) r.headers }))
        content
