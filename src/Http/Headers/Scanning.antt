-- ===== src/Http/Headers/Scanning.antt =====
-- The machine on one header line.
use so_l.Common.{
  ℕ, suc, ◌+◌, ◌-◌, ◌≤◌, ◌≡◌, refl, sym, ap, ◌∙◌, true, false, ltb, leb, Option, some, List, [],
  ◌∷◌, ◌++◌, length, arith, length-append, append_assoc,
}
use so_l.Common.Text.{codes}
use so_l.Common.Search.{substr, Without, substr-append}
use so_l.Http.{
  HeadersState, h_start, h_key, h_colon, h_spaces_after_colon, h_value, h_cr, h_lf, h_end_cr,
  h_end_lf,
}
use so_l.Http.Headers.{Headers, insert, Scan, step_in, scan}

abbrev pub at_state : HeadersState → Option ℕ → Option ℕ → Option ℕ → Option ℕ → ℕ → Headers → Scan
at_state h ks ke vs ve begin hs = record {
  h_state = h;
  key_start = ks;
  key_end = ke;
  value_start = vs;
  value_end = ve;
  now_read_line_begin = begin;
  not_finish = true;
  headers = hs;
}

-- The scan at the bytes of a key behind its first one.
pub scan-key :
    (str key rest : List ℕ) (i : ℕ) (ks ke vs ve : Option ℕ) (begin : ℕ) (hs : Headers)
    → Without b':' key
    → Without b'\n' key
    → Without b'\r' key
    → scan str i (key ++ rest) (at_state h_key ks ke vs ve begin hs)
      ≡ scan str (i + length key) rest (at_state h_key ks ke vs ve begin hs)
unfolding scan step_in
scan-key str [] rest i ks ke vs ve begin hs colon lf cr =
    let e : (i + 0 ≡ i) = omega arith in rw e refl
scan-key str (c ∷ key) rest i ks ke vs ve begin hs (h, colon) (j, lf) (k, cr) =
    let e : (i + suc (length key) ≡ i + 1 + length key) = omega arith in
    rw (h, j, k, e) (scan-key str key rest (i + 1) ks ke vs ve begin hs colon lf cr)

-- The scan at the bytes of a value behind its first one, which has at most 256.
pub scan-value :
    (str value rest : List ℕ) (i : ℕ) (ks ke : Option ℕ) (start : ℕ) (ve : Option ℕ) (begin : ℕ)
    (hs : Headers)
    → Without b'\r' value
    → i + length value ≤ start + 256
    → scan str i (value ++ rest) (at_state h_value ks ke (some start) ve begin hs)
      ≡ scan str (i + length value) rest (at_state h_value ks ke (some start) ve begin hs)
unfolding scan step_in
scan-value str [] rest i ks ke start ve begin hs cr short =
    let e : (i + 0 ≡ i) = omega arith in rw e refl
scan-value str (c ∷ value) rest i ks ke start ve begin hs (k, cr) short =
    let e : (i + suc (length value) ≡ i + 1 + length value) = omega arith in
    let fits : (ltb 255 (i - start) ≡ false) = ground arith in
    rw (k, fits, e) (scan-value str value rest (i + 1) ks ke start ve begin hs cr (omega arith))

key_text :
    (pre key behind : List ℕ) (colon : ℕ)
    → colon ≡ length pre + length key
    → substr (length pre) (colon - length pre) (pre ++ (key ++ behind)) ≡ key
key_text pre key behind colon e =
    let size : (colon - length pre ≡ length key) = omega arith in
    rw size (substr-append pre key behind)

value_text :
    (pre key value rest : List ℕ) (start end : ℕ)
    → start ≡ length pre + length key + 2
    → end ≡ start + length value
    → substr start (end - start) (pre ++ (key ++ (b':' ∷ b' ' ∷ (value ++ rest)))) ≡ value
value_text pre key value rest start end e f =
    let front : List ℕ = pre ++ (key ++ codes ": ") in
    let size : (end - start ≡ length value) = omega arith in
    let place : (start ≡ length front) =
      omega (arith, length-append pre (key ++ codes ": "), length-append key (codes ": ")) in
    let whole : (pre ++ (key ++ (b':' ∷ b' ' ∷ (value ++ rest))) ≡ front ++ (value ++ rest)) =
      ap (◌++◌ pre) (sym (append_assoc key (codes ": ") (value ++ rest)))
      ∙ sym (append_assoc pre (key ++ codes ": ") (value ++ rest)) in
    rw (size, whole, place) (substr-append front value rest)

-- A header line behind the first byte of its key, up to its line feed.
scan-line_rest :
    (pre key value rest : List ℕ) (c d : ℕ) (ke vs ve : Option ℕ) (begin : ℕ) (hs : Headers)
    → Without b':' key
    → Without b'\n' key
    → Without b'\r' key
    → Without b'\r' value
    → length value ≤ 255
    → let str = pre ++ ((c ∷ key) ++ (b':' ∷ b' ' ∷ ((d ∷ value) ++ (b'\r' ∷ b'\n' ∷ rest)))) in
      let i = length pre in
      let colon = i + 1 + length key in
      let start = colon + 1 + 1 in
      let end = start + 1 + length value in
      scan str
        (i + 1)
        (key ++ (b':' ∷ b' ' ∷ d ∷ (value ++ (b'\r' ∷ b'\n' ∷ rest))))
        (at_state h_key (some i) ke vs ve begin hs)
      ≡ scan str (end + 1 + 1) rest (
          at_state h_lf
            (some i)
            (some colon)
            (some start)
            (some end)
            (end + 1)
            (insert (c ∷ key) (d ∷ value) hs))
unfolding scan step_in
scan-line_rest pre key value rest c d ke vs ve begin hs no_colon no_lf no_cr no_cr_value short =
    let behind : List ℕ = b':' ∷ b' ' ∷ ((d ∷ value) ++ (b'\r' ∷ b'\n' ∷ rest)) in
    let str : List ℕ = pre ++ ((c ∷ key) ++ behind) in
    let i : ℕ = length pre in
    let colon : ℕ = i + 1 + length key in
    let start : ℕ = colon + 1 + 1 in
    let end : ℕ = start + 1 + length value in
    let key_size : (leb (colon - i) 0 ≡ false) = ground arith in
    let value_size : (leb (end - start) 0 ≡ false) = ground arith in
    scan-key str key behind (i + 1) (some i) ke vs ve begin hs no_colon no_lf no_cr
    ∙ rw key_size (
        scan-value str value (b'\r' ∷ b'\n' ∷ rest) (start + 1) (some i) (some colon) start ve begin
          hs no_cr_value (omega arith)
        ∙ rw
            (
              value_size,
              key_text pre (c ∷ key) behind colon (omega arith),
              value_text pre (c ∷ key) (d ∷ value) (b'\r' ∷ b'\n' ∷ rest) start end (omega arith)
                  (omega arith),
            )
            refl)

-- A header line: a key that is not empty and has no colon and no line break, and a value of 1 to 256
-- bytes with no carriage return behind the first.
pub record Line : Type 0 where
  pub key_first : ℕ
  pub key_rest : List ℕ
  pub value_first : ℕ
  pub value_rest : List ℕ

abbrev pub key_of : Line → List ℕ
key_of l = l.key_first ∷ l.key_rest

abbrev pub value_of : Line → List ℕ
value_of l = l.value_first ∷ l.value_rest

pub record IsLine (l : Line) : Type 0 where
  pub key_colon : Without b':' (key_of l)
  pub key_lf : Without b'\n' (key_of l)
  pub key_cr : Without b'\r' (key_of l)
  pub value_cr : Without b'\r' l.value_rest
  pub value_short : length l.value_rest ≤ 255

-- The line in front of a text.
abbrev pub print_header : Line → List ℕ → List ℕ
print_header l rest = key_of l ++ (b':' ∷ b' ' ∷ (value_of l ++ (b'\r' ∷ b'\n' ∷ rest)))

abbrev pub print_headers : List Line → List ℕ → List ℕ
print_headers [] rest = rest
print_headers (l ∷ ls) rest = print_header l (print_headers ls rest)

-- The machine before the first line and between two of them.
abbrev pub IsBetween : HeadersState → Type 0
IsBetween h_start = Unit
IsBetween h_lf = Unit
IsBetween _ = ⊥

-- The place of the colon, and of the line feed, of a line at `i`.
abbrev pub colon_at : ℕ → Line → ℕ
colon_at i l = i + 1 + length l.key_rest

abbrev pub feed_at : ℕ → Line → ℕ
feed_at i l = colon_at i l + 1 + 1 + 1 + length l.value_rest + 1

abbrev pub after_line : ℕ → Line → Headers → Scan
after_line i l hs =
    at_state h_lf (some i) (some (colon_at i l)) (some (colon_at i l + 1 + 1))
      (some (colon_at i l + 1 + 1 + 1 + length l.value_rest)) (feed_at i l)
      (insert (key_of l) (value_of l) hs)

-- Between two lines the scan reads a whole line, and records it.
pub scan-line :
    (h : HeadersState) (pre rest : List ℕ) (l : Line) (ks ke vs ve : Option ℕ) (begin : ℕ)
    (hs : Headers)
    → IsBetween h
    → IsLine l
    → scan
        (pre ++ print_header l rest)
        (length pre)
        (print_header l rest)
        (at_state h ks ke vs ve begin hs)
      ≡ scan
          (pre ++ print_header l rest)
          (feed_at (length pre) l + 1)
          rest
          (after_line (length pre) l hs)
unfolding scan step_in
scan-line h_start pre rest l ks ke vs ve begin hs b v =
    rw (v.key_lf.0, v.key_cr.0)
      (scan-line_rest pre l.key_rest l.value_rest rest l.key_first l.value_first ke vs ve
        (length pre) hs v.key_colon.1 v.key_lf.1 v.key_cr.1 v.value_cr v.value_short)
scan-line h_lf pre rest l ks ke vs ve begin hs b v = rw (v.key_cr.0) (
    scan-line_rest pre l.key_rest l.value_rest rest l.key_first l.value_first ke vs ve begin hs
      v.key_colon.1 v.key_lf.1 v.key_cr.1 v.value_cr v.value_short)
scan-line h_key pre rest l ks ke vs ve begin hs b v = absurd b
scan-line h_colon pre rest l ks ke vs ve begin hs b v = absurd b
scan-line h_spaces_after_colon pre rest l ks ke vs ve begin hs b v = absurd b
scan-line h_value pre rest l ks ke vs ve begin hs b v = absurd b
scan-line h_cr pre rest l ks ke vs ve begin hs b v = absurd b
scan-line h_end_cr pre rest l ks ke vs ve begin hs b v = absurd b
scan-line h_end_lf pre rest l ks ke vs ve begin hs b v = absurd b

pub print_header-append :
    (l : Line) (rest : List ℕ) → print_header l rest ≡ print_header l [] ++ rest
print_header-append l rest = simp append_assoc

pub length-print_header : (i : ℕ) (l : Line) → feed_at i l + 1 ≡ i + length (print_header l [])
length-print_header i l =
    let behind : List ℕ = b':' ∷ b' ' ∷ (value_of l ++ (b'\r' ∷ b'\n' ∷ [])) in
    omega (arith, length-append l.key_rest behind, length-append l.value_rest (b'\r' ∷ b'\n' ∷ []))
