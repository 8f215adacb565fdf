-- ===== src/Http/Analysis/Framing.antt =====
-- The answers tell the length of their body, and fit into the buffer.
use so_l.Common.{
  ℕ, ◌≤◌, ◌<◌, ◌≡◌, inl, inr, refl, ap, not, Bool-cases, List, [], ◌∷◌, ◌++◌, length, subst, arith,
  length-append, append_assoc,
}
use so_l.Common.Text.{codes}
use so_l.Http.{Request, Method, no_method, get, post}
use so_l.Http.Analysis.{
  Found, missing, unmapped, mapped, Env, get_header, send_unmapped, analysis_request, analysis_by,
  get_answer, send, status_lines, with_keep_alive, file_type, error_body, length_lines, post_text,
  is_all, keeps,
}

-- A header that ends with a length and a blank line.
abbrev pub IsFramed : (ℕ → List ℕ) → List ℕ → ℕ → Type 0
IsFramed print_number header size =
    (front : List ℕ) × (header
      ≡ front ++ (codes "Content-length: " ++ (print_number size ++ codes "\r\n\r\n")))
    × (length header < 4096)

-- What is written is a framed header, or one and its body.
abbrev pub AllFramed : (ℕ → List ℕ) → List (List ℕ) → Type 0
AllFramed print_number [] = ⊥
AllFramed print_number (header ∷ []) = (size : ℕ) × IsFramed print_number header size
AllFramed print_number (header ∷ body ∷ []) = IsFramed print_number header (length body)
AllFramed print_number (_ ∷ _ ∷ _ ∷ _) = ⊥

-- Nothing is written for a request with no method, and only for that.
abbrev pub IsAnswer : Method → (ℕ → List ℕ) → List (List ℕ) → Type 0
IsAnswer no_method print_number written = written ≡ []
IsAnswer post print_number written = AllFramed print_number written
IsAnswer get print_number written = AllFramed print_number written

-- Printed numbers have at most 20 characters.
abbrev pub IsShort : (ℕ → List ℕ) → Type 0
IsShort print_number = (n : ℕ) → length (print_number n) ≤ 20

send-AllFramed :
    (env : Env) (r : Request) (header body : List ℕ)
    → IsFramed env.print_number header (length body)
    → AllFramed env.print_number (send env r header body).written
unfolding send
send-AllFramed env r header body h = elim (Bool-cases (not (is_all env.first_sent header))) [
  | inl failed ↦ rw failed (length body, h)
  | inr sent ↦ rw sent h
]

status_lines_short : (r : Request) → length (status_lines r) ≤ 67
unfolding status_lines
status_lines_short r = elim (Bool-cases (keeps r)) [
  | inl kept ↦ rw kept (omega arith)
  | inr closed ↦ rw closed (omega arith)
]

-- A short front with the lines of the length is a framed header.
length_lines-IsFramed :
    (print_number : ℕ → List ℕ) (front : List ℕ) (size : ℕ)
    → IsShort print_number
    → length front ≤ 4000
    → IsFramed print_number (front ++ length_lines print_number size) size
length_lines-IsFramed print_number front size short h =
    let number : List ℕ = print_number size in
    (
      front,
      refl,
      omega (
        arith,
        length-append front (length_lines print_number size),
        length-append number (codes "\r\n\r\n"),
        short size,
      ),
    )

regroup : (a b c d e : List ℕ) → (a ++ (b ++ (c ++ d))) ++ e ≡ a ++ (b ++ (c ++ (d ++ e)))
regroup a b c d e = simp append_assoc

-- What is read for the type of the file fits into the header.
abbrev pub IsRoomy : (List ℕ → List ℕ) → Type 0
IsRoomy destroyed = (text : List ℕ) → length (destroyed text) ≤ 3900

get_header-IsFramed :
    (env : Env) (r : Request) (size : ℕ)
    → IsShort env.print_number
    → IsRoomy env.destroyed
    → IsFramed env.print_number (get_header env r size) size
unfolding get_header
get_header-IsFramed env r size short roomy =
    let type_text : List ℕ = env.destroyed (file_type r.file_name) in
    let kind : List ℕ = codes "Content-type: " ++ (type_text ++ codes "\r\n") in
    subst (λ h. IsFramed env.print_number h size)
      (regroup (status_lines r) (codes "Content-type: ") type_text (codes "\r\n")
        (length_lines env.print_number size))
      (length_lines-IsFramed env.print_number (status_lines r ++ kind) size short (
        omega (
          arith,
          length-append (status_lines r) kind,
          status_lines_short r,
          length-append type_text (codes "\r\n"),
          roomy (file_type r.file_name),
        )))

get_answer-AllFramed :
    (env : Env) (r : Request) (found : Found)
    → IsShort env.print_number
    → IsRoomy env.destroyed
    → AllFramed env.print_number (get_answer env r found).written
unfolding get_answer send_unmapped
get_answer-AllFramed env r missing short roomy =
    let last : List ℕ = codes " Not Found!\r\nContent-type: text/html\r\nConnection: close\r\n" in
    let front : List ℕ = codes "HTTP/1.1 " ++ (env.print_number 404 ++ last) in
    subst (λ h. IsFramed env.print_number h (length (error_body env)))
      (ap (◌++◌ (codes "HTTP/1.1 ")) (
        append_assoc (env.print_number 404) last
          (length_lines env.print_number (length (error_body env)))))
      (length_lines-IsFramed env.print_number front (length (error_body env)) short
        (omega (arith, length-append (env.print_number 404) last, short 404)))
get_answer-AllFramed env r (unmapped size) short roomy =
    (size, get_header-IsFramed env r size short roomy)
get_answer-AllFramed env r (mapped bytes) short roomy =
    send-AllFramed env r _ bytes (get_header-IsFramed env r (length bytes) short roomy)

-- If printed numbers have at most 20 characters, and what is read for the type of a file at most 3900: for
-- a POST or a GET, whatever is asked for, something is written, which is a header that ends with a length and
-- a blank line, and fits into the buffer of 4096 bytes, or such a header and a body of that length; for
-- a request with no method, nothing is.
pub analysis_request-IsAnswer :
    (env : Env) (r : Request)
    → IsShort env.print_number
    → IsRoomy env.destroyed
    → IsAnswer r.method env.print_number (analysis_request env r).written
unfolding analysis_request
analysis_request-IsAnswer env r short roomy = by_method r.method
  where
    by_method : (m : Method) → IsAnswer m env.print_number (analysis_by m env r).written
    by_method no_method = refl
    by_method post = send-AllFramed env (with_keep_alive r) _ post_text (
        length_lines-IsFramed env.print_number (status_lines r) (length post_text) short
          (omega (arith, status_lines_short r)))
    by_method get = get_answer-AllFramed env (with_keep_alive r) (env.file r.file_name) short roomy
