-- ===== src/Http/Analysis.antt =====
-- `MimeType`, `requestData::analysisRequest` and `requestData::handleError`: the answer to a request.
-- The file system, the printing of numbers and what `writen` returns are arguments. A text that
-- `sprintf` prints into a buffer from that same buffer is the old one with the new part behind it.
-- `filetype` points into a string that is destroyed before it is printed, so what is read there is an
-- argument too, any text that depends on the one that was there.
pub mod Framing
use so_l.Common.{
  ℕ, ◌+◌, Bool, true, false, not, ◌&&◌, ◌==◌, if◌then◌else◌, Option, none, some, List, [], ◌∷◌,
  ◌++◌, length, drop,
}
use so_l.Common.Text.{codes}
use so_l.Common.Search.{find, same_text}
use so_l.Http.{Request, Method, no_method, get, post}
use so_l.Http.Headers.{Headers, lookup}

-- What stat, and then open and mmap find: no file; one of a size that cannot be mapped; or its bytes.
pub data Found : Type 0 where
  missing : Found
  unmapped : ℕ → Found
  mapped : List ℕ → Found

-- What the process finds outside: the files, what is read where a text was, the printed form of a number,
-- and the answers of the two calls of `writen`, where nothing is -1.
pub record Env : Type 0 where
  pub file : List ℕ → Found
  pub destroyed : List ℕ → List ℕ
  pub print_number : ℕ → List ℕ
  pub first_sent : Option ℕ
  pub second_sent : Option ℕ

-- `MimeType::init`
abbrev pub mime : Headers
mime =
    (codes ".html", codes "text/html")
    ∷ (codes ".avi", codes "video/x-msvideo")
    ∷ (codes ".bmp", codes "image/bmp")
    ∷ (codes ".c", codes "text/plain")
    ∷ (codes ".doc", codes "application/msword")
    ∷ (codes ".gif", codes "image/gif")
    ∷ (codes ".gz", codes "application/x-gzip")
    ∷ (codes ".htm", codes "text/html")
    ∷ (codes ".ico", codes "application/x-ico")
    ∷ (codes ".jpg", codes "image/jpeg")
    ∷ (codes ".png", codes "image/png")
    ∷ (codes ".txt", codes "text/plain")
    ∷ (codes ".mp3", codes "audio/mp3")
    ∷ (codes "default", codes "text/html")
    ∷ []

found_or_default : Option (List ℕ) → List ℕ
found_or_default none = codes "text/html"
found_or_default (some m) = m

-- `MimeType::getMime`, once the table is filled in.
unfoldable pub get_mime : List ℕ → List ℕ
unfolding lookup found_or_default
get_mime suffix = found_or_default (lookup suffix mime)

file_type_at : Option ℕ → List ℕ → List ℕ
unfolding get_mime
file_type_at none name = get_mime (codes "default")
file_type_at (some dot) name = get_mime (drop dot name)

-- The text that `filetype` points into.
file_type : List ℕ → List ℕ
unfolding file_type_at find
file_type name = file_type_at (find b'.' name) name

is_keep_alive : Option (List ℕ) → Bool
is_keep_alive none = false
is_keep_alive (some v) = same_text v (codes "keep-alive")

keeps : Request → Bool
unfolding is_keep_alive
keeps r = is_keep_alive (lookup (codes "Connection") r.headers)

-- The first lines of an answer.
status_lines : Request → List ℕ
unfolding keeps
status_lines r =
    codes "HTTP/1.1 200 OK\r\n"
    ++ (if keeps r then codes "Connection: keep-alive\r\nKeep-Alive: timeout=500\r\n" else [])

with_keep_alive : Request → Request
unfolding keeps
with_keep_alive r = if keeps r then record r { keep_alive = true } else r

abbrev length_lines : (ℕ → List ℕ) → ℕ → List ℕ
length_lines print_number n = codes "Content-length: " ++ (print_number n ++ codes "\r\n\r\n")

-- Whether `ANALYSIS_SUCCESS` is returned, the request, and the texts given to `writen`.
pub record Answer : Type 0 where
  pub success : Bool
  pub request : Request
  pub written : List (List ℕ)

is_all : Option ℕ → List ℕ → Bool
is_all none text = false
is_all (some n) text = n == length text

-- The two calls of `writen`.
send : Env → Request → List ℕ → List ℕ → Answer
unfolding is_all
send env r header body =
    if not (is_all env.first_sent header)
    then record { success = false; request = r; written = header ∷ [] }
    else record { success = is_all env.second_sent body; request = r; written = header ∷ body ∷ [] }

abbrev post_text : List ℕ
post_text = codes "I have receiced this."

-- The headers and the body of `handleError(fd, 404, "Not Found!")`.
abbrev error_body : Env → List ℕ
error_body env =
    codes "<html><title>TKeed Error</title>"
    ++ (codes "<body bgcolor=\"ffffff\">"
        ++ (env.print_number 404
            ++ (codes " Not Found!" ++ codes "<hr><em> Roland's Web Server</em>\n</body></html>")))

abbrev error_header : Env → List ℕ
error_header env =
    codes "HTTP/1.1 "
    ++ (env.print_number 404
        ++ (codes " Not Found!\r\nContent-type: text/html\r\nConnection: close\r\n"
            ++ length_lines env.print_number (length (error_body env))))

get_header : Env → Request → ℕ → List ℕ
unfolding status_lines file_type
get_header env r size =
    status_lines r
    ++ (codes "Content-type: "
        ++ (env.destroyed (file_type r.file_name)
            ++ (codes "\r\n" ++ length_lines env.print_number size)))

-- `writen` from the address that mmap fails with is -1, but for no bytes.
send_unmapped : Env → Request → List ℕ → ℕ → Answer
unfolding is_all
send_unmapped env r header size = record {
  success = is_all env.first_sent header && size == 0;
  request = r;
  written = header ∷ [];
}

get_answer : Env → Request → Found → Answer
unfolding send send_unmapped get_header
get_answer env r missing = record {
  success = false;
  request = r;
  written = error_header env ∷ error_body env ∷ [];
}
get_answer env r (unmapped size) = send_unmapped env r (get_header env r size) size
get_answer env r (mapped bytes) = send env r (get_header env r (length bytes)) bytes

analysis_by : Method → Env → Request → Answer
unfolding get_answer send status_lines with_keep_alive
analysis_by post env r =
    send env (with_keep_alive r)
      (status_lines r ++ length_lines env.print_number (length post_text)) post_text
analysis_by get env r = get_answer env (with_keep_alive r) (env.file r.file_name)
analysis_by no_method env r = record { success = false; request = r; written = [] }

unfoldable pub analysis_request : Env → Request → Answer
unfolding analysis_by
analysis_request env r = analysis_by r.method env r
