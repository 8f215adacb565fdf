-- ===== src/Http.antt =====
-- The HTTP server of Examples/Ver0.1: `requestData` of HttpData.h and HttpData.cpp, one request on a
-- connection. Texts are lists of bytes.
pub mod Uri
pub mod Headers
pub mod Analysis
pub mod Handler
pub mod Server
pub mod Retrying
use so_l.Common.{ℕ, Bool, false, Option, none, List, []}

-- `state`
pub data State : Type 0 where
  parse_uri_state parse_headers_state recv_body analysis finish : State

-- `method`, which the constructors leave as it is.
pub data Method : Type 0 where
  no_method post get : Method

-- `HTTPversion`, likewise.
pub data Version : Type 0 where
  no_version http_10 http_11 : Version

-- `HeadersState`
pub data HeadersState : Type 0 where
  h_start h_key h_colon h_spaces_after_colon h_value h_cr h_lf h_end_cr h_end_lf : HeadersState

-- `requestData`. `headers` is an association list, `timer` the number of a timer.
pub record Request : Type 0 where
  pub path : List ℕ
  pub fd : ℕ
  pub epollfd : ℕ
  pub content : List ℕ
  pub method : Method
  pub http_version : Version
  pub file_name : List ℕ
  pub now_read_pos : ℕ
  pub state : State
  pub h_state : HeadersState
  pub keep_alive : Bool
  pub headers : List (List ℕ × List ℕ)
  pub timer : Option ℕ

-- `requestData::requestData(int, int, std::string)`
unfoldable pub new_request : ℕ → ℕ → List ℕ → Request
new_request epollfd fd path = record {
  path = path;
  fd = fd;
  epollfd = epollfd;
  content = [];
  method = no_method;
  http_version = no_version;
  file_name = [];
  now_read_pos = 0;
  state = parse_uri_state;
  h_state = h_start;
  keep_alive = false;
  headers = [];
  timer = none;
}

-- `requestData::reset`
unfoldable pub reset : Request → Request
reset r = record r {
  content = [];
  file_name = [];
  path = [];
  now_read_pos = 0;
  state = parse_uri_state;
  h_state = h_start;
  headers = [];
  keep_alive = false;
}
