-- ===== src/Transport/Message.antt =====
-- What internal/transport reads of an HTTP request, and what it writes as a response (net/http).
use raftra.Common.{ℕ, String, Bool, List, [], ◌∷◌, string_eq, nat_eq}
use raftra.Storage.{Error}

-- The bytes of the body, or a body whose reading fails.
pub data Body : Type 0 where
  content : String → Body
  unreadable : Body

pub record Request : Type 0 where
  pub method : String
  pub path : String  -- URL.Path
  pub escaped_path : String  -- URL.EscapedPath()
  pub raw_query : String
  pub forwarded_for : List String  -- the lines of X-Forwarded-For
  pub remote_addr : String
  pub body : Body

-- The values of the JSON objects; `error_text` is err.Error(), and `max_bytes`, `max_keys` are the
-- texts of Sprintf with a limit.
pub data Value : Type 0 where
  literal : String → Value
  flag : Bool → Value
  number : ℕ → Value
  error_text : Error → Value
  max_bytes : String → ℕ → Value
  max_keys : ℕ → Value

pub data Content : Type 0 where
  plain : String → Content
  json : List (String × Value) → Content

pub record Response : Type 0 where
  pub status : ℕ
  pub headers : List (String × String)
  pub content : Content

abbrev pub json_header : String × String
json_header = ("Content-Type", "application/json")

abbrev pub json_response : ℕ → List (String × Value) → Response
json_response status fields = record {
  status = status;
  headers = json_header ∷ [];
  content = json fields;
}

-- http.Error
abbrev pub http_error : ℕ → String → Response
http_error status message = record { status = status; headers = []; content = plain message }
