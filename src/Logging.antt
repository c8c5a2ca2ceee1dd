-- ===== src/Logging.antt =====
-- src/soffortbackend/logging.py: the payload of a log line, and the middleware that correlates requests
-- and sets the headers of every response. Header names and values are bytes.
pub mod Headers
use soffortmcp.Prelude.{
  ℕ, ◌+◌, String, Bool, true, false, not, ◌&&◌, ◌||◌, Option, none, some, List, [], ◌∷◌, ◌++◌, map,
  ◌==◌, string_eq, codes_eq, nat_beq, leb, if◌then◌else◌, is_nonempty, length, all, filter, codes,
  lookup, insert_all, Dict, is_digit, in_range, Result,
}
use soffortmcp.Prelude.Json.{Value, str, int, ℤ, pos}

abbrev pub Bytes : Type 0
Bytes = List ℕ

abbrev pub Headers : Type 0
Headers = List (Bytes × Bytes)

-- The attributes of a log record that `format` reads; `extra` are the others.
pub record LogRecord : Type 0 where
  pub levelname : String
  pub name : String
  pub message : String
  pub exception : Option String
  pub extra : Dict String Value

abbrev pub is_null : Value → Bool
is_null Value.null = true
is_null _ = false

-- getattr(record, key, None), if it is not None
abbrev pub attribute : LogRecord → String → List (String × Value)
attribute record_ key = elim (lookup key record_.extra) [
  | none ↦ []
  | some v ↦ if is_null v then [] else (key, v) ∷ []
]

abbrev pub exception_of : Option String → List (String × Value)
exception_of none = []
exception_of (some text) = ("exception", str text) ∷ []

-- The payload of `JsonFormatter.format`, at an instant and in the context of a request
unfoldable pub payload : String → String → LogRecord → List (String × Value)
payload timestamp request_id record_ =
    ("timestamp", str timestamp)
    ∷ ("level", str record_.levelname)
    ∷ ("logger", str record_.name)
    ∷ ("message", str record_.message)
    ∷ ("request_id", str request_id)
    ∷ (attribute record_ "method"
        ++ (attribute record_ "path"
            ++ (attribute record_ "status_code"
                ++ (attribute record_ "duration_ms" ++ exception_of record_.exception))))

abbrev pub lower_byte : ℕ → ℕ
lower_byte c = if leb 65 c && leb c 90 then c + 32 else c

-- key.lower()
abbrev pub lower : Bytes → Bytes
lower = map lower_byte

pub record Scope : Type 0 where
  pub is_http : Bool
  pub headers : Headers
  pub scheme : Option String
  pub method : String
  pub path : String

-- The headers by their names; of repeated ones the last.
unfoldable pub headers_of : Scope → Dict Bytes Bytes
headers_of scope = insert_all (map (λ h. (lower h.0, h.1)) scope.headers) []

abbrev pub header_or_empty : Bytes → Dict Bytes Bytes → Bytes
header_or_empty name headers = elim (lookup name headers) [ none ↦ [] | some value ↦ value ]

abbrev pub is_alnum : ℕ → Bool
is_alnum c = is_digit c || in_range b'a' b'z' c || in_range b'A' b'Z' c

-- candidate.isalnum() and len(candidate) <= 64, for an ASCII text
abbrev pub is_correlation : Bytes → Bool
is_correlation candidate =
    is_nonempty candidate && all is_alnum candidate && leb (length candidate) 64

-- The identifier of the request: the caller's, or the new one that is drawn outside
unfoldable pub request_id_of : Scope → Bytes → Bytes
request_id_of scope new_id =
    let candidate =
      filter (λ c. leb c 127) (header_or_empty (codes "x-request-id") (headers_of scope)) in
    if is_correlation candidate then candidate else new_id

abbrev pub is_https : Option String → Bool
is_https none = false
is_https (some scheme) = scheme == "https"

unfoldable pub is_secure : Scope → Bool
is_secure scope =
    is_https scope.scheme
    || header_or_empty (codes "x-forwarded-proto") (headers_of scope) == codes "https"

abbrev pub is_cache_policy : Bytes × Bytes → Bool
is_cache_policy h = lower h.0 == codes "cache-control"

-- The messages that an application sends.
pub data Message : Type 0 where
  response_start : ℕ → Headers → Message
  response_body : Bytes → Message

-- The headers that are added.
abbrev pub own_headers : Bytes → Bool → Headers
own_headers request_id secure =
    (codes "x-request-id", request_id)
    ∷ (codes "cache-control", codes "no-store")
    ∷ (codes "x-content-type-options", codes "nosniff")
    ∷ (codes "referrer-policy", codes "no-referrer")
    ∷ (if secure
        then (codes "strict-transport-security", codes "max-age=31536000; includeSubDomains") ∷ []
        else [])

unfoldable pub response_headers : Scope → Bytes → Headers → Headers
response_headers scope request_id headers =
    filter (λ h. not (is_cache_policy h)) headers ++ own_headers request_id (is_secure scope)

-- `send_with_headers`, as the message that it sends
unfoldable pub send_with_headers : Scope → Bytes → Message → Message
send_with_headers scope request_id (response_start status headers) =
    response_start status (response_headers scope request_id headers)
send_with_headers scope request_id message = message

-- The status of the last response that was started.
unfoldable pub status_code : ℕ → List Message → ℕ
status_code status [] = status
status_code status (response_start s headers ∷ l) = status_code s l
status_code status (_ ∷ l) = status_code status l

pub record Access : Type 0 where
  pub method : String
  pub path : String
  pub status_code : ℕ

-- `RequestContextMiddleware.__call__`, for what the application sends before it ends: what is sent, the
-- access line for an HTTP request, and the end of the application
unfoldable pub serve :
    Scope
    → Bytes
    → List Message
    → Result (Unit {0})
    → (List Message × Option Access) × Result (Unit {0})
serve scope new_id messages outcome = (
  (
    if not scope.is_http
        then messages
        else map (send_with_headers scope (request_id_of scope new_id)) messages,
    if not scope.is_http
        then none
        else some (record {
          method = scope.method;
          path = scope.path;
          status_code = status_code 500 messages;
        }),
  ),
  outcome,
)
