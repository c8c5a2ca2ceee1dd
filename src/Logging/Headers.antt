-- ===== src/Logging/Headers.antt =====
-- The headers of the responses that leave the server.
use soffortmcp.Prelude.{
  ◌≤◌, Bool, true, false, not, List, [], ◌∷◌, ◌++◌, map, ◌≡◌, refl, sym, ap, subst, ◌∙◌, arith,
  codes_eq, if◌then◌else◌, Bool-cases, inl, inr, length, all, filter, codes, All, is_nonempty, leb,
  Result,
}
use soffortmcp.Logging.{
  Bytes, Headers, Scope, is_cache_policy, is_alnum, is_correlation, is_secure, Message,
  response_start, response_body, own_headers, header_or_empty, headers_of, response_headers,
  request_id_of, send_with_headers, serve,
}

abbrev cache_policies : Headers → Headers
cache_policies = filter is_cache_policy

-- Every started response forbids caching in the one field of that name, and names the request.
abbrev pub IsGuarded : Bytes → Message → Type 0
IsGuarded request_id (response_start status headers) =
    (filter is_cache_policy headers ≡ (codes "cache-control", codes "no-store") ∷ [])
    × (before : Headers) × (after : Headers) × (headers
        ≡ before ++ (codes "x-request-id", request_id) ∷ after)
IsGuarded request_id (response_body body) = Unit {0}

pub record IsIdentifier (id : Bytes) : Type 0 where
  pub some_byte : is_nonempty id ≡ true
  pub alphanumeric : all is_alnum id ≡ true
  pub short : length id ≤ 64

filter-append :
    (p : Bytes × Bytes → Bool) (l m : Headers) → filter p (l ++ m) ≡ filter p l ++ filter p m
unfolding filter
filter-append p [] m = refl
filter-append p (h ∷ l) m = elim (Bool-cases (p h)) [
  | inl e ↦ rw e (ap (◌∷◌ h) (filter-append p l m))
  | inr e ↦ rw e (filter-append p l m)
]

filter-not : (p : Bytes × Bytes → Bool) (l : Headers) → filter p (filter (λ h. not (p h)) l) ≡ []
unfolding filter
filter-not p [] = refl
filter-not p (h ∷ l) = ground (arith, filter-not p l)

own_headers-cache :
    (id : Bytes) (secure : Bool)
    → cache_policies (own_headers id secure) ≡ (codes "cache-control", codes "no-store") ∷ []
unfolding filter
own_headers-cache id true = refl
own_headers-cache id false = refl

response_headers-cache :
    (scope : Scope) (id : Bytes) (headers : Headers)
    → cache_policies (response_headers scope id headers)
      ≡ (codes "cache-control", codes "no-store") ∷ []
unfolding response_headers
response_headers-cache scope id headers =
    filter-append is_cache_policy (filter (λ h. not (is_cache_policy h)) headers)
      (own_headers id (is_secure scope))
    ∙ ap (λ l. l ++ cache_policies (own_headers id (is_secure scope)))
        (filter-not is_cache_policy headers)
    ∙ own_headers-cache id (is_secure scope)

identifier :
    (candidate new_id : Bytes)
    → IsIdentifier new_id
    → IsIdentifier (if is_correlation candidate then candidate else new_id)
identifier candidate new_id h = elim (Bool-cases (is_correlation candidate)) [
  | inl e ↦
      rw e (record { some_byte = ground arith; alphanumeric = ground arith; short = ground arith })
  | inr e ↦ rw e h
]

request_id_of-IsIdentifier :
    (scope : Scope) (new_id : Bytes)
    → IsIdentifier new_id
    → IsIdentifier (request_id_of scope new_id)
unfolding request_id_of
request_id_of-IsIdentifier scope new_id h =
    identifier (filter (λ c. leb c 127) (header_or_empty (codes "x-request-id") (headers_of scope)))
      new_id h

send_with_headers-IsGuarded :
    (scope : Scope) (id : Bytes) (message : Message)
    → IsGuarded id (send_with_headers scope id message)
unfolding send_with_headers response_headers
send_with_headers-IsGuarded scope id (response_start status headers) =
    (response_headers-cache scope id headers, _, _, refl)
send_with_headers-IsGuarded scope id (response_body body) = tt

all-IsGuarded :
    (scope : Scope) (id : Bytes) (messages : List Message)
    → All (IsGuarded id) (map (send_with_headers scope id) messages)
all-IsGuarded scope id [] = tt
all-IsGuarded scope id (message ∷ l) =
    (send_with_headers-IsGuarded scope id message, all-IsGuarded scope id l)

-- Whatever an application answers to an HTTP request, each response that is sent has one field
-- cache-control, with the value no-store, and names the request by an identifier of 1 to 64 letters and
-- digits, provided that the identifiers drawn for requests are such.
pub serve-IsGuarded :
    (scope : Scope) (new_id : Bytes) (messages : List Message) (outcome : Result (Unit {0}))
    → scope.is_http ≡ true
    → IsIdentifier new_id
    → (id : Bytes) × IsIdentifier id × All (IsGuarded id) (serve scope new_id messages outcome).0.0
unfolding serve
serve-IsGuarded scope new_id messages outcome http fresh = (
  request_id_of scope new_id,
  request_id_of-IsIdentifier scope new_id fresh,
  subst
      (λ b. All (IsGuarded (request_id_of scope new_id)) (
        if not b
        then messages
        else map (send_with_headers scope (request_id_of scope new_id)) messages))
      (sym http) (all-IsGuarded scope (request_id_of scope new_id) messages),
)
