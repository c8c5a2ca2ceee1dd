-- ===== src/Auth/Jwks.antt =====
-- src/soffortbackend/auth.py, `JwksCache`. The monotonic clock counts microseconds. A refresh keeps the
-- lock from before it reads the clock to its end, so that other tasks change the cache only while it
-- waits for the lock.
pub mod Cooldown
pub mod Lifetime
use soffortmcp.Prelude.{
  ℕ, ◌+◌, ◌*◌, ◌-◌, ◌<◌, String, Bool, true, false, not, ◌&&◌, ◌||◌, Option, none, some, List, [],
  ◌∷◌, ◌==◌, string_eq, ltb, leb, nat_beq, if◌then◌else◌, is_nonempty, lookup, insert, Dict, length,
  codes, Failure, Result, ok, err, guard, or_raise, bind, value_error, transport_error, jwt_error,
}
use soffortmcp.Prelude.Exec.{Exec, pure, raise, lift, catch, ◌>>=◌, ◌>>◌}
use soffortmcp.Prelude.Json.{Value, as_str, as_list, as_dict, str, items, members}
use soffortmcp.Approval.Service.{World, pause, now}

-- What the HTTP client answered: the outcome of `raise_for_status` and of `json`, and the header
-- cache-control, or the empty text.
pub record Response : Type 0 where
  pub raise_for_status : Result (Unit {0})
  pub json : Result Value
  pub cache_control : String

-- The libraries that the cache calls: httpx for a request that starts at an instant, with the time
-- that it takes, `PyJWK.from_dict` and the character classes of `re`.
pub record Client (K : Type 0) : Type 0 where
  pub get : ℕ → Result Response × ℕ
  pub from_dict : List (String × Value) → Result K
  pub is_space : ℕ → Bool
  pub digit : ℕ → Option ℕ

-- A request that was sent: by which kind of refresh, when, and whether its keys were kept.
pub record Request : Type 0 where
  pub forced : Bool
  pub at : ℕ
  pub succeeded : Bool

-- The attributes that the methods change, and the requests that were sent, the last one first.
pub record JwksCache (K : Type 0) : Type 0 where
  pub keys : Dict String K
  pub expires_at : ℕ
  pub last_refresh_attempt : ℕ
  pub sent : List Request

-- `__init__`
abbrev pub new_cache : {K : Type 0} → JwksCache K
new_cache = record { keys = []; expires_at = 0; last_refresh_attempt = 0; sent = [] }

unfoldable pub is_ready : {K : Type 0} → JwksCache K → Bool
is_ready cache = is_nonempty cache.keys

-- Microseconds.
abbrev pub seconds : ℕ → ℕ
seconds n = n * 1000000

abbrev pub lower : ℕ → ℕ
lower c = if leb 65 c && leb c 90 then c + 32 else c

module _ {K : Type 0} (client : Client K) where
  abbrev pub skip_spaces : List ℕ → List ℕ
  skip_spaces [] = []
  skip_spaces (c ∷ s) = let rest = skip_spaces s in if client.is_space c then rest else c ∷ s

  -- The rest behind a name, in any case.
  abbrev pub after_name : List ℕ → List ℕ → Option (List ℕ)
  after_name [] s = some s
  after_name (c ∷ name) [] = none
  after_name (c ∷ name) (d ∷ s) =
      let rest = after_name name s in if nat_beq c (lower d) then rest else none

  -- The number that the digits in front spell after `n`, how many there are, and the rest.
  abbrev pub read_digits : ℕ → ℕ → List ℕ → (ℕ × ℕ) × List ℕ
  read_digits n count [] = ((n, count), [])
  read_digits n count (c ∷ s) = elim (client.digit c) [
    | none ↦ ((n, count), c ∷ s)
    | some d ↦ read_digits (n * 10 + d) (count + 1) s
  ]

  abbrev pub ends_item : List ℕ → Bool
  ends_item [] = true
  ends_item (c ∷ s) = nat_beq c b','

  abbrev pub after_equals : List ℕ → Option (ℕ × ℕ)
  after_equals s =
      let (number, rest) = read_digits 0 0 s in
      if ltb 0 number.1 && ends_item (skip_spaces rest) then some number else none

  abbrev pub match_max_age : List ℕ → Option (ℕ × ℕ)
  match_max_age s = elim (after_name (codes "max-age=") (skip_spaces s)) [
    | none ↦ none
    | some rest ↦ after_equals rest
  ]

  abbrev pub search_items : List ℕ → Option (ℕ × ℕ)
  search_items [] = none
  search_items (c ∷ s) =
      let rest = search_items s in
      if nat_beq c b','
      then elim (match_max_age s) [ none ↦ rest | some found ↦ some found ]
      else rest

  -- MAX_AGE_PATTERN.search: the number of the first item of that name, and how many digits it has
  unfoldable pub search_max_age : List ℕ → Option (ℕ × ℕ)
  search_max_age s = elim (match_max_age s) [ none ↦ search_items s | some found ↦ some found ]

-- `int` of a text refuses more digits.
abbrev pub max_digits : ℕ
max_digits = 4300

-- max(60, min(requested, 21_600))
abbrev pub clamp : ℕ → ℕ
clamp requested =
    let low = if ltb 21600 requested then 21600 else requested in if ltb low 60 then 60 else low

unfoldable pub cache_ttl : {K : Type 0} → Client K → ℕ → String → Result ℕ
cache_ttl client default_ttl cache_control = elim (search_max_age client (codes cache_control)) [
  | none ↦ ok (clamp default_ttl)
  | some (n, count) ↦ if ltb max_digits count then err value_error else ok (clamp n)
]

-- key.get(name, default) == default
abbrev pub is_default : String → Option Value → Bool
is_default default none = true
is_default default (some v) = elim (as_str v) [ none ↦ false | some s ↦ s == default ]

-- The key identifier, for a key that the loop does not skip.
unfoldable pub usable_kid : List (String × Value) → Option String
usable_kid key = elim (lookup "kid" key) [
  | none ↦ none
  | some v ↦ elim (as_str v) [
    | none ↦ none
    | some key_id ↦
        if not (key_id == "")
          && (elim (lookup "kty" key) [ none ↦ false | some t ↦ is_default "RSA" (some t) ])
          && is_default "sig" (lookup "use" key)
          && is_default "RS256" (lookup "alg" key)
        then some key_id
        else none
  ]
]

module _ {K : Type 0} (client : Client K) where
  -- The step of the loop for one element of the list.
  unfoldable pub add_key : Dict String K → Option (List (String × Value)) → Result (Dict String K)
  add_key parsed none = ok parsed
  add_key parsed (some key) = elim (usable_kid key) [
    | none ↦ ok parsed
    | some key_id ↦ bind (client.from_dict key) λ k. ok (insert key_id k parsed)
  ]

  unfoldable pub parse_keys : Dict String K → List Value → Result (Dict String K)
  parse_keys parsed [] = ok parsed
  parse_keys parsed (v ∷ l) = bind (add_key parsed (as_dict v)) λ more. parse_keys more l

  abbrev pub signing_keys : Value → Result (Dict String K)
  signing_keys decoded = bind (or_raise (as_dict decoded) value_error) λ body.
      bind (or_raise (elim (lookup "keys" body) [ none ↦ none | some v ↦ as_list v ]) value_error)
        λ raw_keys. bind (guard (is_nonempty raw_keys) value_error) λ _.
          bind (parse_keys [] raw_keys)
            λ parsed. bind (guard (is_nonempty parsed) value_error) λ _. ok parsed

  -- The keys of a response, and how many seconds they may be kept.
  unfoldable pub read_response : ℕ → Response → Result (Dict String K × ℕ)
  read_response default_ttl response = bind response.raise_for_status λ _.
      bind response.json λ decoded.
        bind (signing_keys decoded) λ parsed.
          bind (cache_ttl client default_ttl response.cache_control) λ ttl. ok (parsed, ttl)

-- The numbers that the cache is built with, in seconds.
pub record Limits : Type 0 where
  pub default_ttl : ℕ
  pub refresh_cooldown : ℕ

module _ {K : Type 0} (client : Client K) (limits : Limits) where
  abbrev pub keep : Result (Dict String K × ℕ) → Exec (World (JwksCache K)) (Unit {0})
  keep (err e) w = (err e, w)
  keep (ok (parsed, ttl)) w = (
    ok tt,
    record w { state = record w.state { keys = parsed; expires_at = w.clock + seconds ttl } },
  )

  abbrev pub is_kept : Result (Dict String K × ℕ) → Bool
  is_kept (ok _) = true
  is_kept (err _) = false

  -- The request of `_refresh` and what it makes of the response, under the lock
  unfoldable pub fetch : Bool → Exec (World (JwksCache K)) (Unit {0})
  fetch force w =
      let (answer, duration) = client.get w.clock in
      let response = bind answer (read_response client limits.default_ttl) in
      let request : Request = record {
        forced = force;
        at = w.clock;
        succeeded = is_kept response;
      } in
      let attempted = record w.state {
        last_refresh_attempt = w.clock;
        sent = request ∷ w.state.sent;
      } in
      keep response (record w { state = attempted; clock = w.clock + duration })

  -- `_refresh` once it has the lock
  unfoldable pub refresh_locked : Bool → Exec (World (JwksCache K)) (Unit {0})
  refresh_locked force w =
      if not force && is_nonempty w.state.keys && ltb w.clock w.state.expires_at
      then (ok tt, w)
      else if force && ltb w.clock (w.state.last_refresh_attempt + seconds limits.refresh_cooldown)
      then (ok tt, w)
      else fetch force w

  unfoldable pub refresh : Bool → Exec (World (JwksCache K)) (Unit {0})
  refresh force w = refresh_locked force (pause w)

  abbrev pub fresh : ℕ → ℕ → Option K → Option K
  fresh clock expires_at none = none
  fresh clock expires_at (some key) = if ltb clock expires_at then some key else none

  abbrev pub is_none : Option K → Bool
  is_none none = true
  is_none (some key) = false

  unfoldable pub get_key : String → Exec (World (JwksCache K)) (Option K)
  get_key key_id w =
      let cached = lookup key_id w.state.keys in
      elim (fresh w.clock w.state.expires_at cached) [
        | some key ↦ (ok (some key), w)
        | none ↦ (refresh (is_none cached) >>= λ _ v. (ok (lookup key_id v.state.keys), v)) w
      ]

  -- except httpx.HTTPError, ValueError
  abbrev pub tolerate : Failure → Exec (World (JwksCache K)) (Unit {0})
  tolerate transport_error = pure tt
  tolerate value_error = pure tt
  tolerate e = raise e

  unfoldable pub start : Exec (World (JwksCache K)) (Unit {0})
  start = catch (refresh true) tolerate
