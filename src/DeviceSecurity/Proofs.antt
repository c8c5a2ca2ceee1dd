-- ===== src/DeviceSecurity/Proofs.antt =====
-- What the checks of device_security.py accept.
use soffortmcp.Prelude.{
  ℕ, ◌+◌, ◌/◌, ◌≤◌, ◌<◌, String, Bool, true, false, some, ◌≡◌, ◌↔◌, inl, inr, refl, sym, ◌∙◌, arith,
  List, map, none, Option, same_set, guard, or_raise, value_error, ok-injective, subst, ◌&&◌,
  nat_beq, leb, string_eq, nat_eq, codes_eq, codes_beq_iff, length, contains, codes, len, Dict, ok,
  codes_beq, ap, guard_ok, Option-cases, Bool-cases, bind-eq-ok,
}
use soffortmcp.Prelude.Json.{as_dict, as_str, Value, ℤ, pos, negsuc, str, int}
use soffortmcp.Prelude.Encoding.{encode, decode}
use soffortmcp.Prelude.Encoding.Canonical.{IsBytes, decode-encode, no_pad-encode}
use soffortmcp.DeviceSecurity.{
  Bytes, Crypto, PublicKey, decode_b64url, parse_public_jwk, verify_signature, jwk_value, is_text,
  name_of, get_or_null, jwk_members, require_fresh_issued_at, is_outside, canonical_uuid7,
  is_uuid7_groups, split,
}

-- The canonical unpadded base64url of bytes of an accepted length.
pub record IsCanonical (value : Value) (fits : ℕ → Bool) (decoded : Bytes) : Type 0 where
  pub text : String
  pub is_string : value ≡ str text
  pub not_empty : 0 < len text
  pub short : len text ≤ 256
  pub spelled : codes text ≡ encode decoded
  pub accepted : fits (length decoded) ≡ true

decoded_checks :
    (text : String) (fits : ℕ → Bool) (decoded bytes : Bytes)
    → decode (codes text) ≡ some bytes
    → decode_b64url (str text) fits ≡ ok decoded
    → (decoded ≡ bytes)
      × (fits (length decoded) ≡ true)
      × (codes_beq (encode decoded) (codes text) ≡ true)
unfolding decode_b64url
decoded_checks text fits decoded bytes e h = ground arith

text_checks :
    (text : String) (fits : ℕ → Bool) (decoded : Bytes)
    → decode_b64url (str text) fits ≡ ok decoded
    → (0 < len text) × (len text ≤ 256) × ((bytes : Bytes) × (decode (codes text) ≡ some bytes))
unfolding decode_b64url
text_checks text fits decoded h = elim (Option-cases (decode (codes text))) [
  | inl e ↦ absurd (ground arith)
  | inr (bytes, e) ↦ (ground arith, ground arith, (bytes, e))
]

decode_b64url_str :
    (text : String) (fits : ℕ → Bool) (decoded : Bytes)
    → decode_b64url (str text) fits ≡ ok decoded
    → IsCanonical (str text) fits decoded
decode_b64url_str text fits decoded h =
    let (not_empty, short, (bytes, e)) = text_checks text fits decoded h in
    let (same, accepted, canonical) = decoded_checks text fits decoded bytes e h in
    record {
      text = text;
      is_string = refl;
      not_empty = not_empty;
      short = short;
      spelled = sym ((codes_beq_iff _ _).0 canonical);
      accepted = accepted;
    }

pub IsCanonical-of_decode :
    (value : Value) (fits : ℕ → Bool) (decoded : Bytes)
    → decode_b64url value fits ≡ ok decoded
    → IsCanonical value fits decoded
unfolding decode_b64url
IsCanonical-of_decode (str text) fits decoded h = decode_b64url_str text fits decoded h
IsCanonical-of_decode _ fits decoded h = absurd (cc h)

decode_canonical :
    (text : String) (fits : ℕ → Bool) (decoded : Bytes)
    → IsBytes decoded
    → 0 < len text
    → len text ≤ 256
    → codes text ≡ encode decoded
    → fits (length decoded) ≡ true
    → decode_b64url (str text) fits ≡ ok decoded
unfolding decode_b64url
decode_canonical text fits decoded bytes not_empty short spelled accepted = ground (
  arith,
  ap decode spelled ∙ decode-encode decoded bytes,
  ap (contains b'=') spelled ∙ no_pad-encode decoded,
  (codes_beq_iff (encode decoded) (codes text)).1 (sym spelled),
)

-- `_decode_b64url` accepts exactly the canonical encodings: it returns bytes exactly if the value is a
-- text of 1 to 256 characters that is the unpadded base64url of these bytes, and their number is
-- accepted.
pub decode_b64url_iff :
    (value : Value) (fits : ℕ → Bool) (decoded : Bytes)
    → IsBytes decoded
    → (decode_b64url value fits ≡ ok decoded) ↔ IsCanonical value fits decoded
decode_b64url_iff value fits decoded bytes = (
  IsCanonical-of_decode value fits decoded,
  λ c.
      rw c.is_string
        (decode_canonical c.text fits decoded bytes c.not_empty c.short c.spelled c.accepted),
)

-- A JSON Web Key with exactly the members of a P-256 key, whose coordinates are 32 canonical bytes each
-- and are a point of the curve.
pub record IsPoint (crypto : Crypto) (value : Value) (x y : Bytes) : Type 0 where
  pub raw : List (String × Value)
  pub is_object : as_dict value ≡ some raw
  pub exact : same_set (map name_of raw) jwk_members ≡ true
  pub key_type : get_or_null "kty" raw ≡ str "EC"
  pub curve : get_or_null "crv" raw ≡ str "P-256"
  pub x_coordinate : IsCanonical (get_or_null "x" raw) (λ n. nat_beq n 32) x
  pub y_coordinate : IsCanonical (get_or_null "y" raw) (λ n. nat_beq n 32) y
  pub on_curve : crypto.on_curve x y ≡ true

-- A value that reads as a text is that text.
pub as_str_text : (v : Value) (s : String) → or_raise (as_str v) value_error ≡ ok s → v ≡ str s
as_str_text (str t) s h = ap str (ok-injective h)
as_str_text _ s h = absurd (cc h)

pub canonical_uuid7_text : (v : Value) (s : String) → canonical_uuid7 v ≡ ok s → v ≡ str s
unfolding canonical_uuid7
canonical_uuid7_text v s h =
    let (text, read, r1) = bind-eq-ok (or_raise (as_str v) value_error) _ h in
    let (_, _, last) =
      bind-eq-ok (guard (is_uuid7_groups (split b'-' (codes text))) value_error) _ r1 in
    as_str_text v s (read ∙ last)

text_of_test : (v : Value) (text : String) → is_text v text ≡ true → v ≡ str text
text_of_test (str s) text h = ap str ((string_eq.beq_iff s text).0 h)
text_of_test _ text h = absurd (cc h)

pub or_raise-ok : {A : Type 0} (o : Option A) {a : A} → or_raise o value_error ≡ ok a → o ≡ some a
or_raise-ok none h = absurd (cc h)
or_raise-ok (some b) h = cc

parse_public_jwk-IsPoint :
    (crypto : Crypto) (value : Value) (key : PublicKey)
    → parse_public_jwk crypto value ≡ ok key
    → IsPoint crypto value key.x key.y
unfolding parse_public_jwk
parse_public_jwk-IsPoint crypto value key h =
    let (raw, object, r1) = bind-eq-ok (or_raise (as_dict value) value_error) _ h in
    let (_, exact, r2) =
      bind-eq-ok (guard (same_set (map name_of raw) jwk_members) value_error) _ r1 in
    let (_, types, r3) =
      bind-eq-ok
        (guard (is_text (get_or_null "kty" raw) "EC" && is_text (get_or_null "crv" raw) "P-256")
          value_error)
        _ r2 in
    let (x, x_read, r4) =
      bind-eq-ok (decode_b64url (get_or_null "x" raw) (λ n. nat_beq n 32)) _ r3 in
    let (y, y_read, r5) =
      bind-eq-ok (decode_b64url (get_or_null "y" raw) (λ n. nat_beq n 32)) _ r4 in
    let (_, on, last) = bind-eq-ok (guard (crypto.on_curve x y) value_error) _ r5 in
    let both = guard_ok _ _ types in
    subst (λ (k : PublicKey). IsPoint crypto value k.x k.y) (ok-injective last)
      (record {
        raw = raw;
        is_object = or_raise-ok (as_dict value) object;
        exact = guard_ok _ _ exact;
        key_type = text_of_test (get_or_null "kty" raw) "EC" (ground arith);
        curve = text_of_test (get_or_null "crv" raw) "P-256" (ground arith);
        x_coordinate = IsCanonical-of_decode _ _ x x_read;
        y_coordinate = IsCanonical-of_decode _ _ y y_read;
        on_curve = guard_ok _ _ on;
      })

-- A proof that the curve library accepts for the message, under the point that the stored JSON Web Key
-- spells.
pub record IsSigned (crypto : Crypto) (jwk : Dict String String) (message : Bytes)
    (signature : Value) : Type 0 where
  pub key_x : Bytes
  pub key_y : Bytes
  pub decoded : Bytes
  pub point : IsPoint crypto (jwk_value crypto jwk) key_x key_y
  pub canonical : IsCanonical signature (λ n. leb n 96) decoded
  pub verified : crypto.verifies key_x key_y decoded message ≡ true

-- `verify_signature` returns only if the stored key is an exact P-256 key whose 32-byte coordinates are
-- a point of the curve, the signature is canonical and has at most 96 bytes, and the curve library verifies it over exactly this message.
pub verify_signature-IsSigned :
    (crypto : Crypto) (jwk : Dict String String) (message : Bytes) (signature : Value)
    → verify_signature crypto jwk message signature ≡ ok tt
    → IsSigned crypto jwk message signature
unfolding verify_signature
verify_signature-IsSigned crypto jwk message signature h =
    let (key, parsed, rest) = bind-eq-ok (parse_public_jwk crypto (jwk_value crypto jwk)) _ h in
    let (decoded, canonical, last) = bind-eq-ok (decode_b64url signature (λ n. leb n 96)) _ rest in
    record {
      key_x = key.x;
      key_y = key.y;
      decoded = decoded;
      point = parse_public_jwk-IsPoint crypto (jwk_value crypto jwk) key parsed;
      canonical = IsCanonical-of_decode signature _ decoded canonical;
      verified = guard_ok _ _ last;
    }

-- A time proof is fresh if it is an integer at most 30 seconds from the server's clock.
abbrev pub IsFresh : ℕ → ℤ → Type 0
IsFresh now (pos n) = (now ≤ n + 30) × (n ≤ now + 30)
IsFresh now (negsuc n) = now + n + 1 ≤ 30

is_outside_iff : (now : ℕ) (n : ℤ) → (is_outside 30 now n ≡ false) ↔ IsFresh now n
is_outside_iff now (pos n) = (λ h. ground arith, λ h. ground arith)
is_outside_iff now (negsuc n) = (λ h. ground arith, λ h. ground arith)

IsFresh-of_ok :
    (now : ℕ) (value : Value) (issued_at : ℤ)
    → require_fresh_issued_at now value ≡ ok issued_at
    → (value ≡ int issued_at) × IsFresh (now / 1000000) issued_at
unfolding require_fresh_issued_at
IsFresh-of_ok now (int n) issued_at h = elim (Bool-cases (is_outside 30 (now / 1000000) n)) [
  | inl e ↦ absurd (cc (rw e at h))
  | inr e ↦
      let same : n ≡ issued_at = cc (rw e at h) in
      (ap int same, (is_outside_iff (now / 1000000) issued_at).0 (rw (← same) e))
]
IsFresh-of_ok now _ issued_at h = absurd (cc h)

ok_of_fresh :
    (now : ℕ) (issued_at : ℤ)
    → IsFresh (now / 1000000) issued_at
    → require_fresh_issued_at now (int issued_at) ≡ ok issued_at
unfolding require_fresh_issued_at
ok_of_fresh now n h = rw ((is_outside_iff (now / 1000000) n).1 h)

-- `require_fresh_issued_at` returns exactly the integers within 30 seconds of the clock, with
-- Boolean values and other types refused.
pub require_fresh_issued_at_iff :
    (now : ℕ) (value : Value) (issued_at : ℤ)
    → (require_fresh_issued_at now value ≡ ok issued_at)
      ↔ ((value ≡ int issued_at) × IsFresh (now / 1000000) issued_at)
unfolding require_fresh_issued_at
require_fresh_issued_at_iff now value issued_at =
    (IsFresh-of_ok now value issued_at, λ p. rw p.0 (ok_of_fresh now issued_at p.1))
