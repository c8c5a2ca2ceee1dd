-- ===== src/Disclosure/Keys.antt =====
-- src/soffortbackend/disclosure.py: the public key that phones encrypt for, and the life cycle of the
-- two decryptors. Key Vault's answer is a parameter.
use soffortmcp.Prelude.{
  ℕ, suc, zero, String, Bool, true, false, Option, none, some, List, [], ◌∷◌, ◌==◌, string_eq,
  if◌then◌else◌, lookup, ascii_text, Failure, Result, ok, err, bind, or_raise, cancelled,
  disclosure_error, Dict,
}
use soffortmcp.Prelude.Exec.{Exec, raise}
use soffortmcp.Prelude.Json.{Value, str}
use soffortmcp.Prelude.Encoding.{encode}
use soffortmcp.Models.{Approval}
use soffortmcp.DeviceSecurity.{Bytes}
use soffortmcp.Disclosure.{DisclosedProperty}

pub record DisclosureKey : Type 0 where
  pub kid : String
  pub n : String
  pub e : String

unfoldable pub as_json : DisclosureKey → List (String × Value)
as_json key =
    ("kty", str "RSA")
    ∷ ("kid", str key.kid)
    ∷ ("use", str "enc")
    ∷ ("alg", str "RSA-OAEP-256")
    ∷ ("n", str key.n)
    ∷ ("e", str key.e)
    ∷ []

-- What the vault answers: the public members of its key, and the version.
pub record VaultKey : Type 0 where
  pub n : Option Bytes
  pub e : Option Bytes
  pub version : Option String

-- The attribute `_current`
abbrev pub Current : Type 0
Current = Option DisclosureKey

unfoldable pub is_ready : Current → Bool
is_ready none = false
is_ready (some key) = true

abbrev pub version_of : Option String → Result String
version_of none = err disclosure_error
version_of (some version) = if version == "" then err disclosure_error else ok version

unfoldable pub key_of : VaultKey → Result DisclosureKey
key_of key = bind (or_raise key.n disclosure_error) λ modulus.
    bind (or_raise key.e disclosure_error) λ exponent. bind (version_of key.version) λ version.
      ok (record {
        kid = version;
        n = ascii_text (encode modulus);
        e = ascii_text (encode exponent);
      })

-- except Exception
abbrev pub on_unavailable : Failure → Exec Current (Unit {0})
on_unavailable cancelled = raise cancelled
on_unavailable e = raise disclosure_error

abbrev pub keep_key : Result DisclosureKey → Exec Current (Unit {0})
keep_key (ok key) s = (ok tt, some key)
keep_key (err e) s = on_unavailable e s

-- `start`, for what the vault answers
unfoldable pub start : Result VaultKey → Exec Current (Unit {0})
start answer = keep_key (bind answer key_of)

-- `close`, for what the closes of the two clients return or raise
unfoldable pub close : Result (Unit {0}) → Result (Unit {0}) → Exec Current (Unit {0})
close keys credential s = (bind keys (λ _. credential), none)

unfoldable pub current_key : Current → Result DisclosureKey
current_key s = or_raise s disclosure_error

abbrev pub repeated : ℕ → ℕ → Bytes
repeated c zero = []
repeated c (suc n) = c ∷ repeated c n

-- `FakeDisclosureDecryptor.current_key`
unfoldable pub fake_current_key : DisclosureKey
fake_current_key = record {
  kid = "fixture-key";
  n = ascii_text (encode (repeated b'n' 256));
  e = ascii_text (encode (1 ∷ 0 ∷ 1 ∷ []));
}

-- `FakeDisclosureDecryptor.decrypt`, over the values that were registered
unfoldable pub fake_decrypt :
    Dict String (List DisclosedProperty) → Approval → Result (List DisclosedProperty)
fake_decrypt values approval = or_raise (lookup approval.approval_id values) disclosure_error
