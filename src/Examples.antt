-- ===== src/Examples.antt =====
-- Small concrete inputs, and the modules that run the theorems on them.
pub mod Store
pub mod Devices
pub mod App
pub mod Logging
pub mod Approval
pub mod Disclosure
pub mod Notifications
pub mod MobileApi
pub mod Cosmos
pub mod Auth
pub mod Deciding
pub mod Routes
pub mod Responses
pub mod Waiting
use soffortmcp.Prelude.{ℕ, String, Bool, true, false, Option, none, some, List, [], ◌∷◌}
use soffortmcp.Models.{Principal, EnrollmentChallenge, Device, PropertyMetadata}
use soffortmcp.Models
use soffortmcp.Catalog.{Unicode}
use soffortmcp.DeviceSecurity.{Crypto}
use soffortmcp.Disclosure.{Platform, Manifest}

abbrev pub key_one : String
key_one = "vault.AAAAAAAAAAAAAAAAAAAAAAAAAAAAAAAAAAAAAAAAAAA"

abbrev pub metadata_one : PropertyMetadata
metadata_one = record {
  key = key_one;
  display_name = "Email";
  value_type = "email";
  sensitivity = "low";
}

abbrev pub alice : Principal
alice = record { tenant_id = "t"; object_id = "o"; client_id = "c"; client_kind = "vscode" }

-- Texts as they are, without a control character.
abbrev pub plain_unicode : Unicode
plain_unicode = record { strip = λ s. s; nfc = λ s. s; is_control = λ c. false }

-- Every point is on the curve and every signature verifies; the digest is empty.
abbrev pub plain_crypto : Crypto
plain_crypto = record { on_curve = λ x y. true; verifies = λ x y s m. true; sha256 = λ b. [] }

abbrev pub coordinate : String
coordinate = "AAAAAAAAAAAAAAAAAAAAAAAAAAAAAAAAAAAAAAAAAAA"

abbrev pub phone : Device
phone = record {
  partition_key = "t:o";
  device_id = "d";
  public_jwk = ("kty", "EC") ∷ ("crv", "P-256") ∷ ("x", coordinate) ∷ ("y", coordinate) ∷ [];
  apns_token = "";
  apns_environment = "sandbox";
  notifications_enabled = true;
  updated_at = 0;
}

abbrev pub challenge_one : EnrollmentChallenge
challenge_one = record {
  partition_key = "t:o";
  challenge_id = "c";
  nonce = "n";
  expires_at = 100;
  consumed = false;
  etag = none;
}

abbrev pub approval_one : Models.Approval
approval_one = record {
  partition_key = "t:o";
  approval_id = "a";
  event_id = "e";
  nonce = "n";
  tool_name = "request_properties";
  arguments_hash = "";
  requester = "VS Code";
  purpose = "p";
  requested_keys = key_one ∷ [];
  created_at = 0;
  expires_at = 100;
  status = Models.pending;
  decided_at = none;
  decided_by_device_id = none;
  decision_id = none;
  available_keys = [];
  approved_keys = [];
  denied_keys = [];
  unavailable_keys = [];
  property_metadata = [];
  compact_jwe = none;
  result_hash = none;
  etag = some "1";
}
