-- ===== src/Examples/Deciding.antt =====
-- A denial that a phone sends.
use soffortmcp.Prelude.{String, some, [], ◌∷◌, string_eq}
use soffortmcp.Prelude.Json.{pos, int, str, null, obj, arr, nil, field, end}
use soffortmcp.Models.{Approval}
use soffortmcp.DeviceSecurity.{Bytes}
use soffortmcp.Store.Memory.{Memory, empty, apply_decision}
use soffortmcp.Approval.Service.{Service, World, Answer, decision_of}
use soffortmcp.MobileApi.{Body}
use soffortmcp.Examples.{approval_one, phone}
use soffortmcp.Examples.Approval.{memory_service, refusal, waiting}
use soffortmcp.Examples.MobileApi.{id_one}
use soffortmcp.Examples.Disclosure.{plain_platform}

abbrev bytes_30 : Bytes
bytes_30 =
    0 ∷ 0 ∷ 0 ∷ 0 ∷ 0 ∷ 0 ∷ 0 ∷ 0 ∷ 0 ∷ 0 ∷ 0 ∷ 0 ∷ 0 ∷ 0 ∷ 0 ∷ 0 ∷ 0 ∷ 0 ∷ 0 ∷ 0 ∷ 0 ∷ 0 ∷ 0 ∷ 0
    ∷ 0 ∷ 0 ∷ 0 ∷ 0 ∷ 0 ∷ 0 ∷ []

abbrev hash_one : String
hash_one = "AAAAAAAAAAAAAAAAAAAAAAAAAAAAAAAAAAAAAAAA"

abbrev hashing_service : Service Memory
hashing_service = record memory_service {
  platform = record plain_platform { sha256 = λ b. bytes_30 };
}

abbrev asked : World Memory
asked = record waiting {
  state = record empty {
    approvals = (("t:o", id_one), record approval_one { approval_id = id_one }) ∷ [];
    versions = (("t:o", id_one), 1) ∷ [];
    devices = (("t:o", id_one), record phone { device_id = id_one }) ∷ [];
  };
}

abbrev denial_body : Body
denial_body =
    ("device_id", str id_one)
    ∷ ("decision_id", str id_one)
    ∷ ("decision", str "denied")
    ∷ (
      "result",
      obj (
          field "available_keys" (arr nil) (
            field "approved_keys" (arr nil) (
              field "denied_keys" (arr nil) (
                field "unavailable_keys" (arr nil)
                  (field "property_metadata" (arr nil) (field "compact_jwe" null end)))))),
    )
    ∷ ("result_hash", str hash_one)
    ∷ ("issued_at", int (pos 0))
    ∷ ("signature", str "AQ")
    ∷ []

abbrev denial_answer : Answer
denial_answer = record {
  approval_id = id_one;
  device_id = id_one;
  decision_id = id_one;
  decision = "denied";
  manifest = refusal;
  result_hash = hash_one;
  issued_at = pos 0;
  signature = str "AQ";
}

abbrev denied_here : Approval
denied_here =
    apply_decision (record approval_one { approval_id = id_one }) (decision_of 10 denial_answer)
      (some "2")
