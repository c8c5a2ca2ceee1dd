-- ===== src/Examples/Approval.antt =====
-- The approval service over the in-memory store.
use mathlib.Core.List.{Nodup}
use soffortmcp.Prelude.{
  ◌+◌, none, some, [], ◌∷◌, ◌≡◌, refl, arith, ok, any, contains, same_set, has_duplicates, set_of,
  all, string_eq, lookup, insert,
}
use soffortmcp.Prelude.Exec.{Outcome}
use soffortmcp.Prelude.Json.{pos, str}
use soffortmcp.Models.{Approval, partition_key}
use soffortmcp.DeviceSecurity.{verify_signature, parse_public_jwk, decode_b64url}
use soffortmcp.Prelude.Encoding.{encode, decode, sextet, sextets, decode_sextets, letter}
use soffortmcp.Prelude.Decimal.{decimal, decimal_digits, digit}
use soffortmcp.Disclosure.{Manifest, decrypt, result_manifest_hash}
use soffortmcp.Store.Memory.{
  Memory, empty, list_active_devices, get_device, disable_device, create_approval, get_approval,
  decide_approval, close_approval, apply_decision, write_version,
}
use soffortmcp.Approval.{
  validate_result, has_bad_key, validate_metadata, validate_shape, validate_denial,
}
use soffortmcp.Approval.Partition.{IsShaped, validate_result-IsShaped}
use soffortmcp.Approval.Service.{
  ApprovalStore, Service, World, Answer, Fresh, Question, decide, decide_found, decide_pending,
  check_answer, decision_of, await, pause, interleave, wait_loop, request, request_properties,
}
use soffortmcp.Approval.Wait.{IsDecided, wait_loop_enough}
use soffortmcp.Approval.Request.{IsPublic, IsRelease, request-Outcome, request_properties-Outcome}
use soffortmcp.Approval.Decide.{IsAccepted, decide_accepts}
use soffortmcp.Examples.{alice, approval_one, phone, key_one, plain_unicode, plain_crypto}
use soffortmcp.Examples.Disclosure.{plain_platform}

abbrev memory_store : ApprovalStore Memory
memory_store = record {
  list_active_devices = λ partition now. list_active_devices partition;
  get_device = λ partition device_id now. get_device partition device_id;
  disable_device = λ partition device_id now. disable_device now partition device_id;
  create_approval = λ approval now. create_approval approval;
  get_approval = λ partition approval_id now. get_approval partition approval_id;
  decide_approval = λ approval decision now. decide_approval now approval decision;
  close_approval = λ approval status now. close_approval approval status;
}

abbrev pub memory_service : Service Memory
memory_service = record {
  store = memory_store;
  send_approval =
      λ approval devices. ok (record { accepted_device_ids = "d" ∷ []; invalid_device_ids = [] });
  decrypt = decrypt plain_platform;
  unicode = plain_unicode;
  crypto = plain_crypto;
  platform = plain_platform;
  timeout = 3;
  poll_interval = 1;
}

abbrev pub waiting : World Memory
waiting = record {
  state = record empty {
    approvals = (("t:o", "a"), approval_one) ∷ [];
    versions = (("t:o", "a"), 1) ∷ [];
    devices = (("t:o", "d"), phone) ∷ [];
  };
  clock = 10;
  others = [];
}

abbrev pub fresh_one : Fresh
fresh_one = record { approval_id = "b"; event_id = "e"; nonce = "n" }

abbrev question_one : Question
question_one = record {
  tool_name = "list_available_properties";
  purpose = "p";
  requested_keys = [];
  arguments = none;
}

abbrev pub refusal : Manifest
refusal = record {
  available_keys = [];
  approved_keys = [];
  denied_keys = [];
  unavailable_keys = [];
  property_metadata = [];
  compact_jwe = none;
}

abbrev answer_one : Answer
answer_one = record {
  approval_id = "a";
  device_id = "d";
  decision_id = "x";
  decision = "denied";
  manifest = refusal;
  result_hash = "";
  issued_at = pos 5;
  signature = str "AQ";
}

wait_loop_enough_example :
    wait_loop memory_service (3 + 4) 13 approval_one waiting
    ≡ wait_loop memory_service 3 13 approval_one waiting
wait_loop_enough_example =
    wait_loop_enough memory_service 3 4 13 approval_one waiting (omega arith) (omega arith)

request-Outcome_example :
    Outcome IsDecided IsPublic (request memory_service alice question_one fresh_one waiting).0
request-Outcome_example = request-Outcome memory_service alice question_one fresh_one waiting

request_properties-Outcome_example :
    Outcome
      (IsRelease memory_service)
      IsPublic
      (request_properties memory_service alice (key_one ∷ []) "p" fresh_one waiting).0
request_properties-Outcome_example =
    request_properties-Outcome memory_service alice (key_one ∷ []) "p" fresh_one waiting

denial_run :
    validate_result plain_unicode "request_properties" (key_one ∷ []) "denied" refusal ≡ ok tt
unfolding validate_result has_duplicates set_of has_bad_key any validate_metadata validate_shape
    validate_denial
denial_run = refl

validate_result-IsShaped_example :
    Nodup refusal.available_keys
    × Nodup refusal.approved_keys
    × Nodup refusal.denied_keys
    × Nodup refusal.unavailable_keys
    × IsShaped "request_properties" (key_one ∷ []) "denied" refusal
validate_result-IsShaped_example =
    validate_result-IsShaped plain_unicode "request_properties" (key_one ∷ []) "denied" refusal
      denial_run

abbrev denied_one : Approval
denied_one = apply_decision approval_one (decision_of 10 answer_one) (some "2")

decided_run : (decide memory_service alice answer_one waiting).0 ≡ ok denied_one
unfolding decide decide_found decide_pending check_answer await pause interleave partition_key
    get_approval get_device lookup validate_result has_duplicates set_of has_bad_key any
    validate_metadata validate_shape validate_denial result_manifest_hash encode verify_signature
    parse_public_jwk decode_b64url same_set all contains decode sextet sextets decode_sextets letter
    decide_approval write_version insert decimal decimal_digits digit
decided_run = refl

decide_accepts_example : IsAccepted memory_service alice answer_one waiting denied_one
decide_accepts_example =
    decide_accepts memory_service alice answer_one waiting denied_one decided_run
