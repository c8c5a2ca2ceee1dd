-- ===== src/Examples/App.antt =====
-- The application: a start that fails half way, and a request that the phone denies.
use soffortmcp.Prelude.{
  ℕ, none, some, [], ◌∷◌, ◌≡◌, refl, Result, ok, err, other_error, lookup, insert, string_eq,
  key_eq, is_prefix, after_prefix, all, any, has_duplicates, set_of, contains, insert_all, filter,
}
use soffortmcp.Prelude.Decimal.{decimal, decimal_digits, digit}
use soffortmcp.Models.{from_access_token, text_claim, partition_key, with_etag}
use soffortmcp.Catalog.{parse_property_keys, matches_property_key, is_clean_label}
use soffortmcp.DeviceSecurity.{normalize_purpose}
use soffortmcp.Store.Memory.{
  Memory, empty, list_active_devices, get_approval, create_approval, decide_approval, write_version,
  apply_decision,
}
use soffortmcp.Approval.Service.{
  World, await, pause, interleave, request, require_devices, new_approval, persist, or_unavailable,
  notify_and_wait, disable_all, wait_for_decision, wait_loop, on_current, disclose,
}
use soffortmcp.Approval.Service
use soffortmcp.Tools.{
  CallToolResult, RequestPropertiesOutput, request_result, request_status, request_summary,
  values_by_key, property_outputs,
}
use soffortmcp.App.{
  Adapter, verifier, store, push, Adapters, lifespan, nothing_started, vscode_principal,
  request_properties,
}
use soffortmcp.App.Closing.{closes, lifespan-closes}
use soffortmcp.App.Asking.{IsAnswer, request_properties-IsAnswer}
use soffortmcp.Examples.{key_one, phone}
use soffortmcp.Examples.Store.{no_decision}
use soffortmcp.Examples.Disclosure.{plain_platform}
use soffortmcp.Examples.Devices.{token_one}
use soffortmcp.Examples.Approval.{memory_service, fresh_one}

abbrev start_until_push : Adapter → Result (Unit {0})
start_until_push push = err other_error
start_until_push _ = ok tt

abbrev close_but_verifier : Adapter → Result (Unit {0})
close_but_verifier verifier = err other_error
close_but_verifier _ = ok tt

abbrev half_started : Adapters
half_started = record { start = start_until_push; close = close_but_verifier }

lifespan-closes_example :
    closes (lifespan half_started (ok tt) nothing_started).1.events ≡ store ∷ []
lifespan-closes_example = lifespan-closes half_started (ok tt)

abbrev idle : Memory → Memory × ℕ
idle s = (s, 0)

-- The phone denies whatever is asked for under the identifier "b".
abbrev denies : Memory → Memory × ℕ
denies s = elim (lookup ("t:o", "b") s.approvals) [
  | none ↦ (s, 0)
  | some a ↦ ((decide_approval 10 a no_decision s).1, 0)
]

abbrev linked : World Memory
linked = record {
  state = record empty { devices = (("t:o", "d"), phone) ∷ [] };
  clock = 10;
  others = idle ∷ idle ∷ idle ∷ idle ∷ denies ∷ [];
}

abbrev denial : CallToolResult RequestPropertiesOutput
denial = record {
  text = "The user denied the request.";
  structured_content = record {
    status = "denied";
    properties = [];
    denied_properties = [];
    unavailable_properties = [];
  };
}

denied_run :
    (request_properties memory_service (some token_one) (key_one ∷ []) "p" fresh_one linked).0
    ≡ ok denial
unfolding request_properties parse_property_keys all matches_property_key is_prefix after_prefix
    has_duplicates set_of contains normalize_purpose is_clean_label any vscode_principal
    from_access_token text_claim lookup Service.request_properties request require_devices await
    pause interleave new_approval persist or_unavailable notify_and_wait disable_all
    wait_for_decision wait_loop on_current Service.on_latest disclose Service.after_deadline
    Service.sleep partition_key insert insert_all values_by_key property_outputs request_result
    request_status request_summary decimal decimal_digits digit list_active_devices filter
    create_approval get_approval decide_approval write_version apply_decision with_etag
denied_run = refl

request_properties-IsAnswer_example :
    IsAnswer memory_service plain_platform
      (some token_one)
      (key_one ∷ [])
      "p"
      fresh_one
      linked
      denial
request_properties-IsAnswer_example =
    request_properties-IsAnswer memory_service plain_platform (λ at a. refl) (some token_one)
      (key_one ∷ []) "p" fresh_one denial linked denied_run
