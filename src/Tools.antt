-- ===== src/Tools.antt =====
-- src/soffortbackend/tools.py: the results that an MCP caller receives.
pub mod Results
use soffortmcp.Prelude.{
  ℕ, String, Bool, true, false, ◌||◌, Option, none, some, List, [], ◌∷◌, map, if◌then◌else◌,
  string_eq, length, is_nonempty, concat, lookup, insert_all, Dict, Result, ok, err, key_error,
  tool_error, or_raise, bind,
}
use soffortmcp.Prelude.Decimal.{decimal}
use soffortmcp.Models.{Approval, ApprovalStatus, PropertyMetadata, is_status}
use soffortmcp.Models
use soffortmcp.Disclosure.{DisclosedProperty, metadata_by_key}

infixl 5 ◌>>=◌
abbrev ◌>>=◌ {ℓ κ} : {A : Type ℓ} {B : Type κ} → Result A → (A → Result B) → Result B
◌>>=◌ = bind

pub record PropertyMetadataOutput : Type 0 where
  pub key : String
  pub display_name : String
  pub value_type : String
  pub sensitivity : String

pub record PropertyValueOutput : Type 0 where
  pub metadata : PropertyMetadataOutput
  pub value : String

pub record ListAvailablePropertiesOutput : Type 0 where
  pub status : String
  pub properties : List PropertyMetadataOutput

pub record RequestPropertiesOutput : Type 0 where
  pub status : String
  pub properties : List PropertyValueOutput
  pub denied_properties : List String
  pub unavailable_properties : List String

-- `_result`: the text that user interfaces log, and the structured content.
pub record CallToolResult (A : Type 0) : Type 0 where
  pub text : String
  pub structured_content : A

-- `_metadata`
abbrev pub metadata_output : PropertyMetadata → PropertyMetadataOutput
metadata_output item = record {
  key = item.key;
  display_name = item.display_name;
  value_type = item.value_type;
  sensitivity = item.sensitivity;
}

unfoldable pub list_result : List PropertyMetadata → CallToolResult ListAvailablePropertiesOutput
list_result metadata = record {
  text =
      concat "Found "
        (concat (decimal (length (map metadata_output metadata))) " available vault properties.");
  structured_content = record { status = "available"; properties = map metadata_output metadata };
}

-- {item.key: item.value for item in values}
unfoldable pub values_by_key : List DisclosedProperty → Dict String String
values_by_key values = insert_all (map (λ item. (item.key, item.value)) values) []

-- [PropertyValueOutput(...) for key in approved_keys]
unfoldable pub property_outputs :
    Dict String PropertyMetadata
    → Dict String String
    → List String
    → Result (List PropertyValueOutput)
property_outputs metadata by_key [] = ok []
property_outputs metadata by_key (key ∷ keys) = do
  item ← or_raise (lookup key metadata) key_error
  value ← or_raise (lookup key by_key) key_error
  rest ← property_outputs metadata by_key keys
  ok (record { metadata = metadata_output item; value = value } ∷ rest)

unfoldable pub request_status :
    ApprovalStatus → List PropertyValueOutput → List String → List String → String
request_status status properties denied unavailable =
    if is_status status Models.denied
    then "denied"
    else if is_nonempty properties
    then (if is_nonempty denied || is_nonempty unavailable
        then "partially_approved"
        else "approved")
    else "unavailable"

-- The dictionary of summaries, at a status
unfoldable pub request_summary : String → ℕ → Result String
request_summary status n =
    or_raise
      (lookup status (
        ("approved", concat "The user approved " (concat (decimal n) " requested properties."))
        ∷ (
          "partially_approved",
          concat "The user approved " (concat (decimal n) " of the requested properties."),
        )
        ∷ ("denied", "The user denied the request.")
        ∷ ("unavailable", "None of the requested properties is available in this Concentrey vault.")
        ∷ []))
      key_error

unfoldable pub request_result :
    Approval → List DisclosedProperty → Result (CallToolResult RequestPropertiesOutput)
request_result approval values = do
  properties ←
      property_outputs (metadata_by_key approval.property_metadata) (values_by_key values)
        approval.approved_keys
  let status =
      request_status approval.status properties approval.denied_keys approval.unavailable_keys
  summary ← request_summary status (length properties)
  ok (record {
    text = summary;
    structured_content = record {
      status = status;
      properties = properties;
      denied_properties = approval.denied_keys;
      unavailable_properties = approval.unavailable_keys;
    };
  })

abbrev approval_error_messages : Dict String String
approval_error_messages =
    (
      "phone_not_linked",
      "No iPhone is linked. Open Concentrey and link this iPhone, then try again.",
    )
    ∷ (
      "notifications_unavailable",
      "The Concentrey notification could not be delivered. Open Concentrey, verify notifications are enabled, and try again.",
    )
    ∷ (
      "approval_timed_out",
      "No phone decision was received before the two-minute request expired. Try again.",
    )
    ∷ ("approval_unavailable", "Phone consent is temporarily unavailable. Try again.")
    ∷ ("disclosure_invalid", "The approved disclosure could not be safely verified. Try again.")
    ∷ []

abbrev message_or_default : Option String → String
message_or_default none = "Phone consent failed. Try again."
message_or_default (some text) = text

-- raise ApprovalToolError(...)
unfoldable pub approval_error : {A : Type 0} → String → Result A
approval_error code = err (tool_error (message_or_default (lookup code approval_error_messages)))
