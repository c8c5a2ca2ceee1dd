-- ===== src/Examples/Notifications.antt =====
-- One push to one phone.
use soffortmcp.Prelude.{◌+◌, ◌<◌, String, none, some, [], ◌∷◌, ◌≡◌, ◌⊎◌, refl, ok}
use soffortmcp.Notifications.{
  ApnsSettings, Notifier, DeliveryResult, Push, Posted, responded, Encoder, send_one, classify,
  reusable, new_token, get_provider_token, ids_of, any_transient, summary, send_approval,
}
use soffortmcp.Notifications.Sending.{IsReport, get_provider_token_age, send_approval-IsReport}
use soffortmcp.Examples.{phone, approval_one}

abbrev sandbox : ApnsSettings
sandbox = record {
  apns_environment = "sandbox";
  apns_key_id = some "k";
  apns_team_id = "m";
  apns_topic = "p";
}

abbrev plain_encoder : Encoder
plain_encoder team now key key_id = "token"

abbrev started : Notifier
started = record { private_key = some "key"; provider_token = none; provider_token_created_at = 0 }

abbrev holding : Notifier
holding = record {
  private_key = some "key";
  provider_token = some "token";
  provider_token_created_at = 5000;
}

abbrev accepting : Push → Posted
accepting push = responded 200 none

token_made : get_provider_token sandbox plain_encoder 5000 started ≡ (ok "token", holding)
unfolding get_provider_token reusable new_token
token_made = refl

get_provider_token_age_example :
    (holding.provider_token ≡ some "token")
    × (5000 < holding.provider_token_created_at + 3000)
    × ((holding ≡ started) ⊎ (holding.provider_token_created_at ≡ 5000))
get_provider_token_age_example =
    get_provider_token_age sandbox plain_encoder 5000 "token" started holding token_made

abbrev delivered : DeliveryResult
delivered = record { accepted_device_ids = "d" ∷ []; invalid_device_ids = [] }

sent :
    send_approval sandbox plain_encoder accepting 5000 approval_one (phone ∷ []) started
    ≡ (ok delivered, holding)
unfolding send_approval get_provider_token reusable new_token summary ids_of any_transient send_one
    classify
sent = refl

send_approval-IsReport_example :
    (token : String) × (holding.provider_token ≡ some token)
    × IsReport sandbox accepting approval_one token (phone ∷ []) delivered
send_approval-IsReport_example =
    send_approval-IsReport sandbox accepting approval_one plain_encoder 5000 (phone ∷ []) started
      holding delivered sent
