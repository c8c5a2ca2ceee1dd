-- ===== src/MobileApi/Server.antt =====
-- The routes as the server has them: each runs its operation under `_execute`.
use soffortmcp.Prelude.{ℕ, String, Option, List, ◌≡◌, ◌⊎◌, Result}
use soffortmcp.Prelude.Exec.{Exec, pure, ◌>>=◌, ◌>>◌}
use soffortmcp.Models.{Principal, AccessToken, EnrollmentChallenge, Device, PropertyIndex, Approval}
use soffortmcp.Catalog.{Unicode}
use soffortmcp.DeviceSecurity.{Crypto}
use soffortmcp.Approval.Service.{Service, World}
use soffortmcp.MobileApi.{
  Body, MobileSettings, EnrollmentStore, Response, problem, respond, execute, put_device,
}
use soffortmcp.MobileApi.Routes.{
  RouteStore, create_challenge_route, delete_device_route, put_property_index_route,
  list_approvals_route, get_approval_route,
}
use soffortmcp.MobileApi.Deciding.{decide_route}
use soffortmcp.MobileApi.Guard.{IsPhone, IsRefusal, execute_cases}

-- What `register_mobile_api` is called with.
pub record Api (S : Type 0) : Type 0 where
  pub settings : MobileSettings
  pub crypto : Crypto
  pub unicode : Unicode
  pub enrollment : EnrollmentStore S
  pub store : RouteStore S
  pub approvals : Service S

-- The routes by path and method, with the identifier in the path, what `_read_object` returns or raises,
-- and for a challenge the identifier and the nonce that are drawn.
pub data Route : Type 0 where
  challenges_post : String → String → Route
  device_put : String → Result Body → Route
  device_delete : String → Route
  property_index_put : Result Body → Route
  approvals_get : Route
  approval_get : String → Route
  decisions_post : String → Result Body → Route

-- The records that the answers are written from.
pub data Answered : Type 0 where
  challenge : EnrollmentChallenge → Answered
  linked : Device → Answered
  deleted : Answered
  index : PropertyIndex → Answered
  inbox : List Approval → Answered
  detail : Approval → Answered
  decision : Approval → Answered

module _ {S : Type 0} (api : Api S) where
  -- The inner function `operation` of each route
  unfoldable pub operation : Route → Principal → Exec (World S) Answered
  operation (challenges_post challenge_id nonce) p = do
    c ← create_challenge_route api.store p challenge_id nonce
    pure (challenge c)
  operation (device_put raw_id read) p = do
    device ← put_device api.settings api.crypto api.enrollment p raw_id read
    pure (linked device)
  operation (device_delete raw_id) p = do delete_device_route api.store p raw_id; pure deleted
  operation (property_index_put read) p = do
    i ← put_property_index_route api.store p api.unicode read
    pure (index i)
  operation approvals_get p = do items ← list_approvals_route api.store p; pure (inbox items)
  operation (approval_get raw_id) p = do a ← get_approval_route api.store p raw_id; pure (detail a)
  operation (decisions_post raw_id read) p = do
    a ← decide_route api.approvals p raw_id read
    pure (decision a)

  -- A request to a route, with the token that the middleware found
  unfoldable pub handle : Option AccessToken → Route → Exec (World S) (Response Answered)
  handle token route = execute api.settings token (operation route)

  module _ (token : Option AccessToken) (route : Route) (w : World S) where
    -- The operation of the route ran for this account, and its outcome was answered.
    abbrev pub Serves : Principal → Type 0
    Serves p = handle token route w ≡ (respond (operation route p w).0, (operation route p w).1)

    -- The request was answered by a problem, and nothing else happened.
    abbrev pub Rejects : ℕ → String → Type 0
    Rejects status code =
        handle token route w ≡ (Result.ok (problem (record { status = status; code = code })), w)

    -- A request to any of the seven routes is served exactly if its token is one of the phone application
    -- with the mobile scope, whose claims name an account and the client kind "ios": the operation runs
    -- for that account and its outcome is answered. Any other request is answered by a problem with status
    -- 401 or 403; the operation does not run, and the store and the clock stay as they are.
    pub handle_cases :
        ((p : Principal) × IsPhone api.settings token p × Serves p)
        ⊎ (((p : Principal) → ¬ IsPhone api.settings token p)
            × (status : ℕ) × (code : String) × IsRefusal status
            × Rejects status code)
    unfolding handle
    handle_cases = execute_cases api.settings token (operation route) w
