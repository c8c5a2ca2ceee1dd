-- ===== src/MobileApi/Guard.antt =====
-- `_execute` and `_require_mobile_principal`: whose requests the routes serve.
use soffortmcp.Prelude.{
  ℕ, String, true, Option, none, some, ◌≡◌, ◌⊎◌, inl, inr, refl, sym, ◌∙◌, ◌==◌, string_eq, eq_iff,
  contains, Result, ok, err, http_error, guard, guard_ok, bind-eq-ok, ok-injective, Bool-cases,
}
use soffortmcp.Prelude.Exec.{Exec}
use soffortmcp.Models.{Principal, AccessToken, from_access_token}
use soffortmcp.MobileApi.{
  MobileSettings, problem, respond, execute, ios_principal, require_mobile_principal,
}

ios_principal_ok :
    (o : Option Principal) (p : Principal)
    → ios_principal o ≡ ok p
    → (o ≡ some p) × (p.client_kind ≡ "ios")
unfolding ios_principal
ios_principal_ok none p h = absurd (cc h)
ios_principal_ok (some q) p h = elim (Bool-cases (q.client_kind == "ios")) [
  | inr e ↦ absurd (let refused = rw e at h in cc)
  | inl e ↦
      let same : q ≡ p = ok-injective (rw e at h) in
      rw (← same) (refl, (eq_iff q.client_kind "ios").0 e)
]

-- A token of the phone application with the mobile scope, whose claims name this account and the client
-- kind "ios".
pub record IsPhone (settings : MobileSettings) (found : Option AccessToken) (p : Principal)
    : Type 0 where
  pub token : AccessToken
  pub held : found ≡ some token
  pub application : token.client_id ≡ settings.entra_ios_client_id
  pub scope : contains settings.mobile_scope_uri token.scopes ≡ true
  pub account : from_access_token token ≡ some p
  pub kind : p.client_kind ≡ "ios"

require_mobile_principal_ok :
    (settings : MobileSettings) (found : Option AccessToken) (p : Principal)
    → require_mobile_principal settings found ≡ ok p
    → IsPhone settings found p
unfolding require_mobile_principal
require_mobile_principal_ok settings none p h = absurd (cc h)
require_mobile_principal_ok settings (some token) p h =
    let (_, client, r1) =
      bind-eq-ok
        (guard (token.client_id == settings.entra_ios_client_id)
          (http_error 403 "unauthorized_client"))
        _ h in
    let (_, scope, r2) =
      bind-eq-ok
        (guard (contains settings.mobile_scope_uri token.scopes)
          (http_error 403 "insufficient_scope"))
        _ r1 in
    let (from, ios) = ios_principal_ok (from_access_token token) p r2 in
    record {
      token = token;
      held = refl;
      application = (eq_iff token.client_id settings.entra_ios_client_id).0 (guard_ok _ _ client);
      scope = guard_ok _ _ scope;
      account = from;
      kind = ios;
    }

phone_ok :
    (settings : MobileSettings) (found : Option AccessToken) (p : Principal)
    → IsPhone settings found p
    → require_mobile_principal settings found ≡ ok p
unfolding require_mobile_principal ios_principal
phone_ok settings found p h =
    rw
      (
        h.held,
        (eq_iff h.token.client_id settings.entra_ios_client_id).1 h.application,
        h.scope,
        h.account,
        (eq_iff p.client_kind "ios").1 h.kind,
      )
      refl

-- The refusals of a token.
abbrev pub IsRefusal : ℕ → Type 0
IsRefusal status = (status ≡ 401) ⊎ (status ≡ 403)

abbrev Decided : {A : Type 0} → Result A → Type 0
Decided {A} r =
    ((a : A) × (r ≡ ok a))
    ⊎ ((status : ℕ) × (code : String) × (r ≡ err (http_error status code)) × IsRefusal status)

ios_principal_cases : (o : Option Principal) → Decided (ios_principal o)
unfolding ios_principal
ios_principal_cases none = inr (401, "invalid_token", refl, inl refl)
ios_principal_cases (some q) = elim (Bool-cases (q.client_kind == "ios")) [
  | inl e ↦ rw e (inl (q, refl))
  | inr e ↦ rw e (inr (401, "invalid_token", refl, inl refl))
]

require_mobile_principal_cases :
    (settings : MobileSettings) (found : Option AccessToken)
    → Decided (require_mobile_principal settings found)
unfolding require_mobile_principal
require_mobile_principal_cases settings none = inr (401, "invalid_token", refl, inl refl)
require_mobile_principal_cases settings (some token) =
    elim (Bool-cases (token.client_id == settings.entra_ios_client_id)) [
      | inr e ↦ rw e (inr (403, "unauthorized_client", refl, inr refl))
      | inl e ↦ elim (Bool-cases (contains settings.mobile_scope_uri token.scopes)) [
        | inr s ↦ rw (e, s) (inr (403, "insufficient_scope", refl, inr refl))
        | inl s ↦ rw (e, s) (ios_principal_cases (from_access_token token))
      ]
    ]

module _ {S A : Type 0} (settings : MobileSettings) (found : Option AccessToken)
    (operation : Principal → Exec S A) (w : S) where
  -- The operation ran for this principal, and its outcome was answered.
  abbrev pub Serves : Principal → Type 0
  Serves p = execute settings found operation w ≡ (respond (operation p w).0, (operation p w).1)

  abbrev pub Refuses : ℕ → String → Type 0
  Refuses status code =
      execute settings found operation w
      ≡ (ok (problem (record { status = status; code = code })), w)

  -- Whatever the operation of a route is, `execute` runs it exactly for the account of a token of the
  -- phone application with the mobile scope and the client kind "ios", and answers with its outcome.
  -- Without such a token the operation does not run: the answer is a problem with status 401 or 403
  -- and the state stays as it is.
  pub execute_cases :
      ((p : Principal) × IsPhone settings found p × Serves p)
      ⊎ (((p : Principal) → ¬ IsPhone settings found p)
          × (status : ℕ) × (code : String) × IsRefusal status
          × Refuses status code)
  unfolding execute
  execute_cases = elim (require_mobile_principal_cases settings found) [
    | inl (p, accepted) ↦
        inl (p, require_mobile_principal_ok settings found p accepted, rw accepted refl)
    | inr (status, code, refused, among) ↦ inr (
      (λ p phone. let both = sym refused ∙ phone_ok settings found p phone in cc),
      status,
      code,
      among,
      rw refused refl,
    )
  ]
