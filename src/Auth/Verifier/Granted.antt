-- ===== src/Auth/Verifier/Granted.antt =====
-- What an accepted access token grants, of its claims.
use soffortmcp.Prelude.{
  ℕ, String, Bool, true, false, some, List, [], ◌∷◌, ◌++◌, ◌≡◌, ◌⊎◌, inl, inr, refl, sym, ap, subst,
  ◌∙◌, arith, ◌==◌, string_eq, lookup, lookup-insert, contains, Bool-cases, Option-cases, ok,
  bind-eq-ok, ok-injective,
}
use soffortmcp.Prelude.Words.{contains-sorted_set}
use soffortmcp.Models.{AccessToken, from_access_token, text_claim, claims_of}
use soffortmcp.Settings.{Settings, canonical_public_url}
use soffortmcp.Store.Conversions.{Python, Document, text_of, int_of, get}
use soffortmcp.Auth.Verifier.{
  text_member, is_member, authorized_party, client_kind_of, scope_of, mcp_scopes, claim_scopes,
  token_of, accept,
}

-- What the token grants, of verified claims.
pub record IsGranted (p : Python) (is_space : ℕ → Bool) (settings : Settings) (claims : Document)
    (token : String) (a : AccessToken) : Type 0 where
  pub kind : String
  pub account : String
  pub tenant : is_member settings.entra_tenant_id (lookup "tid" claims) ≡ true
  pub party : a.client_id ≡ text_of p (authorized_party claims)
  pub client :
      ((a.client_id ≡ settings.entra_ios_client_id) × (kind ≡ "ios"))
      ⊎ ((a.client_id ≡ settings.entra_vscode_client_id) × (kind ≡ "vscode"))
  pub oid : text_member "oid" claims ≡ some account
  pub principal :
      from_access_token a
      ≡ some (record {
        tenant_id = settings.entra_tenant_id;
        object_id = account;
        client_id = a.client_id;
        client_kind = kind;
      })
  pub same_token :
      (a.token ≡ token) × (a.subject ≡ account) × (a.resource ≡ canonical_public_url settings)
  pub scopes :
      (s : String)
      → contains s a.scopes ≡ true
      → (contains s (claim_scopes p is_space settings claims) ≡ true)
        ⊎ ((s ≡ settings.required_scope_uri)
            × (contains settings.required_scope_value (claim_scopes p is_space settings claims)
                ≡ true))
        ⊎ ((s ≡ settings.mobile_scope_uri)
            × (contains settings.mobile_scope_value (claim_scopes p is_space settings claims)
                ≡ true))

some-injective : {a b : String} → some a ≡ some b → a ≡ b
some-injective h = cc

client_kind_lem :
    (settings : Settings) (client kind : String)
    → client_kind_of settings client ≡ some kind
    → ((client ≡ settings.entra_ios_client_id) × (kind ≡ "ios"))
      ⊎ ((client ≡ settings.entra_vscode_client_id) × (kind ≡ "vscode"))
unfolding client_kind_of lookup
client_kind_lem settings client kind h =
    let found =
      sym (
        lookup-insert settings.entra_ios_client_id client "ios"
          ((settings.entra_vscode_client_id, "vscode") ∷ []))
      ∙ h in
    elim (Bool-cases (settings.entra_ios_client_id == client)) [
      | inl e ↦
          let is_ios : some "ios" ≡ some kind = rw e at found in
          inl (
            sym ((string_eq.beq_iff settings.entra_ios_client_id client).0 e),
            some-injective (sym is_ios),
          )
      | inr e ↦ elim (Bool-cases (settings.entra_vscode_client_id == client)) [
        | inl f ↦
            let is_vscode : some "vscode" ≡ some kind = rw (e, f) at found in
            inr (
              sym ((string_eq.beq_iff settings.entra_vscode_client_id client).0 f),
              some-injective (sym is_vscode),
            )
        | inr f ↦ absurd (let never = rw (e, f) at found in cc)
      ]
    ]

contains-scope_of :
    (s value uri : String) (scopes more : List String)
    → contains s (scope_of value uri scopes ++ more) ≡ true
    → ((s ≡ uri) × (contains value scopes ≡ true)) ⊎ (contains s more ≡ true)
unfolding contains
contains-scope_of s value uri scopes more h = elim (Bool-cases (contains value scopes)) [
  | inl e ↦
      let split = rw e at h in
      elim (Bool-cases (uri == s)) [
        | inl same ↦ inl (sym ((string_eq.beq_iff uri s).0 same), e)
        | inr other ↦ inr (ground arith)
      ]
  | inr e ↦ inr (rw e at h)
]

mcp_scopes_lem :
    (settings : Settings) (scopes : List String) (s : String)
    → contains s (mcp_scopes settings scopes) ≡ true
    → (contains s scopes ≡ true)
      ⊎ ((s ≡ settings.required_scope_uri) × (contains settings.required_scope_value scopes ≡ true))
      ⊎ ((s ≡ settings.mobile_scope_uri) × (contains settings.mobile_scope_value scopes ≡ true))
unfolding mcp_scopes
mcp_scopes_lem settings scopes s h =
    let mobile_or_own =
      scope_of settings.mobile_scope_value settings.mobile_scope_uri scopes ++ scopes in
    let all_scopes =
      scope_of settings.required_scope_value settings.required_scope_uri scopes ++ mobile_or_own in
    let listed : contains s all_scopes ≡ true = sym (contains-sorted_set s all_scopes) ∙ h in
    elim (contains-scope_of s settings.required_scope_value settings.required_scope_uri scopes
      mobile_or_own listed) [
        | inl access ↦ inr (inl access)
        | inr more ↦
            elim (contains-scope_of s settings.mobile_scope_value settings.mobile_scope_uri scopes
              scopes more) [ inl mobile ↦ inr (inr mobile) | inr own ↦ inl own ]
      ]

filled : (name s : String) (d : Document) → text_member name d ≡ some s → (s == "") ≡ false
unfolding text_member
filled name s d h = ground arith

kind_filled :
    (settings : Settings) (client kind : String)
    → ((client ≡ settings.entra_ios_client_id) × (kind ≡ "ios"))
      ⊎ ((client ≡ settings.entra_vscode_client_id) × (kind ≡ "vscode"))
    → (kind == "") ≡ false
kind_filled settings client kind (inl (_, e)) = rw e refl
kind_filled settings client kind (inr (_, e)) = rw e refl

principal_of :
    (a : AccessToken) (tenant account kind : String)
    → text_claim (claims_of a.claims) "tid" ≡ some tenant
    → text_claim (claims_of a.claims) "oid" ≡ some account
    → text_claim (claims_of a.claims) "client_kind" ≡ some kind
    → from_access_token a
      ≡ some (record {
        tenant_id = tenant;
        object_id = account;
        client_id = a.client_id;
        client_kind = kind;
      })
unfolding from_access_token
principal_of a tenant account kind tid oid is_kind = ground arith

token_of-IsGranted :
    (p : Python) (is_space : ℕ → Bool) (settings : Settings) (token : String) (claims : Document)
    (a : AccessToken) (kind subject account : String)
    → (settings.entra_tenant_id == "") ≡ false
    → is_member settings.entra_tenant_id (lookup "tid" claims) ≡ true
    → client_kind_of settings (text_of p (authorized_party claims)) ≡ some kind
    → text_member "oid" claims ≡ some account
    → token_of p is_space settings token claims
        (text_of p (authorized_party claims))
        kind
        subject
        account
      ≡ ok a
    → IsGranted p is_space settings claims token a
unfolding token_of text_claim lookup
token_of-IsGranted p is_space settings token claims a kind subject account tenant tid party oid h =
    let (exp, _, h1) = bind-eq-ok (get "exp" claims) _ h in
    let (expires_at, _, made) = bind-eq-ok (int_of p exp) _ h1 in
    let client = client_kind_lem settings (text_of p (authorized_party claims)) kind party in
    subst (IsGranted p is_space settings claims token) (ok-injective made) (record {
      kind = kind;
      account = account;
      tenant = tid;
      party = refl;
      client = client;
      oid = oid;
      principal =
          principal_of _ settings.entra_tenant_id account kind (rw tenant refl)
            (rw (filled "oid" account claims oid) refl)
            (rw (kind_filled settings _ kind client) refl);
      same_token = (refl, refl, refl);
      scopes =
          λ s listed. mcp_scopes_lem settings (claim_scopes p is_space settings claims) s listed;
    })

pub accept-IsGranted :
    (p : Python) (is_space : ℕ → Bool) (settings : Settings) (token : String) (claims : Document)
    (a : AccessToken)
    → (settings.entra_tenant_id == "") ≡ false
    → accept p is_space settings token claims ≡ ok (some a)
    → IsGranted p is_space settings claims token a
unfolding accept
accept-IsGranted p is_space settings token claims a tenant h =
    elim (Bool-cases (is_member settings.entra_tenant_id (lookup "tid" claims))) [
      | inr e ↦ absurd (let never = rw e at h in cc)
      | inl tid ↦
          elim (Option-cases (client_kind_of settings (text_of p (authorized_party claims)))) [
            | inl e ↦ absurd (let never = rw (tid, e) at h in cc)
            | inr (kind, party) ↦ elim (Option-cases (text_member "sub" claims)) [
              | inl e ↦ absurd (let never = rw (tid, party, e) at h in cc)
              | inr (subject, sub) ↦ elim (Option-cases (text_member "oid" claims)) [
                | inl e ↦ absurd (let never = rw (tid, party, sub, e) at h in cc)
                | inr (account, oid) ↦
                    let (made, from, last) =
                      bind-eq-ok
                        (token_of p is_space settings token claims
                          (text_of p (authorized_party claims)) kind subject account)
                        _ (rw (tid, party, sub, oid) at h) in
                    let same : made ≡ a = cc in
                    token_of-IsGranted p is_space settings token claims a kind subject account
                      tenant tid party oid (from ∙ ap ok same)
              ]
            ]
          ]
    ]
