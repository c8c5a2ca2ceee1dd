-- ===== src/Auth/Verifier/Claims.antt =====
-- Where the claims of an accepted access token come from, and what it says.
use soffortmcp.Prelude.{
  ◌≤◌, String, false, Option, none, some, ◌≡◌, inl, inr, refl, ap, ◌∙◌, arith, ◌==◌, string_eq, len,
  Bool-cases, Result, ok, err,
}
use soffortmcp.Prelude.Exec.{resume, continue-eq-ok}
use soffortmcp.Models.{AccessToken}
use soffortmcp.Settings.{Settings}
use soffortmcp.Store.Conversions.{Python, Document}
use soffortmcp.Auth.Jwks.{JwksCache, Client, Limits}
use soffortmcp.Auth.Jwks
use soffortmcp.Auth.Verifier.{
  Jwt, max_token_length, is_malformed, header_kid, decode_options, decode_under, decode_with,
  reject_token, verified_claims, accept_found, verify_token,
}
use soffortmcp.Approval.Service.{World}
use soffortmcp.Auth.Verifier.Granted.{IsGranted, accept-IsGranted}

-- The claims come from a key that the cache handed out for the token's header.
pub record IsSigned {K : Type 0} (client : Client K) (limits : Limits) (jwt : Jwt K)
    (settings : Settings) (token : String) (w : World (JwksCache K)) (claims : Document)
    : Type 0 where
  pub header : Document
  pub key_id : String
  pub key : K
  pub after : World (JwksCache K)
  pub read : jwt.get_unverified_header token ≡ ok header
  pub named : header_kid header ≡ some key_id
  pub held : Jwks.get_key client limits key_id w ≡ (ok (some key), after)
  pub valid : jwt.decode token key (decode_options settings) after.clock ≡ ok claims

module _ {K : Type 0} (client : Client K) (limits : Limits) (jwt : Jwt K)
    (settings : Settings) where
  decode_under-ok :
      (token : String) (key : Option K) (w : World (JwksCache K)) (claims : Document)
      → (decode_under client limits jwt settings token key w).0 ≡ ok (some claims)
      → (k : K) × (key ≡ some k)
        × (jwt.decode token k (decode_options settings) w.clock ≡ ok claims)
  decode_under-ok token none w claims h = absurd (cc h)
  decode_under-ok token (some k) w claims h =
      let (found, valid, rest) =
        continue-eq-ok (jwt.decode token k (decode_options settings) w.clock) _ w h in
      let same : found ≡ claims = cc in (k, refl, valid ∙ ap ok same)

  decode_with-IsSigned :
      (token : String) (header : Document) (kid : Option String) (w : World (JwksCache K))
      (claims : Document)
      → jwt.get_unverified_header token ≡ ok header
      → header_kid header ≡ kid
      → (decode_with client limits jwt settings token kid w).0 ≡ ok (some claims)
      → IsSigned client limits jwt settings token w claims
  decode_with-IsSigned token header none w claims read named h = absurd (cc h)
  decode_with-IsSigned token header (some key_id) w claims read named h =
      let got = Jwks.get_key client limits key_id w in
      let (key, held, under) = continue-eq-ok got.0 _ got.1 h in
      let (k, is_key, valid) = decode_under-ok token key got.1 claims under in
      record {
        header = header;
        key_id = key_id;
        key = k;
        after = got.1;
        read = read;
        named = named;
        held = ap (λ r. (r, got.1)) (held ∙ ap ok is_key);
        valid = valid;
      }

  uncaught :
      (r : Result (Option Document)) (w : World (JwksCache K)) (claims : Document)
      → (resume r (reject_token client limits jwt settings) w).0 ≡ ok (some claims)
      → r ≡ ok (some claims)
  uncaught (ok found) w claims h = h
  uncaught (err e) w claims h = absurd (ground arith)

  verified_claims-IsSigned :
      (token : String) (w : World (JwksCache K)) (claims : Document)
      → (verified_claims client limits jwt settings token w).0 ≡ ok (some claims)
      → IsSigned client limits jwt settings token w claims
  unfolding verified_claims
  verified_claims-IsSigned token w claims h =
      let (header, read, rest) =
        continue-eq-ok (jwt.get_unverified_header token) _ w (uncaught _ _ claims h) in
      decode_with-IsSigned token header (header_kid header) w claims read refl rest

  accept_found-IsGranted :
      (p : Python) (token : String) (found : Option Document) (a : AccessToken)
      → (settings.entra_tenant_id == "") ≡ false
      → accept_found client limits jwt settings p token found ≡ ok (some a)
      → (claims : Document) × (found ≡ some claims)
        × IsGranted p client.is_space settings claims token a
  accept_found-IsGranted p token none a tenant h = absurd (cc h)
  accept_found-IsGranted p token (some claims) a tenant h =
      (claims, refl, accept-IsGranted p client.is_space settings token claims a tenant h)

-- A token is accepted only with claims that a cached key of the issuer verifies, for the configured
-- tenant and one of the two clients; the access token carries the client kind and the account that a
-- principal is built from, and each of its scopes is one of the claim or stands for one. The tenant
-- that is configured must not be the empty text.
pub verify_token-IsGranted :
    {K : Type 0} (client : Client K) (limits : Limits) (jwt : Jwt K) (settings : Settings)
    (p : Python) (token : String) (a : AccessToken) (w t : World (JwksCache K))
    → (settings.entra_tenant_id == "") ≡ false
    → verify_token client limits jwt settings p token w ≡ (ok (some a), t)
    → (len token ≤ max_token_length)
      × (claims : Document) × IsSigned client limits jwt settings token w claims
      × IsGranted p client.is_space settings claims token a
unfolding verify_token is_malformed
verify_token-IsGranted {K = K} client limits jwt settings p token a w t tenant h =
    elim (Bool-cases (is_malformed token)) [
      | inl e ↦ absurd (let never = rw e at h in cc)
      | inr e ↦
          let ran = verified_claims client limits jwt settings token w in
          let answered =
            ap (λ (r : Result (Option AccessToken) × World (JwksCache K)). r.0) (rw e at h) in
          let (found, verified, accepted) = continue-eq-ok ran.0 _ ran.1 answered in
          let (claims, some_claims, granted) =
            accept_found-IsGranted client limits jwt settings p token found a tenant accepted in
          (
            ground arith,
            claims,
            verified_claims-IsSigned client limits jwt settings token w claims
                (verified ∙ ap ok some_claims),
            granted,
          )
    ]
