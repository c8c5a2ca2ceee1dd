-- ===== src/Models/Correlation.antt =====
-- src/soffortbackend/models.py: partition keys, and principals from claims.
use soffortmcp.Prelude.{
  false, some, ◌∷◌, ◌++◌, ◌≡◌, sym, ◌∙◌, ap, arith, contains, codes, codes-concat, codes-injective,
  split_unique, nat_eq,
}
use soffortmcp.Models.{
  Principal, AccessToken, partition_key, text_claim, claims_of, from_access_token,
}

codes-partition_key :
    (p : Principal) → codes (partition_key p) ≡ codes p.tenant_id ++ b':' ∷ codes p.object_id
unfolding partition_key
codes-partition_key p =
    codes-concat p.tenant_id _ ∙ ap (◌++◌ (codes p.tenant_id)) (codes-concat ":" p.object_id)

-- Principals whose tenant identifiers hold no colon share a partition key only if they have the
-- same tenant and the same object identifier.
pub partition_key-injective :
    (p q : Principal)
    → contains b':' (codes p.tenant_id) ≡ false
    → contains b':' (codes q.tenant_id) ≡ false
    → partition_key p ≡ partition_key q
    → (p.tenant_id ≡ q.tenant_id) × (p.object_id ≡ q.object_id)
partition_key-injective p q hp hq e =
    let parts : (codes p.tenant_id ≡ codes q.tenant_id) × (codes p.object_id ≡ codes q.object_id) =
      split_unique b':' _ _ hp hq
        (sym (codes-partition_key p) ∙ ap codes e ∙ codes-partition_key q) in
    (codes-injective _ _ parts.0, codes-injective _ _ parts.1)

-- A principal is built exactly from a token with three claims that are texts and not empty, and
-- copies them and the client.
pub from_access_token-eq-some :
    (t : AccessToken) (p : Principal)
    → from_access_token t ≡ some p
    → let claims = claims_of t.claims in
      (text_claim claims "tid" ≡ some p.tenant_id)
      × (text_claim claims "oid" ≡ some p.object_id)
      × (text_claim claims "client_kind" ≡ some p.client_kind)
      × (p.client_id ≡ t.client_id)
unfolding from_access_token
from_access_token-eq-some t p h = ground arith
