-- ===== src/Disclosure/Release.antt =====
-- The checks of src/soffortbackend/disclosure.py on a decrypted disclosure.
use soffortmcp.Prelude.{
  ℕ, ◌≤◌, ◌<◌, String, true, Option, none, some, List, [], ◌∷◌, ◌++◌, map, ◌≡◌, refl, ap₂, arith,
  ltb, nat_beq, string_eq, nat_eq, codes_eq, length, All, codes, len, lookup, Dict, Result, ok,
  disclosure_error, other_error, subst, bind-eq-ok, guard, reject, or_raise, Option-cases, inl, inr,
}
use soffortmcp.Prelude.Json.{Value}
use soffortmcp.Prelude.Encoding.{utf8}
use soffortmcp.Models.{Approval, PropertyMetadata}
use soffortmcp.DeviceSecurity.{Bytes, split, is_text}
use soffortmcp.Disclosure.{
  Platform, DisclosedProperty, validate_field, validate_fields, validate_plaintext, check_header,
  open_segments, decrypt, is_optional_text, check_payload, metadata_by_key, decode_segment,
  json_object,
}

or_raise_ok {ℓ} :
    {A : Type ℓ} (o : Option A) {a : A} → or_raise o disclosure_error ≡ ok a → o ≡ some a
or_raise_ok none h = cc
or_raise_ok (some b) h = cc

-- A property that may be handed to the caller.
abbrev pub IsBounded : DisclosedProperty → Type 0
IsBounded p = (1 ≤ len p.value) × (len p.value ≤ 4096)

validate_field_ok :
    (by_key : Dict String PropertyMetadata) (key : String) (raw : Value) (item : DisclosedProperty)
    → validate_field by_key key raw ≡ ok item
    → (item.key ≡ key) × IsBounded item
unfolding validate_field
validate_field_ok by_key key raw item h = ground arith

validate_fields_ok :
    (by_key : Dict String PropertyMetadata) (keys : List String) (raws : List Value)
    (items : List DisclosedProperty)
    → validate_fields by_key keys raws ≡ ok items
    → (map (λ p. p.key) items ≡ keys) × All IsBounded items
unfolding validate_fields
validate_fields_ok by_key [] [] items h = let e : items ≡ [] = cc in rw e (refl, tt)
validate_fields_ok by_key [] (raw ∷ raws) items h = absurd (cc h)
validate_fields_ok by_key (key ∷ keys) [] items h = absurd (cc h)
validate_fields_ok by_key (key ∷ keys) (raw ∷ raws) items h =
    let (item, first, rest) = bind-eq-ok (validate_field by_key key raw) _ h in
    let (others, more, last) = bind-eq-ok (validate_fields by_key keys raws) _ rest in
    let (same, bounded) = validate_field_ok by_key key raw item first in
    let (sames, bounds) = validate_fields_ok by_key keys raws others more in
    let e : item ∷ others ≡ items = cc last in rw (← e) (ap₂ ◌∷◌ same sames, (bounded, bounds))

same_expiry : {a b : Bytes} {m n : ℕ} → ◌≡◌ {A = Result (Bytes × ℕ)} (ok (a, m)) (ok (b, n)) → m ≡ n
same_expiry h = cc

module _ (p : Platform) where
  check_payload_ok :
      (approval : Approval) (payload : List (String × Value)) (expires_at : ℕ) (fields : List Value)
      → check_payload p approval payload expires_at ≡ ok fields
      → (request_id : Value) × (decision_id : Value) × (lookup "request_id" payload
          ≡ some request_id)
        × (is_text request_id approval.approval_id ≡ true)
        × (lookup "decision_id" payload ≡ some decision_id)
        × (is_optional_text decision_id approval.decision_id ≡ true)
  unfolding check_payload
  check_payload_ok approval payload expires_at fields h =
      elim (Option-cases (lookup "request_id" payload)) [
        | inl e ↦ absurd (ground arith)
        | inr (request_id, e) ↦ elim (Option-cases (lookup "decision_id" payload)) [
          | inl e' ↦ absurd (ground arith)
          | inr (decision_id, e') ↦ (request_id, decision_id, e, ground arith, e', ground arith)
        ]
      ]

  -- `_validate_plaintext` returns one bounded value for each approved property, in the order of
  -- approval, whatever the payload says.
  validate_plaintext_ok :
      (approval : Approval) (encoded : Bytes) (expires_at : ℕ) (items : List DisclosedProperty)
      → validate_plaintext p approval encoded expires_at ≡ ok items
      → (map (λ item. item.key) items ≡ approval.approved_keys) × All IsBounded items
  unfolding validate_plaintext
  validate_plaintext_ok approval encoded expires_at items h =
      let (payload, _, rest) = bind-eq-ok (json_object p encoded) _ h in
      let (fields, _, last) = bind-eq-ok (check_payload p approval payload expires_at) _ rest in
      validate_fields_ok (metadata_by_key approval.property_metadata) approval.approved_keys fields
        items last

  check_header_times :
      (now : ℕ) (approval : Approval) (header : List (String × Value)) (version : String)
      (expires_at : ℕ)
      → check_header p now approval header ≡ ok (version, expires_at)
      → (now < expires_at) × (expires_at ≤ approval.expires_at)
  unfolding check_header
  check_header_times now approval header version expires_at h = (ground arith, ground arith)

  -- A plaintext is opened only under a header that has not expired and does not outlive the approval.
  open_segments_times :
      (now : ℕ) (approval : Approval) (segments : List (List ℕ)) (plaintext : Bytes)
      (expires_at : ℕ)
      → open_segments p now approval segments ≡ ok (plaintext, expires_at)
      → (now < expires_at) × (expires_at ≤ approval.expires_at)
  unfolding open_segments
  open_segments_times now approval (a ∷ b ∷ c ∷ d ∷ e ∷ []) plaintext expires_at h =
      let (bytes, _, r1) = bind-eq-ok (decode_segment a 4096) _ h in
      let (header, _, r2) = bind-eq-ok (json_object p bytes) _ r1 in
      let ((version, expires), checked, r3) =
        bind-eq-ok (check_header p now approval header) _ r2 in
      let (wrapped, _, r4) = bind-eq-ok (decode_segment b 512) _ r3 in
      let (key, _, r5) = bind-eq-ok (or_raise (p.unwrap version wrapped) other_error) _ r4 in
      let (_, _, r6) = bind-eq-ok (guard (nat_beq (length key) 32) disclosure_error) _ r5 in
      let (iv, _, r7) = bind-eq-ok (decode_segment c 12) _ r6 in
      let (tag, _, r8) = bind-eq-ok (decode_segment e 16) _ r7 in
      let (ciphertext, _, r9) = bind-eq-ok (decode_segment d 65536) _ r8 in
      let (plain, _, last) =
        bind-eq-ok (or_raise (p.aes_gcm key iv (ciphertext ++ tag) (utf8 a)) disclosure_error) _
          r9 in
      let same : expires ≡ expires_at = same_expiry last in
      subst (λ (t : ℕ). (now < t) × (t ≤ approval.expires_at)) same
        (check_header_times now approval header version expires checked)
  open_segments_times now approval _ plaintext expires_at h = absurd (cc h)

  -- A decrypted disclosure has one value of 1 to 4096 characters for each approved property, in the
  -- order of approval, whatever the ciphertext says; and the approval
  -- has not expired at `now`.
  pub decrypt_ok :
      (now : ℕ) (approval : Approval) (items : List DisclosedProperty)
      → decrypt p now approval ≡ ok items
      → (map (λ item. item.key) items ≡ approval.approved_keys)
        × All IsBounded items
        × (now < approval.expires_at)
  unfolding decrypt
  decrypt_ok now approval items h =
      let (compact, _, r1) = bind-eq-ok (or_raise approval.compact_jwe disclosure_error) _ h in
      let (_, _, r2) = bind-eq-ok (reject (ltb 96000 (len compact)) disclosure_error) _ r1 in
      let ((plaintext, expires_at), opened, last) =
        bind-eq-ok (open_segments p now approval (split b'.' (codes compact))) _ r2 in
      let (keys, bounded) = validate_plaintext_ok approval plaintext expires_at items last in
      let (live, within) = open_segments_times now approval _ plaintext expires_at opened in
      (keys, bounded, omega arith)
