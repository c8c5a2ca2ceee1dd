-- ===== src/Tools/Results.antt =====
-- What an MCP caller receives, structured and as text.
use mathlib.Core.List.{Nodup}
use soffortmcp.Prelude.{
  ℕ, suc, String, true, ◌||◌, some, List, [], ◌∷◌, map, ◌≡◌, refl, sym, ◌∙◌, ap, ap₂, subst, arith,
  string_eq, length, is_nonempty, lookup, insert_all-All, Dict, Result, ok, err, key_error,
  or_raise, bind-eq-ok, ok-injective, All, All-map, contains, Bool-cases, inl, inr, ◌==◌, eq_iff,
}
use soffortmcp.Models.{Approval, PropertyMetadata, is_status}
use soffortmcp.Models
use soffortmcp.Disclosure.{DisclosedProperty, metadata_by_key}
use soffortmcp.Tools.{
  PropertyValueOutput, RequestPropertiesOutput, CallToolResult, metadata_output, values_by_key,
  property_outputs, request_status, request_summary, request_result,
}

abbrev pub keys_of : List PropertyMetadata → List String
keys_of = map (λ item. item.key)

property_outputs_keys :
    (metadata : Dict String PropertyMetadata) (by_key : Dict String String) (keys : List String)
    (out : List PropertyValueOutput)
    → property_outputs metadata by_key keys ≡ ok out
    → length out ≡ length keys
unfolding property_outputs
property_outputs_keys metadata by_key [] out h = let e : out ≡ [] = cc in rw e refl
property_outputs_keys metadata by_key (key ∷ keys) out h =
    let (item, _, r1) = bind-eq-ok (or_raise (lookup key metadata) key_error) _ h in
    let (value, _, r2) = bind-eq-ok (or_raise (lookup key by_key) key_error) _ r1 in
    let (rest, more, last) = bind-eq-ok (property_outputs metadata by_key keys) _ r2 in
    let e : record { metadata = metadata_output item; value = value } ∷ rest ≡ out = cc last in
    rw (← e) (ap suc (property_outputs_keys metadata by_key keys rest more))

status_of_length :
    (status : Models.ApprovalStatus) (xs ys : List PropertyValueOutput)
    (denied unavailable : List String)
    → length xs ≡ length ys
    → request_status status xs denied unavailable ≡ request_status status ys denied unavailable
unfolding request_status
status_of_length status [] [] denied unavailable h = refl
status_of_length status [] (y ∷ ys) denied unavailable h = absurd (omega arith)
status_of_length status (x ∷ xs) [] denied unavailable h = absurd (omega arith)
status_of_length status (x ∷ xs) (y ∷ ys) denied unavailable h = refl

text_of : Result (CallToolResult RequestPropertiesOutput) → Result String
text_of (ok r) = ok r.text
text_of (err e) = err e

-- The text of a result does not depend on the disclosed values: any two sets of values that an
-- approval can be answered with give the same text.
pub request_result_text :
    (a : Approval) (values values' : List DisclosedProperty)
    (r r' : CallToolResult RequestPropertiesOutput)
    → request_result a values ≡ ok r
    → request_result a values' ≡ ok r'
    → r.text ≡ r'.text
unfolding request_result text_of
request_result_text a values values' r r' h h' =
    let (xs, made, h1) =
      bind-eq-ok
        (property_outputs (metadata_by_key a.property_metadata) (values_by_key values)
          a.approved_keys)
        _ h in
    let (ys, made', h1') =
      bind-eq-ok
        (property_outputs (metadata_by_key a.property_metadata) (values_by_key values')
          a.approved_keys)
        _ h' in
    let (s, said, h2) =
      bind-eq-ok
        (request_summary (request_status a.status xs a.denied_keys a.unavailable_keys) (length xs))
        _ h1 in
    let (t, said', h2') =
      bind-eq-ok
        (request_summary (request_status a.status ys a.denied_keys a.unavailable_keys) (length ys))
        _ h1' in
    let same : length xs ≡ length ys =
      property_outputs_keys _ _ a.approved_keys xs made
      ∙ sym (property_outputs_keys _ _ a.approved_keys ys made') in
    let same_text : ◌≡◌ {A = Result String} (ok s) (ok t) =
      sym said
      ∙ ap₂ request_summary (status_of_length a.status xs ys a.denied_keys a.unavailable_keys same)
          same
      ∙ said' in
    ok-injective (sym (ap text_of h2) ∙ same_text ∙ ap text_of h2')

abbrev pub pair_of : DisclosedProperty → String × String
pair_of v = (v.key, v.value)

-- The key and the value of an output.
abbrev pub pair_of_output : PropertyValueOutput → String × String
pair_of_output p = (p.metadata.key, p.value)

abbrev described_pair : PropertyMetadata → String × PropertyMetadata
described_pair item = (item.key, item)

-- A described key has its own entry in the dictionary.
described :
    (l : List PropertyMetadata) (metadata : Dict String PropertyMetadata) (key : String)
    → All {A = String × PropertyMetadata}
        (λ p. lookup p.0 metadata ≡ some p.1)
        (map described_pair l)
    → contains key (keys_of l) ≡ true
    → (item : PropertyMetadata) × (item.key ≡ key) × (lookup key metadata ≡ some item)
unfolding contains
described [] metadata key found h = absurd (cc h)
described (item ∷ l) metadata key found h = elim (Bool-cases (item.key == key)) [
  | inl e ↦
      let same : item.key ≡ key = (eq_iff item.key key).0 e in
      (item, same, ap (λ k. lookup k metadata) (sym same) ∙ found.0)
  | inr e ↦ described l metadata key found.1 (rw e at h)
]

outputs_pairs :
    (metadata : Dict String PropertyMetadata) (by_key : Dict String String)
    (values : List DisclosedProperty)
    → All (λ v. lookup v.key by_key ≡ some v.value) values
    → All
        (λ v. (item : PropertyMetadata) × (item.key ≡ v.key) × (lookup v.key metadata ≡ some item))
        values
    → (out : List PropertyValueOutput) × (property_outputs metadata by_key (map (λ v. v.key) values)
        ≡ ok out)
      × (map pair_of_output out ≡ map pair_of values)
unfolding property_outputs
outputs_pairs metadata by_key [] found known = ([], refl, refl)
outputs_pairs metadata by_key (v ∷ values) found known =
    let (item, same, known_item) = known.0 in
    let (out, made, pairs) = outputs_pairs metadata by_key values found.1 known.1 in
    (
      record { metadata = metadata_output item; value = v.value } ∷ out,
      rw (known_item, found.0, made) refl,
      ap₂ ◌∷◌ (ap (λ k. (k, v.value)) same) pairs,
    )

summary_total :
    (status : Models.ApprovalStatus) (n : ℕ) (properties : List PropertyValueOutput)
    (denied unavailable : List String)
    → (text : String) × (request_summary (request_status status properties denied unavailable) n
        ≡ ok text)
unfolding request_summary request_status lookup
summary_total status n properties denied unavailable =
    elim (Bool-cases (is_status status Models.denied)) [
      | inl e ↦ rw e (_, refl)
      | inr e ↦ elim (Bool-cases (is_nonempty properties)) [
        | inr e' ↦ rw (e, e') (_, refl)
        | inl e' ↦ elim (Bool-cases (is_nonempty denied || is_nonempty unavailable)) [
          | inl e'' ↦ rw (e, e', e'') (_, refl)
          | inr e'' ↦ rw (e, e', e'') (_, refl)
        ]
      ]
    ]

All-of_map {ℓ κ μ} :
    {A : Type ℓ} {B : Type κ} (f : A → B) (P : B → Type μ) (l : List A)
    → All P (map f l)
    → All (λ a. P (f a)) l
All-of_map f P [] h = tt
All-of_map f P (a ∷ l) h = (h.0, All-of_map f P l h.1)

firsts {ℓ κ μ} :
    {A : Type ℓ} {K : Type κ} {V : Type μ} (k : A → K) (v : A → V) (l : List A)
    → map (λ (p : K × V). p.0) (map (λ a. (k a, v a)) l) ≡ map k l
firsts k v [] = refl
firsts k v (a ∷ l) = ap (◌∷◌ (k a)) (firsts k v l)

metadata-of_All :
    (l : List PropertyMetadata) (values : List DisclosedProperty)
    → Nodup (keys_of l)
    → All (λ v. contains v.key (keys_of l) ≡ true) values
    → All
        (λ v.
          (item : PropertyMetadata) × (item.key ≡ v.key)
          × (lookup v.key (metadata_by_key l) ≡ some item))
        values
unfolding metadata_by_key
metadata-of_All l values d h =
    All-map
      (λ v. described l _ v.key (
        insert_all-All (map described_pair l) []
          (subst Nodup (sym (firsts (λ item. item.key) (λ item. item) l)) d)))
      values h

-- A disclosure that has one value for each approved property, in their order, is reported whole: if
-- the approved keys are distinct and each has metadata, and the metadata have distinct keys, then
-- `request_result` returns, with these keys and values in this order.
pub request_result_values :
    (a : Approval) (values : List DisclosedProperty)
    → map (λ v. v.key) values ≡ a.approved_keys
    → Nodup (map (λ v. v.key) values)
    → Nodup (keys_of a.property_metadata)
    → All (λ v. contains v.key (keys_of a.property_metadata) ≡ true) values
    → (r : CallToolResult RequestPropertiesOutput) × (request_result a values ≡ ok r)
      × (map pair_of_output r.structured_content.properties ≡ map pair_of values)
unfolding request_result values_by_key
request_result_values a values same d dm known =
    let found = All-of_map pair_of _ values (
      insert_all-All (map pair_of values) []
        (subst Nodup (sym (firsts (λ v. v.key) (λ v. v.value) values)) d)) in
    let (out, made, pairs) =
      outputs_pairs (metadata_by_key a.property_metadata) (values_by_key values) values found
        (metadata-of_All a.property_metadata values dm known) in
    let (text, said) = summary_total a.status (length out) out a.denied_keys a.unavailable_keys in
    (
      record {
        text = text;
        structured_content = record {
          status = request_status a.status out a.denied_keys a.unavailable_keys;
          properties = out;
          denied_properties = a.denied_keys;
          unavailable_properties = a.unavailable_keys;
        };
      },
      rw (← same, made, said) refl,
      pairs,
    )
