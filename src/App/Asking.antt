-- ===== src/App/Asking.antt =====
-- The tool `request_properties`, from the access token to the report.
use soffortmcp.Prelude.{
  ℕ, ◌<◌, String, true, false, not, ◌||◌, Option, none, some, List, [], map, ◌≡◌, ◌⊎◌, inl, inr,
  refl, sym, subst, ◌∙◌, ap, arith, All, ◌==◌, string_eq, Bool-cases, is_nonempty, Result, ok, err,
  ok-injective,
}
use soffortmcp.Prelude.Exec.{Outcome, continue-eq-ok, catch, resume}
use soffortmcp.Prelude.Json.{str}
use soffortmcp.Models.{Principal, AccessToken, Approval, from_access_token, is_status}
use soffortmcp.Models
use soffortmcp.Catalog.{parse_property_keys}
use soffortmcp.Catalog.Sound.{IsRequestable, parse_property_keys_iff}
use soffortmcp.DeviceSecurity.{normalize_purpose}
use soffortmcp.Disclosure.{Platform, DisclosedProperty, decrypt}
use soffortmcp.Disclosure.Release.{IsBounded, decrypt_ok}
use soffortmcp.Approval.Service.{
  Service, World, Fresh, Question, request, disclose, on_invalid, pause, await,
}
use soffortmcp.Approval.{request_tool}
use soffortmcp.Approval.Service
use soffortmcp.Approval.Wait.{IsDecided}
use soffortmcp.Approval.Request.{IsRelease, IsPublic, request_properties-Outcome}
use soffortmcp.Tools
use soffortmcp.Tools.{CallToolResult, RequestPropertiesOutput, request_result}
use soffortmcp.App.{vscode_principal, require_vscode, ask, on_approval_error, request_properties}

-- The question that the tool puts to the phone.
abbrev pub question_of : List String → String → Question
question_of properties purpose = record {
  tool_name = request_tool;
  purpose = purpose;
  requested_keys = properties;
  arguments = some (properties, purpose);
}

-- What the tool reports, and whom it was asked by: the approval is the one that the caller's own request
-- came back with, and values are what decrypts at the clock that the decryption reads after it.
pub record IsAnswer {S : Type 0} (service : Service S) (platform : Platform)
    (token : Option AccessToken) (properties : List String) (purpose : String) (fresh : Fresh)
    (w : World S) (report : CallToolResult RequestPropertiesOutput) : Type 0 where
  pub caller : Principal
  pub bearer : (t : AccessToken) × (token ≡ some t) × (from_access_token t ≡ some caller)
  pub editor : caller.client_kind ≡ "vscode"
  pub requestable : IsRequestable properties
  pub normalized : String
  pub normal : normalize_purpose service.unicode (str purpose) ≡ ok normalized
  pub approval : Approval
  pub after : World S
  pub requested :
      request service caller (question_of properties normalized) fresh w ≡ (ok approval, after)
  pub values : List DisclosedProperty
  pub reported : request_result approval values ≡ ok report
  pub decided : IsDecided approval
  pub released :
      (values ≡ [])
      ⊎ ((is_status approval.status Models.approved ≡ true)
          × (map (λ item. item.key) values ≡ approval.approved_keys)
          × All IsBounded values
          × (decrypt platform (pause after).clock approval ≡ ok values)
          × ((pause after).clock < approval.expires_at))

require_vscode_ok :
    (o : Option Principal) (p : Principal)
    → require_vscode o ≡ ok p
    → (o ≡ some p) × (p.client_kind ≡ "vscode")
unfolding Tools.approval_error
require_vscode_ok none p h = absurd (cc h)
require_vscode_ok (some q) p h = elim (Bool-cases (q.client_kind == "vscode")) [
  | inr other ↦ absurd (let never = rw other at h in cc)
  | inl editor ↦
      let same : q ≡ p = ok-injective (rw editor at h) in
      (
        ap some same,
        subst (λ (x : Principal). x.client_kind ≡ "vscode") same
            ((string_eq.beq_iff q.client_kind "vscode").0 editor),
      )
]

vscode_principal_ok :
    (token : Option AccessToken) (p : Principal)
    → vscode_principal token ≡ ok p
    → ((t : AccessToken) × (token ≡ some t) × (from_access_token t ≡ some p))
      × (p.client_kind ≡ "vscode")
unfolding vscode_principal Tools.approval_error
vscode_principal_ok none p h = absurd (cc h)
vscode_principal_ok (some t) p h =
    let (from, editor) = require_vscode_ok (from_access_token t) p h in ((t, refl, from), editor)

IsRequestable-of_parsed :
    (values kept : List String)
    → parse_property_keys values ≡ ok kept
    → IsRequestable values × (kept ≡ values)
IsRequestable-of_parsed values kept h =
    let (accepts, either) = parse_property_keys_iff values in
    elim either [
      | inl accepted ↦ (accepts.0 accepted, ok-injective (sym h ∙ accepted))
      | inr refused ↦ absurd (cc (h, refused))
    ]

module _ {S : Type 0} (service : Service S) (platform : Platform)
    (opens : (at : ℕ) (a : Approval) → service.decrypt at a ≡ decrypt platform at a) where
  uncaught :
      {A : Type 0} (r : Result A) (w : World S) (a : A)
      → (resume r on_approval_error w).0 ≡ ok a
      → r ≡ ok a
  unfolding Tools.approval_error
  uncaught (ok b) w a h = h
  uncaught (err e) w a h = absurd (ground arith)

  valid :
      (r : Result (List DisclosedProperty)) (t : World S) (values : List DisclosedProperty)
      → (resume r (on_invalid service) t).0 ≡ ok values
      → r ≡ ok values
  valid (ok l) t values h = h
  valid (err e) t values h = absurd (ground arith)

  released_by :
      (caller : Principal) (requested : List String) (purpose : String) (fresh : Fresh)
      (w : World S) (answer : Approval × List DisclosedProperty)
      → (Service.request_properties service caller requested purpose fresh w).0 ≡ ok answer
      → IsRelease service answer
  released_by caller requested purpose fresh w answer h =
      subst (Outcome (IsRelease service) IsPublic) h
        (request_properties-Outcome service caller requested purpose fresh w)

  -- What `disclose` returns: the approval itself, without values or with those that it decrypts.
  disclosed :
      (approval : Approval) (t : World S) (answer : Approval × List DisclosedProperty)
      → (disclose service approval t).0 ≡ ok answer
      → (approval ≡ answer.0)
        × ((answer.1 ≡ [])
            ⊎ ((is_status approval.status Models.denied ≡ false)
                × (service.decrypt (pause t).clock approval ≡ ok answer.1)))
  unfolding disclose await
  disclosed approval t answer h =
      elim (Bool-cases
        (is_status approval.status Models.denied || not (is_nonempty approval.approved_keys))) [
          | inl e ↦
              let same : (approval, []) ≡ answer = ok-injective (rw e at h) in
              (
                ap (λ (p : Approval × List DisclosedProperty). p.0) same,
                inl (ap (λ (p : Approval × List DisclosedProperty). p.1) (sym same)),
              )
          | inr e ↦
              let (values, caught, last) =
                continue-eq-ok
                  (catch (await (λ at s. (service.decrypt at approval, s))) (on_invalid service)
                    t).0
                  _ _ (rw e at h) in
              let same : (approval, values) ≡ answer = ok-injective last in
              (
                ap (λ (p : Approval × List DisclosedProperty). p.0) same,
                inr (
                  ground arith,
                  valid (service.decrypt (pause t).clock approval) _ values caught
                      ∙ ap (λ (p : Approval × List DisclosedProperty). ok p.1) same,
                ),
              )
        ]

  opened :
      (approval : Approval) (values : List DisclosedProperty) (at : ℕ)
      → IsDecided approval
      → (is_status approval.status Models.denied ≡ false)
      → service.decrypt at approval ≡ ok values
      → (is_status approval.status Models.approved ≡ true)
        × (map (λ item. item.key) values ≡ approval.approved_keys)
        × All IsBounded values
        × (decrypt platform at approval ≡ ok values)
        × (at < approval.expires_at)
  opened approval values at decided open_ decrypted =
      let by_disclosure = sym (opens at approval) ∙ decrypted in
      let (keys, bounded, live) = decrypt_ok platform at approval values by_disclosure in
      (
        elim decided [ inl accepted ↦ accepted | inr refused ↦ absurd (cc (refused, open_)) ],
        keys,
        bounded,
        by_disclosure,
        live,
      )

  -- The approval that the caller's request came back with, and what was released of it.
  asked_and_disclosed :
      (caller : Principal) (properties : List String) (purpose : String) (fresh : Fresh)
      (w : World S) (answer : Approval × List DisclosedProperty)
      → (Service.request_properties service caller properties purpose fresh w).0 ≡ ok answer
      → (after : World S) × (request service caller (question_of properties purpose) fresh w
          ≡ (ok answer.0, after))
        × ((answer.1 ≡ [])
            ⊎ ((is_status answer.0.status Models.denied ≡ false)
                × (service.decrypt (pause after).clock answer.0 ≡ ok answer.1)))
  unfolding Service.request_properties
  asked_and_disclosed caller properties purpose fresh w answer h =
      let r = request service caller (question_of properties purpose) fresh w in
      let (approval, got, rest) = continue-eq-ok r.0 (disclose service) r.1 h in
      let (same, release) = disclosed approval r.1 answer rest in
      (
        r.1,
        ap (λ x. (x, r.1)) (got ∙ ap ok same),
        subst
            (λ (x : Approval).
              (answer.1 ≡ [])
              ⊎ ((is_status x.status Models.denied ≡ false)
                  × (service.decrypt (pause r.1).clock x ≡ ok answer.1)))
            same release,
      )

  -- Over a service that decrypts by `decrypt`, the tool reports only to a bearer whose token says that
  -- it is an editor's, for 1 to 100 distinct handles, and only the decided approval that the request of
  -- this caller for these handles came back with: without values, or with bounded values for exactly the
  -- approved keys in order, which are what `decrypt` gives at the clock read after the request, before
  -- the approval's expiry.
  pub request_properties-IsAnswer :
      (token : Option AccessToken) (properties : List String) (purpose : String) (fresh : Fresh)
      (report : CallToolResult RequestPropertiesOutput) (w : World S)
      → (request_properties service token properties purpose fresh w).0 ≡ ok report
      → IsAnswer service platform token properties purpose fresh w report
  unfolding request_properties
  request_properties-IsAnswer token properties purpose fresh report w h =
      let (requested, parsed, h1) = continue-eq-ok (parse_property_keys properties) _ w h in
      let (normalized, normal, h2) =
        continue-eq-ok (normalize_purpose service.unicode (str purpose)) _ w h1 in
      let asked = ask service token requested normalized fresh w in
      let (answer, caught, reported) =
        continue-eq-ok (catch (ask service token requested normalized fresh) on_approval_error w).0
          _ _ h2 in
      let (caller, bearer, released) =
        continue-eq-ok (vscode_principal token) _ w (uncaught asked.0 asked.1 answer caught) in
      let (held, editor) = vscode_principal_ok token caller bearer in
      let (requestable, kept) = IsRequestable-of_parsed properties requested parsed in
      let (after, came_back, release) =
        asked_and_disclosed caller requested normalized fresh w answer released in
      let decided = (released_by caller requested normalized fresh w answer released).decided in
      record {
        caller = caller;
        bearer = held;
        editor = editor;
        requestable = requestable;
        normalized = normalized;
        normal = normal;
        approval = answer.0;
        after = after;
        requested =
            subst
              (λ l.
                request service caller (question_of l normalized) fresh w ≡ (ok answer.0, after))
              kept came_back;
        values = answer.1;
        reported = reported;
        decided = decided;
        released = elim release [
          | inl none_ ↦ inl none_
          | inr (open_, decrypted) ↦
              inr (opened answer.0 answer.1 (pause after).clock decided open_ decrypted)
        ];
      }
