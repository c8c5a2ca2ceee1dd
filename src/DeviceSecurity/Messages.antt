-- ===== src/DeviceSecurity/Messages.antt =====
-- What a signature binds: different proofs are different bytes.
use soffortmcp.Prelude.{
  ℕ, ◌+◌, false, List, [], ◌∷◌, ◌++◌, ◌≡◌, ◌≢◌, refl, sym, ap, ap₂, arith, All, length, contains,
  nat_eq, codes, codes-injective, join, join-injective, split_unique,
}
use soffortmcp.Prelude.Json.{ℤ, pos, negsuc}
use soffortmcp.Prelude.Encoding.{utf8, utf8_char}
use soffortmcp.Prelude.Decimal.{decimal, decimal-injective, decimal-is_digit, digits_without}
use soffortmcp.DeviceSecurity.{
  Consent, Enrollment, decision_message, enrollment_message, consent_lines, int_text, newline,
}

-- A code point is read off the front of its UTF-8.
utf8_char_split :
    (c d : ℕ) {us vs : List ℕ} → utf8_char c ++ us ≡ utf8_char d ++ vs → (c ≡ d) × (us ≡ vs)
utf8_char_split c d h = ground arith

utf8-ne-nil : (c : ℕ) (s : List ℕ) → utf8 (c ∷ s) ≡ [] → ⊥
unfolding utf8
utf8-ne-nil c s h = ground arith

utf8-injective : (s t : List ℕ) → utf8 s ≡ utf8 t → s ≡ t
unfolding utf8
utf8-injective [] [] h = refl
utf8-injective [] (d ∷ t) h = absurd (utf8-ne-nil d t (sym h))
utf8-injective (c ∷ s) [] h = absurd (utf8-ne-nil c s h)
utf8-injective (c ∷ s) (d ∷ t) h =
    let parts : (c ≡ d) × (utf8 s ≡ utf8 t) = utf8_char_split c d h in
    ap₂ ◌∷◌ parts.0 (utf8-injective s t parts.1)

decimal_no_minus : (m : ℕ) (s : List ℕ) → codes (decimal m) ≡ b'-' ∷ s → ⊥
unfolding contains
decimal_no_minus m s h =
    let absent : contains b'-' (b'-' ∷ s) ≡ false =
      rw h at (digits_without b'-' (codes (decimal m)) refl (decimal-is_digit m)) in
    cc absent

minus_line : (s : List ℕ) → contains newline s ≡ false → contains newline (b'-' ∷ s) ≡ false
unfolding contains
minus_line s h = h

int_text-injective : (m n : ℤ) → int_text m ≡ int_text n → m ≡ n
int_text-injective (pos m) (pos n) h = ap pos (decimal-injective m n (codes-injective _ _ h))
int_text-injective (pos m) (negsuc n) h = absurd (decimal_no_minus m (codes (decimal (n + 1))) h)
int_text-injective (negsuc m) (pos n) h =
    absurd (decimal_no_minus n (codes (decimal (m + 1))) (sym h))
int_text-injective (negsuc m) (negsuc n) h =
    let e : m + 1 ≡ n + 1 = decimal-injective (m + 1) (n + 1) (codes-injective _ _ (cc)) in
    ap negsuc (omega arith)

int_text_line : (n : ℤ) → contains newline (int_text n) ≡ false
int_text_line (pos n) = digits_without newline _ refl (decimal-is_digit n)
int_text_line (negsuc n) = minus_line _ (digits_without newline _ refl (decimal-is_digit (n + 1)))

-- No field holds a line break.
pub record IsOneLine (m : Consent) : Type 0 where
  pub lines : All (λ line. contains newline line ≡ false) (consent_lines m)

lines_injective : (m n : Consent) → consent_lines m ≡ consent_lines n → m ≡ n
lines_injective m n h = ground (
  arith,
  codes-injective m.tenant_id n.tenant_id (cc h),
  codes-injective m.object_id n.object_id (cc h),
  codes-injective m.device_id n.device_id (cc h),
  codes-injective m.approval_id n.approval_id (cc h),
  codes-injective m.nonce n.nonce (cc h),
  codes-injective m.tool_name n.tool_name (cc h),
  codes-injective m.arguments_hash n.arguments_hash (cc h),
  codes-injective m.decision n.decision (cc h),
  codes-injective m.result_hash n.result_hash (cc h),
  int_text-injective m.issued_at n.issued_at (cc h),
)

-- Two consents without line breaks in their fields sign the same bytes only if they agree in every
-- field: the account, the device, the approval with its nonce, tool and arguments, the decision, the
-- result and the time.
pub decision_message-injective :
    (m n : Consent) → IsOneLine m → IsOneLine n → decision_message m ≡ decision_message n → m ≡ n
unfolding decision_message
decision_message-injective m n hm hn h = lines_injective m n (
    join-injective newline (consent_lines m) (consent_lines n) hm.lines hn.lines refl
      (utf8-injective _ _ h))

first_lines_differ : ¬ (codes "soffort-device-enrollment-v1" ≡ codes "soffort-consent-decision-v2")
first_lines_differ h = omega (arith, ap length h)

-- No enrollment proof is a decision proof: their bytes differ whatever the fields are.
pub enrollment-ne-decision :
    (e : Enrollment) (m : Consent) → enrollment_message e ≢ decision_message m
unfolding enrollment_message decision_message join
enrollment-ne-decision e m h =
    first_lines_differ
      (split_unique newline (codes "soffort-device-enrollment-v1")
        (codes "soffort-consent-decision-v2") (unfold contains in refl) (unfold contains in refl)
        (utf8-injective _ _ h)).0
