-- ===== src/Prelude/Text.antt =====
-- Text as its code points: what Python's `len`, iteration and ASCII patterns see.
use Prim.Native.Char.{code}
use Prim.Native.String.{String}
use Prim.Native.String
use text.Mathlib.TextEquality.{Char-path, eq_iff}
use text.Mathlib.TextLemmas.{nil-append, cons-append}
use mathlib.Core.Bool.{Bool, true, false, ◌&&◌, ◌||◌}
use mathlib.Core.Logic.{◌↔◌}
use mathlib.Core.List.{List, [], ◌∷◌, ◌++◌}
use mathlib.Core.Path.{◌≡◌, refl, ap, ap₂, ◌∙◌}
use native.Mathlib.Omega.{arith}
use Prim.Native.Nat.{ℕ, ◌-◌}
use soffortmcp.Prelude.Tests.{leb, nat_beq, nat_beq_iff, Eq, nat_eq, string_eq, ◌==◌}
use soffortmcp.Prelude.Lists.{length, contains, All}

abbrev pub codes : String → List ℕ
codes String.[] = []
codes (String.◌∷◌ c s) = code c ∷ codes s

-- len(s)
abbrev pub len : String → ℕ
len s = length (codes s)

-- s + t
abbrev pub concat : String → String → String
concat s t = String.◌++◌ s t

pub codes-concat : (s t : String) → codes (concat s t) ≡ codes s ++ codes t
codes-concat String.[] t = ap codes (nil-append t)
codes-concat (String.◌∷◌ c s) t =
    ap codes (cons-append c s t) ∙ ap (◌∷◌ (code c)) (codes-concat s t)

pub codes-injective : (s t : String) → codes s ≡ codes t → s ≡ t
codes-injective String.[] String.[] h = refl
codes-injective String.[] (String.◌∷◌ d t) h = cc
codes-injective (String.◌∷◌ c s) String.[] h = cc
codes-injective (String.◌∷◌ c s) (String.◌∷◌ d t) h =
    ap₂ String.◌∷◌ (Char-path c d (cc)) (codes-injective s t (cc))

-- s.startswith(p), on code points
unfoldable pub is_prefix : List ℕ → List ℕ → Bool
is_prefix [] s = true
is_prefix (c ∷ p) [] = false
is_prefix (c ∷ p) (d ∷ s) = nat_beq c d && is_prefix p s

-- The rest of `s` behind a prefix of the same length as `p`.
unfoldable pub after_prefix : List ℕ → List ℕ → List ℕ
after_prefix [] s = s
after_prefix (c ∷ p) [] = []
after_prefix (c ∷ p) (d ∷ s) = after_prefix p s

abbrev pub in_range : ℕ → ℕ → ℕ → Bool
in_range lo hi c = leb lo c && leb c hi

abbrev pub is_digit : ℕ → Bool
is_digit = in_range b'0' b'9'

abbrev pub is_lower : ℕ → Bool
is_lower = in_range b'a' b'z'

abbrev pub is_upper : ℕ → Bool
is_upper = in_range b'A' b'Z'

-- [A-Za-z0-9_-]
abbrev pub is_word : ℕ → Bool
is_word c = is_upper c || is_lower c || is_digit c || nat_beq c b'_' || nat_beq c b'-'

-- Text without the separator `c` is recovered from what stands before and behind the first `c`.
pub split_unique :
    (c : ℕ) (xs ys : List ℕ) {us vs : List ℕ}
    → contains c xs ≡ false
    → contains c ys ≡ false
    → xs ++ c ∷ us ≡ ys ++ c ∷ vs
    → (xs ≡ ys) × (us ≡ vs)
unfolding contains
split_unique c [] [] p q h = (refl, cc)
split_unique c [] (y ∷ ys) p q h = absurd (ground (arith, nat_beq_iff y c))
split_unique c (x ∷ xs) [] p q h = absurd (ground (arith, nat_beq_iff x c))
split_unique c (x ∷ xs) (y ∷ ys) {us} {vs} p q h =
    let r : (xs ≡ ys) × (us ≡ vs) = split_unique c xs ys (ground arith) (ground arith) (cc) in
    (ap₂ ◌∷◌ (cc) r.0, r.1)

-- sep.join(parts)
unfoldable pub join : ℕ → List (List ℕ) → List ℕ
join c [] = []
join c (p ∷ []) = p
join c (p ∷ q ∷ ps) = p ++ c ∷ join c (q ∷ ps)

-- As many parts, none of which holds the separator, have different joins.
pub join-injective :
    (c : ℕ) (ps qs : List (List ℕ))
    → All (λ p. contains c p ≡ false) ps
    → All (λ q. contains c q ≡ false) qs
    → length ps ≡ length qs
    → join c ps ≡ join c qs
    → ps ≡ qs
unfolding join
join-injective c [] [] hp hq e h = refl
join-injective c [] (q ∷ qs) hp hq e h = absurd (omega arith)
join-injective c (p ∷ ps) [] hp hq e h = absurd (omega arith)
join-injective c (p ∷ []) (q ∷ []) hp hq e h = ap (λ x. x ∷ []) h
join-injective c (p ∷ []) (q ∷ r ∷ qs) hp hq e h = absurd (omega arith)
join-injective c (p ∷ s ∷ ps) (q ∷ []) hp hq e h = absurd (omega arith)
join-injective c (p ∷ s ∷ ps) (q ∷ r ∷ qs) hp hq e h =
    let split : (p ≡ q) × (join c (s ∷ ps) ≡ join c (r ∷ qs)) = split_unique c p q hp.0 hq.0 h in
    ap₂ ◌∷◌ split.0 (join-injective c (s ∷ ps) (r ∷ qs) hp.1 hq.1 (omega arith) split.1)

-- `==` on sequences of numbers.
abbrev pub codes_beq : List ℕ → List ℕ → Bool
codes_beq [] [] = true
codes_beq [] (d ∷ t) = false
codes_beq (c ∷ s) [] = false
codes_beq (c ∷ s) (d ∷ t) = nat_beq c d && codes_beq s t

codes_beq_sound : (s t : List ℕ) → codes_beq s t ≡ true → s ≡ t
codes_beq_sound [] [] h = refl
codes_beq_sound [] (d ∷ t) h = cc
codes_beq_sound (c ∷ s) [] h = cc
codes_beq_sound (c ∷ s) (d ∷ t) h = ground (arith, codes_beq_sound s t)

codes_beq_self : (s : List ℕ) → codes_beq s s ≡ true
codes_beq_self [] = refl
codes_beq_self (c ∷ s) = ground (arith, codes_beq_self s)

pub codes_beq_iff : (s t : List ℕ) → (codes_beq s t ≡ true) ↔ (s ≡ t)
codes_beq_iff s t = (codes_beq_sound s t, λ h. rw h (codes_beq_self t))

instance abbrev pub codes_eq : Eq (List ℕ)
codes_eq = record { beq = codes_beq; beq_iff = codes_beq_iff }

-- `==` on tuples of texts.
abbrev pub texts_beq : List String → List String → Bool
texts_beq [] [] = true
texts_beq [] (t ∷ ts) = false
texts_beq (s ∷ ss) [] = false
texts_beq (s ∷ ss) (t ∷ ts) = s == t && texts_beq ss ts

texts_beq_sound : (s t : List String) → texts_beq s t ≡ true → s ≡ t
texts_beq_sound [] [] h = refl
texts_beq_sound [] (t ∷ ts) h = cc
texts_beq_sound (s ∷ ss) [] h = cc
texts_beq_sound (s ∷ ss) (t ∷ ts) h = ground (arith, eq_iff s t, texts_beq_sound ss ts)

texts_beq_self : (s : List String) → texts_beq s s ≡ true
texts_beq_self [] = refl
texts_beq_self (s ∷ ss) = ground (arith, eq_iff s s, texts_beq_self ss)

pub texts_beq_iff : (s t : List String) → (texts_beq s t ≡ true) ↔ (s ≡ t)
texts_beq_iff s t = (texts_beq_sound s t, λ h. rw h (texts_beq_self t))

instance abbrev pub texts_eq : Eq (List String)
texts_eq = record { beq = texts_beq; beq_iff = texts_beq_iff }

-- The printable ASCII characters, from code point 32 on.
abbrev ascii_table : String
ascii_table =
    " !\"#$%&'()*+,-./0123456789:;<=>?@ABCDEFGHIJKLMNOPQRSTUVWXYZ[\\]^_`abcdefghijklmnopqrstuvwxyz{|}~"

-- bytes.decode("ascii") of printable bytes
unfoldable pub ascii_text : List ℕ → String
ascii_text [] = ""
ascii_text (c ∷ s) = String.◌∷◌ (String.char_at ascii_table (c - 32)) (ascii_text s)
