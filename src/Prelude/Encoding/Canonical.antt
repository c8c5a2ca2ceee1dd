-- ===== src/Prelude/Encoding/Canonical.antt =====
-- Base64url there and back.
use soffortmcp.Prelude.Tests.{ltb, nat_beq, nat_eq}
use soffortmcp.Prelude.Lists.{length, all, contains, All}
use soffortmcp.Prelude.Encoding.{letter, encode, sextet, sextets, decode_sextets, decode}
use Prim.Native.Nat.{ℕ, ◌+◌, ◌-◌, ◌*◌, ◌/◌, ◌%◌, ◌<◌, ◌≤◌}
use mathlib.Core.Bool.{true, false}
use mathlib.Core.List.{List, [], ◌∷◌}
use mathlib.Core.Option.{some}
use mathlib.Core.Path.{◌≡◌, refl}
use native.Mathlib.Omega.{arith}

abbrev pub IsBytes : List ℕ → Type 0
IsBytes = All (λ b. b < 256)

sextet-letter : (v : ℕ) → v < 64 → sextet (letter v) ≡ some v
unfolding sextet letter
sextet-letter v h = ground arith

letter-lt : (v : ℕ) → letter v < 128
unfolding letter
letter-lt v = ground arith

pub letter_ne_pad : (v : ℕ) → nat_beq (letter v) b'=' ≡ false
unfolding letter
letter_ne_pad v = ground arith

sextets-encode-ascii : (bytes : List ℕ) → all (λ c. ltb c 128) (encode bytes) ≡ true
unfolding all encode
sextets-encode-ascii [] = refl
sextets-encode-ascii (a ∷ []) = ground (arith, letter-lt (a / 4), letter-lt (a % 4 * 16))
sextets-encode-ascii (a ∷ b ∷ []) =
    ground (arith, letter-lt (a / 4), letter-lt (a % 4 * 16 + b / 16), letter-lt (b % 16 * 4))
sextets-encode-ascii (a ∷ b ∷ c ∷ rest) = ground (
  arith,
  letter-lt (a / 4),
  letter-lt (a % 4 * 16 + b / 16),
  letter-lt (b % 16 * 4 + c / 64),
  letter-lt (c % 64),
  sextets-encode-ascii rest,
)

-- The letters of a text of `bytes` bytes, and the padding that it wants.
decode_sextets-encode :
    (pads : ℕ) (bytes : List ℕ)
    → IsBytes bytes
    → (4 - length (encode bytes) % 4) % 4 ≤ pads
    → decode_sextets pads (sextets (encode bytes)) ≡ some bytes
unfolding encode sextets decode_sextets
decode_sextets-encode pads [] h p = refl
decode_sextets-encode pads (a ∷ []) h p =
    rw (sextet-letter (a / 4) (omega arith), sextet-letter (a % 4 * 16) (omega arith))
      (ground arith)
decode_sextets-encode pads (a ∷ b ∷ []) h p =
    rw
      (
        sextet-letter (a / 4) (omega arith),
        sextet-letter (a % 4 * 16 + b / 16) (omega arith),
        sextet-letter (b % 16 * 4) (omega arith),
      )
      (ground arith)
decode_sextets-encode pads (a ∷ b ∷ c ∷ rest) h p =
    rw
      (
        sextet-letter (a / 4) (omega arith),
        sextet-letter (a % 4 * 16 + b / 16) (omega arith),
        sextet-letter (b % 16 * 4 + c / 64) (omega arith),
        sextet-letter (c % 64) (omega arith),
        decode_sextets-encode pads rest h.1.1.1 (omega arith),
      )
      (ground arith)

-- Decoding the unpadded base64url of bytes gives these bytes.
pub decode-encode : (bytes : List ℕ) → IsBytes bytes → decode (encode bytes) ≡ some bytes
unfolding decode
decode-encode bytes h =
    rw (sextets-encode-ascii bytes) (decode_sextets-encode _ bytes h (omega arith))

pub no_pad-encode : (bytes : List ℕ) → contains b'=' (encode bytes) ≡ false
unfolding contains encode
no_pad-encode [] = refl
no_pad-encode (a ∷ []) = ground (arith, letter_ne_pad (a / 4), letter_ne_pad (a % 4 * 16))
no_pad-encode (a ∷ b ∷ []) =
    ground (
      arith,
      letter_ne_pad (a / 4),
      letter_ne_pad (a % 4 * 16 + b / 16),
      letter_ne_pad (b % 16 * 4),
    )
no_pad-encode (a ∷ b ∷ c ∷ rest) = ground (
  arith,
  letter_ne_pad (a / 4),
  letter_ne_pad (a % 4 * 16 + b / 16),
  letter_ne_pad (b % 16 * 4 + c / 64),
  letter_ne_pad (c % 64),
  no_pad-encode rest,
)

-- Three bytes make four letters.
pub length-encode-le : (bytes : List ℕ) → 3 * length (encode bytes) ≤ 4 * length bytes + 4
unfolding encode
length-encode-le [] = omega arith
length-encode-le (a ∷ []) = omega arith
length-encode-le (a ∷ b ∷ []) = omega arith
length-encode-le (a ∷ b ∷ c ∷ rest) = omega (arith, length-encode-le rest)
