-- ===== src/Prelude/Encoding.antt =====
-- Bytes: UTF-8, and the base64url of `urlsafe_b64encode(...).rstrip(b"=")` and `urlsafe_b64decode`.
pub mod Canonical
use soffortmcp.Prelude.Tests.{ltb, leb, nat_beq, if◌then◌else◌}
use soffortmcp.Prelude.Lists.{length, all, contains, filter, All}
use soffortmcp.Prelude.Text.{is_upper, is_lower, is_digit, in_range}
use Prim.Native.Nat.{ℕ, zero, suc, ◌+◌, ◌-◌, ◌*◌, ◌/◌, ◌%◌, ◌<◌, ◌≤◌}
use mathlib.Core.Bool.{Bool, true, false, not, ◌&&◌, ◌||◌}
use mathlib.Core.List.{List, [], ◌∷◌, ◌++◌, map}
use mathlib.Core.Option.{Option, none, some}

-- The UTF-8 of one code point.
abbrev pub utf8_char : ℕ → List ℕ
utf8_char c =
    if ltb c 0x80
    then c ∷ []
    else if ltb c 0x800
    then (0xc0 + c / 0x40) ∷ (0x80 + c % 0x40) ∷ []
    else if ltb c 0x10000
    then (0xe0 + c / 0x1000) ∷ (0x80 + c / 0x40 % 0x40) ∷ (0x80 + c % 0x40) ∷ []
    else (0xf0 + c / 0x40000)
      ∷ (0x80 + c / 0x1000 % 0x40)
      ∷ (0x80 + c / 0x40 % 0x40)
      ∷ (0x80 + c % 0x40)
      ∷ []

-- s.encode()
unfoldable pub utf8 : List ℕ → List ℕ
utf8 [] = []
utf8 (c ∷ s) = utf8_char c ++ utf8 s

-- The letter of six bits.
unfoldable pub letter : ℕ → ℕ
letter v =
    if ltb v 26
    then b'A' + v
    else if ltb v 52
    then b'a' + (v - 26)
    else if ltb v 62
    then b'0' + (v - 52)
    else if nat_beq v 62
    then b'-'
    else b'_'

-- base64.urlsafe_b64encode(value).rstrip(b"=")
unfoldable pub encode : List ℕ → List ℕ
encode [] = []
encode (a ∷ []) = letter (a / 4) ∷ letter (a % 4 * 16) ∷ []
encode (a ∷ b ∷ []) = letter (a / 4) ∷ letter (a % 4 * 16 + b / 16) ∷ letter (b % 16 * 4) ∷ []
encode (a ∷ b ∷ c ∷ rest) =
    letter (a / 4)
    ∷ letter (a % 4 * 16 + b / 16)
    ∷ letter (b % 16 * 4 + c / 64)
    ∷ letter (c % 64)
    ∷ encode rest

-- The six bits of a letter. `urlsafe_b64decode` only translates `-` and `_`, so the standard `+` and
-- `/` are letters too.
unfoldable pub sextet : ℕ → Option ℕ
sextet c =
    if is_upper c
    then some (c - b'A')
    else if is_lower c
    then some (c - b'a' + 26)
    else if is_digit c
    then some (c - b'0' + 52)
    else if nat_beq c b'-' || nat_beq c b'+'
    then some 62
    else if nat_beq c b'_' || nat_beq c b'/'
    then some 63
    else none

abbrev keep_some : Option ℕ → List ℕ → List ℕ
keep_some none l = l
keep_some (some v) l = v ∷ l

-- Characters outside the alphabet are passed over.
unfoldable pub sextets : List ℕ → List ℕ
sextets [] = []
sextets (c ∷ s) = keep_some (sextet c) (sextets s)

-- Groups of four, and what is left under `pads` padding characters.
unfoldable pub decode_sextets : ℕ → List ℕ → Option (List ℕ)
decode_sextets pads [] = some []
decode_sextets pads (a ∷ []) = none
decode_sextets pads (a ∷ b ∷ []) = if leb 2 pads then some ((a * 4 + b / 16) ∷ []) else none
decode_sextets pads (a ∷ b ∷ c ∷ []) =
    if leb 1 pads then some ((a * 4 + b / 16) ∷ (b % 16 * 16 + c / 4) ∷ []) else none
decode_sextets pads (a ∷ b ∷ c ∷ d ∷ rest) = elim (decode_sextets pads rest) [
  | none ↦ none
  | some bytes ↦ some ((a * 4 + b / 16) ∷ (b % 16 * 16 + c / 4) ∷ (c % 4 * 64 + d) ∷ bytes)
]

-- base64.urlsafe_b64decode(value + "=" * (-len(value) % 4)); `none` is its `ValueError`.
unfoldable pub decode : List ℕ → Option (List ℕ)
decode s =
    if all (λ c. ltb c 128) s then decode_sextets ((4 - length s % 4) % 4) (sextets s) else none
