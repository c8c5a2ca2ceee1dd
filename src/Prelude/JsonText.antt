-- ===== src/Prelude/JsonText.antt =====
-- `json.dumps` with `separators=(",", ":")`, as code points.
use soffortmcp.Prelude.Tests.{ltb, nat_beq, if◌then◌else◌}
use soffortmcp.Prelude.Text.{codes}
use Prim.Native.Nat.{ℕ, ◌+◌, ◌-◌, ◌/◌, ◌%◌}
use Prim.Native.String.{String}
use mathlib.Core.Bool.{Bool, true, ◌&&◌}
use mathlib.Core.List.{List, [], ◌∷◌, ◌++◌, map}

abbrev backslash : ℕ
backslash = 92

-- One lowercase hexadecimal digit.
abbrev pub hex_digit : ℕ → ℕ
hex_digit n = if ltb n 10 then b'0' + n else b'a' + (n - 10)

abbrev unicode_escape : ℕ → List ℕ
unicode_escape c =
    backslash
    ∷ b'u'
    ∷ hex_digit (c / 0x1000)
    ∷ hex_digit (c / 0x100 % 16)
    ∷ hex_digit (c / 16 % 16)
    ∷ hex_digit (c % 16)
    ∷ []

-- With `ensure_ascii` everything outside the printable ASCII is escaped, above the basic plane as a
-- surrogate pair; without it, the control characters alone.
unfoldable pub escape : Bool → ℕ → List ℕ
escape ensure_ascii c =
    if nat_beq c b'"'
    then backslash ∷ b'"' ∷ []
    else if nat_beq c backslash
    then backslash ∷ backslash ∷ []
    else if nat_beq c 10
    then backslash ∷ b'n' ∷ []
    else if nat_beq c 13
    then backslash ∷ b'r' ∷ []
    else if nat_beq c 9
    then backslash ∷ b't' ∷ []
    else if nat_beq c 8
    then backslash ∷ b'b' ∷ []
    else if nat_beq c 12
    then backslash ∷ b'f' ∷ []
    else if ltb c 32
    then unicode_escape c
    else if ensure_ascii && ltb 126 c
    then (if ltb c 0x10000
        then unicode_escape c
        else unicode_escape (0xd800 + (c - 0x10000) / 0x400)
          ++ unicode_escape (0xdc00 + (c - 0x10000) % 0x400))
    else c ∷ []

escape_all : Bool → List ℕ → List ℕ
escape_all ensure_ascii [] = []
escape_all ensure_ascii (c ∷ s) = escape ensure_ascii c ++ escape_all ensure_ascii s

unfoldable pub dumps_text : Bool → String → List ℕ
unfolding escape_all
dumps_text ensure_ascii s = b'"' ∷ escape_all ensure_ascii (codes s) ++ b'"' ∷ []

comma_join : List (List ℕ) → List ℕ
comma_join [] = []
comma_join (p ∷ []) = p
comma_join (p ∷ q ∷ ps) = p ++ b',' ∷ comma_join (q ∷ ps)

-- [p, q, ...] of printed values
unfoldable pub dumps_list : List (List ℕ) → List ℕ
unfolding comma_join
dumps_list ps = b'[' ∷ comma_join ps ++ b']' ∷ []

dumps_member : String × List ℕ → List ℕ
dumps_member (name, value) = dumps_text true name ++ b':' ∷ value

-- {"name":value, ...} of printed values. `sort_keys` sorts by name; callers list the names sorted.
unfoldable pub dumps_object : List (String × List ℕ) → List ℕ
unfolding comma_join dumps_member
dumps_object members = b'{' ∷ comma_join (map dumps_member members) ++ b'}' ∷ []

-- A list of texts.
unfoldable pub dumps_texts : List String → List ℕ
dumps_texts keys = dumps_list (map (dumps_text true) keys)
