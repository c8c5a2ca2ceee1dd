-- ===== src/Prelude/Words.antt =====
-- Python's texts as lists of words: `split`, `rstrip`, and `sorted` on a set.
use Prim.Native.Char.{Char, code}
use Prim.Native.Nat.{ℕ}
use Prim.Native.String.{String}
use mathlib.Core.Bool.{Bool, true, false, not, ◌&&◌, ◌||◌}
use mathlib.Core.List.{List, [], ◌∷◌}
use mathlib.Core.Path.{◌≡◌, refl, ap, ◌∙◌}
use native.Mathlib.Omega.{arith}
use soffortmcp.Prelude.Tests.{ltb, nat_beq, ◌==◌, string_eq, if◌then◌else◌}
use soffortmcp.Prelude.Lists.{filter, contains}
use soffortmcp.Prelude.Text.{codes}

abbrev one : Char → String
one c = String.◌∷◌ c String.[]

abbrev push : Char → List String → List String
push c [] = one c ∷ []
push c (word ∷ words) = String.◌∷◌ c word ∷ words

-- The words between the characters that a test accepts, empty ones included.
abbrev pub split_at : (ℕ → Bool) → String → List String
split_at p String.[] = "" ∷ []
split_at p (String.◌∷◌ c s) =
    let rest = split_at p s in if p (code c) then "" ∷ rest else push c rest

abbrev pub is_word : String → Bool
is_word s = not (s == "")

-- s.split(), where a test says which characters are white space
abbrev pub words_of : (ℕ → Bool) → String → List String
words_of is_space s = filter is_word (split_at is_space s)

-- s.rstrip("/")
abbrev pub rstrip_slash : String → String
rstrip_slash String.[] = ""
rstrip_slash (String.◌∷◌ c s) =
    let rest = rstrip_slash s in
    if rest == "" && nat_beq (code c) b'/' then "" else String.◌∷◌ c rest

-- s < t, by code points
abbrev pub is_before : List ℕ → List ℕ → Bool
is_before [] [] = false
is_before [] (d ∷ t) = true
is_before (c ∷ s) [] = false
is_before (c ∷ s) (d ∷ t) = let rest = is_before s t in ltb c d || (nat_beq c d && rest)

-- s.add(word), for a set that is kept in order
abbrev pub add_word : String → List String → List String
add_word word [] = word ∷ []
add_word word (w ∷ l) =
    let rest = add_word word l in
    if word == w then w ∷ l else if is_before (codes word) (codes w) then word ∷ w ∷ l else w ∷ rest

-- sorted(set(words))
abbrev pub sorted_set : List String → List String
sorted_set [] = []
sorted_set (word ∷ l) = add_word word (sorted_set l)

pub contains-add_word :
    (s word : String) (l : List String)
    → contains s (add_word word l) ≡ ((word == s) || contains s l)
unfolding contains
contains-add_word s word [] = refl
contains-add_word s word (w ∷ l) = ground (
  arith,
  contains-add_word s word l,
  string_eq.beq_iff word w,
  string_eq.beq_iff w s,
  string_eq.beq_iff word s,
)

pub contains-sorted_set : (s : String) (l : List String) → contains s (sorted_set l) ≡ contains s l
unfolding contains
contains-sorted_set s [] = refl
contains-sorted_set s (word ∷ l) =
    contains-add_word s word (sorted_set l) ∙ ap (λ b. (word == s) || b) (contains-sorted_set s l)

-- list(dict.fromkeys(values))
unfoldable pub distinct : List String → List String
distinct [] = []
distinct (v ∷ l) = v ∷ filter (λ w. not (w == v)) (distinct l)
