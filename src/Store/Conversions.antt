-- ===== src/Store/Conversions.antt =====
-- src/soffortbackend/store.py: what the document conversions ask of CPython, and of a document.
use soffortmcp.Prelude.{
  ℕ, zero, suc, String, Bool, true, false, not, ◌||◌, Option, none, some, List, [], ◌∷◌, map, ◌==◌,
  string_eq, if◌then◌else◌, concat, lookup, Result, ok, err, bind, or_raise, store_unavailable,
  key_error, type_error, value_error,
}
use soffortmcp.Prelude.Decimal.{decimal}
use soffortmcp.Prelude.Json.{
  Value, ℤ, pos, negsuc, null, bool, int, float, str, arr, obj, nil, end, items, members,
}

infixl 5 ◌>>=◌
abbrev pub ◌>>=◌ {ℓ κ} : {A : Type ℓ} {B : Type κ} → Result A → (A → Result B) → Result B
◌>>=◌ = bind

abbrev pub Document : Type 0
Document = List (String × Value)

-- What the conversions ask of CPython.
pub record Python : Type 0 where
  -- value.astimezone(UTC).isoformat()
  pub isoformat : ℕ → String
  -- datetime.fromisoformat(text); `none` if it raises
  pub fromisoformat : String → Option ℕ
  -- text.replace(old, new)
  pub replace : String → String → String → String
  -- str(value) of a list or an object
  pub repr : Value → String
  -- int(value) of a text or a float; `none` if it raises
  pub parse_int : Value → Option ℤ

-- str(value)
abbrev pub text_of : Python → Value → String
text_of p null = "None"
text_of p (bool true) = "True"
text_of p (bool false) = "False"
text_of p (int (pos n)) = decimal n
text_of p (int (negsuc n)) = concat "-" (decimal (suc n))
text_of p (float s) = s
text_of p (str s) = s
text_of p v = p.repr v

-- int(value)
abbrev pub int_of : Python → Value → Result ℤ
int_of p (int n) = ok n
int_of p (bool true) = ok (pos 1)
int_of p (bool false) = ok (pos 0)
int_of p (str s) = or_raise (p.parse_int (str s)) value_error
int_of p (float s) = or_raise (p.parse_int (float s)) value_error
int_of p _ = err type_error

-- bool(value)
abbrev pub is_truthy : Value → Bool
is_truthy null = false
is_truthy (bool b) = b
is_truthy (int (pos zero)) = false
is_truthy (int _) = true
is_truthy (float s) = not (s == "0.0" || s == "-0.0")
is_truthy (str s) = not (s == "")
is_truthy (arr nil) = false
is_truthy (arr _) = true
is_truthy (obj end) = false
is_truthy (obj _) = true

-- The characters of a text.
abbrev pub characters : String → List Value
characters String.[] = []
characters (String.◌∷◌ c s) = str (String.◌∷◌ c String.[]) ∷ characters s

abbrev pub names : Document → List Value
names [] = []
names ((k, v) ∷ l) = str k ∷ names l

-- for item in value
abbrev pub iterate : Value → Result (List Value)
iterate (arr l) = ok (items l)
iterate (obj l) = ok (names (members l))
iterate (str s) = ok (characters s)
iterate _ = err type_error

-- document[name]
abbrev pub get : String → Document → Result Value
get name d = or_raise (lookup name d) key_error

-- value[name]
abbrev pub subscript : String → Value → Result Value
subscript name (obj l) = get name (members l)
subscript name _ = err type_error

-- document.get(name, default)
abbrev pub get_or : Value → String → Document → Value
get_or default name d = elim (lookup name d) [ none ↦ default | some v ↦ v ]

module _ (p : Python) where
  unfoldable pub iso : ℕ → String
  iso value = p.replace (p.isoformat value) "+00:00" "Z"

  -- `_datetime`
  unfoldable pub datetime : Value → Result ℕ
  datetime (str s) = or_raise (p.fromisoformat (p.replace s "Z" "+00:00")) store_unavailable
  datetime _ = err store_unavailable

  abbrev pub text_at : String → Document → Result String
  text_at name d = get name d >>= λ v. ok (text_of p v)

  abbrev pub time_at : String → Document → Result ℕ
  time_at name d = get name d >>= datetime

  -- str(document[name]) if document.get(name) else None
  abbrev pub optional_text_at : String → Document → Option String
  optional_text_at name d =
      let v = get_or null name d in if is_truthy v then some (text_of p v) else none

  -- _datetime(document[name]) if document.get(name) else None
  abbrev pub optional_time : Value → Result (Option ℕ)
  optional_time v = if is_truthy v then (datetime v >>= λ t. ok (some t)) else ok none

  -- tuple(str(value) for value in value)
  abbrev pub texts_of : Value → Result (List String)
  texts_of v = iterate v >>= λ l. ok (map (text_of p) l)
