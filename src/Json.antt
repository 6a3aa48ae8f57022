-- ===== src/Json.antt =====
-- peoplebot/_json.py: the values of JSON records and their stable encoding.
use Prim.Native.Char.{code}
use Prim.Native.Nat.{Ordering}
use Prim.Native.String.{compare}
use peoplebot_releases.Base.{
  ℕ, zero, suc, ◌+◌, ◌/◌, ◌%◌, String, ◌<>◌, Bool, true, false, ◌&&◌, Option, none, some, List, [],
  ◌∷◌, ltb, eqb, any, all, ◌==◌, if◌then◌else◌,
}

-- What `json.loads` returns. `real` is a number with a fraction or an exponent, kept as its text;
-- `negative n` is -(n + 1). The keys of a dict differ from one another.
mutual
  pub data Value : Type 0 where
    null : Value
    bool : Bool → Value
    int negative : ℕ → Value
    real str : String → Value
    obj : Fields → Value
    arr : Items → Value

  -- The members of an object, in the order of their insertion.
  pub data Fields : Type 0 where
    field : String → Value → Fields → Fields
    end : Fields

  -- The elements of an array.
  pub data Items : Type 0 where
    cons : Value → Items → Items
    nil : Items

-- value.get(key)
unfoldable pub get : Fields → String → Value
get end k = null
get (field j v fs) k = let rest = get fs k in if j == k then v else rest

abbrev pub keys : Fields → List String
keys end = []
keys (field k _ fs) = k ∷ keys fs

abbrev pub member : String → List String → Bool
member k names = any (λ j. j == k) names

-- set(value) == names
unfoldable pub has_keys : Fields → List String → Bool
has_keys fs names = all (λ k. member k names) (keys fs) && all (λ k. member k (keys fs)) names

-- Optional texts and lists as JSON values.
abbrev pub opt_str : Option String → Value
opt_str none = null
opt_str (some s) = str s

abbrev pub items {ℓ} : {A : Type ℓ} → (A → Value) → List A → Items
items f [] = nil
items f (x ∷ xs) = cons (f x) (items f xs)

-- sort_keys=True
insert_field : String → Value → Fields → Fields
insert_field k v end = field k v end
insert_field k v (field j w fs) = elim (compare k j) [
  | Ordering.gt ↦ field j w (insert_field k v fs)
  | _ ↦ field k v (field j w fs)
]

mutual
  sort_keys : Value → Value
  sort_keys (arr xs) = arr (sort_items xs)
  sort_keys (obj fs) = obj (sort_fields fs)
  sort_keys null = null
  sort_keys (bool b) = bool b
  sort_keys (int n) = int n
  sort_keys (negative n) = negative n
  sort_keys (real s) = real s
  sort_keys (str s) = str s

  sort_items : Items → Items
  sort_items nil = nil
  sort_items (cons v xs) = cons (sort_keys v) (sort_items xs)

  sort_fields : Fields → Fields
  sort_fields end = end
  sort_fields (field k v fs) = insert_field k (sort_keys v) (sort_fields fs)

nth_text : List String → ℕ → String
nth_text [] n = ""
nth_text (s ∷ ss) zero = s
nth_text (s ∷ ss) (suc n) = nth_text ss n

-- One hexadecimal digit.
hex_digit : ℕ → String
unfolding nth_text
hex_digit = nth_text (
    "0" ∷ "1" ∷ "2" ∷ "3" ∷ "4" ∷ "5" ∷ "6" ∷ "7" ∷ "8" ∷ "9" ∷ "a" ∷ "b" ∷ "c" ∷ "d" ∷ "e" ∷ "f"
    ∷ [])

decimal_from : ℕ → ℕ → String → String
decimal_from zero n done = done
decimal_from (suc fuel) n done =
    let text = hex_digit (n % 10) <> done in
    let more = decimal_from fuel (n / 10) text in if ltb n 10 then text else more

-- The decimal text of a number; each step divides by ten, so n + 1 steps are enough.
unfoldable pub decimal : ℕ → String
unfolding decimal_from hex_digit
decimal n = decimal_from (n + 1) n ""

-- ensure_ascii=False escapes the quote, the backslash and the characters below 32 alone.
escape_code : ℕ → String → String
unfolding hex_digit
escape_code c same =
    if eqb c b'"'
    then "\\\""
    else if eqb c b'\\'
    then "\\\\"
    else if eqb c 8
    then "\\b"
    else if eqb c 12
    then "\\f"
    else if eqb c 10
    then "\\n"
    else if eqb c 13
    then "\\r"
    else if eqb c 9
    then "\\t"
    else if ltb c 32
    then "\\u00" <> hex_digit (c / 16) <> hex_digit (c % 16)
    else same

escape : String → String
unfolding escape_code
escape String.[] = ""
escape (String.◌∷◌ c s) = escape_code (code c) (String.◌∷◌ c String.[]) <> escape s

quote : String → String
unfolding escape
quote s = "\"" <> escape s <> "\""

-- separators=(",", ":"): the text after the first element goes through the `comma_` functions.
mutual
  print : Value → String
  print null = "null"
  print (bool true) = "true"
  print (bool false) = "false"
  print (int n) = decimal n
  print (negative n) = "-" <> decimal (n + 1)
  print (real s) = s
  print (str s) = quote s
  print (arr nil) = "[]"
  print (arr (cons v xs)) = "[" <> print v <> comma_items xs
  print (obj end) = "{}"
  print (obj (field k v fs)) = "{" <> quote k <> ":" <> print v <> comma_fields fs

  comma_items : Items → String
  comma_items nil = "]"
  comma_items (cons v xs) = "," <> print v <> comma_items xs

  comma_fields : Fields → String
  comma_fields end = "}"
  comma_fields (field k v fs) = "," <> quote k <> ":" <> print v <> comma_fields fs

unfoldable pub stable_json_bytes : Value → String
unfolding print comma_items comma_fields sort_keys sort_fields sort_items insert_field decimal quote
stable_json_bytes v = print (sort_keys v) <> "\n"
