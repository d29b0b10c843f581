-- ===== src/Json.antt =====
-- JSON values as Python has them after `json.loads`, and the operations that the program makes on
-- them: `x.get(key)`, `x[key]`, `x[0]` and the truth of a value.
use llmops_gateway.Prelude.{
  String, Bool, true, false, not, ◌||◌, Option, none, some, List, [], ◌∷◌, ◌==◌, string_eq,
  is_empty, if◌then◌else◌,
}
use llmops_gateway.Prelude.Int.{ℤ, nonzero}
use llmops_gateway.Domain.Chat.{Float}
use llmops_gateway.Errors.{other, Result, ok, err}

mutual
  pub data Json : Type 0 where
    null : Json
    bool : Bool → Json
    int : ℤ → Json
    float : Float → Json
    text : String → Json
    arr : Items → Json
    obj : Fields → Json

  pub data Items : Type 0 where
    nil : Items
    cons : Json → Items → Items

  pub data Fields : Type 0 where
    end : Fields
    field : String → Json → Fields → Fields

-- `{k: v, …}` and `[v, …]`.
abbrev pub fields : List (String × Json) → Fields
fields [] = end
fields ((k, v) ∷ rest) = field k v (fields rest)

abbrev pub items : List Json → Items
items [] = nil
items (v ∷ rest) = cons v (items rest)

abbrev pub to_list : Items → List Json
to_list nil = []
to_list (cons v rest) = v ∷ to_list rest

-- `bool(x)`
abbrev pub is_truthy : Json → Bool
is_truthy null = false
is_truthy (bool b) = b
is_truthy (int n) = nonzero n
is_truthy (float f) = not (f.repr == "0.0" || f.repr == "-0.0")
is_truthy (text s) = not (is_empty s)
is_truthy (arr nil) = false
is_truthy (arr (cons v rest)) = true
is_truthy (obj end) = false
is_truthy (obj (field k v rest)) = true

abbrev pub find : String → Fields → Option Json
find k end = none
find k (field j v rest) = if j == k then some v else find k rest

-- `x.get(key)`: the result `none` is a missing key.
abbrev pub get : String → Json → Result (Option Json)
get k (obj fs) = ok (find k fs)
get k null = err (other "AttributeError")
get k (bool b) = err (other "AttributeError")
get k (int n) = err (other "AttributeError")
get k (float f) = err (other "AttributeError")
get k (text s) = err (other "AttributeError")
get k (arr xs) = err (other "AttributeError")

abbrev pub found : Option Json → Result Json
found none = err (other "KeyError")
found (some v) = ok v

-- `x[key]`
abbrev pub item : String → Json → Result Json
item k (obj fs) = found (find k fs)
item k null = err (other "TypeError")
item k (bool b) = err (other "TypeError")
item k (int n) = err (other "TypeError")
item k (float f) = err (other "TypeError")
item k (text s) = err (other "TypeError")
item k (arr xs) = err (other "TypeError")

abbrev pub first_char : String → Result Json
first_char String.[] = err (other "IndexError")
first_char (String.◌∷◌ c s) = ok (text (String.◌∷◌ c ""))

-- `x[0]`
abbrev pub first_item : Json → Result Json
first_item (arr nil) = err (other "IndexError")
first_item (arr (cons v rest)) = ok v
first_item (text s) = first_char s
first_item (obj fs) = err (other "KeyError")
first_item null = err (other "TypeError")
first_item (bool b) = err (other "TypeError")
first_item (int n) = err (other "TypeError")
first_item (float f) = err (other "TypeError")

-- `x.get(key, default)` and `x.get(key) or default`, of what `get` gave.
abbrev pub default_to : Json → Option Json → Json
default_to d none = d
default_to d (some v) = v

abbrev pub or_json : Json → Option Json → Json
or_json d none = d
or_json d (some v) = if is_truthy v then v else d
