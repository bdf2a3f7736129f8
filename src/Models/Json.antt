-- ===== src/Models/Json.antt =====
-- What `json.loads` returns, as one data type. A float is an exact fraction, an infinity or NaN.
use agent_storm.Prelude.{ℕ, String, Bool, Option, none, some, List, [], ◌∷◌, str_eq, if◌then◌else◌}
use agent_storm.Prelude.Int.{ℤ, pos}

-- `finite n d` is n / (d + 1).
pub data Float : Type 0 where
  finite : ℤ → ℕ → Float
  infinite : (positive : Bool) → Float
  nan : Float

mutual
  pub data Value : Type 0 where
    null : Value
    boolean : Bool → Value
    int : ℤ → Value
    float : Float → Value
    text : String → Value
    array : Items → Value
    object : Fields → Value

  pub data Items : Type 0 where
    nil : Items
    cons : Value → Items → Items

  pub data Fields : Type 0 where
    end : Fields
    field : String → Value → Fields → Fields

-- `d.get(key)`
unfoldable pub get : String → Fields → Option Value
get key end = none
get key (field k v fields) = if str_eq k key then some v else get key fields

-- `list(texts)`, numbers and lists of them.
abbrev pub texts : List String → Items
texts [] = nil
texts (s ∷ rest) = cons (text s) (texts rest)

abbrev pub number : ℕ → Value
number n = int (pos n)

abbrev pub numbers : List ℕ → Items
numbers [] = nil
numbers (n ∷ rest) = cons (number n) (numbers rest)
