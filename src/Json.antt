-- ===== src/Json.antt =====
-- JSON values as the handlers read and write them (request bodies, response bodies), and the
-- responses that Flask sends. A number that is not an `int` is a decimal with ten places.
use mt5_gateway.Prelude.{
  ℕ, ◌^◌, String, Bool, true, false, Option, none, some, List, [], ◌∷◌, str_eq, not, if◌then◌else◌,
  ℤ, pos, negsuc, ◌==◌,
}

-- `finite n` is n / 10^10; the other two are what Python's parser makes of Infinity and NaN.
pub data Number : Type 0 where
  finite : ℤ → Number
  infinite : (negative : Bool) → Number
  nan : Number

-- Decimal places of a `finite` number.
abbrev pub places : ℕ
places = 10

-- The number 1.
abbrev pub unit : ℕ
unit = 10 ^ places

-- An f-string with its interpolated values left as values.
pub data Piece : Type 0 where
  lit : String → Piece
  shown_int : ℤ → Piece
  shown_number : Number → Piece
  -- a value whose rendering is not kept
  unshown : Piece

abbrev pub Message : Type 0
Message = List Piece

abbrev pub say : String → Message
say s = lit s ∷ []

mutual
  pub data Json : Type 0 where
    null : Json
    bool : Bool → Json
    int : ℤ → Json
    float : Number → Json
    text : String → Json
    said : Message → Json
    arr : Items → Json
    obj : Fields → Json

  pub data Items : Type 0 where
    nil : Items
    cons : Json → Items → Items

  pub data Fields : Type 0 where
    end : Fields
    field : String → Json → Fields → Fields

-- A value of a body inside an f-string.
unfoldable pub shown : Json → Piece
shown (text s) = lit s
shown (int n) = shown_int n
shown (float n) = shown_number n
shown _ = unshown

-- A `dict`, its entries in order; the first entry of a key counts.
abbrev pub Dict : Type 0
Dict = List (String × Json)

abbrev pub fields : Dict → Fields
fields [] = end
fields ((k, v) ∷ d) = field k v (fields d)

abbrev pub object : Dict → Json
object d = obj (fields d)

abbrev pub items : List Json → Items
items [] = nil
items (v ∷ vs) = cons v (items vs)

abbrev pub array : List Json → Json
array vs = arr (items vs)

-- `key in d` and `d[key]`
unfoldable pub lookup : String → Dict → Option Json
lookup k [] = none
lookup k ((j, v) ∷ d) = if str_eq j k then some v else lookup k d

-- `d.get(key)`: null where the key is missing.
unfoldable pub get : String → Dict → Json
unfolding lookup
get k d = elim (lookup k d) [ none ↦ null | some v ↦ v ]

-- `d[key] = v`
unfoldable pub put : String → Json → Dict → Dict
put k v [] = (k, v) ∷ []
put k v ((j, w) ∷ d) = if str_eq j k then (k, v) ∷ d else (j, w) ∷ put k v d

-- `bool(v)`
unfoldable pub is_truthy : Json → Bool
is_truthy null = false
is_truthy (bool b) = b
is_truthy (int (pos n)) = not (n == 0)
is_truthy (int (negsuc n)) = true
is_truthy (float (finite (pos n))) = not (n == 0)
is_truthy (float n) = true
is_truthy (text s) = not (str_eq s "")
is_truthy (said m) = true
is_truthy (arr nil) = false
is_truthy (arr (cons v vs)) = true
is_truthy (obj end) = false
is_truthy (obj (field k v d)) = true

-- A JSON response with its status code.
pub record Response : Type 0 where
  pub status : ℕ
  pub body : Json

abbrev pub respond : ℕ → Dict → Response
respond code d = record { status = code; body = object d }
