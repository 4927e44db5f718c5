-- ===== src/Gizpay/Metadata.antt =====
-- validateOrderMetadata (internal/gizpay/handler.go): which order metadata a charge may carry.
pub mod Keys
use Prim.Native.String.{String}
use text.Mathlib.Text.{starts_with}
use gizway.Prelude.{
  ℕ, ◌+◌, Bool, true, false, not, ◌&&◌, ◌||◌, Option, none, some, List, [], ◌∷◌, any, leb, ltb,
  ◌==◌, if◌then◌else◌,
}
use gizway.Text.{codes, is_space, codes_eq, trim_left, trim_right}

-- A value that json.Unmarshal returns; numbers and texts of values are not looked at.
mutual
  pub data Json : Type 0 where
    null : Json
    bool : Bool → Json
    number : Json
    string : String → Json
    array : Items → Json
    object : Fields → Json

  pub data Items : Type 0 where
    nil : Items
    item : Json → Items → Items

  pub data Fields : Type 0 where
    end : Fields
    field : String → Json → Fields → Fields

-- json.RawMessage: its length in bytes, and its value where it is JSON.
pub record RawMessage : Type 0 where
  pub size : ℕ
  pub value : Option Json

-- unicode.ToLower, as far as its result can be an ASCII letter: the fields looked for are ASCII,
-- and only the dotted capital I and the Kelvin sign go from outside ASCII into it.
lower : ℕ → ℕ
lower c =
    if leb b'A' c && leb c b'Z'
    then c + 32
    else if c == 0x130
    then b'i'
    else if c == 0x212a
    then b'k'
    else c

lower_all : List ℕ → List ℕ
lower_all [] = []
lower_all (c ∷ s) = lower c ∷ lower_all s

-- strings.ToLower(strings.TrimSpace(key))
unfoldable pub normalized : String → List ℕ
unfolding trim_left trim_right lower lower_all is_space
normalized key = lower_all (trim_right (trim_left (codes key)))

has_prefix : List ℕ → List ℕ → Bool
has_prefix _ [] = true
has_prefix [] (_ ∷ _) = false
has_prefix (c ∷ s) (d ∷ t) = (c == d) && has_prefix s t

-- strings.Contains
contains_text : List ℕ → List ℕ → Bool
contains_text [] t = has_prefix [] t
contains_text (c ∷ s) t = has_prefix (c ∷ s) t || contains_text s t

abbrev forbidden_fields : List String
forbidden_fields =
    "prompt" ∷ "authorization" ∷ "api_key" ∷ "subscription_key" ∷ "provider_key" ∷ "provider_secret"
    ∷ []

unfoldable pub is_forbidden : String → Bool
unfolding normalized codes_eq has_prefix contains_text
is_forbidden key =
    any (λ f. codes_eq (codes f) (normalized key)) forbidden_fields
    || contains_text (normalized key) (codes "secret")

-- The closure `inspect`: true where it returns no error.
unfoldable mutual
  pub inspect : Json → Bool
  inspect null = true
  inspect (bool b) = true
  inspect number = true
  inspect (string t) = true
  inspect (array xs) = inspect_items xs
  inspect (object fs) = inspect_fields fs

  pub inspect_items : Items → Bool
  inspect_items nil = true
  inspect_items (item x xs) = inspect x && inspect_items xs

  pub inspect_fields : Fields → Bool
  inspect_fields end = true
  inspect_fields (field key nested fs) =
      (not (is_forbidden key) && inspect nested) && inspect_fields fs

-- The value is an object, and `inspect` passes it.
unfoldable pub is_clean_object : Option Json → Bool
is_clean_object (some (object fs)) = inspect_fields fs
is_clean_object _ = false

unfoldable pub validate_order_metadata : RawMessage → ℕ → Bool
validate_order_metadata raw max_bytes =
    if (raw.size == 0) || ltb max_bytes raw.size then false else is_clean_object raw.value
