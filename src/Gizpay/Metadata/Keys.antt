-- ===== src/Gizpay/Metadata/Keys.antt =====
-- validateOrderMetadata (internal/gizpay/handler.go) against the list of all keys of a value, at
-- every depth.
use Prim.Native.String.{String}
use gizway.Prelude.{
  ℕ, ◌≤◌, ◌<◌, Bool, true, false, not, ◌&&◌, ◌||◌, Option, none, some, List, [], ◌∷◌, ◌++◌, ◌≡◌,
  ◌↔◌, refl, sym, ◌∙◌, arith, All, all, ltb, ◌==◌, if◌then◌else◌,
}
use gizway.Gizpay.Metadata.{
  Json, null, bool, number, string, array, object, Items, nil, item, Fields, end, field, RawMessage,
  is_forbidden, inspect, inspect_items, inspect_fields, is_clean_object, validate_order_metadata,
}

-- The keys of all objects in a value.
mutual
  pub keys : Json → List String
  keys null = []
  keys (bool b) = []
  keys number = []
  keys (string t) = []
  keys (array xs) = keys_of_items xs
  keys (object fs) = keys_of_fields fs

  pub keys_of_items : Items → List String
  keys_of_items nil = []
  keys_of_items (item x xs) = keys x ++ keys_of_items xs

  pub keys_of_fields : Fields → List String
  keys_of_fields end = []
  keys_of_fields (field key nested fs) = key ∷ keys nested ++ keys_of_fields fs

abbrev permitted : String → Bool
permitted key = not (is_forbidden key)

all-append : (p : String → Bool) (xs ys : List String) → all p (xs ++ ys) ≡ all p xs && all p ys
all-append p [] ys = refl
all-append p (x ∷ xs) ys = rw (all-append p xs ys) (ground arith)

mutual
  unfolding inspect inspect_items inspect_fields keys keys_of_items keys_of_fields

  inspect-keys : (j : Json) → inspect j ≡ all permitted (keys j)
  inspect-keys null = refl
  inspect-keys (bool b) = refl
  inspect-keys number = refl
  inspect-keys (string t) = refl
  inspect-keys (array xs) = inspect_items-keys xs
  inspect-keys (object fs) = inspect_fields-keys fs

  inspect_items-keys : (xs : Items) → inspect_items xs ≡ all permitted (keys_of_items xs)
  inspect_items-keys nil = refl
  inspect_items-keys (item x xs) =
      rw (inspect-keys x, inspect_items-keys xs)
        (sym (all-append permitted (keys x) (keys_of_items xs)))

  inspect_fields-keys : (fs : Fields) → inspect_fields fs ≡ all permitted (keys_of_fields fs)
  inspect_fields-keys end = refl
  inspect_fields-keys (field key nested fs) =
      rw
        (
          inspect-keys nested,
          inspect_fields-keys fs,
          all-append permitted (keys nested) (keys_of_fields fs),
        )
        (ground arith)

all_iff : (xs : List String) → (all permitted xs ≡ true) ↔ All (λ k. is_forbidden k ≡ false) xs
all_iff [] = (λ h. tt, λ h. refl)
all_iff (x ∷ xs) = (
  λ h. (ground arith, (all_iff xs).0 (ground arith)),
  λ h. let rest : all permitted xs ≡ true = (all_iff xs).1 h.1 in rw (h.0, rest) refl,
)

-- The value of accepted metadata.
abbrev pub IsCleanObject : Option Json → Type 0
IsCleanObject v =
    (fs : Fields) × (v ≡ some (object fs)) × All (λ k. is_forbidden k ≡ false) (keys_of_fields fs)

clean_of : (v : Option Json) → is_clean_object v ≡ true → IsCleanObject v
unfolding is_clean_object
clean_of (some (object fs)) h =
    (fs, refl, (all_iff (keys_of_fields fs)).0 (sym (inspect_fields-keys fs) ∙ h))
clean_of none h = absurd (cc)
clean_of (some null) h = absurd (cc)
clean_of (some (bool b)) h = absurd (cc)
clean_of (some number) h = absurd (cc)
clean_of (some (string t)) h = absurd (cc)
clean_of (some (array xs)) h = absurd (cc)

of_clean : (v : Option Json) → IsCleanObject v → is_clean_object v ≡ true
unfolding is_clean_object
of_clean v (fs, e, h) = rw e (inspect_fields-keys fs ∙ (all_iff (keys_of_fields fs)).1 h)

size_iff :
    (size max_bytes : ℕ) (b : Bool)
    → ((if (size == 0) || ltb max_bytes size then false else b) ≡ true)
      ↔ ((0 < size) × (size ≤ max_bytes) × (b ≡ true))
size_iff size max_bytes b = ground arith

-- Order metadata are accepted exactly if they have at least one byte and at most the configured
-- number of bytes, and are a JSON object in which no object, at any depth, has a forbidden key.
pub validate_order_metadata_iff :
    (raw : RawMessage) (max_bytes : ℕ)
    → (validate_order_metadata raw max_bytes ≡ true)
      ↔ ((0 < raw.size) × (raw.size ≤ max_bytes) × IsCleanObject raw.value)
unfolding validate_order_metadata
validate_order_metadata_iff raw max_bytes =
    let sized = size_iff raw.size max_bytes (is_clean_object raw.value) in
    (
      λ h. let (low, high, clean) = sized.0 h in (low, high, clean_of raw.value clean),
      λ h. sized.1 (h.0, h.1, of_clean raw.value h.2),
    )
