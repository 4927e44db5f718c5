-- ===== src/Gizpay/Identity/Signature.antt =====
-- validateActionSignature (internal/gizpay/handler.go), on the code points of the header, with the
-- decimal and hexadecimal decoders of the standard library. The HMAC with SHA-256 is a parameter.
use Prim.Native.String.{String}
use mathlib.Core.Option
use gizway.Prelude.{
  ℕ, ◌+◌, ◌-◌, ◌*◌, Bool, false, not, ◌&&◌, ◌||◌, leb, ◌==◌ as nat_eq, Option, none, some, List, [],
  ◌∷◌, ◌++◌, if◌then◌else◌,
}
use gizway.Int.{ℤ, pos, ◌+ℤ◌, ◌-ℤ◌, ◌*ℤ◌, ltb_ℤ, neg_ℕ}
use gizway.Int64.{fits64, wrap64, max_int64, min_int64}
use gizway.Text.{codes, split, codes_eq, trim_left, trim_right}
use gizway.Gizpay.Store.{Instant}

pub record Signature : Type 0 where
  pub timestamp : List ℕ
  pub value : List ℕ

-- strings.Cut at a character.
unfoldable pub cut : ℕ → List ℕ → Option (List ℕ × List ℕ)
cut sep [] = none
cut sep (c ∷ cs) =
    let rest = cut sep cs in
    if nat_eq c sep then some ([], cs) else Option.map (λ p. (c ∷ p.0, p.1)) rest

-- `case "t"` and `case "v1"`; a part without `=` is passed over.
abbrev pub note_value : Signature → Option (List ℕ × List ℕ) → Signature
note_value g none = g
note_value g (some (name, value)) =
    if codes_eq name (codes "t")
    then record g { timestamp = value }
    else if codes_eq name (codes "v1")
    then record g { value = value }
    else g

-- The name and the value of a part: the separator is `=`.
abbrev pub cut_part : List ℕ → Option (List ℕ × List ℕ)
cut_part part = cut 61 (trim_right (trim_left part))

unfoldable pub read_parts : Signature → List (List ℕ) → Signature
read_parts g [] = g
read_parts g (part ∷ parts) = read_parts (note_value g (cut_part part)) parts

-- The separator is the comma.
abbrev pub read_header : String → Signature
read_header header = read_parts (record { timestamp = []; value = [] }) (split 44 (codes header))

unfoldable pub digits_from : ℕ → List ℕ → Option ℕ
digits_from n [] = some n
digits_from n (c ∷ cs) =
    let rest = digits_from (10 * n + (c - 48)) cs in if leb 48 c && leb c 57 then rest else none

abbrev pub parse_digits : List ℕ → Option ℕ
parse_digits [] = none
parse_digits (c ∷ cs) = digits_from 0 (c ∷ cs)

abbrev pub in_range : ℤ → Option ℤ
in_range n = if fits64 n then some n else none

-- `strconv.ParseInt(text, 10, 64)`; 43 and 45 are the signs.
unfoldable pub parse_int : List ℕ → Option ℤ
unfolding digits_from
parse_int [] = none
parse_int (c ∷ cs) =
    if nat_eq c 43
    then Option.bind (parse_digits cs) (λ n. in_range (pos n))
    else if nat_eq c 45
    then Option.bind (parse_digits cs) (λ n. in_range (neg_ℕ n))
    else Option.bind (parse_digits (c ∷ cs)) (λ n. in_range (pos n))

abbrev pub nibble : ℕ → Option ℕ
nibble c =
    if leb 48 c && leb c 57
    then some (c - 48)
    else if leb 97 c && leb c 102
    then some (c - 87)
    else if leb 65 c && leb c 70
    then some (c - 55)
    else none

-- hex.DecodeString
unfoldable pub decode_hex : List ℕ → Option (List ℕ)
decode_hex [] = some []
decode_hex (a ∷ []) = none
decode_hex (a ∷ b ∷ cs) =
    let rest = decode_hex cs in
    Option.bind (nibble a)
      (λ h. Option.bind (nibble b) (λ l. Option.map (λ r. (16 * h + l) ∷ r) rest))

-- A difference of times saturates.
abbrev pub clamp64 : ℤ → ℤ
clamp64 d = if fits64 d then d else if ltb_ℤ d (pos 0) then min_int64 else max_int64

-- `now.Sub(time.Unix(seconds, 0))`: a time counts its seconds from Go's zero time, in an int64.
unfoldable pub age_at : Instant → ℤ → ℤ
age_at now seconds = clamp64 (now -ℤ wrap64 (seconds +ℤ pos 62135596800) *ℤ pos 1000000000)

abbrev pub is_fresh : ℤ → ℤ → Bool
is_fresh maximum_age age = not (ltb_ℤ age (pos 0 -ℤ maximum_age) || ltb_ℤ maximum_age age)

-- hmac.New with sha256.New and Sum: of the secret and the text, in bytes.
abbrev pub Mac : Type 0
Mac = List ℕ → List ℕ → List ℕ

-- 46 is the dot.
abbrev pub signed_text : List ℕ → List ℕ → List ℕ
signed_text timestamp body = timestamp ++ (46 ∷ body)

abbrev pub matches : Mac → List ℕ → List ℕ → List ℕ → Option (List ℕ) → Bool
matches mac secret body timestamp none = false
matches mac secret body timestamp (some provided) =
    codes_eq provided (mac secret (signed_text timestamp body))

abbrev pub is_timely : Instant → ℤ → Option ℤ → Bool
is_timely now maximum_age none = false
is_timely now maximum_age (some seconds) = is_fresh maximum_age (age_at now seconds)

-- A nonempty secret and a positive age.
abbrev pub can_validate : List ℕ → ℤ → Bool
can_validate secret maximum_age = not (codes_eq secret []) && ltb_ℤ (pos 0) maximum_age

abbrev pub is_signed_by : Mac → List ℕ → List ℕ → Instant → ℤ → Signature → Bool
is_signed_by mac body secret now maximum_age g =
    is_timely now maximum_age (parse_int g.timestamp)
    && matches mac secret body g.timestamp (decode_hex g.value)

unfoldable pub validate_action_signature : Mac → List ℕ → String → List ℕ → Instant → ℤ → Bool
unfolding read_parts parse_int decode_hex age_at cut
validate_action_signature mac body header secret now maximum_age =
    can_validate secret maximum_age
    && is_signed_by mac body secret now maximum_age (read_header header)
