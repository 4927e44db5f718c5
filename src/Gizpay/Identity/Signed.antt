-- ===== src/Gizpay/Identity/Signed.antt =====
-- What a valid signature header says (validateActionSignature, internal/gizpay/handler.go).

use Prim.Native.String.{String}
use gizway.Prelude.{
  both, ℕ, ◌++◌, Bool, true, false, not, ==_iff, Option, none, some, List, [], ◌∷◌, ◌≡◌, ◌≢◌, ◌↔◌,
  refl, ap, arith,
}
use gizway.Int.{ℤ, ltb_ℤ, pos, ◌-ℤ◌, ◌≤ℤ◌, ◌<ℤ◌}
use gizway.Text.{codes_eq}
use gizway.Gizpay.Store.{Instant}
use gizway.Gizpay.Identity.Values.{value_of, codes_eq_sound, read_header-value_of}
use gizway.Gizpay.Identity.Signature.{
  read_header, parse_int, decode_hex, age_at, is_fresh, Mac, signed_text, matches, is_timely,
  validate_action_signature,
}

pub record IsSigned (mac : Mac) (body : List ℕ) (header : String) (secret : List ℕ) (now : Instant)
    (maximum_age : ℤ) : Type 0 where
  pub secret_given : secret ≢ []
  pub age_given : pos 0 <ℤ maximum_age
  pub seconds : ℤ
  pub timestamp : parse_int (value_of "t" header) ≡ some seconds
  pub not_early : pos 0 -ℤ maximum_age ≤ℤ age_at now seconds
  pub not_late : age_at now seconds ≤ℤ maximum_age
  pub digest :
      decode_hex (value_of "v1" header) ≡ some (mac secret (value_of "t" header ++ (46 ∷ body)))

unless_true : (b : Bool) → not b ≡ true → b ≡ false
unless_true true h = absurd (cc)
unless_true false h = refl

matches-some :
    (mac : Mac) (secret body timestamp : List ℕ) (o : Option (List ℕ))
    → matches mac secret body timestamp o ≡ true
    → o ≡ some (mac secret (signed_text timestamp body))
matches-some mac secret body timestamp none h = absurd (cc)
matches-some mac secret body timestamp (some provided) h =
    ap some (codes_eq_sound provided (mac secret (signed_text timestamp body)) h)

is_timely-some :
    (now : Instant) (maximum_age : ℤ) (o : Option ℤ)
    → is_timely now maximum_age o ≡ true
    → (seconds : ℤ) × (o ≡ some seconds)
      × (pos 0 -ℤ maximum_age ≤ℤ age_at now seconds)
      × (age_at now seconds ≤ℤ maximum_age)
is_timely-some now maximum_age none h = absurd (cc)
is_timely-some now maximum_age (some seconds) h = (seconds, refl, ground arith, ground arith)

secret-given : (secret : List ℕ) → codes_eq secret [] ≡ false → secret ≢ []
unfolding codes_eq
secret-given [] h = absurd (cc)
secret-given (b ∷ bs) h = λ e. cc

pub validate_action_signature-IsSigned :
    (mac : Mac) (body : List ℕ) (header : String) (secret : List ℕ) (now : Instant)
    (maximum_age : ℤ)
    → validate_action_signature mac body header secret now maximum_age ≡ true
    → IsSigned mac body header secret now maximum_age
unfolding validate_action_signature
validate_action_signature-IsSigned mac body header secret now maximum_age h =
    let g = read_header header in
    let same = read_header-value_of header in
    let (given, valid) = both _ _ h in
    let (some_secret, positive) = both _ _ given in
    let (timely, matching) = both _ _ valid in
    let (seconds, parsed, early, late) =
      is_timely-some now maximum_age (parse_int g.timestamp) timely in
    let digest = matches-some mac secret body g.timestamp (decode_hex g.value) matching in
    record {
      secret_given = secret-given secret (unless_true _ some_secret);
      age_given = ground arith;
      seconds = seconds;
      timestamp = rw (← ap (λ x. x.timestamp) same) parsed;
      not_early = early;
      not_late = late;
      digest = rw (← ap (λ x. x.timestamp) same, ← ap (λ x. x.value) same) digest;
    }

codes_eq_refl : (a : List ℕ) → codes_eq a a ≡ true
unfolding codes_eq
codes_eq_refl [] = refl
codes_eq_refl (c ∷ cs) = rw ((==_iff c c).1 refl, codes_eq_refl cs) refl

given-not : (secret : List ℕ) → secret ≢ [] → not (codes_eq secret []) ≡ true
unfolding codes_eq
given-not [] h = absurd (h refl)
given-not (b ∷ bs) h = refl

is_fresh-true :
    (maximum_age age : ℤ)
    → pos 0 -ℤ maximum_age ≤ℤ age
    → age ≤ℤ maximum_age
    → is_fresh maximum_age age ≡ true
is_fresh-true maximum_age age early late = ground arith

positive-true : (n : ℤ) → pos 0 <ℤ n → ltb_ℤ (pos 0) n ≡ true
positive-true n h = ground arith

IsSigned-validate_action_signature :
    (mac : Mac) (body : List ℕ) (header : String) (secret : List ℕ) (now : Instant)
    (maximum_age : ℤ)
    → IsSigned mac body header secret now maximum_age
    → validate_action_signature mac body header secret now maximum_age ≡ true
unfolding validate_action_signature
IsSigned-validate_action_signature mac body header secret now maximum_age h =
    let same = read_header-value_of header in
    let age = age_at now h.seconds in
    rw
      (
        same,
        given-not secret h.secret_given,
        positive-true maximum_age h.age_given,
        h.timestamp,
        h.digest,
        is_fresh-true maximum_age age h.not_early h.not_late,
      )
      (codes_eq_refl (mac secret (signed_text (value_of "t" header) body)))

-- A request passes the validation exactly if it is signed: there are a secret and a positive maximum
-- age, the last value under `t` is a timestamp within the maximum age of the current time, and the last
-- value under `v1` is the digest, in hexadecimal, of that timestamp, a dot and the body.
pub validate_action_signature_iff :
    (mac : Mac) (body : List ℕ) (header : String) (secret : List ℕ) (now : Instant)
    (maximum_age : ℤ)
    → (validate_action_signature mac body header secret now maximum_age ≡ true)
      ↔ IsSigned mac body header secret now maximum_age
validate_action_signature_iff mac body header secret now maximum_age = (
  validate_action_signature-IsSigned mac body header secret now maximum_age,
  IsSigned-validate_action_signature mac body header secret now maximum_age,
)
