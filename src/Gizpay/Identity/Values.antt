-- ===== src/Gizpay/Identity/Values.antt =====
-- The values in a signature header (validateActionSignature, internal/gizpay/handler.go).
use mathlib.Core.Option
use Prim.Native.String.{String}
use gizway.Prelude.{
  ℕ, true, false, ◌==◌, ==_iff, Option, none, some, List, [], ◌∷◌, ◌≡◌, refl, sym, ◌∙◌, inl, inr,
  Bool-cases, if◌then◌else◌,
}
use gizway.Text.{codes, split, codes_eq, trim_left, trim_right}
use gizway.Gizpay.Identity.Signature.{Signature, cut, cut_part, note_value, read_parts, read_header}

-- The rest of a part that starts with a name and `=`.
abbrev pub under : List ℕ → List ℕ → Option (List ℕ)
under name [] = none
under [] (c ∷ cs) = if c == 61 then some cs else none
under (n ∷ ns) (c ∷ cs) = let rest = under ns cs in if c == n then rest else none

abbrev add : Option (List ℕ) → List (List ℕ) → List (List ℕ)
add none vs = vs
add (some v) vs = v ∷ vs

-- The values under a name, in the order of the parts, without the space around a part.
abbrev pub values_under : List ℕ → List (List ℕ) → List (List ℕ)
values_under name [] = []
values_under name (p ∷ ps) = add (under name (trim_right (trim_left p))) (values_under name ps)

abbrev pub last_of : List ℕ → List (List ℕ) → List ℕ
last_of v [] = v
last_of v (w ∷ ws) = last_of w ws

-- The last value under a name of a header with commas between its parts; none is empty.
abbrev pub value_of : String → String → List ℕ
value_of name header = last_of [] (values_under (codes name) (split 44 (codes header)))

pub codes_eq_sound : (a b : List ℕ) → codes_eq a b ≡ true → a ≡ b
unfolding codes_eq
codes_eq_sound [] [] h = refl
codes_eq_sound [] (c ∷ cs) h = absurd (cc)
codes_eq_sound (b ∷ bs) [] h = absurd (cc)
codes_eq_sound (b ∷ bs) (c ∷ cs) h = elim (Bool-cases (b == c)) [
  | inl same ↦
      let tail : codes_eq bs cs ≡ true = rw same at h in
      rw ((==_iff b c).0 same, codes_eq_sound bs cs tail) refl
  | inr other ↦ let no : false ≡ true = rw other at h in absurd (cc)
]

-- What cut makes of the part.
abbrev pick : List ℕ → Option (List ℕ × List ℕ) → Option (List ℕ)
pick name none = none
pick name (some (k, v)) = if codes_eq k name then some v else none

abbrev IsFree : List ℕ → Type 0
IsFree [] = Unit
IsFree (n ∷ ns) = ((61 == n) ≡ false) × IsFree ns

pick-map :
    (c n : ℕ) (ns : List ℕ) (o : Option (List ℕ × List ℕ))
    → pick (n ∷ ns) (Option.map (λ p. (c ∷ p.0, p.1)) o) ≡ (if c == n then pick ns o else none)
unfolding codes_eq
pick-map c n ns none = elim (Bool-cases (c == n)) [
  | inl same ↦ rw same refl
  | inr other ↦ rw other refl
]
pick-map c n ns (some (k, v)) = elim (Bool-cases (c == n)) [
  | inl same ↦ rw same refl
  | inr other ↦ rw other refl
]

pick-map_nil :
    (c : ℕ) (o : Option (List ℕ × List ℕ)) → pick [] (Option.map (λ p. (c ∷ p.0, p.1)) o) ≡ none
unfolding codes_eq
pick-map_nil c none = refl
pick-map_nil c (some (k, v)) = refl

under-pick : (name p : List ℕ) → IsFree name → under name p ≡ pick name (cut 61 p)
unfolding cut codes_eq
under-pick name [] free = refl
under-pick [] (c ∷ cs) free = elim (Bool-cases (c == 61)) [
  | inl here ↦ rw here refl
  | inr other ↦ rw other (sym (pick-map_nil c (cut 61 cs)))
]
under-pick (n ∷ ns) (c ∷ cs) free = elim (Bool-cases (c == 61)) [
  | inl here ↦ let no : (c == n) ≡ false = rw ((==_iff c 61).0 here) (free.0) in rw (here, no) refl
  | inr other ↦ rw (other, under-pick ns cs (free.1)) (sym (pick-map c n ns (cut 61 cs)))
]

abbrev or_keep : List ℕ → Option (List ℕ) → List ℕ
or_keep v none = v
or_keep v (some w) = w

note_value-under :
    (g : Signature) (o : Option (List ℕ × List ℕ))
    → note_value g o ≡ record {
      timestamp = or_keep g.timestamp (pick (codes "t") o);
      value = or_keep g.value (pick (codes "v1") o);
    }
unfolding codes_eq
note_value-under g none = refl
note_value-under g (some (k, v)) = elim (Bool-cases (codes_eq k (codes "t"))) [
  | inl time ↦ let same = codes_eq_sound k (codes "t") time in rw same refl
  | inr other ↦ elim (Bool-cases (codes_eq k (codes "v1"))) [
    | inl value ↦ rw (other, value) refl
    | inr neither ↦ rw (other, neither) refl
  ]
]

last_of-add :
    (v : List ℕ) (o : Option (List ℕ)) (vs : List (List ℕ))
    → last_of (or_keep v o) vs ≡ last_of v (add o vs)
last_of-add v none vs = refl
last_of-add v (some w) vs = refl

-- The loop keeps the last value under each of the two names.
read_parts-last_of :
    (g : Signature) (parts : List (List ℕ))
    → read_parts g parts ≡ record {
      timestamp = last_of g.timestamp (values_under (codes "t") parts);
      value = last_of g.value (values_under (codes "v1") parts);
    }
unfolding read_parts
read_parts-last_of g [] = refl
read_parts-last_of g (p ∷ ps) =
    let part = trim_right (trim_left p) in
    let t = under-pick (codes "t") part (refl, tt) in
    let v = under-pick (codes "v1") part (refl, (refl, tt)) in
    read_parts-last_of (note_value g (cut_part p)) ps
    ∙ rw (note_value-under g (cut_part p), t, v, last_of-add, last_of-add) refl

-- What the header is read as.
pub read_header-value_of :
    (header : String)
    → read_header header ≡ record { timestamp = value_of "t" header; value = value_of "v1" header }
read_header-value_of header =
    read_parts-last_of (record { timestamp = []; value = [] }) (split 44 (codes header))
