-- ===== src/Catalog/Parts.antt =====
-- The three parts of a token (strings.Split in fetch, internal/catalogtoken/manager.go).
use Prim.Native.String.{String}
use gizway.Prelude.{
  ℕ, Bool, true, false, not, List, [], ◌∷◌, ◌++◌, ◌==◌, ==_iff, ◌≡◌, ◌↔◌, refl, ap, subst, sym, ◌∙◌,
  inl, inr, Bool-cases, any, arith,
}
use gizway.Text.{codes, split, push_char}
use gizway.Catalog.{is_empty_part, are_jwt_parts, is_opaque}

-- The text has the character.
abbrev pub has : ℕ → List ℕ → Bool
has sep cs = any (λ c. c == sep) cs

-- The parts with the separator between them.
abbrev pub join : ℕ → List (List ℕ) → List ℕ
join sep [] = []
join sep (p ∷ []) = p
join sep (p ∷ q ∷ ps) = p ++ (sep ∷ join sep (q ∷ ps))

abbrev AreFree : ℕ → List (List ℕ) → Type 0
AreFree sep [] = Unit
AreFree sep (p ∷ ps) = (has sep p ≡ false) × AreFree sep ps

split_part : (sep : ℕ) (cs : List ℕ) → (p : List ℕ) × (ps : List (List ℕ)) × (split sep cs ≡ p ∷ ps)
unfolding split
split_part sep [] = ([], [], refl)
split_part sep (c ∷ cs) =
    let (p, ps, same) = split_part sep cs in
    elim (Bool-cases (c == sep)) [
      | inl here ↦ ([], p ∷ ps, rw (here, same) refl)
      | inr other ↦ (c ∷ p, ps, rw (other, same) refl)
    ]

join-push_char :
    (sep c : ℕ) (p : List ℕ) (ps : List (List ℕ))
    → join sep (push_char c (p ∷ ps)) ≡ c ∷ join sep (p ∷ ps)
join-push_char sep c p [] = refl
join-push_char sep c p (q ∷ ps) = refl

join-split : (sep : ℕ) (cs : List ℕ) → join sep (split sep cs) ≡ cs
unfolding split
join-split sep [] = refl
join-split sep (c ∷ cs) =
    let (p, ps, same) = split_part sep cs in
    let ih : join sep (p ∷ ps) ≡ cs = rw (← same) (join-split sep cs) in
    elim (Bool-cases (c == sep)) [
      | inl here ↦ let e = (==_iff c sep).0 here in rw (here, same, ih) (ap (λ x. x ∷ cs) (sym e))
      | inr other ↦ rw (other, same) (join-push_char sep c p ps ∙ ap (λ r. c ∷ r) ih)
    ]

AreFree-split : (sep : ℕ) (cs : List ℕ) → AreFree sep (split sep cs)
unfolding split
AreFree-split sep [] = (refl, tt)
AreFree-split sep (c ∷ cs) =
    let (p, ps, same) = split_part sep cs in
    let ih : AreFree sep (p ∷ ps) = subst (AreFree sep) same (AreFree-split sep cs) in
    elim (Bool-cases (c == sep)) [
      | inl here ↦ rw (here, same) (refl, ih)
      | inr other ↦ rw (other, same) (rw other (ih.0), ih.1)
    ]

split-free : (sep : ℕ) (p : List ℕ) → has sep p ≡ false → split sep p ≡ p ∷ []
unfolding split
split-free sep [] h = refl
split-free sep (c ∷ p) h = elim (Bool-cases (c == sep)) [
  | inl here ↦ absurd (cc (rw here at h))
  | inr other ↦ rw (other, split-free sep p (rw other at h)) refl
]

split-append :
    (sep : ℕ) (p r : List ℕ) → has sep p ≡ false → split sep (p ++ (sep ∷ r)) ≡ p ∷ split sep r
unfolding split
split-append sep [] r h = rw ((==_iff sep sep).1 refl) refl
split-append sep (c ∷ p) r h = elim (Bool-cases (c == sep)) [
  | inl here ↦ absurd (cc (rw here at h))
  | inr other ↦ rw (other, split-append sep p r (rw other at h)) refl
]

-- A part that is neither empty nor has a dot.
pub record IsPart (p : List ℕ) : Type 0 where
  pub filled : is_empty_part p ≡ false
  pub undotted : has 46 p ≡ false

-- Three parts with dots between them.
pub record IsJwt (token : String) : Type 0 where
  pub header : List ℕ
  pub claims : List ℕ
  pub signature : List ℕ
  pub header_part : IsPart header
  pub claims_part : IsPart claims
  pub signature_part : IsPart signature
  pub joined : codes token ≡ header ++ (46 ∷ (claims ++ (46 ∷ signature)))

IsJwt-of_parts :
    (token : String) (ps : List (List ℕ))
    → are_jwt_parts ps ≡ true
    → AreFree 46 ps
    → join 46 ps ≡ codes token
    → IsJwt token
IsJwt-of_parts token [] h f e = absurd (cc)
IsJwt-of_parts token (a ∷ []) h f e = absurd (cc)
IsJwt-of_parts token (a ∷ b ∷ []) h f e = absurd (cc)
IsJwt-of_parts token (a ∷ b ∷ c ∷ []) h (fa, (fb, (fc, u))) e = record {
  header = a;
  claims = b;
  signature = c;
  header_part = record { filled = ground arith; undotted = fa };
  claims_part = record { filled = ground arith; undotted = fb };
  signature_part = record { filled = ground arith; undotted = fc };
  joined = sym e;
}
IsJwt-of_parts token (a ∷ b ∷ c ∷ d ∷ ps) h f e = absurd (cc)

-- A token is not opaque exactly if it is three parts with dots between them, each neither empty nor
-- with a dot.
pub is_opaque_iff : (token : String) → (is_opaque token ≡ false) ↔ IsJwt token
unfolding is_opaque
is_opaque_iff token = (λ h. there (ground arith), back)
  where
    there : are_jwt_parts (split 46 (codes token)) ≡ true → IsJwt token
    there h =
        IsJwt-of_parts token (split 46 (codes token)) h (AreFree-split 46 (codes token))
          (join-split 46 (codes token))

    back : IsJwt token → not (are_jwt_parts (split 46 (codes token))) ≡ false
    back j =
        let a = j.header_part in
        let b = j.claims_part in
        let c = j.signature_part in
        rw
          (
            j.joined,
            split-append 46 j.header (j.claims ++ (46 ∷ j.signature)) a.undotted,
            split-append 46 j.claims j.signature b.undotted,
            split-free 46 j.signature c.undotted,
            a.filled,
            b.filled,
            c.filled,
          )
          refl
