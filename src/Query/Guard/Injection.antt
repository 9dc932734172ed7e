-- ===== src/Query/Guard/Injection.antt =====
-- The search for injection patterns, against the plain statement that none of them occurs.
use pairdbase.Common.{
  ℕ, ◌<◌, map, ◌≡◌, refl, ◌↔◌, ◌∙◌, none, List, [], ◌∷◌, arith, Every, Bool-cases, inl, inr,
}
use pairdbase.Text.{IsAscii, ascii_lower, Text, Unicode, contains, codes}
use pairdbase.Text.Search.{Occurs, contains_iff}
use pairdbase.Text.Words.{split_whitespace-Every, join-Every, split_whitespace-join_lem}
use pairdbase.Query.Guard.{scan, normalize, check_injection, injection_patterns}

-- No pattern of the list occurs in the text.
abbrev pub IsClean : Text → List (Text × Text) → Type 0
IsClean n patterns = Every (λ p. ¬ Occurs p.0 n) patterns

scan→IsClean : (n : Text) (ps : List (Text × Text)) → scan n ps ≡ none → IsClean n ps
unfolding scan
scan→IsClean n [] h = tt
scan→IsClean n ((p, d) ∷ ps) h = elim (Bool-cases (contains p n)) [
  | inl hit ↦ absurd (let e = rw hit at h in cc)
  | inr miss ↦ ((λ o. let hit = (contains_iff p n).1 o in cc), scan→IsClean n ps (ground arith))
]

IsClean→scan : (n : Text) (ps : List (Text × Text)) → IsClean n ps → scan n ps ≡ none
unfolding scan
IsClean→scan n [] h = refl
IsClean→scan n ((p, d) ∷ ps) h = elim (Bool-cases (contains p n)) [
  | inl hit ↦ absurd (h.0 ((contains_iff p n).0 hit))
  | inr miss ↦ rw miss (IsClean→scan n ps h.1)
]

-- The check passes exactly the queries in whose normal form no pattern occurs.
pub check_injection-IsClean :
    (u : Unicode) (query : Text)
    → (check_injection u query ≡ none) ↔ IsClean (normalize u query) injection_patterns
unfolding check_injection
check_injection-IsClean u query = (
  scan→IsClean (normalize u query) injection_patterns,
  IsClean→scan (normalize u query) injection_patterns,
)

-- An ASCII character that is its own lower case.
abbrev IsLower : ℕ → Type 0
IsLower c = (c < 128) × (ascii_lower c ≡ c)

map-ascii_lower-IsLower : (t : Text) → IsAscii t → Every IsLower (map ascii_lower t)
unfolding ascii_lower
map-ascii_lower-IsLower [] h = tt
map-ascii_lower-IsLower (c ∷ t) h = (ground arith, map-ascii_lower-IsLower t h.1)

IsLower-fixed : (t : Text) → Every IsLower t → IsAscii t × (map ascii_lower t ≡ t)
IsLower-fixed [] h = (tt, refl)
IsLower-fixed (c ∷ t) h = let (a, e) = IsLower-fixed t h.1 in ((h.0.0, a), rw (h.0.1, e))

normalize-IsLower : (u : Unicode) (query : Text) → IsAscii query → Every IsLower (normalize u query)
unfolding normalize ascii_lower
normalize-IsLower u query h = join-Every IsLower (codes " ") _ (omega arith) (
    split_whitespace-Every IsLower _
      (rw (u.to_lowercase_ascii query h) (map-ascii_lower-IsLower query h)))

lower-normalize :
    (u : Unicode) (query : Text)
    → IsAscii query
    → u.to_lowercase (normalize u query) ≡ normalize u query
lower-normalize u query h =
    let (a, e) = IsLower-fixed (normalize u query) (normalize-IsLower u query h) in
    u.to_lowercase_ascii (normalize u query) a ∙ e

-- The normal form of an ASCII query is its own normal form.
pub normalize_idem :
    (u : Unicode) (query : Text)
    → IsAscii query
    → normalize u (normalize u query) ≡ normalize u query
unfolding normalize ascii_lower
normalize_idem u query h =
    rw (lower-normalize u query h) (split_whitespace-join_lem (u.to_lowercase query))
