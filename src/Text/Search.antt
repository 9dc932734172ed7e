-- ===== src/Text/Search.antt =====
-- Theorems on `contains`, which the query guard searches with.
use pairdbase.Common.{
  ◌≡◌, refl, ◌↔◌, true, [], ◌∷◌, ◌++◌, arith, Bool-cases, inl, inr, ap, ◌∙◌, sym, append_assoc,
  append-nil,
}
use pairdbase.Text.{Text, starts_with, contains}

-- The text holds the pattern, between two other parts.
abbrev pub Occurs : Text → Text → Type 0
Occurs p t = (pre : Text) × (post : Text) × (t ≡ pre ++ (p ++ post))

pub starts_with-append : (p t : Text) → starts_with p (p ++ t) ≡ true
unfolding starts_with
starts_with-append [] t = refl
starts_with-append (c ∷ p) t = ground (arith, starts_with-append p t)

starts_with→append : (p t : Text) → starts_with p t ≡ true → (post : Text) × (t ≡ p ++ post)
unfolding starts_with
starts_with→append [] t h = (t, refl)
starts_with→append (c ∷ p) [] h = cc
starts_with→append (c ∷ p) (d ∷ t) h =
    let (post, e) = starts_with→append p t (ground arith) in (post, ground arith)

contains-here : (p t : Text) → starts_with p t ≡ true → contains p t ≡ true
unfolding contains
contains-here p [] h = h
contains-here p (c ∷ t) h = rw h

contains-append : (pre p post : Text) → contains p (pre ++ (p ++ post)) ≡ true
unfolding contains
contains-append [] p post = contains-here p (p ++ post) (starts_with-append p post)
contains-append (c ∷ pre) p post = ground (arith, contains-append pre p post)

contains→Occurs : (p t : Text) → contains p t ≡ true → Occurs p t
unfolding contains
contains→Occurs p [] h = let (post, e) = starts_with→append p [] h in ([], post, e)
contains→Occurs p (c ∷ t) h = elim (Bool-cases (starts_with p (c ∷ t))) [
  | inl here ↦ (let (post, e) = starts_with→append p (c ∷ t) here in ([], post, e))
  | inr later ↦ (let (pre, post, e) = contains→Occurs p t (ground arith) in (c ∷ pre, post, rw e))
]

-- `contains` answers whether the pattern occurs.
pub contains_iff : (p t : Text) → (contains p t ≡ true) ↔ Occurs p t
contains_iff p t = (contains→Occurs p t, λ o. rw o.2 (contains-append o.0 p o.1))

-- Between two other parts a text is found.
pub contains-between : (pre p post : Text) → contains p (pre ++ p ++ post) ≡ true
contains-between pre p post = ap (contains p) (append_assoc pre p post) ∙ contains-append pre p post

pub contains-last : (pre p : Text) → contains p (pre ++ p) ≡ true
contains-last pre p =
    ap (λ z. contains p (pre ++ z)) (sym (append-nil p)) ∙ contains-append pre p []
