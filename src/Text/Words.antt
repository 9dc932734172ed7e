-- ===== src/Text/Words.antt =====
-- Theorems on `split` and `join`, which put a query into its normal form.
use pairdbase.Common.{
  append-Every, ℕ, ◌≡◌, ap, refl, Bool, true, false, not, List, [], ◌∷◌, ◌++◌, Every, keep,
  Bool-cases, inl, inr,
}
use pairdbase.Text.{Text, cons_head, is_whitespace, is_empty, split, split_whitespace, join, codes}

-- Not empty, and without a separator.
abbrev pub IsPiece : (ℕ → Bool) → Text → Type 0
IsPiece p w = (is_empty w ≡ false) × Every (λ c. p c ≡ false) w

-- What `split` makes, less the empty pieces.
unfoldable pub pieces : (ℕ → Bool) → Text → List Text
unfolding split
pieces p t = keep (λ w. not (is_empty w)) (split p t)

module _ (p : ℕ → Bool) where
  pub split-piece : (w : Text) → Every (λ c. p c ≡ false) w → split p w ≡ w ∷ []
  unfolding split
  split-piece [] h = refl
  split-piece (d ∷ w) h = rw (h.0, split-piece w h.1)

  pub split-append :
      (c : ℕ) (w t : Text)
      → p c ≡ true
      → Every (λ c. p c ≡ false) w
      → split p (w ++ (c ∷ t)) ≡ w ∷ split p t
  unfolding split
  split-append c [] t e h = rw e
  split-append c (d ∷ w) t e h = rw (h.0, split-append c w t e h.1)

  -- Joined by a separator, pieces are split again into the same pieces.
  pub pieces-join :
      (c : ℕ) (ws : List Text)
      → p c ≡ true
      → Every (IsPiece p) ws
      → pieces p (join (c ∷ []) ws) ≡ ws
  unfolding pieces join
  pieces-join c [] e h = refl
  pieces-join c (w ∷ []) e h = rw (split-piece w h.0.1, h.0.0)
  pieces-join c (w ∷ v ∷ ws) e h =
      rw (split-append c w (join (c ∷ []) (v ∷ ws)) e h.0.1, h.0.0)
        (unfold pieces in rw (pieces-join c (v ∷ ws) e h.1))

  abbrev Free : List Text → Type 0
  Free ws = Every (λ w. Every (λ c. p c ≡ false) w) ws

  cons_head-Free : (c : ℕ) (ws : List Text) → p c ≡ false → Free ws → Free (cons_head c ws)
  cons_head-Free c [] e h = ((e, tt), tt)
  cons_head-Free c (w ∷ ws) e h = ((e, h.0), h.1)

  split-Free : (t : Text) → Free (split p t)
  unfolding split
  split-Free [] = (tt, tt)
  split-Free (c ∷ t) = elim (Bool-cases (p c)) [
    | inl e ↦ rw e (tt, split-Free t)
    | inr e ↦ rw e (cons_head-Free c (split p t) e (split-Free t))
  ]

  keep-IsPiece : (ws : List Text) → Free ws → Every (IsPiece p) (keep (λ w. not (is_empty w)) ws)
  keep-IsPiece [] h = tt
  keep-IsPiece ([] ∷ ws) h = keep-IsPiece ws h.1
  keep-IsPiece ((c ∷ w) ∷ ws) h = ((refl, h.0), keep-IsPiece ws h.1)

  pub pieces-IsPiece : (t : Text) → Every (IsPiece p) (pieces p t)
  unfolding pieces
  pieces-IsPiece t = keep-IsPiece (split p t) (split-Free t)

-- The words of a text, with one space between two.
pub split_whitespace-join :
    (ws : List Text)
    → Every (IsPiece is_whitespace) ws
    → split_whitespace (join (codes " ") ws) ≡ ws
unfolding split_whitespace pieces is_whitespace
split_whitespace-join ws h = pieces-join is_whitespace b' ' ws refl h

pub split_whitespace-IsPiece : (t : Text) → Every (IsPiece is_whitespace) (split_whitespace t)
unfolding split_whitespace pieces
split_whitespace-IsPiece t = pieces-IsPiece is_whitespace t

-- What holds of every character of a text holds of every character of its words.
module _ {ℓ} (P : ℕ → Type ℓ) (p : ℕ → Bool) where
  cons_head-Every :
      (c : ℕ) (ws : List Text) → P c → Every (Every P) ws → Every (Every P) (cons_head c ws)
  cons_head-Every c [] h k = ((h, tt), tt)
  cons_head-Every c (w ∷ ws) h k = ((h, k.0), k.1)

  split-Every : (t : Text) → Every P t → Every (Every P) (split p t)
  unfolding split
  split-Every [] h = (tt, tt)
  split-Every (c ∷ t) h = elim (Bool-cases (p c)) [
    | inl e ↦ rw e (tt, split-Every t h.1)
    | inr e ↦ rw e (cons_head-Every c (split p t) h.0 (split-Every t h.1))
  ]

keep-Every {ℓ κ} :
    {A : Type ℓ} (P : A → Type κ) (q : A → Bool) (xs : List A) → Every P xs → Every P (keep q xs)
keep-Every P q [] h = tt
keep-Every P q (x ∷ xs) h = elim (Bool-cases (q x)) [
  | inl e ↦ rw e (h.0, keep-Every P q xs h.1)
  | inr e ↦ rw e (keep-Every P q xs h.1)
]

pub pieces-Every {ℓ} :
    (P : ℕ → Type ℓ) (p : ℕ → Bool) (t : Text) → Every P t → Every (Every P) (pieces p t)
unfolding pieces
pieces-Every P p t h = keep-Every (Every P) _ (split p t) (split-Every P p t h)

pub split_whitespace-Every {ℓ} :
    (P : ℕ → Type ℓ) (t : Text) → Every P t → Every (Every P) (split_whitespace t)
unfolding split_whitespace pieces
split_whitespace-Every P t h = pieces-Every P is_whitespace t h

pub join-Every {ℓ} :
    (P : ℕ → Type ℓ) (sep : Text) (ws : List Text)
    → Every P sep
    → Every (Every P) ws
    → Every P (join sep ws)
unfolding join
join-Every P sep [] h k = tt
join-Every P sep (w ∷ []) h k = k.0
join-Every P sep (w ∷ v ∷ ws) h k =
    append-Every P w _ k.0
      (append-Every P sep _ h (unfold join in (join-Every P sep (v ∷ ws) h k.1)))

-- The words of a text, joined by one space, are joined again into the same text.
pub split_whitespace-join_lem :
    (t : Text)
    → join (codes " ") (split_whitespace (join (codes " ") (split_whitespace t)))
      ≡ join (codes " ") (split_whitespace t)
split_whitespace-join_lem t =
    ap (join (codes " ")) (split_whitespace-join (split_whitespace t) (split_whitespace-IsPiece t))
