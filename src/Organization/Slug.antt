-- ===== src/Organization/Slug.antt =====
-- `slugify` of crates/app/src/features/organization/use_case.rs.
use pairdbase.Common.{
  sym, subst, ℕ, ◌≡◌, refl, ap, ◌∙◌, Bool, true, false, ◌||◌, List, [], ◌∷◌, map, ◌==◌, Every,
  arith, Bool-cases, inl, inr,
}
use pairdbase.Text.{Text, codes, Unicode, join, is_empty}
use pairdbase.Text.Words.{IsPiece, pieces, pieces-IsPiece, pieces-join, pieces-Every, join-Every}
use pairdbase.Organization.Domain.{slug_char, slugify}

abbrev hyphen : ℕ → Bool
hyphen c = c == b'-'

module _ (u : Unicode) where
  -- A word of a slug: not empty, of letters and digits.
  abbrev pub IsSlugWord : Text → Type 0
  IsSlugWord word = (is_empty word ≡ false) × Every (λ c. u.is_alphanumeric c ≡ true) word

  -- Words of letters and digits with one hyphen between two.
  pub record IsSlug (slug : Text) : Type 0 where
    pub words : List Text
    pub joined : slug ≡ join (codes "-") words
    pub are_words : Every IsSlugWord words

  abbrev IsSlugChar : ℕ → Type 0
  IsSlugChar c = (u.is_alphanumeric c || hyphen c) ≡ true

  slug_char-IsSlugChar : (c : ℕ) → IsSlugChar (slug_char u c)
  unfolding slug_char
  slug_char-IsSlugChar c = ground arith

  map-IsSlugChar : (t : Text) → Every IsSlugChar (map (slug_char u) t)
  map-IsSlugChar [] = tt
  map-IsSlugChar (c ∷ t) = (slug_char-IsSlugChar c, map-IsSlugChar t)

  alphanumeric :
      (t : Text)
      → Every IsSlugChar t
      → Every (λ c. hyphen c ≡ false) t
      → Every (λ c. u.is_alphanumeric c ≡ true) t
  alphanumeric [] h k = tt
  alphanumeric (c ∷ t) h k = (ground (arith, h.0, k.0), alphanumeric t h.1 k.1)

  are_slug_words :
      (ws : List Text)
      → Every (Every IsSlugChar) ws
      → Every (IsPiece hyphen) ws
      → Every IsSlugWord ws
  are_slug_words [] h k = tt
  are_slug_words (w ∷ ws) h k = ((k.0.0, alphanumeric w h.0 k.0.1), are_slug_words ws h.1 k.1)

  -- The address of every name is made of words of letters and digits with one hyphen between two:
  -- it has no other character, no hyphen at an end and no two in a row.
  pub slugify-IsSlug : (name : Text) → IsSlug (slugify u name)
  unfolding slugify pieces
  slugify-IsSlug name =
      let mapped = map (slug_char u) (u.to_lowercase name) in
      record {
        words = pieces hyphen mapped;
        joined = refl;
        are_words =
            are_slug_words (pieces hyphen mapped)
              (pieces-Every IsSlugChar hyphen mapped (map-IsSlugChar (u.to_lowercase name)))
              (pieces-IsPiece hyphen mapped);
      }

  not_hyphen : (c : ℕ) → u.is_alphanumeric c ≡ true → hyphen c ≡ false
  not_hyphen c h = elim (Bool-cases (hyphen c)) [
    | inr e ↦ e
    | inl e ↦
        (let here : c ≡ b'-' = ground arith in
          let k : u.is_alphanumeric c ≡ false =
            ap u.is_alphanumeric here ∙ u.hyphen_not_alphanumeric in
          ground arith)
  ]

  word-IsPiece :
      (w : Text) → Every (λ c. u.is_alphanumeric c ≡ true) w → Every (λ c. hyphen c ≡ false) w
  word-IsPiece [] h = tt
  word-IsPiece (c ∷ w) h = (not_hyphen c h.0, word-IsPiece w h.1)

  words-IsPiece : (ws : List Text) → Every IsSlugWord ws → Every (IsPiece hyphen) ws
  words-IsPiece [] h = tt
  words-IsPiece (w ∷ ws) h = ((h.0.0, word-IsPiece w h.0.1), words-IsPiece ws h.1)

  abbrev Fixed : ℕ → Type 0
  Fixed c = slug_char u c ≡ c

  letters-Fixed : (w : Text) → Every (λ c. u.is_alphanumeric c ≡ true) w → Every Fixed w
  unfolding slug_char
  letters-Fixed [] h = tt
  letters-Fixed (c ∷ w) h = (rw h.0, letters-Fixed w h.1)

  words-Fixed : (ws : List Text) → Every IsSlugWord ws → Every (Every Fixed) ws
  words-Fixed [] h = tt
  words-Fixed (w ∷ ws) h = (letters-Fixed w h.0.1, words-Fixed ws h.1)

  hyphen-Fixed : Every Fixed (codes "-")
  unfolding slug_char
  hyphen-Fixed = (rw u.hyphen_not_alphanumeric, tt)

  map-Fixed : (t : Text) → Every Fixed t → map (slug_char u) t ≡ t
  map-Fixed [] h = refl
  map-Fixed (c ∷ t) h = rw (h.0, map-Fixed t h.1)

  words-slugify :
      (ws : List Text)
      → Every IsSlugWord ws
      → u.to_lowercase (join (codes "-") ws) ≡ join (codes "-") ws
      → slugify u (join (codes "-") ws) ≡ join (codes "-") ws
  unfolding slugify pieces
  words-slugify ws h lower =
      ap (λ t. join (codes "-") (pieces hyphen (map (slug_char u) t))) lower
      ∙ ap (λ t. join (codes "-") (pieces hyphen t))
          (map-Fixed (join (codes "-") ws)
            (join-Every Fixed (codes "-") ws hyphen-Fixed (words-Fixed ws h)))
      ∙ ap (join (codes "-")) (pieces-join hyphen b'-' ws refl (words-IsPiece ws h))

  -- An address in lower case that is made of words so is its own address.
  pub IsSlug-slugify :
      (slug : Text) → IsSlug slug → u.to_lowercase slug ≡ slug → slugify u slug ≡ slug
  IsSlug-slugify slug s lower =
      subst (λ t. slugify u t ≡ t) (sym s.joined)
        (words-slugify s.words s.are_words (subst (λ t. u.to_lowercase t ≡ t) s.joined lower))
