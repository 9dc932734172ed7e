-- ===== src/Email/Replacing.antt =====
-- One variable put in: `str::replace` on texts without braces
-- (crates/app/src/services/email/renderer.rs).
use pairdbase.Common.{
  ℕ, ◌≡◌, refl, Bool, false, ◌||◌, [], ◌∷◌, ◌++◌, arith, length, append_assoc, any_of, ap, ◌∙◌, sym,
  ◌==◌, Bool-cases, inl, inr, if◌then◌else◌,
}
use pairdbase.Text.{Text, codes, starts_with, text_eq, text_eq→≡}
use pairdbase.Text.Search.{starts_with-append}
use pairdbase.Email.Renderer.{replace_from, replace, placeholder}

abbrev pub is_open : ℕ → Bool
is_open c = c == 123

abbrev is_brace : ℕ → Bool
is_brace c = c == 123 || c == 125

-- No text has an opening brace, and no key has a brace.
abbrev pub IsPlain : Text → Type 0
IsPlain w = any_of is_open w ≡ false

abbrev pub IsKey : Text → Type 0
IsKey key = any_of is_brace key ≡ false

module _ (key value : Text) where
  -- What has no opening brace is passed over.
  pub replace-plain :
      (w t : Text)
      → IsPlain w
      → replace (placeholder key) value (w ++ t) ≡ w ++ replace (placeholder key) value t
  unfolding replace_from starts_with
  replace-plain [] t h = refl
  replace-plain (c ∷ w) t h = ground (arith, replace-plain w t)

skip-append : (p value v t : Text) → replace_from p value (length v) (v ++ t) ≡ replace p value t
unfolding replace_from
skip-append p value [] t = refl
skip-append p value (c ∷ v) t = skip-append p value v t

replace-here :
    (c : ℕ) (p value t : Text)
    → replace (c ∷ p) value ((c ∷ p) ++ t) ≡ value ++ replace (c ∷ p) value t
unfolding replace_from
replace-here c p value t =
    let e = starts_with-append (c ∷ p) t in
    rw (e, replace_from)
      (ap (λ z. value ++ z)
        (ap (λ n. replace_from (c ∷ p) value n (p ++ t)) (omega arith)
          ∙ skip-append (c ∷ p) value p t))

-- The end of a placeholder tells where its key ends.
starts_with-key :
    (key k t : Text)
    → IsKey key
    → IsKey k
    → text_eq k key ≡ false
    → starts_with (key ++ codes "}}") (k ++ (codes "}}" ++ t)) ≡ false
unfolding starts_with text_eq
starts_with-key [] [] t h h' n = absurd cc
starts_with-key [] (c ∷ k) t h h' n = ground arith
starts_with-key (c ∷ key) [] t h h' n = ground arith
starts_with-key (c ∷ key) (d ∷ k) t h h' n = ground (arith, starts_with-key key k t)

key-IsPlain : (key : Text) → IsKey key → IsPlain (key ++ codes "}}")
key-IsPlain [] h = refl
key-IsPlain (c ∷ key) h = ground (arith, key-IsPlain key)

module _ (key value : Text) (is_key : IsKey key) where
  -- An opening brace that no second one follows is passed over.
  replace-brace :
      (k t : Text)
      → IsKey k
      → replace (placeholder key) value (123 ∷ (k ++ (codes "}}" ++ t)))
        ≡ 123 ∷ replace (placeholder key) value (k ++ (codes "}}" ++ t))
  unfolding replace_from starts_with
  replace-brace [] t h = ground arith
  replace-brace (c ∷ k) t h = ground arith

  replace-other :
      (k t : Text)
      → IsKey k
      → text_eq k key ≡ false
      → replace (placeholder key) value (123 ∷ 123 ∷ (k ++ (codes "}}" ++ t)))
        ≡ 123 ∷ 123 ∷ (k ++ (codes "}}" ++ replace (placeholder key) value t))
  unfolding replace_from starts_with
  replace-other k t h n =
      let e = starts_with-key key k t is_key h n in
      let b = codes "}}" in
      rw (e, replace_from, starts_with)
        (ap (λ z. 123 ∷ z)
          (replace-brace k t h
            ∙ ap (λ z. 123 ∷ z)
                (ap (replace (placeholder key) value) (sym (append_assoc k b t))
                  ∙ replace-plain key value (k ++ b) t (key-IsPlain k h)
                  ∙ append_assoc k b (replace (placeholder key) value t))))

  pub replace-place :
      (k t : Text)
      → IsKey k
      → replace (placeholder key) value (placeholder k ++ t)
        ≡ (if text_eq k key then value else placeholder k) ++ replace (placeholder key) value t
  replace-place k t h =
      let b = codes "}}" in
      let open_in : Text → Text = λ z. 123 ∷ 123 ∷ z in
      let done = replace (placeholder key) value t in
      elim (Bool-cases (text_eq k key)) [
        | inl e ↦ rw (e) (
            ap (λ z. replace (placeholder key) value (placeholder z ++ t)) (text_eq→≡ k key e)
            ∙ replace-here 123 (123 ∷ (key ++ b)) value t)
        | inr e ↦ rw (e) (
            ap (λ z. replace (placeholder key) value (open_in z)) (append_assoc k b t)
            ∙ replace-other k t h e
            ∙ ap open_in (sym (append_assoc k b done)))
      ]
