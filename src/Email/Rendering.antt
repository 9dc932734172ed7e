-- ===== src/Email/Rendering.antt =====
-- Rendering as substitution (crates/app/src/services/email/renderer.rs).
use pairdbase.Common.{
  ◌≡◌, refl, Bool, true, false, List, [], ◌∷◌, ◌++◌, Every, ap, ◌∙◌, sym, Bool-cases, inl, inr,
  if◌then◌else◌,
}
use pairdbase.Text.{Text, text_eq}
use pairdbase.Email.Replacing.{IsPlain, IsKey, replace-plain, replace-place}
use pairdbase.Email.Renderer.{replace_from, replace, placeholder, render}

-- A template is made of texts and of places for variables.
pub data Piece : Type 0 where
  literal place : Text → Piece

unfoldable pub written : List Piece → Text
written [] = []
written (literal w ∷ ps) = w ++ written ps
written (place key ∷ ps) = placeholder key ++ written ps

abbrev pub IsPiece : Piece → Type 0
IsPiece (literal w) = IsPlain w
IsPiece (place key) = IsKey key

-- The variable is put in all its places at once.
unfoldable pub fill : Text → Text → List Piece → List Piece
fill key value [] = []
fill key value (literal w ∷ ps) = literal w ∷ fill key value ps
fill key value (place k ∷ ps) =
    (if text_eq k key then literal value else place k) ∷ fill key value ps

written-place :
    (value : Text) (b : Bool) (k : Text) (ps : List Piece)
    → (if b then value else placeholder k) ++ written ps
      ≡ written ((if b then literal value else place k) ∷ ps)
unfolding written
written-place value true k ps = refl
written-place value false k ps = refl

module _ (key value : Text) (is_key : IsKey key) where
  -- The places of the variable are filled, and nothing else is changed.
  replace-written :
      (ps : List Piece)
      → Every IsPiece ps
      → replace (placeholder key) value (written ps) ≡ written (fill key value ps)
  unfolding replace_from written fill
  replace-written [] v = refl
  replace-written (literal w ∷ ps) (h, v) =
      replace-plain key value w (written ps) h ∙ ap (λ z. w ++ z) (replace-written ps v)
  replace-written (place k ∷ ps) (h, v) =
      replace-place key value is_key k (written ps) h
      ∙ ap (λ z. (if text_eq k key then value else placeholder k) ++ z) (replace-written ps v)
      ∙ written-place value (text_eq k key) k (fill key value ps)

-- A value for a key, which is put in without an opening brace of its own.
abbrev pub IsVar : Text × Text → Type 0
IsVar (key, value) = IsKey key × IsPlain value

-- What stands for a key in the end: the first value for it, or its place as it was.
unfoldable pub value_of : List (Text × Text) → Text → Text
value_of [] k = placeholder k
value_of ((key, value) ∷ vars) k = if text_eq k key then value else value_of vars k

-- All variables are put in at once, in one walk over the template.
unfoldable pub substituted : List (Text × Text) → List Piece → Text
substituted vars [] = []
substituted vars (literal w ∷ ps) = w ++ substituted vars ps
substituted vars (place k ∷ ps) = value_of vars k ++ substituted vars ps

substituted-none : (ps : List Piece) → substituted [] ps ≡ written ps
unfolding substituted written value_of
substituted-none [] = refl
substituted-none (literal w ∷ ps) = ap (λ z. w ++ z) (substituted-none ps)
substituted-none (place k ∷ ps) = ap (λ z. placeholder k ++ z) (substituted-none ps)

module _ (key value : Text) where
  fill-IsPiece :
      (ps : List Piece) → IsPlain value → Every IsPiece ps → Every IsPiece (fill key value ps)
  unfolding fill
  fill-IsPiece [] p v = v
  fill-IsPiece (literal w ∷ ps) p (h, v) = (h, fill-IsPiece ps p v)
  fill-IsPiece (place k ∷ ps) p (h, v) = elim (Bool-cases (text_eq k key)) [
    | inl e ↦ rw (e) (p, fill-IsPiece ps p v)
    | inr e ↦ rw (e) (h, fill-IsPiece ps p v)
  ]

  substituted-fill :
      (vars : List (Text × Text)) (ps : List Piece)
      → substituted vars (fill key value ps) ≡ substituted ((key, value) ∷ vars) ps
  unfolding substituted fill value_of
  substituted-fill vars [] = refl
  substituted-fill vars (literal w ∷ ps) = ap (λ z. w ++ z) (substituted-fill vars ps)
  substituted-fill vars (place k ∷ ps) = elim (Bool-cases (text_eq k key)) [
    | inl e ↦ rw (e, substituted) (ap (λ z. value ++ z) (substituted-fill vars ps))
    | inr e ↦ rw (e, substituted) (ap (λ z. value_of vars k ++ z) (substituted-fill vars ps))
  ]

-- Rendering a template variable after variable gives what one walk over it gives that puts in for
-- each place the value of its key, and leaves the places of unknown keys as they are: where the
-- keys are without braces, and the template and the values without an opening brace.
pub render-written :
    (vars : List (Text × Text)) (ps : List Piece)
    → Every IsVar vars
    → Every IsPiece ps
    → render (written ps) vars ≡ substituted vars ps
unfolding render
render-written [] ps h v = sym (substituted-none ps)
render-written ((key, value) ∷ vars) ps ((k, p), h) v =
    ap (λ z. render z vars) (replace-written key value k ps v)
    ∙ render-written vars (fill key value ps) h (fill-IsPiece key value ps p v)
    ∙ substituted-fill key value vars ps
