-- ===== src/Connections/Versions/Parsing.antt =====
-- Theorems on ServerVersion::parse of crates/app/src/features/connections/drivers/versions.rs.
use pairdbase.Common.{
  ℕ, zero, suc, ◌+◌, ◌/◌, ◌%◌, ◌^◌, ◌<◌, ◌≡◌, refl, Bool, true, false, not, List, [], ◌∷◌, ◌++◌,
  append-nil, some, arith, ◌==◌, Every, Bool-cases, inl, inr, ap, ◌∙◌,
}
use pairdbase.Text.{Text, is_ascii_digit, decimal, decimal_loop, split, is_empty}
use pairdbase.Text.Words.{split-append, split-piece}
use pairdbase.Connections.Versions.{value, parse_u32, numbers, parse}

value-decimal_loop :
    (fuel n : ℕ) (acc : Text) → n < 10 ^ fuel → value 0 (decimal_loop fuel n acc) ≡ value n acc
unfolding value decimal_loop
value-decimal_loop zero n acc h = ap (λ k. value k acc) (omega arith)
value-decimal_loop (suc fuel) n acc h = elim (Bool-cases (n / 10 == 0)) [
  | inl e ↦ rw e (ap (λ k. value k acc) (ground arith))
  | inr e ↦ rw e (
      value-decimal_loop fuel (n / 10) ((b'0' + n % 10) ∷ acc) (omega arith)
      ∙ ap (λ k. value k acc) (omega arith))
]

abbrev no_digit : ℕ → Bool
no_digit c = not (is_ascii_digit c)

abbrev AllDigits : Text → Type 0
AllDigits t = Every (λ c. no_digit c ≡ false) t

decimal_loop-digits :
    (fuel n : ℕ) (acc : Text) → AllDigits acc → AllDigits (decimal_loop fuel n acc)
unfolding decimal_loop is_ascii_digit
decimal_loop-digits zero n acc h = h
decimal_loop-digits (suc fuel) n acc h = elim (Bool-cases (n / 10 == 0)) [
  | inl e ↦ rw e (ground arith, h)
  | inr e ↦ rw e (decimal_loop-digits fuel (n / 10) ((b'0' + n % 10) ∷ acc) (ground arith, h))
]

decimal-digits : (n : ℕ) → AllDigits (decimal n)
unfolding decimal
decimal-digits n = decimal_loop-digits 20 n [] tt

decimal_loop-not_empty :
    (fuel n c : ℕ) (acc : Text) → is_empty (decimal_loop fuel n (c ∷ acc)) ≡ false
unfolding decimal_loop
decimal_loop-not_empty zero n c acc = refl
decimal_loop-not_empty (suc fuel) n c acc = elim (Bool-cases (n / 10 == 0)) [
  | inl e ↦ rw e
  | inr e ↦ rw e (decimal_loop-not_empty fuel (n / 10) (b'0' + n % 10) (c ∷ acc))
]

decimal-not_empty : (n : ℕ) → is_empty (decimal n) ≡ false
unfolding decimal decimal_loop
decimal-not_empty n = elim (Bool-cases (n / 10 == 0)) [
  | inl e ↦ rw e
  | inr e ↦ rw e (decimal_loop-not_empty 19 (n / 10) (b'0' + n % 10) [])
]

parse_u32-value :
    (t : Text) (n : ℕ) → is_empty t ≡ false → value 0 t ≡ n → n < 2 ^ 32 → parse_u32 t ≡ some n
unfolding parse_u32
parse_u32-value [] n h e l = cc
parse_u32-value (c ∷ t) n h e l = ground arith

parse_u32-decimal : (n : ℕ) → n < 2 ^ 32 → parse_u32 (decimal n) ≡ some n
unfolding decimal value
parse_u32-decimal n h =
    parse_u32-value (decimal n) n (decimal-not_empty n) (value-decimal_loop 20 n [] (omega arith)) h

-- What may stand behind a version: nothing, or a text that begins with no digit.
abbrev pub Ends : Text → Type 0
Ends [] = Unit
Ends (c ∷ t) = is_ascii_digit c ≡ false

split-Ends :
    (w tail : Text)
    → AllDigits w
    → Ends tail
    → (rest : List Text) × (split no_digit (w ++ tail) ≡ w ∷ rest)
split-Ends w [] h e = ([], rw (append-nil w, split-piece no_digit w h))
split-Ends w (c ∷ t) h e = (split no_digit t, split-append no_digit c w t (rw e) h)

dot : no_digit b'.' ≡ true
unfolding is_ascii_digit
dot = refl

-- A version that is written as three numbers of 32 bits with dots between them is read back,
-- whatever follows it, if that does not begin with a digit.
pub parse-decimal :
    (major minor patch : ℕ) (tail : Text)
    → major < 2 ^ 32
    → minor < 2 ^ 32
    → patch < 2 ^ 32
    → Ends tail
    → let raw = decimal major ++ (b'.' ∷ (decimal minor ++ (b'.' ∷ (decimal patch ++ tail)))) in
      parse raw ≡ (record { major = major; minor = minor; patch = patch; raw = raw })
unfolding parse numbers
parse-decimal major minor patch tail h i j e =
    let (rest, k) = split-Ends (decimal patch) tail (decimal-digits patch) e in
    rw (
      split-append no_digit b'.' (decimal major) _ dot (decimal-digits major),
      split-append no_digit b'.' (decimal minor) _ dot (decimal-digits minor),
      k,
      parse_u32-decimal major h,
      parse_u32-decimal minor i,
      parse_u32-decimal patch j,
    )
