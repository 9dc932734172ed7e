-- ===== src/Text.antt =====
-- `str` and `String` as lists of code points, with the methods of the standard library that the
-- program calls: `==`, `split`, `split_whitespace`, `join`, `contains`, `trim` and the case of
-- letters. Unicode's tables of letters are a parameter (`Unicode`); white space is written out.
pub mod Search
pub mod Words
use Prim.Native.Char.{code}
use Prim.Native.String.{String}
use mathlib.Core.List.{reverse}
use pairdbase.Common.{
  ℕ, ◌+◌, ◌-◌, ◌/◌, ◌%◌, zero, suc, ◌≤◌, ◌<◌, ◌≡◌, refl, Bool, true, false, not, ◌&&◌, ◌||◌, List,
  [], ◌∷◌, ◌++◌, map, arith, ltb, leb, ◌==◌, if◌then◌else◌, Every, keep, length, Option, none, some,
  Bool-cases, inl, inr, ap, ◌∙◌,
}
use pairdbase.Common.Int.{ℤ, pos, negsuc}

abbrev pub Text : Type 0
Text = List ℕ

-- A literal of the source.
abbrev pub codes : String → Text
codes String.[] = []
codes (String.◌∷◌ c s) = code c ∷ codes s

unfoldable pub text_eq : Text → Text → Bool
text_eq [] [] = true
text_eq [] (d ∷ t) = false
text_eq (c ∷ s) [] = false
text_eq (c ∷ s) (d ∷ t) = c == d && text_eq s t

pub text_eq→≡ : (s t : Text) → text_eq s t ≡ true → s ≡ t
unfolding text_eq
text_eq→≡ [] [] h = refl
text_eq→≡ [] (d ∷ t) h = cc
text_eq→≡ (c ∷ s) [] h = cc
text_eq→≡ (c ∷ s) (d ∷ t) h = ground (arith, text_eq→≡ s t)

pub text_eq_refl : (s : Text) → text_eq s s ≡ true
unfolding text_eq
text_eq_refl [] = refl
text_eq_refl (c ∷ s) = ground (arith, text_eq_refl s)

-- `char::is_whitespace`: the code points with Unicode's property White_Space.
unfoldable pub is_whitespace : ℕ → Bool
is_whitespace c =
    (leb 0x9 c && leb c 0xd)
    || c == 0x20
    || c == 0x85
    || c == 0xa0
    || c == 0x1680
    || (leb 0x2000 c && leb c 0x200a)
    || c == 0x2028
    || c == 0x2029
    || c == 0x202f
    || c == 0x205f
    || c == 0x3000

-- `char::is_ascii_digit`.
unfoldable pub is_ascii_digit : ℕ → Bool
is_ascii_digit c = leb b'0' c && leb c b'9'

unfoldable pub ascii_lower : ℕ → ℕ
ascii_lower c = if leb b'A' c && leb c b'Z' then c + 32 else c

unfoldable pub ascii_upper : ℕ → ℕ
ascii_upper c = if leb b'a' c && leb c b'z' then c - 32 else c

abbrev pub IsAscii : Text → Type 0
IsAscii t = Every (λ c. c < 128) t

-- Unicode's letters: `str::to_lowercase`, `str::to_uppercase` and `char::is_alphanumeric`.
pub record Unicode : Type 0 where
  pub to_lowercase : Text → Text
  pub to_uppercase : Text → Text
  pub is_alphanumeric : ℕ → Bool
  -- On ASCII text the lower case is the ASCII one.
  pub to_lowercase_ascii : (t : Text) → IsAscii t → to_lowercase t ≡ map ascii_lower t
  -- The lower case of a lower-case text is itself.
  pub to_lowercase_idem : (t : Text) → to_lowercase (to_lowercase t) ≡ to_lowercase t
  -- A hyphen is no letter and no digit.
  pub hyphen_not_alphanumeric : is_alphanumeric b'-' ≡ false

pub ascii_lower_idem : (c : ℕ) → ascii_lower (ascii_lower c) ≡ ascii_lower c
unfolding ascii_lower
ascii_lower_idem c = ground arith

pub map-ascii_lower_idem : (t : Text) → map ascii_lower (map ascii_lower t) ≡ map ascii_lower t
map-ascii_lower_idem [] = refl
map-ascii_lower_idem (c ∷ t) = rw (ascii_lower_idem c, map-ascii_lower_idem t)

unfoldable pub is_ascii_alphanumeric : ℕ → Bool
unfolding is_ascii_digit
is_ascii_alphanumeric c =
    is_ascii_digit c || (leb b'A' c && leb c b'Z') || (leb b'a' c && leb c b'z')

pub hyphen_lem : is_ascii_alphanumeric b'-' ≡ false
unfolding is_ascii_alphanumeric
hyphen_lem = refl

-- The tables cut down to ASCII, which meet the laws.
unfoldable pub ascii : Unicode
unfolding is_ascii_alphanumeric
ascii = record {
  to_lowercase = map ascii_lower;
  to_uppercase = map ascii_upper;
  is_alphanumeric = is_ascii_alphanumeric;
  to_lowercase_ascii = λ t h. refl;
  to_lowercase_idem = map-ascii_lower_idem;
  hyphen_not_alphanumeric = hyphen_lem;
}

abbrev pub is_empty : Text → Bool
is_empty [] = true
is_empty (c ∷ t) = false

abbrev cons_head : ℕ → List Text → List Text
cons_head c [] = (c ∷ []) ∷ []
cons_head c (w ∷ ws) = (c ∷ w) ∷ ws

-- `str::split` at each character that passes the test: one piece more than there are such.
unfoldable pub split : (ℕ → Bool) → Text → List Text
split p [] = [] ∷ []
split p (c ∷ t) = let rest = split p t in if p c then [] ∷ rest else cons_head c rest

unfoldable pub split_whitespace : Text → List Text
unfolding split is_whitespace
split_whitespace t = keep (λ w. not (is_empty w)) (split is_whitespace t)

-- `[String]::join`.
unfoldable pub join : Text → List Text → Text
join sep [] = []
join sep (w ∷ []) = w
join sep (w ∷ v ∷ ws) = w ++ (sep ++ join sep (v ∷ ws))

unfoldable pub starts_with : Text → Text → Bool
starts_with [] t = true
starts_with (p ∷ ps) [] = false
starts_with (p ∷ ps) (c ∷ t) = p == c && starts_with ps t

-- `contains pattern text`.
unfoldable pub contains : Text → Text → Bool
unfolding starts_with
contains p [] = starts_with p []
contains p (c ∷ t) = starts_with p (c ∷ t) || contains p t

-- `match s { "a" => x, … }` on a text: the value of the first arm whose literal it is.
unfoldable pub match_text {ℓ} : {A : Type ℓ} → Text → List (Text × A) → Option A
unfolding text_eq
match_text s [] = none
match_text s ((t, a) ∷ arms) = if text_eq s t then some a else match_text s arms

-- Where each arm's literal is the name of its value, a match answers only for the name.
pub match_text-name {ℓ} :
    {A : Type ℓ} (name : A → Text) (s : Text) (arms : List (Text × A)) (a : A)
    → Every (λ arm. arm.0 ≡ name arm.1) arms
    → match_text s arms ≡ some a
    → s ≡ name a
unfolding match_text
match_text-name name s [] a h e = cc
match_text-name name s ((t, b) ∷ arms) a h e =
    ground (arith, text_eq→≡ s t, h.0, match_text-name name s arms a h.1)

skip_whitespace : Text → Text
skip_whitespace [] = []
skip_whitespace (c ∷ t) = let rest = skip_whitespace t in if is_whitespace c then rest else c ∷ t

-- `str::trim`.
unfoldable pub trim : Text → Text
unfolding skip_whitespace is_whitespace
trim t = reverse (skip_whitespace (reverse (skip_whitespace t)))

-- `Display` of a `u64`: 20 rounds write every digit.
unfoldable pub decimal_loop : ℕ → ℕ → Text → Text
decimal_loop zero n acc = acc
decimal_loop (suc fuel) n acc =
    let here = (b'0' + n % 10) ∷ acc in
    let rest = decimal_loop fuel (n / 10) here in if n / 10 == 0 then here else rest

unfoldable pub decimal : ℕ → Text
unfolding decimal_loop
decimal n = decimal_loop 20 n []

-- `Display` of an `i32` or an `i64`.
unfoldable pub decimal_ℤ : ℤ → Text
unfolding decimal
decimal_ℤ (pos n) = decimal n
decimal_ℤ (negsuc n) = b'-' ∷ decimal (n + 1)
