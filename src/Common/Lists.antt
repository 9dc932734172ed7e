-- ===== src/Common/Lists.antt =====
-- Lists measured by native numbers, and lists searched by a Boolean test.
use Prim.Native.Nat.{ℕ, zero, suc, ◌-◌, ◌+◌, ◌≤◌, min}
use mathlib.Core.Path.{◌≡◌, refl, ap, subst, ◌∙◌}
use mathlib.Core.Bool.{Bool, true, false, ◌||◌}
use mathlib.Core.List.{List, [], ◌∷◌, ◌++◌, map, reverse, reverse-cons}
use mathlib.Core.Option.{Option, none, some}
use native.Mathlib.Omega.{arith}
use pairdbase.Common.Tests.{◌==◌, leb, if◌then◌else◌, Bool-cases}
use mathlib.Core.Logic.{inl, inr}
use pairdbase.Common.Results.{Result, ok, err}

module _ {ℓ} {A : Type ℓ} where
  abbrev pub length : List A → ℕ
  length [] = 0
  length (x ∷ xs) = suc (length xs)

  abbrev pub take : ℕ → List A → List A
  take zero xs = []
  take (suc n) [] = []
  take (suc n) (x ∷ xs) = x ∷ take n xs

  abbrev pub drop : ℕ → List A → List A
  drop zero xs = xs
  drop (suc n) [] = []
  drop (suc n) (x ∷ xs) = drop n xs

  -- `Iterator::filter` with a Boolean test.
  abbrev pub keep : (A → Bool) → List A → List A
  keep p [] = []
  keep p (x ∷ xs) = let rest = keep p xs in if p x then x ∷ rest else rest

  -- `Iterator::find`.
  abbrev pub find : (A → Bool) → List A → Option A
  find p [] = none
  find p (x ∷ xs) = let rest = find p xs in if p x then some x else rest

  -- `Iterator::any`.
  abbrev pub any_of : (A → Bool) → List A → Bool
  any_of p [] = false
  any_of p (x ∷ xs) = p x || any_of p xs

  -- `UPDATE .. SET .. WHERE ..`.
  abbrev pub update_rows : (A → Bool) → (A → A) → List A → List A
  update_rows p f [] = []
  update_rows p f (x ∷ xs) = (if p x then f x else x) ∷ update_rows p f xs

  -- `Iterator::collect` of results into a result: the first error, if there is one.
  abbrev pub collect {κ μ} :
      {E : Type κ} {B : Type μ} → (A → Result E B) → List A → Result E (List B)
  collect f [] = ok []
  collect f (x ∷ xs) = elim (f x) [
    | err e ↦ err e
    | ok y ↦ elim (collect f xs) [ err e ↦ err e | ok ys ↦ ok (y ∷ ys) ]
  ]

  -- `Option::map(..).transpose()`.
  abbrev pub transpose {κ μ} :
      {E : Type κ} {B : Type μ} → (A → Result E B) → Option A → Result E (Option B)
  transpose f none = ok none
  transpose f (some x) = elim (f x) [ err e ↦ err e | ok y ↦ ok (some y) ]

  abbrev pub first : List A → Option A
  first [] = none
  first (x ∷ xs) = some x

  -- `ORDER BY` a number, the rows of equal numbers in the order of the table.
  abbrev pub insert_by : (A → ℕ) → A → List A → List A
  insert_by key x [] = x ∷ []
  insert_by key x (y ∷ ys) =
      let rest = insert_by key x ys in if leb (key x) (key y) then x ∷ y ∷ ys else y ∷ rest

  abbrev pub sort_by : (A → ℕ) → List A → List A
  sort_by key [] = []
  sort_by key (x ∷ xs) = insert_by key x (sort_by key xs)

  -- Every entry satisfies the predicate.
  abbrev pub Every {κ} : (A → Type κ) → List A → Type κ
  Every P [] = Unit
  Every P (x ∷ xs) = P x × Every P xs

  pub length-append : (xs ys : List A) → length (xs ++ ys) ≡ length xs + length ys
  length-append [] ys = omega arith
  length-append (x ∷ xs) ys = omega (arith, length-append xs ys)

  pub length-take : (n : ℕ) (xs : List A) → length (take n xs) ≡ min n (length xs)
  length-take zero xs = omega arith
  length-take (suc n) [] = omega arith
  length-take (suc n) (x ∷ xs) = omega (arith, length-take n xs)

  pub take-append-drop : (n : ℕ) (xs : List A) → take n xs ++ drop n xs ≡ xs
  take-append-drop zero xs = refl
  take-append-drop (suc n) [] = refl
  take-append-drop (suc n) (x ∷ xs) = rw (take-append-drop n xs)

  pub length-drop : (n : ℕ) (xs : List A) → length (drop n xs) ≡ length xs - n
  length-drop zero xs = omega arith
  length-drop (suc n) [] = omega arith
  length-drop (suc n) (x ∷ xs) = omega (arith, length-drop n xs)

  pub drop-eq-nil : (n : ℕ) (xs : List A) → length xs ≤ n → drop n xs ≡ []
  drop-eq-nil zero [] h = refl
  drop-eq-nil zero (x ∷ xs) h = absurd (omega arith)
  drop-eq-nil (suc n) [] h = refl
  drop-eq-nil (suc n) (x ∷ xs) h = drop-eq-nil n xs (omega arith)

  pub length-keep-le : (p : A → Bool) (xs : List A) → length (keep p xs) ≤ length xs
  length-keep-le p [] = omega arith
  length-keep-le p (x ∷ xs) = ground (arith, length-keep-le p xs)

module _ {ℓ} {A : Type ℓ} where
  pub length-map {κ} : {B : Type κ} (xs : List A) (f : A → B) → length (map f xs) ≡ length xs
  length-map [] f = refl
  length-map (x ∷ xs) f = ap suc (length-map xs f)

-- Whether a number occurs in a list.
abbrev pub mem : ℕ → List ℕ → Bool
mem a [] = false
mem a (x ∷ xs) = x == a || mem a xs

pub mem-append : (a : ℕ) (xs ys : List ℕ) → mem a (xs ++ ys) ≡ (mem a xs || mem a ys)
mem-append a [] ys = refl
mem-append a (x ∷ xs) ys = ground (arith, mem-append a xs ys)

pub transpose-eq-some {ℓ κ μ} :
    {A : Type ℓ} {E : Type κ} {B : Type μ} (f : A → Result E B) (o : Option A) {y : B}
    → transpose f o ≡ ok (some y)
    → (x : A) × (o ≡ some x) × (f x ≡ ok y)
transpose-eq-some f none h = cc
transpose-eq-some f (some x) h = (x, refl, ground arith)

pub find-holds {ℓ} :
    {A : Type ℓ} (p : A → Bool) (xs : List A) (x : A) → find p xs ≡ some x → p x ≡ true
find-holds p [] x h = cc
find-holds p (y ∷ ys) x h = ground (arith, find-holds p ys x)

pub append-Every {ℓ κ} :
    {A : Type ℓ} (P : A → Type κ) (xs ys : List A) → Every P xs → Every P ys → Every P (xs ++ ys)
append-Every P [] ys h k = k
append-Every P (x ∷ xs) ys h k = (h.0, append-Every P xs ys h.1 k)

pub find-Every {ℓ κ} :
    {A : Type ℓ} (P : A → Type κ) (p : A → Bool) (xs : List A) (x : A)
    → Every P xs
    → find p xs ≡ some x
    → P x
find-Every P p [] x h e = absurd cc
find-Every P p (y ∷ ys) x h e = elim (Bool-cases (p y)) [
  | inl k ↦ (let here : y ≡ x = ground arith in subst P here h.0)
  | inr k ↦ find-Every P p ys x h.1 (ground arith)
]

pub transpose-some {ℓ κ μ} :
    {A : Type ℓ} {E : Type κ} {B : Type μ} (f : A → Result E B) (x : A) {y : B}
    → f x ≡ ok y
    → transpose f (some x) ≡ ok (some y)
transpose-some f x h = ground arith

module _ {ℓ} {A : Type ℓ} (p : A → Bool) where
  pub any_of-append : (xs ys : List A) → any_of p (xs ++ ys) ≡ any_of p xs || any_of p ys
  any_of-append [] ys = refl
  any_of-append (x ∷ xs) ys = ground (arith, any_of-append xs ys)

  pub any_of-reverse : (xs : List A) → any_of p (reverse xs) ≡ any_of p xs
  any_of-reverse [] = refl
  any_of-reverse (x ∷ xs) =
      ap (any_of p) (reverse-cons x xs)
      ∙ ground (arith, any_of-append (reverse xs) (x ∷ []), any_of-reverse xs)

  any_of-insert_by :
      (key : A → ℕ) (x : A) (xs : List A) → any_of p (insert_by key x xs) ≡ p x || any_of p xs
  any_of-insert_by key x [] = refl
  any_of-insert_by key x (y ∷ ys) = ground (arith, any_of-insert_by key x ys)

  pub any_of-sort_by : (key : A → ℕ) (xs : List A) → any_of p (sort_by key xs) ≡ any_of p xs
  any_of-sort_by key [] = refl
  any_of-sort_by key (x ∷ xs) =
      any_of-insert_by key x (sort_by key xs) ∙ ap (λ b. p x || b) (any_of-sort_by key xs)

  pub any_of-keep :
      (q : A → Bool) (x : A) (xs : List A)
      → p x ≡ true
      → q x ≡ true
      → any_of p (keep q (xs ++ x ∷ [])) ≡ true
  any_of-keep q x [] h k = ground arith
  any_of-keep q x (y ∷ ys) h k = ground (arith, any_of-keep q x ys)

pub update_rows-Every {ℓ κ} :
    {A : Type ℓ} (P : A → Type κ) (p : A → Bool) (f : A → A) (xs : List A)
    → ((x : A) → P x → P (f x))
    → Every P xs
    → Every P (update_rows p f xs)
update_rows-Every P p f [] k h = tt
update_rows-Every P p f (x ∷ xs) k h = elim (Bool-cases (p x)) [
  | inl e ↦ (rw e (k x h.0), update_rows-Every P p f xs k h.1)
  | inr e ↦ (rw e h.0, update_rows-Every P p f xs k h.1)
]
