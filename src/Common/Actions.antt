-- ===== src/Common/Actions.antt =====
-- Methods that change a state and may fail: the state that a method leaves is the caller's also
-- where the method fails, as it is with the rows of a database.
use mathlib.Core.Path.{◌≡◌, refl, sym, ap, ◌∙◌, subst}
use mathlib.Core.Bool.{Bool, true, false}
use mathlib.Core.Option.{Option, none, some}
use pairdbase.Common.Results.{Result, ok, err}

abbrev pub Action {ℓ κ μ} : Type ℓ → Type κ → Type μ → Type (ℓ ⊔ κ ⊔ μ)
Action S E A = S → S × Result E A

module _ {ℓ κ} {S : Type ℓ} {E : Type κ} where
  abbrev pub return {μ} : {A : Type μ} → A → Action S E A
  return x s = (s, ok x)

  abbrev pub raise {μ} : {A : Type μ} → E → Action S E A
  raise e s = (s, err e)

  -- What follows a call that left the state `s`.
  abbrev pub continue {μ ν} :
      {A : Type μ} {B : Type ν} → S → Result E A → (A → Action S E B) → S × Result E B
  continue s (ok x) next = next x s
  continue s (err e) next = (s, err e)

  infixl 5 ◌>>=◌ ◌>>◌
  unfoldable pub ◌>>=◌ {μ ν} :
      {A : Type μ} {B : Type ν} → Action S E A → (A → Action S E B) → Action S E B
  (call >>= next) s = continue (call s).0 (call s).1 next

  abbrev pub ◌>>◌ {μ ν} : {A : Type μ} {B : Type ν} → Action S E A → Action S E B → Action S E B
  first >> second = first >>= λ _. second

  -- The state.
  abbrev pub get_state : Action S E S
  get_state s = (s, ok s)

  abbrev pub put_state : S → Action S E (Unit {0})
  put_state new s = (new, ok tt)

  -- An early return of an error unless the test holds.
  abbrev pub require : Bool → E → Action S E (Unit {0})
  require true e = return tt
  require false e = raise e

  -- A result as an action that leaves the state.
  abbrev pub lift {μ} : {A : Type μ} → Result E A → Action S E A
  lift r s = (s, r)

  -- The error of a call, where there is one.
  abbrev pub may_fail : Option E → Action S E (Unit {0})
  may_fail none = return tt
  may_fail (some e) = raise e

  -- A `match` on an option.
  unfoldable pub match_option {μ ν} :
      {A : Type μ} {B : Type ν} → Option A → Action S E B → (A → Action S E B) → Action S E B
  match_option none absent present = absent
  match_option (some x) absent present = present x

  -- The action leaves the state as it is.
  unfoldable pub Reads {μ} : {A : Type μ} → Action S E A → Type ℓ
  Reads act = (s : S) → (act s).0 ≡ s

  pub reads {μ} : {A : Type μ} (act : Action S E A) → ((s : S) → (act s).0 ≡ s) → Reads act
  unfolding Reads
  reads act h = h

  pub Reads-state {μ} : {A : Type μ} (act : Action S E A) → Reads act → (s : S) → (act s).0 ≡ s
  unfolding Reads
  Reads-state act h = h

  pub match_option-Reads {μ ν} :
      {A : Type μ} {B : Type ν} (o : Option A) (absent : Action S E B) (present : A → Action S E B)
      → Reads absent
      → ((x : A) → Reads (present x))
      → Reads (match_option o absent present)
  unfolding match_option
  match_option-Reads none absent present h k = h
  match_option-Reads (some x) absent present h k = k x

  -- The parts of a sequence whose first part only reads.
  module _ {μ ν} {A : Type μ} {B : Type ν} (m : Action S E A) (next : A → Action S E B) where
    continue-ok :
        (r : Result E A) (s t : S) {y : B}
        → t ≡ s
        → (continue t r next).1 ≡ ok y
        → (x : A) × (r ≡ ok x) × ((next x s).1 ≡ ok y)
    continue-ok (ok x) s t h k = (x, refl, ap (λ z. (next x z).1) (sym h) ∙ k)
    continue-ok (err e) s t h k = cc

    pub bind-ok :
        (s : S) {y : B}
        → Reads m
        → ((m >>= next) s).1 ≡ ok y
        → (x : A) × ((m s).1 ≡ ok x) × ((next x s).1 ≡ ok y)
    unfolding ◌>>=◌ Reads
    bind-ok s h k = continue-ok (m s).1 s (m s).0 (h s) k

    continue-state :
        (r : Result E A) (s t : S) {x : A} → t ≡ s → r ≡ ok x → (continue t r next).0 ≡ (next x s).0
    continue-state (ok y) s t {x = x} h e =
        let same : y ≡ x = cc in ap (λ z. (next z t).0) same ∙ ap (λ z. (next x z).0) h
    continue-state (err p) s t h e = cc

    pub bind-state : (s : S) {x : A} → Reads m → (m s).1 ≡ ok x → ((m >>= next) s).0 ≡ (next x s).0
    unfolding ◌>>=◌ Reads
    bind-state s h e = continue-state (m s).1 s (m s).0 (h s) e

    continue-after {ξ} :
        (R : S → S → Type ξ) (r : Result E A) (s t : S)
        → s ≡ t
        → R s s
        → ((x : A) → r ≡ ok x → R s (next x s).0)
        → R s (continue t r next).0
    continue-after R (ok x) s t h base k = subst (λ z. R s (next x z).0) h (k x refl)
    continue-after R (err e) s t h base k = subst (R s) h base

    -- A relation of the states before and after.
    pub after_reading {ξ} :
        (R : S → S → Type ξ) (s : S)
        → Reads m
        → R s s
        → ((x : A) → (m s).1 ≡ ok x → R s (next x s).0)
        → R s ((m >>= next) s).0
    unfolding ◌>>=◌ Reads
    after_reading R s h base k = continue-after R (m s).1 s (m s).0 (sym (h s)) base k

    pub bind-Reads : Reads m → ((x : A) → Reads (next x)) → Reads (m >>= next)
    unfolding Reads
    bind-Reads h k s = after_reading (λ a b. b ≡ a) s h refl (λ x e. k x s)

    continue-run :
        (r : Result E A) (t : S) {y : B}
        → (continue t r next).1 ≡ ok y
        → (x : A) × (r ≡ ok x) × ((next x t).1 ≡ ok y) × ((continue t r next).0 ≡ (next x t).0)
    continue-run (ok x) t h = (x, refl, h, refl)
    continue-run (err e) t h = cc

    -- The parts of a sequence that has a result.
    pub bind-run :
        (s : S) {y : B}
        → ((m >>= next) s).1 ≡ ok y
        → (x : A) × ((m s).1 ≡ ok x)
          × ((next x (m s).0).1 ≡ ok y)
          × (((m >>= next) s).0 ≡ (next x (m s).0).0)
    unfolding ◌>>=◌
    bind-run s h = continue-run (m s).1 (m s).0 h

    continue-writes :
        (r : Result E A) (t : S) → ((x : A) → Reads (next x)) → (continue t r next).0 ≡ t
    unfolding Reads
    continue-writes (ok x) t k = k x t
    continue-writes (err e) t k = refl

    -- The state after a sequence whose other parts only read.
    pub before_reading : (s : S) → ((x : A) → Reads (next x)) → ((m >>= next) s).0 ≡ (m s).0
    unfolding ◌>>=◌
    before_reading s k = continue-writes (m s).1 (m s).0 k

    pub after_writing {ξ} :
        (R : S → S → Type ξ) (s : S)
        → ((x : A) → Reads (next x))
        → R s (m s).0
        → R s ((m >>= next) s).0
    after_writing R s k h = subst (R s) (sym (before_reading s k)) h

  module _ {μ} {A : Type μ} (next : S → Action S E A) (s : S) where
    pub at_state {ξ} : (R : S → S → Type ξ) → R s (next s s).0 → R s ((get_state >>= next) s).0
    unfolding ◌>>=◌
    at_state R h = h

    pub at_state-ok : {y : A} → ((get_state >>= next) s).1 ≡ ok y → (next s s).1 ≡ ok y
    unfolding ◌>>=◌
    at_state-ok h = h

  pub require-ok : (b : Bool) (e : E) (s : S) {u : Unit {0}} → (require b e s).1 ≡ ok u → b ≡ true
  require-ok true e s h = refl
  require-ok false e s h = cc

-- The simple actions only read.
module _ {ℓ κ} (S : Type ℓ) where
  pub return-Reads {μ} : {A : Type μ} (E : Type κ) (x : A) → Reads {S = S} {E = E} (return x)
  return-Reads E x = reads (return x) (λ s. refl)

  pub raise-Reads {μ} : {E : Type κ} (A : Type μ) (e : E) → Reads {S = S} (raise {A = A} e)
  raise-Reads A e = reads (raise {A = A} e) (λ s. refl)

  pub get_state-Reads : (E : Type κ) → Reads {S = S} {E = E} get_state
  get_state-Reads E = reads get_state (λ s. refl)

  pub lift-Reads {μ} : {E : Type κ} {A : Type μ} (r : Result E A) → Reads {S = S} (lift r)
  lift-Reads r = reads (lift r) (λ s. refl)

  pub require-Reads : {E : Type κ} (b : Bool) (e : E) → Reads {S = S} (require b e)
  require-Reads true e = reads (require true e) (λ s. refl)
  require-Reads false e = reads (require false e) (λ s. refl)

  pub may_fail-Reads : {E : Type κ} (o : Option E) → Reads {S = S} (may_fail o)
  may_fail-Reads none = reads (may_fail none) (λ s. refl)
  may_fail-Reads (some e) = reads (may_fail (some e)) (λ s. refl)
