-- ===== src/Common/Invariants.antt =====
-- Invariants of the state that actions keep, also where they fail.
use mathlib.Core.Path.{◌≡◌, refl, sym, subst}
use pairdbase.Common.Results.{Result, ok, err}
use pairdbase.Common.Actions.{
  Action, ◌>>=◌, continue, lift, Reads, Reads-state, match_option, get_state, put_state,
}
use mathlib.Core.Option.{Option, none, some}

module _ {ℓ κ μ} {S : Type ℓ} {E : Type κ} (P : S → Type μ) where
  unfoldable pub Keeps {ν} : {A : Type ν} → Action S E A → Type (ℓ ⊔ μ)
  Keeps act = (s : S) → P s → P (act s).0

  pub Keeps-state {ν} : {A : Type ν} (act : Action S E A) → Keeps act → (s : S) → P s → P (act s).0
  unfolding Keeps
  Keeps-state act h = h

  pub keeps {ν} : {A : Type ν} (act : Action S E A) → ((s : S) → P s → P (act s).0) → Keeps act
  unfolding Keeps
  keeps act h = h

  pub Reads-Keeps {ν} : {A : Type ν} (act : Action S E A) → Reads act → Keeps act
  unfolding Keeps
  Reads-Keeps act h s p = subst P (sym (Reads-state act h s)) p

  module _ {ν ξ} {A : Type ν} {B : Type ξ} where
    continue-keeps :
        (r : Result E A) (s : S) (next : A → Action S E B)
        → ((x : A) → r ≡ ok x → P (next x s).0)
        → P s
        → P (continue s r next).0
    continue-keeps (ok x) s next k p = k x refl
    continue-keeps (err e) s next k p = p

    pub bind-Keeps :
        (m : Action S E A) (next : A → Action S E B)
        → Keeps m
        → ((x : A) → Keeps (next x))
        → Keeps (m >>= next)
    unfolding Keeps ◌>>=◌
    bind-Keeps m next h k s p = continue-keeps (m s).1 (m s).0 next (λ x e. k x _ (h s p)) (h s p)

    -- What follows a result may use where it came from.
    pub lift-Keeps :
        (r : Result E A) (next : A → Action S E B)
        → ((x : A) → r ≡ ok x → Keeps (next x))
        → Keeps (lift r >>= next)
    unfolding Keeps ◌>>=◌
    lift-Keeps r next k s p = continue-keeps r s next (λ x e. k x e s p) p

    pub match_option-Keeps :
        (o : Option A) (absent : Action S E B) (present : A → Action S E B)
        → Keeps absent
        → ((x : A) → Keeps (present x))
        → Keeps (match_option o absent present)
    unfolding match_option
    match_option-Keeps none absent present h k = h
    match_option-Keeps (some x) absent present h k = k x

  -- What follows a look at the state.
  pub get_state-Keeps {ν} :
      {B : Type ν} (next : S → Action S E B)
      → ((t : S) → P t → Keeps (next t))
      → Keeps (get_state >>= next)
  unfolding Keeps ◌>>=◌
  get_state-Keeps next k s p = k s p s p

pub put_state-Keeps {ℓ κ μ} :
    {S : Type ℓ} (E : Type κ) (P : S → Type μ) (new : S) → P new → Keeps P (put_state {E = E} new)
unfolding Keeps
put_state-Keeps E P new h s p = h
