-- ===== src/Prelude/Frame.antt =====
-- What an action leaves alone, whether it returns or raises: one rule for each way to build an action.
use mathlib.Core.Path.{◌≡◌, refl, ◌∙◌}
use mathlib.Core.Bool.{Bool, true, false}
use sidewire.Prelude.Tests.{if◌then◌else◌}
use sidewire.Prelude.Results.{Exn, Result, ok, raised}
use sidewire.Prelude.Action.{
  Action, pure, throw, lift, gets, modify, try_except, catch, continue, ◌>>=◌,
}

-- `m` leaves the part `f` of the state as it is.
pub record Leaves {ℓ} {S A B : Type ℓ} (f : S → B) (m : Action S A) : Type ℓ where
  pub at : (s : S) → f (m s).1 ≡ f s

module _ {ℓ} {S A B : Type ℓ} {f : S → B} where
  pub Leaves-pure : (a : A) → Leaves f (pure a)
  unfolding pure
  Leaves-pure a = record { at = λ s. refl }

  pub Leaves-throw : (x : Exn) → Leaves f (throw {A = A} x)
  unfolding throw
  Leaves-throw x = record { at = λ s. refl }

  pub Leaves-lift : (r : Result A) → Leaves f (lift r)
  unfolding lift
  Leaves-lift r = record { at = λ s. refl }

  pub Leaves-gets : (g : S → A) → Leaves f (gets g)
  unfolding gets
  Leaves-gets g = record { at = λ s. refl }

  pub Leaves-if :
      (b : Bool) (m n : Action S A) → Leaves f m → Leaves f n → Leaves f (if b then m else n)
  Leaves-if true m n km kn = km
  Leaves-if false m n km kn = kn

  catch-Leaves :
      (caught : Exn → Bool) (handler : Action S A) (r : Result A × S)
      → Leaves f handler
      → f (catch caught handler r).1 ≡ f r.1
  catch-Leaves caught handler (ok a, s) k = refl
  catch-Leaves caught handler (raised x, s) k = choose (caught x)
    where
      choose :
          (b : Bool)
          → f (elim b as (λ _. Result A × S) [ true ↦ handler s | false ↦ (raised x, s) ]).1 ≡ f s
      choose true = k.at s
      choose false = refl

  pub Leaves-try :
      (caught : Exn → Bool) (m handler : Action S A)
      → Leaves f m
      → Leaves f handler
      → Leaves f (try_except caught m handler)
  unfolding try_except
  Leaves-try caught m handler km kh = record {
    at = λ s. catch-Leaves caught handler (m s) kh ∙ km.at s;
  }

module _ {ℓ} {S B : Type ℓ} {f : S → B} where
  pub Leaves-modify : (g : S → S) → ((s : S) → f (g s) ≡ f s) → Leaves f (modify g)
  unfolding modify
  Leaves-modify g h = record { at = h }

module _ {ℓ} {S A C B : Type ℓ} {f : S → B} where
  pub continue-Leaves :
      (k : A → Action S C) (r : Result A × S)
      → ((a : A) → Leaves f (k a))
      → f (continue r k).1 ≡ f r.1
  continue-Leaves k (ok a, s) h = (h a).at s
  continue-Leaves k (raised x, s) h = refl

  pub Leaves-bind :
      (m : Action S A) (k : A → Action S C)
      → Leaves f m
      → ((a : A) → Leaves f (k a))
      → Leaves f (m >>= k)
  unfolding ◌>>=◌
  Leaves-bind m k hm hk = record { at = λ s. continue-Leaves k (m s) hk ∙ hm.at s }

pub ruleset leaves_rules =
    (Leaves-pure, Leaves-throw, Leaves-lift, Leaves-gets, Leaves-if, Leaves-try, Leaves-bind)
