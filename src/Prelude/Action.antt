-- ===== src/Prelude/Action.antt =====
-- Python code that mutates an object and may raise: the state comes back beside the exception,
-- since what was written before a `raise` stays written.
use mathlib.Core.Path.{◌≡◌, refl, sym, ◌∙◌}
use mathlib.Core.Bool.{Bool, true, false}
use sidewire.Prelude.Results.{Exn, Result, ok, raised}

abbrev pub Action {ℓ} : Type ℓ → Type ℓ → Type ℓ
Action S A = S → Result A × S

module _ {ℓ} {S A : Type ℓ} where
  unfoldable pub pure : A → Action S A
  pure a s = (ok a, s)

  -- raise x
  unfoldable pub throw : Exn → Action S A
  throw x s = (raised x, s)

  -- an expression that may raise and changes nothing
  unfoldable pub lift : Result A → Action S A
  lift r s = (r, s)

  unfoldable pub gets : (S → A) → Action S A
  gets f s = (ok (f s), s)

unfoldable pub modify {ℓ} : {S : Type ℓ} → (S → S) → Action S (Unit {ℓ})
modify f s = (ok tt, f s)

-- `try: m  except (those that `caught` accepts): handler`
module _ {ℓ} {S A : Type ℓ} where
  abbrev pub catch : (Exn → Bool) → Action S A → Result A × S → Result A × S
  catch caught handler (ok a, s) = (ok a, s)
  catch caught handler (raised x, s) = elim (caught x) [ true ↦ handler s | false ↦ (raised x, s) ]

  unfoldable pub try_except : (Exn → Bool) → Action S A → Action S A → Action S A
  try_except caught m handler s = catch caught handler (m s)

module _ {ℓ} {S A B : Type ℓ} where
  abbrev pub continue : Result A × S → (A → Action S B) → Result B × S
  continue (ok a, s) f = f a s
  continue (raised x, s) f = (raised x, s)

  infixl 10 ◌>>=◌ ◌>>◌
  -- To unfold this is to unfold the other ways to build an action, too.
  unfoldable pub ◌>>=◌ : Action S A → (A → Action S B) → Action S B
  unfolding pure throw lift gets modify try_except
  ◌>>=◌ m f s = continue (m s) f

  abbrev pub ◌>>◌ : Action S A → Action S B → Action S B
  m >> n = m >>= λ _. n

module _ {ℓ} {S A B : Type ℓ} where
  -- Both parts of a block that returned have returned.
  pub >>=-eq-ok :
      (m : Action S A) (f : A → Action S B) (s s' : S) (b : B)
      → (m >>= f) s ≡ (ok b, s')
      → (a : A) × (s1 : S) × (m s ≡ (ok a, s1)) × (f a s1 ≡ (ok b, s'))
  unfolding ◌>>=◌
  >>=-eq-ok m f s s' b h = go (m s) refl
    where
      go :
          (r : Result A × S)
          → m s ≡ r
          → (a : A) × (s1 : S) × (m s ≡ (ok a, s1)) × (f a s1 ≡ (ok b, s'))
      go (ok a, s1) e = (a, s1, e, sym (rw e refl) ∙ h)
      go (raised x, s1) e = absurd (cc (h, e))
