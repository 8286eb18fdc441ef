-- ===== src/Prelude/Dict.antt =====
-- Python's `dict`: an association list in insertion order.
use sidewire.Prelude.Tests.{Eq, if◌then◌else◌}
use mathlib.Core.Path.{◌≡◌, refl}
use mathlib.Core.Bool.{Bool, true, false}
use mathlib.Core.Option.{Option, none, some}
use mathlib.Core.List.{List, [], ◌∷◌}
use native.Mathlib.Omega.{arith}

abbrev pub Dict {ℓ} : Type ℓ → Type ℓ → Type ℓ
Dict K V = List (K × V)

module _ {ℓ} {K V : Type ℓ} ⦃e : Eq K⦄ where
  -- d.get(k)
  unfoldable pub get : K → Dict K V → Option V
  get k [] = none
  get k ((j, v) ∷ d) = if e.beq j k then some v else get k d

  -- d[k] = v: an old key keeps its place
  unfoldable pub put : K → V → Dict K V → Dict K V
  put k v [] = (k, v) ∷ []
  put k v ((j, w) ∷ d) = if e.beq j k then (k, v) ∷ d else (j, w) ∷ put k v d

  -- del d[k]
  unfoldable pub del : K → Dict K V → Dict K V
  del k [] = []
  del k ((j, v) ∷ d) = let rest = del k d in if e.beq j k then rest else (j, v) ∷ rest

  -- k in d
  unfoldable pub has : K → Dict K V → Bool
  has k [] = false
  has k ((j, v) ∷ d) = if e.beq j k then true else has k d

  pub get-put :
      (k j : K) (v : V) (d : Dict K V) → get j (put k v d) ≡ (if e.beq k j then some v else get j d)
  unfolding get put
  get-put k j v [] = refl
  get-put k j v ((i, w) ∷ d) =
      ground (arith, e.beq_iff k j, e.beq_iff i k, e.beq_iff i j, get-put k j v d)

  pub get-del : (k j : K) (d : Dict K V) → get j (del k d) ≡ (if e.beq k j then none else get j d)
  unfolding get del
  get-del k j [] = ground arith
  get-del k j ((i, w) ∷ d) =
      ground (arith, e.beq_iff k j, e.beq_iff i k, e.beq_iff i j, get-del k j d)

  pub get-eq-none_of_has : (k : K) (d : Dict K V) → has k d ≡ false → get k d ≡ none
  unfolding get has
  get-eq-none_of_has k [] h = refl
  get-eq-none_of_has k ((i, w) ∷ d) h = ground (arith, get-eq-none_of_has k d)

  pub has-eq-false_of_get : (k : K) (d : Dict K V) → get k d ≡ none → has k d ≡ false
  unfolding get has
  has-eq-false_of_get k [] h = refl
  has-eq-false_of_get k ((i, w) ∷ d) h = ground (arith, has-eq-false_of_get k d)

module _ {ℓ} {K V : Type ℓ} ⦃e : Eq K⦄ where
  pub has-put :
      (k j : K) (v : V) (d : Dict K V) → has j (put k v d) ≡ (if e.beq k j then true else has j d)
  unfolding has put
  has-put k j v [] = refl
  has-put k j v ((i, w) ∷ d) =
      ground (arith, e.beq_iff k j, e.beq_iff i k, e.beq_iff i j, has-put k j v d)

  pub has-put_self : (k : K) (v : V) (d : Dict K V) → has k (put k v d) ≡ true
  has-put_self k v d = ground (arith, has-put k k v d, e.beq_iff k k)

  pub get-put_self : (k : K) (v : V) (d : Dict K V) → get k (put k v d) ≡ some v
  get-put_self k v d = ground (arith, get-put k k v d, e.beq_iff k k)
