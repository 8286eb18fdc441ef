-- ===== src/Brokers/Sorting.antt =====
-- sort_by: the order of the input does not matter where no two entries tie.
use mathlib.Core.List.{Permᴰ}
use sidewire.Prelude.{◌≡◌, refl, ap, subst, ◌∙◌, Bool, true, false, ◌&&◌, List, [], ◌∷◌, All, arith}
use sidewire.Brokers.{insert_by, sort_by}

-- A total order, as a Boolean test.
pub record IsOrder {A : Type 0} (below : A → A → Bool) : Type 0 where
  pub total : (a b : A) → below a b ≡ false → below b a ≡ true
  pub trans : (a b c : A) → below a b ≡ true → below b c ≡ true → below a c ≡ true

module _ {A : Type 0} (below : A → A → Bool) where
  -- No tie between `a` and an entry of the list, and none between two entries.
  abbrev pub Apart : A → A → Type 0
  Apart a b = below a b && below b a ≡ false

  abbrev pub AllApart : List A → Type 0
  AllApart [] = Unit {0}
  AllApart (x ∷ xs) = All (Apart x) xs × AllApart xs

  Apart-sym : (a b : A) → Apart a b → Apart b a
  Apart-sym a b h = ground arith

  All-perm : (x : A) {xs ys : List A} → Permᴰ xs ys → All (Apart x) xs → All (Apart x) ys
  All-perm x Permᴰ.nil h = tt
  All-perm x (Permᴰ.cons e p) (h, hs) = (subst (Apart x) e h, All-perm x p hs)
  All-perm x (Permᴰ.swap e f) (h, (k, hs)) = (subst (Apart x) f k, (subst (Apart x) e h, hs))
  All-perm x (Permᴰ.trans p q) h = All-perm x q (All-perm x p h)

  AllApart-perm : {xs ys : List A} → Permᴰ xs ys → AllApart xs → AllApart ys
  AllApart-perm Permᴰ.nil h = tt
  AllApart-perm (Permᴰ.cons {l₂ = ys} e p) (h, hs) =
      (subst (λ x. All (Apart x) ys) e (All-perm _ p h), AllApart-perm p hs)
  AllApart-perm (Permᴰ.swap {a} {b} {b' = b'} {l = xs} e f) ((h, hx), (hy, hs)) = (
    (
      subst (λ x. Apart x b') f (subst (Apart b) e (Apart-sym a b h)),
      subst (λ x. All (Apart x) xs) f hy,
    ),
    (subst (λ x. All (Apart x) xs) e hx, hs),
  )
  AllApart-perm (Permᴰ.trans p q) h = AllApart-perm q (AllApart-perm p h)

  insert_by_comm :
      IsOrder below
      → (x y : A) (xs : List A) → Apart x y
      → insert_by below x (insert_by below y xs) ≡ insert_by below y (insert_by below x xs)
  unfolding insert_by
  insert_by_comm o x y [] h = ground (arith, o.total x y)
  insert_by_comm o x y (z ∷ xs) h = ground (
    arith,
    insert_by_comm o x y xs,
    o.total x y,
    o.total x z,
    o.total y z,
    o.trans x y z,
    o.trans y x z,
  )

  -- Lists with the same entries sort to the same list.
  pub sort_by-perm :
      {xs ys : List A}
      → IsOrder below
      → Permᴰ xs ys
      → AllApart xs
      → sort_by below xs ≡ sort_by below ys
  unfolding sort_by
  sort_by-perm o Permᴰ.nil h = refl
  sort_by-perm o (Permᴰ.cons {a} {b} {l₂ = ys} e p) (h, hs) =
      ap (insert_by below a) (sort_by-perm o p hs)
      ∙ ap (λ x. insert_by below x (sort_by below ys)) e
  sort_by-perm o (Permᴰ.swap {a} {b} {a' = a'} {l = xs} e f) ((h, hx), (hy, hs)) =
      insert_by_comm o a b (sort_by below xs) h
      ∙ ap (λ x. insert_by below x (insert_by below a (sort_by below xs))) f
      ∙ ap (λ x. insert_by below a' (insert_by below x (sort_by below xs))) e
  sort_by-perm o (Permᴰ.trans p q) h = sort_by-perm o p h ∙ sort_by-perm o q (AllApart-perm p h)
