-- ===== src/HintCache/Same.antt =====
-- Values that differ only in the order of keys are read alike.
use sidewire.Prelude.{◌≡◌, refl, sym, Option, none, some, List, text_eq, arith}
use sidewire.Prelude.Results.{Result}
use sidewire.Aionetiface.{Str}
use sidewire.HintCache.{
  ℤ, Json, arr, obj, item, no_items, member, no_members, Items, Members, Hint, find, as_int, as_str,
  valid_entry, int_or_zero, ts_of, keep_entry, read_entries, read_brokers, read_entry, load_for,
  load_all, brokers_key, af_key, host_key, port_key, ts_key,
}

-- Two values that differ at most in the order of the keys of their objects.
mutual
  pub data SameJson : Json → Json → Type 0 where
    same : (j : Json) → SameJson j j
    same_arr : (xs ys : Items) → SameItems xs ys → SameJson (arr xs) (arr ys)
    same_obj :
        (m m' : Members)
        → ((k : Str) → SameFound (find k m) (find k m'))
        → SameJson (obj m) (obj m')

  pub data SameItems : Items → Items → Type 0 where
    no_more : SameItems no_items no_items
    also :
        (x y : Json) (xs ys : Items)
        → SameJson x y
        → SameItems xs ys
        → SameItems (item x xs) (item y ys)

  pub data SameFound : Option Json → Option Json → Type 0 where
    missing : SameFound none none
    found : (x y : Json) → SameJson x y → SameFound (some x) (some y)

SameFound-refl : (o : Option Json) → SameFound o o
SameFound-refl none = missing
SameFound-refl (some j) = found j j (same j)

as_int-same : {o o' : Option Json} → SameFound o o' → as_int o ≡ as_int o'
unfolding as_int
as_int-same missing = refl
as_int-same (found x y (same j)) = refl
as_int-same (found x y (same_arr xs ys s)) = refl
as_int-same (found x y (same_obj m m' s)) = refl

as_str-same : {o o' : Option Json} → SameFound o o' → as_str o ≡ as_str o'
unfolding as_str
as_str-same missing = refl
as_str-same (found x y (same j)) = refl
as_str-same (found x y (same_arr xs ys s)) = refl
as_str-same (found x y (same_obj m m' s)) = refl

valid_entry-same : {j j' : Json} (ts : ℤ) → SameJson j j' → valid_entry j ts ≡ valid_entry j' ts
unfolding valid_entry
valid_entry-same ts (same j) = refl
valid_entry-same ts (same_arr xs ys s) = refl
valid_entry-same ts (same_obj m m' s) =
    rw (as_int-same (s af_key), as_str-same (s host_key), as_int-same (s port_key)) refl

pub find-member : (k : Str) (v : Json) (m : Members) → find k (member k v m) ≡ some v
unfolding find
find-member k v m = ground (arith, text_eq.beq_iff k k)

-- No key is on one side only.
only_right : {o o' : Option Json} {v : Json} → o ≡ none → o' ≡ some v → SameFound o o' → ⊥
only_right e e' missing = cc e'
only_right e e' (found x y s) = cc e

only_left : {o o' : Option Json} {v : Json} → o ≡ some v → o' ≡ none → SameFound o o' → ⊥
only_left e e' missing = cc e
only_left e e' (found x y s) = cc e'

find-empty : (k : Str) → find k no_members ≡ none
unfolding find
find-empty k = refl

module _ (int_of_str : Str → Result ℤ) where
  int_or_zero-same :
      {o o' : Option Json} → SameFound o o' → int_or_zero int_of_str o ≡ int_or_zero int_of_str o'
  unfolding int_or_zero find
  int_or_zero-same missing = refl
  int_or_zero-same (found x y (same j)) = refl
  int_or_zero-same (found x y (same_arr xs ys s)) = arrays s
    where
      arrays :
          {xs ys : Items}
          → SameItems xs ys
          → int_or_zero int_of_str (some (arr xs)) ≡ int_or_zero int_of_str (some (arr ys))
      arrays no_more = refl
      arrays (also x y xs ys h hs) = refl
  int_or_zero-same (found x y (same_obj m m' s)) = objects m m' s
    where
      objects :
          (m m' : Members)
          → ((k : Str) → SameFound (find k m) (find k m'))
          → int_or_zero int_of_str (some (obj m)) ≡ int_or_zero int_of_str (some (obj m'))
      objects no_members no_members s = refl
      objects (member k v m) (member k' v' m') s = refl
      objects no_members (member k v m') s =
          absurd (only_right (find-empty k) (find-member k v m') (s k))
      objects (member k v m) no_members s =
          absurd (only_left (find-member k v m) (find-empty k) (s k))

  ts_of-same : {j j' : Json} → SameJson j j' → ts_of int_of_str j ≡ ts_of int_of_str j'
  unfolding ts_of
  ts_of-same (same j) = refl
  ts_of-same (same_arr xs ys s) = refl
  ts_of-same (same_obj m m' s) = int_or_zero-same (s ts_key)

  keep_entry-same :
      {j j' : Json} (o : Option Hint) (rest : Result (List Hint))
      → SameJson j j'
      → keep_entry int_of_str j o rest ≡ keep_entry int_of_str j' o rest
  keep_entry-same none rest s = refl
  keep_entry-same (some h) rest s = rw (ts_of-same s) refl

  read_entries-same :
      {xs ys : Items} → SameItems xs ys → read_entries int_of_str xs ≡ read_entries int_of_str ys
  unfolding read_entries
  read_entries-same no_more = refl
  read_entries-same (also x y xs ys h hs) =
      rw (valid_entry-same (ℤ.pos 0) h, read_entries-same hs)
        (keep_entry-same (valid_entry y (ℤ.pos 0)) (read_entries int_of_str ys) h)

  read_brokers-same :
      {o o' : Option Json} → SameFound o o' → read_brokers int_of_str o ≡ read_brokers int_of_str o'
  unfolding read_brokers
  read_brokers-same missing = refl
  read_brokers-same (found x y (same j)) = refl
  read_brokers-same (found x y (same_arr xs ys s)) = rw (read_entries-same s) refl
  read_brokers-same (found x y (same_obj m m' s)) = refl

  read_entry-same :
      {o o' : Option Json} → SameFound o o' → read_entry int_of_str o ≡ read_entry int_of_str o'
  unfolding read_entry
  read_entry-same missing = refl
  read_entry-same (found x y (same j)) = refl
  read_entry-same (found x y (same_arr xs ys s)) = refl
  read_entry-same (found x y (same_obj m m' s)) = read_brokers-same (s brokers_key)

  pub load_for-same :
      (k : Str) (m : Members) {j : Json}
      → SameJson (obj m) j
      → load_for int_of_str k (load_all j) ≡ load_for int_of_str k m
  unfolding load_for load_all
  load_for-same k _ (same j) = refl
  load_for-same k _ (same_obj m m' s) = sym (read_entry-same (s k))
