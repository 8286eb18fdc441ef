-- ===== src/Brokers/Candidates.antt =====
-- The candidates of a family's walk: each once, those of the cache first.
use mathlib.Core.List.{Memᴰ}
use sidewire.Prelude.{
  ℕ, ◌≡◌, refl, Bool, true, false, ◌||◌, Option, none, some, List, [], ◌∷◌, ◌++◌, if◌then◌else◌,
  ◌==◌, arith,
}
use sidewire.Aionetiface.{Str}
use sidewire.Brokers.{Server, Families, iana_to_af}
use sidewire.Brokers.Walk.{Clients, lookup_client, contains}

-- No number stands twice.
abbrev pub Distinct : List ℕ → Type 0
Distinct [] = Unit {0}
Distinct (x ∷ xs) = (contains xs x ≡ false) × Distinct xs

pub contains-append :
    (xs ys : List ℕ) (i : ℕ) → contains (xs ++ ys) i ≡ contains xs i || contains ys i
unfolding contains
contains-append [] ys i = refl
contains-append (x ∷ xs) ys i = ground (arith, contains-append xs ys i)

pub Distinct-snoc :
    (xs : List ℕ) (i : ℕ) → Distinct xs → contains xs i ≡ false → Distinct (xs ++ (i ∷ []))
unfolding contains
Distinct-snoc [] i d h = (refl, tt)
Distinct-snoc (x ∷ xs) i d h =
    (ground (arith, contains-append xs (i ∷ []) x), Distinct-snoc xs i d.1 (ground arith))

-- Whether some lookup gave the client.
named : List (Option ℕ) → ℕ → Bool
named [] i = false
named (none ∷ os) i = named os i
named (some j ∷ os) i = if j == i then true else named os i

-- An entry for which the lookup gives the client.
abbrev pub Names : {A : Type 0} → (A → Option ℕ) → List A → ℕ → Type 0
Names {A} f xs i = (x : A) × Memᴰ x xs × (f x ≡ some i)

-- The hosts that the cache has for a family, and the servers of its bucket.
module _ (f : Families) (nic_af : ℕ) (clients_map : Clients) where
  abbrev pub by_host : Str → Option ℕ
  by_host host = lookup_client nic_af host clients_map

  abbrev pub by_server : Server → Option ℕ
  by_server s = lookup_client (iana_to_af f s.af) s.host clients_map
