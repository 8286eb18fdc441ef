-- ===== src/Router/Building.antt =====
-- What every client that a router builds keeps, the router keeps while it is asked for clients.
use sidewire.Prelude.{
  ℕ, ◌≡◌, refl, sym, subst, inl, inr, Bool, true, false, Option, none, some, List, [], ◌∷◌,
  if◌then◌else◌, ◌==◌, Bool-cases, nat_eq, text_eq, arith,
}
use sidewire.Prelude.Results.{Result, ok, raised}
use sidewire.Prelude.Action.{Action, pure, continue, ◌>>=◌}
use sidewire.Prelude.Dict.{Dict, get, put}
use sidewire.Aionetiface.{Str}
use sidewire.Brokers.{Server}
use sidewire.Brokers.Walk.{contains}
use sidewire.Router.{
  Router, of_hosts, all_clients, build_client, ensure_at, ensure_in, ensure_client, ensure_servers,
  ensure_family, ensure_families,
}
use sidewire.Router.Known.{contains-of_hosts, contains-put, contains-get}

-- A client that is known after a new one was built was known before, or is the new one.
pub was_known :
    (af : ℕ) (host : Str) (port : ℕ) (hosts : Dict Str ℕ) (r : Router) (i : ℕ)
    → get af r.clients ≡ some hosts
    → contains (all_clients (build_client af host port hosts r).clients) i ≡ true
    → r.next_client == i ≡ false
    → contains (all_clients r.clients) i ≡ true
was_known af host port hosts r i e known other = elim (Bool-cases (contains (of_hosts hosts) i)) [
  | inl here ↦ contains-get af i hosts r.clients e here
  | inr not_here ↦ ground (
    arith,
    contains-put af i (put host r.next_client hosts) r.clients known,
    contains-of_hosts host r.next_client i hosts,
    other,
    not_here,
  )
]

module _ (P : Router → Type 0)
    (build : (af : ℕ) (host : Str) (port : ℕ) (hosts : Dict Str ℕ) (r : Router)
      → get af r.clients ≡ some hosts
      → P r
      → P (build_client af host port hosts r)) where
  pub ensure_client-keeps :
      (supports : ℕ → Bool) (af : ℕ) (host : Str) (port : ℕ) (r : Router)
      → P r
      → P (ensure_client supports af host port r).1
  unfolding ensure_client
  ensure_client-keeps supports af host port r all = elim (Bool-cases (supports af)) [
    | inl yes_af ↦
        let e : ensure_client supports af host port r
            ≡ ensure_in af host port (get af r.clients) r =
          rw (yes_af, ensure_client) refl in
        subst PAfter (sym e) (in_family (get af r.clients) refl)
    | inr no_af ↦
        let e : ensure_client supports af host port r ≡ (ok none, r) =
          rw (no_af, ensure_client) refl in
        subst PAfter (sym e) all
  ]
    where
      PAfter : Result (Option ℕ) × Router → Type 0
      PAfter p = P p.1

      in_hosts :
          (hosts : Dict Str ℕ) (o : Option ℕ)
          → get af r.clients ≡ some hosts
          → P (ensure_at af host port hosts o r).1
      in_hosts hosts (some i) e = all
      in_hosts hosts none e = build af host port hosts r e all

      in_family :
          (o : Option (Dict Str ℕ)) → get af r.clients ≡ o → P (ensure_in af host port o r).1
      in_family none e = all
      in_family (some hosts) e = in_hosts hosts (get host hosts) e

  -- An action that keeps the property.
  unfoldable pub Keeps : {A : Type 0} → Action Router A → Type 0
  Keeps m = (r : Router) → P r → P (m r).1

  continue-Keeps :
      {A B : Type 0} (p : Result A × Router) (f : A → Action Router B)
      → P p.1
      → ((a : A) → Keeps (f a))
      → P (continue p f).1
  unfolding Keeps
  continue-Keeps (ok a, r) f all keep = keep a r all
  continue-Keeps (raised x, r) f all keep = all

  ensure_servers-Keeps :
      (supports : ℕ → Bool) (af : ℕ) (table : Dict Str Server)
      → Keeps (ensure_servers supports af table)
  unfolding Keeps ensure_servers ◌>>=◌
  ensure_servers-Keeps supports af [] r all = all
  ensure_servers-Keeps supports af ((host, s) ∷ table) r all =
      continue-Keeps (ensure_client supports af host s.port r)
        (λ u. ensure_servers supports af table) (ensure_client-keeps supports af host s.port r all)
        λ u. ensure_servers-Keeps supports af table

  ensure_family-Keeps :
      (supports : ℕ → Bool) (af : ℕ) (o : Option (Dict Str Server))
      → Keeps (ensure_family supports af o)
  unfolding Keeps ◌>>=◌
  ensure_family-Keeps supports af none r all = all
  ensure_family-Keeps supports af (some table) r all = ensure_servers-Keeps supports af table r all

  pub ensure_families-Keeps :
      (supports : ℕ → Bool) (afs : List ℕ) → Keeps (ensure_families supports afs)
  unfolding Keeps ensure_families ◌>>=◌
  ensure_families-Keeps supports [] r all = all
  ensure_families-Keeps supports (af ∷ afs) r all =
      continue-Keeps
        ((if supports af then ensure_family supports af (get af r.servers) else pure tt) r)
        (λ u. ensure_families supports afs) (by_support (supports af))
        λ u. ensure_families-Keeps supports afs
    where
      by_support :
          (b : Bool) → P ((if b then ensure_family supports af (get af r.servers) else pure tt) r).1
      by_support true = ensure_family-Keeps supports af (get af r.servers) r all
      by_support false = all
