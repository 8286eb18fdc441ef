-- ===== src/Router/Fate.antt =====
-- What becomes of one client of the router in a pass of the idle closer.
use sidewire.Prelude.{
  ℕ, ◌≡◌, refl, ap, ◌∙◌, ◌⊎◌, inl, inr, Bool, true, false, ◌||◌, Option, [], ◌∷◌, ◌==◌, Bool-cases,
  arith,
}
use sidewire.Prelude.Dict.{Dict}
use sidewire.Aionetiface.{Str}
use sidewire.Client.{Client}
use sidewire.Brokers.Walk.{set_client, contains}
use sidewire.Router.{Router, Discovered, evict, evict_client_from_cache}

-- Whether an entry of the cache has the client.
abbrev pub cached : ℕ → Dict Str Discovered → Bool
cached i [] = false
cached i ((k, e) ∷ cache) = contains e.clients i || cached i cache

-- A client's connection: its task, its pipe, and whether it is closed.
abbrev pub link_of : Client → Option Bool × Option Bool × Bool
link_of c = (c.dispatcher_task, c.pipe, c.is_closed)

-- What becomes of client `i`: a protected one is as it was; any other keeps its connection, or no
-- entry of the cache has it.
pub record Fate (i : ℕ) (r r' : Router) : Type 0 where
  pub protected_as : r'.protected_clients ≡ r.protected_clients
  pub if_protected : contains r.protected_clients i ≡ true → r'.store.member i ≡ r.store.member i
  pub uncached_as : cached i r.cache ≡ false → cached i r'.cache ≡ false
  pub kept_or_evicted :
      (link_of (r'.store.member i) ≡ link_of (r.store.member i)) ⊎ (cached i r'.cache ≡ false)

pub evict-cached : (i : ℕ) (cache : Dict Str Discovered) → cached i (evict i cache) ≡ false
unfolding evict
evict-cached i [] = refl
evict-cached i ((k, e) ∷ cache) = ground (arith, evict-cached i cache)

pub evict-uncached :
    (i j : ℕ) (cache : Dict Str Discovered)
    → cached i cache ≡ false
    → cached i (evict j cache) ≡ false
unfolding evict
evict-uncached i j [] h = refl
evict-uncached i j ((k, e) ∷ cache) h = ground (arith, evict-uncached i j cache, h)

pub Fate-refl : (i : ℕ) (r : Router) → Fate i r r
Fate-refl i r = record {
  protected_as = refl;
  if_protected = λ h. refl;
  uncached_as = λ h. h;
  kept_or_evicted = inl refl;
}

pub Fate-trans : (i : ℕ) (r s t : Router) → Fate i r s → Fate i s t → Fate i r t
Fate-trans i r s t f g = record {
  protected_as = g.protected_as ∙ f.protected_as;
  if_protected =
      λ h. g.if_protected (ap (λ ps. contains ps i) f.protected_as ∙ h) ∙ f.if_protected h;
  uncached_as = λ h. g.uncached_as (f.uncached_as h);
  kept_or_evicted = elim g.kept_or_evicted [
    | inr gone ↦ inr gone
    | inl kept ↦ elim f.kept_or_evicted [
      | inl kept_before ↦ inl (kept ∙ kept_before)
      | inr gone ↦ inr (g.uncached_as gone)
    ]
  ];
}

pub Fate-noted :
    (i j : ℕ) (c : Client) (r : Router)
    → contains r.protected_clients j ≡ false
    → link_of c ≡ link_of (r.store.member j)
    → Fate i r (record r { store = set_client j c r.store })
unfolding set_client
Fate-noted i j c r other same = record {
  protected_as = refl;
  if_protected = λ h. elim (Bool-cases (j == i)) [
    | inl here ↦
        let e : j ≡ i = ground arith in absurd (cc (h, other, ap (contains r.protected_clients) e))
    | inr there ↦ rw there refl
  ];
  uncached_as = λ h. h;
  kept_or_evicted = inl (elim (Bool-cases (j == i)) [
    | inl here ↦
        let e : j ≡ i = ground arith in rw here (same ∙ ap (λ k. link_of (r.store.member k)) e)
    | inr there ↦ rw there refl
  ]);
}

-- What is done to another client is none of `i`.
pub Fate-other :
    (i j : ℕ) (c : Client) (r : Router)
    → i == j ≡ false
    → Fate i r (record r { store = set_client j c r.store })
unfolding set_client
Fate-other i j c r other =
    let apart : j == i ≡ false = ground arith in
    record {
      protected_as = refl;
      if_protected = λ h. rw apart refl;
      uncached_as = λ h. h;
      kept_or_evicted = inl (rw apart refl);
    }

pub Fate-evict : (i j : ℕ) (r : Router) → Fate i r (evict_client_from_cache j r)
unfolding evict_client_from_cache
Fate-evict i j r = record {
  protected_as = refl;
  if_protected = λ h. refl;
  uncached_as = evict-uncached i j r.cache;
  kept_or_evicted = inl refl;
}
