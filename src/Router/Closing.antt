-- ===== src/Router/Closing.antt =====
-- One pass of the idle closer.
use sidewire.Prelude.{
  ℕ, ◌+◌, ◌≡◌, ◌≢◌, refl, subst, ap, ◌∙◌, ◌⊎◌, inl, inr, Bool, false, Option, none, some, List, [],
  ◌∷◌, ◌==◌, ltb, length, Bool-cases, arith,
}
use sidewire.Prelude.Results.{Exn, os_error, connection_error, cancelled_error, Result, ok, raised}
use sidewire.Prelude.Action.{Action, catch, pure, continue, ◌>>=◌, ◌>>◌}
use sidewire.Prelude.Dict.{Dict}
use sidewire.Aionetiface.{Aionetiface, Bytes, Str}
use sidewire.Client.{Client}
use sidewire.Connection.{close}
use sidewire.Connection.Shut.{Fails, close-Fails}
use sidewire.Dispatch.{keys}
use sidewire.Brokers.Walk.{on_client, client_of, set_client, contains}
use sidewire.Router.{Router, evict, evict_client_from_cache, on_store, of_hosts, get_time}
use sidewire.Router.Idle.{
  Wait, close_quietly, is_network, make_ready, close_idle, close_if_idle, visit_client, visit_hosts,
  visit_families, close_idle_clients, check_size, hosts_of, last_active, idle_client_timeout,
}
use sidewire.Router.Fate.{
  Fate, cached, evict-cached, evict-uncached, Fate-refl, Fate-trans, Fate-noted, Fate-other,
  Fate-evict,
}

-- The pass was cut off, or closing a client raised something else than OSError and ConnectionError.
abbrev pub Stops : Aionetiface → Result (Unit {0}) × Router → Type 0
Stops lib p =
    (x : Exn) × (p.0 ≡ raised x)
    × ((x ≡ cancelled_error) ⊎ ((x ≢ os_error) × (x ≢ connection_error) × Fails lib x))

-- The pass stopped, or client `i` has its fate.
Ends : Aionetiface → ℕ → Router → Result (Unit {0}) × Router → Type 0
Ends lib i r p = Stops lib p ⊎ Fate i r p.1

continue-Ends :
    (lib : Aionetiface) (i : ℕ) (r : Router) (p : Result (Unit {0}) × Router)
    (m : Action Router (Unit {0}))
    → Ends lib i r p
    → ((s : Router) → Ends lib i s (m s))
    → Ends lib i r (continue p (λ u. m))
unfolding Ends
continue-Ends lib i r (raised x, s) m e g = e
continue-Ends lib i r (ok u, s) m (inl (x, cut, why)) g = absurd (cc cut)
continue-Ends lib i r (ok u, s) m (inr f) g = elim (g s) [
  | inl cut ↦ inl cut
  | inr f' ↦ inr (Fate-trans i r s (m s).1 f f')
]

module _ (lib : Aionetiface) (fresh : Bytes) where
  quiet :
      (r : Result (Unit {0}) × Client)
      → (r.0 ≡ ok tt) ⊎ ((x : Exn) × (r.0 ≡ raised x) × Fails lib x)
      → let p = catch is_network (pure tt) r in
        (p.0 ≡ ok tt)
        ⊎ ((x : Exn) × (p.0 ≡ raised x) × (x ≢ os_error) × (x ≢ connection_error) × Fails lib x)
  unfolding is_network pure
  quiet (ok u, c) h = inl refl
  quiet (raised os_error, c) h = inl refl
  quiet (raised connection_error, c) h = inl refl
  quiet (raised x, c) (inl e) = absurd (cc e)
  quiet (raised x, c) (inr (y, e, why)) =
      let same : y ≡ x = cc e in inr (x, refl, (λ h. cc h), (λ h. cc h), subst (Fails lib) same why)

  -- A quiet close returns, or raises something else than OSError and ConnectionError.
  pub close_quietly-Fails :
      (c : Client)
      → ((close_quietly lib fresh c).0 ≡ ok tt)
        ⊎ ((x : Exn) × ((close_quietly lib fresh c).0 ≡ raised x)
            × (x ≢ os_error)
            × (x ≢ connection_error)
            × Fails lib x)
  unfolding close_quietly ◌>>=◌
  close_quietly-Fails c = quiet (close lib fresh c) (close-Fails lib fresh c)

  -- The router when the close of client `j` waits.
  unfoldable pub shut : ℕ → Router → Router
  shut j r = record r {
    store = set_client j (close_quietly lib fresh (client_of j r.store)).1 r.store;
  }

  -- The client `j` is ready for reuse.
  unfoldable pub readied : ℕ → Router → Router
  readied j r =
      evict_client_from_cache j
        (record r { store = set_client j (make_ready lib fresh (client_of j r.store)) r.store })

  pub shut-clients : (j : ℕ) (r : Router) → (shut j r).clients ≡ r.clients
  unfolding shut
  shut-clients j r = refl

  pub readied-clients : (j : ℕ) (r : Router) → (readied j r).clients ≡ r.clients
  unfolding readied evict_client_from_cache
  readied-clients j r = refl

  pub close_idle-through :
      (w : Wait) (j : ℕ) (r : Router)
      → w.cut ≡ false
      → (close_quietly lib fresh (client_of j r.store)).0 ≡ ok tt
      → close_idle lib fresh w j r ≡ (ok tt, readied j (w.others (shut j r)))
  unfolding shut readied close_idle on_store on_client ◌>>=◌
  close_idle-through w j r through fine = rw through (rw fine refl)

  module _ (i : ℕ) (world : ℕ → Wait)
      (rely : (j : ℕ) (s : Router) → Fate i s ((world j).others s)) where
    through-Fate :
        (j : ℕ) (r : Router)
        → contains r.protected_clients j ≡ false
        → Fate i r (readied j ((world j).others (shut j r)))
    unfolding shut readied set_client evict_client_from_cache
    through-Fate j r other = elim (Bool-cases (i == j)) [
      | inr apart ↦ Fate-trans i r s1 (readied j s2) (Fate-other i j _ r apart) (
          Fate-trans i s1 s2 (readied j s2) (rely j s1)
            (Fate-trans i s2 s3 (readied j s2) (Fate-other i j _ s2 apart) (Fate-evict i j s3)))
      | inl here ↦
          let e : i ≡ j = ground (arith, here) in
          record {
            protected_as = (rely j s1).protected_as;
            if_protected = λ h. absurd (cc (other, h, ap (contains r.protected_clients) e));
            uncached_as = λ h. evict-uncached i j s2.cache ((rely j s1).uncached_as h);
            kept_or_evicted =
                inr (ap (λ k. cached k (evict j s2.cache)) e ∙ evict-cached j s2.cache);
          }
    ]
      where
        s1 : Router
        s1 = shut j r

        s2 : Router
        s2 = (world j).others s1

        s3 : Router
        s3 = record s2 {
          store = set_client j (make_ready lib fresh (client_of j s2.store)) s2.store;
        }

    close_idle-Ends :
        (j : ℕ) (r : Router)
        → contains r.protected_clients j ≡ false
        → Ends lib i r (close_idle lib fresh (world j) j r)
    unfolding Ends close_idle on_store on_client ◌>>=◌
    close_idle-Ends j r other = elim (Bool-cases (world j).cut) [
      | inl cut ↦ inl (cancelled_error, rw cut refl, inl refl)
      | inr through ↦ elim (close_quietly-Fails (client_of j r.store)) [
        | inl fine ↦
            inr (rw (close_idle-through (world j) j r through fine) (through-Fate j r other))
        | inr (x, e, no_os, no_conn, why) ↦
            inl (x, rw through (rw e refl), inr (no_os, no_conn, why))
      ]
    ]

    close_if_idle-Ends :
        (now j : ℕ) (task : Option Bool) (r : Router)
        → contains r.protected_clients j ≡ false
        → Ends lib i r (close_if_idle lib fresh world now j task r)
    unfolding Ends client_of set_client
    close_if_idle-Ends now j none r h = inr (Fate-refl i r)
    close_if_idle-Ends now j (some task_done) r h =
        elim (Bool-cases (ltb now (t + idle_client_timeout))) [
          | inl early ↦ inr (rw early (Fate-noted i j c' r h refl))
          | inr idle ↦ rw idle (elim (close_idle-Ends j r' h) [
            | inl cut ↦ inl cut
            | inr f ↦ inr (Fate-trans i r r' _ (Fate-noted i j c' r h refl) f)
          ])
        ]
      where
        t : ℕ
        t = last_active now (client_of j r.store).last_send (client_of j r.store).last_connect

        c' : Client
        c' = record (client_of j r.store) { last_send = some t }

        r' : Router
        r' = record r { store = set_client j c' r.store }

    visit_client-Ends :
        (now j : ℕ) (r : Router) → Ends lib i r (visit_client lib fresh world now j r)
    unfolding visit_client Ends
    visit_client-Ends now j r = elim (Bool-cases (contains r.protected_clients j)) [
      | inl mine ↦ inr (rw mine (Fate-refl i r))
      | inr other ↦
          rw other (close_if_idle-Ends now j (client_of j r.store).dispatcher_task r other)
    ]

    check_size-Ends : (af size : ℕ) (r : Router) → Ends lib i r (check_size af size r)
    unfolding check_size Ends
    check_size-Ends af size r = elim (Bool-cases (length (hosts_of af r.clients) == size)) [
      | inl same ↦ inr (rw same (Fate-refl i r))
      | inr other ↦ inr (rw other (Fate-refl i r))
    ]

    visit_hosts-Ends :
        (now af size : ℕ) (js : List ℕ) (r : Router)
        → Ends lib i r (visit_hosts lib fresh world now af size js r)
    unfolding visit_hosts ◌>>=◌
    visit_hosts-Ends now af size [] r = check_size-Ends af size r
    visit_hosts-Ends now af size (j ∷ js) r =
        continue-Ends lib i r (check_size af size r)
          (visit_client lib fresh world now j >> visit_hosts lib fresh world now af size js)
          (check_size-Ends af size r)
          (λ s.
            continue-Ends lib i s (visit_client lib fresh world now j s)
              (visit_hosts lib fresh world now af size js) (visit_client-Ends now j s)
              (visit_hosts-Ends now af size js))

    visit_families-Ends :
        (now : ℕ) (afs : List ℕ) (r : Router)
        → Ends lib i r (visit_families lib fresh world now afs r)
    unfolding visit_families ◌>>=◌ Ends
    visit_families-Ends now [] r = inr (Fate-refl i r)
    visit_families-Ends now (af ∷ afs) r =
        let hosts : Dict Str ℕ = hosts_of af r.clients in
        continue-Ends lib i r (visit_hosts lib fresh world now af (length hosts) (of_hosts hosts) r)
          (visit_families lib fresh world now afs)
          (visit_hosts-Ends now af (length hosts) (of_hosts hosts) r) (visit_families-Ends now afs)

    -- A pass of the idle closer is cut off, or is ended by something else than OSError and
    -- ConnectionError that cancel_task or pipe.close() raises, or, if what other tasks do meanwhile leaves client `i` its
    -- fate, so does the pass: a protected client is as it was, and any other keeps its task, its pipe and
    -- its is_closed, or no entry of the discovery cache has it afterwards.
    pub close_idle_clients-Fate :
        (r : Router)
        → Stops lib (close_idle_clients lib fresh world r)
          ⊎ Fate i r (close_idle_clients lib fresh world r).1
    unfolding close_idle_clients ◌>>=◌ Ends get_time
    close_idle_clients-Fate r =
        elim (visit_families-Ends (lib.clock r.ticks) (keys r.clients)
          (record r { ticks = r.ticks + 1 })) [
            | inl cut ↦ inl cut
            | inr f ↦ inr (
                Fate-trans i r (record r { ticks = r.ticks + 1 }) _
                  (record {
                    protected_as = refl;
                    if_protected = λ h. refl;
                    uncached_as = λ h. h;
                    kept_or_evicted = inl refl;
                  })
                  f)
          ]
