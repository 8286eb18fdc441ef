-- ===== src/Router/Looping.antt =====
-- idle_closer_loop: what ends it.
use sidewire.Prelude.{
  ℕ, ◌+◌, ◌≡◌, ◌≢◌, refl, sym, ap, subst, ◌∙◌, ◌⊎◌, inl, inr, Bool, true, Option, none, some, List,
  [], ◌∷◌, ◌==◌, ltb, length, All, Bool-cases, arith,
}
use sidewire.Prelude.Results.{Exn, os_error, connection_error, cancelled_error, Result, ok, raised}
use sidewire.Prelude.Action.{Action, continue, ◌>>=◌, ◌>>◌}
use sidewire.Prelude.Dict.{Dict}
use sidewire.Aionetiface.{Aionetiface, Bytes, Str}
use sidewire.Dispatch.{keys}
use sidewire.Connection.Shut.{Fails}
use sidewire.Brokers.Walk.{on_client, client_of, contains, Clients}
use sidewire.Router.{Router, on_store, of_hosts, get_time}
use sidewire.Router.Idle.{
  Wait, close_idle, close_if_idle, visit_client, visit_hosts, visit_families, close_idle_clients,
  check_size, hosts_of, last_active, idle_client_timeout, Waking, Closer, returned, running,
  escaped, after_pass, idle_closer_loop,
}
use sidewire.Router.Closing.{
  Stops, close_quietly-Fails, close_idle-through, readied-clients, shut-clients,
}

-- No host is added or taken away meanwhile.
unfoldable pub Quiet : (ℕ → Wait) → Type 0
Quiet world = (j : ℕ) (r : Router) → ((world j).others r).clients ≡ r.clients

-- It returned or stopped, and the clients are still `base`.
Goes : Aionetiface → Clients → Result (Unit {0}) × Router → Type 0
Goes lib base p = ((p.0 ≡ ok tt) ⊎ Stops lib p) × (p.1.clients ≡ base)

continue-Goes :
    (lib : Aionetiface) (base : Clients) (p : Result (Unit {0}) × Router)
    (m : Action Router (Unit {0}))
    → Goes lib base p
    → ((s : Router) → s.clients ≡ base → Goes lib base (m s))
    → Goes lib base (continue p (λ u. m))
unfolding Goes
continue-Goes lib base (ok u, s) m (e, same) g = g s same
continue-Goes lib base (raised x, s) m (inl returns, same) g = absurd (cc returns)
continue-Goes lib base (raised x, s) m (inr stops, same) g = (inr stops, same)

module _ (lib : Aionetiface) (fresh : Bytes) (world : ℕ → Wait) (quiet : Quiet world)
    (base : Clients) where
  close_idle-Goes :
      (j : ℕ) (r : Router) → r.clients ≡ base → Goes lib base (close_idle lib fresh (world j) j r)
  unfolding Goes close_idle on_store on_client ◌>>=◌ Quiet
  close_idle-Goes j r h = elim (Bool-cases (world j).cut) [
    | inl cut ↦ rw cut (inr (cancelled_error, refl, inl refl), quiet j _ ∙ h)
    | inr through ↦ elim (close_quietly-Fails lib fresh (client_of j r.store)) [
      | inl fine ↦
          rw (close_idle-through lib fresh (world j) j r through fine)
            (inl refl, readied-clients lib fresh j _ ∙ quiet j _ ∙ shut-clients lib fresh j r ∙ h)
      | inr (x, e, no_os, no_conn, why) ↦
          rw through (rw e (inr (x, refl, inr (no_os, no_conn, why)), h))
    ]
  ]

  visit_client-Goes :
      (now j : ℕ) (r : Router)
      → r.clients ≡ base
      → Goes lib base (visit_client lib fresh world now j r)
  unfolding visit_client Goes
  visit_client-Goes now j r h = elim (Bool-cases (contains r.protected_clients j)) [
    | inl mine ↦ rw mine (inl refl, h)
    | inr other ↦ rw other (by_task (client_of j r.store).dispatcher_task)
  ]
    where
      t : ℕ
      t = last_active now (client_of j r.store).last_send (client_of j r.store).last_connect

      by_task : (o : Option Bool) → Goes lib base (close_if_idle lib fresh world now j o r)
      by_task none = (inl refl, h)
      by_task (some d) = elim (Bool-cases (ltb now (t + idle_client_timeout))) [
        | inl early ↦ rw early (inl refl, h)
        | inr idle ↦ rw idle (close_idle-Goes j _ h)
      ]

  check_size-Goes :
      (af : ℕ) (r : Router)
      → r.clients ≡ base
      → Goes lib base (check_size af (length (hosts_of af base)) r)
  unfolding check_size Goes
  check_size-Goes af r h =
      let same : length (hosts_of af r.clients) == length (hosts_of af base) ≡ true =
        rw h (ground arith) in
      rw same (inl refl, h)

  visit_hosts-Goes :
      (now af : ℕ) (js : List ℕ) (r : Router)
      → r.clients ≡ base
      → Goes lib base (visit_hosts lib fresh world now af (length (hosts_of af base)) js r)
  unfolding visit_hosts ◌>>=◌
  visit_hosts-Goes now af [] r h = check_size-Goes af r h
  visit_hosts-Goes now af (j ∷ js) r h =
      let size : ℕ = length (hosts_of af base) in
      continue-Goes lib base (check_size af size r)
        (visit_client lib fresh world now j >> visit_hosts lib fresh world now af size js)
        (check_size-Goes af r h)
        (λ s same.
          continue-Goes lib base (visit_client lib fresh world now j s)
            (visit_hosts lib fresh world now af size js) (visit_client-Goes now j s same)
            (visit_hosts-Goes now af js))

  visit_families-Goes :
      (now : ℕ) (afs : List ℕ) (r : Router)
      → r.clients ≡ base
      → Goes lib base (visit_families lib fresh world now afs r)
  unfolding visit_families ◌>>=◌ Goes hosts_of
  visit_families-Goes now [] r h = (inl refl, h)
  visit_families-Goes now (af ∷ afs) r h =
      subst
        (λ (d : Dict Str ℕ). Goes lib base (
          continue (visit_hosts lib fresh world now af (length d) (of_hosts d) r)
            (λ u. visit_families lib fresh world now afs)))
        (sym (ap (hosts_of af) h))
        (continue-Goes lib base
          (visit_hosts lib fresh world now af (length (hosts_of af base))
            (of_hosts (hosts_of af base)) r)
          (visit_families lib fresh world now afs)
          (visit_hosts-Goes now af (of_hosts (hosts_of af base)) r h) (visit_families-Goes now afs))

module _ (lib : Aionetiface) (fresh : Bytes) where
  pass-Goes :
      (world : ℕ → Wait) (r : Router)
      → Quiet world
      → Goes lib r.clients (close_idle_clients lib fresh world r)
  unfolding close_idle_clients ◌>>=◌ get_time
  pass-Goes world r quiet =
      visit_families-Goes lib fresh world quiet r.clients (lib.clock r.ticks) (keys r.clients)
        (record r { ticks = r.ticks + 1 }) refl

  -- How the idle closer stands.
  abbrev pub Standing : Closer → Type 0
  Standing k =
      (k ≡ running)
      ⊎ (k ≡ returned)
      ⊎ ((x : Exn) × (k ≡ escaped x)
          × (x ≢ os_error)
          × (x ≢ connection_error)
          × (x ≢ cancelled_error)
          × Fails lib x)

  passed :
      (p : Result (Unit {0}) × Router) (rest : Router → Closer × Router)
      → (p.0 ≡ ok tt) ⊎ Stops lib p
      → ((s : Router) → Standing (rest s).0)
      → Standing (after_pass rest p).0
  passed (ok u, s) rest e h = h s
  passed (raised cancelled_error, s) rest e h = inr (inl refl)
  passed (raised os_error, s) rest e h = h s
  passed (raised connection_error, s) rest e h = h s
  passed (raised x, s) rest (inl e) h = absurd (cc e)
  passed (raised x, s) rest (inr (y, e, inl cut)) h = absurd (cc (e, cut))
  passed (raised x, s) rest (inr (y, e, inr why)) h =
      let same : y ≡ x = cc e in
      inr (inr (x, refl, (λ e. cc e), (λ e. cc e), (λ e. cc e), subst (Fails lib) same why.2))

  -- If no other task adds a host while a close of a pass waits: the idle closer goes on, or returns, or
  -- is ended by an exception that cancel_task or pipe.close() raises for a client and that is none of
  -- OSError, ConnectionError and CancelledError.
  pub idle_closer_loop-Quiet :
      (ts : List Waking) (r : Router)
      → All (λ (t : Waking). Quiet t.world) ts
      → Standing (idle_closer_loop lib fresh ts r).0
  unfolding idle_closer_loop Goes
  idle_closer_loop-Quiet [] r h = inl refl
  idle_closer_loop-Quiet (t ∷ ts) r (quiet, h) = elim (Bool-cases t.cancelled) [
    | inl stop ↦ rw stop (inr (inl refl))
    | inr on ↦ rw on (
        passed (close_idle_clients lib fresh t.world (t.meanwhile r))
          (idle_closer_loop lib fresh ts) (pass-Goes t.world (t.meanwhile r) quiet).0
          (λ s. idle_closer_loop-Quiet ts s h))
  ]
