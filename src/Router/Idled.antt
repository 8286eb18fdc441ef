-- ===== src/Router/Idled.antt =====
-- A pass of the idle closer closes the clients that are idle.
use sidewire.Prelude.{
  ℕ, ◌+◌, ◌≡◌, refl, sym, ap, subst, ◌∙◌, inl, inr, Bool, true, false, ◌||◌, Option, none, some,
  List, [], ◌∷◌, ◌==◌, ltb, length, if◌then◌else◌, Bool-cases, arith,
}
use sidewire.Prelude.Results.{Result, ok}
use sidewire.Prelude.Action.{continue, ◌>>=◌, ◌>>◌}
use sidewire.Prelude.Dict.{Dict}
use sidewire.Aionetiface.{Aionetiface, Bytes, Str}
use sidewire.Dispatch.{keys}
use sidewire.Brokers.Walk.{client_of, set_client, contains, Clients}
use sidewire.Brokers.Tried.{has_task}
use sidewire.Router.{Router, evict_client_from_cache, of_hosts, get_time}
use sidewire.Router.Idle.{
  Wait, close_if_idle, visit_client, visit_hosts, visit_families, close_idle_clients, check_size,
  hosts_of, last_active, idle_client_timeout,
}
use sidewire.Router.Fate.{cached}
use sidewire.Router.Closing.{close_idle-through, readied, shut}
use sidewire.Router.Stage.{
  IsIdle, Gone, Waits, Left, Stage, Visit, continue-Visit, other-Stage, unmet, met, Left-Stage,
  closing-other, closing-own, Closes, close_quietly-fine,
}

-- Nothing else happens while a close waits.
abbrev pub still : ℕ → Wait
still j = record { others = λ r. r; cut = false }

module _ (lib : Aionetiface) (fresh : Bytes) (closes : Closes lib fresh) where
  -- One client of the pass: nothing is done to it, its activity is noted, or it is closed.
  skipped-Visit :
      (i now j : ℕ) (base : Clients) (r : Router)
      → r.clients ≡ base
      → (i ≡ j → Waits i now r → ⊥)
      → Visit lib i now base (i == j) r (ok tt, r)
  skipped-Visit i now j base r same never = record {
    fine = refl;
    same = same;
    stage = λ g h. elim (Bool-cases (i == j)) [
      | inl hit ↦ rw hit (met lib i now g r (λ w. absurd (never (ground (arith, hit)) w)) h)
      | inr apart ↦ rw apart (unmet lib i now g r h)
    ];
  }

  module _ (i now j : ℕ) (base : Clients) (r : Router) (same : r.clients ≡ base) (d : Bool)
      (task : (r.store.member j).dispatcher_task ≡ some d) where
    t : ℕ
    t = last_active now (r.store.member j).last_send (r.store.member j).last_connect

    noted : Router
    unfolding t
    noted = record r {
      store = set_client j (record (client_of j r.store) { last_send = some t }) r.store;
    }

    -- A client with a task has not gone.
    only-Waits : (g : Bool) → i ≡ j → Stage lib i now g r → Waits i now r
    unfolding Stage
    only-Waits g e h = go g h
      where
        there : (r.store.member i).dispatcher_task ≡ some d
        there = ap (λ k. (r.store.member k).dispatcher_task) e ∙ task

        go : (g : Bool) → Stage lib i now g r → Waits i now r
        go true (un, gone) = absurd (cc (gone.task, there))
        go false (inl w) = w
        go false (inr (un, gone)) = absurd (cc (gone.task, there))

    early-Visit :
        ltb now (t + idle_client_timeout) ≡ true → Visit lib i now base (i == j) r (ok tt, noted)
    unfolding t noted
    early-Visit early = record {
      fine = refl;
      same = same;
      stage = λ g h. elim (Bool-cases (i == j)) [
        | inl hit ↦
            let e : i ≡ j = ground (arith, hit) in
            let w : Waits i now r = only-Waits g e h in
            absurd (
              cc (
                subst
                    (λ k.
                      ltb now (
                        last_active now (r.store.member k).last_send (r.store.member k).last_connect
                        + idle_client_timeout)
                      ≡ false)
                    e w.1.late,
                early,
              ))
        | inr apart ↦ rw apart (unmet lib i now g noted (other-Stage lib i j now _ r g apart h))
      ];
    }

    closed-Visit :
        (p : Result (Unit {0}) × Router)
        → p ≡ (ok tt, readied lib fresh j (shut lib fresh j noted))
        → Visit lib i now base (i == j) r p
    unfolding t noted set_client client_of readied evict_client_from_cache shut
    closed-Visit p e = subst (Visit lib i now base (i == j) r) (sym e) (record {
      fine = refl;
      same = same;
      stage = λ g h. elim (Bool-cases (i == j)) [
        | inl hit ↦
            let same_client : i ≡ j = ground (arith, hit) in
            rw hit (
              Left-Stage lib i now g (readied lib fresh j (shut lib fresh j noted)) (
                subst (λ k. Left lib k (readied lib fresh j (shut lib fresh j noted)))
                  (sym same_client)
                  (closing-own lib fresh closes j noted (open_now g same_client h))))
        | inr apart ↦ rw apart (
            unmet lib i now g (readied lib fresh j (shut lib fresh j noted)) (
              closing-other lib fresh i j now noted g apart
                (other-Stage lib i j now _ r g apart h)))
      ];
    })
      where
        open_now :
            (g : Bool) → i ≡ j → Stage lib i now g r → (noted.store.member j).is_closed ≡ false
        open_now g here h =
            let self : j == j ≡ true = ground arith in
            let w : Waits i now r = only-Waits g here h in
            rw self (subst (λ k. (r.store.member k).is_closed ≡ false) here w.1.is_open)

  visit_client-Visit :
      (i now j : ℕ) (base : Clients) (r : Router)
      → r.clients ≡ base
      → Visit lib i now base (i == j) r (visit_client lib fresh still now j r)
  unfolding visit_client t noted client_of
  visit_client-Visit i now j base r same = elim (Bool-cases (contains r.protected_clients j)) [
    | inl mine ↦ rw mine (
        skipped-Visit i now j base r same
          (λ e w. cc (mine, w.0, ap (contains r.protected_clients) e)))
    | inr other ↦ rw other (by_task (r.store.member j).dispatcher_task refl)
  ]
    where
      by_task :
          (o : Option Bool)
          → (r.store.member j).dispatcher_task ≡ o
          → Visit lib i now base (i == j) r (close_if_idle lib fresh still now j o r)
      by_task none e = skipped-Visit i now j base r same (λ here w.
          cc (w.1.task, ap (λ k. has_task (r.store.member k).dispatcher_task) here, ap has_task e))
      by_task (some d) e =
          elim (Bool-cases (ltb now (t i now j base r same d e + idle_client_timeout))) [
            | inl early ↦ rw early (early-Visit i now j base r same d e early)
            | inr late ↦ rw late (
                closed-Visit i now j base r same d e _ (
                  close_idle-through lib fresh (still j) j (noted i now j base r same d e) refl
                    (close_quietly-fine lib fresh closes _)))
          ]

  check_size-Visit :
      (i now af : ℕ) (base : Clients) (r : Router)
      → r.clients ≡ base
      → Visit lib i now base false r (check_size af (length (hosts_of af base)) r)
  unfolding check_size
  check_size-Visit i now af base r h =
      let kept : length (hosts_of af r.clients) == length (hosts_of af base) ≡ true =
        rw h (ground arith) in
      rw kept (record { fine = refl; same = h; stage = λ g at. unmet lib i now g r at })

  visit_hosts-Visit :
      (i now af : ℕ) (base : Clients) (js : List ℕ) (r : Router)
      → r.clients ≡ base
      → Visit lib i now base
          (contains js i)
          r
          (visit_hosts lib fresh still now af (length (hosts_of af base)) js r)
  unfolding visit_hosts ◌>>=◌ contains
  visit_hosts-Visit i now af base [] r h = check_size-Visit i now af base r h
  visit_hosts-Visit i now af base (j ∷ js) r h =
      let size : ℕ = length (hosts_of af base) in
      let all =
        continue-Visit lib i now base false ((i == j) || contains js i) r (check_size af size r)
          (visit_client lib fresh still now j >> visit_hosts lib fresh still now af size js)
          (check_size-Visit i now af base r h)
          (λ s same.
            continue-Visit lib i now base (i == j) (contains js i) s
              (visit_client lib fresh still now j s) (visit_hosts lib fresh still now af size js)
              (visit_client-Visit i now j base s same) (visit_hosts-Visit i now af base js)) in
      let as_or : (i == j) || contains js i ≡ (if j == i then true else contains js i) =
        ground arith in
      subst (λ hit. Visit lib i now base hit r (visit_hosts lib fresh still now af size (j ∷ js) r))
        as_or all

  -- The families of the list, one of which has client `i`.
  in_families : ℕ → Clients → List ℕ → Bool
  in_families i base [] = false
  in_families i base (af ∷ afs) = contains (of_hosts (hosts_of af base)) i || in_families i base afs

  visit_families-Visit :
      (i now : ℕ) (base : Clients) (afs : List ℕ) (r : Router)
      → r.clients ≡ base
      → Visit lib i now base (in_families i base afs) r (visit_families lib fresh still now afs r)
  unfolding visit_families ◌>>=◌ in_families hosts_of
  visit_families-Visit i now base [] r h = record {
    fine = refl;
    same = h;
    stage = λ g at. unmet lib i now g r at;
  }
  visit_families-Visit i now base (af ∷ afs) r h =
      subst
        (λ (d : Dict Str ℕ). Visit lib i now base (in_families i base (af ∷ afs)) r (
          continue (visit_hosts lib fresh still now af (length d) (of_hosts d) r)
            (λ u. visit_families lib fresh still now afs)))
        (sym (ap (hosts_of af) h))
        (continue-Visit lib i now base (contains (of_hosts (hosts_of af base)) i)
          (in_families i base afs) r
          (visit_hosts lib fresh still now af (length (hosts_of af base))
            (of_hosts (hosts_of af base)) r)
          (visit_families lib fresh still now afs)
          (visit_hosts-Visit i now af base (of_hosts (hosts_of af base)) r h)
          (visit_families-Visit i now base afs))

  in_families-contains :
      (i af : ℕ) (base : Clients) (afs : List ℕ)
      → contains afs af ≡ true
      → contains (of_hosts (hosts_of af base)) i ≡ true
      → in_families i base afs ≡ true
  unfolding in_families contains
  in_families-contains i af base [] h k = absurd (cc h)
  in_families-contains i af base (b ∷ afs) h k = elim (Bool-cases (b == af)) [
    | inl here ↦
        let e : b ≡ af = ground (arith, here) in
        let there : contains (of_hosts (hosts_of b base)) i ≡ true =
          subst (λ x. contains (of_hosts (hosts_of x base)) i ≡ true) (sym e) k in
        rw there refl
    | inr later ↦
        let rest : in_families i base afs ≡ true =
          in_families-contains i af base afs (ground (arith, later, h)) k in
        ground (arith, rest)
  ]

  -- A pass of the idle closer during which nothing else happens returns, if no cancel_task raises and no
  -- pipe.close() raises anything but OSError and ConnectionError. A client of a family that is not
  -- protected, has a dispatcher, is not closed and was not active for 600 seconds has then no task, and
  -- no pipe unless a pipe.close() raises, may connect again, and is in no entry of the discovery cache.
  pub close_idle_clients-Gone :
      (i af : ℕ) (r : Router)
      → contains (keys r.clients) af ≡ true
      → contains (of_hosts (hosts_of af r.clients)) i ≡ true
      → contains r.protected_clients i ≡ false
      → IsIdle (lib.clock r.ticks) (r.store.member i)
      → let p = close_idle_clients lib fresh still r in
        (p.0 ≡ ok tt) × Gone lib (p.1.store.member i) × (cached i p.1.cache ≡ false)
  unfolding close_idle_clients ◌>>=◌ get_time Stage
  close_idle_clients-Gone i af r family host unprotected idle =
      let r' : Router = record r { ticks = r.ticks + 1 } in
      let now : ℕ = lib.clock r.ticks in
      let v = visit_families-Visit i now r.clients (keys r.clients) r' refl in
      let met_at : in_families i r.clients (keys r.clients) ≡ true =
        in_families-contains i af r.clients (keys r.clients) family host in
      let (uncached, gone) =
        subst (λ g. Stage lib i now g (visit_families lib fresh still now (keys r.clients) r').1)
          met_at (v.stage false (inl (unprotected, idle))) in
      (v.fine, gone, uncached)
