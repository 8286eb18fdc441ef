-- ===== src/Brokers/Connected.antt =====
-- What the walks of the families find together: enough different candidates, all with a dispatcher.
use sidewire.Prelude.{
  ℕ, ◌≡◌, refl, ap, subst, ◌∙◌, inl, inr, Bool, true, false, ◌&&◌, Option, none, some, List, [],
  ◌∷◌, ◌++◌, map, if◌then◌else◌, length, take, Bool-cases,
}
use sidewire.Prelude.Results.{Exn, Result, ok}
use sidewire.Prelude.Action.{pure, lift, ◌>>=◌, >>=-eq-ok}
use sidewire.Prelude.Dict.{Dict}
use sidewire.Aionetiface.{Aionetiface, Bytes, Str}
use sidewire.Brokers.{Server, Servers, Families, rendezvous_hash}
use sidewire.Brokers.Walk.{Store, Clients, Hints, on_client, try_client}
use sidewire.Brokers.Gather.{
  Walk, Event, task_done, cap_hit, Gathering, begin_walk, settle, stop, pending, on_event,
  on_events, task_ended, join_found, conclude, with_walks, gather, find_clients, is_empty,
  get_dest_clients, candidates_by, ranked_servers,
}
use sidewire.Brokers.Found.{stop-Sound, settle-Sound}
use sidewire.Brokers.Tried.{AllTasks, Keeps, on_client-Keeps, on_client-task}
use sidewire.Brokers.Held.{
  Joined, Held, Held-begin, Held-later, Held-update, settle-AllTasks, Held-join,
}

module _ (lib : Aionetiface) (fresh : Bytes) where
  Held-event :
      (cs : List (List ℕ)) (e : Event) (g : Gathering) (s : Store)
      → Held s cs g.walks
      → Held (on_event lib fresh e g s).1 cs (on_event lib fresh e g s).0.walks
  unfolding on_event stop
  Held-event cs (cap_hit k) g s h =
      Held-update s stop k cs g.walks (λ c w sound tasks. (stop-Sound sound, tasks)) h
  Held-event cs (task_done k i w) g s h = elim (Bool-cases (pending k i g.walks)) [
    | inr gone ↦ rw gone h
    | inl there ↦ rw there (ended (on_client i (try_client lib fresh 1200 w) s) refl)
  ]
    where
      ended :
          (r : Result Bool × Store)
          → on_client i (try_client lib fresh 1200 w) s ≡ r
          → Held (task_ended lib fresh k i g r).1 cs (task_ended lib fresh k i g r).0.walks
      ended (r, s') e =
          let after : (on_client i (try_client lib fresh 1200 w) s).1 ≡ s' = ap (λ p. p.1) e in
          let keeps : Keeps s s' = subst (Keeps s) after (on_client-Keeps lib fresh i w s) in
          Held-update s' (settle i r) k cs g.walks
            (λ c w' sound tasks. (
              settle-Sound w' i r sound,
              settle-AllTasks s' i r w'
                  (λ is. on_client-task lib fresh i w s s' (e ∙ ap (λ b. (b, s')) is)) tasks,
            ))
            (Held-later s s' cs g.walks keeps h)

  Held-events :
      (cs : List (List ℕ)) (es : List Event) (g : Gathering) (s : Store)
      → Held s cs g.walks
      → Held (on_events lib fresh es g s).1 cs (on_events lib fresh es g s).0.walks
  unfolding on_events
  Held-events cs [] g s h = h
  Held-events cs (e ∷ es) g s h =
      let r = on_event lib fresh e g s in Held-events cs es r.0 r.1 (Held-event cs e g s h)

  gather-Joined :
      (old : List Walk) (cs : List (List ℕ)) (events : List Event) (s s' : Store) (found : List ℕ)
      (ws : List Walk)
      → gather lib fresh old cs events s ≡ (ok (found, ws), s')
      → Joined cs found × AllTasks found s'
  unfolding gather conclude
  gather-Joined old cs events s s' found ws h =
      concluded r.0.failed (ap (λ (p : Result (List ℕ × List Walk) × Store). p.0) h)
    where
      start : Gathering
      start = record { walks = map begin_walk cs ++ old; failed = none }

      r : Gathering × Store
      r = on_events lib fresh events start s

      left : r.1 ≡ s'
      left = ap (λ (p : Result (List ℕ × List Walk) × Store). p.1) h

      concluded :
          (failed : Option Exn)
          → with_walks (map stop r.0.walks) (conclude failed (take (length cs) r.0.walks))
            ≡ ok (found, ws)
          → Joined cs found × AllTasks found s'
      concluded (some x) e = absurd (cc e)
      concluded none e =
          let pair : List ℕ × List Walk =
            (join_found (take (length cs) r.0.walks), map stop r.0.walks) in
          let pair' : List ℕ × List Walk = (found, ws) in
          let same : pair ≡ pair' = cc e in
          let value : pair.0 ≡ found = ap (λ (p : List ℕ × List Walk). p.0) same in
          let (joined, tasks) =
            Held-join r.1 cs r.0.walks (Held-events cs events start s (Held-begin s cs old)) in
          (
            subst (Joined cs) value joined,
            subst (AllTasks found) left (subst (λ f. AllTasks f r.1) value tasks),
          )

  find_clients-Joined :
      (cs : List (List ℕ)) (first second_try : List Event) (retry_enabled : Bool) (s s' : Store)
      (found : List ℕ)
      → find_clients lib fresh cs first second_try retry_enabled s ≡ (ok found, s')
      → Joined cs found × AllTasks found s'
  unfolding find_clients pure
  find_clients-Joined cs first second_try retry_enabled s s' found h =
      let ((found1, ws), s1, e1, h1) = >>=-eq-ok _ _ s s' found h in
      ended found1 ws s1 e1 (is_empty lib fresh found1 && retry_enabled) h1
    where
      ended :
          (found1 : List ℕ) (ws : List Walk) (s1 : Store)
          → gather lib fresh [] cs first s ≡ (ok (found1, ws), s1)
          → (again : Bool)
          → (if again
                then (do (found2, ws2) ← gather lib fresh ws cs second_try; pure found2)
                else pure found1)
              s1
            ≡ (ok found, s')
          → Joined cs found × AllTasks found s'
      ended found1 ws s1 e1 true h1 =
          let ((found2, ws2), s2, e2, h2) = >>=-eq-ok _ _ s1 s' found h1 in
          let left : s2 ≡ s' = ap (λ (p : Result (List ℕ) × Store). p.1) h2 in
          let values : ok found2 ≡ ok found = ap (λ (p : Result (List ℕ) × Store). p.0) h2 in
          let value : found2 ≡ found = cc values in
          let (joined, tasks) = gather-Joined ws cs second_try s1 s2 found2 ws2 e2 in
          (
            subst (Joined cs) value joined,
            subst (AllTasks found) left (subst (λ f. AllTasks f s2) value tasks),
          )
      ended found1 ws s1 e1 false h1 =
          let left : s1 ≡ s' = ap (λ (p : Result (List ℕ) × Store). p.1) h1 in
          let values : ok found1 ≡ ok found = ap (λ (p : Result (List ℕ) × Store). p.0) h1 in
          let value : found1 ≡ found = cc values in
          let (joined, tasks) = gather-Joined [] cs first s s1 found1 ws e1 in
          (
            subst (Joined cs) value joined,
            subst (AllTasks found) left (subst (λ f. AllTasks f s1) value tasks),
          )

  -- If get_dest_clients returns, it has ranked the servers, and each family's walk has found different
  -- candidates of its first ten, not more than the number that its candidates call for. The result is
  -- what they found, one family after the other, and each client of it has a dispatcher. This is for
  -- all orders in which tasks of all walks end, during or after their walk, and caps are hit.
  pub get_dest_clients-Joined :
      {Score : Type 0} (not_above : Score → Score → Bool) (score : Bytes → Bytes → Bytes → Score)
      (f : Families) (supported : List ℕ) (key : Str) (servers : Servers) (known : Clients)
      (hints : Hints) (first second_try : List Event) (retry_enabled : Bool) (s s' : Store)
      (found : List ℕ)
      → get_dest_clients lib fresh not_above score f supported key servers known hints first
          second_try retry_enabled s
        ≡ (ok found, s')
      → (buckets : Dict ℕ (List (Score × Server))) × (rendezvous_hash not_above score lib supported
            key servers
          ≡ ok buckets)
        × Joined (candidates_by lib fresh f hints known (ranked_servers lib fresh buckets)) found
        × AllTasks found s'
  unfolding get_dest_clients lift
  get_dest_clients-Joined not_above score f supported key servers known hints first second_try retry
        s s' found h =
      let (buckets, s1, e1, h1) = >>=-eq-ok _ _ s s' found h in
      let (joined, tasks) =
        find_clients-Joined
          (candidates_by lib fresh f hints known (ranked_servers lib fresh buckets)) first
          second_try retry s1 s' found h1 in
      (buckets, ap (λ p. p.0) e1, joined, tasks)
