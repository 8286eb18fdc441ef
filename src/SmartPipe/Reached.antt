-- ===== src/SmartPipe/Reached.antt =====
-- SmartPipe.connect: each client of the pipe is one that answered.
use sidewire.Prelude.{
  ℕ, ◌≡◌, refl, ap, subst, inl, inr, Bool, true, false, Option, none, some, List, [], ◌∷◌, ◌==◌,
  Bool-cases, arith,
}
use sidewire.Prelude.Results.{Result, ok, raised}
use sidewire.Prelude.Action.{pure, modify, gets, ◌>>=◌, >>=-eq-ok}
use sidewire.Aionetiface.{Aionetiface, Bytes, Str}
use sidewire.Client.{Client}
use sidewire.Connection.{Attempt}
use sidewire.Brokers.{Families}
use sidewire.Brokers.Walk.{Store, client_of, set_client, on_client, contains, try_client}
use sidewire.Brokers.Connected.{get_dest_clients-Joined}
use sidewire.Brokers.Tried.{AllTasks, Keeps, on_client-Keeps, on_client-task}
use sidewire.Router.{Router, on_store, add_handler, add_to_all}
use sidewire.Router.Handlers.{add_to_all-has}
use sidewire.SmartPipe.{
  SmartPipe, PeerHint, Walks, reached, try_all, with_world, resolve_hint_clients, by_hints,
  by_rendezvous, attach, connect,
}

module _ (lib : Aionetiface) (fresh : Bytes) where
  try_all-Keeps : (ts : List (ℕ × Attempt)) (s : Store) → Keeps s (try_all lib fresh ts s).1
  unfolding try_all
  try_all-Keeps [] s j h = h
  try_all-Keeps ((i, w) ∷ ts) s j h =
      let s1 : Store = (on_client i (try_client lib fresh 1200 w) s).1 in
      try_all-Keeps ts s1 j (on_client-Keeps lib fresh i w s j h)

  -- The clients that answer have a dispatcher.
  try_all-AllTasks :
      (ts : List (ℕ × Attempt)) (s : Store)
      → AllTasks (try_all lib fresh ts s).0 (try_all lib fresh ts s).1
  unfolding try_all AllTasks contains
  try_all-AllTasks [] s = λ i h. absurd (cc h)
  try_all-AllTasks ((i, w) ∷ ts) s =
      by_result (on_client i (try_client lib fresh 1200 w) s) refl (try_all-AllTasks ts)
        (try_all-Keeps ts)
    where
      by_result :
          (p : Result Bool × Store)
          → on_client i (try_client lib fresh 1200 w) s ≡ p
          → ((s1 : Store) → AllTasks (try_all lib fresh ts s1).0 (try_all lib fresh ts s1).1)
          → ((s1 : Store) → Keeps s1 (try_all lib fresh ts s1).1)
          → AllTasks
              (reached lib fresh i p.0 (try_all lib fresh ts p.1).0)
              (try_all lib fresh ts p.1).1
      by_result (raised x, s1) e rest keeps = λ j h. rest s1 j h
      by_result (ok false, s1) e rest keeps = λ j h. rest s1 j h
      by_result (ok true, s1) e rest keeps = λ j h. elim (Bool-cases (i == j)) [
        | inl here ↦
            let same : i ≡ j = ground (arith, here) in
            keeps s1 j (rw same at (on_client-task lib fresh i w s s1 e))
        | inr other ↦ rest s1 j (rw other at h)
      ]

  hints-AllTasks :
      (supports : ℕ → Bool) (world : ℕ → Attempt) (hints : List PeerHint) (r r' : Router)
      (found : List ℕ)
      → resolve_hint_clients lib fresh supports world hints r ≡ (ok found, r')
      → AllTasks found r'.store
  unfolding resolve_hint_clients on_store
  hints-AllTasks supports world hints r r' found h =
      let (to_try, r1, e1, h1) = >>=-eq-ok _ _ r r' found h in
      let ts : List (ℕ × Attempt) = with_world lib fresh world to_try in
      let value : ok (try_all lib fresh ts r1.store).0 ≡ ok found = ap (λ p. p.0) h1 in
      let value' : (try_all lib fresh ts r1.store).0 ≡ found = cc value in
      let left : (try_all lib fresh ts r1.store).1 ≡ r'.store = ap (λ p. p.1.store) h1 in
      subst (AllTasks found) left (
        subst (λ f. AllTasks f (try_all lib fresh ts r1.store).1) value'
          (try_all-AllTasks ts r1.store))

-- Each client has the handler that is given.
pub AllAttached : Option ℕ → List ℕ → Store → Type 0
AllAttached none is s = Unit {0}
AllAttached (some h) is s =
    (i : ℕ) → contains is i ≡ true → contains (s.member i).msg_handlers h ≡ true

add_handler-task : (h : ℕ) (c : Client) → (add_handler h c).dispatcher_task ≡ c.dispatcher_task
unfolding add_handler
add_handler-task h c = elim (Bool-cases (contains c.msg_handlers h)) [
  | inl old ↦ rw old refl
  | inr new ↦ rw new refl
]

add_to_all-Keeps : (h : ℕ) (is : List ℕ) (s : Store) → Keeps s (add_to_all h is s)
unfolding add_to_all set_client client_of
add_to_all-Keeps h [] s j k = k
add_to_all-Keeps h (i ∷ is) s j k =
    add_to_all-Keeps h is (set_client i (add_handler h (client_of i s)) s) j
      (elim (Bool-cases (i == j)) [
        | inl here ↦
            let same : i ≡ j = ground (arith, here) in rw (here, add_handler-task) (rw same k)
        | inr other ↦ rw other k
      ])

module _ (lib : Aionetiface) (fresh : Bytes) {Score : Type 0} (not_above : Score → Score → Bool)
    (score : Bytes → Bytes → Bytes → Score) where
  rendezvous-AllTasks :
      (f : Families) (supported : List ℕ) (w : Walks lib fresh not_above score) (dest : Str)
      (hinted found : List ℕ) (r r' : Router)
      → AllTasks hinted r.store
      → by_rendezvous lib fresh not_above score f supported w dest hinted r ≡ (ok found, r')
      → AllTasks found r'.store
  unfolding by_rendezvous on_store pure gets ◌>>=◌
  rendezvous-AllTasks f supported w dest (i ∷ is) found r r' tasks h =
      let values : ok (i ∷ is) ≡ ok found = ap (λ p. p.0) h in
      let value : i ∷ is ≡ found = cc values in
      let left : r.store ≡ r'.store = ap (λ p. p.1.store) h in
      subst (AllTasks found) left (subst (λ x. AllTasks x r.store) value tasks)
  rendezvous-AllTasks f supported w dest [] found r r' tasks h =
      let (buckets, ranked, joined, all) =
        get_dest_clients-Joined lib fresh not_above score f supported dest r.servers r.clients []
          w.first w.second_try w.retry_enabled r.store r'.store found
          (ap (λ (p : Result (List ℕ) × Router). (p.0, p.1.store)) h) in
      all

  by_hints-AllTasks :
      (supports : ℕ → Bool) (w : Walks lib fresh not_above score) (hints : List PeerHint)
      (is found : List ℕ) (r r' : Router)
      → is ≡ []
      → by_hints lib fresh not_above score supports w hints is r ≡ (ok found, r')
      → AllTasks found r'.store
  unfolding by_hints
  by_hints-AllTasks supports w hints [] found r r' e h =
      hints-AllTasks lib fresh supports w.hinted hints r r' found h
  by_hints-AllTasks supports w hints (i ∷ is) found r r' e h = absurd (cc e)

  attach-AllTasks :
      (msg_cb : Option ℕ) (is : List ℕ) (r r' : Router)
      → AllTasks is r.store
      → attach lib fresh not_above score msg_cb is r ≡ (ok tt, r')
      → AllTasks is r'.store × AllAttached msg_cb is r'.store
  unfolding modify pure AllTasks AllAttached
  attach-AllTasks none is r r' tasks h =
      let left : r.store ≡ r'.store = ap (λ p. p.1.store) h in (subst (AllTasks is) left tasks, tt)
  attach-AllTasks (some m) is r r' tasks h =
      let left : add_to_all m is r.store ≡ r'.store = ap (λ p. p.1.store) h in
      subst (λ s. AllTasks is s × AllAttached (some m) is s) left
        (
          (λ i at. add_to_all-Keeps m is r.store i (tasks i at)),
          (λ i at. add_to_all-has m i is r.store at),
        )

  -- If connect returns for a pipe without clients, each client that the pipe then has, whether a hint or
  -- the walks found it, has a dispatcher_task that is not None (the task may be done), and has the
  -- message handler that was given.
  pub connect-Reached :
      (supports : ℕ → Bool) (f : Families) (supported : List ℕ)
      (w : Walks lib fresh not_above score) (msg_cb : Option ℕ) (p p' : SmartPipe) (r r' : Router)
      → p.clients ≡ []
      → connect lib fresh not_above score supports f supported w msg_cb p r ≡ (ok p', r')
      → AllTasks p'.clients r'.store × AllAttached msg_cb p'.clients r'.store
  unfolding connect pure
  connect-Reached supports f supported w msg_cb p p' r r' empty h =
      let (hinted, r1, e1, h1) = >>=-eq-ok _ _ r r' p' h in
      let (found, r2, e2, h2) = >>=-eq-ok _ _ r1 r' p' h1 in
      let (u, r3, e3, h3) = >>=-eq-ok _ _ r2 r' p' h2 in
      let tasks1 = by_hints-AllTasks supports w p.hint_brokers p.clients hinted r r1 empty e1 in
      let tasks2 = rendezvous-AllTasks f supported w p.dest_pub_hex hinted found r1 r2 tasks1 e2 in
      let both = attach-AllTasks msg_cb found r2 r3 tasks2 e3 in
      let values : ok (record p { clients = found }) ≡ ok p' =
        ap (λ (x : Result SmartPipe × Router). x.0) h3 in
      let value : record p { clients = found } ≡ p' = cc values in
      let left : r3.store ≡ r'.store = ap (λ (x : Result SmartPipe × Router). x.1.store) h3 in
      subst (λ s. AllTasks p'.clients s × AllAttached msg_cb p'.clients s) left
        (subst
          (λ (x : SmartPipe). AllTasks x.clients r3.store × AllAttached msg_cb x.clients r3.store)
          value both)
