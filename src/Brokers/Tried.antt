-- ===== src/Brokers/Tried.antt =====
-- A client that try_client returns has a dispatcher, and none loses its own.
use sidewire.Prelude.{
  ℕ, ◌≡◌, refl, sym, ap, subst, ◌∙◌, inl, inr, Bool, true, false, Option, none, some, List,
  if◌then◌else◌, ◌==◌, Bool-cases, arith,
}
use sidewire.Prelude.Results.{Exn, cancelled_error, Result, ok, raised}
use sidewire.Prelude.Action.{Action, pure, modify, try_except, catch, ◌>>=◌, ◌>>◌, >>=-eq-ok}
use sidewire.Aionetiface.{Aionetiface, Bytes}
use sidewire.Client.{Client}
use sidewire.Connection.{Attempt, Canceller, callers_timeout, begin, connect_by, connect}
use sidewire.Brokers.Walk.{
  Store, on_client, client_of, set_client, contains, is_unreachable, connect_timed_out,
  wait_for_connect, too_soon, try_connect, try_by, try_client,
}

-- A client with a dispatcher.
abbrev pub has_task : Option Bool → Bool
has_task none = false
has_task (some is_done) = true

module _ (lib : Aionetiface) (fresh : Bytes) where
  begin-task :
      (n k : ℕ) (w : Attempt) (c c' : Client) (p : Option Bool)
      → begin lib fresh n k w c ≡ (ok p, c')
      → has_task c'.dispatcher_task ≡ true
  unfolding modify pure
  begin-task n k w c c' p h =
      let (u1, c1, e1, h1) = >>=-eq-ok _ _ c c' p h in
      let (u2, c2, e2, h2) = >>=-eq-ok _ _ c1 c' p h1 in
      let (p3, c3, e3, h3) = >>=-eq-ok _ _ c2 c' p h2 in
      let (u4, c4, e4, h4) = >>=-eq-ok _ _ c3 c' p h3 in
      let s : record c3 {
        dispatcher_task = elim c3.dispatcher_task [ none ↦ some false | some b ↦ some b ];
      }
          ≡ c' =
        ap (λ (r : Result (Unit {0}) × Client). r.1) e4
        ∙ ap (λ (r : Result (Option Bool) × Client). r.1) h4 in
      subst (λ (x : Client). has_task x.dispatcher_task ≡ true) s (by_task c3.dispatcher_task)
    where
      by_task : (o : Option Bool) → has_task (elim o [ none ↦ some false | some b ↦ some b ]) ≡ true
      by_task none = refl
      by_task (some b) = refl

  connect-task :
      (w : Attempt) (c c' : Client) (p : Option Bool)
      → connect lib fresh 60 10 w c ≡ (ok p, c')
      → has_task c'.dispatcher_task ≡ true
  unfolding connect
  connect-task w c c' p h = go c.dispatcher_task refl h
    where
      go :
          (o : Option Bool)
          → c.dispatcher_task ≡ o
          → connect_by lib fresh o 60 10 w c ≡ (ok p, c')
          → has_task c'.dispatcher_task ≡ true
      go none e h = begin-task 60 10 w c c' p h
      go (some true) e h = begin-task 60 10 w c c' p h
      go (some false) e h =
          let s : c ≡ c' = ap (λ (r : Result (Option Bool) × Client). r.1) h in
          subst (λ (x : Client). has_task x.dispatcher_task ≡ true) s (ap has_task e)

  -- What `try_connect` returns True for.
  caught-ok :
      (r : Result Bool × Client) (handler : Action Client Bool) (c' : Client)
      → ((s : Client) (s' : Client) → handler s ≡ (ok true, s') → ⊥)
      → catch is_unreachable handler r ≡ (ok true, c')
      → r ≡ (ok true, c')
  caught-ok (ok b, s) handler c' never h = h
  caught-ok (raised x, s) handler c' never h = absurd (by_kind (is_unreachable x) h)
    where
      by_kind :
          (b : Bool)
          → elim b as (λ _. Result Bool × Client) [ true ↦ handler s | false ↦ (raised x, s) ]
            ≡ (ok true, c')
          → ⊥
      by_kind true h = never s c' h
      by_kind false h = cc h

  -- The `except` branch of try_client.
  handler-false :
      (now : ℕ) (s s' : Client)
      → (do modify (λ (c : Client). record c { last_connect = some now }); pure false) s
        ≡ (ok true, s')
      → ⊥
  unfolding ◌>>=◌
  handler-false now s s' h = cc h

  timed_out : Result (Option Bool) × Client → Canceller → Result (Option Bool) × Client
  timed_out r by = (connect_timed_out lib fresh r.0 by, r.1)

  -- What is returned in time.
  in_time :
      (w : Attempt) (r : Result (Option Bool) × Client) (c' : Client) (p : Option Bool)
      → timed_out r w.canceller ≡ (ok p, c')
      → r ≡ (ok p, c')
  unfolding connect_timed_out timed_out
  in_time w (ok q, c) c' p h = h
  in_time w (raised x, c) c' p h = absurd (late x w.canceller h)
    where
      late : (x : Exn) (by : Canceller) → timed_out (raised x, c) by ≡ (ok p, c') → ⊥
      late cancelled_error callers_timeout h = cc h
      late cancelled_error _ h = cc h
      late _ by h = cc h

  try_connect-task :
      (now : ℕ) (w : Attempt) (c c' : Client)
      → try_connect lib fresh now w c ≡ (ok true, c')
      → has_task c'.dispatcher_task ≡ true
  unfolding try_except pure timed_out
  try_connect-task now w c c' h =
      let e =
        caught-ok ((wait_for_connect lib fresh w >>= λ pipe. pure true) c)
          (do modify (λ (c : Client). record c { last_connect = some now }); pure false) c'
          (handler-false now) h in
      let (p, c1, e1, h1) = >>=-eq-ok _ _ c c' true e in
      let s : c1 ≡ c' = ap (λ (r : Result Bool × Client). r.1) h1 in
      subst (λ (x : Client). has_task x.dispatcher_task ≡ true) s
        (connect-task w c c1 p (in_time w (connect lib fresh 60 10 w c) c1 p e1))

  pub try_client-task :
      (w : Attempt) (c c' : Client)
      → try_client lib fresh 1200 w c ≡ (ok true, c')
      → has_task c'.dispatcher_task ≡ true
  unfolding try_client pure
  try_client-task w c c' h = go c.dispatcher_task refl h
    where
      late :
          (b : Bool) (now : ℕ) (c2 : Client)
          → (if b then pure false else try_connect lib fresh now w) c2 ≡ (ok true, c')
          → has_task c'.dispatcher_task ≡ true
      late true now c2 h = absurd (cc h)
      late false now c2 h = try_connect-task now w c2 c' h

      go :
          (o : Option Bool)
          → c.dispatcher_task ≡ o
          → try_by lib fresh o 1200 w c ≡ (ok true, c')
          → has_task c'.dispatcher_task ≡ true
      go (some is_done) e h =
          let s : c ≡ c' = ap (λ (r : Result Bool × Client). r.1) h in
          subst (λ (x : Client). has_task x.dispatcher_task ≡ true) s (ap has_task e)
      go none e h =
          let (now, c1, e1, h1) = >>=-eq-ok _ _ c c' true h in
          let (last, c2, e2, h2) = >>=-eq-ok _ _ c1 c' true h1 in
          late (too_soon lib fresh now 1200 last) now c2 h2

-- All clients of the list have a dispatcher.
unfoldable pub AllTasks : List ℕ → Store → Type 0
AllTasks found s = (i : ℕ) → contains found i ≡ true → has_task (s.member i).dispatcher_task ≡ true

-- No client that had a dispatcher is without one later.
abbrev pub Keeps : Store → Store → Type 0
Keeps s s' =
    (j : ℕ)
    → has_task (s.member j).dispatcher_task ≡ true
    → has_task (s'.member j).dispatcher_task ≡ true

module _ (lib : Aionetiface) (fresh : Bytes) where
  try_client-keeps :
      (w : Attempt) (c : Client)
      → has_task c.dispatcher_task ≡ true
      → has_task (try_client lib fresh 1200 w c).1.dispatcher_task ≡ true
  unfolding try_client pure
  try_client-keeps w c h = by_task c.dispatcher_task h
    where
      by_task :
          (o : Option Bool)
          → has_task o ≡ true
          → has_task (try_by lib fresh o 1200 w c).1.dispatcher_task ≡ true
      by_task none missing = absurd (cc missing)
      by_task (some is_done) there = h

  pub on_client-Keeps :
      (i : ℕ) (w : Attempt) (s : Store) → Keeps s (on_client i (try_client lib fresh 1200 w) s).1
  unfolding on_client set_client client_of
  on_client-Keeps i w s j h = elim (Bool-cases (i == j)) [
    | inl here ↦
        let same : i ≡ j = ground (arith, here) in
        rw here (try_client-keeps w (client_of i s) (rw same h))
    | inr other ↦ rw other h
  ]

  -- A client that a task returned has a dispatcher.
  pub on_client-task :
      (i : ℕ) (w : Attempt) (s s' : Store)
      → on_client i (try_client lib fresh 1200 w) s ≡ (ok true, s')
      → has_task (s'.member i).dispatcher_task ≡ true
  unfolding on_client set_client
  on_client-task i w s s' e =
      ap (λ (t : Store). has_task (t.member i).dispatcher_task) (sym after) ∙ mine
    where
      r : Result Bool × Client
      r = try_client lib fresh 1200 w (client_of i s)

      after : set_client i r.1 s ≡ s'
      after = ap (λ (p : Result Bool × Store). p.1) e

      task : has_task r.1.dispatcher_task ≡ true
      task =
          try_client-task lib fresh w (client_of i s) r.1
            (ap (λ (x : Result Bool). (x, r.1)) (ap (λ (p : Result Bool × Store). p.0) e))

      self : (k : ℕ) → k == k ≡ true
      self k = ground arith

      mine : has_task ((set_client i r.1 s).member i).dispatcher_task ≡ true
      mine = rw (self i) task
