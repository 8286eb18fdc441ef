-- ===== src/Router/Stage.antt =====
-- How far a client is in a pass of the idle closer: it waits for its close, or has gone.
use sidewire.Prelude.{
  ℕ, ◌+◌, ◌≡◌, refl, sym, ap, subst, ◌∙◌, ◌⊎◌, inl, inr, Bool, true, false, ◌||◌, Option, none,
  List, [], ◌++◌, Option-cases, ◌∷◌, ◌==◌, ltb, if◌then◌else◌, arith,
}
use sidewire.Prelude.Results.{Exn, os_error, connection_error, Result, ok, raised, Result-cases}
use sidewire.Prelude.Action.{Action, continue, ◌>>=◌}
use sidewire.Prelude.Dict.{Dict}
use sidewire.Aionetiface.{Aionetiface, Bytes}
use sidewire.Client.{Client, pipe_send, async_wrap_errors, done, cancelled, set_future}
use sidewire.Client.PacketIds.{clear_session, cancel_all}
use sidewire.Wire.Msgs.{build_disconnect}
use sidewire.Connection.{close, shut_down, await_close}
use sidewire.Brokers.Walk.{Store, client_of, set_client, contains, Clients}
use sidewire.Brokers.Tried.{has_task}
use sidewire.Router.{Router, evict_client_from_cache}
use sidewire.Router.Idle.{close_quietly, is_network, make_ready, last_active, idle_client_timeout}
use sidewire.Router.Fate.{cached, evict-cached, evict-uncached}
use sidewire.Router.Closing.{close_quietly-Fails, readied, shut}

-- A client has a dispatcher, is not closed, and was last active too long ago.
pub record IsIdle (now : ℕ) (c : Client) : Type 0 where
  pub task : has_task c.dispatcher_task ≡ true
  pub is_open : c.is_closed ≡ false
  pub late : ltb now (last_active now c.last_send c.last_connect + idle_client_timeout) ≡ false

-- pipe.close() has raised OSError or ConnectionError.
abbrev pub CloseFailed : Aionetiface → Type 0
CloseFailed lib =
    (x : Exn) × (sent : List Bytes) × (lib.pipe_close sent ≡ raised x)
    × ((x ≡ os_error) ⊎ (x ≡ connection_error))

-- A client has no dispatcher, and no pipe if its close did not fail, and may connect again as one that
-- never sent.
pub record Gone (lib : Aionetiface) (c : Client) : Type 0 where
  pub task : c.dispatcher_task ≡ none
  pub pipe : (c.pipe ≡ none) ⊎ CloseFailed lib
  pub may_connect : c.is_closed ≡ false
  pub no_send : c.last_send ≡ none

abbrev pub Waits : ℕ → ℕ → Router → Type 0
Waits i now r = (contains r.protected_clients i ≡ false) × IsIdle now (r.store.member i)

abbrev pub Left : Aionetiface → ℕ → Router → Type 0
Left lib i r = (cached i r.cache ≡ false) × Gone lib (r.store.member i)

unfoldable pub Stage : Aionetiface → ℕ → ℕ → Bool → Router → Type 0
Stage lib i now true r = Left lib i r
Stage lib i now false r = Waits i now r ⊎ Left lib i r

-- A step that returns, keeps the clients `base`, and closes client `i` if it is idle and `hit`.
pub record Visit (lib : Aionetiface) (i now : ℕ) (base : Clients) (hit : Bool) (r : Router)
    (p : Result (Unit {0}) × Router) : Type 0 where
  pub fine : p.0 ≡ ok tt
  pub same : p.1.clients ≡ base
  pub stage : (g : Bool) → Stage lib i now g r → Stage lib i now (g || hit) p.1

pub continue-Visit :
    (lib : Aionetiface) (i now : ℕ) (base : Clients) (h1 h2 : Bool) (r : Router)
    (p : Result (Unit {0}) × Router) (m : Action Router (Unit {0}))
    → Visit lib i now base h1 r p
    → ((s : Router) → s.clients ≡ base → Visit lib i now base h2 s (m s))
    → Visit lib i now base (h1 || h2) r (continue p (λ u. m))
continue-Visit lib i now base h1 h2 r (raised x, s) m v g = absurd (cc v.fine)
continue-Visit lib i now base h1 h2 r (ok u, s) m v g =
    let w = g s v.same in
    record {
      fine = w.fine;
      same = w.same;
      stage = λ b h.
          let assoc : (b || h1) || h2 ≡ b || (h1 || h2) = ground arith in
          subst (λ e. Stage lib i now e (m s).1) assoc (w.stage (b || h1) (v.stage b h));
    }

-- Another client was changed.
pub other-Stage :
    (lib : Aionetiface) (i j now : ℕ) (c : Client) (r : Router) (g : Bool)
    → i == j ≡ false
    → Stage lib i now g r
    → Stage lib i now g (record r { store = set_client j c r.store })
unfolding Stage set_client
other-Stage lib i j now c r g apart h = go g h
  where
    there : j == i ≡ false
    there = ground arith

    same : (set_client j c r.store).member i ≡ r.store.member i
    same = rw there refl

    go :
        (g : Bool)
        → Stage lib i now g r
        → Stage lib i now g (record r { store = set_client j c r.store })
    go true (un, gone) = (un, subst (Gone lib) (sym same) gone)
    go false (inl (un, idle)) = inl (un, subst (IsIdle now) (sym same) idle)
    go false (inr (un, gone)) = inr (un, subst (Gone lib) (sym same) gone)

pub evict-Stage :
    (lib : Aionetiface) (i j now : ℕ) (r : Router) (g : Bool)
    → Stage lib i now g r
    → Stage lib i now g (evict_client_from_cache j r)
unfolding Stage evict_client_from_cache
evict-Stage lib i j now r true (un, gone) = (evict-uncached i j r.cache un, gone)
evict-Stage lib i j now r false (inl (un, idle)) = inl (un, idle)
evict-Stage lib i j now r false (inr (un, gone)) = inr (evict-uncached i j r.cache un, gone)

-- What a later stage is for a client that is not met.
pub unmet :
    (lib : Aionetiface) (i now : ℕ) (g : Bool) (r : Router)
    → Stage lib i now g r
    → Stage lib i now (g || false) r
unmet lib i now true r h = h
unmet lib i now false r h = h

-- A client that is met and does not wait has been left.
pub met :
    (lib : Aionetiface) (i now : ℕ) (g : Bool) (r : Router)
    → (Waits i now r → Left lib i r)
    → Stage lib i now g r
    → Stage lib i now (g || true) r
unfolding Stage
met lib i now true r left h = h
met lib i now false r left (inl waits) = left waits
met lib i now false r left (inr h) = h

-- A client's task, its pipe, and whether it is closed.
abbrev parts : Client → Option Bool × Option Bool × Bool
parts c = (c.dispatcher_task, c.pipe, c.is_closed)

cancel_all-parts : (d : Dict Bytes ℕ) (c : Client) → parts (cancel_all d c) ≡ parts c
unfolding cancel_all set_future
cancel_all-parts [] c = refl
cancel_all-parts ((pid, i) ∷ d) c =
    let c' : Client = if done (c.futures i) then c else set_future i cancelled c in
    let step : parts c' ≡ parts c = ground arith in cancel_all-parts d c' ∙ step

clear_session-parts : (c : Client) → parts (clear_session c) ≡ parts c
unfolding clear_session
clear_session-parts c =
    cancel_all-parts c.pubacks (cancel_all c.subacks c) ∙ cancel_all-parts c.subacks c

client_of-set_client : (j : ℕ) (c : Client) (s : Store) → client_of j (set_client j c s) ≡ c
unfolding client_of set_client
client_of-set_client j c s =
    let self : j == j ≡ true = ground arith in
    let own : s.table_of j == s.table_of j ≡ true = ground arith in rw (self, own) refl

-- A client that was left is so at every stage.
pub Left-Stage :
    (lib : Aionetiface) (i now : ℕ) (g : Bool) (r : Router)
    → Left lib i r
    → Stage lib i now (g || true) r
unfolding Stage
Left-Stage lib i now true r h = h
Left-Stage lib i now false r h = h

module _ (lib : Aionetiface) (fresh : Bytes) where
  -- No cancel_task raises, and no pipe.close() raises anything but OSError and ConnectionError.
  abbrev pub Closes : Type 0
  Closes =
      ((task : Option Bool) → lib.cancel_task task ≡ ok tt)
      × ((sent : List Bytes) (x : Exn)
          → lib.pipe_close sent ≡ raised x
          → (x ≡ os_error) ⊎ (x ≡ connection_error))

  pub close_quietly-fine : Closes → (c : Client) → (close_quietly lib fresh c).0 ≡ ok tt
  close_quietly-fine (cancels, closes) c = elim (close_quietly-Fails lib fresh c) [
    | inl fine ↦ fine
    | inr (x, e, no_os, no_conn, inl (task, k)) ↦ absurd (cc (k, cancels task))
    | inr (x, e, no_os, no_conn, inr (sent, k)) ↦ elim (closes sent x k) [
      | inl os ↦ absurd (no_os os)
      | inr conn ↦ absurd (no_conn conn)
    ]
  ]

  close_quietly-parts :
      Closes
      → (c : Client) → c.is_closed ≡ false
      → ((close_quietly lib fresh c).1.dispatcher_task ≡ none)
        × (((close_quietly lib fresh c).1.pipe ≡ none) ⊎ CloseFailed lib)
  unfolding close_quietly close shut_down await_close pipe_send async_wrap_errors ◌>>=◌ is_network
  close_quietly-parts (cancels, closes) c h = elim (Option-cases c.pipe) [
    | inl p ↦ rw h (rw (cancels c.dispatcher_task) (rw p (refl, inl refl)))
    | inr (b, p) ↦ elim (Result-cases (lib.pipe_close (c.sent ++ (build_disconnect ∷ [])))) [
      | inr (u, k) ↦ rw h (rw (cancels c.dispatcher_task) (rw p (rw k (refl, inl refl))))
      | inl (x, k) ↦ elim (closes _ x k) [
        | inl os ↦
            let k' = k ∙ ap (λ (y : Exn). raised y) os in
            rw h (rw (cancels c.dispatcher_task) (rw p (rw k' (refl, inr (x, _, k, inl os)))))
        | inr conn ↦
            let k' = k ∙ ap (λ (y : Exn). raised y) conn in
            rw h (rw (cancels c.dispatcher_task) (rw p (rw k' (refl, inr (x, _, k, inr conn)))))
      ]
    ]
  ]

  -- An idle client that is closed and made ready.
  closed-Gone :
      Closes
      → (c : Client) → c.is_closed ≡ false
      → Gone lib (make_ready lib fresh (close_quietly lib fresh c).1)
  unfolding make_ready
  closed-Gone closes c h =
      let c1 : Client = record ((close_quietly lib fresh c).1) { is_closed = false } in
      let (no_task, no_pipe) = close_quietly-parts closes c h in
      let same = clear_session-parts c1 in
      record {
        task = ap (λ (x : Option Bool × Option Bool × Bool). x.0) same ∙ no_task;
        pipe = elim no_pipe [
          | inl gone ↦ inl (ap (λ (x : Option Bool × Option Bool × Bool). x.1) same ∙ gone)
          | inr failed ↦ inr failed
        ];
        may_connect = ap (λ (x : Option Bool × Option Bool × Bool). x.2) same;
        no_send = refl;
      }

  -- The close of client `j`, with nothing else meanwhile: another client stays, and it has gone.
  pub closing-other :
      (i j now : ℕ) (r : Router) (g : Bool)
      → i == j ≡ false
      → Stage lib i now g r
      → Stage lib i now g (readied lib fresh j (shut lib fresh j r))
  unfolding shut readied
  closing-other i j now r g apart h =
      let s1 : Router = shut lib fresh j r in
      let s2 : Router = record s1 {
        store = set_client j (make_ready lib fresh (client_of j s1.store)) s1.store;
      } in
      evict-Stage lib i j now s2 g (
        other-Stage lib i j now (make_ready lib fresh (client_of j s1.store)) s1 g apart
          (other-Stage lib i j now (close_quietly lib fresh (client_of j r.store)).1 r g apart h))

  pub closing-own :
      Closes
      → (j : ℕ) (r : Router) → (r.store.member j).is_closed ≡ false
      → Left lib j (readied lib fresh j (shut lib fresh j r))
  unfolding shut readied set_client evict_client_from_cache
  closing-own closes j r is_open =
      let self : j == j ≡ true = ground arith in
      let gone = closed-Gone closes (client_of j r.store) (unfold client_of in is_open) in
      let same = client_of-set_client j (close_quietly lib fresh (client_of j r.store)).1 r.store in
      (
        evict-cached j r.cache,
        rw self (subst (λ (c : Client). Gone lib (make_ready lib fresh c)) (sym same) gone),
      )
