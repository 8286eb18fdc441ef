-- ===== src/Router/Idle.antt =====
-- The idle closer: close_idle_clients and idle_closer_loop of src/sidewire/router.py.
use sidewire.Prelude.{
  ℕ, zero, suc, ◌+◌, ◌*◌, Bool, true, false, Option, none, some, List, [], ◌∷◌, if◌then◌else◌, ltb,
  ◌==◌, length, nat_eq,
}
use sidewire.Prelude.Results.{
  Exn, os_error, connection_error, cancelled_error, runtime_error, Result, ok, raised,
}
use sidewire.Prelude.Action.{Action, pure, throw, gets, modify, try_except, ◌>>=◌, ◌>>◌}
use sidewire.Prelude.Dict.{Dict, get}
use sidewire.Aionetiface.{Aionetiface, Bytes, Str}
use sidewire.Client.{Client, second}
use sidewire.Client.PacketIds.{clear_session}
use sidewire.Connection.{close}
use sidewire.Dispatch.{keys}
use sidewire.Brokers.Walk.{set_client, client_of, on_client, Clients, contains}
use sidewire.Router.{Router, on_store, of_hosts, get_time, evict_client_from_cache}

-- IDLE_CLIENT_TIMEOUT, in microseconds
abbrev pub idle_client_timeout : ℕ
idle_client_timeout = 600 * second

-- `getattr(client, "last_connect", None) or now`
unfoldable pub or_now : ℕ → Option ℕ → ℕ
or_now now none = now
or_now now (some zero) = now
or_now now (some (suc t)) = suc t

-- The last activity, of last_send and last_connect.
unfoldable pub last_active : ℕ → Option ℕ → Option ℕ → ℕ
unfolding or_now
last_active now none last_connect = or_now now last_connect
last_active now (some t) last_connect = t

-- except (OSError, ConnectionError)
unfoldable pub is_network : Exn → Bool
is_network os_error = true
is_network connection_error = true
is_network _ = false

-- What other tasks do to the router while a close of the pass waits, and whether the pass is cancelled
-- there. This comes after the steps of the close itself.
pub record Wait : Type 0 where
  pub others : Router → Router
  pub cut : Bool

-- self.clients[af]
abbrev pub or_empty : Option (Dict Str ℕ) → Dict Str ℕ
or_empty none = []
or_empty (some hosts) = hosts

unfoldable pub hosts_of : ℕ → Clients → Dict Str ℕ
hosts_of af clients = or_empty (get af clients)

-- An iteration over self.clients[af] that began with `size` hosts raises RuntimeError when it goes on
-- with another number of them. Hosts are never taken away.
unfoldable pub check_size : ℕ → ℕ → Action Router (Unit {0})
unfolding hosts_of
check_size af size r =
    if length (hosts_of af r.clients) == size then (ok tt, r) else (raised runtime_error, r)

-- A waking of the loop: whether the sleep is cancelled, what other tasks did to the router meanwhile,
-- and what they do during the pass.
pub record Waking : Type 0 where
  pub cancelled : Bool
  pub meanwhile : Router → Router
  pub world : ℕ → Wait

-- How the loop stands when the turns that are looked at are over.
pub data Closer : Type 0 where
  returned running : Closer
  escaped : Exn → Closer

abbrev pub after_pass : (Router → Closer × Router) → Result (Unit {0}) × Router → Closer × Router
after_pass rest (ok u, r) = rest r
after_pass rest (raised cancelled_error, r) = (returned, r)
after_pass rest (raised os_error, r) = rest r
after_pass rest (raised connection_error, r) = rest r
after_pass rest (raised x, r) = (escaped x, r)

module _ (lib : Aionetiface) (fresh : Bytes) where
  -- try: await client.close()  except (OSError, ConnectionError): log_exception()
  unfoldable pub close_quietly : Action Client (Unit {0})
  unfolding close is_network
  close_quietly = try_except is_network (close lib fresh) (pure tt)

  -- What makes a closed client ready for reuse.
  unfoldable pub make_ready : Client → Client
  unfolding clear_session
  make_ready c = record (clear_session (record c { is_closed = false })) { last_send = none }

  -- The close of an idle client. One that is cut off has set is_closed.
  unfoldable pub close_idle : Wait → ℕ → Action Router (Unit {0})
  unfolding close_quietly make_ready on_store on_client evict_client_from_cache
  close_idle w i =
      if w.cut
      then (do
        on_store (on_client i (modify (λ (c : Client). record c { is_closed = true })))
        modify w.others
        throw cancelled_error)
      else (do
        on_store (on_client i close_quietly)
        modify w.others
        on_store (on_client i (modify make_ready))
        modify (evict_client_from_cache i))

  module _ (world : ℕ → Wait) where
    -- One client of the pass.
    abbrev pub close_if_idle : ℕ → ℕ → Option Bool → Action Router (Unit {0})
    close_if_idle now i none r = (ok tt, r)
    close_if_idle now i (some task_done) r =
        let c : Client = client_of i r.store in
        let t = last_active now c.last_send c.last_connect in
        let r' : Router = record r {
          store = set_client i (record c { last_send = some t }) r.store;
        } in
        if ltb now (t + idle_client_timeout) then (ok tt, r') else close_idle (world i) i r'

    unfoldable pub visit_client : ℕ → ℕ → Action Router (Unit {0})
    unfolding contains client_of set_client last_active close_idle
    visit_client now i r =
        if contains r.protected_clients i
        then (ok tt, r)
        else close_if_idle now i (client_of i r.store).dispatcher_task r

    -- The hosts of one family.
    unfoldable pub visit_hosts : ℕ → ℕ → ℕ → List ℕ → Action Router (Unit {0})
    unfolding visit_client check_size
    visit_hosts now af size [] = check_size af size
    visit_hosts now af size (i ∷ is) = do
      check_size af size
      visit_client now i
      visit_hosts now af size is

    unfoldable pub visit_families : ℕ → List ℕ → Action Router (Unit {0})
    unfolding visit_hosts hosts_of of_hosts
    visit_families now [] = pure tt
    visit_families now (af ∷ afs) = do
      hosts ← gets (λ (r : Router). hosts_of af r.clients)
      visit_hosts now af (length hosts) (of_hosts hosts)
      visit_families now afs

    -- One pass of the idle closer. The families are two, and stay.
    unfoldable pub close_idle_clients : Action Router (Unit {0})
    unfolding get_time visit_families keys
    close_idle_clients = do
      now ← get_time lib fresh
      afs ← gets (λ (r : Router). keys r.clients)
      visit_families now afs

  unfoldable pub idle_closer_loop : List Waking → Router → Closer × Router
  unfolding close_idle_clients
  idle_closer_loop [] r = (running, r)
  idle_closer_loop (t ∷ ts) r =
      if t.cancelled
      then (returned, t.meanwhile r)
      else after_pass (idle_closer_loop ts) (close_idle_clients t.world (t.meanwhile r))
