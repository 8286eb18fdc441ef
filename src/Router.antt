-- ===== src/Router.antt =====
-- The router's clients, its cache of discovered clients, and the idle closer: src/sidewire/router.py.
pub mod Idle
pub mod Closed
pub mod Fate
pub mod Closing
pub mod Looping
pub mod Stage
pub mod Idled
pub mod Building
pub mod Shared
pub mod Handlers
pub mod Known
pub mod Once
pub mod Start
use sidewire.Prelude.{
  ◌==◌, ℕ, zero, suc, ◌+◌, ◌*◌, Bool, true, false, Option, none, some, List, [], ◌∷◌, ◌++◌, map,
  if◌then◌else◌, ltb, nat_eq, text_eq,
}
use sidewire.Prelude.Results.{
  Exn, key_error, os_error, connection_error, timeout_error, Result, ok, raised,
}
use sidewire.Prelude.Action.{Action, pure, throw, lift, gets, modify, try_except, ◌>>=◌, ◌>>◌}
use sidewire.Prelude.Dict.{Dict, get, put}
use sidewire.Aionetiface.{Aionetiface, Bytes, Str}
use sidewire.AppPacket.{KeyPair}
use sidewire.Client.{Client, second}
use sidewire.Client.PacketIds.{clear_session}
use sidewire.Connection.{Attempt, init, close}
use sidewire.Brokers.{Server, Servers, Families, iana_to_af}
use sidewire.Brokers.Walk.{refer, Store, set_client, client_of, on_client, Clients, Hints, contains}
use sidewire.HintCache.{ℤ, Hint, Json, Members, load_all, load_for, store_for, client_to_hint}

-- An entry of the discovery cache.
pub record Discovered : Type 0 where
  pub updated : ℕ
  pub clients : List ℕ

pub record Router : Type 0 where
  pub kp : KeyPair
  pub servers : Servers
  pub clients : Clients
  -- the client objects, and the next unused identity
  pub store : Store
  -- the identity of the table self.recv_msg_ids
  pub recv_msg_ids : ℕ
  pub next_client : ℕ
  pub msg_handlers : List ℕ
  pub cache : Dict Str Discovered
  pub protected_clients : List ℕ
  -- None, or a task and whether it is done
  pub idle_closer_task : Option Bool
  -- how often get_time was called
  pub ticks : ℕ

-- self.msg_handlers.add(msg_handler) of a client: a set.
unfoldable pub add_handler : ℕ → Client → Client
unfolding contains
add_handler h c =
    if contains c.msg_handlers h then c else record c { msg_handlers = c.msg_handlers ++ (h ∷ []) }

unfoldable pub add_handlers : List ℕ → Client → Client
unfolding add_handler
add_handlers [] c = c
add_handlers (h ∷ hs) c = add_handlers hs (add_handler h c)

-- An action on the clients of the router.
unfoldable pub on_store : {A : Type 0} → Action Store A → Action Router A
on_store m r = let p = m r.store in (p.0, record r { store = p.1 })

-- The clients in the order of the two nested loops over self.clients.
unfoldable pub of_hosts : Dict Str ℕ → List ℕ
of_hosts [] = []
of_hosts ((host, i) ∷ hosts) = i ∷ of_hosts hosts

unfoldable pub all_clients : Clients → List ℕ
unfolding of_hosts
all_clients [] = []
all_clients ((af, hosts) ∷ clients) = of_hosts hosts ++ all_clients clients

-- A new client with the handlers of the router. Its table of received messages is still its own.
unfoldable pub new_client : ℕ → Str → ℕ → Router → Client
unfolding init add_handlers
new_client af host port r =
    let c : Client = add_handlers r.msg_handlers (init af host port r.kp) in
    record c { last_connect = none }

-- What ensure_client does with self.clients[af], and with self.clients[af].get(host).
abbrev pub build_client : ℕ → Str → ℕ → Dict Str ℕ → Router → Router
build_client af host port hosts r = record r {
  clients = put af (put host r.next_client hosts) r.clients;
  store = refer r.next_client r.recv_msg_ids (
      set_client r.next_client (new_client af host port r)
        (refer r.next_client (r.next_client + 1) r.store));
  next_client = r.next_client + 1;
}

abbrev pub ensure_at : ℕ → Str → ℕ → Dict Str ℕ → Option ℕ → Action Router (Option ℕ)
ensure_at af host port hosts (some i) r = (ok (some i), r)
ensure_at af host port hosts none r = (ok (some r.next_client), build_client af host port hosts r)

abbrev pub ensure_in : ℕ → Str → ℕ → Option (Dict Str ℕ) → Action Router (Option ℕ)
ensure_in af host port none r = (raised key_error, r)
ensure_in af host port (some hosts) r = ensure_at af host port hosts (get host hosts) r

-- `supports` is self.af_group.supports.
unfoldable pub ensure_client : (ℕ → Bool) → ℕ → Str → ℕ → Action Router (Option ℕ)
unfolding new_client set_client refer
ensure_client supports af host port r =
    if supports af then ensure_in af host port (get af r.clients) r else (ok none, r)

-- for host in self.servers[af]: self.ensure_client(af, host, self.servers[af][host]["port"])
unfoldable pub ensure_servers : (ℕ → Bool) → ℕ → Dict Str Server → Action Router (Unit {0})
unfolding ensure_client
ensure_servers supports af [] = pure tt
ensure_servers supports af ((host, s) ∷ table) = do
  ensure_client supports af host s.port
  ensure_servers supports af table

abbrev pub ensure_family : (ℕ → Bool) → ℕ → Option (Dict Str Server) → Action Router (Unit {0})
ensure_family supports af none = throw key_error
ensure_family supports af (some table) = ensure_servers supports af table

unfoldable pub ensure_families : (ℕ → Bool) → List ℕ → Action Router (Unit {0})
unfolding ensure_servers
ensure_families supports [] = pure tt
ensure_families supports (af ∷ afs) = do
  servers ← gets (λ (r : Router). r.servers)
  if supports af then ensure_family supports af (get af servers) else pure tt
  ensure_families supports afs

-- Router.__init__, with the names of the key pair as they are after it.
unfoldable pub start_router :
    (ℕ → Bool) → Families → KeyPair → List ℕ → Servers → Store → Result (Unit {0}) × Router
unfolding ensure_families
start_router supports f kp msg_handlers servers store =
    ensure_families supports (f.ip4 ∷ f.ip6 ∷ []) (record {
      kp = kp;
      servers = servers;
      clients = (f.ip4, []) ∷ (f.ip6, []) ∷ [];
      store = record store { tables = λ t. if t == 0 then [] else store.tables t };
      recv_msg_ids = 0;
      next_client = 0;
      msg_handlers = msg_handlers;
      cache = [];
      protected_clients = [];
      idle_closer_task = none;
      ticks = 0;
    })

unfoldable pub add_to_all : ℕ → List ℕ → Store → Store
unfolding add_handler set_client client_of
add_to_all h [] s = s
add_to_all h (i ∷ is) s = add_to_all h is (set_client i (add_handler h (client_of i s)) s)

unfoldable pub add_msg_handler : ℕ → Router → Router
unfolding add_to_all all_clients
add_msg_handler h r = record r {
  msg_handlers = r.msg_handlers ++ (h ∷ []);
  store = add_to_all h (all_clients r.clients) r.store;
}

-- evict_client_from_cache
unfoldable pub evict : ℕ → Dict Str Discovered → Dict Str Discovered
unfolding contains
evict i [] = []
evict i ((k, e) ∷ cache) =
    let rest = evict i cache in if contains e.clients i then rest else (k, e) ∷ rest

unfoldable pub evict_client_from_cache : ℕ → Router → Router
unfolding evict
evict_client_from_cache i r = record r { cache = evict i r.cache }

module _ (lib : Aionetiface) (fresh : Bytes) where
  -- self.get_time()
  unfoldable pub get_time : Action Router ℕ
  get_time r = (ok (lib.clock r.ticks), record r { ticks = r.ticks + 1 })

  unfoldable pub cache_clients : Str → List ℕ → Action Router (Unit {0})
  unfolding get_time
  cache_clients pub_key_hex clients = do
    now ← get_time
    modify (λ r. record r {
      cache = put pub_key_hex (record { updated = now; clients = clients }) r.cache;
    })

  unfoldable pub close_all : List ℕ → Action Store (Unit {0})
  unfolding on_client close
  close_all [] = pure tt
  close_all (i ∷ is) = do
    on_client i (modify (λ c. record c { is_closed = false }) >> close lib fresh)
    close_all is

  -- Router.close: the closer's task is cancelled and waited for.
  unfoldable pub close_router : Action Router (Unit {0})
  unfolding on_store close_all all_clients
  close_router = do
    modify (λ (r : Router). record r { idle_closer_task = none })
    clients ← gets (λ (r : Router). r.clients)
    on_store (close_all (all_clients clients))

  -- `use_cache and dest_pub_hex in self.cache`, and its age is below `expiry` seconds.
  unfoldable pub cached_clients : Bool → Str → ℕ → ℕ → Router → Option (List ℕ)
  cached_clients false dest_pub_hex expiry now r = none
  cached_clients true dest_pub_hex expiry now r = elim (get dest_pub_hex r.cache) [
    | none ↦ none
    | some e ↦ if ltb now (e.updated + expiry * second) then some e.clients else none
  ]
