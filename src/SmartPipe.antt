-- ===== src/SmartPipe.antt =====
-- Sending to a peer over the brokers that it can be reached at: src/sidewire/smart_pipe.py, and pipe
-- of src/sidewire/router.py.
pub mod Race
pub mod Reached
use sidewire.Prelude.{
  ℕ, zero, suc, Bool, true, false, Option, none, some, List, [], ◌∷◌, ◌++◌, if◌then◌else◌, length,
  text_eq,
}
use sidewire.Prelude.Results.{Exn, key_error, Result, ok, raised}
use sidewire.Prelude.Action.{Action, pure, throw, lift, gets, modify, ◌>>=◌, ◌>>◌}
use sidewire.Aionetiface.{Aionetiface, Bytes, Str, Text, str, bytes}
use sidewire.AppPacket.{MsgEnum}
use sidewire.Client.Sending.{queue_msg, dequeue_msg}
use sidewire.Connection.{Attempt}
use sidewire.Brokers.{Families}
use sidewire.Brokers.Gather.{Event, get_dest_clients}
use sidewire.Brokers.Walk.{
  Store, set_client, client_of, on_client, drop_task, is_unreachable, try_client,
}
use sidewire.Router.{
  Router, on_store, ensure_client, add_to_all, evict_client_from_cache, get_time, cache_clients,
  cached_clients,
}

-- A hint of the peer: the keys of a dict, which may be missing.
pub record PeerHint : Type 0 where
  pub af : Option ℕ
  pub host : Option Str
  pub port : Option ℕ

pub record SmartPipe : Type 0 where
  pub dest_pub_hex : Str
  pub clients : List ℕ
  pub hint_brokers : List PeerHint

-- `af is None or not host or not port`: then the hint is skipped.
abbrev pub hint_client : (ℕ → Bool) → Option ℕ → Option Str → Option ℕ → Action Router (Option ℕ)
hint_client supports (some af) (some (x ∷ host)) (some (suc port)) =
    ensure_client supports af (x ∷ host) (suc port)
hint_client supports _ _ _ = pure none

abbrev pub also : Option ℕ → List ℕ → List ℕ
also none is = is
also (some i) is = i ∷ is

-- The loop of resolve_hint_clients that fills to_try.
unfoldable pub clients_to_try : (ℕ → Bool) → List PeerHint → Action Router (List ℕ)
unfolding ensure_client
clients_to_try supports [] = pure []
clients_to_try supports (h ∷ hs) = do
  client ← hint_client supports h.af h.host h.port
  rest ← clients_to_try supports hs
  pure (also client rest)

-- len(msg)
unfoldable pub len : Text → ℕ
len (str s) = length s
len (bytes b) = length b

-- How send ends: it returns or raises, or still waits.
pub data Sending : Type 0 where
  finished : Result ℕ → Sending
  waiting : Sending

-- The results of the tasks that are done in one turn of the loop: the first that is not a failure of
-- the network ends it.
unfoldable pub heard : List (ℕ × Result (Unit {0})) → Option (Result (Unit {0}))
unfolding is_unreachable
heard [] = none
heard ((task, ok u) ∷ done) = some (ok tt)
heard ((task, raised x) ∷ done) =
    let rest = heard done in if is_unreachable x then rest else some (raised x)

unfoldable pub drop_tasks : List (ℕ × Result (Unit {0})) → List ℕ → List ℕ
unfolding drop_task
drop_tasks [] tasks = tasks
drop_tasks ((task, r) ∷ done) tasks = drop_tasks done (drop_task task tasks)

-- The loop of send over its tasks. Each turn has the tasks that are done in it, in the order in which
-- they are looked at, with what awaiting them gives.
unfoldable pub race : ℕ → List ℕ → List (List (ℕ × Result (Unit {0}))) → Sending
unfolding heard drop_tasks
race n [] turns = finished (ok 0)
race n (t ∷ tasks) [] = waiting
race n (t ∷ tasks) (done ∷ turns) = elim (heard done) [
  | none ↦ race n (drop_tasks done (t ∷ tasks)) turns
  | some (ok u) ↦ finished (ok n)
  | some (raised x) ↦ finished (raised x)
]

-- client.dequeue_msg(msg_id_hex) at each client
unfoldable pub dequeue_all : Str → List ℕ → Store → Store
unfolding set_client client_of dequeue_msg
dequeue_all msg_id_hex [] s = s
dequeue_all msg_id_hex (i ∷ is) s =
    dequeue_all msg_id_hex is
      (set_client i (dequeue_msg msg_id_hex none MsgEnum.msg (client_of i s)) s)

module _ (lib : Aionetiface) (fresh : Bytes) where
  -- The first loop of send: a task for each client that takes the message; any exception skips it.
  -- A task is known by its place.
  abbrev pub task_of : ℕ → List ℕ → Result ((Str × ℕ) × ℕ) → List ℕ
  task_of k rest (ok ack) = k ∷ rest
  task_of k rest (raised x) = rest

  unfoldable pub queue_all : Text → Str → Str → ℕ → List ℕ → Store → List ℕ × Store
  unfolding on_client queue_msg
  queue_all msg dest_pub_hex msg_id_hex k [] s = ([], s)
  queue_all msg dest_pub_hex msg_id_hex k (i ∷ is) s =
      let p =
        on_client i (queue_msg lib fresh msg dest_pub_hex (some msg_id_hex) MsgEnum.msg none) s in
      let q = queue_all msg dest_pub_hex msg_id_hex (suc k) is p.1 in (task_of k q.0 p.0, q.1)

  -- SmartPipe.send. `meanwhile` is what other tasks do to the clients while it waits; the message id
  -- is the hex of 32 random bytes. What the clients wait for is dropped when it ends, not before.
  unfoldable pub send :
      Text
      → List (List (ℕ × Result (Unit {0})))
      → (Store → Store)
      → SmartPipe
      → Store
      → Sending × Store
  unfolding queue_all race dequeue_all len
  send msg turns meanwhile pipe s =
      let msg_id_hex = lib.to_h fresh in
      let q = queue_all msg pipe.dest_pub_hex msg_id_hex 0 pipe.clients s in
      let s' = meanwhile q.1 in
      elim (race (len msg) q.0 turns) [
        | finished r ↦ (finished r, dequeue_all msg_id_hex pipe.clients s')
        | waiting ↦ (waiting, s')
      ]

  -- SmartPipe.close, on the router
  unfoldable pub close_pipe : List ℕ → Router → Router
  unfolding evict_client_from_cache
  close_pipe [] r = r
  close_pipe (i ∷ is) r = close_pipe is (evict_client_from_cache i r)

  -- The clients of to_try that answer. They are tried at once, here one after the other; an exception of
  -- one is a result like another.
  abbrev pub reached : ℕ → Result Bool → List ℕ → List ℕ
  reached i (ok true) out = i ∷ out
  reached i (ok false) out = out
  reached i (raised x) out = out

  unfoldable pub try_all : List (ℕ × Attempt) → Store → List ℕ × Store
  unfolding on_client try_client
  try_all [] s = ([], s)
  try_all ((i, w) ∷ to_try) s =
      let p = on_client i (try_client lib fresh 1200 w) s in
      let q = try_all to_try p.1 in (reached i p.0 q.0, q.1)

  -- `world` is what the connection of each client meets.
  abbrev pub with_world : (ℕ → Attempt) → List ℕ → List (ℕ × Attempt)
  with_world world [] = []
  with_world world (i ∷ is) = (i, world i) ∷ with_world world is

  unfoldable pub resolve_hint_clients :
      (ℕ → Bool) → (ℕ → Attempt) → List PeerHint → Action Router (List ℕ)
  unfolding clients_to_try try_all on_store
  resolve_hint_clients supports world hints = do
    to_try ← clients_to_try supports hints
    on_store (λ s. let q = try_all (with_world world to_try) s in (ok q.0, q.1))

module _ (lib : Aionetiface) (fresh : Bytes) {Score : Type 0} (not_above : Score → Score → Bool)
    (score : Bytes → Bytes → Bytes → Score) where
  -- What happens during the walks over the brokers, at first and in the second ones, and whether there
  -- are second ones.
  pub record Walks : Type 0 where
    pub first : List Event
    pub second_try : List Event
    pub retry_enabled : Bool
    pub hinted : ℕ → Attempt

  -- Each step of SmartPipe.connect leaves a client list that is not empty as it is.
  unfoldable pub by_hints : (ℕ → Bool) → Walks → List PeerHint → List ℕ → Action Router (List ℕ)
  unfolding resolve_hint_clients
  by_hints supports w hints (i ∷ is) = pure (i ∷ is)
  by_hints supports w hints [] = resolve_hint_clients lib fresh supports w.hinted hints

  unfoldable pub by_rendezvous : Families → List ℕ → Walks → Str → List ℕ → Action Router (List ℕ)
  unfolding get_dest_clients on_store
  by_rendezvous f supported w dest_pub_hex (i ∷ is) = pure (i ∷ is)
  by_rendezvous f supported w dest_pub_hex [] = do
    servers ← gets (λ (r : Router). r.servers)
    known ← gets (λ (r : Router). r.clients)
    on_store (
        get_dest_clients lib fresh not_above score f supported dest_pub_hex servers known [] w.first
          w.second_try w.retry_enabled)

  abbrev pub attach : Option ℕ → List ℕ → Action Router (Unit {0})
  attach none is = pure tt
  attach (some h) is = modify (λ r. record r { store = add_to_all h is r.store })

  -- SmartPipe.connect, with the pipe's clients as the result
  unfoldable pub connect :
      (ℕ → Bool) → Families → List ℕ → Walks → Option ℕ → SmartPipe → Action Router SmartPipe
  unfolding by_hints by_rendezvous add_to_all
  connect supports f supported w msg_cb p = do
    hinted ← by_hints supports w p.hint_brokers p.clients
    clients ← by_rendezvous f supported w p.dest_pub_hex hinted
    attach msg_cb clients
    pure (record p { clients = clients })

  abbrev pub clients_or_none : Option (List ℕ) → List ℕ
  clients_or_none none = []
  clients_or_none (some is) = is

  abbrev pub cache_if : Bool → Option (List ℕ) → Str → List ℕ → Action Router (Unit {0})
  cache_if true none dest_pub_hex is = cache_clients lib fresh dest_pub_hex is
  cache_if _ _ dest_pub_hex is = pure tt

  -- Router.pipe
  unfoldable pub pipe :
      (ℕ → Bool)
      → Families
      → List ℕ
      → Walks
      → Str
      → Bool
      → ℕ
      → List PeerHint
      → Action Router SmartPipe
  unfolding connect cached_clients get_time cache_clients
  pipe supports f supported w dest_pub_hex use_cache expiry hints = do
    now ← get_time lib fresh
    cached ← gets (cached_clients lib fresh use_cache dest_pub_hex expiry now)
    p ← connect supports f supported w none (record {
      dest_pub_hex = dest_pub_hex;
      clients = clients_or_none cached;
      hint_brokers = hints;
    })
    cache_if use_cache cached dest_pub_hex p.clients
    pure p
