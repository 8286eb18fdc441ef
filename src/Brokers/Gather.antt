-- ===== src/Brokers/Gather.antt =====
-- Connecting to the brokers of a key: get_dest_clients of src/sidewire/utils.py.
--
-- The walks of the families run at once, each with up to ten tasks. What happens is a list of events:
-- a task of a walk ends, or the cap of a walk is hit. A task that was cancelled ends, too, in some later
-- event, and what it met ends in CancelledError; its result is dropped.
use sidewire.Prelude.{
  ℕ, zero, suc, Bool, true, false, not, ◌&&◌, Option, none, some, List, [], ◌∷◌, ◌++◌, map,
  if◌then◌else◌, leb, ◌==◌, length, take, get_elem?, nat_eq, text_eq,
}
use sidewire.Prelude.Results.{Exn, Result, ok, raised}
use sidewire.Prelude.Action.{Action, pure, lift, ◌>>=◌}
use sidewire.Prelude.Dict.{Dict}
use sidewire.Aionetiface.{Aionetiface, Bytes, Str}
use sidewire.Connection.{Attempt}
use sidewire.Brokers.{Server, Servers, Families, rendezvous_hash}
use sidewire.Brokers.Walk.{
  Store, Clients, Hints, on_client, contains, drop_task, needed_of, candidates_of, try_client,
}

-- A call of walk_af at its wait for collect(): the tasks that are not done, what is found, and whether
-- collect() still runs.
pub record Walk : Type 0 where
  pub needed : ℕ
  pub tasks : List ℕ
  pub af_found : List ℕ
  pub is_open : Bool

-- walk_af up to that wait. With `needed == 0` it returns an empty list and has no tasks.
unfoldable pub begin_walk : List ℕ → Walk
unfolding needed_of
begin_walk candidates =
    let needed = needed_of (length candidates) in
    if needed == 0
    then record { needed = 0; tasks = []; af_found = []; is_open = false }
    else record { needed = needed; tasks = take 10 candidates; af_found = []; is_open = true }

-- collect() goes on with the result of the task of client `i`.
unfoldable pub consume : Result Bool → ℕ → Walk → Walk
consume (raised x) i w = record w { is_open = false }
consume (ok false) i w = w
consume (ok true) i w =
    let found = w.af_found ++ (i ∷ []) in
    record w { af_found = found; is_open = not (leb w.needed (length found)) }

-- The task of client `i` is done.
unfoldable pub settle : ℕ → Result Bool → Walk → Walk
unfolding consume drop_task contains
settle i r w =
    let dropped : Walk = record w { tasks = drop_task i w.tasks } in
    if contains w.tasks i then (if w.is_open then consume r i dropped else dropped) else w

-- except asyncio.TimeoutError: what is found by then is taken.
unfoldable pub stop : Walk → Walk
stop w = record w { is_open = false }

unfoldable pub update : ℕ → (Walk → Walk) → List Walk → List Walk
update k f [] = []
update zero f (w ∷ ws) = f w ∷ ws
update (suc k) f (w ∷ ws) = w ∷ update k f ws

pub data Event : Type 0 where
  -- the task of client `i` in the walk `k` is done, with what its connection met
  task_done : ℕ → ℕ → Attempt → Event
  -- the cap of the walk `k` is hit
  cap_hit : ℕ → Event

-- asyncio.gather of the walks: it raises what the first of them raises.
pub record Gathering : Type 0 where
  pub walks : List Walk
  pub failed : Option Exn

abbrev of_walk : {A : Type 0} → (Walk → A) → A → Option Walk → A
of_walk f missing none = missing
of_walk f missing (some w) = f w

unfoldable pub pending : ℕ → ℕ → List Walk → Bool
unfolding contains
pending k i ws = of_walk (λ w. contains w.tasks i) false (get_elem? ws k)

unfoldable pub collecting : ℕ → List Walk → Bool
collecting k ws = of_walk (λ w. w.is_open) false (get_elem? ws k)

-- The exception of a task reaches collect(), if it runs, and then gather, if it is the first.
unfoldable pub first_failure : Bool → Result Bool → Option Exn → Option Exn
first_failure true (raised x) none = some x
first_failure _ _ failed = failed

-- found_clients.extend(af_found), in the order of the families
unfoldable pub join_found : List Walk → List ℕ
join_found [] = []
join_found (w ∷ ws) = w.af_found ++ join_found ws

unfoldable pub conclude : Option Exn → List Walk → Result (List ℕ)
unfolding join_found
conclude (some x) ws = raised x
conclude none ws = ok (join_found ws)

abbrev pub with_walks : List Walk → Result (List ℕ) → Result (List ℕ × List Walk)
with_walks ws (raised x) = raised x
with_walks ws (ok found) = ok (found, ws)

module _ (lib : Aionetiface) (fresh : Bytes) where
  abbrev pub task_ended : ℕ → ℕ → Gathering → Result Bool × Store → Gathering × Store
  task_ended k i g (r, s) = (
    record {
      walks = update k (settle i r) g.walks;
      failed = first_failure (collecting k g.walks) r g.failed;
    },
    s,
  )

  unfoldable pub on_event : Event → Gathering → Store → Gathering × Store
  unfolding try_client on_client pending collecting first_failure update settle stop
  on_event (cap_hit k) g s = (record g { walks = update k stop g.walks }, s)
  on_event (task_done k i w) g s =
      if pending k i g.walks
      then task_ended k i g (on_client i (try_client lib fresh 1200 w) s)
      else (g, s)

  unfoldable pub on_events : List Event → Gathering → Store → Gathering × Store
  unfolding on_event
  on_events [] g s = (g, s)
  on_events (e ∷ es) g s = let (g', s') = on_event e g s in on_events es g' s'

  -- All walks at once, one for each list of candidates. `old` are the walks before, whose tasks may
  -- still end. The cap is hit in every walk that has not ended with the last event.
  unfoldable pub gather : List Walk → List (List ℕ) → List Event → Action Store (List ℕ × List Walk)
  unfolding on_events begin_walk conclude stop
  gather old candidates events s =
      let (g, s') =
        on_events events (record { walks = map begin_walk candidates ++ old; failed = none }) s in
      (with_walks (map stop g.walks) (conclude g.failed (take (length candidates) g.walks)), s')

  abbrev pub is_empty : List ℕ → Bool
  is_empty [] = true
  is_empty (x ∷ xs) = false

  -- The walks, and second ones under the longer cap if they found nothing. `first` and `second_try` are
  -- what happens in each; `retry_enabled` says that the system's cap is below four seconds.
  unfoldable pub find_clients :
      List (List ℕ) → List Event → List Event → Bool → Action Store (List ℕ)
  unfolding gather
  find_clients candidates first second_try retry_enabled = do
    (found_clients, walks) ← gather [] candidates first
    if is_empty found_clients && retry_enabled
        then (do (found, walks') ← gather walks candidates second_try; pure found)
        else pure found_clients

  -- The candidates of each family's walk, in the order of the buckets.
  unfoldable pub candidates_by : Families → Hints → Clients → Dict ℕ (List Server) → List (List ℕ)
  unfolding candidates_of
  candidates_by f hints clients_map [] = []
  candidates_by f hints clients_map ((af, ranked) ∷ buckets) =
      candidates_of f af hints ranked clients_map ∷ candidates_by f hints clients_map buckets

  -- The buckets without their scores.
  unfoldable pub ranked_servers :
      {Score : Type 0} → Dict ℕ (List (Score × Server)) → Dict ℕ (List Server)
  ranked_servers [] = []
  ranked_servers ((af, bucket) ∷ buckets) = (af, map (λ b. b.1) bucket) ∷ ranked_servers buckets

  unfoldable pub get_dest_clients :
      {Score : Type 0}
      → (Score → Score → Bool)
      → (Bytes → Bytes → Bytes → Score)
      → Families
      → List ℕ
      → Str
      → Servers
      → Clients
      → Hints
      → List Event
      → List Event
      → Bool
      → Action Store (List ℕ)
  unfolding rendezvous_hash ranked_servers find_clients candidates_by
  get_dest_clients not_above score f supported dest_pub_hex servers clients_map hints first
        second_try retry_enabled =
      do
        af_buckets ← lift (rendezvous_hash not_above score lib supported dest_pub_hex servers)
        find_clients (candidates_by f hints clients_map (ranked_servers af_buckets)) first
            second_try retry_enabled
