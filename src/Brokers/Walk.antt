-- ===== src/Brokers/Walk.antt =====
-- The candidates of a key's brokers, and try_client of src/sidewire/utils.py.
use sidewire.Prelude.{
  ℕ, zero, suc, ◌+◌, ◌-◌, ◌*◌, ◌/◌, min, Bool, true, false, Option, none, some, List, [], ◌∷◌, ◌++◌,
  map, if◌then◌else◌, ltb, ◌==◌, nat_eq, text_eq,
}
use sidewire.Prelude.Results.{
  Exn, os_error, connection_error, timeout_error, cancelled_error, Result, raised,
}
use sidewire.Prelude.Action.{Action, pure, gets, modify, try_except, ◌>>=◌, ◌>>◌}
use sidewire.Prelude.Dict.{Dict, get}
use sidewire.Aionetiface.{Aionetiface, Bytes, Str}
use sidewire.Client.{Client, get_time, second}
use sidewire.Connection.{Attempt, Canceller, callers_timeout, connect}
use sidewire.Brokers.{Server, Families, iana_to_af}

-- The clients are objects: a client stands in the store under its identity. So are the tables
-- `recv_msg_ids`: the store has, for each client, the identity of the table that it refers to now.
pub record Store : Type 0 where
  pub member : ℕ → Client
  pub tables : ℕ → Dict Str ℕ
  pub table_of : ℕ → ℕ

-- A client, with the table that it refers to.
unfoldable pub client_of : ℕ → Store → Client
client_of i s = record (s.member i) { recv_msg_ids = s.tables (s.table_of i) }

-- What is done to the table of a client, every client sees that refers to it.
unfoldable pub set_client : ℕ → Client → Store → Store
set_client i c s = record s {
  member = λ j. if i == j then c else s.member j;
  tables = λ t. if s.table_of i == t then c.recv_msg_ids else s.tables t;
}

-- client.recv_msg_ids = table
unfoldable pub refer : ℕ → ℕ → Store → Store
refer i table s = record s { table_of = λ j. if i == j then table else s.table_of j }

-- An action on one client of the store.
unfoldable pub on_client : {A : Type 0} → ℕ → Action Client A → Action Store A
unfolding client_of set_client
on_client i m s = let r = m (client_of i s) in (r.0, set_client i r.1 s)

-- The clients of a router: by address family, and by host.
abbrev pub Clients : Type 0
Clients = Dict ℕ (Dict Str ℕ)

-- clients_map[af][host], if both are there
abbrev in_family : Str → Option (Dict Str ℕ) → Option ℕ
in_family host none = none
in_family host (some hosts) = get host hosts

unfoldable pub lookup_client : ℕ → Str → Clients → Option ℕ
lookup_client af host clients_map = in_family host (get af clients_map)

unfoldable pub contains : List ℕ → ℕ → Bool
contains [] i = false
contains (j ∷ js) i = if j == i then true else contains js i

-- One turn of the loops of walk_af: skip what is not in the map or was seen, else append.
unfoldable pub add_candidate : Option ℕ → List ℕ → List ℕ
unfolding contains
add_candidate none candidates = candidates
add_candidate (some i) candidates =
    if contains candidates i then candidates else candidates ++ (i ∷ [])

unfoldable pub add_all : List (Option ℕ) → List ℕ → List ℕ
unfolding add_candidate
add_all [] candidates = candidates
add_all (o ∷ os) candidates = add_all os (add_candidate o candidates)

-- A hint of the cache: address family and host.
abbrev pub Hints : Type 0
Hints = List (ℕ × Str)

-- cached_by_af.get(nic_af, [])
unfoldable pub cached_hosts : Families → ℕ → Hints → List Str
unfolding iana_to_af
cached_hosts f nic_af [] = []
cached_hosts f nic_af ((af, host) ∷ hints) =
    let rest = cached_hosts f nic_af hints in
    if iana_to_af f af == nic_af then host ∷ rest else rest

unfoldable pub candidates_of : Families → ℕ → Hints → List Server → Clients → List ℕ
unfolding add_all lookup_client cached_hosts iana_to_af
candidates_of f nic_af cached_hints sorted_servers clients_map =
    add_all
      (map (λ host. lookup_client nic_af host clients_map) (cached_hosts f nic_af cached_hints)
        ++ map (λ (s : Server). lookup_client (iana_to_af f s.af) s.host clients_map)
            sorted_servers)
      []

-- int.bit_length(); `fuel` is the number itself.
unfoldable pub bits : ℕ → ℕ → ℕ
bits zero n = 0
bits (suc fuel) n = let rest = bits fuel (n / 2) in if n == 0 then 0 else rest + 1

-- min(3, max(0, serv_no.bit_length() - 1))
unfoldable pub needed_of : ℕ → ℕ
unfolding bits
needed_of serv_no = min 3 (bits serv_no serv_no - 1)

-- except (OSError, ConnectionError, asyncio.TimeoutError)
unfoldable pub is_unreachable : Exn → Bool
is_unreachable os_error = true
is_unreachable connection_error = true
is_unreachable timeout_error = true
is_unreachable _ = false

unfoldable pub drop_task : ℕ → List ℕ → List ℕ
drop_task i [] = []
drop_task i (j ∷ js) = let rest = drop_task i js in if j == i then rest else j ∷ rest

module _ (lib : Aionetiface) (fresh : Bytes) where
  -- asyncio.wait_for(client.connect(), connect_timeout): a CancelledError that comes from this timeout is
  -- a TimeoutError.
  unfoldable pub connect_timed_out : Result (Option Bool) → Canceller → Result (Option Bool)
  connect_timed_out (raised cancelled_error) callers_timeout = raised timeout_error
  connect_timed_out r by = r

  abbrev pub wait_for_connect : Attempt → Action Client (Option Bool)
  wait_for_connect w c =
      let r = connect lib fresh 60 10 w c in (connect_timed_out r.0 w.canceller, r.1)

  -- client.connect() has these defaults.
  abbrev pub try_connect : ℕ → Attempt → Action Client Bool
  try_connect now w =
      try_except is_unreachable (wait_for_connect w >>= λ pipe. pure true)
        (do modify (λ c. record c { last_connect = some now }); pure false)

  -- `(now - client.last_connect) < retry_duration`
  abbrev pub too_soon : ℕ → ℕ → Option ℕ → Bool
  too_soon now retry_duration none = false
  too_soon now retry_duration (some last) = ltb now (last + retry_duration * second)

  -- `if client.dispatcher_task is None`
  abbrev pub try_by : Option Bool → ℕ → Attempt → Action Client Bool
  try_by (some is_done) retry_duration w = pure true
  try_by none retry_duration w = do
    now ← get_time lib
    last ← gets (λ c. c.last_connect)
    if too_soon now retry_duration last then pure false else try_connect now w

  -- True if the client is returned, False for None.
  unfoldable pub try_client : ℕ → Attempt → Action Client Bool
  unfolding get_time is_unreachable connect_timed_out
  try_client retry_duration w c = try_by c.dispatcher_task retry_duration w c
