-- ===== src/Examples/Network.antt =====
-- Connections and walks over brokers at concrete inputs.
use mathlib.Core.List.Permᴰ
use sidewire.Prelude.{
  ℕ, ◌≡◌, refl, inl, inr, true, false, none, some, List, [], ◌∷◌, leb, ◌==◌, length, Bool-cases,
  bytes_eq, nat_eq, text_eq, arith,
}
use sidewire.Prelude.Results.{timeout_error, ok}
use sidewire.Prelude.Action.{pure, ◌>>=◌}
use sidewire.Prelude.Dict.{Dict, get, put}
use sidewire.Aionetiface.{Bytes, Str}
use sidewire.Connection.{Attempt, own_timeout, Round, connack_ok, mqtt_connect, reconnect_loop}
use sidewire.Connection.Handshake.{Ends, mqtt_connect_ends}
use sidewire.Connection.Reconnect.{Holds, reconnect_loop_settled}
use sidewire.Brokers.{Server, Families, by_score, rendezvous_hash}
use sidewire.Brokers.Sorting.{IsOrder}
use sidewire.Brokers.Ranking.{SameTable, table, missing, rendezvous_hash-same}
use sidewire.Brokers.Walk.{
  Store, Clients, Hints, contains, candidates_of, try_client, on_client, client_of, set_client,
}
use sidewire.Brokers.Tried.{AllTasks}
use sidewire.Brokers.Gather.{
  Event, task_done, cap_hit, get_dest_clients, candidates_by, ranked_servers,
}
use sidewire.Brokers.Held.{Joined}
use sidewire.Brokers.Connected.{get_dest_clients-Joined}
use sidewire.Dispatch.Loop.{Turn, Sound, dispatcher, dispatcher-Sound}
use sidewire.Client.{Client}
use sidewire.Connection.{connect}
use sidewire.Connection.Opened.{Opened, connect_cases}
use sidewire.Examples.{toy, new_client, connected}

-- A broker that answers, and grants the subscription with the identifier 1.
abbrev pub good_attempt : Attempt
good_attempt = record {
  af_supported = true;
  tcp = ok true;
  rand_plain = b'r' ∷ [];
  connack = ok connack_ok;
  chunks = (0x90 ∷ 3 ∷ 0 ∷ 1 ∷ 1 ∷ []) ∷ [];
  late = timeout_error;
  canceller = own_timeout;
}

mqtt_connect_ends_example :
    Ends toy [] 10 good_attempt none 0 0 (mqtt_connect toy [] 10 good_attempt new_client)
mqtt_connect_ends_example = mqtt_connect_ends toy [] 10 good_attempt new_client

-- A client whose dispatcher has ended.
abbrev abandoned : Client
abandoned = record new_client { dispatcher_task = some true }

connect_cases_example :
    Opened toy [] good_attempt abandoned (connect toy [] 60 10 good_attempt abandoned)
connect_cases_example = connect_cases toy [] 60 10 good_attempt abandoned

-- The network is down at first.
abbrev rounds : List Round
rounds =
    record { attempt = record good_attempt { tcp = ok false }; closes = false }
    ∷ record { attempt = good_attempt; closes = false }
    ∷ []

reconnect_loop_settled_example :
    Holds toy 0 (reconnect_loop toy [] 10 (λ k bound. bound) 0 rounds new_client)
reconnect_loop_settled_example =
    reconnect_loop_settled toy [] 10 (λ k bound. bound) 0 rounds new_client (λ k bound. omega arith)

abbrev pub host_a : Str
host_a = b'a' ∷ []

abbrev host_b : Str
host_b = b'b' ∷ b'b' ∷ []

abbrev pub server : Str → Server
server host = record { fqns = host ∷ []; ip = []; host = host; port = 1883; af = 2 }

abbrev table_ab : Dict Str Server
table_ab = (host_a, server host_a) ∷ (host_b, server host_b) ∷ []

abbrev table_ba : Dict Str Server
table_ba = (host_b, server host_b) ∷ (host_a, server host_a) ∷ []

-- The length of the host as the score.
abbrev pub by_length : Bytes → Bytes → Bytes → ℕ
by_length af key host = length host

by_length-IsOrder : IsOrder (by_score leb by_length toy)
by_length-IsOrder = record {
  total = λ a b h. ground (arith, h);
  trans = λ a b c h k. ground (arith, h, k);
}

same_tables :
    (af : ℕ)
    → SameTable leb by_length toy [] [] af
        (get af ((2, table_ab) ∷ []))
        (get af ((2, table_ba) ∷ []))
unfolding get
same_tables af = elim (Bool-cases (2 == af)) [
  | inl here ↦
      rw here (
        table table_ab table_ba (ground (arith, here)) (Permᴰ.swap refl refl)
          ((refl, tt), (tt, tt)))
  | inr other ↦ rw other missing
]

rendezvous_hash-same_example :
    rendezvous_hash leb by_length toy (2 ∷ []) [] ((2, table_ab) ∷ [])
    ≡ rendezvous_hash leb by_length toy (2 ∷ []) [] ((2, table_ba) ∷ [])
rendezvous_hash-same_example =
    rendezvous_hash-same leb by_length toy [] [] (2 ∷ []) ((2, table_ab) ∷ []) ((2, table_ba) ∷ [])
      by_length-IsOrder refl same_tables

abbrev pub families : Families
families = record { ip4 = 2; ip6 = 23 }

-- Two clients, of which the cache names the second.
abbrev clients_map : Clients
clients_map = (2, (host_a, 0) ∷ (host_b, 1) ∷ []) ∷ []

abbrev hints : Hints
hints = (2, host_b) ∷ []

abbrev servers : List Server
servers = server host_a ∷ server host_b ∷ []

abbrev candidates : List ℕ
candidates = candidates_of families 2 hints servers clients_map

-- Two clients that are connected already; one of them is needed.
abbrev pub store : Store
store = record {
  member = λ i. record connected { dispatcher_task = some false };
  tables = λ t. [];
  table_of = λ i. 9;
}

-- The second client answers first; the task of the other one ends when its walk is over.
abbrev events : List Event
events = task_done 0 1 good_attempt ∷ task_done 0 0 good_attempt ∷ cap_hit 0 ∷ []

abbrev walked : Store
walked =
    (get_dest_clients toy [] leb by_length families (2 ∷ []) [] ((2, table_ab) ∷ []) clients_map
      hints events [] true store).1

get_dest_clients-Joined_example :
    (buckets : Dict ℕ (List (ℕ × Server))) × (rendezvous_hash leb by_length toy
        (2 ∷ [])
        []
        ((2, table_ab) ∷ [])
      ≡ ok buckets)
    × Joined
        (candidates_by toy [] families hints clients_map (ranked_servers toy [] buckets))
        (1 ∷ [])
    × AllTasks (1 ∷ []) walked
unfolding get_dest_clients try_client on_client client_of set_client contains pure ◌>>=◌ get put
    bytes_eq
get_dest_clients-Joined_example =
    get_dest_clients-Joined toy [] leb by_length families (2 ∷ []) [] ((2, table_ab) ∷ [])
      clients_map hints events [] true store walked (1 ∷ []) refl

-- The dispatcher of a connected client, whose connection stays.
abbrev dispatcher_turns : List Turn
dispatcher_turns = record { rounds = rounds; uniform = λ k bound. bound; closes = true } ∷ []

dispatcher-Sound_example :
    Sound toy [] 60 2 10 false (dispatcher toy [] 60 2 10 false dispatcher_turns connected)
dispatcher-Sound_example =
    dispatcher-Sound toy [] 60 2 10 false dispatcher_turns connected (λ k bound. omega arith, tt)
