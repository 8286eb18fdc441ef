-- ===== src/Brokers.antt =====
-- Which brokers a key is served by, and connecting to them: src/sidewire/utils.py.
pub mod Walk
pub mod Gather
pub mod Ranking
pub mod Sorting
pub mod Needed
pub mod Candidates
pub mod Found
pub mod Tried
pub mod Held
pub mod Connected
use sidewire.Prelude.{
  ℕ, zero, suc, ◌+◌, ◌-◌, ◌*◌, ◌/◌, min, max, Bool, true, false, not, ◌&&◌, Option, none, some,
  List, [], ◌∷◌, ◌++◌, map, if◌then◌else◌, ltb, leb, ◌==◌, bytes_eq, length, take, get_elem?,
  nat_eq, text_eq,
}
use sidewire.Prelude.Results.{
  Exn, value_error, key_error, index_error, os_error, connection_error, timeout_error, Result, ok,
  raised, ◌>>=◌,
}
use sidewire.Prelude.Action.{Action}
use sidewire.Prelude.Dict.{Dict, get, put}
use sidewire.Aionetiface.{Aionetiface, Bytes, Str, Text, str}
use sidewire.Client.{Client, get_time, second}
use sidewire.Connection.{Attempt, connect}
use sidewire.Dispatch.{sorted, keys}

-- An entry of the server table; `host` is the key that it stands under.
pub record Server : Type 0 where
  pub fqns : List Str
  pub ip : Str
  pub host : Str
  pub port : ℕ
  pub af : ℕ

-- By address family, and by host.
abbrev pub Servers : Type 0
Servers = Dict ℕ (Dict Str Server)

-- The platform's numbers of the address families.
pub record Families : Type 0 where
  pub ip4 : ℕ
  pub ip6 : ℕ

-- iana_to_af.get(af, af), where iana_to_af = {int(IP4): IP4, 10: IP6}
unfoldable pub iana_to_af : Families → ℕ → ℕ
iana_to_af f af = if af == 10 then f.ip6 else af

-- a <= b for texts
unfoldable pub str_leb : Str → Str → Bool
str_leb [] b = true
str_leb (x ∷ a) [] = false
str_leb (x ∷ a) (y ∷ b) = if x == y then str_leb a b else ltb x y

-- list.sort(key=…), which is stable: a new head goes before the entries that are not below it.
module _ {ℓ} {A : Type ℓ} (below : A → A → Bool) where
  unfoldable pub insert_by : A → List A → List A
  insert_by x [] = x ∷ []
  insert_by x (y ∷ ys) = if below x y then x ∷ (y ∷ ys) else y ∷ insert_by x ys

  unfoldable pub sort_by : List A → List A
  unfolding insert_by
  sort_by [] = []
  sort_by (x ∷ xs) = insert_by x (sort_by xs)

-- `sorted(fqns)`, and its first host or the ip
abbrev pub first_host : List Str → Str → Str
first_host [] ip = ip
first_host (h ∷ hs) ip = h

unfoldable pub add_server : Server → Dict Str Server → Dict Str Server
unfolding sort_by str_leb
add_server s table =
    let host = first_host (sort_by str_leb s.fqns) s.ip in put host (record s { host = host }) table

-- The inner loop of get_mqtt_server_list; `server_list[0]` raises on an empty list.
unfoldable pub add_servers : List (List Server) → Dict Str Server → Result (Dict Str Server)
unfolding add_server
add_servers [] table = ok table
add_servers ([] ∷ lists) table = raised index_error
add_servers ((s ∷ ss) ∷ lists) table = add_servers lists (add_server s table)

-- from_infra["IPv4"]["UDP"] and from_infra["IPv6"]["UDP"]
unfoldable pub get_mqtt_server_list :
    Families → List (List Server) → List (List Server) → Result Servers
unfolding add_servers
get_mqtt_server_list f infra4 infra6 = do
  table4 ← add_servers infra4 []
  table6 ← add_servers infra6 []
  ok ((f.ip4, table4) ∷ (f.ip6, table6) ∷ [])

-- max((len(bucket) for bucket in af_buckets.values()), default=0)
unfoldable pub max_len : {A : Type 0} → Dict ℕ (List A) → ℕ
max_len [] = 0
max_len ((af, bucket) ∷ buckets) = max (length bucket) (max_len buckets)

module _ {A : Type 0} (af_buckets : Dict ℕ (List A)) where
  abbrev at_index : ℕ → Option (List A) → List A
  at_index i none = []
  at_index i (some bucket) = elim (get_elem? bucket i) [ none ↦ [] | some x ↦ x ∷ [] ]

  -- The inner loop of interleave_buckets, for the index `i`.
  unfoldable pub column : ℕ → List ℕ → List A
  column i [] = []
  column i (af ∷ afs) = at_index i (get af af_buckets) ++ column i afs

  -- The outer loop: `n` indices are left, from `i` on.
  unfoldable pub columns : ℕ → ℕ → List A
  unfolding column sorted keys
  columns zero i = []
  columns (suc n) i = column i (sorted (keys af_buckets)) ++ columns n (i + 1)

  unfoldable pub interleave_buckets : List A
  unfolding columns max_len
  interleave_buckets = columns (max_len af_buckets) 0

-- Scores are numbers of which the code knows only the order: `not_above a b` says a <= b.
module _ {Score : Type 0} (not_above : Score → Score → Bool)
    (rendezvous_score : Bytes → Bytes → Bytes → Score) (lib : Aionetiface) where
  -- `bytes([int(af)])` raises above 255.
  unfoldable pub get_server_score : ℕ → Str → Str → Result Score
  get_server_score af host pub_key_hex =
      if ltb af 256
      then (do
        key ← lib.h_to_b pub_key_hex
        ok (rendezvous_score (af ∷ []) key (lib.to_b (str host))))
      else raised value_error

  -- The servers of one family with their scores, in the order of the table.
  unfoldable pub score_servers : ℕ → Str → Dict Str Server → Result (List (Score × Server))
  unfolding get_server_score
  score_servers af pub_key_hex [] = ok []
  score_servers af pub_key_hex ((host, server) ∷ table) = do
    score ← get_server_score af host pub_key_hex
    rest ← score_servers af pub_key_hex table
    ok ((score, server) ∷ rest)

  abbrev pub by_score : Score × Server → Score × Server → Bool
  by_score a b = not_above a.0 b.0

  -- One bucket: scored, then sorted. `servers[af]` raises on a missing key.
  unfoldable pub bucket_of : ℕ → Str → Option (Dict Str Server) → Result (List (Score × Server))
  unfolding score_servers sort_by
  bucket_of af pub_key_hex none = raised key_error
  bucket_of af pub_key_hex (some table) = do
    scored ← score_servers af pub_key_hex table
    ok (sort_by by_score scored)

  unfoldable pub fill_buckets :
      List ℕ
      → Str
      → Servers
      → Dict ℕ (List (Score × Server))
      → Result (Dict ℕ (List (Score × Server)))
  unfolding bucket_of
  fill_buckets [] pub_key_hex servers af_buckets = ok af_buckets
  fill_buckets (af ∷ afs) pub_key_hex servers af_buckets = do
    bucket ← bucket_of af pub_key_hex (get af servers)
    fill_buckets afs pub_key_hex servers (put af bucket af_buckets)

  -- `supported` is nic.supported().
  unfoldable pub rendezvous_hash : List ℕ → Str → Servers → Result (Dict ℕ (List (Score × Server)))
  unfolding fill_buckets
  rendezvous_hash supported pub_key_hex servers = fill_buckets supported pub_key_hex servers []
