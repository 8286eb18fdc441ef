-- ===== src/HintCache.antt =====
-- The cache of brokers that a key reached before: src/sidewire/broker_hint_cache.py.
pub mod Same
pub mod Stored
use sidewire.Prelude.{
  ℕ, zero, suc, ◌/◌, Bool, true, false, not, ◌&&◌, Option, none, some, List, [], ◌∷◌, if◌then◌else◌,
  ltb, leb, ◌==◌, text_eq,
}
use sidewire.Prelude.Results.{Exn, type_error, Result, ok, raised, ◌>>=◌}
use sidewire.Prelude.Dict.{get, put}
use sidewire.Aionetiface.{Str}
use sidewire.Client.{Client, seconds}
use sidewire.Brokers.{sort_by}

-- A Python int; negsuc n is -(n + 1).
pub data ℤ : Type 0 where
  pos negsuc : ℕ → ℤ

unfoldable pub int_leb : ℤ → ℤ → Bool
int_leb (pos a) (pos b) = leb a b
int_leb (pos a) (negsuc b) = false
int_leb (negsuc a) (pos b) = true
int_leb (negsuc a) (negsuc b) = leb b a

-- What the json module reads and writes. A float counts here by what int() makes of it.
mutual
  pub data Json : Type 0 where
    null : Json
    bool : Bool → Json
    int : ℤ → Json
    float : Result ℤ → Json
    str : Str → Json
    arr : Items → Json
    obj : Members → Json

  pub data Items : Type 0 where
    no_items : Items
    item : Json → Items → Items

  pub data Members : Type 0 where
    no_members : Members
    member : Str → Json → Members → Members

-- d.get(k), with none for a missing key
unfoldable pub find : Str → Members → Option Json
find k no_members = none
find k (member j v d) = if text_eq.beq j k then some v else find k d

-- d[k] = v
unfoldable pub assign : Str → Json → Members → Members
assign k v no_members = member k v no_members
assign k v (member j w d) =
    let rest = assign k v d in if text_eq.beq j k then member k v d else member j w rest

abbrev pub af_key : Str
af_key = b'a' ∷ b'f' ∷ []

abbrev pub host_key : Str
host_key = b'h' ∷ b'o' ∷ b's' ∷ b't' ∷ []

abbrev pub port_key : Str
port_key = b'p' ∷ b'o' ∷ b'r' ∷ b't' ∷ []

abbrev pub ts_key : Str
ts_key = b't' ∷ b's' ∷ []

abbrev pub brokers_key : Str
brokers_key = b'b' ∷ b'r' ∷ b'o' ∷ b'k' ∷ b'e' ∷ b'r' ∷ b's' ∷ []

-- A broker as load_for returns it, and as store_for takes and writes it.
pub record Hint : Type 0 where
  pub af : ℤ
  pub host : Str
  pub port : ℤ
  pub ts : ℤ

-- A value for which isinstance(v, int) holds, through int(v): a bool is an int.
unfoldable pub as_int : Option Json → Option ℤ
as_int (some (int i)) = some i
as_int (some (bool b)) = some (pos (if b then 1 else 0))
as_int _ = none

unfoldable pub as_str : Option Json → Option Str
as_str (some (str s)) = some s
as_str _ = none

-- The three fields of an entry, if it is a dict that has them with their types.
unfoldable pub fields_of : Option ℤ → Option Str → Option ℤ → ℤ → Option Hint
fields_of (some af) (some host) (some port) ts =
    some (record { af = af; host = host; port = port; ts = ts })
fields_of _ _ _ ts = none

unfoldable pub valid_entry : Json → ℤ → Option Hint
unfolding as_int as_str fields_of find
valid_entry (obj m) ts =
    fields_of (as_int (find af_key m)) (as_str (find host_key m)) (as_int (find port_key m)) ts
valid_entry _ ts = none

module _ (int_of_str : Str → Result ℤ) where
  -- int(v or 0); int_of_str is what int() makes of a text.
  unfoldable pub int_or_zero : Option Json → Result ℤ
  int_or_zero none = ok (pos 0)
  int_or_zero (some null) = ok (pos 0)
  int_or_zero (some (bool b)) = ok (pos (if b then 1 else 0))
  int_or_zero (some (int i)) = ok i
  int_or_zero (some (float r)) = r
  int_or_zero (some (str [])) = ok (pos 0)
  int_or_zero (some (str (x ∷ s))) = int_of_str (x ∷ s)
  int_or_zero (some (arr no_items)) = ok (pos 0)
  int_or_zero (some (arr (item j js))) = raised type_error
  int_or_zero (some (obj no_members)) = ok (pos 0)
  int_or_zero (some (obj (member k v m))) = raised type_error

  unfoldable pub ts_of : Json → Result ℤ
  unfolding int_or_zero find
  ts_of (obj m) = int_or_zero (find ts_key m)
  ts_of _ = ok (pos 0)

  -- One entry of the loop: its `ts` is read only if the entry is valid.
  abbrev pub keep_entry : Json → Option Hint → Result (List Hint) → Result (List Hint)
  keep_entry j none rest = rest
  keep_entry j (some h) rest = do ts ← ts_of j; out ← rest; ok (record h { ts = ts } ∷ out)

  unfoldable pub read_entries : Items → Result (List Hint)
  unfolding valid_entry ts_of
  read_entries no_items = ok []
  read_entries (item j js) = keep_entry j (valid_entry j (pos 0)) (read_entries js)

  -- out.sort(key=lambda b: b["ts"], reverse=True), which is stable
  abbrev pub by_recency : Hint → Hint → Bool
  by_recency a b = int_leb b.ts a.ts

  unfoldable pub read_brokers : Option Json → Result (List Hint)
  unfolding read_entries sort_by
  read_brokers (some (arr items)) = do out ← read_entries items; ok (sort_by by_recency out)
  read_brokers _ = ok []

  unfoldable pub read_entry : Option Json → Result (List Hint)
  unfolding read_brokers find
  read_entry (some (obj entry)) = read_brokers (find brokers_key entry)
  read_entry _ = ok []

  -- load_for(pub_key_hex) on what load_all returns
  unfoldable pub load_for : Str → Members → Result (List Hint)
  unfolding read_entry
  load_for pub_key_hex cache = read_entry (find pub_key_hex cache)

-- `data if isinstance(data, dict) else {}`, for what load_json_or_default returns
unfoldable pub load_all : Json → Members
load_all (obj m) = m
load_all _ = no_members

-- An entry as it is written, and the entries that pass.
abbrev pub broker_json : Hint → Json
broker_json h = obj (
    member af_key (int h.af) (
      member host_key (str h.host)
        (member port_key (int h.port) (member ts_key (int h.ts) no_members))))

abbrev pub add_valid : Option Hint → Items → Items
add_valid none rest = rest
add_valid (some h) rest = item (broker_json h) rest

unfoldable pub serialisable : ℤ → List Json → Items
unfolding valid_entry
serialisable ts [] = no_items
serialisable ts (b ∷ bs) = add_valid (valid_entry b ts) (serialisable ts bs)

-- The cache with the entries under the key; none if there are no entries.
abbrev pub with_entries : Str → Items → Members → Option Json
with_entries pub_key_hex no_items cache = none
with_entries pub_key_hex (item j js) cache =
    some (obj (assign pub_key_hex (obj (member brokers_key (arr (item j js)) no_members)) cache))

-- The cache after store_for, or none if nothing is written. `now` is the clock's time.
unfoldable pub store_for : Str → List Json → ℕ → Json → Option Json
unfolding serialisable load_all assign
store_for pub_key_hex brokers now on_disk =
    with_entries pub_key_hex (serialisable (pos (seconds now)) brokers) (load_all on_disk)

-- {"af": …, "host": …, "port": …}; a client whose host is empty gives None.
unfoldable pub client_to_hint : Client → Option Json
client_to_hint c = elim c.host [
  | [] ↦ none
  | x ∷ host ↦ some (
      obj (
        member af_key (int (pos c.af))
          (member host_key (str (x ∷ host)) (member port_key (int (pos c.port)) no_members))))
]
