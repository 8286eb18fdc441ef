-- ===== src/Router/Start.antt =====
-- Router.start: the walk to the router's own brokers, and what it leaves in the caches.
use sidewire.Prelude.{
  ℕ, Bool, false, Option, none, some, List, [], ◌∷◌, ◌++◌, if◌then◌else◌, nat_eq, text_eq,
}
use sidewire.Prelude.Results.{Result, ok}
use sidewire.Prelude.Action.{Action, pure, lift, gets, modify, ◌>>=◌, ◌>>◌}
use sidewire.Aionetiface.{Aionetiface, Bytes, Str}
use sidewire.Brokers.{Families}
use sidewire.Brokers.Walk.{Store, client_of, Hints, contains}
use sidewire.Brokers.Gather.{Event, get_dest_clients}
use sidewire.HintCache.{ℤ, Hint, Json, load_all, load_for, store_for, client_to_hint}
use sidewire.Router.{Router, on_store, cache_clients}

-- The cached hints as walk_af asks for them; a family below 0 is never asked for.
unfoldable pub to_hints : List Hint → Hints
to_hints [] = []
to_hints (h ∷ hs) = elim h.af [ ℤ.pos af ↦ (af, h.host) ∷ to_hints hs | ℤ.negsuc n ↦ to_hints hs ]

unfoldable pub protect : List ℕ → List ℕ → List ℕ
unfolding contains
protect [] protected = protected
protect (i ∷ is) protected =
    protect is (if contains protected i then protected else protected ++ (i ∷ []))

-- The hints of the clients that have one.
unfoldable pub hints_to_store : Store → List ℕ → List Json
unfolding client_to_hint client_of
hints_to_store s [] = []
hints_to_store s (i ∷ is) = elim (client_to_hint (client_of i s)) [
  | none ↦ hints_to_store s is
  | some hint ↦ hint ∷ hints_to_store s is
]

-- `self.idle_closer_task is None or self.idle_closer_task.done()`: then a new task.
unfoldable pub spawn : Option Bool → Option Bool
spawn none = some false
spawn (some done) = some false

-- What the disk does in start(): the cache as it is loaded at first and before it is stored, the time
-- that is stored, and the write.
pub record Disk : Type 0 where
  pub before : Json
  pub later : Json
  pub time : ℕ
  pub write : Json → Result (Unit {0})

abbrev pub write_if : Disk → Option Json → Result (Unit {0})
write_if d none = ok tt
write_if d (some j) = d.write j

module _ (lib : Aionetiface) (fresh : Bytes) {Score : Type 0} (not_above : Score → Score → Bool)
    (score : Bytes → Bytes → Bytes → Score) (int_of_str : Str → Result ℤ) where
  unfoldable pub start :
      Families → List ℕ → List Event → List Event → Bool → Disk → Action Router (List ℕ)
  unfolding load_for load_all to_hints on_store get_dest_clients protect hints_to_store store_for
      cache_clients spawn
  start f supported first second_try retry_enabled disk = do
    key ← gets (λ (r : Router). r.kp.public_key_hex)
    hints ← lift (load_for int_of_str key (load_all disk.before))
    servers ← gets (λ (r : Router). r.servers)
    known ← gets (λ (r : Router). r.clients)
    found ← on_store (
        get_dest_clients lib fresh not_above score f supported key servers known (to_hints hints)
          first second_try retry_enabled)
    modify (λ (r : Router). record r { protected_clients = protect found r.protected_clients })
    store ← gets (λ (r : Router). r.store)
    lift (write_if disk (store_for key (hints_to_store store found) disk.time disk.later))
    cache_clients lib fresh key found
    modify (λ (r : Router). record r { idle_closer_task = spawn r.idle_closer_task })
    pure found
