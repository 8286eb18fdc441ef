-- ===== src/Examples/Routing.antt =====
-- The router, its pipes and its caches at concrete inputs.
use sidewire.Prelude.{
  inl, sym, ℕ, ◌≡◌, ◌⊎◌, refl, sym, ◌==◌, true, false, some, List, [], ◌∷◌, text_eq, nat_eq,
  bytes_eq,
}
use sidewire.Prelude.Results.{os_error, timeout_error, ok, raised}
use sidewire.Aionetiface.{Aionetiface, Str, Text, str}
use sidewire.Proto.{process_app_msg}
use sidewire.Prelude.Dict.{get, put}
use sidewire.Prelude.Action.{modify, ◌>>=◌}
use sidewire.Client.{Client, seconds, find_meta}
use sidewire.Brokers.Walk.{Store, contains, client_of, set_client, refer, on_client}
use sidewire.HintCache.{ℤ, Json, Hint, load_for, load_all, store_for, broker_json, no_members, obj}
use sidewire.HintCache.Same.{same}
use sidewire.HintCache.Stored.{disk_after, stamped, updated, load_for-store_for}
use sidewire.Router.{
  close_router, Router, of_hosts, all_clients, start_router, ensure_client, ensure_families,
  ensure_servers, new_client, add_handlers, add_msg_handler,
}
use sidewire.Connection.{init}
use sidewire.Router.Idle.{Waking, close_idle_clients, idle_closer_loop, hosts_of, last_active}
use sidewire.Router.Fate.{Fate, Fate-refl, cached}
use sidewire.Router.Closed.{Closed, close_router-Closed}
use sidewire.Router.Stage.{IsIdle, Gone, Closes}
use sidewire.Router.Idled.{still, close_idle_clients-Gone}
use sidewire.Router.Looping.{Quiet, Standing, idle_closer_loop-Quiet}
use sidewire.Dispatch.{keys}
use sidewire.Router.Handlers.{Attached, Reached, made, ensured, attached, Reached-Attached}
use sidewire.Router.Closing.{Stops, close_idle_clients-Fate}
use sidewire.Router.Once.{SameInboxes, step, unmoved, process_app_msg_once_per_router}
use sidewire.SmartPipe.{SmartPipe, queue_all}
use sidewire.SmartPipe.Race.{Turn}
use sidewire.Examples.{toy, alice, connected, replicate}
use sidewire.Examples.Proto.{from_bob}
use sidewire.Examples.Network.{store, host_a, server, families}

-- Client 0 is idle and in the cache; client 1 is protected.
abbrev pub router : Router
router = record {
  kp = alice;
  servers = [];
  clients = (2, (host_a, 0) ∷ (b'b' ∷ [], 1) ∷ []) ∷ [];
  store = record store {
    member = λ i. record connected { dispatcher_task = some false; last_send = some 5 };
  };
  recv_msg_ids = 0;
  next_client = 2;
  msg_handlers = [];
  cache = (b'k' ∷ [], record { updated = 5; clients = 0 ∷ 1 ∷ [] }) ∷ [];
  protected_clients = 1 ∷ [];
  idle_closer_task = some false;
  ticks = 0;
}

-- Another task delivers nothing, and changes nothing, while a close waits.
still_as : (j : ℕ) (s : Router) → Fate 0 s ((still j).others s)
still_as j s = Fate-refl 0 s

close_idle_clients-Fate_example :
    Stops toy (close_idle_clients toy [] still router)
    ⊎ Fate 0 router (close_idle_clients toy [] still router).1
close_idle_clients-Fate_example = close_idle_clients-Fate toy [] 0 still still_as router

router-IsIdle : IsIdle (toy.clock router.ticks) (router.store.member 0)
unfolding last_active
router-IsIdle = record { task = refl; is_open = refl; late = refl }

-- Pipes whose close raises OSError.
abbrev failing : Aionetiface
failing = record toy { pipe_close = λ before. raised os_error }

failing-Closes : Closes failing []
failing-Closes = ((λ task. refl), λ sent x h. inl (sym (cc h)))

close_idle_clients-Gone_example :
    ((close_idle_clients failing [] still router).0 ≡ ok tt)
    × Gone failing ((close_idle_clients failing [] still router).1.store.member 0)
    × (cached 0 (close_idle_clients failing [] still router).1.cache ≡ false)
unfolding contains keys of_hosts hosts_of get
close_idle_clients-Gone_example =
    close_idle_clients-Gone failing [] failing-Closes 0 2 router refl refl refl router-IsIdle

-- Every client is marked as closed, but has its dispatcher and its pipe.
abbrev half_closed : Router
half_closed = record router {
  store = record store {
    member = λ i. record connected { dispatcher_task = some false; is_closed = true };
  };
}

close_router-Closed_example : Closed toy [] half_closed (close_router toy [] half_closed)
close_router-Closed_example = close_router-Closed toy [] half_closed

-- Two passes, and a sleep that is cancelled.
abbrev closer_turns : List Waking
closer_turns =
    record { cancelled = false; meanwhile = λ r. r; world = still }
    ∷ record { cancelled = true; meanwhile = λ r. r; world = still }
    ∷ []

still-Quiet : Quiet still
unfolding Quiet
still-Quiet j r = refl

idle_closer_loop-Quiet_example :
    Standing failing [] (idle_closer_loop failing [] closer_turns router).0
idle_closer_loop-Quiet_example =
    idle_closer_loop-Quiet failing [] closer_turns router (still-Quiet, (still-Quiet, tt))

abbrev hi : Text
hi = str (b'h' ∷ b'i' ∷ [])

abbrev pipe : SmartPipe
pipe = record { dest_pub_hex = replicate 66 b'3'; clients = 0 ∷ 1 ∷ []; hint_brokers = [] }

abbrev tasks : List ℕ
tasks =
    (queue_all toy (replicate 32 7) hi pipe.dest_pub_hex (toy.to_h (replicate 32 7)) 0 pipe.clients
      store).0

-- The first client's acknowledgement does not come, the second's does.
abbrev turns : List Turn
turns = ((0, raised timeout_error) ∷ []) ∷ ((1, ok tt) ∷ []) ∷ []

abbrev key_a : Str
key_a = b'k' ∷ []

abbrev broker : Hint
broker = record { af = ℤ.pos 2; host = host_a; port = ℤ.pos 1883; ts = ℤ.pos 0 }

-- A file that is read back as it was written, empty at first; a second entry is no broker.
load_for-store_for_example :
    load_for
      (λ s. ok (ℤ.pos 0))
      key_a
      (load_all (
        disk_after
          (λ j. j)
          (obj no_members)
          (store_for key_a (broker_json broker ∷ Json.null ∷ []) 9_000_000 (obj no_members))))
    ≡ updated key_a
        (stamped (ℤ.pos (seconds 9_000_000)) (broker_json broker ∷ Json.null ∷ []))
        (λ i. load_for (λ s. ok (ℤ.pos 0)) i (load_all (obj no_members)))
        key_a
load_for-store_for_example =
    load_for-store_for (λ s. ok (ℤ.pos 0)) key_a (obj no_members) (λ j. j) same key_a
      (broker_json broker ∷ Json.null ∷ []) 9_000_000

-- A router for one family with one broker, then a hint's broker and another handler.
abbrev made_router : Router
made_router =
    (start_router (λ af. af == 2) families alice (1 ∷ []) ((2, (host_a, server host_a) ∷ []) ∷ [])
      store).1

Reached-Attached_example :
    Attached (add_msg_handler 7 (ensure_client (λ af. af == 2) 2 (b'b' ∷ []) 1883 made_router).1)
Reached-Attached_example =
    Reached-Attached (λ af. af == 2)
      (add_msg_handler 7 (ensure_client (λ af. af == 2) 2 (b'b' ∷ []) 1883 made_router).1)
      (attached (ensure_client (λ af. af == 2) 2 (b'b' ∷ []) 1883 made_router).1 7 (
        ensured made_router 2 (b'b' ∷ []) 1883
          (made families alice (1 ∷ []) ((2, (host_a, server host_a) ∷ []) ∷ []) store)))

-- Clients 0 and 1, of the router's own broker and of the hint's. Client 0 has a step, and then gets a
-- message of bob, which comes to client 1, too.
abbrev two_brokers : Router
two_brokers = (ensure_client (λ af. af == 2) 2 (b'b' ∷ []) 1883 made_router).1

two_brokers-Reached : Reached (λ af. af == 2) two_brokers
two_brokers-Reached =
    ensured made_router 2 (b'b' ∷ []) 1883
      (made families alice (1 ∷ []) ((2, (host_a, server host_a) ∷ []) ∷ []) store)

abbrev pinged : Store
pinged =
    (on_client 0 (modify (λ (c : Client). record c { last_send = some 5 })) two_brokers.store).1

process_app_msg_once_per_router_example :
    let s1 : Store = (on_client 0 (process_app_msg toy [] from_bob) pinged).1 in
    SameInboxes s1 (on_client 1 (process_app_msg toy [] from_bob) s1).1
unfolding find_meta get put client_of set_client refer start_router contains all_clients of_hosts
    ensure_client ensure_families ensure_servers new_client init add_handlers ◌>>=◌ bytes_eq
    on_client
process_app_msg_once_per_router_example =
    process_app_msg_once_per_router toy from_bob [] [] (λ af. af == 2) two_brokers pinged 0 1
      two_brokers-Reached
      (step two_brokers.store 0 (modify (λ (c : Client). record c { last_send = some 5 })) unmoved)
      refl refl refl
