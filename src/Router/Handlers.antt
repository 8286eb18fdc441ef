-- ===== src/Router/Handlers.antt =====
-- Every client of a router has every message handler.
use sidewire.Prelude.{
  ℕ, ◌≡◌, ap, subst, inl, inr, Bool, true, some, List, [], ◌∷◌, ◌==◌, Bool-cases, nat_eq, text_eq,
  arith,
}
use sidewire.Prelude.Dict.{Dict, get}
use sidewire.Aionetiface.{Str}
use sidewire.AppPacket.{KeyPair}
use sidewire.Connection.{init}
use sidewire.Brokers.{Servers, Families}
use sidewire.Brokers.Walk.{Store, refer, set_client, client_of, contains}
use sidewire.Router.{
  Router, of_hosts, all_clients, new_client, build_client, ensure_client, start_router, add_to_all,
  add_msg_handler,
}
use sidewire.Router.Building.{was_known, Keeps, ensure_client-keeps, ensure_families-Keeps}
use sidewire.Router.Known.{contains-snoc, contains-add_handler, contains-add_handlers}

-- Client `i` has the handlers of the list.
HasAll : List ℕ → ℕ → Store → Type 0
HasAll hs i s = (h : ℕ) → contains hs h ≡ true → contains (s.member i).msg_handlers h ≡ true

-- Each client that the router knows has each handler that was registered.
pub Attached : Router → Type 0
Attached r = (i : ℕ) → contains (all_clients r.clients) i ≡ true → HasAll r.msg_handlers i r.store

-- The states of a router that is made and then, in any order, asked for clients and given handlers.
pub data Reached (supports : ℕ → Bool) : Router → Type 0 where
  made :
      (f : Families) (kp : KeyPair) (hs : List ℕ) (servers : Servers) (s : Store)
      → Reached supports (start_router supports f kp hs servers s).1
  ensured :
      (r : Router) (af : ℕ) (host : Str) (port : ℕ)
      → Reached supports r
      → Reached supports (ensure_client supports af host port r).1
  attached : (r : Router) (h : ℕ) → Reached supports r → Reached supports (add_msg_handler h r)

build_client-Attached :
    (af : ℕ) (host : Str) (port : ℕ) (hosts : Dict Str ℕ) (r : Router)
    → get af r.clients ≡ some hosts
    → Attached r
    → Attached (build_client af host port hosts r)
unfolding Attached HasAll set_client new_client refer
build_client-Attached af host port hosts r e old i known h registered =
    elim (Bool-cases (r.next_client == i)) [
      | inl new ↦ rw new (
          ground
            (arith, contains-add_handlers r.msg_handlers h (init af host port r.kp), registered))
      | inr other ↦ rw other (old i (was_known af host port hosts r i e known other) h registered)
    ]

add_to_all-keeps :
    (h j i : ℕ) (is : List ℕ) (s : Store)
    → contains (s.member i).msg_handlers j ≡ true
    → contains ((add_to_all h is s).member i).msg_handlers j ≡ true
unfolding add_to_all set_client client_of
add_to_all-keeps h j i [] s had = had
add_to_all-keeps h j i (k ∷ ks) s had = add_to_all-keeps h j i ks _ (elim (Bool-cases (k == i)) [
  | inl here ↦
      let e : k ≡ i = ground (arith, here) in
      rw here (
        ground (
          arith,
          contains-add_handler h j (client_of k s),
          ap (λ x. contains (s.member x).msg_handlers j) e,
          had,
        ))
  | inr there ↦ rw there had
])

pub add_to_all-has :
    (h i : ℕ) (is : List ℕ) (s : Store)
    → contains is i ≡ true
    → contains ((add_to_all h is s).member i).msg_handlers h ≡ true
unfolding add_to_all set_client client_of contains
add_to_all-has h i [] s at = absurd (cc at)
add_to_all-has h i (k ∷ ks) s at = elim (Bool-cases (k == i)) [
  | inl here ↦
      add_to_all-keeps h h i ks _
        (rw here (ground (arith, contains-add_handler h h (client_of k s))))
  | inr there ↦ add_to_all-has h i ks _ (ground (arith, at, there))
]

add_msg_handler-Attached : (h : ℕ) (r : Router) → Attached r → Attached (add_msg_handler h r)
unfolding Attached HasAll add_msg_handler
add_msg_handler-Attached h r all i known j registered = elim (Bool-cases (h == j)) [
  | inl here ↦
      let e : h ≡ j = ground (arith, here) in
      subst
        (λ x.
          contains ((add_to_all h (all_clients r.clients) r.store).member i).msg_handlers x ≡ true)
        e (add_to_all-has h i (all_clients r.clients) r.store known)
  | inr other ↦
      add_to_all-keeps h j i (all_clients r.clients) r.store
        (all i known j (ground (arith, contains-snoc r.msg_handlers h j, registered, other)))
]

-- Whatever clients a router is asked for and whatever handlers it is given, in any order: each client
-- that it knows has each handler that was registered.
pub Reached-Attached : (supports : ℕ → Bool) (r : Router) → Reached supports r → Attached r
unfolding start_router Attached Keeps all_clients of_hosts contains HasAll
Reached-Attached supports _ (made f kp hs servers s) =
    ensure_families-Keeps Attached build_client-Attached supports (f.ip4 ∷ f.ip6 ∷ []) _
      λ i known h registered. absurd (cc known)
Reached-Attached supports _ (ensured r af host port before) =
    ensure_client-keeps Attached build_client-Attached supports af host port r
      (Reached-Attached supports r before)
Reached-Attached supports _ (attached r h before) =
    add_msg_handler-Attached h r (Reached-Attached supports r before)
