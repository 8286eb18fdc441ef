-- ===== src/Router/Shared.antt =====
-- Every client of a router refers to the router's table of received messages.
use sidewire.Prelude.{
  ℕ, ◌≡◌, refl, ◌∙◌, inl, inr, Bool, true, some, List, [], ◌∷◌, ◌==◌, Bool-cases, nat_eq,
}
use sidewire.Prelude.Dict.{Dict, get}
use sidewire.Aionetiface.{Str}
use sidewire.Brokers.Walk.{Store, set_client, refer, contains}
use sidewire.Router.{
  Router, all_clients, of_hosts, build_client, start_router, add_to_all, add_msg_handler,
}
use sidewire.Router.Building.{was_known, Keeps, ensure_client-keeps, ensure_families-Keeps}
use sidewire.Router.Handlers.{Reached, made, ensured, attached}

Shared : Router → Type 0
Shared r = (i : ℕ) → contains (all_clients r.clients) i ≡ true → r.store.table_of i ≡ r.recv_msg_ids

build_client-Shared :
    (af : ℕ) (host : Str) (port : ℕ) (hosts : Dict Str ℕ) (r : Router)
    → get af r.clients ≡ some hosts
    → Shared r
    → Shared (build_client af host port hosts r)
unfolding Shared set_client refer
build_client-Shared af host port hosts r e old i known = elim (Bool-cases (r.next_client == i)) [
  | inl new ↦ rw new refl
  | inr other ↦ rw other (old i (was_known af host port hosts r i e known other))
]

add_to_all-table_of :
    (h i : ℕ) (is : List ℕ) (s : Store) → (add_to_all h is s).table_of i ≡ s.table_of i
unfolding add_to_all set_client
add_to_all-table_of h i [] s = refl
add_to_all-table_of h i (k ∷ ks) s = add_to_all-table_of h i ks _

-- Each client of a router that was made and then asked for clients and given handlers.
pub Reached-Shared :
    (supports : ℕ → Bool) (r : Router)
    → Reached supports r
    → (i : ℕ) → contains (all_clients r.clients) i ≡ true
    → r.store.table_of i ≡ r.recv_msg_ids
unfolding start_router Shared Keeps all_clients of_hosts contains add_msg_handler
Reached-Shared supports _ (made f kp hs servers s) =
    ensure_families-Keeps Shared build_client-Shared supports (f.ip4 ∷ f.ip6 ∷ []) _
      λ i known. absurd (cc known)
Reached-Shared supports _ (ensured r af host port before) =
    ensure_client-keeps Shared build_client-Shared supports af host port r
      (Reached-Shared supports r before)
Reached-Shared supports _ (attached r h before) = λ i known.
    add_to_all-table_of h i (all_clients r.clients) r.store
    ∙ Reached-Shared supports r before i known
