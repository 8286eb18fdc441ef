-- ===== src/Router/Once.antt =====
-- A message that comes over several brokers of one router.
use sidewire.Prelude.{
  text_eq, ℕ, ◌≡◌, refl, sym, ap, ◌∙◌, inl, inr, Bool, true, none, ◌==◌, Bool-cases, nat_eq, arith,
}
use sidewire.Prelude.Action.{Action}
use sidewire.Prelude.Dict.{has}
use sidewire.Aionetiface.{Aionetiface, Bytes}
use sidewire.AppPacket.{Inbound}
use sidewire.Client.{Client}
use sidewire.Proto.{process_app_msg}
use sidewire.Proto.Inbox.{Received, inbox}
use sidewire.Proto.Delivery.{queued_ack, recorded, known_once}
use sidewire.Brokers.Walk.{Store, on_client, client_of, set_client, contains}
use sidewire.Router.{Router, all_clients}
use sidewire.Router.Handlers.{Reached}
use sidewire.Router.Shared.{Reached-Shared}

-- What the application sees of the clients: the calls of handlers at each, and the tables of hashes.
pub record SameInboxes (s s' : Store) : Type 0 where
  pub delivered : (k : ℕ) → (s'.member k).delivered ≡ (s.member k).delivered
  pub tables : (t : ℕ) → s'.tables t ≡ s.tables t

-- The stores that come from one by steps of its clients.
pub data Steps (s : Store) : Store → Type 0 where
  unmoved : Steps s s
  step :
      (s' : Store) (i : ℕ) (m : Action Client (Unit {0}))
      → Steps s s'
      → Steps s (on_client i m s').1

Steps-table_of : (s s' : Store) (k : ℕ) → Steps s s' → s'.table_of k ≡ s.table_of k
unfolding on_client set_client
Steps-table_of s _ k unmoved = refl
Steps-table_of s _ k (step s' i m steps) = Steps-table_of s s' k steps

module _ (lib : Aionetiface) (p : Inbound) where
  -- Two clients of a store that refer to one table.
  once_per_table :
      (fresh fresh' : Bytes) (s : Store) (i j : ℕ)
      → s.table_of i ≡ s.table_of j
      → queued_ack lib fresh p (client_of i s) ≡ none
      → let s1 : Store = (on_client i (process_app_msg lib fresh p) s).1 in
        SameInboxes s1 (on_client j (process_app_msg lib fresh' p) s1).1
  unfolding on_client client_of set_client inbox
  once_per_table fresh fresh' s i j shared no_ack = record {
    delivered = at;
    tables = λ t. elim (Bool-cases (s.table_of j == t)) [
      | inl this ↦
          let e : s.table_of j ≡ t = ground (arith, this) in
          rw this (ap (λ (r : Received). r.recv_msg_ids) same ∙ ap s1.tables e)
      | inr other ↦ rw other refl
    ];
  }
    where
      s1 : Store
      s1 = (on_client i (process_app_msg lib fresh p) s).1

      cj : Client
      cj = client_of j s1

      mine : cj.recv_msg_ids ≡ (process_app_msg lib fresh p (client_of i s)).1.recv_msg_ids
      mine = let e : s.table_of i == s.table_of j ≡ true = ground (arith, shared) in rw e refl

      same : inbox (process_app_msg lib fresh' p cj).1 ≡ inbox cj
      same =
          known_once lib fresh' p cj (ap (has _) mine ∙ recorded lib fresh p (client_of i s) no_ack)

      at :
          (k : ℕ)
          → ((on_client j (process_app_msg lib fresh' p) s1).1.member k).delivered
            ≡ (s1.member k).delivered
      at k = elim (Bool-cases (j == k)) [
        | inl here ↦
            let e : j ≡ k = ground arith in
            rw here
              (ap (λ (r : Received). r.delivered) same ∙ ap (λ (x : ℕ). (s1.member x).delivered) e)
        | inr other ↦ rw other refl
      ]

  -- A router that was made and then, in any order, asked for clients and given handlers, and whose
  -- clients have done any steps since: a message that is processed at one client that the router knows,
  -- where no acknowledgement of it was queued, is not delivered again, and no hash is recorded, when the
  -- next thing that happens is that it comes over the broker of any client that the router knows.
  pub process_app_msg_once_per_router :
      (fresh fresh' : Bytes) (supports : ℕ → Bool) (r : Router) (s : Store) (i j : ℕ)
      → Reached supports r
      → Steps r.store s
      → contains (all_clients r.clients) i ≡ true
      → contains (all_clients r.clients) j ≡ true
      → queued_ack lib fresh p (client_of i s) ≡ none
      → let s1 : Store = (on_client i (process_app_msg lib fresh p) s).1 in
        SameInboxes s1 (on_client j (process_app_msg lib fresh' p) s1).1
  process_app_msg_once_per_router fresh fresh' supports r s i j reached steps known_i known_j
        no_ack =
      let at_i = Steps-table_of r.store s i steps ∙ Reached-Shared supports r reached i known_i in
      let at_j = Steps-table_of r.store s j steps ∙ Reached-Shared supports r reached j known_j in
      once_per_table fresh fresh' s i j (at_i ∙ sym at_j) no_ack
