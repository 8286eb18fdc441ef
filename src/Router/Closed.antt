-- ===== src/Router/Closed.antt =====
-- Router.close: every client is closed, or the close of one raises.
use sidewire.Prelude.{
  ℕ, ◌≡◌, refl, ◌⊎◌, inl, inr, true, false, none, List, [], ◌∷◌, ◌==◌, Bool-cases,
}
use sidewire.Prelude.Results.{Exn, Result, ok, raised}
use sidewire.Prelude.Action.{◌>>=◌}
use sidewire.Aionetiface.{Aionetiface, Bytes}
use sidewire.Client.{Client}
use sidewire.Connection.{close}
use sidewire.Connection.Shut.{IsShut, Fails, close-ShutOrFails}
use sidewire.Brokers.Walk.{Store, client_of, set_client, on_client, contains}
use sidewire.Router.{Router, on_store, all_clients, close_all, close_router}

module _ (lib : Aionetiface) (fresh : Bytes) where
  -- Client `j`, when its turn comes.
  abbrev turn_of : ℕ → Store → Result (Unit {0}) × Client
  turn_of j s = close lib fresh (record (client_of j s) { is_closed = false })

  shut_one : ℕ → Store → Store
  shut_one j s = set_client j (turn_of j s).1 s

  -- All clients of the list and those that were shut before are shut, or one failed.
  abbrev AllShut : List ℕ → Store → Result (Unit {0}) × Store → Type 0
  AllShut js s r =
      ((r.0 ≡ ok tt)
        × ((i : ℕ) → (contains js i ≡ true) ⊎ IsShut (s.member i) → IsShut (r.1.member i)))
      ⊎ ((x : Exn) × (r.0 ≡ raised x) × Fails lib x)

  shut_one-IsShut :
      (i j : ℕ) (s : Store)
      → IsShut (turn_of j s).1
      → ((j == i) ≡ true) ⊎ IsShut (s.member i)
      → IsShut ((shut_one j s).member i)
  unfolding shut_one set_client
  shut_one-IsShut i j s shut h = elim (Bool-cases (j == i)) [
    | inl here ↦ rw here shut
    | inr other ↦ elim h [ inl here ↦ absurd (cc (here, other)) | inr done ↦ rw other done ]
  ]

  close_all-AllShut : (js : List ℕ) (s : Store) → AllShut js s (close_all lib fresh js s)
  unfolding close_all contains ◌>>=◌ on_client shut_one
  close_all-AllShut [] s =
      inl (refl, λ i h. elim h [ inl missing ↦ absurd (cc missing) | inr shut ↦ shut ])
  close_all-AllShut (j ∷ js) s =
      elim (close-ShutOrFails lib fresh (record (client_of j s) { is_closed = false }) refl) [
        | inr (x, e, why) ↦ inr (x, rw e refl, why)
        | inl (e, shut) ↦ rw e (elim (close_all-AllShut js (shut_one j s)) [
          | inr fails ↦ inr fails
          | inl (fine, all) ↦ inl (fine, λ i h. all i (step i shut (Bool-cases (j == i)) h))
        ])
      ]
    where
      step :
          (i : ℕ)
          → IsShut (turn_of j s).1
          → ((j == i) ≡ true) ⊎ ((j == i) ≡ false)
          → (contains (j ∷ js) i ≡ true) ⊎ IsShut (s.member i)
          → (contains js i ≡ true) ⊎ IsShut ((shut_one j s).member i)
      step i shut (inl here) k = inr (shut_one-IsShut i j s shut (inl here))
      step i shut (inr other) (inl later) = inl (rw other at later)
      step i shut (inr other) (inr done) = inr (shut_one-IsShut i j s shut (inr done))

  -- How Router.close ends.
  abbrev pub Closed : Router → Result (Unit {0}) × Router → Type 0
  Closed r p =
      (p.1.idle_closer_task ≡ none)
      × (((p.0 ≡ ok tt)
            × ((i : ℕ) → contains (all_clients r.clients) i ≡ true → IsShut (p.1.store.member i)))
          ⊎ ((x : Exn) × (p.0 ≡ raised x) × Fails lib x))

  -- Router.close returns, and then each client of the router is closed and has neither a dispatcher nor
  -- a pipe, whatever its state was: also one that was marked as closed while its dispatcher and pipe
  -- were alive. Or it raises an exception that cancel_task or pipe.close() has raised for a client. The
  -- idle closer's task is gone in both cases.
  pub close_router-Closed : (r : Router) → Closed r (close_router lib fresh r)
  unfolding close_router on_store ◌>>=◌
  close_router-Closed r = elim (close_all-AllShut (all_clients r.clients) r.store) [
    | inl (fine, all) ↦ (refl, inl (fine, λ i h. all i (inl h)))
    | inr fails ↦ (refl, inr fails)
  ]
