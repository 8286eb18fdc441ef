-- ===== src/Connection/Shut.antt =====
-- MQTTClient.close: what it leaves of the connection, or why it raises.
use sidewire.Prelude.{
  ◌≡◌, refl, ◌⊎◌, inl, inr, Bool, true, false, Option, none, List, [], ◌∷◌, ◌++◌, Option-cases,
  Bool-cases,
}
use sidewire.Prelude.Results.{Exn, Result, ok, raised, Result-cases}
use sidewire.Prelude.Action.{◌>>=◌}
use sidewire.Aionetiface.{Aionetiface, Bytes}
use sidewire.Wire.Msgs.{build_disconnect}
use sidewire.Client.{Client, pipe_send, async_wrap_errors}
use sidewire.Connection.{close, shut_down, await_close}

-- A client that is closed and has neither a task nor a pipe.
pub record IsShut (c : Client) : Type 0 where
  pub closed : c.is_closed ≡ true
  pub no_task : c.dispatcher_task ≡ none
  pub no_pipe : c.pipe ≡ none

-- cancel_task or pipe.close() raises `x`.
abbrev pub Fails : Aionetiface → Exn → Type 0
Fails lib x =
    ((task : Option Bool) × (lib.cancel_task task ≡ raised x))
    ⊎ ((sent : List Bytes) × (lib.pipe_close sent ≡ raised x))

abbrev pub ShutOrFails : Aionetiface → Result (Unit {0}) × Client → Type 0
ShutOrFails lib r = ((r.0 ≡ ok tt) × IsShut r.1) ⊎ ((x : Exn) × (r.0 ≡ raised x) × Fails lib x)

module _ (lib : Aionetiface) (fresh : Bytes) where
  -- The close of a client that is not closed yet.
  pub close-ShutOrFails : (c : Client) → c.is_closed ≡ false → ShutOrFails lib (close lib fresh c)
  unfolding close shut_down await_close pipe_send async_wrap_errors ◌>>=◌
  close-ShutOrFails c h = elim (Result-cases (lib.cancel_task c.dispatcher_task)) [
    | inl (x, e) ↦ rw h (rw e (inr (x, refl, inl (c.dispatcher_task, e))))
    | inr (u, e) ↦ rw h (
        rw e (elim (Option-cases c.pipe) [
          | inl p ↦ rw p (inl (refl, record { closed = refl; no_task = refl; no_pipe = refl }))
          | inr (b, p) ↦ elim (Result-cases (lib.pipe_close buf)) [
            | inl (x, k) ↦ rw p (rw k (inr (x, refl, inr (buf, k))))
            | inr (u', k) ↦
                rw p (rw k (inl (refl, record { closed = refl; no_task = refl; no_pipe = refl })))
          ]
        ]))
  ]
    where
      buf : List Bytes
      buf = c.sent ++ (build_disconnect ∷ [])

  -- Any close returns, or raises what cancel_task or pipe.close() raises.
  pub close-Fails :
      (c : Client)
      → ((close lib fresh c).0 ≡ ok tt)
        ⊎ ((x : Exn) × ((close lib fresh c).0 ≡ raised x) × Fails lib x)
  unfolding close
  close-Fails c = elim (Bool-cases c.is_closed) [
    | inl old ↦ inl (rw old refl)
    | inr new ↦ elim (close-ShutOrFails c new) [
      | inl (fine, shut) ↦ inl fine
      | inr fails ↦ inr fails
    ]
  ]
