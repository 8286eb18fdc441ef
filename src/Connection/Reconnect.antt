-- ===== src/Connection/Reconnect.antt =====
-- reconnect_loop: how it stands when it returns, and its pauses.
use sidewire.Prelude.{
  ℕ, ◌+◌, ◌^◌, ◌≤◌, Option, Option-cases, ◌≡◌, ◌≢◌, sym, ap, ◌∙◌, refl, ◌⊎◌, inl, inr, Bool, true,
  false, List, [], ◌∷◌, Bool-cases, arith,
}
use sidewire.Prelude.Results.{
  Exn, os_error, connection_error, timeout_error, Result, ok, raised, Result-cases,
}
use sidewire.Prelude.Action.{◌>>=◌}
use sidewire.Aionetiface.{Aionetiface, Bytes}
use sidewire.Client.{Client, pipe_open}
use sidewire.Client.PacketIds.{reset_session_state}
use sidewire.Connection.{
  Attempt, Round, Loop, returned, escaped, running, close_old, await_close, after_close,
  after_round, retries, reconnect_cap, after_connect, reconnect_loop,
}
use sidewire.Connection.Handshake.{Ends, connected, refused, leaked, mqtt_connect_ends}

-- Each pause is within its bound: 1, 2, 4, … seconds, and never more than a minute.
pub PausesBounded : ℕ → List ℕ → Type 0
PausesBounded attempts [] = Unit {0}
PausesBounded attempts (d ∷ ds) = (d ≤ 2 ^ attempts) × (d ≤ 60) × PausesBounded (attempts + 1) ds

-- The failures of the network that the code catches.
abbrev pub IsNetwork : Exn → Type 0
IsNetwork x = (x ≡ os_error) ⊎ (x ≡ connection_error) ⊎ (x ≡ timeout_error)

abbrev pub IsOther : Exn → Type 0
IsOther x = (x ≢ os_error) × (x ≢ connection_error) × (x ≢ timeout_error)

pub IsNetwork-or_IsOther :
    (x : Exn) → ((retries x ≡ true) × IsNetwork x) ⊎ ((retries x ≡ false) × IsOther x)
unfolding retries
IsNetwork-or_IsOther os_error = inl (refl, inl refl)
IsNetwork-or_IsOther connection_error = inl (refl, inr (inl refl))
IsNetwork-or_IsOther timeout_error = inl (refl, inr (inr refl))
IsNetwork-or_IsOther _ = inr (refl, (λ h. cc h, λ h. cc h, λ h. cc h))

-- The loop is over only with an open pipe or a closed client, or by an exception that is no failure
-- of the network, or that the close of the old pipe has raised.
unfoldable pub Settled : Aionetiface → Loop → Client → Type 0
Settled lib returned c = (c.is_closed ≡ true) ⊎ (pipe_open c.pipe ≡ true)
Settled lib (escaped x) c = IsOther x ⊎ ((sent : List Bytes) × (lib.pipe_close sent ≡ raised x))
Settled lib running c = Unit {0}

abbrev pub Holds : Aionetiface → ℕ → (List ℕ × Loop) × Client → Type 0
Holds lib attempts r = PausesBounded attempts r.0.0 × Settled lib r.0.1 r.1

fails_with : Exn → Result (Unit {0})
fails_with x = raised x

raised-inj : (x y : Exn) → fails_with x ≡ fails_with y → x ≡ y
unfolding fails_with
raised-inj x y h = cc h

module _ (lib : Aionetiface) (fresh : Bytes) (keep_alive : ℕ) (uniform : ℕ → ℕ → ℕ) where
  failed-Holds :
      (attempts : ℕ) (again : Client → (List ℕ × Loop) × Client) (x : Exn) (c : Client)
      → ((c : Client) → Holds lib attempts (again c))
      → Holds lib attempts (after_connect lib fresh again (raised x, c))
  unfolding PausesBounded Settled
  failed-Holds attempts again x c ih = elim (IsNetwork-or_IsOther x) [
    | inl (network, which) ↦ rw (network, after_connect) (ih c)
    | inr (other, which) ↦ rw (other, after_connect) (tt, inl which)
  ]

  turn-Holds :
      (w : Attempt) (p : Option Bool) (n fut attempts : ℕ)
      (again : Client → (List ℕ × Loop) × Client) (r : Result (Unit {0}) × Client)
      → Ends lib fresh keep_alive w p n fut r
      → ((c : Client) → Holds lib attempts (again c))
      → Holds lib attempts (after_connect lib fresh again r)
  unfolding PausesBounded Settled
  turn-Holds w p n fut attempts again _ (connected c bs got good granted pipe opens) ih =
      (tt, inr (rw pipe))
  turn-Holds w p n fut attempts again _ (refused x c pipe opens) ih =
      failed-Holds attempts again x c ih
  turn-Holds w p n fut attempts again _ (leaked x c pipe opens how) ih =
      failed-Holds attempts again x c ih

  -- What close_old raises, pipe.close() has raised.
  close_old-raised :
      (c c' : Client) (x : Exn)
      → close_old lib fresh c ≡ (raised x, c')
      → (sent : List Bytes) × (lib.pipe_close sent ≡ raised x)
  unfolding close_old await_close fails_with ◌>>=◌
  close_old-raised c c' x h = elim (Option-cases c.pipe) [
    | inl e ↦
        let fine : close_old lib fresh c ≡ (ok tt, c) = rw e refl in
        absurd (cc (ap (λ (r : Result (Unit {0}) × Client). r.0) (sym fine ∙ h)))
    | inr (closed, e) ↦ elim (Result-cases (lib.pipe_close c.sent)) [
      | inr (u, k) ↦
          let fine : (close_old lib fresh c).0 ≡ ok tt = rw e (rw k refl) in
          absurd (cc (fine, ap (λ (r : Result (Unit {0}) × Client). r.0) h))
      | inl (y, k) ↦
          let fails : (close_old lib fresh c).0 ≡ raised y = rw e (rw k refl) in
          let same : fails_with y ≡ fails_with x =
            sym fails ∙ ap (λ (r : Result (Unit {0}) × Client). r.0) h in
          (c.sent, k ∙ ap (λ (e : Exn). raised e) (raised-inj y x same))
    ]
  ]

  closed-Holds :
      (attempts : ℕ) (again : Client → (List ℕ × Loop) × Client) (r : Result (Unit {0}) × Client)
      (c : Client)
      → close_old lib fresh c ≡ r
      → ((c' : Client) → Holds lib attempts (again c'))
      → Holds lib attempts (after_close lib fresh again r)
  unfolding PausesBounded Settled
  closed-Holds attempts again (ok u, c') c e ih = ih c'
  closed-Holds attempts again (raised x, c') c e ih = (tt, inr (close_old-raised c c' x e))

  -- With random.uniform within its bound: the loop returns only with an open pipe or a closed client. No
  -- OSError, ConnectionError or TimeoutError escapes from it, but one that the close of the old pipe
  -- raises. Its k-th pause is at most 2 ^ k seconds and a minute.
  pub reconnect_loop_settled :
      (attempts : ℕ) (rounds : List Round) (c : Client)
      → ((k bound : ℕ) → uniform k bound ≤ bound)
      → Holds lib attempts (reconnect_loop lib fresh keep_alive uniform attempts rounds c)
  unfolding reconnect_loop PausesBounded Settled reconnect_cap
  reconnect_loop_settled attempts [] c bounded = (tt, tt)
  reconnect_loop_settled attempts (r ∷ rs) c bounded = elim (Bool-cases c.is_closed) [
    | inl closed ↦ rw (closed, reconnect_loop) (tt, inl closed)
    | inr not_closed ↦ elim (Bool-cases (pipe_open c.pipe)) [
      | inl there ↦ rw (not_closed, reconnect_loop) (rw there (tt, inr there))
      | inr gone ↦
          rw (not_closed, reconnect_loop)
            (rw gone (
              closed-Holds attempts _ (close_old lib fresh c) c refl λ c1.
                let c0 : Client = reset_session_state c1 in
                turn-Holds r.attempt c0.pipe c0.open_pipes c0.next_future attempts _ _
                  (mqtt_connect_ends lib fresh keep_alive r.attempt c0)
                  λ c'.
                    let (pauses, settled) =
                      reconnect_loop_settled (attempts + 1) rs (after_round r.closes c') bounded in
                    (
                      (
                        omega (arith, bounded attempts (reconnect_cap attempts)),
                        omega (arith, bounded attempts (reconnect_cap attempts)),
                        pauses,
                      ),
                      settled,
                    )))
    ]
  ]
