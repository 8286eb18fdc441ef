-- ===== src/Connection/Handshake.antt =====
-- mqtt_connect: when it returns, what it leaves of the client's pipe, and which pipes it leaves open.
use sidewire.Prelude.{
  ℕ, ◌+◌, ◌-◌, ◌≡◌, ◌≢◌, refl, sym, ap, subst, ◌∙◌, ◌⊎◌, inl, inr, Bool, true, false, Option, none,
  some, List, [], ◌∷◌, ◌++◌, ◌==◌, take, bytes_eq, bytes_eq_iff, All, Bool-cases, arith,
}
use sidewire.Prelude.Results.{
  Exn, value_error, connection_error, timeout_error, Result, ok, raised, Result-cases,
}
use sidewire.Prelude.Action.{throw, lift, gets, continue, ◌>>=◌, >>=-eq-ok}
use sidewire.Prelude.Frame.{Leaves, Leaves-lift, Leaves-gets, Leaves-bind}
use sidewire.Aionetiface.{Aionetiface, Bytes, Str}
use sidewire.Wire.Msgs.{build_connect}
use sidewire.Client.{Client, result, codes, done, set_future}
use sidewire.Proto.{on_chunk}
use sidewire.Proto.Link.{Link, link, subscribe-link}
use sidewire.Proto.Link.Packets.{on_chunk-link}
use sidewire.AppPacket.{KeyPair}
use sidewire.Connection.Reference.{subscribe-reference}
use sidewire.Connection.{
  Attempt, connack_ok, check_codes, or_rand, wait_result, clean_up, send_new, wait_future,
  subscribe_to_identity, recv_connack, check_connack, close_new, await_close, join, handshake,
  open_pipe, mqtt_connect,
}

check_codes-All : (bs : Bytes) → check_codes bs ≡ ok tt → All (λ b. b ≡ 1) bs
unfolding check_codes
check_codes-All [] h = tt
check_codes-All (b ∷ bs) h = elim (Bool-cases (b == 1)) [
  | inl one ↦ (ground (arith, one), check_codes-All bs (sym (rw one refl) ∙ h))
  | inr other ↦
      let refused : check_codes (b ∷ bs) ≡ raised connection_error = rw other refl in
      absurd (cc (h, refused))
]

module _ (lib : Aionetiface) (fresh : Bytes) where
  wait_result-link : (late : Exn) (i : ℕ) (c : Client) → link (wait_result late i c).1 ≡ link c
  unfolding wait_result link set_future
  wait_result-link late i c = ground arith

  wait_future-link :
      (late : Exn) (i : ℕ) (chunks : List Bytes) (c : Client)
      → link (wait_future lib fresh late i chunks c).1 ≡ link c
  unfolding wait_future
  wait_future-link late i [] c = wait_result-link late i c
  wait_future-link late i (chunk ∷ chunks) c = elim (Bool-cases (done (c.futures i))) [
    | inl old ↦ rw (old, wait_future) (wait_result-link late i c)
    | inr new ↦
        rw (new, wait_future)
          (wait_future-link late i chunks (on_chunk lib fresh chunk c).1
            ∙ (on_chunk-link lib fresh chunk).at c)
  ]

  send_new-link : (buf : Bytes) → Leaves link (send_new lib fresh buf)
  unfolding send_new link
  send_new-link buf = record { at = λ s. refl }

  pub identity-link :
      (chunks : List Bytes) (late : Exn) → Leaves link (subscribe_to_identity lib fresh chunks late)
  unfolding subscribe_to_identity
  identity-link chunks late = Leaves-bind _ _ (Leaves-gets _) λ kp.
      Leaves-bind _ _ (subscribe-link lib _) λ r.
        Leaves-bind _ _ (send_new-link r.0) λ u.
          Leaves-bind _ _ (record { at = wait_future-link late r.1 chunks }) λ bs. Leaves-lift _

  -- The future with the number `fut` was resolved by a SUBACK that has no other return code than 1; it
  -- may have none.
  pub record Granted (fut : ℕ) (c : Client) : Type 0 where
    pub grants : Bytes
    pub answered : c.futures fut ≡ result (codes grants)
    pub ones : All (λ b. b ≡ 1) grants

  wait_result-ok :
      (late : Exn) (i : ℕ) (c c' : Client) (bs : Bytes)
      → wait_result late i c ≡ (ok bs, c')
      → c'.futures i ≡ result (codes bs)
  unfolding wait_result set_future
  wait_result-ok late i c c' bs h = ground arith

  wait_future-ok :
      (late : Exn) (i : ℕ) (chunks : List Bytes) (c c' : Client) (bs : Bytes)
      → wait_future lib fresh late i chunks c ≡ (ok bs, c')
      → c'.futures i ≡ result (codes bs)
  unfolding wait_future
  wait_future-ok late i [] c c' bs h = wait_result-ok late i c c' bs h
  wait_future-ok late i (chunk ∷ chunks) c c' bs h = elim (Bool-cases (done (c.futures i))) [
    | inl old ↦ wait_result-ok late i c c' bs (sym (rw (old, wait_future) refl) ∙ h)
    | inr new ↦
        wait_future-ok late i chunks (on_chunk lib fresh chunk c).1 c' bs
          (sym (rw (new, wait_future) refl) ∙ h)
  ]

  identity-Granted :
      (chunks : List Bytes) (late : Exn) (c c' : Client)
      → subscribe_to_identity lib fresh chunks late c ≡ (ok tt, c')
      → Granted c.next_future c'
  unfolding subscribe_to_identity lift gets
  identity-Granted chunks late c c' h =
      let (kp, c1, e1, h1) = >>=-eq-ok _ _ c c' tt h in
      let (r, c2, e2, h2) = >>=-eq-ok _ _ c1 c' tt h1 in
      let (u, c3, e3, h3) = >>=-eq-ok _ _ c2 c' tt h2 in
      let (bs, c4, e4, h4) = >>=-eq-ok _ _ c3 c' tt h3 in
      let checked : check_codes bs ≡ ok tt = ap (λ (x : Result (Unit {0}) × Client). x.0) h4 in
      let same : c4 ≡ c' = ap (λ (x : Result (Unit {0}) × Client). x.1) h4 in
      let start : c ≡ c1 = ap (λ (x : Result KeyPair × Client). x.1) e1 in
      let fut : r.1 ≡ c.next_future =
        subscribe-reference lib _ c1 c2 r e2 ∙ ap (λ (x : Client). x.next_future) (sym start) in
      subst (Granted c.next_future) same (record {
        grants = bs;
        answered = ap c4.futures (sym fut) ∙ wait_future-ok late r.1 chunks c3 c4 bs e4;
        ones = check_codes-All bs checked;
      })

  -- How a pipe that was opened is left open although mqtt_connect raises `x`.
  pub data Leaks (keep_alive : ℕ) (w : Attempt) (x : Exn) : Type 0 where
    building : (id : Str) → build_connect lib id keep_alive ≡ raised x → Leaks keep_alive w x
    sending :
        (sent : List Bytes) (buf : Bytes) → lib.pipe_send sent buf ≡ raised x → Leaks keep_alive w x
    receiving : w.connack ≡ raised x → x ≢ timeout_error → Leaks keep_alive w x

  -- How mqtt_connect ends for a client with the pipe `p` and `n` open pipes.
  pub data Ends (keep_alive : ℕ) (w : Attempt) (p : Option Bool) (n fut : ℕ)
      : Result (Unit {0}) × Client → Type 0 where
    connected :
        (c : Client) (bs : Bytes)
        → w.connack ≡ ok bs
        → take 4 bs ≡ connack_ok
        → Granted fut c
        → c.pipe ≡ some false
        → c.open_pipes ≡ n + 1
        → Ends keep_alive w p n fut (ok tt, c)
    refused :
        (x : Exn) (c : Client)
        → (c.pipe ≡ p) ⊎ (c.pipe ≡ none)
        → c.open_pipes ≡ n
        → Ends keep_alive w p n fut (raised x, c)
    leaked :
        (x : Exn) (c : Client)
        → c.pipe ≡ p
        → c.open_pipes ≡ n + 1
        → Leaks keep_alive w x
        → Ends keep_alive w p n fut (raised x, c)

  link-pipe : (c d : Client) → link c ≡ link d → (c.pipe ≡ d.pipe) × (c.open_pipes ≡ d.open_pipes)
  unfolding link
  link-pipe c d e = (ap (λ (l : Link). l.pipe) e, ap (λ (l : Link). l.open_pipes) e)

  join_ends :
      (keep_alive : ℕ) (w : Attempt) (p : Option Bool) (n fut : ℕ) (c : Client) (bs : Bytes)
      → w.connack ≡ ok bs
      → take 4 bs ≡ connack_ok
      → c.open_pipes ≡ n + 1
      → c.next_future ≡ fut
      → Ends keep_alive w p n fut (join lib fresh w.chunks w.late c)
  unfolding join
  join_ends keep_alive w p n fut c bs got good opened next =
      go (subscribe_to_identity lib fresh w.chunks w.late (record c { pipe = some false })) refl
    where
      started : Client
      started = record c { pipe = some false }

      after :
          {r : Result (Unit {0})} {c' : Client}
          → subscribe_to_identity lib fresh w.chunks w.late started ≡ (r, c')
          → link c' ≡ link started
      after e =
          sym (ap (λ (x : Result (Unit {0}) × Client). link x.1) e)
          ∙ (identity-link w.chunks w.late).at started

      go :
          (r : Result (Unit {0}) × Client)
          → subscribe_to_identity lib fresh w.chunks w.late started ≡ r
          → Ends keep_alive w p n fut
              (clean_up (λ c. record c { pipe = none; open_pipes = c.open_pipes - 1 }) r)
      go (ok u, c') e =
          let (pipe, opens) = link-pipe c' started (after e) in
          connected c' bs got good
            (subst (λ k. Granted k c') next (identity-Granted w.chunks w.late started c' e)) pipe
            (opens ∙ opened)
      go (raised x, c') e =
          let (pipe, opens) = link-pipe c' started (after e) in
          refused x _ (inr refl) (omega (arith, opens, opened))

  -- recv_connack lets an exception other than its timeout pass.
  timeout_or_other : (x : Exn) → (x ≡ timeout_error) ⊎ (x ≢ timeout_error)
  timeout_or_other timeout_error = inl refl
  timeout_or_other value_error = inr (λ e. cc e)
  timeout_or_other _ = inr (λ e. cc e)

  recv_connack_other :
      (x : Exn) (c : Client)
      → x ≢ timeout_error
      → recv_connack lib fresh (raised x) c ≡ (raised x, c)
  unfolding recv_connack throw
  recv_connack_other timeout_error c ne = absurd (ne refl)
  recv_connack_other value_error c ne = refl
  recv_connack_other _ c ne = refl

  received_ends :
      (keep_alive : ℕ) (w : Attempt) (p : Option Bool) (n fut : ℕ) (c : Client) (r : Result Bytes)
      → w.connack ≡ r
      → c.pipe ≡ p
      → c.open_pipes ≡ n + 1
      → c.next_future ≡ fut
      → Ends keep_alive w p n fut
          (continue (recv_connack lib fresh r c) (check_connack lib fresh w))
  unfolding recv_connack close_new await_close ◌>>=◌
  received_ends keep_alive w p n fut c (ok bs) got same opened next =
      elim (Bool-cases (bytes_eq (take 4 bs) connack_ok)) [
        | inl good ↦ rw good (
            join_ends keep_alive w p n fut c bs got ((bytes_eq_iff (take 4 bs) connack_ok).0 good)
              opened next)
        | inr bad ↦ elim (Result-cases (lib.pipe_close c.sent)) [
          | inl (x, e) ↦ rw bad (rw e (refused x _ (inl same) (omega (arith, opened))))
          | inr (u, e) ↦
              rw bad (rw e (refused connection_error _ (inl same) (omega (arith, opened))))
        ]
      ]
  received_ends keep_alive w p n fut c (raised x) got same opened next = elim (timeout_or_other x) [
    | inl e ↦ elim (Result-cases (lib.pipe_close c.sent)) [
      | inl (y, raises) ↦ rw e (rw raises (refused y _ (inl same) (omega (arith, opened))))
      | inr (u, closes) ↦
          rw e (rw closes (refused connection_error _ (inl same) (omega (arith, opened))))
    ]
    | inr ne ↦ rw (recv_connack_other x c ne) (leaked x c same opened (receiving got ne))
  ]

  -- The handshake of a client with the pipe `p`, on a pipe that is opened besides `n` others.
  handshake_ends :
      (keep_alive : ℕ) (w : Attempt) (p : Option Bool) (n fut : ℕ) (c : Client)
      → c.pipe ≡ p
      → c.open_pipes ≡ n + 1
      → c.next_future ≡ fut
      → Ends keep_alive w p n fut (handshake lib fresh keep_alive w c)
  unfolding handshake ◌>>=◌ send_new
  handshake_ends keep_alive w p n fut c same opened next =
      elim (Result-cases (build_connect lib (or_rand c.client_id []) keep_alive)) [
        | inl (x, e) ↦ rw e (leaked x c same opened (building _ e))
        | inr (buf, e) ↦ elim (Result-cases (lib.pipe_send c.sent buf)) [
          | inl (x, s) ↦ rw e (rw s (leaked x _ same opened (sending _ _ s)))
          | inr (u, s) ↦ rw e (
              rw s (
                received_ends keep_alive w p n fut (record c { sent = c.sent ++ (buf ∷ []) })
                  w.connack refl same opened next))
        ]
      ]

  open_pipe_ends :
      (keep_alive : ℕ) (w : Attempt) (c : Client) (served : Bool) (tcp : Result Bool)
      → Ends keep_alive w c.pipe c.open_pipes c.next_future
          (open_pipe lib fresh keep_alive w served tcp c)
  unfolding ◌>>=◌ throw
  open_pipe_ends keep_alive w c false tcp = refused value_error c (inl refl) refl
  open_pipe_ends keep_alive w c true (raised x) = refused x _ (inl refl) refl
  open_pipe_ends keep_alive w c true (ok false) = refused connection_error _ (inl refl) refl
  open_pipe_ends keep_alive w c true (ok true) =
      handshake_ends keep_alive w c.pipe c.open_pipes c.next_future _ refl refl refl

  -- On every branch of mqtt_connect. It returns only after the broker's CONNACK was the one of
  -- success and the future of this call's SUBSCRIBE was resolved by a SUBACK without a return code
  -- other than 1 (it may have none); the client then has the new pipe, whose on_close is not set, and
  -- was not told to close. If it raises, the pipe that it opened, if any, was told to close and the
  -- client has its old pipe or none, or else the pipe was not told to close and the client does not have
  -- it: then the CONNECT could not be built or sent, or the wait for the CONNACK ended with an exception
  -- that is not its timeout.
  pub mqtt_connect_ends :
      (keep_alive : ℕ) (w : Attempt) (c : Client)
      → Ends keep_alive w c.pipe c.open_pipes c.next_future (mqtt_connect lib fresh keep_alive w c)
  unfolding mqtt_connect
  mqtt_connect_ends keep_alive w c = open_pipe_ends keep_alive w c w.af_supported w.tcp
