-- ===== src/Connection/Opened.antt =====
-- MQTTClient.connect: how it ends, and what becomes of the dispatcher.
use sidewire.Prelude.{
  ℕ, ◌+◌, ◌≡◌, ◌≢◌, refl, ap, ◌∙◌, ◌⊎◌, inl, Bool, true, false, Option, none, some, List, max, ◌-◌,
  ◌*◌, take, bytes_eq,
}
use sidewire.Prelude.Results.{
  Exn, connection_error, timeout_error, cancelled_error, Result, ok, raised,
}
use sidewire.Prelude.Action.{Action, catch, continue, throw, pure, gets, modify, ◌>>=◌, ◌>>◌}
use sidewire.Prelude.Frame.{
  Leaves, Leaves-throw, Leaves-lift, Leaves-gets, Leaves-if, Leaves-modify, Leaves-bind,
  Leaves-pure,
}
use sidewire.Aionetiface.{Aionetiface, Bytes}
use sidewire.Client.{Client}
use sidewire.Proto.Link.{Link, link}
use sidewire.Connection.{
  Attempt, Canceller, own_timeout, connack_ok, is_timeout, time_out, close_new, await_close,
  clean_up, send_new, subscribe_to_identity, recv_connack, join, handshake, shake_hands, open_pipe,
  mqtt_connect, begin, connect_by, connect,
}
use sidewire.Connection.Handshake.{
  Granted, Ends, connected, refused, leaked, identity-link, mqtt_connect_ends,
}

abbrev task : Client → Option Bool
task c = c.dispatcher_task

module _ (lib : Aionetiface) (fresh : Bytes) where
  send_new-task : (buf : Bytes) → Leaves task (send_new lib fresh buf)
  unfolding send_new
  send_new-task buf = record { at = λ s. refl }

  close_new-task : Leaves task (close_new lib fresh)
  unfolding close_new await_close
  close_new-task = Leaves-bind _ _ (Leaves-modify _ (λ c. refl)) λ u. record { at = λ s. refl }

  recv_connack-task : (r : Result Bytes) → Leaves task (recv_connack lib fresh r)
  unfolding recv_connack
  recv_connack-task (ok bs) = Leaves-pure bs
  recv_connack-task (raised timeout_error) = Leaves-bind _ _ close_new-task λ u. Leaves-throw _
  recv_connack-task (raised x) = Leaves-throw _

  join-task : (chunks : List Bytes) (late : Exn) → Leaves task (join lib fresh chunks late)
  unfolding join link
  join-task chunks late = record {
    at = λ c.
        let c' : Client = record c { pipe = some false } in
        cleaned (subscribe_to_identity lib fresh chunks late c')
        ∙ ap (λ (l : Link). l.dispatcher_task) ((identity-link lib fresh chunks late).at c');
  }
    where
      cleaned :
          (r : Result (Unit {0}) × Client)
          → task (clean_up (λ c. record c { pipe = none; open_pipes = c.open_pipes - 1 }) r).1
            ≡ task r.1
      cleaned (ok u, c) = refl
      cleaned (raised x, c) = refl

  mqtt_connect-task :
      (keep_alive : ℕ) (w : Attempt) → Leaves task (mqtt_connect lib fresh keep_alive w)
  unfolding mqtt_connect handshake
  mqtt_connect-task keep_alive w = opens w.af_supported
    where
      shakes : Leaves task (handshake lib fresh keep_alive w)
      shakes = Leaves-bind _ _ (Leaves-gets _) λ id. Leaves-bind _ _ (Leaves-lift _) λ buf.
          Leaves-bind _ _ (send_new-task buf) λ u.
            Leaves-bind _ _ (recv_connack-task w.connack) λ raw.
              Leaves-if (bytes_eq (take 4 raw) connack_ok) _ _ (join-task w.chunks w.late)
                (Leaves-bind _ _ close_new-task λ u'. Leaves-throw _)

      shakes_by : (pipe : Bool) → Leaves task (shake_hands lib fresh keep_alive w pipe)
      shakes_by false = Leaves-throw _
      shakes_by true = Leaves-bind _ _ (Leaves-modify _ (λ c. refl)) λ u. shakes

      opens : (served : Bool) → Leaves task (open_pipe lib fresh keep_alive w served w.tcp)
      opens false = Leaves-throw _
      opens true =
          Leaves-bind _ _ (Leaves-modify _ (λ c. refl))
            λ u. Leaves-bind _ _ (Leaves-lift w.tcp) shakes_by

  -- How connect ends.
  pub data Opened (w : Attempt) (c : Client) : Result (Option Bool) × Client → Type 0 where
    already : c.dispatcher_task ≡ some false → Opened w c (ok c.pipe, c)
    opened :
        (c' : Client)
        → c.dispatcher_task ≢ some false
        → Granted lib fresh c.next_future c'
        → c'.pipe ≡ some false
        → c'.open_pipes ≡ c.open_pipes + 1
        → (c.dispatcher_task ≡ none → c'.dispatcher_task ≡ some false)
        → (c.dispatcher_task ≡ some true → c'.dispatcher_task ≡ some true)
        → Opened w c (ok c'.pipe, c')
    failed :
        (x : Exn) (c' : Client)
        → c.dispatcher_task ≢ some false
        → x ≢ timeout_error
        → (x ≡ cancelled_error → w.canceller ≢ own_timeout)
        → c'.dispatcher_task ≡ c.dispatcher_task
        → (c'.pipe ≡ c.pipe) ⊎ (c'.pipe ≡ none)
        → Opened w c (raised x, c')

  -- What begin does behind mqtt_connect.
  start_dispatcher : Action Client (Option Bool)
  start_dispatcher = do
    pipe ← gets (λ (c : Client). c.pipe)
    modify (λ (c : Client). record c {
      dispatcher_task = elim c.dispatcher_task [ none ↦ some false | some b ↦ some b ];
    })
    pure pipe

  -- What begin does when its wait_for is over.
  after_wait : Canceller → Result (Unit {0}) × Client → Result (Option Bool) × Client
  after_wait by r =
      continue {A = Unit {0}}
        (catch (is_timeout lib fresh) (throw connection_error) (time_out lib fresh r.0 by, r.1))
        (λ u. start_dispatcher)

  module _ (w : Attempt) (c : Client) (idle : c.dispatcher_task ≢ some false) where
    by_kind :
        (by : Canceller) (x : Exn) (c' : Client)
        → w.canceller ≡ by
        → (c'.pipe ≡ c.pipe) ⊎ (c'.pipe ≡ none)
        → task c' ≡ task c
        → Opened w c (after_wait by (raised x, c'))
    unfolding start_dispatcher after_wait ◌>>=◌ is_timeout time_out throw
    by_kind by timeout_error c' e pipe same =
        failed connection_error c' idle (λ h. cc h) (λ h. absurd (cc h)) same pipe
    by_kind own_timeout cancelled_error c' e pipe same =
        failed connection_error c' idle (λ h. cc h) (λ h. absurd (cc h)) same pipe
    by_kind by cancelled_error c' e pipe same =
        failed cancelled_error c' idle (λ h. cc h) (λ h own. cc (own, e)) same pipe
    by_kind by x c' e pipe same = failed x c' idle (λ h. cc h) (λ h. absurd (cc h)) same pipe

    start_dispatcher-Opened :
        (keep_alive : ℕ) (r : Result (Unit {0}) × Client)
        → Ends lib fresh keep_alive w c.pipe c.open_pipes c.next_future r
        → task r.1 ≡ task c
        → Opened w c (after_wait w.canceller r)
    unfolding start_dispatcher after_wait ◌>>=◌ is_timeout time_out
    start_dispatcher-Opened keep_alive _ (connected c' bs got good granted pipe opens) same =
        opened
          (record c' {
            dispatcher_task = elim c'.dispatcher_task [ none ↦ some false | some b ↦ some b ];
          })
          idle
          (record { grants = granted.grants; answered = granted.answered; ones = granted.ones })
          pipe opens (λ e. rw (same ∙ e) refl) (λ e. rw (same ∙ e) refl)
    start_dispatcher-Opened keep_alive _ (refused x c' pipe opens) same =
        by_kind w.canceller x c' refl pipe same
    start_dispatcher-Opened keep_alive _ (leaked x c' pipe opens leaks) same =
        by_kind w.canceller x c' refl (inl pipe) same

  -- On every branch of connect. A client with a live dispatcher is left alone, and its pipe returned.
  -- Otherwise connect returns only when the future of its SUBSCRIBE was resolved by a SUBACK without a
  -- return code other than 1, with the client's new open pipe; a client without a dispatcher then has a
  -- new one, but a dispatcher that is done stays. If it raises, the dispatcher is as it was, the pipe is
  -- the old one or none, and the exception is not TimeoutError; it is CancelledError only if something
  -- else than connect's own timeout cancels the call.
  pub connect_cases :
      (republish_duration keep_alive : ℕ) (w : Attempt) (c : Client)
      → Opened w c (connect lib fresh republish_duration keep_alive w c)
  unfolding connect ◌>>=◌ start_dispatcher after_wait time_out
  connect_cases n k w c = by_task c.dispatcher_task refl
    where
      c1 : Client
      c1 = record c { republish_duration = max n (2 * k) }

      begins : c.dispatcher_task ≢ some false → Opened w c (begin lib fresh n k w c)
      begins idle =
          start_dispatcher-Opened w c idle k (mqtt_connect lib fresh k w c1)
            (mqtt_connect_ends lib fresh k w c1) ((mqtt_connect-task k w).at c1)

      by_task :
          (o : Option Bool) → c.dispatcher_task ≡ o → Opened w c (connect_by lib fresh o n k w c)
      by_task none e = begins (λ live. cc (e, live))
      by_task (some true) e = begins (λ live. cc (e, live))
      by_task (some false) e = already e
