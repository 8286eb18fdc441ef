-- ===== src/Connection.antt =====
-- Opening and closing the connection to a broker: src/sidewire/mqtt/mqtt_connect.py, and connect,
-- close and __init__ of MQTTClient (mqtt_client.py).
pub mod Reference
pub mod Handshake
pub mod Reconnect
pub mod Opened
pub mod Shut
use sidewire.Prelude.{
  ℕ, zero, suc, ◌+◌, ◌-◌, ◌*◌, ◌^◌, min, max, Bool, true, false, Option, none, some, List, [], ◌∷◌,
  ◌++◌, if◌then◌else◌, ◌==◌, take, bytes_eq,
}
use sidewire.Prelude.Results.{
  Exn, value_error, type_error, os_error, connection_error, timeout_error, cancelled_error, Result,
  ok, raised,
}
use sidewire.Prelude.Action.{Action, pure, throw, lift, gets, modify, try_except, ◌>>=◌, ◌>>◌}
use sidewire.Aionetiface.{Aionetiface, Bytes, Str, Text, str}
use sidewire.AppPacket.{KeyPair}
use sidewire.Wire.Msgs.{build_connect, build_disconnect}
use sidewire.Client.{
  Client, Future, pending, result, cancelled, Answer, yes_ack, codes, done, set_future, pipe_send,
  async_wrap_errors, pipe_open,
}
use sidewire.Client.PacketIds.{reset_session_state}
use sidewire.Client.Sending.{subscribe}
use sidewire.Proto.{on_chunk}

-- MQTTClient.__init__
unfoldable pub init : ℕ → Str → ℕ → KeyPair → Client
init af host port kp = record {
  af = af;
  host = host;
  port = port;
  client_id = none;
  kp = kp;
  futures = λ i. pending;
  next_future = 0;
  msg_queues = record { of_msg = []; of_msgack = []; of_probe = [] };
  sent_msg_ids = [];
  recv_msg_ids = [];
  subacks = [];
  pubacks = [];
  packet_id = 0;
  pipe = none;
  sent = [];
  buf = [];
  is_closed = false;
  dispatcher_task = none;
  last_connect = none;
  open_pipes = 0;
  republish_duration = 0;
  last_send = none;
  msg_handlers = [];
  delivered = [];
  ticks = 0;
}

-- What cancels a call of MQTTClient.connect, if anything does: its own timeout, that of the wait_for
-- that awaits it, or another task.
pub data Canceller : Type 0 where
  own_timeout callers_timeout another_task : Canceller

-- What the network and the broker do in one call of mqtt_connect.
pub record Attempt : Type 0 where
  -- self.af in self.nic.supported()
  pub af_supported : Bool
  -- whether Pipe(…).connect() gives a pipe
  pub tcp : Result Bool
  -- rand_plain(15)
  pub rand_plain : Str
  -- what pipe.recv_n(4) gives within its four seconds
  pub connack : Result Bytes
  -- the chunks that come before the wait for the SUBACK is over, and what ends this wait otherwise:
  -- its own timeout, or that of the caller, which cancels the call
  pub chunks : List Bytes
  pub late : Exn
  -- where a CancelledError of the call comes from
  pub canceller : Canceller

-- b" \x02\x00\x00"
abbrev pub connack_ok : Bytes
connack_ok = 0x20 ∷ 0x02 ∷ 0 ∷ 0 ∷ []

-- A pipe that was opened is told to close.
abbrev pub one_closed : Client → Client
one_closed c = record c { open_pipes = c.open_pipes - 1 }

-- `for code in return_codes: if code != 1: raise ConnectionError`
unfoldable pub check_codes : Bytes → Result (Unit {0})
check_codes [] = ok tt
check_codes (code ∷ rest) = if code == 1 then check_codes rest else raised connection_error

-- `self.client_id or rand_plain(15)`
abbrev pub or_rand : Option Str → Str → Str
or_rand none fresh = fresh
or_rand (some []) fresh = fresh
or_rand (some (ch ∷ s)) fresh = ch ∷ s

-- What awaiting a future with a timeout gives; a future that is still pending is cancelled.
unfoldable pub wait_result : Exn → ℕ → Action Client Bytes
unfolding set_future
wait_result late i c = elim (c.futures i) [
  | pending ↦ (raised late, set_future i cancelled c)
  | cancelled ↦ (raised cancelled_error, c)
  | result a ↦ (elim a [ codes bs ↦ ok bs | yes_ack ↦ raised type_error ], c)
]

-- `except BaseException: cleanup; raise`
abbrev pub clean_up : {A : Type 0} → (Client → Client) → Result A × Client → Result A × Client
clean_up f (ok a, c) = (ok a, c)
clean_up f (raised x, c) = (raised x, f c)

-- except (asyncio.TimeoutError, ConnectionError, OSError)
unfoldable pub retries : Exn → Bool
retries timeout_error = true
retries connection_error = true
retries os_error = true
retries _ = false

-- One turn of reconnect_loop in the world: a call of mqtt_connect, and whether the client was
-- closed by another task before the next turn.
pub record Round : Type 0 where
  pub attempt : Attempt
  pub closes : Bool

-- How the loop stands when the turns that are looked at are over.
pub data Loop : Type 0 where
  -- `return` because a pipe is there, `return True`, or is_closed is set
  returned : Loop
  -- an exception that the loop does not catch
  escaped : Exn → Loop
  running : Loop

unfoldable pub after_round : Bool → Client → Client
after_round closes c = record c { is_closed = if closes then true else c.is_closed }

-- The bound of the pause after a turn, in seconds: min(2**attempts, 60).
unfoldable pub reconnect_cap : ℕ → ℕ
reconnect_cap attempts = min (2 ^ attempts) 60

module _ (lib : Aionetiface) (fresh : Bytes) where
  -- pipe.close()
  unfoldable pub await_close : Action Client (Unit {0})
  await_close c = (lib.pipe_close c.sent, c)

  -- client.pipe.close(), if there is a pipe
  unfoldable pub close_old : Action Client (Unit {0})
  unfolding await_close
  close_old c = elim c.pipe [
    | none ↦ (ok tt, c)
    | some closed ↦ (do await_close; modify (λ (c : Client). record c { pipe = some true })) c
  ]

  -- close() of the pipe that was just opened
  unfoldable pub close_new : Action Client (Unit {0})
  unfolding await_close
  close_new = do modify one_closed; await_close

  -- pipe.send(buf) on the pipe that was just opened
  unfoldable pub send_new : Bytes → Action Client (Unit {0})
  send_new buf c = (lib.pipe_send c.sent buf, record c { sent = c.sent ++ (buf ∷ []) })

  -- asyncio.wait_for(future, timeout=4), during which chunks of the stream are handled
  unfoldable pub wait_future : Exn → ℕ → List Bytes → Action Client Bytes
  unfolding wait_result done
  wait_future late i [] c = wait_result late i c
  wait_future late i (chunk ∷ chunks) c = elim (done (c.futures i)) [
    | true ↦ wait_result late i c
    | false ↦ wait_future late i chunks (on_chunk lib fresh chunk c).1
  ]

  unfoldable pub subscribe_to_identity : List Bytes → Exn → Action Client (Unit {0})
  unfolding send_new wait_future check_codes
  subscribe_to_identity chunks late = do
    kp ← gets (λ c. c.kp)
    (buf, packet_ack_future) ← subscribe lib (str (lib.to_hs kp.compact_public_key))
    send_new buf
    return_codes ← wait_future late packet_ack_future chunks
    lift (check_codes return_codes)

  -- asyncio.wait_for(pipe.recv_n(4), timeout=4): only a timeout closes the pipe here.
  unfoldable pub recv_connack : Result Bytes → Action Client Bytes
  recv_connack (ok bs) = pure bs
  recv_connack (raised timeout_error) = do close_new; throw connection_error
  recv_connack (raised x) = throw x

  -- `self.pipe = pipe`, and the subscription under `except BaseException`. What the close of the pipe
  -- raises there is dropped.
  unfoldable pub join : List Bytes → Exn → Action Client (Unit {0})
  unfolding subscribe_to_identity
  join chunks late c =
      clean_up (λ c. record c { pipe = none; open_pipes = c.open_pipes - 1 })
        (subscribe_to_identity chunks late (record c { pipe = some false }))

  -- `if connack != …: close and raise`, and what follows
  abbrev check_connack : Attempt → Bytes → Action Client (Unit {0})
  check_connack w connack_raw =
      if bytes_eq (take 4 connack_raw) connack_ok
      then join w.chunks w.late
      else (do close_new; throw connection_error)

  -- The handshake on the pipe that was just opened.
  unfoldable pub handshake : ℕ → Attempt → Action Client (Unit {0})
  unfolding send_new recv_connack close_new join
  handshake keep_alive w = do
    client_id ← gets (λ c. or_rand c.client_id [])
    connect_buf ← lift (build_connect lib client_id keep_alive)
    send_new connect_buf
    connack_raw ← recv_connack w.connack
    check_connack w connack_raw

  abbrev shake_hands : ℕ → Attempt → Bool → Action Client (Unit {0})
  shake_hands keep_alive w false = throw connection_error
  shake_hands keep_alive w true = do
    modify (λ c. record c { open_pipes = c.open_pipes + 1 })
    handshake keep_alive w

  abbrev open_pipe : ℕ → Attempt → Bool → Result Bool → Action Client (Unit {0})
  open_pipe keep_alive w false tcp = throw value_error
  open_pipe keep_alive w true tcp = do
    modify (λ c. record c { client_id = some (or_rand c.client_id w.rand_plain) })
    pipe ← lift tcp
    shake_hands keep_alive w pipe

  -- MQTT_PIPELINE_HANDSHAKE is False.
  unfoldable pub mqtt_connect : ℕ → Attempt → Action Client (Unit {0})
  unfolding handshake
  mqtt_connect keep_alive w = open_pipe keep_alive w w.af_supported w.tcp

  -- The pauses come first in the result. `again` is the rest of the loop.
  abbrev after_connect :
      (Client → (List ℕ × Loop) × Client) → Result (Unit {0}) × Client → (List ℕ × Loop) × Client
  after_connect again (ok u, c) = (([], returned), c)
  after_connect again (raised x, c) = elim (retries x) [
    | true ↦ again c
    | false ↦ (([], escaped x), c)
  ]

  -- What client.pipe.close() raises is not caught in the loop.
  abbrev pub after_close :
      (Client → (List ℕ × Loop) × Client) → Result (Unit {0}) × Client → (List ℕ × Loop) × Client
  after_close again (ok u, c) = again c
  after_close again (raised x, c) = (([], escaped x), c)

  abbrev paused : ℕ → (List ℕ × Loop) × Client → (List ℕ × Loop) × Client
  paused delay ((delays, loop), c) = ((delay ∷ delays, loop), c)

  -- `uniform k` is random.uniform(0, _) at the k-th pause.
  unfoldable pub reconnect_loop :
      ℕ → (ℕ → ℕ → ℕ) → ℕ → List Round → Client → (List ℕ × Loop) × Client
  unfolding close_old after_round reconnect_cap mqtt_connect retries
  reconnect_loop keep_alive uniform attempts [] c = (([], running), c)
  reconnect_loop keep_alive uniform attempts (r ∷ rs) c =
      let again : Client → (List ℕ × Loop) × Client = λ c'.
        paused (uniform attempts (reconnect_cap attempts))
          (reconnect_loop keep_alive uniform (attempts + 1) rs (after_round r.closes c')) in
      elim c.is_closed [
        | true ↦ (([], returned), c)
        | false ↦ elim (pipe_open c.pipe) [
          | true ↦ (([], returned), c)
          | false ↦
              after_close
                (λ c'.
                  after_connect again (mqtt_connect keep_alive r.attempt (reset_session_state c')))
                (close_old c)
        ]
      ]

  -- MQTTClient.connect. A CancelledError of mqtt_connect is a TimeoutError of its wait_for, if the
  -- timeout of this wait_for has cancelled it.
  unfoldable pub time_out : Result (Unit {0}) → Canceller → Result (Unit {0})
  time_out (raised cancelled_error) own_timeout = raised timeout_error
  time_out r by = r

  abbrev pub wait_for : Canceller → Action Client (Unit {0}) → Action Client (Unit {0})
  wait_for by m c = let r = m c in (time_out r.0 by, r.1)

  -- except asyncio.TimeoutError
  unfoldable pub is_timeout : Exn → Bool
  is_timeout timeout_error = true
  is_timeout _ = false

  abbrev pub begin : ℕ → ℕ → Attempt → Action Client (Option Bool)
  begin republish_duration keep_alive w = do
    modify (λ c. record c { republish_duration = max republish_duration (2 * keep_alive) })
    try_except is_timeout (wait_for w.canceller (mqtt_connect keep_alive w))
        (throw connection_error)
    pipe ← gets (λ c. c.pipe)
    modify (λ c. record c {
      dispatcher_task = elim c.dispatcher_task [ none ↦ some false | some b ↦ some b ];
    })
    pure pipe

  -- The re-entry guard.
  abbrev pub connect_by : Option Bool → ℕ → ℕ → Attempt → Action Client (Option Bool)
  connect_by none republish_duration keep_alive w c = begin republish_duration keep_alive w c
  connect_by (some true) republish_duration keep_alive w c = begin republish_duration keep_alive w c
  connect_by (some false) republish_duration keep_alive w c = (ok c.pipe, c)

  unfoldable pub connect : ℕ → ℕ → Attempt → Action Client (Option Bool)
  unfolding mqtt_connect time_out is_timeout
  connect republish_duration keep_alive w c =
      connect_by c.dispatcher_task republish_duration keep_alive w c

  -- What close does with the pipe. What the send of DISCONNECT raises is dropped.
  abbrev pub disconnect : Option Bool → Action Client (Unit {0})
  disconnect none = pure tt
  disconnect (some closed) = do
    modify (λ (c : Client). (async_wrap_errors lib (pipe_send lib build_disconnect) c).1)
    await_close
    modify (λ (c : Client). record c { pipe = none })

  unfoldable pub shut_down : Action Client (Unit {0})
  unfolding pipe_send async_wrap_errors await_close
  shut_down = do
    task ← gets (λ (c : Client). c.dispatcher_task)
    lift (lib.cancel_task task)
    modify (λ (c : Client). record c { dispatcher_task = none })
    pipe ← gets (λ (c : Client). c.pipe)
    disconnect pipe

  unfoldable pub close : Action Client (Unit {0})
  unfolding shut_down
  close c = if c.is_closed then (ok tt, c) else shut_down (record c { is_closed = true })
