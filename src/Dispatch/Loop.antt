-- ===== src/Dispatch/Loop.antt =====
-- The loop of the dispatcher: dispatcher of src/sidewire/mqtt/mqtt_dispatch.py.
use sidewire.Prelude.{
  ℕ, ◌+◌, ◌≡◌, ◌≤◌, refl, ◌⊎◌, inl, inr, Bool, true, false, List, [], ◌∷◌, if◌then◌else◌, All,
}
use sidewire.Prelude.Results.{Exn, Result, ok, raised}
use sidewire.Aionetiface.{Aionetiface, Bytes}
use sidewire.Client.{Client}
use sidewire.Connection.{Round, Loop, after_round, retries, reconnect_loop}
use sidewire.Connection.Reconnect.{
  IsNetwork, IsOther, IsNetwork-or_IsOther, Settled, reconnect_loop_settled,
}
use sidewire.Dispatch.{dispatch_turn}

-- What the network does to reconnect_loop in one turn of the loop, the draws of random.uniform, and
-- whether another task closes the client before the next turn.
pub record Turn : Type 0 where
  pub rounds : List Round
  pub uniform : ℕ → ℕ → ℕ
  pub closes : Bool

-- random.uniform stays within its bound.
abbrev pub Bounded : Turn → Type 0
Bounded t = (k bound : ℕ) → t.uniform k bound ≤ bound

-- How the loop stands when the turns that are looked at are over. `reconnecting` is a turn whose
-- reconnect_loop is not over.
pub data Standing : Type 0 where
  returned reconnecting running : Standing
  escaped : Exn → Standing

module _ (lib : Aionetiface) (fresh : Bytes) (republish_duration interval keep_alive : ℕ)
    (ignore_acked : Bool) where
  -- The end of a turn: a failure of the network that the turn raises ends the loop with a log line.
  abbrev pub after_turn : (ℕ → Client → Standing × Client) → Result ℕ × Client → Standing × Client
  after_turn again (ok last_ping, c) = again last_ping c
  after_turn again (raised x, c) = if retries x then (returned, c) else (escaped x, c)

  -- What follows reconnect_loop; one that it raises out of is repeated if it is a failure of the network.
  abbrev pub after_reconnect :
      (ℕ → Client → Standing × Client)
      → (ℕ → ℕ → ℕ)
      → ℕ
      → (List ℕ × Loop) × Client
      → Standing × Client
  after_reconnect again uniform last_ping ((pauses, Loop.running), c) = (reconnecting, c)
  after_reconnect again uniform last_ping ((pauses, Loop.escaped x), c) =
      if retries x then again last_ping c else (escaped x, c)
  after_reconnect again uniform last_ping ((pauses, Loop.returned), c) =
      after_turn again
        (dispatch_turn lib uniform republish_duration interval keep_alive ignore_acked last_ping c)

  -- `while not client.is_closed.is_set()`
  abbrev pub unless_closed : Bool → Client → Standing × Client → Standing × Client
  unless_closed true c turn = (returned, c)
  unless_closed false c turn = turn

  unfoldable pub dispatcher_loop : List Turn → ℕ → Client → Standing × Client
  unfolding reconnect_loop dispatch_turn after_round retries
  dispatcher_loop [] last_ping c = (running, c)
  dispatcher_loop (t ∷ ts) last_ping c =
      let again : ℕ → Client → Standing × Client =
        λ lp c'. dispatcher_loop ts lp (after_round t.closes c') in
      unless_closed c.is_closed c (
        after_reconnect again t.uniform last_ping
          (reconnect_loop lib fresh keep_alive t.uniform 0 t.rounds c))

  -- dispatcher: the loop starts with the time as that of the last ping.
  unfoldable pub dispatcher : List Turn → Client → Standing × Client
  unfolding dispatcher_loop
  dispatcher turns c = dispatcher_loop turns (lib.clock c.ticks) (record c { ticks = c.ticks + 1 })

  -- The turn of a client whose reconnect_loop is over raises a failure of the network.
  pub record Failed (c : Client) : Type 0 where
    pub uniform : ℕ → ℕ → ℕ
    pub last_ping : ℕ
    pub before : Client
    pub error : Exn
    pub raises :
        dispatch_turn lib uniform republish_duration interval keep_alive ignore_acked last_ping
          before
        ≡ (raised error, c)
    pub network : IsNetwork error

  -- How the loop ends: it returns for a closed client, or because a turn failed; no failure of the
  -- network escapes from it.
  pub Sound : Standing × Client → Type 0
  Sound (returned, c) = (c.is_closed ≡ true) ⊎ Failed c
  Sound (escaped x, c) = IsOther x
  Sound (reconnecting, c) = Unit {0}
  Sound (running, c) = Unit {0}

  after_turn-Sound :
      (again : ℕ → Client → Standing × Client) (uniform : ℕ → ℕ → ℕ) (last_ping : ℕ)
      (before : Client) (r : Result ℕ × Client)
      → dispatch_turn lib uniform republish_duration interval keep_alive ignore_acked last_ping
          before
        ≡ r
      → ((lp : ℕ) (c : Client) → Sound (again lp c))
      → Sound (after_turn again r)
  unfolding Sound
  after_turn-Sound again uniform last_ping before (ok lp, c) e ih = ih lp c
  after_turn-Sound again uniform last_ping before (raised x, c) e ih =
      elim (IsNetwork-or_IsOther x) [
        | inl (caught, network) ↦ rw caught (
            inr (record {
              uniform = uniform;
              last_ping = last_ping;
              before = before;
              error = x;
              raises = e;
              network = network;
            }))
        | inr (uncaught, other) ↦ rw uncaught other
      ]

  after_reconnect-Sound :
      (again : ℕ → Client → Standing × Client) (uniform : ℕ → ℕ → ℕ) (last_ping : ℕ)
      (r : (List ℕ × Loop) × Client)
      → Settled lib r.0.1 r.1
      → ((lp : ℕ) (c : Client) → Sound (again lp c))
      → Sound (after_reconnect again uniform last_ping r)
  unfolding Sound Settled
  after_reconnect-Sound again uniform last_ping ((pauses, Loop.running), c) s ih = tt
  after_reconnect-Sound again uniform last_ping ((pauses, Loop.escaped x), c) s ih =
      elim (IsNetwork-or_IsOther x) [
        | inl (caught, network) ↦ rw caught (ih last_ping c)
        | inr (uncaught, other) ↦ rw uncaught other
      ]
  after_reconnect-Sound again uniform last_ping ((pauses, Loop.returned), c) s ih =
      after_turn-Sound again uniform last_ping c _ refl ih

  unless_closed-Sound :
      (b : Bool) (c : Client) (turn : Standing × Client)
      → c.is_closed ≡ b
      → Sound turn
      → Sound (unless_closed b c turn)
  unfolding Sound
  unless_closed-Sound true c turn e s = inl e
  unless_closed-Sound false c turn e s = s

  dispatcher_loop-Sound :
      (turns : List Turn) (last_ping : ℕ) (c : Client)
      → All Bounded turns
      → Sound (dispatcher_loop turns last_ping c)
  unfolding dispatcher_loop Sound
  dispatcher_loop-Sound [] last_ping c bounded = tt
  dispatcher_loop-Sound (t ∷ ts) last_ping c (bounded, all) =
      unless_closed-Sound c.is_closed c _ refl (
        after_reconnect-Sound _ t.uniform last_ping
          (reconnect_loop lib fresh keep_alive t.uniform 0 t.rounds c)
          (reconnect_loop_settled lib fresh keep_alive t.uniform 0 t.rounds c bounded).1
          λ lp c'. dispatcher_loop-Sound ts lp (after_round t.closes c') all)

  -- The dispatcher goes on until its client is closed, or a turn behind reconnect_loop raises OSError,
  -- ConnectionError or TimeoutError, which makes it return; none of these escapes from it, and one that
  -- reconnect_loop raises does not end it. This is with random.uniform within its bound.
  pub dispatcher-Sound :
      (turns : List Turn) (c : Client) → All Bounded turns → Sound (dispatcher turns c)
  unfolding dispatcher
  dispatcher-Sound turns c bounded =
      dispatcher_loop-Sound turns (lib.clock c.ticks) (record c { ticks = c.ticks + 1 }) bounded
