-- ===== src/Experiments/Session.antt =====
-- dec_varint and the class MQTT of experiments/mqtt_client.py, and the run at the end of that file.
use sidewire.Prelude.{
  ℕ, zero, suc, ◌+◌, ◌-◌, ◌*◌, ◌/◌, bit_and, Option, none, some, List, [], ◌∷◌, ◌++◌, if◌then◌else◌,
  ltb, ◌==◌, length, drop, slice,
}
use sidewire.Prelude.Results.{type_error, attribute_error, Result, ok, raised}
use sidewire.Prelude.Action.{Action}
use sidewire.Aionetiface.{Bytes, Str}
use sidewire.Wire.Struct.{pack, unpack}
use sidewire.Experiments.Codec.{enc_varint, enc_str}

-- Python's sockets and its UTF-8 codec. `recv` has the number of bytes that are asked for.
pub record Python (S : Type 0) : Type 0 where
  pub create_connection : Str → ℕ → Result S
  pub recv : ℕ → Action S Bytes
  pub sendall : Bytes → Action S (Unit {0})
  pub encode : Str → Result Bytes
  -- bytes.decode("utf-8", "ignore")
  pub decode_ignore : Bytes → Str

-- An object of class MQTT, and what was printed: the topics and messages.
pub record Mqtt (S : Type 0) : Type 0 where
  pub host : Str
  pub port : ℕ
  pub client_id : Str
  pub sock : Option S
  pub printed : List (Str × Str)

-- MQTT.__init__
abbrev pub new_mqtt : {S : Type 0} → Str → ℕ → Str → Mqtt S
new_mqtt host port client_id = record {
  host = host;
  port = port;
  client_id = client_id;
  sock = none;
  printed = [];
}

-- Code with loops: `none` where the fuel of a loop does not suffice.
abbrev pub Run : Type 0 → Type 0 → Type 0
Run S A = Mqtt S → Option (Result A × Mqtt S)

module _ {S A : Type 0} where
  unfoldable pub done : A → Run S A
  done a m = some (ok a, m)

  -- an expression that may raise
  unfoldable pub eval : Result A → Run S A
  eval r m = some (r, m)

  abbrev pub with_sock : Mqtt S → Result A × S → Option (Result A × Mqtt S)
  with_sock m (r, s) = some (r, record m { sock = some s })

  -- A method of self.sock, which is None before connect.
  unfoldable pub on_sock : Action S A → Run S A
  on_sock call m = elim m.sock [
    | none ↦ some (raised attribute_error, m)
    | some s ↦ with_sock m (call s)
  ]

module _ {S A B : Type 0} where
  abbrev pub after : Option (Result A × Mqtt S) → (A → Run S B) → Option (Result B × Mqtt S)
  after none f = none
  after (some (ok a, m)) f = f a m
  after (some (raised x, m)) f = some (raised x, m)

  infixl 10 ◌>>=◌ ◌>>◌
  -- To unfold this is to unfold the other ways to build a run, too.
  unfoldable pub ◌>>=◌ : Run S A → (A → Run S B) → Run S B
  unfolding done eval on_sock
  ◌>>=◌ m f o = after (m o) f

  abbrev pub ◌>>◌ : Run S A → Run S B → Run S B
  m >> n = m >>= λ _. n

-- ord(b) of a byte string that is not one byte long raises TypeError.
abbrev pub ord : Bytes → Result ℕ
ord [] = raised type_error
ord (b ∷ []) = ok b
ord (b ∷ c ∷ bs) = raised type_error

module _ {S : Type 0} (py : Python S) where
  -- `while True`: each turn reads a byte.
  unfoldable pub dec_loop : ℕ → ℕ → ℕ → Run S ℕ
  dec_loop zero mul val = λ m. none
  dec_loop (suc fuel) mul val = do
    bs ← on_sock (py.recv 1)
    b ← eval (ord bs)
    let val' = val + bit_and b 0x7f * mul
    let more = dec_loop fuel (mul * 128) val'
    if bit_and b 0x80 == 0 then done val' else more

  unfoldable pub dec_varint : ℕ → Run S ℕ
  unfolding dec_loop
  dec_varint fuel = dec_loop fuel 1 0

  -- while len(data) < rem_len: data += self.sock.recv(rem_len - len(data))
  unfoldable pub recv_rest : ℕ → ℕ → Bytes → Run S Bytes
  recv_rest zero rem_len received = λ m. none
  recv_rest (suc fuel) rem_len received =
      let more : Run S Bytes = (do
        bs ← on_sock (py.recv (rem_len - length received))
        recv_rest fuel rem_len (received ++ bs)) in
      if ltb (length received) rem_len then more else done received

  -- `MQTT`, level 4, clean session, 60 seconds
  unfoldable pub connect : Run S (Unit {0})
  connect m = elim (py.create_connection m.host m.port) [
    | raised x ↦ some (raised x, m)
    | ok s ↦ greet (record m { sock = some s })
  ]
    where
      greet : Run S (Unit {0})
      greet = do
        name ← eval (enc_str py.encode (b'M' ∷ b'Q' ∷ b'T' ∷ b'T' ∷ []))
        let vh = name ++ (0x04 ∷ 0x02 ∷ 0x00 ∷ 0x3c ∷ [])
        pl ← eval (enc_str py.encode m.client_id)
        let pkt = 0x10 ∷ (enc_varint (length vh + length pl) ++ (vh ++ pl))
        on_sock (py.sendall pkt)
        on_sock (py.recv 4)
        done tt

  unfoldable pub subscribe : Str → Run S (Unit {0})
  subscribe topic = do
    vh ← eval (pack 2 1)
    filter ← eval (enc_str py.encode topic)
    let pl = filter ++ (0x00 ∷ [])
    let pkt = 0x82 ∷ (enc_varint (length vh + length pl) ++ (vh ++ pl))
    on_sock (py.sendall pkt)
    on_sock (py.recv 5)
    done tt

  -- The packet that publish sends.
  unfoldable pub message_packet : Str → Str → Result Bytes
  message_packet topic payload = by_parts (enc_str py.encode topic) (py.encode payload)
    where
      by_parts : Result Bytes → Result Bytes → Result Bytes
      by_parts (raised x) p = raised x
      by_parts (ok t) (raised x) = raised x
      by_parts (ok t) (ok p) = let pl = t ++ p in ok (0x30 ∷ (enc_varint (length pl) ++ pl))

  unfoldable pub publish : Str → Str → Run S (Unit {0})
  unfolding message_packet
  publish topic payload = do pkt ← eval (message_packet topic payload); on_sock (py.sendall pkt)

  -- What a packet of type 3 prints.
  unfoldable pub print_publish : Bytes → Run S (Unit {0})
  print_publish received = do
    tlen ← eval (unpack 2 (slice 0 2 received))
    let topic = py.decode_ignore (slice 2 (2 + tlen) received)
    let msg = py.decode_ignore (drop (2 + tlen) received)
    λ m. some (ok tt, record m { printed = m.printed ++ ((topic, msg) ∷ []) })

  -- One packet, whose first byte is `first`.
  unfoldable pub read_packet : ℕ → ℕ → Run S (Unit {0})
  unfolding dec_varint recv_rest print_publish
  read_packet fuel first = do
    let pkt_type = first / 16
    rem_len ← dec_varint fuel
    received ← recv_rest fuel rem_len []
    if pkt_type == 3 then print_publish received else done tt

  abbrev on_header : (ℕ → Run S (Unit {0})) → Bytes → Run S (Unit {0})
  on_header serve [] = done tt
  on_header serve (b ∷ []) = serve b
  on_header serve (b ∷ c ∷ bs) = eval (raised type_error)

  -- `while True`, left when the stream ends. Each turn reads a byte at least.
  unfoldable pub loop : ℕ → Run S (Unit {0})
  unfolding read_packet
  loop zero = λ m. none
  loop (suc fuel) = do
    hdr ← on_sock (py.recv 1)
    on_header (λ b. do read_packet fuel b; loop fuel) hdr

  -- The run at the end of the file.
  unfoldable pub run : ℕ → Str → ℕ → Str → Str → Str → Option (Result (Unit {0}) × Mqtt S)
  unfolding connect subscribe publish loop
  run fuel host port client_id topic payload =
      (do connect; subscribe topic; publish topic payload; loop fuel) (new_mqtt host port client_id)
