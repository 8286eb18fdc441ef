-- ===== src/Examples.antt =====
-- The theorems at concrete inputs, and runs of the code. This file has the stand-ins for what the
-- repository does not hold.
mod Wire
mod Packets
mod Clients
mod Proto
mod Dispatch
mod Exchange
mod Network
mod Routing
mod Experiments
mod Pipe
use sidewire.Prelude.{
  ℕ, zero, suc, ◌+◌, ◌*◌, ◌%◌, ◌≡◌, refl, Bool, true, false, Option, none, some, List, [], ◌∷◌,
  ◌++◌, take, length, bytes_eq, bytes_eq_iff, if◌then◌else◌,
}
use sidewire.Prelude.Results.{ok, raised, bad_signature_error, Result}
use sidewire.Aionetiface.{Aionetiface, Bytes, Str, Text, str, bytes}
use sidewire.AppPacket.{KeyPair}
use sidewire.AppPacket.RoundTrip.{IsKeyPair}
use sidewire.Client.{Client, pending}

abbrev pub replicate : ℕ → ℕ → List ℕ
replicate zero x = []
replicate (suc n) x = x ∷ replicate n x

-- Texts are ASCII, so the conversions between str and bytes keep the numbers.
abbrev pub plain : Text → List ℕ
plain (str s) = s
plain (bytes b) = b

-- A signature that depends on the length of the message, and its check.
abbrev pub toy_sign : Bytes → Bytes → Bytes
toy_sign key m = replicate 64 (length m % 256)

abbrev pub toy_verify : Bytes → Bytes → Bytes → Result (Unit {0})
toy_verify key sig m = if bytes_eq sig (toy_sign key m) then ok tt else raised bad_signature_error

abbrev pub toy : Aionetiface
toy = record {
  to_b = plain;
  to_s = plain;
  h_to_b = λ s. ok (take 32 s);
  to_h = λ b. b ++ b;
  to_hs = λ b. b ++ b;
  is_ascii = λ s. true;
  sha256_hex = λ b. b;
  sign = toy_sign;
  verify = toy_verify;
  sign_async = toy_sign;
  verify_async = toy_verify;
  clock = λ n. 1_700_000_000_000_000 + n;
  pipe_send = λ before buf. ok tt;
  pipe_close = λ before. ok tt;
  cancel_task = λ task. ok tt;
}

abbrev pub alice : KeyPair
alice = record {
  private_key = 1 ∷ [];
  compact_public_key = replicate 33 2;
  public_key_hex = replicate 66 b'2';
}

pub toy_verifies : (m : Bytes) → toy_verify (replicate 33 2) (toy_sign (1 ∷ []) m) m ≡ ok tt
toy_verifies m = rw ((bytes_eq_iff (toy_sign (1 ∷ []) m) (toy_sign (1 ∷ []) m)).1 refl)

pub alice-IsKeyPair : IsKeyPair toy alice
alice-IsKeyPair = record { key_length = refl; sig_length = λ m. refl; verifies = toy_verifies }

-- A client as MQTTClient.__init__ makes it, with one message handler.
abbrev pub new_client : Client
new_client = record {
  af = 2;
  host = b'm' ∷ b'q' ∷ [];
  port = 1883;
  client_id = none;
  kp = alice;
  futures = λ i. pending;
  next_future = 0;
  msg_queues = record { of_msg = []; of_msgack = []; of_probe = [] };
  sent_msg_ids = [];
  recv_msg_ids = [];
  subacks = [];
  pubacks = [];
  packet_id = 0;
  pipe = none;
  sent = [];
  buf = [];
  is_closed = false;
  dispatcher_task = none;
  last_connect = none;
  open_pipes = 0;
  republish_duration = 0;
  last_send = none;
  msg_handlers = 1 ∷ [];
  delivered = [];
  ticks = 0;
}

-- The client as connected, for 60 seconds of republishing.
abbrev pub connected : Client
connected = record new_client { pipe = some false; open_pipes = 1; republish_duration = 60 }
