-- ===== src/Aionetiface.antt =====
-- What the code calls and this repository does not hold: the conversions, hashes, signatures, clock
-- and pipe of the packages aionetiface and ecdsa. It is a parameter of the model.
use sidewire.Prelude.{ℕ, Bool, Option, List}
use sidewire.Prelude.Results.{Result}

-- A Python `bytes` value as its bytes, and a `str` as its code points.
abbrev pub Bytes : Type 0
Bytes = List ℕ

abbrev pub Str : Type 0
Str = List ℕ

-- A value that may be of either class; the code asks which by `isinstance`.
pub data Text : Type 0 where
  str : Str → Text
  bytes : Bytes → Text

pub record Aionetiface : Type 0 where
  pub to_b : Text → Bytes
  pub to_s : Text → Str
  pub h_to_b : Str → Result Bytes
  pub to_h : Bytes → Str
  pub to_hs : Bytes → Str
  pub is_ascii : Str → Bool
  -- hashlib.sha256(..).hexdigest(), and sha256_hex_async
  pub sha256_hex : Bytes → Str
  -- ECDSA: `sign private message`, some signature of those that are valid, and `verify public signature message`, which raises on refusal
  pub sign : Bytes → Bytes → Bytes
  pub verify : Bytes → Bytes → Bytes → Result (Unit {0})
  -- ecdsa_sign_async and ecdsa_verify_async, which run them on an executor
  pub sign_async : Bytes → Bytes → Bytes
  pub verify_async : Bytes → Bytes → Bytes → Result (Unit {0})
  -- what the n-th call of `client.get_time()` returns
  pub clock : ℕ → ℕ
  -- what `pipe.send` does, given what was sent before and what is sent now
  pub pipe_send : List Bytes → Bytes → Result (Unit {0})
  -- what `pipe.close` does after these bytes were sent; one that returns has set on_close
  pub pipe_close : List Bytes → Result (Unit {0})
  -- what `cancel_task` does to a task that is not there, runs, or is done
  pub cancel_task : Option Bool → Result (Unit {0})
