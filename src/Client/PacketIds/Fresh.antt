-- ===== src/Client/PacketIds/Fresh.antt =====
-- The identifier that get_packet_id returns is valid and unused, and one is found if one is free.
use sidewire.Prelude.{
  ℕ, zero, suc, ◌+◌, ◌-◌, ◌%◌, ◌≤◌, ◌≡◌, ◌≢◌, refl, sym, ap, ◌∙◌, inl, inr, true, false,
  if◌then◌else◌, Bool-cases, ltb, arith,
}
use sidewire.Prelude.Results.{Result, ok}
use sidewire.Aionetiface.{Bytes}
use sidewire.Wire.Struct.{pack, pack_lem}
use sidewire.Client.{Client}
use sidewire.Client.PacketIds.{in_flight, packet_id_loop, get_packet_id}

-- How many turns it takes the counter to come to `target`.
distance : ℕ → ℕ → ℕ
distance counter target = if ltb counter target then target - counter else target + 65535 - counter

next : Client → Client
next c = record c { packet_id = c.packet_id % 65535 + 1 }

-- A valid identifier that is not in flight: two bytes for a number that is not zero.
pub record IsFree (c : Client) (pid : Bytes) : Type 0 where
  pub number : ℕ
  pub valid : (1 ≤ number) × (number ≤ 65535)
  pub bytes_of : pack 2 number ≡ ok pid
  pub unused : in_flight pid c ≡ false

-- One turn of the loop: the counter's number is in flight, or it is the result.
data Turn (rounds : ℕ) (c : Client) : Type 0 where
  taken :
      (pid : Bytes)
      → pack 2 (next c).packet_id ≡ ok pid
      → in_flight pid c ≡ true
      → packet_id_loop (suc rounds) c ≡ packet_id_loop rounds (next c)
      → Turn rounds c
  free :
      (pid : Bytes)
      → pack 2 (next c).packet_id ≡ ok pid
      → in_flight pid c ≡ false
      → packet_id_loop (suc rounds) c ≡ (ok pid, next c)
      → Turn rounds c

next_range : (c : Client) → (1 ≤ (next c).packet_id) × ((next c).packet_id ≤ 65535)
unfolding next
next_range c = omega arith

turn : (rounds : ℕ) (c : Client) → Turn rounds c
unfolding packet_id_loop next
turn rounds c =
    let (pid, packed, size, small, back) =
      pack_lem 2 (next c).packet_id (omega (arith, next_range c)) in
    elim (Bool-cases (in_flight pid c)) [
      | inl used ↦ taken pid packed used (rw (packed, packet_id_loop) (rw used))
      | inr unused ↦ free pid packed unused (rw (packed, packet_id_loop) (rw unused))
    ]

in_flight-next : (pid : Bytes) (c : Client) → in_flight pid (next c) ≡ in_flight pid c
unfolding in_flight next
in_flight-next pid c = refl

-- What a successful search gives.
pub record Found (c : Client) (r : Result Bytes × Client) : Type 0 where
  pub pid : Bytes
  pub counter : ℕ
  pub returned : r ≡ (ok pid, record c { packet_id = counter })
  pub valid : (1 ≤ counter) × (counter ≤ 65535)
  pub bytes_of : pack 2 counter ≡ ok pid
  pub unused : in_flight pid c ≡ false

Found-next :
    (rounds : ℕ) (c : Client)
    → packet_id_loop (suc rounds) c ≡ packet_id_loop rounds (next c)
    → Found (next c) (packet_id_loop rounds (next c))
    → Found c (packet_id_loop (suc rounds) c)
Found-next rounds c e f = record {
  pid = f.pid;
  counter = f.counter;
  returned = unfold next in e ∙ f.returned;
  valid = f.valid;
  bytes_of = f.bytes_of;
  unused = sym (in_flight-next f.pid c) ∙ f.unused;
}

Found-here :
    (rounds : ℕ) (c : Client) (pid : Bytes)
    → pack 2 (next c).packet_id ≡ ok pid
    → in_flight pid c ≡ false
    → packet_id_loop (suc rounds) c ≡ (ok pid, next c)
    → Found c (packet_id_loop (suc rounds) c)
Found-here rounds c pid packed unused e = record {
  pid = pid;
  counter = (next c).packet_id;
  returned = unfold next in e;
  valid = next_range c;
  bytes_of = packed;
  unused = unused;
}

closer :
    (c : Client) (target : ℕ)
    → 1 ≤ target
    → target ≤ 65535
    → c.packet_id ≤ 65535
    → (next c).packet_id ≢ target
    → distance (next c).packet_id target + 1 ≡ distance c.packet_id target
unfolding distance next
closer c target lo hi fits ne = ground arith

loop_finds :
    (rounds target : ℕ) (c : Client) (pid : Bytes)
    → (1 ≤ target) × (target ≤ 65535)
    → pack 2 target ≡ ok pid
    → in_flight pid c ≡ false
    → c.packet_id ≤ 65535
    → distance c.packet_id target ≤ rounds
    → Found c (packet_id_loop rounds c)
loop_finds zero target c pid t hp hf fits h = absurd (unfold distance in ground arith)
loop_finds (suc rounds) target c pid t hp hf fits h = elim (turn rounds c) [
  | free pid' packed unused e ↦ Found-here rounds c pid' packed unused e
  | taken pid' packed used e ↦
      let other : (next c).packet_id ≢ target =
        λ same. absurd (cc (packed, hp, used, hf, ap (pack 2) same)) in
      Found-next rounds c e (
        loop_finds rounds target (next c) pid t hp (in_flight-next pid c ∙ hf) (next_range c).1
          (omega (arith, closer c target t.0 t.1 fits other)))
]

-- If any of the numbers 1 to 65535 is free, get_packet_id returns an identifier: two bytes for such a
-- number, which the counter then stands at, not in flight. Nothing but the counter changes.
pub get_packet_id_total :
    (c : Client) (pid : Bytes) → c.packet_id ≤ 65535 → IsFree c pid → Found c (get_packet_id c)
unfolding get_packet_id
get_packet_id_total c pid fits f =
    loop_finds 65535 f.number c pid f.valid f.bytes_of f.unused fits
      (unfold distance in ground (arith, f.valid))

loop_sound :
    (rounds : ℕ) (c c' : Client) (pid : Bytes)
    → packet_id_loop rounds c ≡ (ok pid, c')
    → Found c (packet_id_loop rounds c)
loop_sound zero c c' pid h = absurd (unfold packet_id_loop in cc h)
loop_sound (suc rounds) c c' pid h = elim (turn rounds c) [
  | free pid' packed unused e ↦ Found-here rounds c pid' packed unused e
  | taken pid' packed used e ↦ Found-next rounds c e (loop_sound rounds (next c) c' pid (sym e ∙ h))
]

-- An identifier that get_packet_id returns is always such a one.
pub get_packet_id_sound :
    (c c' : Client) (pid : Bytes) → get_packet_id c ≡ (ok pid, c') → Found c (get_packet_id c)
unfolding get_packet_id
get_packet_id_sound c c' pid h = loop_sound 65535 c c' pid h
