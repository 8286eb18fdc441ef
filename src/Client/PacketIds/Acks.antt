-- ===== src/Client/PacketIds/Acks.antt =====
-- handle_broker_ack: the acknowledgement of a packet by the broker.
pub mod Issued
use sidewire.Prelude.{
  ℕ, ◌≡◌, ◌≢◌, refl, sym, ap, subst, ◌∙◌, ◌⊎◌, inl, inr, Bool, true, false, Option, none, some,
  List, ◌++◌, take, drop, take-append_at, bytes_eq, bytes_eq_iff, if◌then◌else◌, Bool-cases,
  Option-cases, ◌==◌, text_eq, arith, length, append_assoc,
}
use sidewire.Prelude.Results.{Result, ok, raised}
use sidewire.Prelude.Action.{◌>>=◌}
use sidewire.Prelude.Dict.{Dict, get, put, del, has, get-put, get-del, get-put_self}
use sidewire.Aionetiface.{Bytes}
use sidewire.Wire.Struct.{pack, pack_lem}
use sidewire.Client.{
  Client, AckKind, suback, puback, ids_of, set_ids, Future, pending, result, done, set_future,
  new_future,
}
use sidewire.Client.PacketIds.{
  in_flight, answer, get_packet_id, packet_ack_future, handle_broker_ack,
}
use sidewire.Client.PacketIds.Fresh.{Found, get_packet_id_sound}

ids_of-set_ids :
    (kind : AckKind) (d : Dict Bytes ℕ) (c : Client) → ids_of kind (set_ids kind d c) ≡ d
unfolding ids_of set_ids
ids_of-set_ids suback d c = refl
ids_of-set_ids puback d c = refl

futures-set_ids :
    (kind : AckKind) (d : Dict Bytes ℕ) (c : Client) → (set_ids kind d c).futures ≡ c.futures
unfolding set_ids
futures-set_ids suback d c = refl
futures-set_ids puback d c = refl

ids_of-set_future :
    (kind : AckKind) (i : ℕ) (f : Future) (c : Client)
    → ids_of kind (set_future i f c) ≡ ids_of kind c
unfolding ids_of set_future
ids_of-set_future suback i f c = refl
ids_of-set_future puback i f c = refl

-- What handle_broker_ack does with an identifier that awaits an acknowledgement.
acked : AckKind → Bytes → ℕ → Client → Client
acked kind body i c =
    let c' : Client = set_future i (result (answer kind body)) c in
    set_ids kind (del (take 2 body) (ids_of kind c')) c'

data Outcome (kind : AckKind) (body : Bytes) (c : Client) : Client → Type 0 where
  unknown : get (take 2 body) (ids_of kind c) ≡ none → Outcome kind body c c
  settled :
      (i : ℕ)
      → get (take 2 body) (ids_of kind c) ≡ some i
      → done (c.futures i) ≡ true
      → Outcome kind body c c
  awaited :
      (i : ℕ)
      → get (take 2 body) (ids_of kind c) ≡ some i
      → done (c.futures i) ≡ false
      → Outcome kind body c (acked kind body i c)

handle_broker_ack_cases :
    (kind : AckKind) (body : Bytes) (c : Client)
    → Outcome kind body c (handle_broker_ack kind body c)
unfolding handle_broker_ack acked
handle_broker_ack_cases kind body c = elim (Option-cases (get (take 2 body) (ids_of kind c))) [
  | inl e ↦ rw (e, handle_broker_ack) (unknown e)
  | inr (i, e) ↦ elim (Bool-cases (done (c.futures i))) [
    | inl old ↦ rw (e, handle_broker_ack) (rw old (settled i e old))
    | inr new ↦ rw (e, handle_broker_ack) (rw new (unfold acked in awaited i e new))
  ]
]

unknown_same :
    (kind : AckKind) (body : Bytes) (c : Client)
    → get (take 2 body) (ids_of kind c) ≡ none
    → handle_broker_ack kind body c ≡ c
unfolding handle_broker_ack
unknown_same kind body c e = rw (e, handle_broker_ack) refl

settled_same :
    (kind : AckKind) (body : Bytes) (c : Client) (i : ℕ)
    → get (take 2 body) (ids_of kind c) ≡ some i
    → done (c.futures i) ≡ true
    → handle_broker_ack kind body c ≡ c
unfolding handle_broker_ack
settled_same kind body c i e h = rw (e, handle_broker_ack) (rw h refl)

ids_of-acked :
    (kind : AckKind) (body : Bytes) (i : ℕ) (c : Client)
    → ids_of kind (acked kind body i c) ≡ del (take 2 body) (ids_of kind c)
unfolding acked
ids_of-acked kind body i c =
    let c' : Client = set_future i (result (answer kind body)) c in
    ids_of-set_ids kind (del (take 2 body) (ids_of kind c')) c'
    ∙ ap (del (take 2 body)) (ids_of-set_future kind i (result (answer kind body)) c)

again_same :
    (kind : AckKind) (body : Bytes) (c c' : Client)
    → Outcome kind body c c'
    → handle_broker_ack kind body c' ≡ c'
again_same kind body c _ (unknown e) = unknown_same kind body c e
again_same kind body c _ (settled i e h) = settled_same kind body c i e h
again_same kind body c _ (awaited i e h) = unknown_same kind body (acked kind body i c) (
    rw (ids_of-acked kind body i c) (
      ground (
        arith,
        get-del (take 2 body) (take 2 body) (ids_of kind c),
        bytes_eq_iff (take 2 body) (take 2 body),
      )))

-- An acknowledgement that the broker repeats changes nothing.
handle_broker_ack_once :
    (kind : AckKind) (body : Bytes) (c : Client)
    → handle_broker_ack kind body (handle_broker_ack kind body c) ≡ handle_broker_ack kind body c
handle_broker_ack_once kind body c =
    again_same kind body c (handle_broker_ack kind body c) (handle_broker_ack_cases kind body c)
