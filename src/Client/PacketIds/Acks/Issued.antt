-- ===== src/Client/PacketIds/Acks/Issued.antt =====
-- packet_ack_future, and the acknowledgement of the packet that it issued.
use sidewire.Prelude.{
  ℕ, ◌≡◌, ◌≢◌, refl, sym, ap, subst, ◌∙◌, false, none, some, ◌++◌, take, take-append_at,
  bytes_eq_iff, if◌then◌else◌, ◌==◌, text_eq, arith, length,
}
use sidewire.Prelude.Results.{Result, ok, raised}
use sidewire.Prelude.Action.{◌>>=◌}
use sidewire.Prelude.Dict.{get, put, get-del, get-put_self}
use sidewire.Aionetiface.{Bytes}
use sidewire.Wire.Struct.{pack_lem}
use sidewire.Client.{
  Client, AckKind, suback, puback, ids_of, set_ids, pending, result, done, set_future, new_future,
}
use sidewire.Client.PacketIds.{answer, get_packet_id, packet_ack_future, handle_broker_ack}
use sidewire.Client.PacketIds.Fresh.{Found, get_packet_id_sound}
use sidewire.Client.PacketIds.Acks.{acked, ids_of-acked}

-- The client when the packet `pid` awaits its acknowledgement; `s` is the client that `get_packet_id`
-- left.
awaiting : AckKind → Bytes → Client → Client
unfolding new_future
awaiting kind pid s =
    let s' : Client = (new_future s).1 in set_ids kind (put pid s.next_future (ids_of kind s')) s'

record Issued (kind : AckKind) (c : Client) (pid : Bytes) (fut : ℕ) (c' : Client) : Type 0 where
  state : Client
  search : get_packet_id c ≡ (ok pid, state)
  reference : fut ≡ state.next_future
  client : c' ≡ awaiting kind pid state

issued :
    (kind : AckKind) (c c' : Client) (pid : Bytes) (fut : ℕ)
    → packet_ack_future kind c ≡ (ok (pid, fut), c')
    → Issued kind c pid fut c'
unfolding packet_ack_future awaiting new_future ◌>>=◌
issued kind c c' pid fut h = go (get_packet_id c) refl
  where
    go : (r : Result Bytes × Client) → get_packet_id c ≡ r → Issued kind c pid fut c'
    go (raised x, s) e = absurd (cc (h, e))
    go (ok pid0, s) e =
        let computed : packet_ack_future kind c ≡ (ok (pid0, s.next_future), awaiting kind pid0 s) =
          rw e refl in
        let same : (ok (pid0, s.next_future), awaiting kind pid0 s) ≡ (ok (pid, fut), c') =
          sym computed ∙ h in
        let same_ids : ok (pid0, s.next_future) ≡ ok (pid, fut) = ap (λ r. r.0) same in
        record {
          state = s;
          search = cc (e, same_ids);
          reference = cc same_ids;
          client = cc (same, same_ids);
        }

awaiting-futures :
    (kind : AckKind) (pid : Bytes) (s : Client) (j : ℕ)
    → (awaiting kind pid s).futures j ≡ (if s.next_future == j then pending else s.futures j)
unfolding awaiting new_future set_future set_ids
awaiting-futures suback pid s j = refl
awaiting-futures puback pid s j = refl

awaiting-ids :
    (kind : AckKind) (pid : Bytes) (s : Client)
    → get pid (ids_of kind (awaiting kind pid s)) ≡ some s.next_future
unfolding awaiting new_future set_future set_ids ids_of
awaiting-ids suback pid s = get-put_self pid s.next_future s.subacks
awaiting-ids puback pid s = get-put_self pid s.next_future s.pubacks

acked-futures :
    (kind : AckKind) (body : Bytes) (i : ℕ) (c : Client) (j : ℕ)
    → (acked kind body i c).futures j ≡ (if i == j then result (answer kind body) else c.futures j)
unfolding acked set_future set_ids ids_of
acked-futures suback body i c j = refl
acked-futures puback body i c j = refl

awaited_acked :
    (kind : AckKind) (body : Bytes) (c : Client) (i : ℕ)
    → get (take 2 body) (ids_of kind c) ≡ some i
    → done (c.futures i) ≡ false
    → handle_broker_ack kind body c ≡ acked kind body i c
unfolding handle_broker_ack acked
awaited_acked kind body c i e h = rw (e, handle_broker_ack) (rw h refl)

id_length :
    (c s : Client) (pid : Bytes)
    → get_packet_id c ≡ (ok pid, s)
    → (length pid ≡ 2) × (s.futures ≡ c.futures)
id_length c s pid e =
    let f : Found c (get_packet_id c) = get_packet_id_sound c s pid e in
    let (bs, packed, size, small, back) = pack_lem 2 f.counter (omega (arith, f.valid)) in
    let here : Result Bytes × Client = (ok pid, s) in
    let there : Result Bytes × Client = (ok f.pid, record c { packet_id = f.counter }) in
    let both : here ≡ there = sym e ∙ f.returned in
    let ids : here.0 ≡ there.0 = ap (λ (r : Result Bytes × Client). r.0) both in
    let bytes : ok f.pid ≡ ok bs = sym f.bytes_of ∙ packed in
    let same : pid ≡ bs = cc (ids, bytes) in
    (ap length same ∙ size, ap (λ (r : Result Bytes × Client). r.1.futures) both)

-- The future of a packet, before and after the broker's acknowledgement `pid ++ more`.
pub record Answered (kind : AckKind) (c c' : Client) (pid more : Bytes) (fut : ℕ) : Type 0 where
  pub unanswered : c'.futures fut ≡ pending
  pub answered :
      (handle_broker_ack kind (pid ++ more) c').futures fut ≡ result (answer kind (pid ++ more))
  pub forgotten : get pid (ids_of kind (handle_broker_ack kind (pid ++ more) c')) ≡ none
  pub others : (j : ℕ) → j ≢ fut → (handle_broker_ack kind (pid ++ more) c').futures j ≡ c.futures j

awaiting-Answered :
    (kind : AckKind) (s : Client) (pid more : Bytes)
    → length pid ≡ 2
    → Answered kind s (awaiting kind pid s) pid more s.next_future
awaiting-Answered kind s pid more size =
    let body : Bytes = pid ++ more in
    let c' : Client = awaiting kind pid s in
    let front : take 2 body ≡ pid = take-append_at 2 pid more size in
    let there : get (take 2 body) (ids_of kind c') ≡ some s.next_future =
      ap (λ k. get k (ids_of kind c')) front ∙ awaiting-ids kind pid s in
    let before : c'.futures s.next_future ≡ pending =
      awaiting-futures kind pid s s.next_future ∙ ground arith in
    let ends : handle_broker_ack kind body c' ≡ acked kind body s.next_future c' =
      awaited_acked kind body c' s.next_future there (unfold done in rw before refl) in
    record {
      unanswered = before;
      answered = rw ends (acked-futures kind body s.next_future c' s.next_future ∙ ground arith);
      forgotten = rw ends (
          rw (ids_of-acked kind body s.next_future c', front)
            (get-del pid pid (ids_of kind c') ∙ ground (arith, bytes_eq_iff pid pid)));
      others = λ j ne. rw ends (
          acked-futures kind body s.next_future c' j
          ∙ ground (arith, awaiting-futures kind pid s j));
    }

-- The broker's acknowledgement of a packet that packet_ack_future issued resolves the future that
-- awaits it, which was pending, and no other one, and the identifier
-- leaves its table.
pub packet_ack_future-Answered :
    (kind : AckKind) (c c' : Client) (pid more : Bytes) (fut : ℕ)
    → packet_ack_future kind c ≡ (ok (pid, fut), c')
    → Answered kind c c' pid more fut
packet_ack_future-Answered kind c c' pid more fut h =
    let k : Issued kind c pid fut c' = issued kind c c' pid fut h in
    let (size, same) = id_length c k.state pid k.search in
    let a : Answered kind k.state c' pid more fut =
      subst (λ c'. Answered kind k.state c' pid more fut) (sym k.client)
        (subst (λ i. Answered kind k.state (awaiting kind pid k.state) pid more i) (sym k.reference)
          (awaiting-Answered kind k.state pid more size)) in
    record {
      unanswered = a.unanswered;
      answered = a.answered;
      forgotten = a.forgotten;
      others = λ j ne. a.others j ne ∙ ap (λ f. f j) same;
    }
