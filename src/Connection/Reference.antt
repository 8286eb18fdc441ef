-- ===== src/Connection/Reference.antt =====
-- The future that subscribe returns: a new one of the client.
use sidewire.Prelude.{ℕ, zero, suc, ◌+◌, ◌%◌, ◌≡◌, refl, sym, ap, ◌∙◌, arith}
use sidewire.Prelude.Results.{Result, ok}
use sidewire.Prelude.Action.{throw, lift, pure, modify, >>=-eq-ok}
use sidewire.Aionetiface.{Aionetiface, Bytes, Text, str, bytes}
use sidewire.Client.{Client, suback, new_future}
use sidewire.Client.PacketIds.{packet_id_loop, get_packet_id, packet_ack_future}
use sidewire.Client.Sending.{subscribe}

packet_id_loop-next_future :
    (rounds : ℕ) (c : Client) → (packet_id_loop rounds c).1.next_future ≡ c.next_future
unfolding packet_id_loop throw
packet_id_loop-next_future zero c = refl
packet_id_loop-next_future (suc rounds) c =
    ground
      (arith, packet_id_loop-next_future rounds (record c { packet_id = c.packet_id % 65535 + 1 }))

packet_ack_future-reference :
    (c c' : Client) (r : Bytes × ℕ) → packet_ack_future suback c ≡ (ok r, c') → r.1 ≡ c.next_future
unfolding packet_ack_future get_packet_id new_future pure modify
packet_ack_future-reference c c' r h =
    let (pid, c1, e1, h1) = >>=-eq-ok _ _ c c' r h in
    let (i, c2, e2, h2) = >>=-eq-ok _ _ c1 c' r h1 in
    let (u, c3, e3, h3) = >>=-eq-ok _ _ c2 c' r h2 in
    let value : ok (pid, i) ≡ ok r = ap (λ (x : Result (Bytes × ℕ) × Client). x.0) h3 in
    let pair : (pid, i) ≡ r = cc value in
    let taken : ok c1.next_future ≡ ok i = ap (λ (x : Result ℕ × Client). x.0) e2 in
    let here : c1.next_future ≡ i = cc taken in
    sym (ap (λ (p : Bytes × ℕ). p.1) pair)
    ∙ sym here
    ∙ sym (ap (λ (x : Result Bytes × Client). x.1.next_future) e1)
    ∙ packet_id_loop-next_future 65535 c

pub subscribe-reference :
    (lib : Aionetiface) (topic : Text) (c c' : Client) (r : Bytes × ℕ)
    → subscribe lib topic c ≡ (ok r, c')
    → r.1 ≡ c.next_future
unfolding subscribe throw lift pure
subscribe-reference lib (bytes b) c c' r h = absurd (cc h)
subscribe-reference lib (str s) c c' r h =
    let (p, c1, e1, h1) = >>=-eq-ok _ _ c c' r h in
    let (buf, c2, e2, h2) = >>=-eq-ok _ _ c1 c' r h1 in
    let value : ok (buf, p.1) ≡ ok r = ap (λ (x : Result (Bytes × ℕ) × Client). x.0) h2 in
    let pair : (buf, p.1) ≡ r = cc value in
    sym (ap (λ (x : Bytes × ℕ). x.1) pair) ∙ packet_ack_future-reference c c1 p e1
