-- ===== src/Wire/Reader/Stream.antt =====
-- mqtt_packet_reader on a stream that arrives in chunks.
use sidewire.Prelude.{
  ◌≡◌, refl, sym, ap, ◌∙◌, List, [], ◌∷◌, ◌++◌, append-nil, append_assoc, arith, length,
  length-append,
}
use sidewire.Prelude.Results.{Exn, Result, ok, raised}
use sidewire.Aionetiface.{Bytes}
use sidewire.Wire.Packet.{MqttPacket}
use sidewire.Wire.Reader.{mqtt_packet_reader}
use sidewire.Wire.Reader.Segments.{
  read_loop_fuel, read_loop_drains, read_loop-append, read_loop-append_raised,
}

abbrev pub join : List Bytes → Bytes
join [] = []
join (c ∷ cs) = c ++ join cs

module _ {S : Type 0} (handle : MqttPacket → S → S) where
  -- If a first chunk is read without an exception, reading a second one is reading both at once.
  pub reader-append :
      (c d buf left : Bytes) (s s' : S)
      → mqtt_packet_reader handle c (buf, s) ≡ (ok tt, (left, s'))
      → mqtt_packet_reader handle (c ++ d) (buf, s) ≡ mqtt_packet_reader handle d (left, s')
  unfolding mqtt_packet_reader
  reader-append [] d buf left s s' h = ap (mqtt_packet_reader handle d) (cc h)
  reader-append (b ∷ c) [] buf left s s' h = rw append-nil h
  reader-append (b ∷ c) (x ∷ d) buf left s s' h =
      let whole : Bytes = (buf ++ (b ∷ c)) ++ (x ∷ d) in
      let (done, handled, tail) =
        read_loop_drains handle _ (buf ++ (b ∷ c)) s s' left (omega arith) h in
      rw (← append_assoc buf (b ∷ c) (x ∷ d)) (
        read_loop-append handle _ (length whole) (buf ++ (b ∷ c)) (x ∷ d) s s' left (omega arith)
          (omega arith) h
        ∙ read_loop_fuel handle (length whole) (length (left ++ (x ∷ d))) (left ++ (x ∷ d)) s'
            (omega (
              arith,
              ap length tail,
              length-append handled left,
              length-append (buf ++ (b ∷ c)) (x ∷ d),
              length-append left (x ∷ d),
            ))
            (omega arith))

  reader-append_raised :
      (c d buf : Bytes) (s : S) (x : Exn) (st : Bytes × S)
      → mqtt_packet_reader handle c (buf, s) ≡ (raised x, st)
      → (st' : Bytes × S) × (mqtt_packet_reader handle (c ++ d) (buf, s) ≡ (raised x, st'))
  unfolding mqtt_packet_reader
  reader-append_raised [] d buf s x st h = absurd (cc h)
  reader-append_raised (b ∷ c) d buf s x st h = rw (← append_assoc buf (b ∷ c) d) (
      read_loop-append_raised handle _ (length ((buf ++ (b ∷ c)) ++ d)) (buf ++ (b ∷ c)) d s x st
        (omega arith) h)

  -- The callback runs once for each chunk; an exception of one run does not stop the next.
  pub feed : List Bytes → Bytes × S → Bytes × S
  feed [] st = st
  feed (c ∷ cs) st = feed cs (mqtt_packet_reader handle c st).1

  -- If the stream can be read in one piece without an exception, then every way to cut it into chunks
  -- ends in the same buffer and the same state.
  pub feed-join :
      (cs : List Bytes) (buf : Bytes) (s : S) (st : Bytes × S)
      → mqtt_packet_reader handle (join cs) (buf, s) ≡ (ok tt, st)
      → feed cs (buf, s) ≡ st
  unfolding feed
  feed-join [] buf s st h = unfold mqtt_packet_reader in cc h
  feed-join (c ∷ cs) buf s st h =
      split (λ left s' k. feed-join cs left s' st k) (mqtt_packet_reader handle c (buf, s)) refl
    where
      split :
          ((left : Bytes) (s' : S)
            → mqtt_packet_reader handle (join cs) (left, s') ≡ (ok tt, st)
            → feed cs (left, s') ≡ st)
          → (r : Result (Unit {0}) × (Bytes × S)) → mqtt_packet_reader handle c (buf, s) ≡ r
          → feed cs (mqtt_packet_reader handle c (buf, s)).1 ≡ st
      split later (ok u, (left, s')) e =
          rw e (later left s' (sym (reader-append c (join cs) buf left s s' e) ∙ h))
      split later (raised x, st') e =
          let (st'', bad) = reader-append_raised c (join cs) buf s x st' e in absurd (cc (h, bad))
