-- ===== src/Wire/Reader/Segments.antt =====
-- How the stream is cut into chunks does not matter to the packets that are handled.
use sidewire.Prelude.{
  ℕ, zero, suc, ◌≤◌, ◌≡◌, sym, ap, ◌∙◌, none, [], ◌++◌, append_assoc, arith, length, length-append,
}
use sidewire.Prelude.Results.{Exn, ok, raised}
use sidewire.Aionetiface.{Bytes}
use sidewire.Wire.Packet.{MqttPacket}
use sidewire.Wire.Reader.Frames.{
  next_frame_parts, next_frame-append, wait, refuse, serve, turn, next_frame_short, loop_wait,
  loop_raise, loop_next,
}
use sidewire.Wire.Reader.{next_frame, read_loop}

module _ {S : Type 0} (handle : MqttPacket → S → S) where
  -- Any fuel that covers the buffer gives one result.
  pub read_loop_fuel :
      (f g : ℕ) (buf : Bytes) (s : S)
      → length buf ≤ f
      → length buf ≤ g
      → read_loop handle f buf s ≡ read_loop handle g buf s
  read_loop_fuel zero g buf s hf hg =
      let e : next_frame buf ≡ none = next_frame_short buf (omega arith) in
      loop_wait handle zero buf s e ∙ sym (loop_wait handle g buf s e)
  read_loop_fuel (suc f) zero buf s hf hg =
      let e : next_frame buf ≡ none = next_frame_short buf (omega arith) in
      loop_wait handle (suc f) buf s e ∙ sym (loop_wait handle zero buf s e)
  read_loop_fuel (suc f) (suc g) buf s hf hg = elim (turn buf) [
    | wait e ↦ loop_wait handle (suc f) buf s e ∙ sym (loop_wait handle (suc g) buf s e)
    | refuse p r x e q ↦
        loop_raise handle f buf s p r x e q ∙ sym (loop_raise handle g buf s p r x e q)
    | serve p r pkt e q ↦
        let shorter = (next_frame_parts buf p r e).1 in
        loop_next handle f buf s p r pkt e q
        ∙ read_loop_fuel f g r (handle pkt s) (omega arith) (omega arith)
        ∙ sym (loop_next handle g buf s p r pkt e q)
  ]

  -- Where the loop ends without an exception, no whole packet is left, and what is left is a tail of
  -- the buffer.
  pub read_loop_drains :
      (f : ℕ) (buf : Bytes) (s s' : S) (left : Bytes)
      → length buf ≤ f
      → read_loop handle f buf s ≡ (ok tt, (left, s'))
      → (next_frame left ≡ none) × (handled : Bytes) × (handled ++ left ≡ buf)
  read_loop_drains zero buf s s' left hf h =
      let e : next_frame buf ≡ none = next_frame_short buf (omega arith) in
      let same : left ≡ buf = cc (loop_wait handle zero buf s e) in (rw same e, [], same)
  read_loop_drains (suc f) buf s s' left hf h = elim (turn buf) [
    | wait e ↦
        let same : left ≡ buf = cc (loop_wait handle (suc f) buf s e) in (rw same e, [], same)
    | refuse p r x e q ↦ absurd (cc (loop_raise handle f buf s p r x e q))
    | serve p r pkt e q ↦
        let (parts, shorter) = next_frame_parts buf p r e in
        let (done, handled, tail) =
          read_loop_drains f r (handle pkt s) s' left (omega arith)
            (sym (loop_next handle f buf s p r pkt e q) ∙ h) in
        (done, p ++ handled, append_assoc p handled left ∙ ap (λ t. p ++ t) tail ∙ parts)
  ]

  -- More bytes after a read that ended without an exception: the loop goes on from where it was.
  pub read_loop-append :
      (f g : ℕ) (buf more : Bytes) (s s' : S) (left : Bytes)
      → length buf ≤ f
      → length (buf ++ more) ≤ g
      → read_loop handle f buf s ≡ (ok tt, (left, s'))
      → read_loop handle g (buf ++ more) s ≡ read_loop handle g (left ++ more) s'
  read_loop-append zero g buf more s s' left hf hg h =
      let e : next_frame buf ≡ none = next_frame_short buf (omega arith) in
      let same : (left ≡ buf) × (s' ≡ s) =
        (cc (loop_wait handle zero buf s e), cc (loop_wait handle zero buf s e)) in
      rw (same.0, same.1)
  read_loop-append (suc f) zero buf more s s' left hf hg h =
      let e : next_frame buf ≡ none =
        next_frame_short buf (omega (arith, length-append buf more)) in
      let same : (left ≡ buf) × (s' ≡ s) =
        (cc (loop_wait handle (suc f) buf s e), cc (loop_wait handle (suc f) buf s e)) in
      rw (same.0, same.1)
  read_loop-append (suc f) (suc g) buf more s s' left hf hg h = elim (turn buf) [
    | wait e ↦
        let same : (left ≡ buf) × (s' ≡ s) =
          (cc (loop_wait handle (suc f) buf s e), cc (loop_wait handle (suc f) buf s e)) in
        rw (same.0, same.1)
    | refuse p r x e q ↦ absurd (cc (loop_raise handle f buf s p r x e q))
    | serve p r pkt e q ↦
        let (parts, shorter) = next_frame_parts buf p r e in
        let rest = sym (loop_next handle f buf s p r pkt e q) ∙ h in
        let hr : length r ≤ f = omega arith in
        let room : length (r ++ more) ≤ g =
          omega (arith, length-append r more, length-append buf more) in
        let (done, handled, tail) = read_loop_drains f r (handle pkt s) s' left hr rest in
        let still : length (left ++ more) ≤ g = omega (
          arith,
          length-append r more,
          length-append left more,
          length-append handled left,
          ap length tail,
        ) in
        loop_next handle g (buf ++ more) s p (r ++ more) pkt (next_frame-append buf more p r e) q
        ∙ read_loop-append f g r more (handle pkt s) s' left hr room rest
        ∙ read_loop_fuel g (suc g) (left ++ more) s' still (omega arith)
  ]

  -- An exception on a part of the stream is met on any longer one, too.
  pub read_loop-append_raised :
      (f g : ℕ) (buf more : Bytes) (s : S) (x : Exn) (st : Bytes × S)
      → length (buf ++ more) ≤ g
      → read_loop handle f buf s ≡ (raised x, st)
      → (st' : Bytes × S) × (read_loop handle g (buf ++ more) s ≡ (raised x, st'))
  read_loop-append_raised zero g buf more s x st hg h = absurd (unfold read_loop in cc)
  read_loop-append_raised (suc f) zero buf more s x st hg h =
      let e : next_frame buf ≡ none =
        next_frame_short buf (omega (arith, length-append buf more)) in
      absurd (cc (loop_wait handle (suc f) buf s e))
  read_loop-append_raised (suc f) (suc g) buf more s x st hg h = elim (turn buf) [
    | wait e ↦ absurd (cc (loop_wait handle (suc f) buf s e))
    | refuse p r y e q ↦
        let whole = next_frame-append buf more p r e in
        let same : y ≡ x = cc (loop_raise handle f buf s p r y e q) in
        ((r ++ more, s), rw (← same) (loop_raise handle g (buf ++ more) s p (r ++ more) y whole q))
    | serve p r pkt e q ↦
        let (parts, shorter) = next_frame_parts buf p r e in
        let whole = next_frame-append buf more p r e in
        let room : length (r ++ more) ≤ g =
          omega (arith, length-append r more, length-append buf more) in
        let (st', later) =
          read_loop-append_raised f g r more (handle pkt s) x st room
            (sym (loop_next handle f buf s p r pkt e q) ∙ h) in
        (st', loop_next handle g (buf ++ more) s p (r ++ more) pkt whole q ∙ later)
  ]
