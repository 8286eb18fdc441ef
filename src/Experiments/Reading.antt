-- ===== src/Experiments/Reading.antt =====
-- Reading from a socket that does not fail: single bytes, numbers and bodies.
use sidewire.Prelude.{
  ℕ, zero, suc, ◌+◌, ◌-◌, ◌*◌, ◌/◌, ◌%◌, ◌^◌, ◌≤◌, ◌<◌, bit_and, ◌≡◌, refl, sym, ap, ◌∙◌, inl, inr,
  true, false, some, [], ◌∷◌, ◌++◌, append-nil, append_assoc, Bool-cases, leb, ltb, ◌==◌, length,
  length-append, take, drop, take-append_at, take-append_within, take-append-drop, drop-append_at,
  drop-append_within, arith,
}
use sidewire.Prelude.Results.{ok}
use sidewire.Aionetiface.{Bytes}
use sidewire.Wire.Bits.{and_low7, and_top}
use sidewire.Wire.Varint.Laws.{groups, regroup}
use sidewire.Experiments.Session.{Python, Mqtt, dec_loop, recv_rest, ◌>>=◌}

-- The object with a connected socket.
abbrev pub connected : {S : Type 0} → Mqtt S → S → Mqtt S
connected m s = record m { sock = some s }

-- Where the front of a text stands in a concatenation.
seam-front :
    (bs t need rest : Bytes)
    → bs ++ t ≡ need ++ rest
    → length bs ≤ length need
    → (bs ++ drop (length bs) need ≡ need) × (t ≡ drop (length bs) need ++ rest)
seam-front bs t need rest e h =
    let n : ℕ = length bs in
    let front : bs ≡ take n need =
      sym (take-append_at n bs t refl)
      ∙ ap (λ xs. take n xs) e
      ∙ take-append_within n need rest h in
    (
      ap (λ xs. xs ++ drop n need) front ∙ take-append-drop n need,
      sym (drop-append_at n bs t refl) ∙ ap (λ xs. drop n xs) e ∙ drop-append_within n need rest h,
    )

module _ {S : Type 0} (py : Python S) (left : S → Bytes) where
  -- recv gives a front of what is left of the stream, of at most n bytes, and nothing only at its end.
  pub data Reads (n : ℕ) (s : S) : Type 0 where
    reads :
        (bs : Bytes) (s' : S)
        → py.recv n s ≡ (ok bs, s')
        → bs ++ left s' ≡ left s
        → length bs ≤ n
        → (0 < n → 0 < length (left s) → 0 < length bs)
        → Reads n s

  module _ (sound : (n : ℕ) (s : S) → Reads n s) where
    pub recv-one :
        (s : S) (b : ℕ) (rest : Bytes)
        → left s ≡ b ∷ rest
        → (s' : S) × (py.recv 1 s ≡ (ok (b ∷ []), s')) × (left s' ≡ rest)
    recv-one s b rest e = go (sound 1 s)
      where
        go : Reads 1 s → (s' : S) × (py.recv 1 s ≡ (ok (b ∷ []), s')) × (left s' ≡ rest)
        go (reads [] s' r f h some_bytes) =
            absurd (omega (arith, some_bytes (omega arith) (rw e (omega arith))))
        go (reads (c ∷ []) s' r f h some_bytes) =
            let same : c ∷ left s' ≡ b ∷ rest = f ∙ e in (s', cc (r, same), cc same)
        go (reads (c ∷ d ∷ bs) s' r f h some_bytes) = absurd (omega arith)

    pub recv-end : (s : S) → left s ≡ [] → (s' : S) × (py.recv 1 s ≡ (ok [], s')) × (left s' ≡ [])
    recv-end s e = go (sound 1 s)
      where
        go : Reads 1 s → (s' : S) × (py.recv 1 s ≡ (ok [], s')) × (left s' ≡ [])
        go (reads [] s' r f h some_bytes) = (s', r, f ∙ e)
        go (reads (c ∷ bs) s' r f h some_bytes) = cc (f, e)

    -- One byte of a number.
    dec_loop-last :
        (fuel g mul val : ℕ) (m : Mqtt S) (s : S) (rest : Bytes)
        → left s ≡ g ∷ rest
        → g < 128
        → (s' : S) × (dec_loop py (suc fuel) mul val (connected m s)
            ≡ some (ok (val + g * mul), connected m s'))
          × (left s' ≡ rest)
    unfolding dec_loop ◌>>=◌
    dec_loop-last fuel g mul val m s rest e h =
        let (s', r, l) = recv-one s g rest e in
        (s', rw r (ground (arith, and_low7 g, and_top g)), l)

    dec_loop-inner :
        (fuel g mul val : ℕ) (m : Mqtt S) (s : S) (rest : Bytes)
        → left s ≡ (g + 128) ∷ rest
        → g < 128
        → (s' : S) × (dec_loop py (suc fuel) mul val (connected m s)
            ≡ dec_loop py fuel (mul * 128) (val + g * mul) (connected m s'))
          × (left s' ≡ rest)
    unfolding dec_loop ◌>>=◌
    dec_loop-inner fuel g mul val m s rest e h =
        let (s', r, l) = recv-one s (g + 128) rest e in
        let low : bit_and (g + 128) 0x7f ≡ g = omega (arith, and_low7 (g + 128)) in
        let top : (bit_and (g + 128) 0x80 == 0) ≡ false = ground (arith, and_top (g + 128)) in
        (s', rw (r, low, top) refl, l)

    pub dec_loop-groups :
        (k fuel v mul val : ℕ) (m : Mqtt S) (s : S) (rest : Bytes)
        → left s ≡ groups k v ++ rest
        → v < 128 ^ suc k
        → length (groups k v) ≤ fuel
        → (s' : S) × (dec_loop py fuel mul val (connected m s)
            ≡ some (ok (val + v * mul), connected m s'))
          × (left s' ≡ rest)
    unfolding groups
    dec_loop-groups zero zero v mul val m s rest e fits h = absurd (omega arith)
    dec_loop-groups zero (suc fuel) v mul val m s rest e fits h =
        dec_loop-last fuel v mul val m s rest e (omega arith)
    dec_loop-groups (suc k) zero v mul val m s rest e fits h = elim (Bool-cases (leb 128 v)) [
      | inr small ↦ absurd (omega (arith, rw small at h))
      | inl big ↦ absurd (omega (arith, rw big at h))
    ]
    dec_loop-groups (suc k) (suc fuel) v mul val m s rest e fits h = elim (Bool-cases (leb 128 v)) [
      | inr small ↦ dec_loop-last fuel v mul val m s rest (rw small at e) (ground arith)
      | inl big ↦
          let (s1, turn, l1) =
            dec_loop-inner fuel (v % 128) mul val m s (groups k (v / 128) ++ rest) (rw big at e)
              (omega arith) in
          let (s2, more, l2) =
            dec_loop-groups k fuel (v / 128) (mul * 128) (val + v % 128 * mul) m s1 rest l1
              (omega arith) (omega (arith, rw big at h)) in
          (s2, turn ∙ more ∙ ground (arith, regroup v mul), l2)
    ]

    recv_rest-stop :
        (fuel rem_len : ℕ) (got : Bytes) (m : Mqtt S)
        → ltb (length got) rem_len ≡ false
        → recv_rest py (suc fuel) rem_len got m ≡ some (ok got, m)
    unfolding recv_rest ◌>>=◌
    recv_rest-stop fuel rem_len got m h = rw h refl

    recv_rest-next :
        (fuel rem_len : ℕ) (got bs : Bytes) (m : Mqtt S) (s s' : S)
        → ltb (length got) rem_len ≡ true
        → py.recv (rem_len - length got) s ≡ (ok bs, s')
        → recv_rest py (suc fuel) rem_len got (connected m s)
          ≡ recv_rest py fuel rem_len (got ++ bs) (connected m s')
    unfolding recv_rest ◌>>=◌
    recv_rest-next fuel rem_len got bs m s s' h r = rw (h, r) refl

    -- A body, in whatever pieces it comes.
    pub recv_rest-whole :
        (fuel rem_len : ℕ) (got need rest : Bytes) (m : Mqtt S) (s : S)
        → left s ≡ need ++ rest
        → rem_len ≡ length got + length need
        → length need < fuel
        → (s' : S) × (recv_rest py fuel rem_len got (connected m s)
            ≡ some (ok (got ++ need), connected m s'))
          × (left s' ≡ rest)
    recv_rest-whole zero rem_len got need rest m s e n h = absurd (omega arith)
    recv_rest-whole (suc fuel) rem_len got [] rest m s e n h =
        (s, rw append-nil (recv_rest-stop fuel rem_len got (connected m s) (ground arith)), e)
    recv_rest-whole (suc fuel) rem_len got (x ∷ xs) rest m s e n h =
        go (sound (rem_len - length got) s) (recv_rest-whole fuel rem_len)
      where
        need : Bytes
        need = x ∷ xs

        go :
            Reads (rem_len - length got) s
            → ((got' need' rest' : Bytes) (m' : Mqtt S) (s' : S)
                → left s' ≡ need' ++ rest'
                → rem_len ≡ length got' + length need'
                → length need' < fuel
                → (s'' : S) × (recv_rest py fuel rem_len got' (connected m' s')
                    ≡ some (ok (got' ++ need'), connected m' s''))
                  × (left s'' ≡ rest'))
            → (s' : S) × (recv_rest py (suc fuel) rem_len got (connected m s)
                ≡ some (ok (got ++ need), connected m s'))
              × (left s' ≡ rest)
        go (reads bs s1 r f within some_bytes) ih =
            let (front, tail) = seam-front bs (left s1) need rest (f ∙ e) (omega arith) in
            let pieces : length bs + length (drop (length bs) need) ≡ length need =
              omega (arith, length-append bs (drop (length bs) need), ap length front) in
            let more : 0 < length bs =
              some_bytes (omega arith) (rw e (omega (arith, length-append need rest))) in
            let (s2, rest_read, l2) =
              ih (got ++ bs) (drop (length bs) need) rest m s1 tail
                (omega (arith, length-append got bs)) (omega arith) in
            (
              s2,
              recv_rest-next fuel rem_len got bs m s s1 (ground arith) r
                  ∙ rest_read
                  ∙ ap (λ xs. some (ok xs, connected m s2))
                      (append_assoc got bs (drop (length bs) need) ∙ ap (λ t. got ++ t) front),
              l2,
            )
