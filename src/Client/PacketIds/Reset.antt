-- ===== src/Client/PacketIds/Reset.antt =====
-- reset_session_state: no task is left to wait for an acknowledgement of the old session.
use sidewire.Prelude.{
  ℕ, ◌≡◌, refl, ap, subst, ◌∙◌, inl, inr, true, some, [], ◌∷◌, if◌then◌else◌, bytes_eq, Bool-cases,
  ◌==◌, text_eq, arith,
}
use sidewire.Prelude.Dict.{Dict, get}
use sidewire.Aionetiface.{Bytes}
use sidewire.Client.{Client, AckKind, suback, puback, ids_of, cancelled, done, set_future}
use sidewire.Client.PacketIds.{cancel_all, reset_session_state}

-- One turn of the loop: `if not future.done(): future.cancel()`.
abbrev cancel_one : ℕ → Client → Client
cancel_one i c = if done (c.futures i) then c else set_future i cancelled c

-- The future is done, and as it was if it was done before.
cancel_one-here : (i : ℕ) (c : Client) → done ((cancel_one i c).futures i) ≡ true
unfolding set_future done
cancel_one-here i c = elim (Bool-cases (done (c.futures i))) [
  | inl old ↦ rw old old
  | inr new ↦ rw new (ground arith)
]

cancel_one-keeps :
    (i j : ℕ) (c : Client) → done (c.futures j) ≡ true → (cancel_one i c).futures j ≡ c.futures j
unfolding set_future done
cancel_one-keeps i j c h = elim (Bool-cases (done (c.futures i))) [
  | inl old ↦ rw old refl
  | inr new ↦ elim (Bool-cases (i == j)) [
    | inr other ↦ rw new (rw other refl)
    | inl same ↦ let e : i ≡ j = ground arith in absurd (cc (new, h, e))
  ]
]

cancel_all-keeps :
    (d : Dict Bytes ℕ) (j : ℕ) (c : Client)
    → done (c.futures j) ≡ true
    → (cancel_all d c).futures j ≡ c.futures j
unfolding cancel_all
cancel_all-keeps [] j c h = refl
cancel_all-keeps ((pid, i) ∷ d) j c h =
    cancel_all-keeps d j (cancel_one i c) (ap done (cancel_one-keeps i j c h) ∙ h)
    ∙ cancel_one-keeps i j c h

cancel_all-done :
    (d : Dict Bytes ℕ) (pid : Bytes) (i : ℕ) (c : Client)
    → get pid d ≡ some i
    → done ((cancel_all d c).futures i) ≡ true
unfolding cancel_all get
cancel_all-done [] pid i c h = absurd (cc h)
cancel_all-done ((k, j) ∷ d) pid i c h = elim (Bool-cases (bytes_eq k pid)) [
  | inr other ↦ cancel_all-done d pid i (cancel_one j c) (ground (arith, h, other))
  | inl same ↦
      let e : j ≡ i = ground (arith, h, same) in
      let here : done ((cancel_one j c).futures i) ≡ true =
        subst (λ i. done ((cancel_one j c).futures i) ≡ true) e (cancel_one-here j c) in
      ap done (cancel_all-keeps d i (cancel_one j c) here) ∙ here
]

-- After a reset, every future that awaited an acknowledgement is done, and those that were done
-- before are as they were.
reset_session_state-done :
    (c : Client) (i : ℕ)
    → ((kind : AckKind) (pid : Bytes)
        → get pid (ids_of kind c) ≡ some i
        → done ((reset_session_state c).futures i) ≡ true)
      × (done (c.futures i) ≡ true → (reset_session_state c).futures i ≡ c.futures i)
unfolding reset_session_state ids_of
reset_session_state-done c i = (by_kind, kept)
  where
    c0 : Client
    c0 = record c { buf = [] }

    c1 : Client
    c1 = cancel_all c0.subacks c0

    by_kind :
        (kind : AckKind) (pid : Bytes)
        → get pid (ids_of kind c) ≡ some i
        → done ((cancel_all c.pubacks c1).futures i) ≡ true
    by_kind suback pid h =
        let before : done (c1.futures i) ≡ true = cancel_all-done c.subacks pid i c0 h in
        ap done (cancel_all-keeps c.pubacks i c1 before) ∙ before
    by_kind puback pid h = cancel_all-done c.pubacks pid i c1 h

    kept : done (c.futures i) ≡ true → (cancel_all c.pubacks c1).futures i ≡ c.futures i
    kept h =
        let same : c1.futures i ≡ c.futures i = cancel_all-keeps c.subacks i c0 h in
        cancel_all-keeps c.pubacks i c1 (ap done same ∙ h) ∙ same
