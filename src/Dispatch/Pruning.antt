-- ===== src/Dispatch/Pruning.antt =====
-- prune_msg_ids: which hashes are forgotten.
use sidewire.Prelude.{
  ℕ, ◌+◌, ◌*◌, ◌≡◌, refl, sym, ap, ◌∙◌, inl, inr, Bool, true, false, Option, none, some, [], ◌∷◌,
  if◌then◌else◌, ltb, bytes_eq, bytes_eq_iff, Bool-cases, text_eq, arith,
}
use sidewire.Prelude.Dict.{Dict, get, put, del, has, get-del, has-put}
use sidewire.Aionetiface.{Str}
use sidewire.Client.{Client, second}
use sidewire.Dispatch.{prune_table, prune_msg_ids}

-- No key stands twice, as in every dict of Python.
unfoldable pub IsDict : Dict Str ℕ → Type 0
IsDict [] = Unit {0}
IsDict ((k, v) ∷ d) = (has k d ≡ false) × IsDict d

pub put-IsDict : (k : Str) (v : ℕ) (d : Dict Str ℕ) → IsDict d → IsDict (put k v d)
unfolding IsDict put has
put-IsDict k v [] h = (refl, tt)
put-IsDict k v ((j, w) ∷ d) h = elim (Bool-cases (bytes_eq j k)) [
  | inl same ↦ rw same (ap (λ k. has k d) (sym ((bytes_eq_iff j k).0 same)) ∙ h.0, h.1)
  | inr other ↦ rw other (
    ground (arith, has-put k j v d, bytes_eq_iff k j, bytes_eq_iff j k, h.0),
    put-IsDict k v d h.1,
  )
]

-- What is left of an entry at the time `now`.
pub unless_expired : ℕ → ℕ → Option ℕ → Option ℕ
unless_expired now ttl none = none
unless_expired now ttl (some created) = if ltb (created + ttl) now then none else some created

-- Whether the loop deletes the key.
any_expired : ℕ → ℕ → Str → Dict Str ℕ → Bool
any_expired now ttl k [] = false
any_expired now ttl k ((j, v) ∷ d) =
    let rest = any_expired now ttl k d in
    if bytes_eq j k then (if ltb (v + ttl) now then true else rest) else rest

get-prune_table :
    (now ttl : ℕ) (items table : Dict Str ℕ) (k : Str)
    → get k (prune_table now ttl items table)
      ≡ (if any_expired now ttl k items then none else get k table)
unfolding prune_table any_expired
get-prune_table now ttl [] table k = refl
get-prune_table now ttl ((j, v) ∷ items) table k = elim (Bool-cases (ltb (v + ttl) now)) [
  | inr fresh ↦ rw fresh (get-prune_table now ttl items table k ∙ ground arith)
  | inl old ↦
      rw old (get-prune_table now ttl items (del j table) k ∙ rw (get-del j k table) (ground arith))
]

not_any :
    (now ttl : ℕ) (k : Str) (d : Dict Str ℕ) → has k d ≡ false → any_expired now ttl k d ≡ false
unfolding any_expired has
not_any now ttl k [] h = refl
not_any now ttl k ((j, v) ∷ d) h = ground (arith, not_any now ttl k d)

any_expired-eq :
    (now ttl : ℕ) (k : Str) (d : Dict Str ℕ)
    → IsDict d
    → (if any_expired now ttl k d then none else get k d) ≡ unless_expired now ttl (get k d)
unfolding any_expired IsDict get unless_expired
any_expired-eq now ttl k [] h = refl
any_expired-eq now ttl k ((j, v) ∷ d) h = elim (Bool-cases (bytes_eq j k)) [
  | inr other ↦ rw other (any_expired-eq now ttl k d h.1)
  | inl same ↦
      let e : j ≡ k = (bytes_eq_iff j k).0 same in
      let gone : has k d ≡ false = ap (λ k. has k d) (sym e) ∙ h.0 in
      rw (same, not_any now ttl k d gone) (ground arith)
]

-- Of the hashes that are noted, exactly those are forgotten that are older than twice the time for
-- which messages are sent again; those of received and of sent messages alike.
pub get-prune_msg_ids :
    (now : ℕ) (c : Client) (k : Str)
    → IsDict c.recv_msg_ids
    → IsDict c.sent_msg_ids
    → let ttl : ℕ = c.republish_duration * second * 2 in
      (get k (prune_msg_ids now c).recv_msg_ids ≡ unless_expired now ttl (get k c.recv_msg_ids))
      × (get k (prune_msg_ids now c).sent_msg_ids ≡ unless_expired now ttl (get k c.sent_msg_ids))
unfolding prune_msg_ids
get-prune_msg_ids now c k hr hs =
    let ttl : ℕ = c.republish_duration * second * 2 in
    (
      get-prune_table now ttl c.recv_msg_ids c.recv_msg_ids k
          ∙ any_expired-eq now ttl k c.recv_msg_ids hr,
      get-prune_table now ttl c.sent_msg_ids c.sent_msg_ids k
          ∙ any_expired-eq now ttl k c.sent_msg_ids hs,
    )
