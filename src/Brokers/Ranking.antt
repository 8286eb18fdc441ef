-- ===== src/Brokers/Ranking.antt =====
-- rendezvous_hash: peers with the same servers rank them alike.
use mathlib.Core.List.{Permᴰ}
use sidewire.Prelude.{
  ℕ, ◌≡◌, refl, ap, inl, inr, Bool, true, Option, none, some, List, [], ◌∷◌, map, ltb, nat_eq,
}
use sidewire.Prelude.Results.{ok, Result-cases}
use sidewire.Prelude.Dict.{Dict, get, put}
use sidewire.Aionetiface.{Aionetiface, Bytes, Str, str}
use sidewire.Brokers.{
  Server, Servers, get_server_score, score_servers, by_score, bucket_of, fill_buckets,
  rendezvous_hash,
}
use sidewire.Brokers.Sorting.{IsOrder, AllApart, sort_by-perm}

map-perm : {A B : Type 0} (f : A → B) {xs ys : List A} → Permᴰ xs ys → Permᴰ (map f xs) (map f ys)
map-perm f Permᴰ.nil = Permᴰ.nil
map-perm f (Permᴰ.cons e p) = Permᴰ.cons (ap f e) (map-perm f p)
map-perm f (Permᴰ.swap e g) = Permᴰ.swap (ap f e) (ap f g)
map-perm f (Permᴰ.trans p q) = Permᴰ.trans (map-perm f p) (map-perm f q)

module _ {Score : Type 0} (not_above : Score → Score → Bool) (score : Bytes → Bytes → Bytes → Score)
    (lib : Aionetiface) where
  -- The score of a server, for a key that has been converted.
  abbrev pub scored : ℕ → Bytes → Str × Server → Score × Server
  scored af key (host, server) = (score (af ∷ []) key (lib.to_b (str host)), server)

  score_servers-map :
      (af : ℕ) (pub_key_hex : Str) (key : Bytes) (table : Dict Str Server)
      → ltb af 256 ≡ true
      → lib.h_to_b pub_key_hex ≡ ok key
      → score_servers not_above score lib af pub_key_hex table ≡ ok (map (scored af key) table)
  unfolding score_servers get_server_score
  score_servers-map af pub_key_hex key [] small e = refl
  score_servers-map af pub_key_hex key ((host, server) ∷ table) small e =
      rw (small, e, score_servers-map af pub_key_hex key table small e) refl

  module _ (pub_key_hex : Str) (key : Bytes) where
    -- Two tables of one family with the same entries, in some order. No two servers have the same
    -- score for the key.
    pub data SameTable (af : ℕ) : Option (Dict Str Server) → Option (Dict Str Server) → Type 0 where
      missing : SameTable af none none
      table :
          (t t' : Dict Str Server)
          → ltb af 256 ≡ true
          → Permᴰ t t'
          → AllApart (by_score not_above score lib) (map (scored af key) t)
          → SameTable af (some t) (some t')

    bucket_of-same :
        (af : ℕ) (o o' : Option (Dict Str Server))
        → IsOrder (by_score not_above score lib)
        → lib.h_to_b pub_key_hex ≡ ok key
        → SameTable af o o'
        → bucket_of not_above score lib af pub_key_hex o
          ≡ bucket_of not_above score lib af pub_key_hex o'
    unfolding bucket_of
    bucket_of-same af _ _ order valid missing = refl
    bucket_of-same af _ _ order valid (table t t' small p apart) =
        rw
          (
            score_servers-map af pub_key_hex key t small valid,
            score_servers-map af pub_key_hex key t' small valid,
          )
          (ap ok (sort_by-perm _ order (map-perm (scored af key) p) apart))

    fill_buckets-same :
        (afs : List ℕ) (servers servers' : Servers) (done : Dict ℕ (List (Score × Server)))
        → IsOrder (by_score not_above score lib)
        → lib.h_to_b pub_key_hex ≡ ok key
        → ((af : ℕ) → SameTable af (get af servers) (get af servers'))
        → fill_buckets not_above score lib afs pub_key_hex servers done
          ≡ fill_buckets not_above score lib afs pub_key_hex servers' done
    unfolding fill_buckets
    fill_buckets-same [] servers servers' done order valid same = refl
    fill_buckets-same (af ∷ afs) servers servers' done order valid same =
        rw (bucket_of-same af (get af servers) (get af servers') order valid (same af))
          (elim (Result-cases (bucket_of not_above score lib af pub_key_hex (get af servers'))) [
            | inl (x, e) ↦ rw e refl
            | inr (bucket, e) ↦
                rw e (fill_buckets-same afs servers servers' (put af bucket done) order valid same)
          ])

    -- Two peers that support the same address families, by the same numbers, and whose tables have the
    -- same servers, in whatever order, rank the brokers of a key alike: same buckets, each in the same order. This is for a key in hex, families below 256,
    -- scores in a total order, and tables in which no two servers tie.
    pub rendezvous_hash-same :
        (supported : List ℕ) (servers servers' : Servers)
        → IsOrder (by_score not_above score lib)
        → lib.h_to_b pub_key_hex ≡ ok key
        → ((af : ℕ) → SameTable af (get af servers) (get af servers'))
        → rendezvous_hash not_above score lib supported pub_key_hex servers
          ≡ rendezvous_hash not_above score lib supported pub_key_hex servers'
    unfolding rendezvous_hash
    rendezvous_hash-same supported servers servers' order valid same =
        fill_buckets-same supported servers servers' [] order valid same
