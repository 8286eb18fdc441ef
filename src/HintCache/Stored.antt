-- ===== src/HintCache/Stored.antt =====
-- The cache as a table of brokers by key: what store_for leaves, load_for finds.
use sidewire.Prelude.{
  ℕ, ◌≡◌, refl, sym, ap, ◌∙◌, true, Option, none, some, List, [], ◌∷◌, if◌then◌else◌, inl, inr,
  Bool-cases, text_eq, bytes_eq, arith,
}
use sidewire.Prelude.Results.{Result, ok}
use sidewire.Aionetiface.{Str}
use sidewire.Client.{seconds}
use sidewire.Brokers.{insert_by, sort_by}
use sidewire.HintCache.{
  ℤ, int_leb, Json, arr, obj, item, no_items, member, no_members, Items, Members, Hint, find,
  assign, as_int, as_str, fields_of, valid_entry, int_or_zero, ts_of, read_entries, by_recency,
  read_brokers, read_entry, load_for, load_all, broker_json, add_valid, serialisable, with_entries,
  store_for, brokers_key, af_key, host_key, port_key,
}
use sidewire.HintCache.Same.{SameJson, find-member, load_for-same}

find-assign :
    (k j : Str) (v : Json) (m : Members)
    → find j (assign k v m) ≡ (if text_eq.beq k j then some v else find j m)
unfolding find assign
find-assign k j v no_members = refl
find-assign k j v (member i w m) =
    ground
      (arith, text_eq.beq_iff k j, text_eq.beq_iff i k, text_eq.beq_iff i j, find-assign k j v m)

-- The entries of a list that have the three fields, all with the time `ts`.
abbrev pub kept : Option Hint → List Hint → List Hint
kept none hs = hs
kept (some h) hs = h ∷ hs

pub stamped : ℤ → List Json → List Hint
stamped ts [] = []
stamped ts (b ∷ bs) = kept (valid_entry b ts) (stamped ts bs)

int_leb_refl : (t : ℤ) → int_leb t t ≡ true
unfolding int_leb
int_leb_refl (ℤ.pos n) = ground arith
int_leb_refl (ℤ.negsuc n) = ground arith

-- All entries have the time.
AllAt : ℤ → List Hint → Type 0
AllAt ts [] = Unit {0}
AllAt ts (h ∷ hs) = (h.ts ≡ ts) × AllAt ts hs

insert_by-AllAt :
    (of_str : Str → Result ℤ) (ts : ℤ) (h : Hint) (hs : List Hint)
    → h.ts ≡ ts
    → AllAt ts hs
    → insert_by (by_recency of_str) h hs ≡ h ∷ hs
unfolding AllAt insert_by
insert_by-AllAt of_str ts h [] e all = refl
insert_by-AllAt of_str ts h (x ∷ xs) e all =
    let le : int_leb x.ts h.ts ≡ true = rw (all.0, e) (int_leb_refl ts) in rw le refl

sort_by-AllAt :
    (of_str : Str → Result ℤ) (ts : ℤ) (hs : List Hint)
    → AllAt ts hs
    → sort_by (by_recency of_str) hs ≡ hs
unfolding AllAt sort_by
sort_by-AllAt of_str ts [] all = refl
sort_by-AllAt of_str ts (h ∷ hs) all =
    rw (sort_by-AllAt of_str ts hs all.1) (insert_by-AllAt of_str ts h hs all.0 all.1)

fields_of-ts :
    (af : Option ℤ) (host : Option Str) (port : Option ℤ) (ts : ℤ) (h : Hint)
    → fields_of af host port ts ≡ some h
    → h.ts ≡ ts
unfolding fields_of
fields_of-ts (some af) (some host) (some port) ts h e =
    ap (λ o. elim o [ none ↦ ts | some x ↦ x.ts ]) (sym e)
fields_of-ts none host port ts h e = absurd (cc e)
fields_of-ts (some af) none port ts h e = absurd (cc e)
fields_of-ts (some af) (some host) none ts h e = absurd (cc e)

valid_entry-ts : (b : Json) (ts : ℤ) (h : Hint) → valid_entry b ts ≡ some h → h.ts ≡ ts
unfolding valid_entry
valid_entry-ts (obj m) ts h e =
    fields_of-ts (as_int (find af_key m)) (as_str (find host_key m)) (as_int (find port_key m)) ts h
      e
valid_entry-ts Json.null ts h e = absurd (cc e)
valid_entry-ts (Json.bool b) ts h e = absurd (cc e)
valid_entry-ts (Json.int i) ts h e = absurd (cc e)
valid_entry-ts (Json.float r) ts h e = absurd (cc e)
valid_entry-ts (Json.str s) ts h e = absurd (cc e)
valid_entry-ts (arr xs) ts h e = absurd (cc e)

kept-AllAt :
    (ts : ℤ) (o : Option Hint) (hs : List Hint)
    → ((h : Hint) → o ≡ some h → h.ts ≡ ts)
    → AllAt ts hs
    → AllAt ts (kept o hs)
unfolding AllAt
kept-AllAt ts none hs at all = all
kept-AllAt ts (some h) hs at all = (at h refl, all)

stamped-AllAt : (ts : ℤ) (bs : List Json) → AllAt ts (stamped ts bs)
unfolding stamped AllAt
stamped-AllAt ts [] = tt
stamped-AllAt ts (b ∷ bs) =
    kept-AllAt ts (valid_entry b ts) (stamped ts bs) (valid_entry-ts b ts) (stamped-AllAt ts bs)

-- What a table of brokers by key becomes: a list that is not empty replaces that of its key.
abbrev pub updated : Str → List Hint → (Str → Result (List Hint)) → Str → Result (List Hint)
updated key [] cache k = cache k
updated key (h ∷ hs) cache k = if text_eq.beq key k then ok (h ∷ hs) else cache k

-- The entries as they are written.
items_of : List Hint → Items
items_of [] = no_items
items_of (h ∷ hs) = item (broker_json h) (items_of hs)

add_valid-items_of :
    (o : Option Hint) (hs : List Hint) → add_valid o (items_of hs) ≡ items_of (kept o hs)
unfolding items_of
add_valid-items_of none hs = refl
add_valid-items_of (some h) hs = refl

serialisable-stamped : (ts : ℤ) (bs : List Json) → serialisable ts bs ≡ items_of (stamped ts bs)
unfolding serialisable stamped items_of
serialisable-stamped ts [] = refl
serialisable-stamped ts (b ∷ bs) =
    ap (add_valid (valid_entry b ts)) (serialisable-stamped ts bs)
    ∙ add_valid-items_of (valid_entry b ts) (stamped ts bs)

-- What load_json_or_default finds after store_for: what was there, or what was written as it is read.
abbrev pub disk_after : (Json → Json) → Json → Option Json → Json
disk_after reload on_disk none = on_disk
disk_after reload on_disk (some j) = reload j

module _ (int_of_str : Str → Result ℤ) where
  read-items_of : (hs : List Hint) → read_entries int_of_str (items_of hs) ≡ ok hs
  unfolding items_of read_entries valid_entry ts_of int_or_zero find as_int as_str fields_of
      bytes_eq
  read-items_of [] = refl
  read-items_of (h ∷ hs) = rw (read-items_of hs) refl

  read-written :
      (ts : ℤ) (hs : List Hint)
      → AllAt ts hs
      → read_entry int_of_str (some (obj (member brokers_key (arr (items_of hs)) no_members)))
        ≡ ok hs
  unfolding read_entry read_brokers
  read-written ts hs all =
      rw (find-member brokers_key (arr (items_of hs)) no_members, read-items_of hs)
        (ap ok (sort_by-AllAt int_of_str ts hs all))

  load_for-assign :
      (key k : Str) (v : Json) (m : Members)
      → load_for int_of_str k (assign key v m)
        ≡ (if text_eq.beq key k then read_entry int_of_str (some v) else load_for int_of_str k m)
  unfolding load_for
  load_for-assign key k v m =
      ap (read_entry int_of_str) (find-assign key k v m) ∙ elim (Bool-cases (text_eq.beq key k)) [
        | inl yes_key ↦ rw yes_key refl
        | inr no_key ↦ rw no_key refl
      ]

  module _ (key : Str) (on_disk : Json) (reload : Json → Json)
      (same_file : (j : Json) → SameJson j (reload j)) (k : Str) where
    written :
        (ts : ℤ) (hs : List Hint)
        → AllAt ts hs
        → load_for int_of_str k (
            load_all
              (disk_after reload on_disk (with_entries key (items_of hs) (load_all on_disk))))
          ≡ updated key hs (λ i. load_for int_of_str i (load_all on_disk)) k
    unfolding items_of
    written ts [] all = refl
    written ts (h ∷ hs) all =
        load_for-same int_of_str k _ (same_file _)
        ∙ load_for-assign key k _ (load_all on_disk)
        ∙ elim (Bool-cases (text_eq.beq key k)) [
          | inl this_key ↦ rw this_key (read-written ts (h ∷ hs) all)
          | inr other_key ↦ rw other_key refl
        ]

    -- load_for sees the file as a table of brokers by key. store_for replaces in it the brokers of its
    -- key by those of its list that have an af, a host and a port, stamped with the time, in their order,
    -- and changes nothing if there is none; the other keys stay. This holds if the file is read back as
    -- it was written, up to the order of keys.
    pub load_for-store_for :
        (brokers : List Json) (now : ℕ)
        → load_for int_of_str k
            (load_all (disk_after reload on_disk (store_for key brokers now on_disk)))
          ≡ updated key
              (stamped (ℤ.pos (seconds now)) brokers)
              (λ i. load_for int_of_str i (load_all on_disk))
              k
    unfolding store_for
    load_for-store_for brokers now =
        let ts = ℤ.pos (seconds now) in
        rw (serialisable-stamped ts brokers)
          (written ts (stamped ts brokers) (stamped-AllAt ts brokers))
