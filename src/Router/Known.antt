-- ===== src/Router/Known.antt =====
-- Which clients a router knows, and which handlers a client has.
use sidewire.Prelude.{
  ℕ, ◌≡◌, refl, sym, ap, ◌∙◌, inl, inr, true, ◌||◌, some, List, [], ◌∷◌, ◌++◌, ◌==◌, Bool-cases,
  nat_eq, text_eq, arith,
}
use sidewire.Prelude.Dict.{Dict, get, put}
use sidewire.Aionetiface.{Str}
use sidewire.Client.{Client}
use sidewire.Brokers.Walk.{Clients, contains}
use sidewire.Brokers.Candidates.{contains-append}
use sidewire.Router.{add_handler, add_handlers, of_hosts, all_clients}

pub contains-snoc :
    (hs : List ℕ) (h j : ℕ) → contains (hs ++ (h ∷ [])) j ≡ contains hs j || (h == j)
unfolding contains
contains-snoc hs h j = ground (arith, contains-append hs (h ∷ []) j)

pub contains-add_handler :
    (h j : ℕ) (c : Client)
    → contains (add_handler h c).msg_handlers j ≡ contains c.msg_handlers j || (h == j)
unfolding add_handler
contains-add_handler h j c = elim (Bool-cases (contains c.msg_handlers h)) [
  | inl old ↦ elim (Bool-cases (h == j)) [
    | inl here ↦
        let e : contains c.msg_handlers j ≡ true =
          ap (contains c.msg_handlers) (sym (same here)) ∙ old in
        rw (old, add_handler) (ground (arith, e))
    | inr there ↦ rw (old, add_handler) (ground (arith, there))
  ]
  | inr new ↦ rw (new, add_handler) (contains-snoc c.msg_handlers h j)
]
  where
    same : h == j ≡ true → h ≡ j
    same e = ground (arith, e)

pub contains-add_handlers :
    (hs : List ℕ) (j : ℕ) (c : Client)
    → contains (add_handlers hs c).msg_handlers j ≡ contains hs j || contains c.msg_handlers j
unfolding add_handlers contains
contains-add_handlers [] j c = refl
contains-add_handlers (h ∷ hs) j c =
    ground (arith, contains-add_handlers hs j (add_handler h c), contains-add_handler h j c)

pub contains-of_hosts :
    (host : Str) (n i : ℕ) (hosts : Dict Str ℕ)
    → contains (of_hosts (put host n hosts)) i ≡ true
    → (n == i) || contains (of_hosts hosts) i ≡ true
unfolding of_hosts put contains
contains-of_hosts host n i [] h = ground (arith, h)
contains-of_hosts host n i ((k, j) ∷ hosts) h = elim (Bool-cases (text_eq.beq k host)) [
  | inl old ↦
      let e : of_hosts (put host n ((k, j) ∷ hosts)) ≡ n ∷ of_hosts hosts = rw (old, put) refl in
      ground (arith, ap (λ js. contains js i) e, h)
  | inr new ↦
      let e : of_hosts (put host n ((k, j) ∷ hosts)) ≡ j ∷ of_hosts (put host n hosts) =
        rw (new, put) refl in
      ground (arith, ap (λ js. contains js i) e, h, contains-of_hosts host n i hosts)
]

pub contains-put :
    (af i : ℕ) (hosts : Dict Str ℕ) (clients : Clients)
    → contains (all_clients (put af hosts clients)) i ≡ true
    → contains (of_hosts hosts) i || contains (all_clients clients) i ≡ true
unfolding all_clients put contains
contains-put af i hosts [] h = ground (arith, contains-append (of_hosts hosts) [] i, h)
contains-put af i hosts ((k, old) ∷ clients) h = elim (Bool-cases (k == af)) [
  | inl here ↦
      let e : all_clients (put af hosts ((k, old) ∷ clients))
          ≡ of_hosts hosts ++ all_clients clients =
        rw (here, put) refl in
      ground (
        arith,
        ap (λ js. contains js i) e,
        h,
        contains-append (of_hosts hosts) (all_clients clients) i,
        contains-append (of_hosts old) (all_clients clients) i,
      )
  | inr there ↦
      let e : all_clients (put af hosts ((k, old) ∷ clients))
          ≡ of_hosts old ++ all_clients (put af hosts clients) =
        rw (there, put) refl in
      ground (
        arith,
        ap (λ js. contains js i) e,
        h,
        contains-append (of_hosts old) (all_clients (put af hosts clients)) i,
        contains-append (of_hosts old) (all_clients clients) i,
        contains-put af i hosts clients,
      )
]

pub contains-get :
    (af i : ℕ) (hosts : Dict Str ℕ) (clients : Clients)
    → get af clients ≡ some hosts
    → contains (of_hosts hosts) i ≡ true
    → contains (all_clients clients) i ≡ true
unfolding all_clients get contains
contains-get af i hosts [] e h = absurd (cc e)
contains-get af i hosts ((k, old) ∷ clients) e h = elim (Bool-cases (k == af)) [
  | inl here ↦
      let e1 : get af ((k, old) ∷ clients) ≡ some old = rw (here, get) refl in
      let e2 : old ≡ hosts = cc (e, e1) in
      ground (
        arith,
        contains-append (of_hosts old) (all_clients clients) i,
        ap (λ x. contains (of_hosts x) i) e2,
        h,
      )
  | inr there ↦
      let e1 : get af ((k, old) ∷ clients) ≡ get af clients = rw (there, get) refl in
      ground (
        arith,
        contains-append (of_hosts old) (all_clients clients) i,
        contains-get af i hosts clients (sym e1 ∙ e) h,
      )
]
