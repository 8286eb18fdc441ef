-- ===== src/Brokers/Found.antt =====
-- What the walk of one family keeps true.
use sidewire.Prelude.{
  ℕ, ◌≤◌, ◌<◌, ◌≡◌, refl, inl, inr, Bool, true, false, ◌||◌, List, [], ◌∷◌, ◌++◌, if◌then◌else◌,
  ◌==◌, length, take, Bool-cases, length-append, arith,
}
use sidewire.Prelude.Results.{Result, ok, raised}
use sidewire.Brokers.Walk.{contains, drop_task, needed_of}
use sidewire.Brokers.Gather.{Walk, begin_walk, consume, settle, stop}
use sidewire.Brokers.Candidates.{Distinct, Distinct-snoc, contains-append}

-- At most `needed` different numbers, each of which `among` accepts.
abbrev pub Within : ℕ → (ℕ → Bool) → List ℕ → Type 0
Within needed among found =
    Distinct found × (length found ≤ needed) × ((i : ℕ) → contains found i ≡ true → among i ≡ true)

pub contains-drop_task :
    (i j : ℕ) (tasks : List ℕ)
    → contains (drop_task i tasks) j ≡ (if i == j then false else contains tasks j)
unfolding contains drop_task
contains-drop_task i j [] = ground arith
contains-drop_task i j (t ∷ ts) = ground (arith, contains-drop_task i j ts)

pub contains-snoc :
    (xs : List ℕ) (i j : ℕ) → contains (xs ++ (i ∷ [])) j ≡ contains xs j || (i == j)
unfolding contains
contains-snoc xs i j = ground (arith, contains-append xs (i ∷ []) j)

-- A walk over `candidates`: what it has found are different candidates of the first ten that have no
-- task left, not more than it needs, and fewer while it collects.
pub record Sound (candidates : List ℕ) (w : Walk) : Type 0 where
  pub wanted : w.needed ≡ needed_of (length candidates)
  pub within : Within w.needed (contains (take 10 candidates)) w.af_found
  pub without_task : (i : ℕ) → contains w.af_found i ≡ true → contains w.tasks i ≡ false
  pub tasks_among : (i : ℕ) → contains w.tasks i ≡ true → contains (take 10 candidates) i ≡ true
  pub fewer : w.is_open ≡ true → length w.af_found < w.needed

pub begin_walk-Sound : (candidates : List ℕ) → Sound candidates (begin_walk candidates)
unfolding begin_walk contains
begin_walk-Sound candidates = elim (Bool-cases (needed_of (length candidates) == 0)) [
  | inl idle ↦ rw idle (record {
    wanted = ground (arith, idle);
    within = (tt, omega arith, λ i m. absurd (cc m));
    without_task = λ i m. absurd (cc m);
    tasks_among = λ i m. absurd (cc m);
    fewer = λ h. absurd (cc h);
  })
  | inr busy ↦ rw busy (record {
    wanted = refl;
    within = (tt, omega arith, λ i m. absurd (cc m));
    without_task = λ i m. absurd (cc m);
    tasks_among = λ i m. m;
    fewer = λ h. ground (arith, busy);
  })
]

pub stop-Sound : {candidates : List ℕ} {w : Walk} → Sound candidates w → Sound candidates (stop w)
unfolding stop
stop-Sound k = record {
  wanted = k.wanted;
  within = k.within;
  without_task = k.without_task;
  tasks_among = k.tasks_among;
  fewer = λ h. absurd (cc h);
}

dropped-Sound :
    {candidates : List ℕ} {w : Walk} (i : ℕ)
    → Sound candidates w
    → Sound candidates (record w { tasks = drop_task i w.tasks })
dropped-Sound {w = w} i k = record {
  wanted = k.wanted;
  within = k.within;
  without_task = λ j h. ground (arith, contains-drop_task i j w.tasks, k.without_task j h);
  tasks_among = λ j h. ground (arith, contains-drop_task i j w.tasks, k.tasks_among j);
  fewer = k.fewer;
}

untouched :
    {candidates : List ℕ} {w : Walk} (i : ℕ)
    → Sound candidates w
    → contains w.tasks i ≡ true
    → contains w.af_found i ≡ false
untouched {w = w} i k at = elim (Bool-cases (contains w.af_found i)) [
  | inl old ↦ absurd (ground (arith, k.without_task i old, at))
  | inr new ↦ new
]

found-Sound :
    {candidates : List ℕ} {w : Walk} (i : ℕ)
    → Sound candidates w
    → contains w.tasks i ≡ true
    → w.is_open ≡ true
    → Sound candidates (consume (ok true) i (record w { tasks = drop_task i w.tasks }))
unfolding consume
found-Sound {w = w} i k at is_open = record {
  wanted = k.wanted;
  within = (
    Distinct-snoc w.af_found i k.within.0 (untouched i k at),
    ground (arith, k.fewer is_open, length-append w.af_found (i ∷ [])),
    λ j m. ground (arith, contains-snoc w.af_found i j, m, k.within.2 j, k.tasks_among i at),
  );
  without_task = λ j h. elim (Bool-cases (contains w.af_found j)) [
    | inl old ↦ ground (arith, contains-drop_task i j w.tasks, k.without_task j old)
    | inr new ↦ ground (arith, contains-drop_task i j w.tasks, contains-snoc w.af_found i j)
  ];
  tasks_among = λ j h. ground (arith, contains-drop_task i j w.tasks, k.tasks_among j);
  fewer = λ h. ground (arith, h);
}

pub settle-Sound :
    {candidates : List ℕ} (w : Walk) (i : ℕ) (r : Result Bool)
    → Sound candidates w
    → Sound candidates (settle i r w)
unfolding settle consume stop
settle-Sound {candidates} w i r k = go (contains w.tasks i) w.is_open r refl refl
  where
    dropped : Walk
    dropped = record w { tasks = drop_task i w.tasks }

    go :
        (at is_open : Bool) (r : Result Bool)
        → contains w.tasks i ≡ at
        → w.is_open ≡ is_open
        → Sound candidates (if at then (if is_open then consume r i dropped else dropped) else w)
    go false is_open r e o = k
    go true false r e o = dropped-Sound i k
    go true true (raised x) e o = stop-Sound (dropped-Sound i k)
    go true true (ok false) e o = dropped-Sound i k
    go true true (ok true) e o = found-Sound i k e o
