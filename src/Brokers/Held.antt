-- ===== src/Brokers/Held.antt =====
-- What the walks of the families keep true together.
use sidewire.Prelude.{
  ℕ, zero, suc, ◌≡◌, refl, subst, inl, inr, Bool, true, false, List, [], ◌∷◌, ◌++◌, map,
  if◌then◌else◌, ◌==◌, length, take, Bool-cases, arith,
}
use sidewire.Prelude.Results.{Result, ok, raised}
use sidewire.Brokers.Walk.{Store, contains, drop_task, needed_of}
use sidewire.Brokers.Gather.{Walk, begin_walk, consume, settle, update, join_found}
use sidewire.Brokers.Candidates.{contains-append}
use sidewire.Brokers.Found.{Sound, Within, begin_walk-Sound, contains-snoc}
use sidewire.Brokers.Tried.{has_task, AllTasks, Keeps}

-- What is found is what the walks of the candidates found, one after the other.
pub Joined : List (List ℕ) → List ℕ → Type 0
Joined [] found = found ≡ []
Joined (c ∷ cs) found =
    (part : List ℕ) × (rest : List ℕ) × (found ≡ part ++ rest)
    × Within (needed_of (length c)) (contains (take 10 c)) part
    × Joined cs rest

-- Each list of candidates has its walk, which is sound and has found clients with a dispatcher.
pub Held : Store → List (List ℕ) → List Walk → Type 0
Held s [] ws = Unit {0}
Held s (c ∷ cs) [] = ⊥
Held s (c ∷ cs) (w ∷ ws) = (Sound c w × AllTasks w.af_found s) × Held s cs ws

begin_walk-found : (candidates : List ℕ) → (begin_walk candidates).af_found ≡ []
unfolding begin_walk
begin_walk-found candidates = elim (Bool-cases (needed_of (length candidates) == 0)) [
  | inl idle ↦ rw idle refl
  | inr busy ↦ rw busy refl
]

pub Held-begin :
    (s : Store) (cs : List (List ℕ)) (old : List Walk) → Held s cs (map begin_walk cs ++ old)
unfolding Held AllTasks begin_walk contains
Held-begin s [] old = tt
Held-begin s (c ∷ cs) old =
    ((begin_walk-Sound c, rw (begin_walk-found c) (λ i m. absurd (cc m))), Held-begin s cs old)

pub Held-later :
    (s s' : Store) (cs : List (List ℕ)) (ws : List Walk) → Keeps s s' → Held s cs ws → Held s' cs ws
unfolding Held AllTasks
Held-later s s' [] ws keeps h = tt
Held-later s s' (c ∷ cs) [] keeps h = absurd h
Held-later s s' (c ∷ cs) (w ∷ ws) keeps ((sound, tasks), h) =
    ((sound, λ i at. keeps i (tasks i at)), Held-later s s' cs ws keeps h)

pub Held-update :
    (s : Store) (f : Walk → Walk) (k : ℕ) (cs : List (List ℕ)) (ws : List Walk)
    → ((c : List ℕ) (w : Walk)
        → Sound c w
        → AllTasks w.af_found s
        → Sound c (f w) × AllTasks (f w).af_found s)
    → Held s cs ws
    → Held s cs (update k f ws)
unfolding Held update
Held-update s f k [] ws step h = tt
Held-update s f k (c ∷ cs) [] step h = absurd h
Held-update s f zero (c ∷ cs) (w ∷ ws) step ((sound, tasks), h) = (step c w sound tasks, h)
Held-update s f (suc k) (c ∷ cs) (w ∷ ws) step (here, h) = (here, Held-update s f k cs ws step h)

pub settle-AllTasks :
    (s : Store) (i : ℕ) (r : Result Bool) (w : Walk)
    → (r ≡ ok true → has_task (s.member i).dispatcher_task ≡ true)
    → AllTasks w.af_found s
    → AllTasks (settle i r w).af_found s
unfolding settle consume AllTasks
settle-AllTasks s i r w found tasks = go (contains w.tasks i) w.is_open r found
  where
    dropped : Walk
    dropped = record w { tasks = drop_task i w.tasks }

    go :
        (at is_open : Bool) (r : Result Bool)
        → (r ≡ ok true → has_task (s.member i).dispatcher_task ≡ true)
        → AllTasks (if at then (if is_open then consume r i dropped else dropped) else w).af_found s
    go false is_open r found = tasks
    go true false r found = tasks
    go true true (raised x) found = tasks
    go true true (ok false) found = tasks
    go true true (ok true) found = λ j at. elim (Bool-cases (i == j)) [
      | inl here ↦
          let same : i ≡ j = ground (arith, here) in
          subst (λ k. has_task (s.member k).dispatcher_task ≡ true) same (found refl)
      | inr other ↦ tasks j (ground (arith, contains-snoc w.af_found i j, at, other))
    ]

-- What the first walks have found.
pub Held-join :
    (s : Store) (cs : List (List ℕ)) (ws : List Walk)
    → Held s cs ws
    → Joined cs (join_found (take (length cs) ws)) × AllTasks (join_found (take (length cs) ws)) s
unfolding Held Joined AllTasks join_found contains
Held-join s [] ws h = (refl, λ i m. absurd (cc m))
Held-join s (c ∷ cs) [] h = absurd h
Held-join s (c ∷ cs) (w ∷ ws) ((sound, tasks), h) =
    let (joined, more) = Held-join s cs ws h in
    let rest : List ℕ = join_found (take (length cs) ws) in
    (
      (
        w.af_found,
        rest,
        refl,
        subst (λ n. Within n (contains (take 10 c)) w.af_found) sound.wanted sound.within,
        joined,
      ),
      λ i m. elim (Bool-cases (contains w.af_found i)) [
        | inl here ↦ tasks i here
        | inr later ↦ more i (ground (arith, contains-append w.af_found rest i, m, later))
      ],
    )
