-- ===== src/Agent/Bounded/Order.antt =====
-- graph/agent/bounded.rs: the results are those of the tasks in their order, however the workers run.
use ffhn.Base.{
  append_nil, ℕ, suc, ◌<◌, ◌≡◌, ◌≢◌, ◌⊎◌, inl, inr, refl, ap, sym, ◌∙◌, Option, none, some, List,
  [], ◌∷◌, ◌++◌, map, All, All-append, ◌==◌, if◌then◌else◌, arith, Bool-cases, when_false,
}
use mathlib.Core.List.{append_assoc, map-append}
use ffhn.Base.Errors.{CoreResult, err, contract}
use ffhn.Agent.Bounded.{
  enumerate, Pool, pool_start, run_task, WorkerStep, WorkerSteps, take, send, stay, then_step,
  insert_by_key, sort_by_key, collect, worker_count_of, run_bounded,
}

module _ {T R : Type 0} (operation : T → CoreResult R) where
  abbrev Sent : Type 0
  Sent = ℕ × CoreResult R

  abbrev insert : Sent → List Sent → List Sent
  insert = insert_by_key operation

  abbrev sort : List Sent → List Sent
  sort = sort_by_key operation

  -- Two results that are in either order the same: of different keys, or equal.
  pub Commute : Sent → Sent → Type 0
  Commute a b = (a ≡ b) ⊎ (a.0 ≢ b.0)

  insert-insert :
      (a b : Sent) (l : List Sent) → a.0 ≢ b.0 → insert a (insert b l) ≡ insert b (insert a l)
  insert-insert a b [] d = ground arith
  insert-insert a b (c ∷ l) d = ground (arith, insert-insert a b l d)

  insert-Commute :
      (a b : Sent) (l : List Sent) → Commute a b → insert a (insert b l) ≡ insert b (insert a l)
  unfolding Commute
  insert-Commute a b l (inl e) = cc (e)
  insert-Commute a b l (inr d) = insert-insert a b l d

  -- The first result of a list can stand anywhere in it.
  sort-middle :
      (xs : List Sent) (a : Sent) (ys : List Sent)
      → All (Commute a) xs
      → sort (xs ++ (a ∷ ys)) ≡ insert a (sort (xs ++ ys))
  sort-middle [] a ys h = refl
  sort-middle (x ∷ xs) a ys h =
      ap (insert x) (sort-middle xs a ys h.1) ∙ sym (insert-Commute a x (sort (xs ++ ys)) h.0)

  -- A result can stand behind others.
  sort-move :
      (xs : List Sent) (a : Sent) (ys zs : List Sent)
      → All (Commute a) xs
      → All (Commute a) ys
      → sort (xs ++ (a ∷ (ys ++ zs))) ≡ sort (xs ++ (ys ++ (a ∷ zs)))
  sort-move xs a ys zs h k =
      sort-middle xs a (ys ++ zs) h
      ∙ (ap (λ l. insert a (sort l)) (sym (append_assoc xs ys zs))
          ∙ (sym (sort-middle (xs ++ ys) a zs (All-append (Commute a) xs ys h k))
              ∙ ap sort (append_assoc xs ys (a ∷ zs))))

  -- The results agree with a table of them.
  abbrev Agrees : (ℕ → Option (CoreResult R)) → Sent → Type 0
  Agrees table e = table e.0 ≡ some e.1

  agree-Commute :
      (table : ℕ → Option (CoreResult R)) (a b : Sent)
      → Agrees table a
      → Agrees table b
      → Commute a b
  unfolding Commute
  agree-Commute table a b h k = elim (Bool-cases (a.0 == b.0)) [
    | inl e ↦
        let same_key : a.0 ≡ b.0 = ground arith in
        let same_value : a.1 ≡ b.1 = cc (h, k, ap table same_key) in
        inl (λ i. (same_key i, same_value i))
    | inr e ↦ inr (λ q. ground arith)
  ]

  agree-All :
      (table : ℕ → Option (CoreResult R)) (a : Sent) (l : List Sent)
      → Agrees table a
      → All (Agrees table) l
      → All (Commute a) l
  agree-All table a [] h k = tt
  agree-All table a (b ∷ l) h k = (agree-Commute table a b h k.0, agree-All table a l h k.1)

  abbrev run : ℕ × T → Sent
  run = run_task operation

  map-front :
      (P : Sent → Type 0) (xs ys : List (ℕ × T)) → All P (map run (xs ++ ys)) → All P (map run xs)
  map-front P [] ys h = tt
  map-front P (x ∷ xs) ys h = (h.0, map-front P xs ys h.1)

  map-back :
      (P : Sent → Type 0) (xs ys : List (ℕ × T)) → All P (map run (xs ++ ys)) → All P (map run ys)
  map-back P [] ys h = h
  map-back P (x ∷ xs) ys h = map-back P xs ys h.1

  map-join :
      (P : Sent → Type 0) (xs ys : List (ℕ × T))
      → All P (map run xs)
      → All P (map run ys)
      → All P (map run (xs ++ ys))
  map-join P [] ys h k = k
  map-join P (x ∷ xs) ys h k = (h.0, map-join P xs ys h.1 k)

  -- The results that are sent and those that the tasks in the pool will have.
  all_of : Pool operation → List Sent
  all_of p = map run p.queue ++ (map run p.running ++ p.sent)

  Consistent : (ℕ → Option (CoreResult R)) → Pool operation → Type 0
  Consistent table p =
      All (Agrees table) (map run p.queue)
      × All (Agrees table) (map run p.running)
      × All (Agrees table) p.sent

  step-keeps :
      (table : ℕ → Option (CoreResult R)) {n : ℕ} {p q : Pool operation}
      → WorkerStep operation n p q
      → Consistent table p
      → Consistent table q × (sort (all_of p) ≡ sort (all_of q))
  unfolding Consistent all_of
  step-keeps table (take task queue running sent l) (a, b, c) = (
    (a.1, (a.0, b), c),
    sym (
        sort-middle (map run queue) (run task) (map run running ++ sent)
          (agree-All table (run task) (map run queue) a.0 a.1)),
  )
  step-keeps table (send queue front task back sent) (a, b, c) =
      let mine = map-back (Agrees table) front (task ∷ back) b in
      let in_front = map-front (Agrees table) front (task ∷ back) b in
      (
        (a, map-join (Agrees table) front back in_front mine.1, (mine.0, c)),
        ap sort (
              ap (λ l. map run queue ++ (l ++ sent)) (map-append run front (task ∷ back))
              ∙ (ap (λ l. map run queue ++ l)
                    (append_assoc (map run front) (run task ∷ map run back) sent)
                  ∙ sym (
                      append_assoc (map run queue) (map run front)
                        (run task ∷ (map run back ++ sent)))))
            ∙ (sort-move (map run queue ++ map run front) (run task) (map run back) sent
                  (All-append (Commute (run task)) (map run queue) (map run front)
                    (agree-All table (run task) (map run queue) mine.0 a)
                    (agree-All table (run task) (map run front) mine.0 in_front))
                  (agree-All table (run task) (map run back) mine.0 mine.1)
                ∙ ap sort (
                    append_assoc (map run queue) (map run front) (map run back ++ (run task ∷ sent))
                    ∙ (ap (λ l. map run queue ++ l)
                          (sym (append_assoc (map run front) (map run back) (run task ∷ sent)))
                        ∙ ap (λ l. map run queue ++ (l ++ (run task ∷ sent)))
                            (sym (map-append run front back))))),
      )

  steps-keep :
      (table : ℕ → Option (CoreResult R)) {n : ℕ} {p q : Pool operation}
      → WorkerSteps operation n p q
      → Consistent table p
      → Consistent table q × (sort (all_of p) ≡ sort (all_of q))
  steps-keep table stay c = (c, refl)
  steps-keep table (then_step before last) c =
      let (d, e) = steps-keep table before c in let (f, g) = step-keeps table last d in (f, e ∙ g)

  -- The results of the tasks in their order, with their indices.
  abbrev expected : ℕ → List T → List Sent
  expected k tasks = map run (enumerate operation k tasks)

  abbrev lookup : List Sent → ℕ → Option (CoreResult R)
  lookup [] k = none
  lookup (e ∷ l) k = if e.0 == k then some e.1 else lookup l k

  later_keys : (k j : ℕ) (tasks : List T) → k < j → All (λ e. k < e.0) (expected j tasks)
  later_keys k j [] h = tt
  later_keys k j (t ∷ tasks) h = (h, later_keys k (suc j) tasks (omega (arith, h)))

  keep_agreeing :
      (e : Sent) (table l : List Sent)
      → All (λ x. e.0 < x.0) l
      → All (Agrees (lookup table)) l
      → All (Agrees (lookup (e ∷ table))) l
  keep_agreeing e table [] h k = tt
  keep_agreeing e table (x ∷ l) h k = (ground (arith, h.0, k.0), keep_agreeing e table l h.1 k.1)

  expected-Agrees :
      (k : ℕ) (tasks : List T) → All (Agrees (lookup (expected k tasks))) (expected k tasks)
  expected-Agrees k [] = tt
  expected-Agrees k (t ∷ tasks) = (
    ground arith,
    keep_agreeing (k, operation t) (expected (suc k) tasks) (expected (suc k) tasks)
        (later_keys k (suc k) tasks (omega arith)) (expected-Agrees (suc k) tasks),
  )

  insert-first :
      (k : ℕ) (r : CoreResult R) (tasks : List T)
      → insert (k, r) (expected (suc k) tasks) ≡ (k, r) ∷ expected (suc k) tasks
  insert-first k r [] = refl
  insert-first k r (t ∷ tasks) = ground arith

  expected-sorted : (k : ℕ) (tasks : List T) → sort (expected k tasks) ≡ expected k tasks
  expected-sorted k [] = refl
  expected-sorted k (t ∷ tasks) =
      ap (insert (k, operation t)) (expected-sorted (suc k) tasks)
      ∙ insert-first k (operation t) tasks

  expected-results :
      (k : ℕ) (tasks : List T) → map (λ result. result.1) (expected k tasks) ≡ map operation tasks
  expected-results k [] = refl
  expected-results k (t ∷ tasks) = ap (λ l. operation t ∷ l) (expected-results (suc k) tasks)

  -- Whatever the workers do, in any interleaving: when the queue is empty and no worker holds a task, a
  -- run with a positive number of jobs returns the results of all tasks in the order of the tasks, or
  -- the error of the first task in that order that has one.
  pub run_bounded-order :
      (jobs : ℕ) (pending : List T) (sent : List Sent)
      → 0 < jobs
      → WorkerSteps operation
          (worker_count_of operation pending jobs)
          (pool_start operation pending)
          (record { queue = []; running = []; sent = sent })
      → run_bounded operation jobs sent ≡ collect operation (map operation pending)
  unfolding run_bounded Consistent all_of
  run_bounded-order jobs pending sent positive steps =
      let table = lookup (expected 0 pending) in
      let (c, e) = steps-keep table steps (expected-Agrees 0 pending, tt, tt) in
      let sorted : sort sent ≡ expected 0 pending =
        sym e ∙ (ap sort (append_nil (expected 0 pending)) ∙ expected-sorted 0 pending) in
      when_false {b = jobs == 0} (err (contract "bounded runner jobs must be positive")) _
        (ground arith)
      ∙ (ap (λ l. collect operation (map (λ result. result.1) l)) sorted
          ∙ ap (collect operation) (expected-results 0 pending))
