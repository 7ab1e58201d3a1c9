-- ===== src/Agent/Bounded.antt =====
-- graph/agent/bounded.rs: tasks that a bounded number of worker threads takes from one queue.
pub mod Order
pub mod Threads
pub mod Finish
use ffhn.Base.{
  ℕ, suc, ◌+◌, ◌*◌, ◌<◌, ◌≡◌, min, Bool, true, false, List, [], ◌∷◌, ◌++◌, map, length, ltb, ◌==◌,
  if◌then◌else◌,
}
use ffhn.Base.Errors.{CoreResult, contract, ok, err, ◌>>=◌}

module _ {T R : Type 0} (operation : T → CoreResult R) where
  -- `enumerate`, from the given index.
  abbrev pub enumerate : ℕ → List T → List (ℕ × T)
  enumerate index [] = []
  enumerate index (task ∷ tasks) = (index, task) ∷ enumerate (suc index) tasks

  -- The queue, the tasks that the workers hold, and the results in the order of their sending.
  pub record Pool : Type 0 where
    pub queue : List (ℕ × T)
    pub running : List (ℕ × T)
    pub sent : List (ℕ × CoreResult R)

  abbrev pub pool_start : List T → Pool
  pool_start pending = record { queue = enumerate 0 pending; running = []; sent = [] }

  abbrev pub run_task : ℕ × T → ℕ × CoreResult R
  run_task (index, task) = (index, operation task)

  -- What one worker does at a time: an idle one takes the front of the queue, and one that holds a task
  -- completes it and sends the result.
  pub data WorkerStep (worker_count : ℕ) : Pool → Pool → Type 0 where
    take :
        (task : ℕ × T) (queue running : List (ℕ × T)) (sent : List (ℕ × CoreResult R))
        → length running < worker_count
        → WorkerStep worker_count
            (record { queue = task ∷ queue; running = running; sent = sent })
            (record { queue = queue; running = task ∷ running; sent = sent })
    send :
        (queue front : List (ℕ × T)) (task : ℕ × T) (back : List (ℕ × T))
        (sent : List (ℕ × CoreResult R))
        → WorkerStep worker_count
            (record { queue = queue; running = front ++ (task ∷ back); sent = sent })
            (record { queue = queue; running = front ++ back; sent = run_task task ∷ sent })

  pub data WorkerSteps (worker_count : ℕ) : Pool → Pool → Type 0 where
    stay : {p : Pool} → WorkerSteps worker_count p p
    then_step :
        {p q r : Pool}
        → WorkerSteps worker_count p q
        → WorkerStep worker_count q r
        → WorkerSteps worker_count p r

  -- `sort_unstable_by_key(|(index, _)| *index)`.
  abbrev pub insert_by_key : ℕ × CoreResult R → List (ℕ × CoreResult R) → List (ℕ × CoreResult R)
  insert_by_key a [] = a ∷ []
  insert_by_key a (b ∷ rest) =
      let later = insert_by_key a rest in if ltb a.0 b.0 then a ∷ b ∷ rest else b ∷ later

  abbrev pub sort_by_key : List (ℕ × CoreResult R) → List (ℕ × CoreResult R)
  sort_by_key [] = []
  sort_by_key (a ∷ rest) = insert_by_key a (sort_by_key rest)

  -- `collect` into a `Result`: the first error, or all the values.
  abbrev pub collect : List (CoreResult R) → CoreResult (List R)
  collect [] = ok []
  collect (result ∷ rest) = result >>= λ value. collect rest >>= λ values. ok (value ∷ values)

  abbrev pub worker_count_of : List T → ℕ → ℕ
  worker_count_of pending jobs = min jobs (length pending)

  -- What `run_bounded` returns when the workers have sent these results; the newest is the first here.
  unfoldable pub run_bounded : ℕ → List (ℕ × CoreResult R) → CoreResult (List R)
  run_bounded jobs sent =
      if jobs == 0
      then err (contract "bounded runner jobs must be positive")
      else collect (map (λ result. result.1) (sort_by_key sent))
