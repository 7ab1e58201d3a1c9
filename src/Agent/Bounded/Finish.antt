-- ===== src/Agent/Bounded/Finish.antt =====
-- graph/agent/bounded.rs: every run ends, with the results of all tasks.
use ffhn.Base.{
  ℕ, zero, suc, ◌+◌, ◌*◌, ◌<◌, ◌≤◌, ◌≡◌, ◌⊎◌, inl, inr, refl, ap, ◌∙◌, List, [], ◌∷◌, map, length,
  length-append, arith, min,
}
use ffhn.Base.Errors.{CoreResult}
use ffhn.Agent.Bounded.{
  enumerate, Pool, pool_start, WorkerStep, WorkerSteps, take, send, stay, then_step, collect,
  worker_count_of, run_bounded,
}
use ffhn.Agent.Bounded.Order.{run_bounded-order}
use ffhn.Agent.Bounded.Threads.{
  Phase, joining, joined, sender_dropped, returned, BoundedRun, run_start, RunStep, worker, leave,
  join, drop_sender, receive, RunSteps, no_step, one_more,
}

module _ {T R : Type 0} (operation : T → CoreResult R) where
  -- The steps of the workers that are left: two for each task in the queue, and one for each that a
  -- worker holds.
  abbrev work : Pool operation → ℕ
  work p = 2 * length p.queue + length p.running

  abbrev phase_steps : Phase operation → ℕ
  phase_steps joining = 3
  phase_steps joined = 2
  phase_steps sender_dropped = 1
  phase_steps (returned result) = 0

  -- The steps that are left: those of the workers, one exit of each live worker, and those of the
  -- calling thread.
  abbrev left : BoundedRun operation → ℕ
  left r = work r.pool + (r.live + phase_steps r.phase)

  step-work : {n : ℕ} {p q : Pool operation} → WorkerStep operation n p q → work q < work p
  step-work (take task queue running sent l) = omega arith
  step-work (send queue front task back sent) =
      omega (arith, length-append front (task ∷ back), length-append front back)

  step-left : {jobs : ℕ} {q r : BoundedRun operation} → RunStep operation jobs q r → left r < left q
  step-left (worker live senders step) = omega (arith, step-work step)
  step-left (leave running sent live senders h) = omega arith
  step-left (join p senders) = omega arith
  step-left (drop_sender p live senders) = omega arith
  step-left (receive p live) = omega arith

  steps-left :
      {jobs k : ℕ} {q r : BoundedRun operation}
      → RunSteps operation jobs k q r
      → k + left r ≤ left q
  steps-left no_step = omega arith
  steps-left (one_more before step) = omega (arith, steps-left before, step-left step)

  length-enumerate :
      (index : ℕ) (tasks : List T) → length (enumerate operation index tasks) ≡ length tasks
  length-enumerate index [] = refl
  length-enumerate index (task ∷ tasks) = omega (arith, length-enumerate (suc index) tasks)

  module _ (pending : List T) (jobs : ℕ) where
    -- The senders and the live workers at each phase, and the result at the end.
    abbrev IsAt : Phase operation → ℕ → ℕ → Type 0
    IsAt joining live senders = senders ≡ live + 1
    IsAt joined live senders = (live ≡ 0) × (senders ≡ 1)
    IsAt sender_dropped live senders = (live ≡ 0) × (senders ≡ 0)
    IsAt (returned result) live senders = result ≡ collect operation (map operation pending)

    -- Only live workers hold tasks, and the queue is empty when none is left.
    abbrev Crew : Pool operation → ℕ → Type 0
    Crew p live =
        WorkerSteps operation (worker_count_of operation pending jobs)
          (pool_start operation pending) p
        × (live ≤ worker_count_of operation pending jobs)
        × (length p.running ≤ live)
        × (live ≡ 0 → length p.queue ≡ 0)

    Holds : BoundedRun operation → Type 0
    Holds r = Crew r.pool r.live × IsAt r.phase r.live r.senders

    more_workers :
        {m n : ℕ} {p q : Pool operation}
        → m ≤ n
        → WorkerStep operation m p q
        → WorkerStep operation n p q
    more_workers h (take task queue running sent l) = take task queue running sent (omega arith)
    more_workers h (send queue front task back sent) = send queue front task back sent

    worker-Crew :
        {live : ℕ} {p q : Pool operation}
        → WorkerStep operation live p q
        → Crew p live
        → Crew q live
    worker-Crew (take task queue running sent l) (steps, bound, held, idle) = (
      then_step steps (more_workers bound (take task queue running sent l)),
      bound,
      omega arith,
      λ e. omega arith,
    )
    worker-Crew (send queue front task back sent) (steps, bound, held, idle) = (
      then_step steps (send queue front task back sent),
      bound,
      omega (arith, length-append front (task ∷ back), length-append front back),
      idle,
    )

    none_left {ℓ} : {A : Type ℓ} (l : List A) → length l ≡ 0 → l ≡ []
    none_left [] e = refl
    none_left (x ∷ l) e = absurd (omega arith)

    ended :
        0 < jobs
        → (queue running : List (ℕ × T)) (sent : List (ℕ × CoreResult R)) → queue ≡ []
        → running ≡ []
        → WorkerSteps operation
            (worker_count_of operation pending jobs)
            (pool_start operation pending)
            (record { queue = queue; running = running; sent = sent })
        → run_bounded operation jobs sent ≡ collect operation (map operation pending)
    ended positive [] [] sent e f steps =
        run_bounded-order operation jobs pending sent positive steps
    ended positive [] (t ∷ running) sent e f steps = absurd (cc (f))
    ended positive (t ∷ queue) running sent e f steps = absurd (cc (e))

    result_of :
        (p : Pool operation) (live : ℕ)
        → 0 < jobs
        → live ≡ 0
        → Crew p live
        → run_bounded operation jobs p.sent ≡ collect operation (map operation pending)
    result_of p live positive e (steps, bound, held, idle) =
        ended positive p.queue p.running p.sent (none_left p.queue (idle e))
          (none_left p.running (omega arith)) steps

    step-Holds :
        0 < jobs → {q r : BoundedRun operation} → RunStep operation jobs q r → Holds q → Holds r
    unfolding Holds
    step-Holds positive (worker live senders step) (crew, at) = (worker-Crew step crew, at)
    step-Holds positive (leave running sent live senders h) ((steps, bound, held, idle), at) =
        ((steps, omega arith, omega arith, λ e. refl), omega arith)
    step-Holds positive (join p senders) (crew, at) = (crew, (refl, omega arith))
    step-Holds positive (drop_sender p live senders) (crew, at) = (crew, (at.0, omega arith))
    step-Holds positive (receive p live) (crew, at) = (crew, result_of p live positive at.0 crew)

    no_worker : 0 < jobs → (n : ℕ) → min jobs n ≡ 0 → n ≡ 0
    no_worker positive n e = omega arith

    start-Holds : 0 < jobs → Holds (run_start operation pending jobs)
    unfolding Holds
    start-Holds positive = (
      (
        stay,
        omega arith,
        omega arith,
        λ e. length-enumerate 0 pending ∙ no_worker positive (length pending) e,
      ),
      refl,
    )

    steps-Holds :
        0 < jobs
        → {k : ℕ} {r : BoundedRun operation}
        → RunSteps operation jobs k (run_start operation pending jobs) r
        → Holds r
    steps-Holds positive no_step = start-Holds positive
    steps-Holds positive (one_more before step) =
        step-Holds positive step (steps-Holds positive before)

    -- A live worker has a step.
    crew_step :
        (queue running : List (ℕ × T)) (sent : List (ℕ × CoreResult R)) (live senders : ℕ)
        → length running ≤ suc live
        → (r : BoundedRun operation) × RunStep operation jobs
            (record {
              pool = record { queue = queue; running = running; sent = sent };
              live = suc live;
              senders = suc senders;
              phase = joining;
            })
            r
    crew_step queue (task ∷ running) sent live senders h =
        (_, worker (suc live) (suc senders) (send queue [] task running sent))
    crew_step (task ∷ queue) [] sent live senders h =
        (_, worker (suc live) (suc senders) (take task queue [] sent (omega arith)))
    crew_step [] [] sent live senders h = (_, leave [] sent live senders (omega arith))

    continue :
        (p : Pool operation) (live senders : ℕ) (phase : Phase operation)
        → Crew p live
        → IsAt phase live senders
        → (phase ≡ returned (collect operation (map operation pending)))
          ⊎ ((r : BoundedRun operation) × RunStep operation jobs
                (record { pool = p; live = live; senders = senders; phase = phase })
                r)
    continue p zero senders joining crew at = inr (_, join p senders)
    continue p (suc live) zero joining crew at = absurd (omega arith)
    continue p (suc live) (suc senders) joining (steps, bound, held, idle) at =
        inr (crew_step p.queue p.running p.sent live senders held)
    continue p live zero joined crew at = absurd (omega (arith, at.1))
    continue p live (suc senders) joined crew at = inr (_, drop_sender p live senders)
    continue p live zero sender_dropped crew at = inr (_, receive p live)
    continue p live (suc senders) sender_dropped crew at = absurd (omega (arith, at.1))
    continue p live senders (returned result) crew at = inl (ap returned at)

    -- A run with a positive number of jobs ends, whatever the interleaving: from its start it has at most
    -- two steps for each task, one for each worker and three of the calling thread (the join of the
    -- workers, the drop of its sender and the receiver, which ends only when no sender is left); and a
    -- run that has not yet returned the results of all tasks in their order, or the first error among
    -- them, has a next step.
    pub run_bounded-returns :
        0 < jobs
        → {k : ℕ} {r : BoundedRun operation}
        → RunSteps operation jobs k (run_start operation pending jobs) r
        → (k ≤ 2 * length pending + worker_count_of operation pending jobs + 3)
          × ((r.phase ≡ returned (collect operation (map operation pending)))
              ⊎ ((q : BoundedRun operation) × RunStep operation jobs r q))
    unfolding Holds
    run_bounded-returns positive {r = r} steps =
        let (crew, at) = steps-Holds positive steps in
        (
          omega (arith, steps-left steps, length-enumerate 0 pending),
          continue r.pool r.live r.senders r.phase crew at,
        )
