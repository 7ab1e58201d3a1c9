-- ===== src/Agent/Bounded/Threads.antt =====
-- graph/agent/bounded.rs: the threads of one call of `run_bounded` and its channel of results.
use ffhn.Base.{ℕ, suc, ◌+◌, ◌<◌, List, [], length}
use ffhn.Base.Errors.{CoreResult}
use ffhn.Agent.Bounded.{Pool, pool_start, WorkerStep, worker_count_of, run_bounded}

module _ {T R : Type 0} (operation : T → CoreResult R) where
  -- Where the calling thread is: it waits in `thread::scope` for the workers, has left the scope, has
  -- dropped its own sender, or has returned.
  pub data Phase : Type 0 where
    joining joined sender_dropped : Phase
    returned : CoreResult (List R) → Phase

  -- The workers that have not left their loop, and the senders of the channel that are not dropped: one
  -- of each of these workers, and the one that the calling thread cloned them from.
  pub record BoundedRun : Type 0 where
    pub pool : Pool operation
    pub live : ℕ
    pub senders : ℕ
    pub phase : Phase

  -- The call after its test of `jobs`, with all workers spawned.
  abbrev pub run_start : List T → ℕ → BoundedRun
  run_start pending jobs = record {
    pool = pool_start operation pending;
    live = worker_count_of operation pending jobs;
    senders = worker_count_of operation pending jobs + 1;
    phase = joining;
  }

  pub data RunStep (jobs : ℕ) : BoundedRun → BoundedRun → Type 0 where
    -- A worker takes a task, or completes the one that it holds.
    worker :
        {p q : Pool operation} (live senders : ℕ)
        → WorkerStep operation live p q
        → RunStep jobs
            (record { pool = p; live = live; senders = senders; phase = joining })
            (record { pool = q; live = live; senders = senders; phase = joining })
    -- A worker that holds no task finds the queue empty: it leaves its loop, and its sender is dropped.
    leave :
        (running : List (ℕ × T)) (sent : List (ℕ × CoreResult R)) (live senders : ℕ)
        → length running < suc live
        → RunStep jobs
            (record {
              pool = record { queue = []; running = running; sent = sent };
              live = suc live;
              senders = suc senders;
              phase = joining;
            })
            (record {
              pool = record { queue = []; running = running; sent = sent };
              live = live;
              senders = senders;
              phase = joining;
            })
    -- All workers are joined.
    join :
        (p : Pool operation) (senders : ℕ)
        → RunStep jobs
            (record { pool = p; live = 0; senders = senders; phase = joining })
            (record { pool = p; live = 0; senders = senders; phase = joined })
    drop_sender :
        (p : Pool operation) (live senders : ℕ)
        → RunStep jobs
            (record { pool = p; live = live; senders = suc senders; phase = joined })
            (record { pool = p; live = live; senders = senders; phase = sender_dropped })
    -- The receiver ends its iteration only when the channel has no sender.
    receive :
        (p : Pool operation) (live : ℕ)
        → RunStep jobs
            (record { pool = p; live = live; senders = 0; phase = sender_dropped })
            (record {
              pool = p;
              live = live;
              senders = 0;
              phase = returned (run_bounded operation jobs p.sent);
            })

  -- So many steps from one state of a run to another.
  pub data RunSteps (jobs : ℕ) : ℕ → BoundedRun → BoundedRun → Type 0 where
    no_step : {r : BoundedRun} → RunSteps jobs 0 r r
    one_more :
        {k : ℕ} {q r s : BoundedRun}
        → RunSteps jobs k q r
        → RunStep jobs r s
        → RunSteps jobs (suc k) q s
