-- ===== src/Examples/Workers.antt =====
-- Two workers and three tasks.
use ffhn.Base.{ℕ, ◌+◌, ◌*◌, ◌≤◌, ◌≡◌, ◌⊎◌, List, [], ◌∷◌, map, arith}
use ffhn.Base.Errors.{CoreResult, ok}
use ffhn.Agent.Bounded.{
  WorkerSteps, take, send, stay, then_step, worker_count_of, pool_start, run_bounded, collect,
}
use ffhn.Agent.Bounded.Order.{run_bounded-order}
use ffhn.Agent.Bounded.Threads.{
  returned, BoundedRun, run_start, RunStep, worker, leave, join, drop_sender, receive, RunSteps,
  no_step, one_more,
}
use ffhn.Agent.Bounded.Finish.{run_bounded-returns}

abbrev double : ℕ → CoreResult ℕ
double n = ok (n + n)

abbrev tasks : List ℕ
tasks = 5 ∷ 6 ∷ 7 ∷ []

-- The second task is completed before the first one, and the third one before both results are sorted.
abbrev sent_in_time : List (ℕ × CoreResult ℕ)
sent_in_time = (0, ok 10) ∷ (2, ok 14) ∷ (1, ok 12) ∷ []

run :
    WorkerSteps double
      (worker_count_of double tasks 2)
      (pool_start double tasks)
      (record { queue = []; running = []; sent = sent_in_time })
run =
    then_step
      (then_step
        (then_step
          (then_step
            (then_step (then_step stay (take (0, 5) ((1, 6) ∷ (2, 7) ∷ []) [] [] (omega arith)))
              (take (1, 6) ((2, 7) ∷ []) ((0, 5) ∷ []) [] (omega arith)))
            (send ((2, 7) ∷ []) [] (1, 6) ((0, 5) ∷ []) []))
          (take (2, 7) [] ((0, 5) ∷ []) ((1, ok 12) ∷ []) (omega arith)))
        (send [] [] (2, 7) ((0, 5) ∷ []) ((1, ok 12) ∷ [])))
      (send [] [] (0, 5) [] ((2, ok 14) ∷ (1, ok 12) ∷ []))

run_bounded-order_example : run_bounded double 2 sent_in_time ≡ collect double (map double tasks)
run_bounded-order_example = run_bounded-order double 2 tasks sent_in_time (omega arith) run

-- The same run with the ends of the two workers and of the calling thread: eleven steps.
abbrev run_end : BoundedRun double
run_end = record {
  pool = record { queue = []; running = []; sent = sent_in_time };
  live = 0;
  senders = 0;
  phase = returned (ok (10 ∷ 12 ∷ 14 ∷ []));
}

whole_run : RunSteps double 2 11 (run_start double tasks 2) run_end
unfolding run_bounded
whole_run =
    one_more
      (one_more
        (one_more
          (one_more
            (one_more
              (one_more
                (one_more
                  (one_more
                    (one_more
                      (one_more
                        (one_more no_step
                          (worker 2 3 (take (0, 5) ((1, 6) ∷ (2, 7) ∷ []) [] [] (omega arith))))
                        (worker 2 3 (take (1, 6) ((2, 7) ∷ []) ((0, 5) ∷ []) [] (omega arith))))
                      (worker 2 3 (send ((2, 7) ∷ []) [] (1, 6) ((0, 5) ∷ []) [])))
                    (worker 2 3 (take (2, 7) [] ((0, 5) ∷ []) ((1, ok 12) ∷ []) (omega arith))))
                  (worker 2 3 (send [] [] (2, 7) ((0, 5) ∷ []) ((1, ok 12) ∷ []))))
                (leave ((0, 5) ∷ []) ((2, ok 14) ∷ (1, ok 12) ∷ []) 1 2 (omega arith)))
              (worker 1 2 (send [] [] (0, 5) [] ((2, ok 14) ∷ (1, ok 12) ∷ []))))
            (leave [] sent_in_time 0 1 (omega arith)))
          (join (record { queue = []; running = []; sent = sent_in_time }) 1))
        (drop_sender (record { queue = []; running = []; sent = sent_in_time }) 0 0))
      (receive (record { queue = []; running = []; sent = sent_in_time }) 0)

run_bounded-returns_example :
    (11 ≤ 2 * 3 + 2 + 3)
    × ((run_end.phase ≡ returned (collect double (map double tasks)))
        ⊎ ((q : BoundedRun double) × RunStep double 2 run_end q))
run_bounded-returns_example = run_bounded-returns double tasks 2 (omega arith) whole_run
