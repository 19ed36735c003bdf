-- ===== src/Executor/Submitter.antt =====
-- `IOExecutor::execute` in src/IOExecutor.cpp: the submitter thread, which a configuration can turn on. It
-- serves the request queue once enough requests are there, and lowers that barrier while they are not.
pub mod Barrier
use gobjfs.Base.{
  ℕ, zero, suc, ◌+◌, ◌*◌, ◌/◌, Bool, true, false, List, [], ◌∷◌, ltb, leb, ◌==◌, ◌&&◌, not,
  if◌then◌else◌, u32, u64, Outcome, done, fault, Fault, ◌>>=◌,
}
use gobjfs.Executor.{Machine, State, Env}
use gobjfs.Executor.Requests.{process_request_queue}
use gobjfs.Executor.Submit.{is_running}

-- The executor with what only its submitter thread changes. `processed_in_loop` are the samples of a
-- StatsCounter, newest first.
pub record Submitter : Type 0 where
  pub machine : Machine
  pub processed_in_loop : List ℕ
  pub request_queue_low1 : ℕ
  pub request_queue_low2 : ℕ
  pub waiting : Bool

-- `if (minSubmitSize_ > 1) minSubmitSize_ /= 2;`
abbrev pub halved : ℕ → ℕ
halved n = if ltb 1 n then n / 2 else n

abbrev pub lower_barrier : Machine → Machine
lower_barrier m = record m { min_submit_size = halved m.min_submit_size }

-- There is nothing to do for the submitter thread.
abbrev pub is_low : Machine → Bool
is_low m = ltb m.request_queue_size m.min_submit_size && m.fd_queue_size == 0

-- Before a sleep of a time, in microseconds.
unfoldable pub before_sleep : ℕ → Submitter → Submitter
before_sleep time s = record s {
  machine = lower_barrier s.machine;
  waiting = true;
  request_queue_low1 = if time == 1 then u32 (s.request_queue_low1 + 1) else s.request_queue_low1;
  request_queue_low2 = if time == 1 then s.request_queue_low2 else u32 (s.request_queue_low2 + 1);
}

abbrev pub longer : ℕ → ℕ
longer time = if ltb time 1000 then time * 10 else time

-- The inner loop, with what the other threads do to the executor during each sleep.
unfoldable pub wait_loop : List (Machine → Machine) → ℕ → Submitter → Outcome Submitter
unfolding before_sleep
wait_loop [] time s =
    if is_low s.machine && is_running s.machine.state then fault Fault.would_block else done s
wait_loop (act ∷ acts) time s = elim (is_low s.machine && is_running s.machine.state) [
  | false ↦ done s
  | true ↦
      let asleep = before_sleep time s in
      wait_loop acts (longer time) (record asleep { machine = act asleep.machine; waiting = false })
]

abbrev pub count_idle : Machine → Machine
count_idle m = record m { stats = record (m.stats) { idle_loop = u32 (m.stats.idle_loop + 1) } }

-- The rest of a round, after some requests were processed: without any the thread sleeps while there is
-- nothing to do.
pub settle : List (Machine → Machine) → Submitter → ℕ × Machine → Outcome Submitter
unfolding wait_loop
settle acts s (processed, m) =
    let s' = record s { machine = m; processed_in_loop = processed ∷ s.processed_in_loop } in
    if processed == 0
    then (let idle = record s' { machine = count_idle m } in
        if is_low m then wait_loop acts 1 idle else done idle)
    else done s'

abbrev pub intake_over : State → Bool
intake_over State.no_more_intake = true
intake_over _ = false

module _ (env : Env) where
  -- The first part of a round: the number of requests that were processed.
  unfoldable pub submit_some : Machine → Outcome (ℕ × Machine)
  submit_some m =
      if leb m.min_submit_size m.request_queue_size
      then (do
        served ← process_request_queue env m
        done (served.0, record (served.1) { min_submit_size = served.1.config.min_submit_size }))
      else done (0, lower_barrier m)

  -- One round of the outer loop.
  unfoldable pub submitter_round : List (Machine → Machine) → Submitter → Outcome Submitter
  unfolding submit_some settle
  submitter_round acts s = submit_some s.machine >>= settle acts s

  -- The outer loop, for as many rounds as it is told what the other threads do.
  unfoldable pub execute_loop : List (List (Machine → Machine)) → Submitter → Outcome Submitter
  unfolding submitter_round
  execute_loop [] s = done s
  execute_loop (acts ∷ rounds) s = elim (intake_over s.machine.state) [
    | true ↦ done s
    | false ↦ submitter_round acts s >>= execute_loop rounds
  ]

  unfoldable pub execute : List (List (Machine → Machine)) → Machine → Outcome Submitter
  unfolding execute_loop
  execute rounds m = execute_loop rounds (record {
    machine = record m { min_submit_size = m.config.min_submit_size };
    processed_in_loop = [];
    request_queue_low1 = 0;
    request_queue_low2 = 0;
    waiting = false;
  })
