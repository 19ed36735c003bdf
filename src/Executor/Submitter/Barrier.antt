-- ===== src/Executor/Submitter/Barrier.antt =====
-- The barrier to the request queue, while nothing else happens to the executor.
use gobjfs.Base.{
  ℕ, zero, suc, ◌*◌, ◌<◌, ◌≤◌, ◌≡◌, refl, sym, ap, ◌∙◌, Bool, true, false, List, ◌∷◌, leb, ◌==◌,
  ◌&&◌, arith, Outcome, done, ◌>>=◌, Returns, Returns-map, ◌⊎◌, Returns-done, replicate, Bool-cases,
  inl, inr, subst,
}
use gobjfs.Executor.{Machine, Env}
use gobjfs.Executor.Submit.{is_running}
use gobjfs.Executor.Submitter.{
  Submitter, halved, lower_barrier, is_low, before_sleep, longer, wait_loop, submit_some, settle,
  count_idle, submitter_round, execute_loop,
}

-- 2 ^ k
abbrev pub doubled : ℕ → ℕ
doubled zero = 1
doubled (suc k) = 2 * doubled k

-- The other threads do nothing for a number of sleeps.
abbrev pub quiet : ℕ → List (Machine → Machine)
quiet k = replicate k (λ m. m)

-- Nothing but the barrier and a statistic changed, and the barrier did not rise.
pub record Lowered (m n : Machine) : Type 0 where
  pub queue_same : n.request_queue ≡ m.request_queue
  pub size_same : n.request_queue_size ≡ m.request_queue_size
  pub fd_size_same : n.fd_queue_size ≡ m.fd_queue_size
  pub state_same : n.state ≡ m.state
  pub ctx_same : n.ctx ≡ m.ctx
  pub no_rise : n.min_submit_size ≤ m.min_submit_size

Lowered-refl : (m : Machine) → Lowered m m
Lowered-refl m = ground arith

Lowered-trans : {l m n : Machine} → Lowered l m → Lowered m n → Lowered l n
Lowered-trans v w = record {
  queue_same = w.queue_same ∙ v.queue_same;
  size_same = w.size_same ∙ v.size_same;
  fd_size_same = w.fd_size_same ∙ v.fd_size_same;
  state_same = w.state_same ∙ v.state_same;
  ctx_same = w.ctx_same ∙ v.ctx_same;
  no_rise = omega (arith, v.no_rise, w.no_rise);
}

lower_barrier-Lowered : (m : Machine) → Lowered m (lower_barrier m)
lower_barrier-Lowered m = ground arith

-- A sleep without an event.
slept : ℕ → Submitter → Submitter
slept time s =
    let asleep = before_sleep time s in record asleep { machine = asleep.machine; waiting = false }

-- The inner loop ends once the barrier is no higher than the queue.
wait_loop-quiet :
    (k time : ℕ) (s : Submitter)
    → 0 < s.machine.request_queue_size
    → s.machine.min_submit_size < doubled k
    → Returns (wait_loop (quiet k) time s) λ t.
      Lowered s.machine t.machine × ((is_low t.machine && is_running t.machine.state) ≡ false)
unfolding wait_loop slept
wait_loop-quiet zero time s h b =
    let awake : (is_low s.machine && is_running s.machine.state) ≡ false = ground arith in
    rw awake (Lowered-refl s.machine, awake)
wait_loop-quiet (suc k) time s h b =
    elim (Bool-cases (is_low s.machine && is_running s.machine.state)) [
      | inr awake ↦ rw (awake, wait_loop) (Lowered-refl s.machine, awake)
      | inl low ↦
          let half : halved s.machine.min_submit_size < doubled k = ground arith in
          rw (low, wait_loop)
            (Returns-map (wait_loop (quiet k) (longer time) (slept time s)) _ _
              (wait_loop-quiet k (longer time) (slept time s) h half)
              (λ t p. (Lowered-trans (lower_barrier-Lowered s.machine) p.0, p.1)))
    ]

-- The round reaches the request queue.
abbrev pub serves : Machine → Bool
serves m = leb m.min_submit_size m.request_queue_size

submit_some-low :
    (env : Env) (m : Machine) → serves m ≡ false → submit_some env m ≡ done (0, lower_barrier m)
unfolding submit_some
submit_some-low env m h = ground arith

count_idle-Lowered : (m n : Machine) → Lowered m n → Lowered m (count_idle n)
count_idle-Lowered m n v = ground arith

-- What a round does where the barrier is above the size of the queue.
abbrev pub Falls : Machine → Machine → Type 0
Falls m n =
    Lowered m n
    × (2 * n.min_submit_size ≤ m.min_submit_size)
    × (((m.fd_queue_size == 0) ≡ false) ⊎ (serves n ≡ true))

awake-Falls :
    (m n : Machine)
    → 0 < m.request_queue_size
    → is_running m.state ≡ true
    → serves m ≡ false
    → Lowered (lower_barrier m) n
    → (is_low n && is_running n.state) ≡ false
    → Falls m n
awake-Falls m n h r low v awake =
    let w = Lowered-trans (lower_barrier-Lowered m) v in
    let half : 2 * n.min_submit_size ≤ m.min_submit_size = ground (arith, v.no_rise) in
    let runs = ap is_running w.state_same ∙ r in
    (w, half, ground (arith, w.size_same, w.fd_size_same))

settle-Falls :
    (k : ℕ) (s : Submitter)
    → 0 < s.machine.request_queue_size
    → s.machine.min_submit_size < doubled k
    → is_running s.machine.state ≡ true
    → serves s.machine ≡ false
    → Returns (settle (quiet k) s (0, lower_barrier s.machine)) (λ t. Falls s.machine t.machine)
unfolding settle
settle-Falls k s h b r low = elim (Bool-cases (is_low (lower_barrier s.machine))) [
  | inr busy ↦ rw busy (
      awake-Falls s.machine (count_idle (lower_barrier s.machine)) h r low
        (count_idle-Lowered (lower_barrier s.machine) (lower_barrier s.machine)
          (Lowered-refl (lower_barrier s.machine)))
        (ground arith))
  | inl nothing ↦
      let idle : Submitter = record s {
        machine = count_idle (lower_barrier s.machine);
        processed_in_loop = 0 ∷ s.processed_in_loop;
      } in
      let below : halved s.machine.min_submit_size < doubled k = ground arith in
      rw nothing (
        Returns-map (wait_loop (quiet k) 1 idle) _ _ (wait_loop-quiet k 1 idle h below) (λ t p.
          awake-Falls s.machine t.machine h r low
            (Lowered-trans
              (count_idle-Lowered (lower_barrier s.machine) (lower_barrier s.machine)
                (Lowered-refl (lower_barrier s.machine)))
              p.0)
            p.1))
]

-- A round of the submitter thread of a running executor, with requests in the queue but fewer than the
-- barrier asks for, and with nothing done by other threads: it does not touch the queue, and lowers the
-- barrier to half at least. Unless there are jobs in the fd queue, which keep the thread from sleeping,
-- the next round comes to the request queue.
pub submitter_round-Falls :
    (env : Env) (k : ℕ) (s : Submitter)
    → 0 < s.machine.request_queue_size
    → s.machine.min_submit_size < doubled k
    → is_running s.machine.state ≡ true
    → serves s.machine ≡ false
    → Returns (submitter_round env (quiet k) s) (λ t. Falls s.machine t.machine)
unfolding submitter_round
submitter_round-Falls env k s h b r low =
    subst
      (λ (o : Outcome (ℕ × Machine)).
        Returns (o >>= settle (quiet k) s) (λ t. Falls s.machine t.machine))
      (sym (submit_some-low env s.machine low)) (settle-Falls k s h b r low)

execute_loop-suc :
    (env : Env) (acts : List (Machine → Machine)) (rounds : List (List (Machine → Machine)))
    (s : Submitter)
    → is_running s.machine.state ≡ true
    → execute_loop env (acts ∷ rounds) s ≡ (submitter_round env acts s >>= execute_loop env rounds)
unfolding execute_loop
execute_loop-suc env acts rounds s r = ground arith

-- What the submitter thread came to: the queue is as it was, and the barrier lets it through.
abbrev pub LetsThrough : Machine → Machine → Type 0
LetsThrough m n = (n.request_queue ≡ m.request_queue) × (serves n ≡ true)

still-LetsThrough : (l m n : Machine) → Lowered l m → LetsThrough m n → LetsThrough l n
still-LetsThrough l m n v p = (p.0 ∙ v.queue_same, p.1)

-- Requests do not wait for others for ever. With at least one request in the queue of a running executor,
-- and a barrier below 2 ^ n, the submitter thread comes within n rounds to a state in which its next round
-- serves the queue, which is as it was; also if there are jobs in the fd queue, and if other threads
-- do nothing. In each round it sleeps fewer than k times, where the barrier is below 2 ^ k.
pub execute_loop-LetsThrough :
    (env : Env) (k n : ℕ) (s : Submitter)
    → 0 < s.machine.request_queue_size
    → s.machine.min_submit_size < doubled k
    → s.machine.min_submit_size < doubled n
    → is_running s.machine.state ≡ true
    → (j : ℕ) × (j ≤ n)
      × Returns (execute_loop env (replicate j (quiet k)) s) (λ t. LetsThrough s.machine t.machine)
unfolding execute_loop
execute_loop-LetsThrough env k zero s h b c r = (0, omega arith, (refl, ground arith))
execute_loop-LetsThrough env k (suc n) s h b c r = elim (Bool-cases (serves s.machine)) [
  | inl now ↦ (0, omega arith, (refl, now))
  | inr low ↦
      let (t, ran, falls) =
        Returns-done (submitter_round env (quiet k) s) (λ t. Falls s.machine t.machine)
          (submitter_round-Falls env k s h b r low) in
      let v = falls.0 in
      let (j, within, came) =
        execute_loop-LetsThrough env k n t (ground (arith, v.size_same)) (omega (arith, v.no_rise))
          (omega (arith, falls.1)) (ap is_running v.state_same ∙ r) in
      let rounds = replicate j (quiet k) in
      let joined =
        execute_loop-suc env (quiet k) rounds s r
        ∙ ap (λ (o : Outcome Submitter). o >>= execute_loop env rounds) ran in
      (
        suc j,
        omega arith,
        subst (λ (o : Outcome Submitter). Returns o (λ u. LetsThrough s.machine u.machine))
            (sym joined)
            (Returns-map (execute_loop env rounds t) _ _ came
              (λ u p. still-LetsThrough s.machine t.machine u.machine v p)),
      )
]
