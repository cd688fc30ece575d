-- ===== src/Sched/Tests.antt =====
-- A run of the scheduler, and the theorems at a concrete kernel.
use nix_core_os.Base.{
  ℕ, ◌≤◌, ◌<◌, ◌≡◌, refl, false, List, [], ◌∷◌, ◌++◌, Option, none, some, ◌==◌, if◌then◌else◌, pos,
  length, arith, Bool-cases, inl, inr,
}
use nix_core_os.Sched.{
  Thread, State, Kernel, last_of, put, clamp_priority, scheduler_add_thread, max_threads, pick_from,
  scheduler_pick_next, scheduler_yield, put_back, free_slot, switch_to,
}
use nix_core_os.Sched.Queues.{Holds, occurs}
use nix_core_os.Sched.Switch.{scheduler_yield_rotates}

abbrev thread : ℕ → State → Option ℕ → Thread
thread n s next = record {
  tid = n;
  pid = 1;
  state = s;
  priority = pos 2;
  time_slice = 1;
  cpu_time = 0;
  next = next;
}

-- Thread 1 runs; threads 2 and 3 are ready in queue 2, and all later slots are free.
abbrev kernel : Kernel
kernel = record {
  processes = λ p. record {
    pid = 1;
    state = State.ready;
    priority = pos 2;
    exit_code = pos 0;
    threads = some 1;
    thread_count = 1;
  };
  threads = λ t.
      if t == 1
      then thread 1 State.running none
      else if t == 2
      then thread 2 State.ready (some 3)
      else if t == 3
      then thread 3 State.ready none
      else thread 0 State.stopped none;
  ready_queues = λ p. if p == 2 then some 2 else none;
  current_thread = some 1;
  total_switches = 0;
  next_tid = 4;
}

abbrev lists : ℕ → List ℕ
lists p = if p == 2 then 2 ∷ 3 ∷ [] else []

kernel-Holds : Holds kernel lists
unfolding occurs
kernel-Holds = record {
  segs =
      λ p l. elim (Bool-cases (p == 2)) [ inl e ↦ rw e (refl, (refl, refl)) | inr e ↦ rw e refl ];
  distinct =
      λ p l. elim (Bool-cases (p == 2)) [ inl e ↦ rw e (refl, (refl, tt)) | inr e ↦ rw e tt ];
  apart = λ p q x hp hq ne o. elim (Bool-cases (q == 2)) [
    | inl e ↦ let f : (p == 2) ≡ false = ground arith in absurd (ground (arith, o, f))
    | inr e ↦ rw e refl
  ];
}

yield_runs : (scheduler_yield kernel).current_thread ≡ some 2
unfolding scheduler_yield switch_to scheduler_pick_next pick_from put_back scheduler_add_thread
    clamp_priority last_of
yield_runs = refl

abbrev picked : Kernel
picked = (scheduler_pick_next kernel).0

picks : scheduler_pick_next kernel ≡ (picked, some 2)
unfolding scheduler_pick_next pick_from
picks = refl

one_out : (p : ℕ) → p < 5 → occurs 1 (lists p) ≡ false
unfolding occurs
one_out p l = elim (Bool-cases (p == 2)) [ inl e ↦ rw e refl | inr e ↦ rw e refl ]

lists_short : (p : ℕ) → p < 5 → length (lists p) ≤ max_threads
lists_short p l = elim (Bool-cases (p == 2)) [
  | inl e ↦ rw e (omega arith)
  | inr e ↦ rw e (omega arith)
]

scheduler_yield_rotates_example :
    (queue : ℕ) × (rest : List ℕ) × (lists queue ≡ 2 ∷ rest)
    × ((q : ℕ) → q < queue → lists q ≡ [])
    × ((scheduler_yield kernel).current_thread ≡ some 2)
    × Holds
        (scheduler_yield kernel)
        (put (put lists queue rest) 2 (put lists queue rest 2 ++ 1 ∷ []))
unfolding clamp_priority
scheduler_yield_rotates_example =
    scheduler_yield_rotates kernel lists 1 2 picked kernel-Holds refl refl one_out lists_short picks

-- Thread 1 runs with its last tick, and nothing is ready.
abbrev alone : Kernel
alone = record kernel { ready_queues = λ p. none }

first_free : free_slot kernel.threads 0 max_threads ≡ some 0
unfolding free_slot
first_free = refl
