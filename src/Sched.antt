-- ===== src/Sched.antt =====
-- kernel/sched/process.c: threads, the ready queues and the scheduler.
pub mod Queues
pub mod Add
pub mod Switch
mod Tests
use nix_core_os.Base.{
  ℕ, zero, suc, ◌+◌, ◌-◌, ◌*◌, ◌/◌, ◌%◌, ◌^◌, ◌≡◌, Bool, true, false, List, [], ◌∷◌, Option, none,
  some, leb, ltb, ◌==◌, if◌then◌else◌, ℤ, pos, negsuc,
}

-- PROCESS_RUNNING and so on.
pub data State : Type 0 where
  running ready blocked zombie stopped : State

abbrev pub is_running : State → Bool
is_running State.running = true
is_running _ = false

-- `thread_t`, less the saved processor state. A pointer to a thread is its index in `threads`.
pub record Thread : Type 0 where
  pub tid : ℕ
  pub pid : ℕ
  pub state : State
  pub priority : ℤ
  pub time_slice : ℕ
  pub cpu_time : ℕ
  pub next : Option ℕ

-- `process_t`, as far as this file changes it.
pub record Process : Type 0 where
  pub pid : ℕ
  pub state : State
  pub priority : ℤ
  pub exit_code : ℤ
  pub threads : Option ℕ
  pub thread_count : ℕ

-- The file's static variables.
pub record Kernel : Type 0 where
  pub processes : ℕ → Process
  pub threads : ℕ → Thread
  pub ready_queues : ℕ → Option ℕ
  pub current_thread : Option ℕ
  pub total_switches : ℕ
  pub next_tid : ℕ

abbrev pub max_processes : ℕ
max_processes = 1024

abbrev pub max_threads : ℕ
max_threads = 8192

-- `a[i] = v`
abbrev pub put {ℓ} : {A : Type ℓ} → (ℕ → A) → ℕ → A → ℕ → A
put f i v j = if j == i then v else f j

abbrev pub set_thread : Kernel → ℕ → Thread → Kernel
set_thread k t v = record k { threads = put k.threads t v }

-- `if (priority < 0) priority = 0; if (priority > 4) priority = 4;`
unfoldable pub clamp_priority : ℤ → ℕ
clamp_priority (pos n) = if ltb 4 n then 4 else n
clamp_priority (negsuc n) = 0

-- `while (t->next) t = t->next;` on fuel.
unfoldable pub last_of : (ℕ → Thread) → ℕ → ℕ → ℕ
last_of threads zero t = t
last_of threads (suc fuel) t = elim (threads t).next [ none ↦ t | some u ↦ last_of threads fuel u ]

pub scheduler_add_thread : Kernel → ℕ → Kernel
scheduler_add_thread k t =
    let p = clamp_priority (k.threads t).priority in
    let queued : Kernel = elim (k.ready_queues p) [
      | none ↦ record k { ready_queues = put k.ready_queues p (some t) }
      | some h ↦
          let l = last_of k.threads max_threads h in
          set_thread k l (record (k.threads l) { next = some t })
    ] in
    set_thread queued t (record (queued.threads t) { next = none; state = State.ready })

-- The loop of `scheduler_pick_next` from queue `i` on, with `n` queues left.
pub pick_from : Kernel → ℕ → ℕ → Kernel × Option ℕ
pick_from k i zero = (k, none)
pick_from k i (suc n) = elim (k.ready_queues i) [
  | none ↦ pick_from k (i + 1) n
  | some t ↦ (
    set_thread (record k { ready_queues = put k.ready_queues i (k.threads t).next }) t
        (record (k.threads t) { next = none }),
    some t,
  )
]

pub scheduler_pick_next : Kernel → Kernel × Option ℕ
scheduler_pick_next k = pick_from k 0 5

-- `if (old && old->state == PROCESS_RUNNING) { ... scheduler_add_thread(old); }`
pub put_back : Kernel → Option ℕ → Kernel
put_back k none = k
put_back k (some old) =
    if is_running (k.threads old).state
    then scheduler_add_thread (set_thread k old (record (k.threads old) { state = State.ready }))
        old
    else k

-- The rest of `scheduler_yield`, for the old thread and what `scheduler_pick_next` returned. The switch
-- of the processor's registers has no part of this state; `hlt` waits for an interrupt.
pub switch_to : Option ℕ → Kernel × Option ℕ → Kernel
switch_to old (k, none) = k
switch_to old (k, some t) =
    let started =
      set_thread k t (record (k.threads t) { time_slice = 10; state = State.running }) in
    let back = put_back started old in
    record back { current_thread = some t; total_switches = (back.total_switches + 1) % 2 ^ 64 }

pub scheduler_yield : Kernel → Kernel
scheduler_yield k = switch_to k.current_thread (scheduler_pick_next k)

pub scheduler_tick : Kernel → Kernel
scheduler_tick k = elim k.current_thread [
  | none ↦ k
  | some t ↦
      let slice = ((k.threads t).time_slice + (2 ^ 64 - 1)) % 2 ^ 64 in
      let k' = set_thread k t (record (k.threads t) {
        time_slice = slice;
        cpu_time = ((k.threads t).cpu_time + 1) % 2 ^ 64;
      }) in
      if slice == 0 then scheduler_yield k' else k'
]

-- The search for a free slot, from index `i` on, with `n` slots left.
pub free_slot : (ℕ → Thread) → ℕ → ℕ → Option ℕ
free_slot threads i zero = none
free_slot threads i (suc n) = elim ((threads i).tid == 0) [
  | true ↦ some i
  | false ↦ free_slot threads (i + 1) n
]

-- `thread_create` for the process in slot `p`. The stacks and the saved registers are left out: they
-- come from the memory manager and have no part of this state.
pub thread_create : Kernel → ℕ → Kernel × Option ℕ
thread_create k p = elim (free_slot k.threads 0 max_threads) [
  | none ↦ (k, none)
  | some t ↦
      let proc = k.processes p in
      let thread : Thread = record {
        tid = k.next_tid;
        pid = proc.pid;
        state = State.ready;
        priority = proc.priority;
        time_slice = 10;
        cpu_time = 0;
        next = proc.threads;
      } in
      let k' = record k {
        next_tid = (k.next_tid + 1) % 2 ^ 32;
        threads = put k.threads t thread;
        processes =
            put k.processes p
              (record proc { threads = some t; thread_count = (proc.thread_count + 1) % 2 ^ 32 });
      } in
      (scheduler_add_thread k' t, some t)
]

-- The search of `sys_exit` for the process of the thread, from slot `i` on with `n` slots left.
pub mark_exited : (ℕ → Process) → ℕ → ℤ → ℕ → ℕ → ℕ → Process
mark_exited ps pid code i zero = ps
mark_exited ps pid code i (suc n) = elim ((ps i).pid == pid) [
  | true ↦ put ps i (record (ps i) { exit_code = code; state = State.zombie })
  | false ↦ mark_exited ps pid code (i + 1) n
]

pub sys_exit : Kernel → ℤ → Kernel
sys_exit k code = elim k.current_thread [
  | none ↦ k
  | some t ↦
      let k' = set_thread k t (record (k.threads t) { state = State.zombie }) in
      scheduler_yield
        (record k' { processes = mark_exited k'.processes (k.threads t).pid code 0 max_processes })
]
