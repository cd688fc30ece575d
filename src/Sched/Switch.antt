-- ===== src/Sched/Switch.antt =====
-- Which thread runs next, and what a switch does to the queues.
use nix_core_os.Base.{
  ℕ, zero, suc, ◌+◌, ◌-◌, ◌%◌, ◌^◌, ◌≤◌, ◌<◌, ◌≡◌, refl, ◌≢◌, ◌∙◌, sym, ap, true, false, List, [],
  ◌∷◌, ◌++◌, Option, none, some, ◌==◌, length, arith, Bool-cases, Option-cases, inl, inr, ◌⊎◌,
}
use mathlib.Core.Path.{subst}
use nix_core_os.Sched.{
  State, Kernel, put, clamp_priority, set_thread, scheduler_add_thread, max_threads, pick_from,
  scheduler_pick_next, scheduler_yield, switch_to, put_back, scheduler_tick, thread_create,
  free_slot,
}
use nix_core_os.Sched.Queues.{Seg, occurs, Distinct, Seg-frame, Holds}
use nix_core_os.Sched.Add.{
  Seg-none, Seg-some, replace-Holds, clamp_priority-lt, scheduler_add_thread-Holds, processes-add,
  next-add, Holds-same,
}

-- What `scheduler_pick_next` has done when it returns the thread `t`.
pub record Picked (k : Kernel) (ls : ℕ → List ℕ) (t : ℕ) (k' : Kernel) : Type 0 where
  pub queue : ℕ
  pub rest : List ℕ
  pub inside : queue < 5
  pub front : ls queue ≡ t ∷ rest
  pub higher : (q : ℕ) → q < queue → ls q ≡ []
  pub holds : Holds k' (put ls queue rest)
  pub nexts : (x : ℕ) → x ≢ t → k'.threads x ≡ k.threads x
  pub unlinked : k'.threads t ≡ record (k.threads t) { next = none }
  pub current : k'.current_thread ≡ k.current_thread

-- The state after the head `t` of queue `i` has been taken.
abbrev taken : Kernel → ℕ → ℕ → Kernel
taken k i t =
    set_thread (record k { ready_queues = put k.ready_queues i (k.threads t).next }) t
      (record (k.threads t) { next = none })

taken-Picked :
    (k : Kernel) (ls : ℕ → List ℕ) (i t : ℕ)
    → Holds k ls
    → i < 5
    → ((q : ℕ) → q < i → ls q ≡ [])
    → k.ready_queues i ≡ some t
    → Picked k ls t (taken k i t)
taken-Picked k ls i t v l higher e =
    let (r, cons, more) = Seg-some k.threads t (ls i) (rw e at (v.segs i l)) in
    let d : Distinct (t ∷ r) = subst Distinct cons (v.distinct i l) in
    let at_t : occurs t (ls i) ≡ true = rw cons (unfold occurs in ground arith) in
    let not_in : (x : ℕ) → occurs x (ls i) ≡ false → occurs x r ≡ false =
      λ x o. later x t r (rw cons at o) in
    let same : (x : ℕ) → occurs x r ≡ true → ((taken k i t).threads x).next ≡ (k.threads x).next =
      λ x o. let ne : x ≢ t = λ f. ground (arith, d, ap (λ y. occurs y r) f) in ground arith in
    record {
      queue = i;
      rest = r;
      inside = l;
      front = cons;
      higher = higher;
      holds =
          replace-Holds k (taken k i t) ls i r v l
            (head_of k i t r (Seg-frame k.threads (taken k i t).threads _ r same more)) d.1
            (λ p ne. ground arith) (λ p x h ne o. not_in x (v.apart p i x h l ne o))
            (λ p x h ne o.
              let other : x ≢ t =
                λ f. ground (arith, v.apart p i x h l ne o, at_t, ap (λ y. occurs y (ls i)) f) in
              ground arith);
      nexts = λ x ne. ground arith;
      unlinked = ground arith;
      current = refl;
    }
  where
    later : (x t : ℕ) (r : List ℕ) → occurs x (t ∷ r) ≡ false → occurs x r ≡ false
    later x t r h = unfold occurs in ground (arith, h)

    head_of :
        (k : Kernel) (i t : ℕ) (r : List ℕ)
        → Seg (taken k i t).threads (k.threads t).next r
        → Seg (taken k i t).threads ((taken k i t).ready_queues i) r
    head_of k i t r s =
        let e : (taken k i t).ready_queues i ≡ (k.threads t).next = ground arith in rw e s

pick_from_lem :
    (k : Kernel) (ls : ℕ → List ℕ) (i n : ℕ) (k' : Kernel) (o : Option ℕ)
    → Holds k ls
    → i + n ≡ 5
    → ((q : ℕ) → q < i → ls q ≡ [])
    → pick_from k i n ≡ (k', o)
    → ((o ≡ none) × (k' ≡ k) × ((q : ℕ) → q < 5 → ls q ≡ []))
      ⊎ ((t : ℕ) × (o ≡ some t) × Picked k ls t k')
unfolding pick_from
pick_from_lem k ls i zero k' o v s higher e =
    inl (ground arith, ground arith, λ q l. higher q (omega arith))
pick_from_lem k ls i (suc n) k' o v s higher e = elim (Option-cases (k.ready_queues i)) [
  | inl empty ↦
      let nil = Seg-none k.threads (ls i) (rw empty at (v.segs i (omega arith))) in
      pick_from_lem k ls (i + 1) n k' o v (omega arith)
        (λ q l. elim (Bool-cases (q == i)) [
          | inl here ↦ let at_i : q ≡ i = ground arith in rw at_i nil
          | inr other ↦ higher q (ground arith)
        ])
        (ground arith)
  | inr (t, full) ↦
      let same : taken k i t ≡ k' = ground arith in
      inr (
        t,
        ground arith,
        subst (Picked k ls t) same (taken-Picked k ls i t v (omega arith) higher full),
      )
]

-- `scheduler_pick_next` takes the first thread of the first queue that is not empty, of the highest
-- priority, and no other; it returns null only if all queues are empty, and then changes nothing.
pub scheduler_pick_next-Picked :
    (k : Kernel) (ls : ℕ → List ℕ) (k' : Kernel) (o : Option ℕ)
    → Holds k ls
    → scheduler_pick_next k ≡ (k', o)
    → ((o ≡ none) × (k' ≡ k) × ((q : ℕ) → q < 5 → ls q ≡ []))
      ⊎ ((t : ℕ) × (o ≡ some t) × Picked k ls t k')
unfolding scheduler_pick_next
scheduler_pick_next-Picked k ls k' o v e =
    pick_from_lem k ls 0 5 k' o v (omega arith) (λ q l. absurd (omega arith)) e

-- `thread_create` links the new thread to the threads of its process, but then queues it, which sets
-- the same pointer to null: the threads that the process had before are lost from its list.
pub thread_create_loses :
    (k : Kernel) (p t : ℕ)
    → free_slot k.threads 0 max_threads ≡ some t
    → let k' = (thread_create k p).0 in
      ((k'.processes p).threads ≡ some t) × ((k'.threads t).next ≡ none)
unfolding thread_create
thread_create_loses k p t e = rw (e, thread_create) (rw processes-add (ground arith), next-add _ t)

-- The thread that is given up goes to the end of the queue of its priority.
put_back-Holds :
    (k : Kernel) (ls : ℕ → List ℕ) (cur : ℕ)
    → Holds k ls
    → (k.threads cur).state ≡ State.running
    → ((p : ℕ) → p < 5 → occurs cur (ls p) ≡ false)
    → let c = clamp_priority (k.threads cur).priority in
      length (ls c) ≤ max_threads → Holds (put_back k (some cur)) (put ls c (ls c ++ cur ∷ []))
unfolding put_back
put_back-Holds k ls cur v run out short =
    let ready = set_thread k cur (record (k.threads cur) { state = State.ready }) in
    let v' : Holds ready ls = Holds-same k ready ls (λ p. refl) (λ x. ground arith) v in
    let same : (ready.threads cur).priority ≡ (k.threads cur).priority = ground arith in
    let added =
      scheduler_add_thread-Holds ready ls cur v' out
        (subst (λ z. length (ls (clamp_priority z)) ≤ max_threads) (sym same) short) in
    rw (run, put_back)
      (subst
        (λ z.
          Holds (scheduler_add_thread ready cur)
            (put ls (clamp_priority z) (ls (clamp_priority z) ++ cur ∷ [])))
        same added)

-- The state in which the picked thread has been started.
abbrev started : Kernel → ℕ → Kernel
started k t = set_thread k t (record (k.threads t) { time_slice = 10; state = State.running })

yield_picked :
    (k k' : Kernel) (t : ℕ)
    → scheduler_pick_next k ≡ (k', some t)
    → scheduler_yield k ≡ (
        let back = put_back (started k' t) k.current_thread in
        record back {
          current_thread = some t;
          total_switches = (back.total_switches + 1) % 2 ^ 64;
        })
unfolding scheduler_yield switch_to
yield_picked k k' t e = ap (switch_to k.current_thread) e

-- When a running thread yields and another is ready, the first thread of the highest priority becomes
-- the current one and leaves its queue, and the old thread goes to the end of the queue of its own
-- priority.
pub scheduler_yield_rotates :
    (k : Kernel) (ls : ℕ → List ℕ) (cur t : ℕ) (k' : Kernel)
    → Holds k ls
    → k.current_thread ≡ some cur
    → (k.threads cur).state ≡ State.running
    → ((p : ℕ) → p < 5 → occurs cur (ls p) ≡ false)
    → ((p : ℕ) → p < 5 → length (ls p) ≤ max_threads)
    → scheduler_pick_next k ≡ (k', some t)
    → let c = clamp_priority (k.threads cur).priority in
      (queue : ℕ) × (rest : List ℕ) × (ls queue ≡ t ∷ rest)
      × ((q : ℕ) → q < queue → ls q ≡ [])
      × ((scheduler_yield k).current_thread ≡ some t)
      × Holds (scheduler_yield k) (put (put ls queue rest) c (put ls queue rest c ++ cur ∷ []))
scheduler_yield_rotates k ls cur t k' v now run out short e =
    elim (scheduler_pick_next-Picked k ls k' (some t) v e) [
      | inl (n, same, all) ↦ absurd (ground arith)
      | inr (x, at_t, p) ↦
          rotated k ls cur t k' now run out short e (subst (λ y. Picked k ls y k') (ground arith) p)
    ]
  where
    rotated :
        (k : Kernel) (ls : ℕ → List ℕ) (cur t : ℕ) (k' : Kernel)
        → k.current_thread ≡ some cur
        → (k.threads cur).state ≡ State.running
        → ((p : ℕ) → p < 5 → occurs cur (ls p) ≡ false)
        → ((p : ℕ) → p < 5 → length (ls p) ≤ max_threads)
        → scheduler_pick_next k ≡ (k', some t)
        → Picked k ls t k'
        → let c = clamp_priority (k.threads cur).priority in
          (queue : ℕ) × (rest : List ℕ) × (ls queue ≡ t ∷ rest)
          × ((q : ℕ) → q < queue → ls q ≡ [])
          × ((scheduler_yield k).current_thread ≡ some t)
          × Holds (scheduler_yield k) (put (put ls queue rest) c (put ls queue rest c ++ cur ∷ []))
    rotated k ls cur t k' now run out short e p =
        let c = clamp_priority (k.threads cur).priority in
        let s = started k' t in
        let ls' = put ls p.queue p.rest in
        let front_out : occurs cur (t ∷ p.rest) ≡ false =
          subst (λ l. occurs cur l ≡ false) p.front (out p.queue p.inside) in
        let ne : cur ≢ t = λ f. unfold occurs in ground (arith, front_out) in
        let rest_out : occurs cur p.rest ≡ false = unfold occurs in ground (arith, front_out) in
        let same : s.threads cur ≡ k.threads cur = ground (arith, p.nexts cur ne) in
        let v' : Holds s ls' = Holds-same k' s ls' (λ q. refl) (λ x. ground arith) p.holds in
        let out' : (q : ℕ) → q < 5 → occurs cur (ls' q) ≡ false =
          λ q l. ground (arith, out q l, rest_out) in
        let room : length (ls' c) ≤ max_threads = ground (
          arith,
          short c (clamp_priority-lt (k.threads cur).priority),
          short p.queue p.inside,
          ap length p.front,
        ) in
        let back = put_back-Holds s ls' cur v' (ap (λ y. y.state) same ∙ run) out' (
          subst (λ z. length (ls' (clamp_priority z)) ≤ max_threads)
            (sym (ap (λ y. y.priority) same)) room) in
        let back' : Holds (put_back s (some cur)) (put ls' c (ls' c ++ cur ∷ [])) =
          subst
            (λ z.
              Holds (put_back s (some cur))
                (put ls' (clamp_priority z) (ls' (clamp_priority z) ++ cur ∷ [])))
            (ap (λ y. y.priority) same) back in
        let eq = yield_picked k k' t e in
        (
          p.queue,
          p.rest,
          p.front,
          p.higher,
          ap (λ y. y.current_thread) eq,
          subst (λ y. Holds y (put ls' c (ls' c ++ cur ∷ []))) (sym eq)
              (rw now (Holds-same (put_back s (some cur)) _ _ (λ q. refl) (λ x. refl) back')),
        )

-- A thread whose time slice has run out while no other is ready keeps running with a slice of 0; the
-- next tick wraps the slice to 2^64 - 1, so that the thread is not preempted again for that long.
pub scheduler_tick_wraps :
    (k : Kernel) (t : ℕ)
    → k.current_thread ≡ some t
    → (k.threads t).time_slice ≡ 1
    → ((p : ℕ) → p < 5 → k.ready_queues p ≡ none)
    → ((scheduler_tick (scheduler_tick k)).threads t).time_slice ≡ 2 ^ 64 - 1
unfolding scheduler_tick scheduler_yield switch_to scheduler_pick_next pick_from
scheduler_tick_wraps k t now one idle = ground (arith, idle 0, idle 1, idle 2, idle 3, idle 4)
