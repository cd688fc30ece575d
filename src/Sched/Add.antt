-- ===== src/Sched/Add.antt =====
-- `scheduler_add_thread` appends to the queue of the thread's priority.
use nix_core_os.Base.{
  ℕ, ◌≤◌, ◌<◌, ◌≡◌, refl, ◌≢◌, sym, ap, true, false, List, [], ◌∷◌, ◌++◌, none, some, ◌==◌, ℤ, pos,
  negsuc, length, arith, Bool-cases, Option-cases, inl, inr,
}
use mathlib.Core.Path.{subst}
use nix_core_os.Sched.{
  Thread, State, Kernel, last_of, put, clamp_priority, set_thread, scheduler_add_thread,
  max_threads,
}
use nix_core_os.Sched.Queues.{
  Seg, occurs, Distinct, last, occurs-last, occurs-append, Distinct-append, Seg-frame, last_of-Seg,
  Seg-append, Holds,
}

-- The list of a queue by its head pointer.
pub Seg-none : (threads : ℕ → Thread) (l : List ℕ) → Seg threads none l → l ≡ []
Seg-none threads [] s = refl
Seg-none threads (x ∷ l) s = absurd (ground arith)

pub Seg-some :
    (threads : ℕ → Thread) (h : ℕ) (l : List ℕ)
    → Seg threads (some h) l
    → (r : List ℕ) × (l ≡ h ∷ r) × Seg threads (threads h).next r
Seg-some threads h [] s = absurd (ground arith)
Seg-some threads h (x ∷ r) s =
    let same : x ≡ h = ground arith in (r, ap (λ y. y ∷ r) same, rw same at s.1)

-- Replacing the list of one queue, if only threads of that queue and `t` change.
pub replace-Holds :
    (k k' : Kernel) (ls : ℕ → List ℕ) (c : ℕ) (new : List ℕ)
    → Holds k ls
    → c < 5
    → Seg k'.threads (k'.ready_queues c) new
    → Distinct new
    → ((p : ℕ) → p ≢ c → k'.ready_queues p ≡ k.ready_queues p)
    → ((p x : ℕ) → p < 5 → p ≢ c → occurs x (ls p) ≡ true → occurs x new ≡ false)
    → ((p x : ℕ)
        → p < 5
        → p ≢ c
        → occurs x (ls p) ≡ true
        → (k'.threads x).next ≡ (k.threads x).next)
    → Holds k' (put ls c new)
replace-Holds k k' ls c new v h seg d heads fresh same = record {
  segs = λ p l. elim (Bool-cases (p == c)) [
    | inl here ↦
        let at_c : p ≡ c = ground arith in
        rw here (subst (λ q. Seg k'.threads (k'.ready_queues q) new) (sym at_c) seg)
    | inr other ↦
        let ne : p ≢ c = ground arith in
        rw (other, heads p ne)
          (Seg-frame k.threads k'.threads _ (ls p) (λ x o. same p x l ne o) (v.segs p l))
  ];
  distinct = λ p l. elim (Bool-cases (p == c)) [
    | inl here ↦ rw here d
    | inr other ↦ rw other (v.distinct p l)
  ];
  apart = λ p q x hp hq ne o. elim (Bool-cases (occurs x (ls q))) [
    | inl there ↦ ground (arith, v.apart p q x hp hq ne, fresh p x hp, fresh q x hq)
    | inr gone ↦ ground (arith, fresh p x hp)
  ];
}

pub clamp_priority-lt : (z : ℤ) → clamp_priority z < 5
unfolding clamp_priority
clamp_priority-lt (pos n) = ground arith
clamp_priority-lt (negsuc n) = omega arith

-- The pointers after a thread has been added: its own is null, that of the last thread of its queue
-- leads to it, and no other changes.
record Linked (k k' : Kernel) (ls : ℕ → List ℕ) (c t : ℕ) : Type 0 where
  pub seg : Seg k'.threads (k'.ready_queues c) (ls c ++ t ∷ [])
  pub heads : (p : ℕ) → p ≢ c → k'.ready_queues p ≡ k.ready_queues p
  pub nexts : (x : ℕ) → occurs x (ls c) ≡ false → x ≢ t → (k'.threads x).next ≡ (k.threads x).next

-- The state after the thread `t` has been linked behind the thread `l`.
abbrev behind : Kernel → ℕ → ℕ → Kernel
behind k t l =
    let k' = set_thread k l (record (k.threads l) { next = some t }) in
    set_thread k' t (record (k'.threads t) { next = none; state = State.ready })

add_behind :
    (k : Kernel) (t h l : ℕ)
    → k.ready_queues (clamp_priority (k.threads t).priority) ≡ some h
    → last_of k.threads max_threads h ≡ l
    → scheduler_add_thread k t ≡ behind k t l
unfolding scheduler_add_thread
add_behind k t h l full e = rw (full, e, scheduler_add_thread) refl

behind-Linked :
    (k : Kernel) (ls : ℕ → List ℕ) (c t h : ℕ) (r : List ℕ)
    → ls c ≡ h ∷ r
    → Seg k.threads (k.threads h).next r
    → Distinct (h ∷ r)
    → occurs t (h ∷ r) ≡ false
    → k.ready_queues c ≡ some h
    → Linked k (behind k t (last h r)) ls c t
behind-Linked k ls c t h r cons more d out full =
    let ne : t ≢ last h r =
      λ e. ground (arith, out, occurs-last h r, ap (λ x. occurs x (h ∷ r)) e) in
    let ne' : last h r ≢ t = λ e. ne (sym e) in
    let seg : Seg (behind k t (last h r)).threads (some h) (h ∷ (r ++ t ∷ [])) =
      Seg-append k.threads (behind k t (last h r)).threads h t r more d out (ground arith)
        (ground arith) (λ y p q. ground arith) in
    record {
      seg = rw (cons, full) seg;
      heads = λ p q. refl;
      nexts = λ x o q.
          let apart : x ≢ last h r =
            λ e. ground (arith, rw cons at o, occurs-last h r, ap (λ y. occurs y (h ∷ r)) e) in
          ground arith;
    }

add-Linked :
    (k : Kernel) (ls : ℕ → List ℕ) (t : ℕ)
    → Holds k ls
    → let c = clamp_priority (k.threads t).priority in
      occurs t (ls c) ≡ false
      → length (ls c) ≤ max_threads
      → Linked k (scheduler_add_thread k t) ls c t
unfolding scheduler_add_thread
add-Linked k ls t v out short =
    let c = clamp_priority (k.threads t).priority in
    let seg = v.segs c (clamp_priority-lt (k.threads t).priority) in
    elim (Option-cases (k.ready_queues c)) [
      | inl empty ↦
          let nil = Seg-none k.threads (ls c) (rw empty at seg) in
          rw (empty, scheduler_add_thread)
            (record {
              seg = rw nil (ground arith);
              heads = λ p ne. ground arith;
              nexts = λ x o ne. ground arith;
            })
      | inr (h, full) ↦
          let (r, cons, more) = Seg-some k.threads h (ls c) (rw full at seg) in
          let at_last : last_of k.threads max_threads h ≡ last h r =
            last_of-Seg k.threads max_threads h r more (omega (arith, short, ap length cons)) in
          subst (λ x. Linked k x ls c t) (sym (add_behind k t h (last h r) full at_last))
            (behind-Linked k ls c t h r cons more
              (subst Distinct cons (v.distinct c (clamp_priority-lt (k.threads t).priority)))
              (subst (λ l. occurs t l ≡ false) cons out) full)
    ]

-- The queue of a thread's priority gets the thread at its end; no other queue changes.
pub scheduler_add_thread-Holds :
    (k : Kernel) (ls : ℕ → List ℕ) (t : ℕ)
    → Holds k ls
    → ((p : ℕ) → p < 5 → occurs t (ls p) ≡ false)
    → let c = clamp_priority (k.threads t).priority in
      length (ls c) ≤ max_threads → Holds (scheduler_add_thread k t) (put ls c (ls c ++ t ∷ []))
scheduler_add_thread-Holds k ls t v out short =
    let c = clamp_priority (k.threads t).priority in
    let lt = clamp_priority-lt (k.threads t).priority in
    let g = add-Linked k ls t v (out c lt) short in
    replace-Holds k (scheduler_add_thread k t) ls c (ls c ++ t ∷ []) v lt g.seg
      (Distinct-append (ls c) t (v.distinct c lt) (out c lt)) g.heads
      (λ p x l ne o.
        rw (occurs-append x (ls c) t)
          (ground (arith, v.apart p c x, out p l, ap (λ y. occurs y (ls p)) {x = x} {y = t})))
      (λ p x l ne o.
        g.nexts x (v.apart p c x l lt ne o)
          (λ e. ground (arith, out p l, ap (λ y. occurs y (ls p)) e)))

-- Adding a thread changes no process and leaves its own pointer null.
pub processes-add : (k : Kernel) (t : ℕ) → (scheduler_add_thread k t).processes ≡ k.processes
unfolding scheduler_add_thread
processes-add k t = ground arith

pub next-add : (k : Kernel) (t : ℕ) → ((scheduler_add_thread k t).threads t).next ≡ none
unfolding scheduler_add_thread
next-add k t = ground arith

-- The queues hold the same lists if no pointer changes.
pub Holds-same :
    (k k' : Kernel) (ls : ℕ → List ℕ)
    → ((p : ℕ) → k'.ready_queues p ≡ k.ready_queues p)
    → ((x : ℕ) → (k'.threads x).next ≡ (k.threads x).next)
    → Holds k ls
    → Holds k' ls
Holds-same k k' ls heads nexts v = record {
  segs =
      λ p l. rw (heads p) (Seg-frame k.threads k'.threads _ (ls p) (λ x o. nexts x) (v.segs p l));
  distinct = v.distinct;
  apart = v.apart;
}
