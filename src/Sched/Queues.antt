-- ===== src/Sched/Queues.antt =====
-- The ready queues as lists of threads: what the `next` pointers of the threads spell out.
use nix_core_os.Base.{
  ℕ, zero, suc, ◌≤◌, ◌<◌, ◌≡◌, refl, ◌≢◌, ◌∙◌, ap, Bool, true, false, List, [], ◌∷◌, ◌++◌, Option,
  none, some, ◌==◌, if◌then◌else◌, ◌||◌, length, arith,
}
use nix_core_os.Sched.{Thread, Kernel, last_of}

-- The pointer leads through the `next` pointers along the list to null.
abbrev pub Seg : (ℕ → Thread) → Option ℕ → List ℕ → Type 0
Seg threads h [] = h ≡ none
Seg threads h (t ∷ l) = (h ≡ some t) × Seg threads (threads t).next l

unfoldable pub occurs : ℕ → List ℕ → Bool
occurs x [] = false
occurs x (y ∷ l) = (x == y) || occurs x l

abbrev pub Distinct : List ℕ → Type 0
Distinct [] = Unit {0}
Distinct (x ∷ l) = (occurs x l ≡ false) × Distinct l

abbrev pub last : ℕ → List ℕ → ℕ
last x [] = x
last x (y ∷ l) = last y l

pub occurs-last : (x : ℕ) (l : List ℕ) → occurs (last x l) (x ∷ l) ≡ true
unfolding occurs
occurs-last x [] = ground arith
occurs-last x (y ∷ l) = ground (arith, occurs-last y l)

pub occurs-append :
    (x : ℕ) (l : List ℕ) (t : ℕ) → occurs x (l ++ t ∷ []) ≡ (if x == t then true else occurs x l)
unfolding occurs
occurs-append x [] t = ground arith
occurs-append x (y ∷ l) t = ground (arith, occurs-append x l t)

pub Distinct-append :
    (l : List ℕ) (t : ℕ) → Distinct l → occurs t l ≡ false → Distinct (l ++ t ∷ [])
unfolding occurs
Distinct-append [] t d h = ground arith
Distinct-append (y ∷ l) t d h = ground (arith, Distinct-append l t, occurs-append y l t)

-- Changes to other threads do not matter.
pub Seg-frame :
    (threads threads' : ℕ → Thread) (h : Option ℕ) (l : List ℕ)
    → ((x : ℕ) → occurs x l ≡ true → (threads' x).next ≡ (threads x).next)
    → Seg threads h l
    → Seg threads' h l
unfolding occurs
Seg-frame threads threads' h [] same s = s
Seg-frame threads threads' h (y ∷ l) same s =
    let here : (threads' y).next ≡ (threads y).next = same y (ground arith) in
    (s.0, Seg-frame threads threads' _ l (λ x o. same x (ground arith)) (rw here s.1))

pub last_of-Seg :
    (threads : ℕ → Thread) (fuel x : ℕ) (l : List ℕ)
    → Seg threads (threads x).next l
    → length l ≤ fuel
    → last_of threads fuel x ≡ last x l
unfolding last_of
last_of-Seg threads zero x [] s h = refl
last_of-Seg threads zero x (y ∷ l) s h = absurd (omega arith)
last_of-Seg threads (suc fuel) x [] s h = rw (s, last_of) refl
last_of-Seg threads (suc fuel) x (y ∷ l) s h =
    rw (s.0, last_of) (last_of-Seg threads fuel y l s.1 (omega arith))

-- Linking a thread behind the last one appends it.
pub Seg-append :
    (threads threads' : ℕ → Thread) (x t : ℕ) (l : List ℕ)
    → Seg threads (threads x).next l
    → Distinct (x ∷ l)
    → occurs t (x ∷ l) ≡ false
    → (threads' (last x l)).next ≡ some t
    → (threads' t).next ≡ none
    → ((y : ℕ) → y ≢ last x l → y ≢ t → (threads' y).next ≡ (threads y).next)
    → Seg threads' (some x) (x ∷ (l ++ t ∷ []))
unfolding occurs
Seg-append threads threads' x t [] s d o at_last at_t others = (refl, (at_last, at_t))
Seg-append threads threads' x t (y ∷ l) s d o at_last at_t others =
    let ne : x ≢ last y l = λ e. ground (arith, occurs-last y l, ap (λ z. occurs z (y ∷ l)) e) in
    let ne_t : x ≢ t = ground arith in
    let here : (threads' x).next ≡ some y = others x ne ne_t ∙ s.0 in
    let rest = Seg-append threads threads' y t l s.1 d.1 (ground arith) at_last at_t others in
    (refl, rw here rest)

-- The ready queues hold the lists `ls`, in which each thread stands at most once.
pub record Holds (k : Kernel) (ls : ℕ → List ℕ) : Type 0 where
  pub segs : (p : ℕ) → p < 5 → Seg k.threads (k.ready_queues p) (ls p)
  pub distinct : (p : ℕ) → p < 5 → Distinct (ls p)
  pub apart : (p q x : ℕ) → p < 5 → q < 5 → p ≢ q → occurs x (ls p) ≡ true → occurs x (ls q) ≡ false
