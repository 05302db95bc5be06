-- ===== src/Fork/Number.antt =====
-- kernel/fork.c: find_empty_process. The numbers that the loop tries are all different, and 64 tasks have
-- at most 64 of them.
use os_lab2_gui.Prelude.{
  ℕ, zero, suc, ◌+◌, ◌-◌, ◌*◌, ◌%◌, ◌^◌, ◌≤◌, ◌<◌, ◌≡◌, refl, inl, inr, Bool, true, false, Option,
  none, some, arith, ◌&&◌, ltb, leb, if◌then◌else◌, Bool-cases, Option-cases,
}
use os_lab2_gui.Prelude.Int.{ℤ, pos, negsuc, eqb_ℤ}
use os_lab2_gui.Task.{Task, Tasks, find_task, First, find_task-First}
use os_lab2_gui.Fork.{eagain, next_pid, has_number, new_pid, is_free, find_empty_process}

-- 2 ^ 31 - 1
abbrev max_pid : ℕ
max_pid = 2147483647

abbrev to_nat : Bool → ℕ
to_nat true = 1
to_nat false = 0

-- how often the pid is among the `k` numbers after `last_pid`
unfoldable pid_hits : ℤ → ℕ → ℕ → ℕ
pid_hits z zero last_pid = 0
pid_hits z (suc k) last_pid =
    to_nat (eqb_ℤ z (pos (next_pid last_pid))) + pid_hits z k (next_pid last_pid)

abbrev hits : Option Task → ℕ → ℕ → ℕ
hits none k last_pid = 0
hits (some t) k last_pid = pid_hits t.pid k last_pid

-- the same, of the `n` slots from `i` on
unfoldable all_hits : ℕ → ℕ → Tasks → ℕ → ℕ → ℕ
all_hits i zero task k last_pid = 0
all_hits i (suc n) task k last_pid = hits (task i) k last_pid + all_hits (i + 1) n task k last_pid

-- the steps from `last_pid` to `p`
abbrev steps : ℕ → ℕ → ℕ
steps last_pid p = (p + 2 * max_pid - 1 - last_pid) % max_pid

pid_hits-steps :
    (p k last_pid : ℕ)
    → 1 ≤ p
    → p ≤ max_pid
    → last_pid ≤ max_pid
    → k ≤ max_pid
    → pid_hits (pos p) k last_pid ≡ (if ltb (steps last_pid p) k then 1 else 0)
unfolding pid_hits
pid_hits-steps p zero last_pid h1 h2 h3 h4 = ground arith
pid_hits-steps p (suc k) last_pid h1 h2 h3 h4 =
    ground (arith, pid_hits-steps p k (next_pid last_pid))

pid_hits-none :
    (z : ℤ) (k last_pid : ℕ)
    → ((m : ℕ) → 1 ≤ m → m ≤ max_pid → eqb_ℤ z (pos m) ≡ false)
    → last_pid ≤ max_pid
    → pid_hits z k last_pid ≡ 0
unfolding pid_hits
pid_hits-none z zero last_pid h le = refl
pid_hits-none z (suc k) last_pid h le =
    rw (h (next_pid last_pid) (ground arith) (ground arith))
      (omega (arith, pid_hits-none z k (next_pid last_pid) h (ground arith)))

-- ‥ so at most once
pid_hits-le :
    (z : ℤ) (k last_pid : ℕ) → last_pid ≤ max_pid → k ≤ max_pid → pid_hits z k last_pid ≤ 1
pid_hits-le (negsuc n) k last_pid h1 h2 =
    omega (arith, pid_hits-none (negsuc n) k last_pid (λ m a b. ground arith) h1)
pid_hits-le (pos p) k last_pid h1 h2 = elim (Bool-cases (leb 1 p && leb p max_pid)) [
  | inl e ↦ ground (arith, pid_hits-steps p k last_pid)
  | inr e ↦ omega (arith, pid_hits-none (pos p) k last_pid (λ m a b. ground arith) h1)
]

hits-le :
    (slot : Option Task) (k last_pid : ℕ)
    → last_pid ≤ max_pid
    → k ≤ max_pid
    → hits slot k last_pid ≤ 1
hits-le none k last_pid h1 h2 = omega arith
hits-le (some t) k last_pid h1 h2 = pid_hits-le t.pid k last_pid h1 h2

all_hits-le :
    (i n : ℕ) (task : Tasks) (k last_pid : ℕ)
    → last_pid ≤ max_pid
    → k ≤ max_pid
    → all_hits i n task k last_pid ≤ n
unfolding all_hits
all_hits-le i zero task k last_pid h1 h2 = omega arith
all_hits-le i (suc n) task k last_pid h1 h2 =
    omega (arith, hits-le (task i) k last_pid h1 h2, all_hits-le (i + 1) n task k last_pid h1 h2)

-- of the `n` slots from `i` on, one has the next number
unfoldable taken : ℕ → ℕ → Tasks → ℕ → ℕ
taken i zero task pid = 0
taken i (suc n) task pid = to_nat (has_number pid (task i)) + taken (i + 1) n task pid

hits-suc :
    (slot : Option Task) (k last_pid : ℕ)
    → hits slot (suc k) last_pid
      ≡ to_nat (has_number (next_pid last_pid) slot) + hits slot k (next_pid last_pid)
unfolding pid_hits
hits-suc none k last_pid = omega arith
hits-suc (some t) k last_pid = refl

all_hits-suc :
    (i n : ℕ) (task : Tasks) (k last_pid : ℕ)
    → all_hits i n task (suc k) last_pid
      ≡ taken i n task (next_pid last_pid) + all_hits i n task k (next_pid last_pid)
unfolding all_hits taken
all_hits-suc i zero task k last_pid = omega arith
all_hits-suc i (suc n) task k last_pid =
    omega (arith, hits-suc (task i) k last_pid, all_hits-suc (i + 1) n task k last_pid)

taken-pos :
    (i n : ℕ) (task : Tasks) (pid j : ℕ)
    → find_task (has_number pid) i n task ≡ some j
    → 1 ≤ taken i n task pid
unfolding taken find_task
taken-pos i zero task pid j e = cc
taken-pos i (suc n) task pid j e = elim (Bool-cases (has_number pid (task i))) [
  | inl here ↦ rw here (omega arith)
  | inr other ↦ omega (arith, taken-pos (i + 1) n task pid j (rw other at e))
]

-- the answer of the loop: a number that no task has
abbrev pub IsNew : Tasks → ℕ → Type 0
IsNew task pid = (1 ≤ pid) × (pid < 2 ^ 31) × ((j : ℕ) → j < 64 → has_number pid (task j) ≡ false)

abbrev Ends : Tasks → Option ℕ → Type 0
Ends task none = ⊥
Ends task (some pid) = IsNew task pid

IsNew-of_none :
    (task : Tasks) (pid : ℕ) (o : Option ℕ)
    → o ≡ none
    → 1 ≤ pid
    → pid < 2 ^ 31
    → First (has_number pid) 0 64 task o
    → IsNew task pid
IsNew-of_none task pid none e h1 h2 first = (h1, h2, λ j lt. first j (omega arith) (omega arith))
IsNew-of_none task pid (some i) e h1 h2 first = cc

new_pid-Ends :
    (k last_pid : ℕ) (task : Tasks)
    → last_pid ≤ max_pid
    → k ≤ max_pid
    → all_hits 0 64 task k last_pid < k
    → Ends task (new_pid k last_pid task)
unfolding new_pid
new_pid-Ends zero last_pid task h1 h2 few = absurd (omega arith)
new_pid-Ends (suc k) last_pid task h1 h2 few =
    elim (Option-cases (find_task (has_number (next_pid last_pid)) 0 64 task)) [
      | inl e ↦
          rw (e, Ends)
            (IsNew-of_none task (next_pid last_pid) _ e (ground arith) (ground arith)
              (find_task-First (has_number (next_pid last_pid)) 0 64 task))
      | inr (j, e) ↦
          rw (e, Ends)
            (new_pid-Ends k (next_pid last_pid) task (ground arith) (omega arith) (
              omega (
                arith,
                taken-pos 0 64 task (next_pid last_pid) j e,
                all_hits-suc 0 64 task k last_pid,
              )))
    ]

-- what the value returned says about the slots
abbrev pub IsSlot : Tasks → ℤ → Option ℕ → Type 0
IsSlot task r none = (r ≡ eagain) × ((j : ℕ) → 1 ≤ j → j < 64 → is_free (task j) ≡ false)
IsSlot task r (some i) =
    (r ≡ pos i)
    × (1 ≤ i)
    × (i < 64)
    × (is_free (task i) ≡ true)
    × ((j : ℕ) → 1 ≤ j → j < i → is_free (task j) ≡ false)

abbrev pub Started : Tasks → Option (ℤ × ℕ) → Type 0
Started task none = ⊥
Started task (some (r, pid)) = IsNew task pid × (slot : Option ℕ) × IsSlot task r slot

find_slot :
    (task : Tasks) (pid : ℕ) (o : Option ℕ)
    → IsNew task pid
    → First is_free 1 63 task o
    → Started task (elim o [ none ↦ some (eagain, pid) | some i ↦ some (pos i, pid) ])
find_slot task pid none new first = (new, none, (refl, λ j ge lt. first j ge (omega arith)))
find_slot task pid (some i) new (ge, lt, free, before) =
    (new, some i, (refl, ge, omega arith, free, before))

find_free :
    (task : Tasks) (o : Option ℕ)
    → Ends task o
    → Started task (elim o [
      | none ↦ none
      | some pid ↦ elim (find_task is_free 1 63 task) [
        | none ↦ some (eagain, pid)
        | some i ↦ some (pos i, pid)
      ]
    ])
find_free task none ends = absurd ends
find_free task (some pid) new =
    find_slot task pid (find_task is_free 1 63 task) new (find_task-First is_free 1 63 task)

-- With fuel for 65 numbers find_empty_process ends, whatever the tasks are. The new last_pid is positive, a
-- long, and the pid of no task; the value returned is the first slot from 1 on that is free, or -EAGAIN if
-- there is none.
pub find_empty_process-Started :
    (task : Tasks) (last_pid : ℕ)
    → last_pid < 2 ^ 31
    → Started task (find_empty_process 65 last_pid task)
unfolding find_empty_process
find_empty_process-Started task last_pid h = find_free task (new_pid 65 last_pid task) (
    new_pid-Ends 65 last_pid task (omega arith) (omega arith)
      (omega (arith, all_hits-le 0 64 task 65 last_pid (omega arith) (omega arith))))
