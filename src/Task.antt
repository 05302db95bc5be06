-- ===== src/Task.antt =====
-- include/linux/sched.h: the task structure and the task array. A pointer to a task structure is the
-- index of its slot in `task[]`.
use os_lab2_gui.Prelude.{
  zero, suc, ◌+◌, ◌≤◌, ◌<◌, ◌≡◌, ap, ◌∙◌, sym, inl, inr, Bool-cases, ==_iff, arith, ◌==◌,
  if◌then◌else◌, ℕ, Bool, true, false, Option, none, some,
}
use os_lab2_gui.Prelude.Int.{ℤ, pos, negsuc}
use os_lab2_gui.Prelude.Bits.{Bits, zeros}

-- TASK_RUNNING … TASK_STOPPED
pub data TaskState : Type 0 where
  running interruptible uninterruptible zombie stopped : TaskState

abbrev pub is_running : TaskState → Bool
is_running running = true
is_running _ = false

abbrev pub is_interruptible : TaskState → Bool
is_interruptible interruptible = true
is_interruptible _ = false

-- `struct task_struct`: the fields that the modelled code reads or writes. `signal` and `blocked` are
-- 32-bit words, used bit by bit.
pub record Task : Type 0 where
  pub state : TaskState
  pub counter : ℤ
  pub priority : ℤ
  pub signal : Bits
  pub blocked : Bits
  pub exit_code : ℤ
  pub pid : ℤ
  pub father : ℤ
  pub pgrp : ℤ
  pub session : ℤ
  pub leader : Bool
  pub uid : ℕ
  pub euid : ℕ
  pub suid : ℕ
  pub gid : ℕ
  pub egid : ℕ
  pub sgid : ℕ
  pub alarm : ℕ
  pub utime : ℕ
  pub stime : ℕ
  pub cutime : ℕ
  pub cstime : ℕ
  pub start_time : ℕ
  pub tty : ℤ

-- INIT_TASK, for these fields
abbrev pub init_task : Task
init_task = record {
  state = running;
  counter = pos 15;
  priority = pos 15;
  signal = zeros;
  blocked = zeros;
  exit_code = pos 0;
  pid = pos 0;
  father = negsuc 0;
  pgrp = pos 0;
  session = pos 0;
  leader = false;
  uid = 0;
  euid = 0;
  suid = 0;
  gid = 0;
  egid = 0;
  sgid = 0;
  alarm = 0;
  utime = 0;
  stime = 0;
  cutime = 0;
  cstime = 0;
  start_time = 0;
  tty = negsuc 0;
}

-- `task[]`; NULL is `none`
abbrev pub Tasks : Type 0
Tasks = ℕ → Option Task

-- NR_TASKS - 1, the index of LAST_TASK
abbrev pub last_task : ℕ
last_task = 63

-- what a loop does to the slots that hold a task
abbrev pub on_task : (Task → Task) → Option Task → Option Task
on_task f none = none
on_task f (some t) = some (f t)

-- the first slot that passes a test, of `n` slots from `i`
unfoldable pub find_task : (Option Task → Bool) → ℕ → ℕ → Tasks → Option ℕ
find_task test i zero task = none
find_task test i (suc n) task = if test (task i) then some i else find_task test (i + 1) n task

-- what `find_task` says about the slots from `i` to `i + n - 1`
abbrev pub First : (Option Task → Bool) → ℕ → ℕ → Tasks → Option ℕ → Type 0
First test i n task none = (j : ℕ) → i ≤ j → j < i + n → test (task j) ≡ false
First test i n task (some l) =
    (i ≤ l)
    × (l < i + n)
    × (test (task l) ≡ true)
    × ((j : ℕ) → i ≤ j → j < l → test (task j) ≡ false)

First-later :
    (test : Option Task → Bool) (i n : ℕ) (task : Tasks) (o : Option ℕ)
    → test (task i) ≡ false
    → First test (i + 1) n task o
    → First test i (suc n) task o
First-later test i n task none here h = λ j ge lt. elim (Bool-cases (i == j)) [
  | inl e ↦ ap (λ m. test (task m)) (sym ((==_iff i j).0 e)) ∙ here
  | inr e ↦ h j (ground arith) (omega arith)
]
First-later test i n task (some l) here (ge, lt, found, before) = (
  omega arith,
  omega arith,
  found,
  λ j le below. elim (Bool-cases (i == j)) [
    | inl e ↦ ap (λ m. test (task m)) (sym ((==_iff i j).0 e)) ∙ here
    | inr e ↦ before j (ground arith) below
  ],
)

pub find_task-First :
    (test : Option Task → Bool) (i n : ℕ) (task : Tasks)
    → First test i n task (find_task test i n task)
unfolding find_task
find_task-First test i zero task = λ j ge lt. absurd (omega arith)
find_task-First test i (suc n) task = elim (Bool-cases (test (task i))) [
  | inl e ↦ rw e (omega arith, omega arith, e, λ j ge lt. absurd (omega arith))
  | inr e ↦ rw e (
      First-later test i n task (find_task test (i + 1) n task) e
        (find_task-First test (i + 1) n task))
]
