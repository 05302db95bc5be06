-- ===== src/Fork.antt =====
-- kernel/fork.c: the number and the slot of a new process, its task structure and its memory. What the
-- task structure holds beyond the record of Task is kept in a table beside `task[]`, at the same slot.
pub mod Number
pub mod Child
mod Tests
use os_lab2_gui.Prelude.{
  ℕ, zero, suc, ◌+◌, ◌*◌, ◌/◌, ◌-◌, ◌%◌, ◌^◌, Bool, true, false, not, Option, none, some, ltb, ◌==◌,
  if◌then◌else◌,
}
use os_lab2_gui.Prelude.Int.{ℤ, pos, negsuc, eqb_ℤ}
use os_lab2_gui.Prelude.Bits.{Bits, zeros}
use os_lab2_gui.Prelude.Table.{update}
use os_lab2_gui.Task.{Task, Tasks, running, uninterruptible, find_task}
use os_lab2_gui.Memory.{Memory, Ran, ok, panicked, and_then, get_free_page, free_page}
use os_lab2_gui.Memory.Tables.{copy_page_tables, free_page_tables}
use os_lab2_gui.Memory.Fault.{write_verify}

-- -EAGAIN
abbrev pub eagain : ℤ
eagain = negsuc 10

-- `verify_area`: its loop; the size goes down by 4096 in each turn
unfoldable pub verify_loop : ℕ → ℕ → ℕ → Memory → Ran Memory
verify_loop zero size start s = ok s
verify_loop (suc fuel) size start s =
    if ltb 0 size
    then and_then (write_verify start s)
        (λ s1. verify_loop fuel (size - 4096) ((start + 4096) % 2 ^ 32) s1)
    else ok s

-- `verify_area(addr, size)`, with the data segment of the task at `base`
unfoldable pub verify_area : ℕ → ℕ → ℕ → Memory → Ran Memory
verify_area base addr size s =
    verify_loop (size + addr % 4096) (size + addr % 4096) ((addr / 4096 * 4096 + base) % 2 ^ 32) s

-- `if ((++last_pid)<0) last_pid=1;` for a long
abbrev pub next_pid : ℕ → ℕ
next_pid last_pid = if last_pid + 1 == 2 ^ 31 then 1 else last_pid + 1

abbrev pub has_number : ℕ → Option Task → Bool
has_number pid none = false
has_number pid (some t) = eqb_ℤ t.pid (pos pid)

-- the loop at `repeat`: the first pid after `last_pid` that no task has
unfoldable pub new_pid : ℕ → ℕ → Tasks → Option ℕ
new_pid zero last_pid task = none
new_pid (suc fuel) last_pid task =
    let rest = new_pid fuel (next_pid last_pid) task in
    elim (find_task (has_number (next_pid last_pid)) 0 64 task) [
      | none ↦ some (next_pid last_pid)
      | some i ↦ rest
    ]

abbrev pub is_free : Option Task → Bool
is_free none = true
is_free (some t) = false

-- `find_empty_process()`: the value returned and `last_pid`; `none` if the fuel is not enough
unfoldable pub find_empty_process : ℕ → ℕ → Tasks → Option (ℤ × ℕ)
find_empty_process fuel last_pid task = elim (new_pid fuel last_pid task) [
  | none ↦ none
  | some pid ↦ elim (find_task is_free 1 63 task) [
    | none ↦ some (eagain, pid)
    | some i ↦ some (pos i, pid)
  ]
]

-- the registers that the system call has pushed
pub record Registers : Type 0 where
  pub ebp : ℕ
  pub edi : ℕ
  pub esi : ℕ
  pub gs : ℕ
  pub ebx : ℕ
  pub ecx : ℕ
  pub edx : ℕ
  pub fs : ℕ
  pub es : ℕ
  pub ds : ℕ
  pub eip : ℕ
  pub cs : ℕ
  pub eflags : ℕ
  pub esp : ℕ
  pub ss : ℕ

-- `struct tss_struct`, for the fields that are read or written
pub record Tss : Type 0 where
  pub back_link : ℕ
  pub esp0 : ℕ
  pub ss0 : ℕ
  pub eax : ℕ
  pub user : Registers
  pub ldt : ℕ
  pub trace_bitmap : ℕ

-- the segments of `ldt`, the descriptors and the directories of a task
pub record Image : Type 0 where
  pub start_code : ℕ
  pub code_base : ℕ
  pub data_base : ℕ
  pub code_limit : ℕ
  pub data_limit : ℕ
  pub tss : Tss
  pub filp : ℕ → Option ℕ
  pub pwd : Option ℕ
  pub root : Option ℕ
  pub executable : Option ℕ

-- `task` with the rest of each structure and its page, `current`, `jiffies`, `last_pid`, the memory, and
-- `f_count` and `i_count` of the files and inodes
pub record System : Type 0 where
  pub task : Tasks
  pub image : ℕ → Image
  pub page : ℕ → ℕ
  pub current : ℕ
  pub jiffies : ℕ
  pub last_pid : ℕ
  pub memory : Memory
  pub f_count : ℕ → ℕ
  pub i_count : ℕ → ℕ

-- a selector, `& 0xffff`
abbrev pub low16 : ℕ → ℕ
low16 n = n % 65536

-- `p->tss`, for the slot `nr` and the structure at the address `p`
abbrev pub new_tss : ℕ → ℕ → Registers → Tss
new_tss nr p r = record {
  back_link = 0;
  esp0 = 4096 + p;
  ss0 = 16;
  eax = 0;
  user = record r {
    es = low16 r.es;
    cs = low16 r.cs;
    ss = low16 r.ss;
    ds = low16 r.ds;
    fs = low16 r.fs;
    gs = low16 r.gs;
  };
  ldt = nr * 16 + 40;
  trace_bitmap = 2147483648;
}

-- the assignments to the copy of the current task
abbrev pub new_task : ℕ → ℕ → Task → Task
new_task last_pid jiffies t = record t {
  state = uninterruptible;
  pid = pos last_pid;
  father = t.pid;
  counter = t.priority;
  signal = zeros;
  alarm = 0;
  leader = false;
  utime = 0;
  stime = 0;
  cutime = 0;
  cstime = 0;
  start_time = jiffies;
}

-- `copy_mem(nr, p)`: whether the memory was enough, the new image, the memory
unfoldable pub copy_mem : ℕ → Image → Memory → Ran (Bool × Image × Memory)
copy_mem nr p s =
    let new_base : ℕ = nr * 67108864 in
    let moved : Image = record p {
      start_code = new_base;
      code_base = new_base;
      data_base = new_base;
    } in
    if not (p.data_base == p.code_base)
    then panicked
    else if ltb p.data_limit p.code_limit
    then panicked
    else and_then (copy_page_tables p.data_base new_base p.data_limit s) (λ (r, s1).
      if eqb_ℤ r (pos 0)
      then ok (true, moved, s1)
      else and_then (free_page_tables new_base p.data_limit s1) (λ s2. ok (false, moved, s2)))

-- `if (f) f->f_count++;`
abbrev pub bump : Option ℕ → (ℕ → ℕ) → ℕ → ℕ
bump none count = count
bump (some f) count = update count f ((count f + 1) % 65536)

-- the loop over the descriptors from `i` on, `n` of them
unfoldable pub bump_files : ℕ → ℕ → (ℕ → Option ℕ) → (ℕ → ℕ) → ℕ → ℕ
bump_files zero i filp count = count
bump_files (suc n) i filp count = bump_files n (i + 1) filp (bump (filp i) count)

-- what copy_process does when the memory was enough
abbrev pub start_child : ℕ → Task → Image → Memory → System → System
start_child nr child image memory s = record s {
  task = update s.task nr (some (record child { state = running }));
  image = update s.image nr image;
  memory = memory;
  f_count = bump_files 20 0 image.filp s.f_count;
  i_count = bump image.executable (bump image.root (bump image.pwd s.i_count));
}

-- `copy_process(nr, …)`, called by the task `t` at the slot `current`
unfoldable pub copy_process : ℕ → Registers → Task → System → Ran (ℤ × System)
copy_process nr r t s =
    let (p, memory) = get_free_page s.memory in
    let placed : System = record s { memory = memory; page = update s.page nr p } in
    let child : Task = new_task s.last_pid s.jiffies t in
    let image : Image = record (s.image s.current) { tss = new_tss nr p r } in
    if p == 0
    then ok (eagain, record s { memory = memory })
    else and_then (copy_mem nr image memory) (λ (enough, image1, memory1).
      if enough
      then ok (pos s.last_pid, start_child nr child image1 memory1 placed)
      else and_then (free_page p memory1) (λ memory2. ok (
        eagain,
        record placed {
          task = update s.task nr none;
          image = update s.image nr image1;
          memory = memory2;
        },
      )))
