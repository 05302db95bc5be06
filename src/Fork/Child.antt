-- ===== src/Fork/Child.antt =====
-- kernel/fork.c: copy_process, when the memory is enough.
use os_lab2_gui.Prelude.{
  ℕ, zero, suc, ◌+◌, ◌*◌, ◌%◌, ◌≤◌, ◌<◌, ◌≡◌, ◌≢◌, refl, ap, inl, inr, true, false, Option, none,
  some, arith, ◌==◌, if◌then◌else◌, Bool-cases, ==_iff,
}
use os_lab2_gui.Prelude.Int.{ℤ, pos}
use os_lab2_gui.Prelude.Table.{update, update_self, update_ne}
use os_lab2_gui.Prelude.Bits.{zeros}
use os_lab2_gui.Task.{Task, running}
use os_lab2_gui.Memory.{Memory, Ran, ok, get_free_page}
use os_lab2_gui.Memory.Tables.{copy_page_tables}
use os_lab2_gui.Fork.{
  Registers, Tss, Image, System, new_tss, new_task, copy_mem, bump, bump_files, start_child,
  copy_process,
}

-- whether a pointer leads to `f`
abbrev pub leads : ℕ → Option ℕ → ℕ
leads f none = 0
leads f (some g) = if g == f then 1 else 0

-- how many of `n` descriptors from `i` on lead to `f`
unfoldable pub uses : ℕ → ℕ → (ℕ → Option ℕ) → ℕ → ℕ
uses zero i filp f = 0
uses (suc n) i filp f = leads f (filp i) + uses n (i + 1) filp f

bump_lem :
    (o : Option ℕ) (count : ℕ → ℕ) (f : ℕ)
    → count f < 65536
    → bump o count f ≡ (count f + leads f o) % 65536
bump_lem none count f h = omega arith
bump_lem (some g) count f h = elim (Bool-cases (g == f)) [
  | inl e ↦ rw e (ap (λ x. (count x + 1) % 65536) ((==_iff g f).0 e))
  | inr e ↦ rw e (omega arith)
]

bump_files_lem :
    (n i : ℕ) (filp : ℕ → Option ℕ) (count : ℕ → ℕ) (f : ℕ)
    → count f < 65536
    → bump_files n i filp count f ≡ (count f + uses n i filp f) % 65536
unfolding bump_files uses
bump_files_lem zero i filp count f h = omega arith
bump_files_lem (suc n) i filp count f h = omega (
  arith,
  bump_lem (filp i) count f h,
  bump_files_lem n (i + 1) filp (bump (filp i) count) f
      (omega (arith, bump_lem (filp i) count f h)),
)

-- `pwd`, `root` and `executable`
bump_three :
    (a b c : Option ℕ) (count : ℕ → ℕ) (d : ℕ)
    → count d < 65536
    → bump c (bump b (bump a count)) d ≡ (count d + leads d a + leads d b + leads d c) % 65536
bump_three a b c count d h =
    let first : bump a count d ≡ (count d + leads d a) % 65536 = bump_lem a count d h in
    let second : bump b (bump a count) d ≡ (bump a count d + leads d b) % 65536 =
      bump_lem b (bump a count) d (omega (arith, first)) in
    omega (arith, first, second, bump_lem c (bump b (bump a count)) d (omega (arith, second)))

-- the hypotheses on the current task and the memory: its segments start at the same address, and the page
-- for the new structure is there
module _ (nr : ℕ) (r : Registers) (t : Task) (s : System) (p : ℕ) (memory : Memory)
    (got : get_free_page s.memory ≡ (p, memory)) (nonzero : p ≢ 0)
    (one_base : (s.image s.current).data_base ≡ (s.image s.current).code_base)
    (limits : (s.image s.current).code_limit ≤ (s.image s.current).data_limit) where
  abbrev parent : Image
  parent = s.image s.current

  abbrev copied : Ran (ℤ × Memory)
  copied = copy_page_tables parent.data_base (nr * 67108864) parent.data_limit memory

  abbrev image : Image
  image = record parent { tss = new_tss nr p r }

  abbrev moved : Image
  moved = record image {
    start_code = nr * 67108864;
    code_base = nr * 67108864;
    data_base = nr * 67108864;
  }

  copy_mem-enough :
      (memory1 : Memory)
      → copied ≡ ok (pos 0, memory1)
      → copy_mem nr image memory ≡ ok (true, moved, memory1)
  unfolding copy_mem
  copy_mem-enough memory1 e = rw e (ground arith)

  p-false : (p == 0) ≡ false
  p-false = ground arith

  -- the task that the caller gets as its child
  abbrev pub child_task : Task
  child_task = record t {
    state = running;
    pid = pos s.last_pid;
    father = t.pid;
    counter = t.priority;
    signal = zeros;
    alarm = 0;
    leader = false;
    utime = 0;
    stime = 0;
    cutime = 0;
    cstime = 0;
    start_time = s.jiffies;
  }

  abbrev pub child_tss : Tss
  child_tss = record {
    back_link = 0;
    esp0 = 4096 + p;
    ss0 = 16;
    eax = 0;
    user = record r {
      es = r.es % 65536;
      cs = r.cs % 65536;
      ss = r.ss % 65536;
      ds = r.ds % 65536;
      fs = r.fs % 65536;
      gs = r.gs % 65536;
    };
    ldt = nr * 16 + 40;
    trace_bitmap = 2147483648;
  }

  -- what the caller and the other tasks see of a new process
  abbrev pub Forked : Memory → System → Type 0
  Forked memory1 s' =
      (s'.task nr ≡ some child_task)
      × (s'.image nr ≡ record parent {
        start_code = nr * 67108864;
        code_base = nr * 67108864;
        data_base = nr * 67108864;
        tss = child_tss;
      })
      × ((j : ℕ) → nr ≢ j → (s'.task j ≡ s.task j) × (s'.image j ≡ s.image j))
      × (s'.memory ≡ memory1)
      × ((f : ℕ)
          → s.f_count f < 65536
          → s'.f_count f ≡ (s.f_count f + uses 20 0 parent.filp f) % 65536)
      × ((d : ℕ)
          → s.i_count d < 65536
          → s'.i_count d
            ≡ (s.i_count d + leads d parent.pwd + leads d parent.root + leads d parent.executable)
              % 65536)

  abbrev placed : System
  placed = record s { memory = memory; page = update s.page nr p }

  abbrev forked : Memory → System
  forked memory1 = start_child nr (new_task s.last_pid s.jiffies t) moved memory1 placed

  forked-Forked : (memory1 : Memory) → Forked memory1 (forked memory1)
  forked-Forked memory1 = (
    update_self s.task nr _,
    update_self s.image nr _,
    λ j ne. (update_ne s.task nr _ j ne, update_ne s.image nr _ j ne),
    refl,
    λ f h. bump_files_lem 20 0 parent.filp s.f_count f h,
    λ d h. bump_three parent.pwd parent.root parent.executable s.i_count d h,
  )

  -- If there is a page for the structure, both segments of the caller start at one address, the code is not
  -- longer than the data and copy_page_tables returns 0, then copy_process returns last_pid. The new task is
  -- the caller with the new pid, the caller as father, a fresh slice, times and signals, and ready to run; its
  -- segments start at 64 MB times its slot and its registers are those of the caller with 0 in eax. Each file
  -- and inode counts the pointers that the new task has to it, on 16 bits, and no other slot changes.
  pub copy_process-Forked :
      (memory1 : Memory)
      → copied ≡ ok (pos 0, memory1)
      → (s' : System) × (copy_process nr r t s ≡ ok (pos s.last_pid, s')) × Forked memory1 s'
  unfolding copy_process
  copy_process-Forked memory1 e =
      (forked memory1, rw (got, p-false, copy_mem-enough memory1 e) refl, forked-Forked memory1)
