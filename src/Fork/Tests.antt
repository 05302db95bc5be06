-- ===== src/Fork/Tests.antt =====
-- The first processes of kernel/fork.c, and the theorems at them.
use os_lab2_gui.Prelude.{ℕ, ◌+◌, ◌*◌, ◌≡◌, ◌≢◌, refl, none, some, arith, ◌==◌, if◌then◌else◌}
use os_lab2_gui.Prelude.Int.{pos}
use os_lab2_gui.Prelude.Table.{update}
use os_lab2_gui.Task.{Tasks, init_task, find_task}
use os_lab2_gui.Memory.{Memory, ok, get_free_page, scan_map}
use os_lab2_gui.Memory.Tables.{copy_page_tables, copy_dirs, copy_dir}
use os_lab2_gui.Fork.{Registers, Image, System, new_pid, find_empty_process, copy_process}
use os_lab2_gui.Fork.Number.{Started, find_empty_process-Started}
use os_lab2_gui.Fork.Child.{Forked, copy_process-Forked}

-- the first task, and one with the pid 1
abbrev tasks : Tasks
tasks = update (update (λ i. none) 0 (some init_task)) 1 (some (record init_task { pid = pos 1 }))

-- the numbers begin again at 1, which is in use
wraps : find_empty_process 65 2147483647 tasks ≡ some (pos 2, 2)
unfolding find_empty_process new_pid find_task
wraps = refl

find_empty_process-Started_example : Started tasks (find_empty_process 65 0 tasks)
find_empty_process-Started_example = find_empty_process-Started tasks 0 (omega arith)

abbrev registers : Registers
registers = record {
  ebp = 0;
  edi = 0;
  esi = 0;
  gs = 23;
  ebx = 0;
  ecx = 0;
  edx = 0;
  fs = 23;
  es = 23;
  ds = 23;
  eip = 100;
  cs = 15;
  eflags = 512;
  esp = 1000;
  ss = 23;
}

-- the first task: 640 KB from 0 on, no files
abbrev first_image : Image
first_image = record {
  start_code = 0;
  code_base = 0;
  data_base = 0;
  code_limit = 655360;
  data_limit = 655360;
  tss = record {
    back_link = 0;
    esp0 = 4096;
    ss0 = 16;
    eax = 0;
    user = registers;
    ldt = 40;
    trace_bitmap = 2147483648;
  };
  filp = λ i. none;
  pwd = none;
  root = none;
  executable = none;
}

abbrev system : Memory → System
system m = record {
  task = update (λ i. none) 0 (some init_task);
  image = λ i. first_image;
  page = λ i. 0;
  current = 0;
  jiffies = 7;
  last_pid = 1;
  memory = m;
  f_count = λ f. 0;
  i_count = λ d. 0;
}

-- every page but the last is in use
abbrev counts : ℕ → ℕ
counts i = if i == 3839 then 0 else 1

-- no page table at all
abbrev without_tables : Memory
without_tables = record { mem_map = counts; mem = λ a. 0; high_memory = 16777216 }

abbrev last_page : ℕ
last_page = 3839 * 4096 + 1048576

last_ne_zero : last_page ≢ 0
last_ne_zero e = omega (arith, e)

got : get_free_page without_tables ≡ (last_page, (get_free_page without_tables).1)
unfolding get_free_page scan_map
got = refl

copied :
    copy_page_tables 0 (1 * 67108864) 655360 (get_free_page without_tables).1
    ≡ ok (pos 0, (get_free_page without_tables).1)
unfolding copy_page_tables copy_dirs copy_dir get_free_page scan_map
copied = refl

copy_process-Forked_example :
    (s' : System) × (copy_process 1 registers init_task (system without_tables) ≡ ok (pos 1, s'))
    × Forked 1 registers init_task
        (system without_tables)
        last_page
        (get_free_page without_tables).1
        got
        last_ne_zero
        refl
        (omega arith)
        (get_free_page without_tables).1
        s'
copy_process-Forked_example =
    copy_process-Forked 1 registers init_task (system without_tables) last_page
      (get_free_page without_tables).1 got last_ne_zero refl (omega arith)
      (get_free_page without_tables).1 copied
