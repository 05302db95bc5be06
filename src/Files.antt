-- ===== src/Files.antt =====
-- fs/fcntl.c and sys_close of fs/open.c: the descriptors of the current task. A pointer to a file is the
-- index of its element of file_table.
pub mod Counts
pub mod Calls
mod Tests
use os_lab2_gui.Prelude.{
  ℕ, zero, suc, ◌+◌, ◌-◌, ◌%◌, Bool, not, ◌&&◌, ◌||◌, Option, none, some, ltb, leb, ◌==◌,
  if◌then◌else◌,
}
use os_lab2_gui.Prelude.Int.{ℤ, pos, negsuc}
use os_lab2_gui.Prelude.Bits.{Bits, bit, bits_or, bits_and, bits_not}
use os_lab2_gui.Prelude.Table.{update}

-- NR_OPEN
abbrev pub nr_open : ℕ
nr_open = 20

-- -EBADF, -EINVAL and -EMFILE
abbrev pub ebadf : ℤ
ebadf = negsuc 8

abbrev pub einval : ℤ
einval = negsuc 21

abbrev pub emfile : ℤ
emfile = negsuc 23

-- `struct file`; `f_flags` is used bit by bit
pub record File : Type 0 where
  pub f_mode : ℕ
  pub f_flags : Bits
  pub f_count : ℕ
  pub f_inode : ℕ
  pub f_pos : ℕ

-- `filp` and `close_on_exec` of the current task, and `file_table`
pub record Files : Type 0 where
  pub filp : ℕ → Option ℕ
  pub close_on_exec : Bits
  pub file_table : ℕ → File

abbrev pub is_none : Option ℕ → Bool
is_none none = Bool.true
is_none (some f) = Bool.false

-- `while (arg < NR_OPEN) …`: the first descriptor from `arg` on, of `n`, that is not in use
unfoldable pub free_fd : ℕ → ℕ → (ℕ → Option ℕ) → Option ℕ
free_fd zero arg filp = none
free_fd (suc n) arg filp = if is_none (filp arg) then some arg else free_fd n (arg + 1) filp

-- `f->f_count = n`
abbrev pub set_count : (ℕ → File) → ℕ → ℕ → ℕ → File
set_count table f n = update table f (record (table f) { f_count = n })

-- `(current->filp[arg] = current->filp[fd])->f_count++`, with the bit of `arg` cleared
unfoldable pub share_fd : ℕ → ℕ → Files → Files
share_fd f arg s = record {
  filp = update s.filp arg (some f);
  close_on_exec = bits_and s.close_on_exec (bits_not (bit arg));
  file_table = set_count s.file_table f (((s.file_table f).f_count + 1) % 65536);
}

-- `dupfd(fd, arg)`
unfoldable pub dupfd : ℕ → ℕ → Files → ℤ × Files
dupfd fd arg s = if not (ltb fd nr_open) then (ebadf, s) else elim (s.filp fd) [
  | none ↦ (ebadf, s)
  | some f ↦
      if not (ltb arg nr_open) then (einval, s) else elim (free_fd (nr_open - arg) arg s.filp) [
        | none ↦ (emfile, s)
        | some n ↦ (pos n, share_fd f n s)
      ]
]

-- `sys_close(fd)`: the value returned, the inode that `iput` gets, the files; `none` is the panic
unfoldable pub sys_close : ℕ → Files → Option (ℤ × Option ℕ × Files)
sys_close fd s =
    let cleared : Files = record s {
      close_on_exec = bits_and s.close_on_exec (bits_not (bit fd));
    } in
    if not (ltb fd nr_open) then some (einval, none, s) else elim (s.filp fd) [
      | none ↦ some (einval, none, cleared)
      | some f ↦
          let count : ℕ = (s.file_table f).f_count in
          if count == 0
          then none
          else some (
            pos 0,
            (if count == 1 then some (s.file_table f).f_inode else none),
            record cleared {
              filp = update s.filp fd none;
              file_table = set_count s.file_table f (count - 1);
            },
          )
    ]

-- `sys_dup(fildes)`
abbrev pub sys_dup : ℕ → Files → ℤ × Files
sys_dup fildes s = dupfd fildes 0 s

-- `sys_dup2(oldfd, newfd)`
unfoldable pub sys_dup2 : ℕ → ℕ → Files → Option (ℤ × Option ℕ × Files)
sys_dup2 oldfd newfd s = elim (sys_close newfd s) [
  | none ↦ none
  | some (code, inode, s1) ↦ let (r, s2) = dupfd oldfd newfd s1 in some (r, inode, s2)
]
