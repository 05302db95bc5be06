-- ===== src/Files/Tests.antt =====
-- Descriptors of fs/fcntl.c, and the theorem at them.
use os_lab2_gui.Prelude.{◌≡◌, refl, none, some, List, [], ◌∷◌, arith, ltb, ◌==◌, if◌then◌else◌}
use os_lab2_gui.Prelude.Int.{pos}
use os_lab2_gui.Prelude.Bits.{zeros}
use os_lab2_gui.Files.{Files, dupfd, free_fd, sys_dup}
use os_lab2_gui.Files.Counts.{uses, Balanced}
use os_lab2_gui.Files.Calls.{Sound, FdCall, dup, dup2, fcntl_dup, close, calls, calls-Balanced}

-- the descriptors 0 to 2 are of the terminal, file 7
abbrev files : Files
files = record {
  filp = λ fd. if ltb fd 3 then some 7 else none;
  close_on_exec = zeros;
  file_table = λ f. record {
    f_mode = 0;
    f_flags = zeros;
    f_count = (if f == 7 then 3 else 0);
    f_inode = 1;
    f_pos = 0;
  };
}

next_fd : (sys_dup 0 files).0 ≡ pos 3
unfolding dupfd free_fd
next_fd = refl

files-Sound : Sound files
unfolding uses
files-Sound f = (ground arith, ground arith)

abbrev script : List FdCall
script = dup 0 ∷ dup2 1 5 ∷ close 3 ∷ fcntl_dup 2 9 ∷ close 19 ∷ []

calls-Balanced_example :
    (s' : Files) × (calls script files ≡ some s') × Sound s' × Balanced files s'
calls-Balanced_example = calls-Balanced script files files-Sound
