-- ===== src/Lib.antt =====
-- The kernel of this repository: Linux 0.11 with a message queue, user timers, a mouse driver and
-- a graphics mode (README.md). This library models parts of its C code over native numbers and
-- integers, one module to a part; each definition follows one function, with its guards and early
-- returns in the source's order.
--
-- Parts and files.
-- - kernel/message.c is Message: the queue of messages that drivers and timers fill
--   (sys_post_message) and programs read (sys_get_message). Message.Queue is the abstract
--   first-in first-out queue, Message.Chain the linked list, Message.Refine each call against the
--   queue, Message.Run sequences of calls, Message.Post the allocation and posting that drivers
--   share.
-- - kernel/timer.c is UserTimer: the list of user timers. scan_user_timer_list, called at every
--   tick, posts to the message queue. UserTimer.Links has insertion, UserTimer.Removal removal,
--   UserTimer.Period the ticks between two messages, UserTimer.Scan the scan with the messages
--   that it posts.
-- - kernel/chr_drv/readmouse.c is Mouse: packets of three bytes move the pointer and post clicks
--   to the message queue. Mouse.Screen is about the edges of the screen, Mouse.Steps about one
--   byte, Mouse.Packet about movements, Mouse.Click about messages.
-- - include/linux/sched.h is Task: the task structure and the task array task[], which Sched,
--   Exit and Ids work on.
-- - kernel/sched.c is Sched: schedule (Sched.Scan, Sched.Choice), alarms, signals and sys_nice
--   (Sched.Alarm), sleep_on and wake_up in every interleaving (Sched.Wait),
--   interruptible_sleep_on (Sched.Interruptible). KernelTimer has its other half: add_timer
--   (KernelTimer.Sink, KernelTimer.Add), the timers of do_timer, and the motors of the floppy
--   drives.
-- - kernel/exit.c is Exit: sys_kill (Exit.Kill), the children of a task that ends and its father
--   (Exit.Reap), sys_waitpid (Exit.Outcome, Exit.Wait), which frees slots and calls schedule.
-- - kernel/sys.c, and the calls of kernel/sched.c that read a task, are Ids: users (Ids.Users),
--   process groups and refused calls (Ids.Groups).
-- - mm/memory.c is Memory: pages and their counts (Memory.Frames), page tables that are freed or
--   copied (Memory.Tables, Memory.Copy), writes to shared pages and the sharing of pages
--   (Memory.Fault, Memory.CopyOnWrite, Memory.Write), put_page (Memory.Put).
-- - kernel/fork.c is Fork: find_empty_process (Fork.Number), and copy_process with copy_mem over
--   Memory (Fork.Child).
-- - kernel/signal.c is Signal: the masks (Signal.Masks), the handlers and the frame that
--   do_signal puts on the stack of the task (Signal.Longs, Signal.Frame), which it has checked by
--   verify_area of Fork, and a handler that is called once (Signal.Once).
-- - fs/buffer.c is Buffer: the hash queues as lists of buffers (Buffer.Queue, Buffer.Hash), the
--   two halves of remove_from_queues and insert_into_queues (Buffer.Unlink, Buffer.Link), the
--   assignments that leave the hash queues alone (Buffer.Same), the end of getblk (Buffer.Claim)
--   and its loop over the free list (Buffer.Scan). getblk runs up to its first sleep, which is a
--   value of its result.
-- - fs/bitmap.c is Bitmap, with get_super of fs/super.c: the searches for a free bit
--   (Bitmap.Search), the maps of a device as one (Bitmap.InUse), new_block (Bitmap.Blocks) and
--   free_block (Bitmap.Free), which take buffers from Buffer.
-- - fs/inode.c is Inode: the inodes in memory. Inode.Empty is the search of get_empty_inode,
--   Inode.Get iget over mounted devices, Inode.Shared iget of an inode in use, Inode.Release the
--   inode of a pipe, with its page from Memory; Inode.Number has new_inode and free_inode of
--   fs/bitmap.c (Inode.Number.Lowest, Inode.Number.Freed).
-- - kernel/blk_drv/ll_rw_blk.c is BlockQueue: the order of the elevator (BlockQueue.Sweep), the
--   writes that put a request into a queue (BlockQueue.Insert), and both together
--   (BlockQueue.Elevator).
-- - fs/pipe.c is Pipe: the page of a pipe as a ring (Pipe.Ring), read_pipe (Pipe.Read) and
--   write_pipe (Pipe.Write).
-- - fs/fcntl.c and sys_close of fs/open.c are Files: the descriptors of a task and the counts of
--   the files (Files.Counts, Files.Calls).
-- - kernel/mktime.c is Clock: kernel_mktime against a count of years and months.
-- - Prelude has tests, lists, integers, bit words, tables and linked lists over native numbers.
--   The modules named Tests run the definitions at concrete states.
--
-- Conventions. A pointer to a list node is a number and NULL is 0; a pointer to a task is the
-- index of its slot in task[]; an element of timer_list is its index and 1. Memory is a function
-- from addresses to structures, or to words in Memory. What malloc returns is an argument of the
-- call; the theorems that need it say that it is not NULL and not given twice, which holds since
-- no message is ever freed. cli and sti make these functions atomic, so they are single steps; a
-- function that sleeps is modelled up to the switch, and what it does when it runs again is a
-- definition of its own. A C long or int is an integer without bound: signed overflow is not
-- defined in C, and the counters stay far from it. The counts of pages are on eight bits, user
-- ids on sixteen, and their wrap is written out; addresses are below 2 ^ 32. signal and blocked,
-- which are only read and written bit by bit, are functions from bit numbers. A panic, and the
-- end of a process for want of memory, are values of the result. What the code prints is left
-- out.
--
-- Loops and fuel. Loops over arrays are recursions on the number of turns. A walk of a linked
-- list takes fuel, and its theorems ask for more fuel than the list has nodes; the loop of
-- schedule gets two rounds, and Sched.Choice.choose_total shows that two are enough; the loops of
-- a pipe get one turn more than there are bytes to move. The search for a new pid gets 65 turns,
-- since 64 tasks have at most 64 of the numbers that it tries; verify_area gets as many turns as
-- there are bytes, and uses one for each page.
--
-- Not modelled: the file system but for buffers, blocks, the inodes in memory, pipes and
-- descriptors, the terminals, the drivers of block devices, assembly, device registers, printing,
-- and the user programs. PROJECT.json gives the reasons.
pub mod Prelude
pub mod Message
pub mod UserTimer
pub mod Mouse
pub mod Task
pub mod Sched
pub mod Exit
pub mod Memory
pub mod Pipe
pub mod Ids
pub mod KernelTimer
pub mod Clock
pub mod Files
pub mod Fork
pub mod Signal
pub mod Buffer
pub mod Bitmap
pub mod Inode
pub mod BlockQueue
