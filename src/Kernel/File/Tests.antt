-- ===== src/Kernel/File/Tests.antt =====
-- The theorems on open files for a process whose descriptor 0 is the write end of a pipe.
use os_homework_from_ykf.Prelude.{ℕ, ◌≡◌, refl, [], true, false, none, some, arith, ok}
use os_homework_from_ykf.Prelude.Int.{pos}
use os_homework_from_ykf.Kernel.Log.{put}
use os_homework_from_ykf.Kernel.Fs.{Fs, Inode}
use os_homework_from_ykf.Kernel.File.{File, fd_none, fd_pipe, System, filedup, fileclose}
use os_homework_from_ykf.Kernel.File.Calls.{argfd, find_descriptor, fdalloc, sys_dup, sys_close}
use os_homework_from_ykf.Kernel.File.Counts.{held}
use os_homework_from_ykf.Kernel.File.References.{Counted, IsCounted, got-Counted, assign-Counted}
use os_homework_from_ykf.Kernel.File.Steps.{start, next, dup, close, calls-IsCounted}
use os_homework_from_ykf.Kernel.File.Dup.{Dup, sys_dup_lem}

abbrev idle : File
idle = record {
  typ = fd_none;
  ref = 0;
  readable = false;
  writable = false;
  pipe = 0;
  ip = 0;
  off = 0;
  major = 0;
}

abbrev end_of_pipe : ℕ → File
end_of_pipe ref = record idle { typ = fd_pipe; ref = ref; writable = true; pipe = 0x87000000 }

abbrev no_inode : Inode
no_inode = record {
  inum = 0;
  ref = 0;
  locked = false;
  valid = false;
  typ = 0;
  major = 0;
  minor = 0;
  nlink = 0;
  size = 0;
  addrs = λ i. 0;
}

abbrev disk : Fs
disk = record {
  sb = record {
    magic = 0x10203040;
    size = 100;
    nblocks = 90;
    ninodes = 16;
    nlog = 30;
    logstart = 3;
    inodestart = 1;
    bmapstart = 2;
  };
  lg = record {
    start = 3;
    size = 30;
    outstanding = 0;
    committing = false;
    lh = record { n = 0; block = λ i. 0 };
  };
  bufs = record { cache = λ b x. 0; pins = λ b. 0; writes = [] };
  itable = λ i. no_inode;
}

-- One descriptor
abbrev one : System
one = record {
  file = put (λ f. idle) 0 (end_of_pipe 1);
  ofile = put (λ fd. none) 0 (some 0);
  cwd = 0;
  pipe = λ pi. record { buf = λ i. 0; nread = 0; nwrite = 0; readopen = true; writeopen = true };
  kmem = record { mem = λ a. 0; freelist = 0 };
  fs = disk;
}

-- After dup(0), and then close(0)
abbrev two : System
two = record one { file = put one.file 0 (end_of_pipe 2); ofile = put one.ofile 1 (some 0) }

abbrev back : System
back = record two { file = put two.file 0 (end_of_pipe 1); ofile = put two.ofile 0 none }

nothing-Counted : Counted (λ g. 0) (λ f. idle) (λ fd. none)
unfolding held
nothing-Counted = record { counts = λ g. omega arith; idle = λ g z. refl }

one-IsCounted : IsCounted (λ g. 0) one
one-IsCounted =
    assign-Counted 0 (some 0) (got-Counted 0 (end_of_pipe 1) nothing-Counted refl) (omega arith)
      (λ g. omega arith)

dup_zero : sys_dup one 0 ≡ ok (pos 1, two)
unfolding sys_dup argfd fdalloc find_descriptor filedup
dup_zero = refl

close_zero : sys_close 0x80020000 two 0 ≡ ok (pos 0, back)
unfolding sys_close argfd fileclose
close_zero = refl

calls-IsCounted_example : IsCounted (λ g. 0) back
calls-IsCounted_example =
    calls-IsCounted one back one-IsCounted
      (next (next start (dup 0 dup_zero)) (close 0x80020000 0 close_zero))

descriptor : argfd one 0 ≡ some 0
unfolding argfd
descriptor = refl

sys_dup_lem_example : Dup one 0 (sys_dup one 0)
sys_dup_lem_example = sys_dup_lem one 0 0 one-IsCounted (omega arith) descriptor
