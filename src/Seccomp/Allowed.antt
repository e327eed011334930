-- ===== src/Seccomp/Allowed.antt =====
-- src/seccomp.rs: the system calls of the hardened profile, by the names that libc has for their numbers.
use zeptocapsule.Common.{ℕ, Bool, List, [], ◌∷◌, ◌++◌, map, String, if◌then◌else◌}

unfoldable pub portable_syscalls : List String
portable_syscalls =
    "read" ∷ "write" ∷ "openat" ∷ "close" ∷ "fstat" ∷ "newfstatat" ∷ "statx" ∷ "lseek" ∷ "pread64"
    ∷ "pwrite64" ∷ "readv" ∷ "writev" ∷ "preadv" ∷ "pwritev" ∷ "faccessat" ∷ "fcntl" ∷ "flock"
    ∷ "ftruncate" ∷ "fallocate" ∷ "ioctl" ∷ "getdents64" ∷ "readlinkat" ∷ "mmap" ∷ "mprotect"
    ∷ "munmap" ∷ "brk" ∷ "mremap" ∷ "msync" ∷ "madvise" ∷ "mlock" ∷ "munlock" ∷ "memfd_create"
    ∷ "pipe2" ∷ "dup" ∷ "dup3" ∷ "pselect6" ∷ "ppoll" ∷ "epoll_create1" ∷ "epoll_ctl"
    ∷ "epoll_pwait" ∷ "eventfd2" ∷ "timerfd_create" ∷ "timerfd_settime" ∷ "timerfd_gettime"
    ∷ "clone" ∷ "clone3" ∷ "execve" ∷ "exit" ∷ "exit_group" ∷ "wait4" ∷ "waitid" ∷ "kill" ∷ "tgkill"
    ∷ "getpid" ∷ "getppid" ∷ "gettid" ∷ "getpgid" ∷ "setpgid" ∷ "setsid" ∷ "getrusage" ∷ "prctl"
    ∷ "set_tid_address" ∷ "set_robust_list" ∷ "get_robust_list" ∷ "rseq" ∷ "rt_sigaction"
    ∷ "rt_sigprocmask" ∷ "rt_sigreturn" ∷ "sigaltstack" ∷ "getuid" ∷ "getgid" ∷ "geteuid"
    ∷ "getegid" ∷ "getgroups" ∷ "socket" ∷ "sendto" ∷ "recvfrom" ∷ "sendmsg" ∷ "recvmsg" ∷ "bind"
    ∷ "listen" ∷ "accept" ∷ "accept4" ∷ "connect" ∷ "socketpair" ∷ "shutdown" ∷ "setsockopt"
    ∷ "getsockopt" ∷ "getsockname" ∷ "getpeername" ∷ "renameat" ∷ "renameat2" ∷ "unlinkat"
    ∷ "mkdirat" ∷ "symlinkat" ∷ "linkat" ∷ "fchmod" ∷ "fchmodat" ∷ "umask" ∷ "clock_gettime"
    ∷ "clock_getres" ∷ "clock_nanosleep" ∷ "nanosleep" ∷ "sched_yield" ∷ "getrandom" ∷ "uname"
    ∷ "getcwd" ∷ "chdir" ∷ "fchdir" ∷ "futex" ∷ "statfs" ∷ "fstatfs" ∷ "sched_getaffinity"
    ∷ "sched_setaffinity" ∷ "prlimit64" ∷ "close_range" ∷ []

-- the older ones that only x86_64 has
unfoldable pub x86_64_syscalls : List String
x86_64_syscalls =
    "fork" ∷ "vfork" ∷ "open" ∷ "stat" ∷ "lstat" ∷ "access" ∷ "pipe" ∷ "dup2" ∷ "poll" ∷ "select"
    ∷ "rename" ∷ "unlink" ∷ "mkdir" ∷ "rmdir" ∷ "symlink" ∷ "link" ∷ "chmod" ∷ "readlink"
    ∷ "getpgrp" ∷ "getdents" ∷ "epoll_wait" ∷ "eventfd" ∷ "gettimeofday" ∷ "getrlimit" ∷ "setrlimit"
    ∷ "arch_prctl" ∷ []

-- `libc` gives the number `SYS_<name>`.
unfoldable pub allowed_syscalls : (String → ℕ) → Bool → List ℕ
unfolding portable_syscalls x86_64_syscalls
allowed_syscalls libc is_x86_64 =
    map libc (portable_syscalls ++ (if is_x86_64 then x86_64_syscalls else []))
