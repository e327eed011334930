-- ===== src/Seccomp.antt =====
-- src/seccomp.rs: the BPF program that lets the allowed system calls through.
pub mod Allowed
pub mod Filter
mod Tests
use zeptocapsule.Common.{
  ℕ, suc, ◌+◌, ◌-◌, ◌%◌, ◌^◌, Bool, List, [], ◌∷◌, ◌++◌, String, length, ◌==◌, if◌then◌else◌, not,
}
use zeptocapsule.Common.Result.{Result, ok, err}
use zeptocapsule.Text.{Str, codes}
use zeptocapsule.Seccomp.Allowed.{allowed_syscalls}

pub record SockFilter : Type 0 where
  pub code : ℕ
  pub jt : ℕ
  pub jf : ℕ
  pub k : ℕ

unfoldable pub bpf_stmt : ℕ → ℕ → SockFilter
bpf_stmt code k = record { code = code; jt = 0; jf = 0; k = k }

unfoldable pub bpf_jump : ℕ → ℕ → ℕ → ℕ → SockFilter
bpf_jump code k jt jf = record { code = code; jt = jt; jf = jf; k = k }

abbrev pub ret_kill_process : ℕ
ret_kill_process = 0x80000000

abbrev pub ret_allow : ℕ
ret_allow = 0x7fff0000

-- one test for each number; `i` is the index of the next of the `num_allowed` numbers
unfoldable pub jumps : ℕ → ℕ → List ℕ → List SockFilter
jumps num_allowed i [] = []
jumps num_allowed i (nr ∷ allowed) =
    bpf_jump 0x15 (nr % 2 ^ 32) ((num_allowed - i) % 2 ^ 8) 0 ∷ jumps num_allowed (i + 1) allowed

unfoldable pub filter_of : List ℕ → List SockFilter
filter_of allowed =
    bpf_stmt 0x20 0
    ∷ (jumps (length allowed) 0 allowed
        ++ bpf_stmt 0x06 ret_kill_process ∷ bpf_stmt 0x06 ret_allow ∷ [])

unfoldable pub build_seccomp_filter : (String → ℕ) → Bool → List SockFilter
build_seccomp_filter libc is_x86_64 = filter_of (allowed_syscalls libc is_x86_64)

-- What is installed: the program and its length as a u16.
pub record SockFprog : Type 0 where
  pub len : ℕ
  pub filter : List SockFilter

abbrev pub prog_of : List SockFilter → SockFprog
prog_of filter = record { len = length filter % 2 ^ 16; filter = filter }

-- `no_new_privs` and `set_filter` are what the two system calls return, `last_os_error` the text of an error.
unfoldable pub install_seccomp_filter :
    List SockFilter → ℕ → (SockFprog → ℕ) → Str → Result Str SockFprog
install_seccomp_filter filter no_new_privs set_filter last_os_error =
    let prog = prog_of filter in
    if not (no_new_privs == 0)
    then err (codes "PR_SET_NO_NEW_PRIVS failed: " ++ last_os_error)
    else if not (set_filter prog == 0)
    then err (codes "seccomp install failed: " ++ last_os_error)
    else ok prog
