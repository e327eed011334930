-- ===== src/Seccomp/Tests.antt =====
-- Numbers of x86_64 for read and write; every other name has the number of close.
use zeptocapsule.Common.{ℕ, ◌≡◌, refl, true, some, [], ◌∷◌, String}
use zeptocapsule.Seccomp.{
  build_seccomp_filter, filter_of, ret_allow, ret_kill_process, bpf_jump, bpf_stmt, jumps,
}
use zeptocapsule.Seccomp.Allowed.{allowed_syscalls}
use zeptocapsule.Seccomp.Filter.{bpf, Answers, build_seccomp_filter-Answers}

abbrev libc : String → ℕ
libc name = 3

write_is_killed : bpf 1 (filter_of (0 ∷ 3 ∷ [])) 0 0 ≡ some ret_kill_process
unfolding filter_of bpf bpf_stmt jumps bpf_jump
write_is_killed = refl

close_is_allowed : bpf 3 (filter_of (0 ∷ 3 ∷ [])) 0 0 ≡ some ret_allow
unfolding filter_of bpf bpf_stmt jumps bpf_jump
close_is_allowed = refl

build_seccomp_filter-Answers_example :
    Answers 3 (allowed_syscalls libc true) (bpf 3 (build_seccomp_filter libc true) 0 0)
build_seccomp_filter-Answers_example = build_seccomp_filter-Answers libc true 3
