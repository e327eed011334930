-- ===== src/Seccomp/Filter.antt =====
-- What the program does: classic BPF as the kernel runs it on the number of a system call.
use zeptocapsule.Common.{
  ℕ, zero, suc, ◌+◌, ◌-◌, ◌%◌, ◌^◌, ◌≤◌, ◌≡◌, refl, Bool, true, false, Option, none, some, List, [],
  ◌∷◌, ◌++◌, String, map, length, ◌==◌, if◌then◌else◌, arith, Bool-cases, ==_iff, ap, ◌∙◌, ◌⊎◌, inl,
  inr,
}
use zeptocapsule.Seccomp.{
  SockFilter, bpf_stmt, bpf_jump, jumps, filter_of, build_seccomp_filter, ret_kill_process,
  ret_allow,
}
use zeptocapsule.Seccomp.Allowed.{allowed_syscalls, portable_syscalls, x86_64_syscalls}

-- The instructions that the program uses: load the word at an offset (0 is the system call's number),
-- jump on equality, return. `skip` instructions are still to be jumped over. A program that runs off
-- its end, or has another instruction, has no result.
unfoldable pub bpf : ℕ → List SockFilter → (skip acc : ℕ) → Option ℕ
bpf nr [] skip acc = none
bpf nr (f ∷ fs) (suc skip) acc = bpf nr fs skip acc
bpf nr (f ∷ fs) zero acc =
    let loaded = bpf nr fs 0 nr in
    let jumped = bpf nr fs (if acc == f.k then f.jt else f.jf) acc in
    if f.code == 0x20
    then (if f.k == 0 then loaded else none)
    else if f.code == 0x15
    then jumped
    else if f.code == 0x06
    then some f.k
    else none

-- A number is one of the list's, each as a u32.
pub IsAllowed : ℕ → List ℕ → Type 0
IsAllowed nr [] = ⊥
IsAllowed nr (n ∷ ns) = (nr ≡ n % 2 ^ 32) ⊎ IsAllowed nr ns

jump_to_allow :
    (nr num i acc : ℕ) (allowed : List ℕ) (kill good : SockFilter)
    → bpf nr (jumps num i allowed ++ kill ∷ good ∷ []) (suc (length allowed)) acc
      ≡ bpf nr (good ∷ []) 0 acc
unfolding bpf jumps
jump_to_allow nr num i acc [] kill good = refl
jump_to_allow nr num i acc (n ∷ allowed) kill good =
    jump_to_allow nr num (i + 1) acc allowed kill good

later :
    (nr n : ℕ) (allowed : List ℕ)
    → nr == n % 2 ^ 32 ≡ false
    → IsAllowed nr (n ∷ allowed)
    → IsAllowed nr allowed
unfolding IsAllowed
later nr n allowed other (inl same) = absurd (cc (other, (==_iff nr (n % 2 ^ 32)).1 same))
later nr n allowed other (inr h) = h

bpf-bpf_jump :
    (nr k jt acc : ℕ) (fs : List SockFilter)
    → bpf nr (bpf_jump 0x15 k jt 0 ∷ fs) 0 acc
      ≡ (if acc == k then bpf nr fs jt acc else bpf nr fs 0 acc)
unfolding bpf bpf_jump
bpf-bpf_jump nr k jt acc fs = elim (Bool-cases (acc == k)) [ inl e ↦ rw e refl | inr e ↦ rw e refl ]

abbrev kill_or_allow : List SockFilter
kill_or_allow = bpf_stmt 0x06 ret_kill_process ∷ bpf_stmt 0x06 ret_allow ∷ []

ret_allow_lem : (nr acc : ℕ) → bpf nr (bpf_stmt 0x06 ret_allow ∷ []) 0 acc ≡ some ret_allow
unfolding bpf bpf_stmt
ret_allow_lem nr acc = refl

ret_kill_lem : (nr acc : ℕ) → bpf nr kill_or_allow 0 acc ≡ some ret_kill_process
unfolding bpf bpf_stmt
ret_kill_lem nr acc = refl

abbrev pub Answers : ℕ → List ℕ → Option ℕ → Type 0
Answers nr allowed r =
    (IsAllowed nr allowed → r ≡ some ret_allow)
    × (¬ IsAllowed nr allowed → r ≡ some ret_kill_process)

-- the test of one number
jump_taken :
    (nr n num i : ℕ) (allowed : List ℕ)
    → num ≡ i + suc (length allowed)
    → num ≤ 255
    → nr == n % 2 ^ 32 ≡ true
    → bpf nr (jumps num i (n ∷ allowed) ++ kill_or_allow) 0 nr ≡ some ret_allow
unfolding jumps
jump_taken nr n num i allowed size small same =
    let jt : (num - i) % 2 ^ 8 ≡ suc (length allowed) = omega arith in
    rw
      (
        bpf-bpf_jump nr (n % 2 ^ 32) ((num - i) % 2 ^ 8) nr
            (jumps num (i + 1) allowed ++ kill_or_allow),
        same,
        jt,
      )
      (jump_to_allow nr num (i + 1) nr allowed _ _ ∙ ret_allow_lem nr nr)

jump_passed :
    (nr n num i : ℕ) (allowed : List ℕ)
    → nr == n % 2 ^ 32 ≡ false
    → bpf nr (jumps num i (n ∷ allowed) ++ kill_or_allow) 0 nr
      ≡ bpf nr (jumps num (i + 1) allowed ++ kill_or_allow) 0 nr
unfolding jumps
jump_passed nr n num i allowed other =
    rw
      (
        bpf-bpf_jump nr (n % 2 ^ 32) ((num - i) % 2 ^ 8) nr
            (jumps num (i + 1) allowed ++ kill_or_allow),
        other,
      )
      refl

bpf-jumps :
    (nr num i : ℕ) (allowed : List ℕ)
    → num ≡ i + length allowed
    → num ≤ 255
    → Answers nr allowed (bpf nr (jumps num i allowed ++ kill_or_allow) 0 nr)
unfolding jumps IsAllowed
bpf-jumps nr num i [] size small = ((λ h. absurd h), λ n. ret_kill_lem nr nr)
bpf-jumps nr num i (n ∷ allowed) size small =
    let (to, from) = bpf-jumps nr num (i + 1) allowed (omega arith) small in
    elim (Bool-cases (nr == n % 2 ^ 32)) [
      | inl same ↦ (
        (λ h. jump_taken nr n num i allowed size small same),
        λ none. absurd (none (inl ((==_iff nr (n % 2 ^ 32)).0 same))),
      )
      | inr other ↦ (
        (λ h. jump_passed nr n num i allowed other ∙ to (later nr n allowed other h)),
        λ none. jump_passed nr n num i allowed other ∙ from (λ h. none (inr h)),
      )
    ]

-- The program of at most 255 numbers answers "allow" to a number of the list and "kill" to any other.
pub filter_of-Answers :
    (nr : ℕ) (allowed : List ℕ)
    → length allowed ≤ 255
    → Answers nr allowed (bpf nr (filter_of allowed) 0 0)
unfolding filter_of bpf bpf_stmt
filter_of-Answers nr allowed small = bpf-jumps nr (length allowed) 0 allowed (omega arith) small

length-map : {A B : Type 0} (f : A → B) (xs : List A) → length (map f xs) ≡ length xs
length-map f [] = refl
length-map f (x ∷ xs) = ap suc (length-map f xs)

fits : (libc : String → ℕ) (is_x86_64 : Bool) → length (allowed_syscalls libc is_x86_64) ≤ 255
unfolding allowed_syscalls portable_syscalls x86_64_syscalls
fits libc true = rw (length-map libc (portable_syscalls ++ x86_64_syscalls)) (omega arith)
fits libc false = rw (length-map libc portable_syscalls) (omega arith)

-- On either architecture the filter allows a system call whose number is in the list, each number as a
-- u32, and kills the process at any other.
pub build_seccomp_filter-Answers :
    (libc : String → ℕ) (is_x86_64 : Bool) (nr : ℕ)
    → Answers nr
        (allowed_syscalls libc is_x86_64)
        (bpf nr (build_seccomp_filter libc is_x86_64) 0 0)
unfolding build_seccomp_filter
build_seccomp_filter-Answers libc is_x86_64 nr =
    filter_of-Answers nr (allowed_syscalls libc is_x86_64) (fits libc is_x86_64)
