-- ===== src/Rootfs/Mounts.antt =====
-- What the mounts of the new root leave writable.
use zeptocapsule.Rootfs.Pivot.{under, make_dir, bind_dirs}
use zeptocapsule.Common.{ap, arith, List, [], ◌∷◌, ◌++◌, ◌≡◌, refl, by_bool}
use zeptocapsule.Common.Result.{Result, ok, err, by_result}
use zeptocapsule.Common.Program.{Every, Lands, Lands->>=, ◌>>=◌, ◌>>◌}
use zeptocapsule.Text.{Str}
use zeptocapsule.Text.Laws.{str_eq_refl}
use zeptocapsule.Rootfs.{
  codes, BindMount, or_raise, mount_proc, mount_tmpfs, bind_mount_rw, bind_mount_ro, path_c_string,
  c_string,
}
use zeptocapsule.Rootfs.System.{M}
use zeptocapsule.Rootfs.View.{View, sealed, Sandbox, in_sandbox, see}

-- A run returns only in the sandbox that is given; with an error it may be in any, and nothing is executed.
abbrev pub To : {A : Type 0} → Sandbox → Sandbox → Result Str A → Type 0
To goal s (ok a) = s ≡ goal
To goal s (err e) = Unit

abbrev pub Reaches : {A : Type 0} → Sandbox → M A → Sandbox → Type 0
Reaches s m goal = Every see (in_sandbox s) m (Lands in_sandbox (To goal))

-- A chain reaches what its second part reaches from where the first part leads.
pub Reaches->>= :
    {A B : Type 0} (s t goal : Sandbox) (m : M A) (next : A → M B)
    → Reaches s m t
    → ((a : A) → Reaches t (next a) goal)
    → Reaches s (m >>= next) goal
Reaches->>= s t goal m next h k =
    Lands->>= see in_sandbox s m next (To t) (To goal) h (λ u a same. rw same (k a)) (λ u x _. tt)

pub c_string-ok : (text c : Str) → c_string text ≡ ok c → c ≡ text
unfolding c_string
c_string-ok text c h = ground arith

or_raise-Every :
    {A B : Type 0} (v : View) (P : View → Result Str B → Type 0) (before : Str) (r : Result Str A)
    (next : A → M B)
    → ((e : Str) → P v (err e))
    → ((a : A) → r ≡ ok a → Every see v (next a) P)
    → Every see v (or_raise before r >>= next) P
or_raise-Every v P before (ok a) next bad good = good a refl
or_raise-Every v P before (err e) next bad good = bad (before ++ e)

pub c_string-Every :
    {B : Type 0} (v : View) (P : View → Result Str B → Type 0) (before text : Str)
    (next : Str → M B)
    → ((e : Str) → P v (err e))
    → Every see v (next text) P
    → Every see v (or_raise before (c_string text) >>= next) P
c_string-Every v P before text next bad good =
    or_raise-Every v P before (c_string text) next bad (λ c e. rw (c_string-ok text c e) good)

pub path_c_string-Every :
    {B : Type 0} (v : View) (P : View → Result Str B → Type 0) (path : Str) (next : Str → M B)
    → ((e : Str) → P v (err e))
    → Every see v (next path) P
    → Every see v (path_c_string path >>= next) P
unfolding path_c_string
path_c_string-Every v P path next bad good =
    c_string-Every v P (codes "CString " ++ path ++ codes ": ") path next bad good

pub c_string-Reaches :
    {B : Type 0} (s goal : Sandbox) (before text : Str) (next : Str → M B)
    → Reaches s (next text) goal
    → Reaches s (or_raise before (c_string text) >>= next) goal
c_string-Reaches s goal before text next h =
    c_string-Every (in_sandbox s) (Lands in_sandbox (To goal)) before text next (λ e. (s, refl, tt))
      h

path_c_string-Reaches :
    {B : Type 0} (s goal : Sandbox) (path : Str) (next : Str → M B)
    → Reaches s (next path) goal
    → Reaches s (path_c_string path >>= next) goal
path_c_string-Reaches s goal path next h =
    path_c_string-Every (in_sandbox s) (Lands in_sandbox (To goal)) path next (λ e. (s, refl, tt)) h

pub make_dir-Reaches : (s : Sandbox) (path what : Str) → Reaches s (make_dir path what) s
unfolding see
make_dir-Reaches s path what = by_result _ (λ _. (s, refl, refl)) (λ e. (s, refl, tt))

-- a directory is made before the rest
pub make_dir-then-Reaches :
    {B : Type 0} (s goal : Sandbox) (path what : Str) (m : M B)
    → Reaches s m goal
    → Reaches s (make_dir path what >> m) goal
make_dir-then-Reaches s goal path what m h =
    Reaches->>= s s goal (make_dir path what) (λ _. m) (make_dir-Reaches s path what) (λ _. h)

abbrev pub with_writable : Sandbox → List (Str × Str) → Sandbox
with_writable s mounts = record s { writable = mounts }

pub sealed-cons :
    (source target : Str) (mounts : List (Str × Str))
    → sealed target ((source, target) ∷ mounts) ≡ mounts
sealed-cons source target mounts = rw (str_eq_refl target) refl

-- What is bound read-only is not left writable.
bind_mount_ro-Reaches :
    (s : Sandbox) (source target : Str) → Reaches s (bind_mount_ro source target) s
unfolding bind_mount_ro see
bind_mount_ro-Reaches s source target = path_c_string-Reaches s s source _ (
    path_c_string-Reaches s s target _ (
      by_result _
        (λ _.
          by_result _ (λ _. (_, refl, ap (with_writable s) (sealed-cons source target s.writable)))
            (λ e. (_, refl, tt)))
        (λ e. (s, refl, tt))))

pub bind_dirs-Reaches :
    (s : Sandbox) (new_root : Str) (mounts : List BindMount)
    → Reaches s (bind_dirs new_root mounts) s
unfolding bind_dirs see
bind_dirs-Reaches s new_root [] = (s, refl, refl)
bind_dirs-Reaches s new_root (m ∷ mounts) =
    let target = under new_root m.guest in
    by_bool _
      (Reaches->>= s s s (make_dir target target >> bind_mount_ro m.host target) _
        (make_dir-then-Reaches s s target target (bind_mount_ro m.host target)
          (bind_mount_ro-Reaches s m.host target))
        (λ _. bind_dirs-Reaches s new_root mounts))
      (bind_dirs-Reaches s new_root mounts)

pub bind_mount_rw-Reaches :
    (s : Sandbox) (source target : Str)
    → Reaches s
        (bind_mount_rw source target)
        (record s { writable = (source, target) ∷ s.writable })
unfolding bind_mount_rw see
bind_mount_rw-Reaches s source target =
    path_c_string-Reaches s _ source _
      (path_c_string-Reaches s _ target _ (by_result _ (λ _. (_, refl, refl)) (λ e. (s, refl, tt))))

pub mount_proc-Reaches : (s : Sandbox) (target : Str) → Reaches s (mount_proc target) s
unfolding mount_proc see
mount_proc-Reaches s target =
    path_c_string-Reaches s s target _ (by_result _ (λ _. (s, refl, refl)) (λ e. (s, refl, tt)))

pub mount_tmpfs-Reaches : (s : Sandbox) (target size : Str) → Reaches s (mount_tmpfs target size) s
unfolding mount_tmpfs see
mount_tmpfs-Reaches s target size = path_c_string-Reaches s s target _ (
    c_string-Reaches s s (codes "CString: ") (codes "size=" ++ size) _
      (by_result _ (λ _. (s, refl, refl)) (λ e. (s, refl, tt))))
