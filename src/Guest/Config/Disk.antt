-- ===== src/Guest/Config/Disk.antt =====
-- The guest's files, on an image whose stage directory the host has written.
use zeptocapsule.Common.{
  ◌∙◌, ℕ, Bool, true, false, Option, none, some, List, [], ◌∷◌, ◌++◌, All, ◌≡◌, refl,
}
use zeptocapsule.Common.Result.{Result, ok, err}
use zeptocapsule.Common.Program.{ask, run, run-then, ◌>>=◌}
use zeptocapsule.Text.{Str, codes, trim}
use zeptocapsule.Text.Path.{join, is_absolute, trim_start_matches_slash}
use zeptocapsule.Text.Utf8.{Bytes, from_utf8, into_bytes, IsScalar, from_utf8-into_bytes}
use zeptocapsule.Firecracker.System.{write_file}
use zeptocapsule.Process.Merged.{lookup}
use zeptocapsule.Guest.System.{Sys, Ans, Io, exists, read, read_to_string}
use zeptocapsule.Guest.Config.{
  bytes_of, trimmed_of, if_there, not_empty, stage_file, read_trimmed_file, read_if_there,
}
use zeptocapsule.Guest.Config.Stage.{stage_of, stage_path, str_eq-stage_path, IsTrimmed, trim-line}

-- the files of the image, by the host's names, the latest first
abbrev pub Disk : Type 0
Disk = List (Str × Bytes)

abbrev pub wrote : Str → Bytes → Result Str (Unit {0}) → Disk → Disk
wrote path bytes (ok t) disk = (path, bytes) ∷ disk
wrote path bytes (err e) disk = disk

unfoldable pub see :
    (e : zeptocapsule.Firecracker.System.Sys) → zeptocapsule.Firecracker.System.Ans e → Disk → Disk
see (write_file path bytes) r disk = wrote path bytes r disk
see e r disk = disk

abbrev pub is_some : Option Bytes → Bool
is_some none = false
is_some (some bytes) = true

abbrev pub or_missing : {A : Type 0} → Option A → Io A
or_missing none = err (codes "no such file")
or_missing (some a) = ok a

abbrev pub text_of : Option Bytes → Option Str
text_of none = none
text_of (some bytes) = from_utf8 bytes

-- the host's name for a file of the guest, on an image that is mounted at the point
abbrev pub on_host : Str → Str → Str
on_host point path = join point (trim_start_matches_slash path)

-- A guest that runs on the image: its files are those of the disk; `other` answers all else.
abbrev pub boots_on : Str → Disk → ((e : Sys) → Ans e) → (Unit {0}) → (e : Sys) → Ans e
boots_on point disk other w (exists path) = is_some (lookup (on_host point path) disk)
boots_on point disk other w (read path) = or_missing (lookup (on_host point path) disk)
boots_on point disk other w (read_to_string path) =
    or_missing (text_of (lookup (on_host point path) disk))
boots_on point disk other w e = other e

abbrev pub unseen : (e : Sys) → Ans e → Unit {0} → Unit {0}
unseen e r w = tt

abbrev pub Relative : Disk → Type 0
Relative [] = Unit {0}
Relative ((name, bytes) ∷ files) = (is_absolute name ≡ false) × Relative files

trimmed_line :
    (text : Str)
    → IsTrimmed text
    → ◌≡◌ {A = Unit {0} × Result Str (Option Str)}
        (tt, ok (not_empty (trim (text ++ codes "\n"))))
        (tt, ok (some text))
trimmed_line [] h = absurd h
trimmed_line (c ∷ text) h = rw (trim-line (c ∷ text) h) refl

module _ (c : ℕ) (s : Str) where
  abbrev pub point : Str
  point = c ∷ s

  abbrev pub keyed : Disk → Disk
  keyed [] = []
  keyed ((name, bytes) ∷ files) = (join (stage_of point) name, bytes) ∷ keyed files

  lookup-keyed :
      (name : Str) (files : Disk)
      → is_absolute name ≡ false
      → Relative files
      → lookup (join (stage_of point) name) (keyed files) ≡ lookup name files
  unfolding lookup
  lookup-keyed name [] h k = refl
  lookup-keyed name ((other, bytes) ∷ files) h (k, ks) =
      rw (str_eq-stage_path c s name other h k, lookup-keyed name files h ks) refl

  lookup-staged :
      (name : Str) (files : Disk)
      → is_absolute name ≡ false
      → Relative files
      → lookup (on_host point (stage_file name)) (keyed files) ≡ lookup name files
  lookup-staged name files h k = rw (stage_path c s name h) (lookup-keyed name files h k)

  module _ (other : (e : Sys) → Ans e) (files : Disk) (relative : Relative files) where
    abbrev pub guest : (Unit {0}) → (e : Sys) → Ans e
    guest = boots_on point (keyed files) other

    pub read_if_there-found :
        (name : Str) (bytes : Bytes)
        → is_absolute name ≡ false
        → lookup name files ≡ some bytes
        → run unseen guest tt (read_if_there (stage_file name)) ≡ (tt, ok (some bytes))
    unfolding run read_if_there
    read_if_there-found name bytes h found =
        let path = stage_file name in
        let e = lookup-staged name files h relative ∙ found in
        run-then unseen guest tt tt true (ask (exists path))
          (if_there (ask (read path) >>= bytes_of path)) (rw e refl)
        ∙ run-then unseen guest tt tt (ok bytes) (ask (read path)) (bytes_of path) (rw e refl)

    pub read_trimmed_file-line :
        (name text : Str)
        → is_absolute name ≡ false
        → lookup name files ≡ some (into_bytes (text ++ codes "\n"))
        → All IsScalar (text ++ codes "\n")
        → IsTrimmed text
        → run unseen guest tt (read_trimmed_file (stage_file name)) ≡ (tt, ok (some text))
    unfolding run read_trimmed_file
    read_trimmed_file-line name text h found scalar trimmed =
        let path = stage_file name in
        let line = text ++ codes "\n" in
        let e = lookup-staged name files h relative ∙ found in
        run-then unseen guest tt tt true (ask (exists path))
          (if_there (ask (read_to_string path) >>= trimmed_of path)) (rw e refl)
        ∙ (run-then unseen guest tt tt (ok line) (ask (read_to_string path)) (trimmed_of path)
              (rw (e, from_utf8-into_bytes line scalar) refl)
            ∙ trimmed_line text trimmed)
