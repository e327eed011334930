-- ===== src/Text/Path.antt =====
-- What the program uses of Rust's paths: a path is its text.
use zeptocapsule.Common.{Bool, [], ◌∷◌, ◌++◌, ◌==◌, if◌then◌else◌}
use zeptocapsule.Text.{Str, codes, starts_with, ends_with}

-- `Path::is_absolute` on Unix
unfoldable pub is_absolute : Str → Bool
unfolding starts_with
is_absolute path = starts_with path (codes "/")

-- `path.join(name)`: an absolute name replaces the path.
unfoldable pub join : Str → Str → Str
unfolding is_absolute ends_with
join [] name = name
join (c ∷ path) name =
    if is_absolute name
    then name
    else if ends_with (c ∷ path) (codes "/")
    then (c ∷ path) ++ name
    else (c ∷ path) ++ codes "/" ++ name

-- `s.trim_start_matches('/')`
unfoldable pub trim_start_matches_slash : Str → Str
trim_start_matches_slash [] = []
trim_start_matches_slash (c ∷ s) = if c == b'/' then trim_start_matches_slash s else c ∷ s
