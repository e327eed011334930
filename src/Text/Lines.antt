-- ===== src/Text/Lines.antt =====
-- Cutting a text into lines that end in "\r\n".
use zeptocapsule.Common.{ℕ, ◌≡◌, ◌≢◌, refl, [], ◌∷◌, ◌++◌, append-nil, append_assoc, arith, false}
use zeptocapsule.Text.{Str, codes, split, split_from, starts_with}
use zeptocapsule.Text.Decimal.{Lacks}

not_at_break : (c : ℕ) (s : Str) → c ≢ 13 → starts_with (c ∷ s) (codes "\r\n") ≡ false
unfolding starts_with
not_at_break c s h = ground (arith, h)

split_from-break :
    (rest part : Str)
    → split_from (codes "\r\n") 0 (codes "\r\n" ++ rest) part
      ≡ part ∷ split_from (codes "\r\n") 0 rest []
unfolding split_from starts_with
split_from-break rest part = refl

split_from-line :
    (line rest part : Str)
    → Lacks 13 line
    → split_from (codes "\r\n") 0 (line ++ codes "\r\n" ++ rest) part
      ≡ (part ++ line) ∷ split_from (codes "\r\n") 0 rest []
unfolding split_from
split_from-line [] rest part h = rw append-nil (split_from-break rest part)
split_from-line (c ∷ line) rest part h =
    rw
      (
        not_at_break c (line ++ codes "\r\n" ++ rest) h.0,
        split_from,
        ← append_assoc part (c ∷ []) line,
      )
      (split_from-line line rest (part ++ c ∷ []) h.1)

-- A line without "\r" is the first part.
pub split-line :
    (line rest : Str)
    → Lacks 13 line
    → split (codes "\r\n") (line ++ codes "\r\n" ++ rest) ≡ line ∷ split (codes "\r\n") rest
unfolding split
split-line line rest h = split_from-line line rest [] h
