-- ===== src/Probe/Version.antt =====
-- A kernel's version is read back from its text.
use zeptocapsule.Common.{ℕ, ◌≤◌, ◌≡◌, refl, ap, ◌∙◌, some, [], ◌∷◌, ◌++◌, append-nil, All, arith}
use zeptocapsule.Text.{Str, codes, is_digit, decimal, split, split_once}
use zeptocapsule.Text.Decimal.{IsDigit, decimal-IsDigit, decimal-Lacks, parse_uint-decimal}
use zeptocapsule.Text.Parts.{split-part, split-end}
use zeptocapsule.Probe.{version_chars, version_of, version_prefix, parse_kernel_version, max_u32}

-- A text of digits and dots is kept whole.
version_chars-digits :
    (s rest : Str) → All IsDigit s → version_chars (s ++ rest) ≡ s ++ version_chars rest
unfolding version_chars is_digit
version_chars-digits [] rest h = refl
version_chars-digits (c ∷ s) rest h = ground (arith, version_chars-digits s rest h.1)

version_chars-dot : (rest : Str) → version_chars (b'.' ∷ rest) ≡ b'.' ∷ version_chars rest
unfolding version_chars is_digit
version_chars-dot rest = refl

-- "a.b.c"
abbrev pub version_text : ℕ → ℕ → ℕ → Str
version_text a b c = decimal a ++ b'.' ∷ (decimal b ++ b'.' ∷ decimal c)

version_chars-text :
    (a b c : ℕ) (rest : Str)
    → version_chars rest ≡ []
    → version_chars (decimal a ++ b'.' ∷ (decimal b ++ b'.' ∷ (decimal c ++ rest)))
      ≡ version_text a b c
version_chars-text a b c rest ends =
    rw
      (
        version_chars-digits (decimal a) (b'.' ∷ (decimal b ++ b'.' ∷ (decimal c ++ rest)))
            (decimal-IsDigit a),
        version_chars-dot (decimal b ++ b'.' ∷ (decimal c ++ rest)),
        version_chars-digits (decimal b) (b'.' ∷ (decimal c ++ rest)) (decimal-IsDigit b),
        version_chars-dot (decimal c ++ rest),
        version_chars-digits (decimal c) rest (decimal-IsDigit c),
        ends,
        append-nil,
      )
      refl

split-version_text :
    (a b c : ℕ) → split (codes ".") (version_text a b c) ≡ decimal a ∷ decimal b ∷ decimal c ∷ []
split-version_text a b c =
    let digit : (n : ℕ) → _ = λ n. decimal-Lacks b'.' n (omega arith) in
    split-part b'.' (decimal a) (decimal b ++ b'.' ∷ decimal c) (digit a)
    ∙ ap (λ ps. decimal a ∷ ps)
        (split-part b'.' (decimal b) (decimal c) (digit b)
          ∙ ap (λ ps. decimal b ∷ ps) (split-end b'.' (decimal c) (digit c)))

-- The three numbers of a kernel's version, each a u32, are read back from its text, whatever follows that is
-- no digit and no dot.
pub parse_kernel_version-text :
    (a b c : ℕ) (rest : Str)
    → a ≤ max_u32
    → b ≤ max_u32
    → c ≤ max_u32
    → version_chars rest ≡ []
    → parse_kernel_version
        (version_prefix ++ (decimal a ++ b'.' ∷ (decimal b ++ b'.' ∷ (decimal c ++ rest))))
      ≡ some (a, b, c)
unfolding parse_kernel_version split_once version_of
parse_kernel_version-text a b c rest ha hb hc ends =
    rw
      (
        version_chars-text a b c rest ends,
        split-version_text a b c,
        version_of,
        parse_uint-decimal max_u32 a ha,
        parse_uint-decimal max_u32 b hb,
        parse_uint-decimal max_u32 c hc,
      )
      refl
