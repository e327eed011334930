-- ===== src/PolicyBuild/Table.antt =====
-- What the table of hosts and methods holds.
use zeptocapsule.Common.{◌≡◌, ◌↔◌, ◌⊎◌, inl, inr, List, [], ◌∷◌, ltb, Bool-cases, ◌==◌, ==_iff}
use zeptocapsule.Text.{Str, str_eq}
use zeptocapsule.Text.Laws.{str_eq→eq}
use zeptocapsule.Egress.Types.{Method, rank}
use zeptocapsule.Egress.Rules.Matching.{OneOf, rank_injective}
use zeptocapsule.PolicyBuild.{Table, insert_method, str_lt, insert_host}

-- The table has the method for the host.
abbrev pub Seen : Table → Str → Method → Type 0
Seen [] h m = ⊥
Seen ((k, ms) ∷ table) h m = ((k ≡ h) × OneOf ms m) ⊎ Seen table h m

pub insert_method_iff :
    (m : Method) (ms : List Method) (n : Method)
    → OneOf (insert_method m ms) n ↔ ((m ≡ n) ⊎ OneOf ms n)
unfolding insert_method
insert_method_iff m [] n = ((λ h. h), λ h. h)
insert_method_iff m (k ∷ ms) n = elim (Bool-cases (rank m == rank k)) [
  | inl same ↦
      (let e = rank_injective m k ((==_iff (rank m) (rank k)).0 same) in
        rw same ((λ h. inr h), λ h. elim h [ inl f ↦ inl (cc (e, f)) | inr g ↦ g ]))
  | inr other ↦ elim (Bool-cases (ltb (rank m) (rank k))) [
    | inl less ↦ rw (other, less) ((λ h. h), λ h. h)
    | inr more ↦
        (let (to, from) = insert_method_iff m ms n in
          rw (other, more)
            (
              (λ h. elim h [
                | inl e ↦ inr (inl e)
                | inr g ↦ elim (to g) [ inl e ↦ inl e | inr l ↦ inr (inr l) ]
              ]),
              λ h. elim h [
                | inl e ↦ inr (from (inl e))
                | inr g ↦ elim g [ inl e ↦ inl e | inr l ↦ inr (from (inr l)) ]
              ],
            ))
  ]
]

one_method : (m n : Method) → OneOf (insert_method m []) n ↔ (m ≡ n)
one_method m n =
    let (to, from) = insert_method_iff m [] n in
    ((λ h. elim (to h) [ inl e ↦ e | inr a ↦ absurd a ]), λ e. from (inl e))

-- the host has an entry already
Seen-same :
    (h j k : Str) (m n : Method) (ms : List Method) (table : Table)
    → h ≡ j
    → Seen ((j, insert_method m ms) ∷ table) k n
      ↔ (((h ≡ k) × (m ≡ n)) ⊎ Seen ((j, ms) ∷ table) k n)
Seen-same h j k m n ms table e =
    let (to, from) = insert_method_iff m ms n in
    (
      (λ s. elim s [
        | inl (f, one) ↦ elim (to one) [ inl g ↦ inl (cc (e, f), g) | inr old ↦ inr (inl (f, old)) ]
        | inr later ↦ inr (inr later)
      ]),
      λ s. elim s [
        | inl (f, g) ↦ inl (cc (e, f), from (inl g))
        | inr before ↦ elim before [
          | inl (f, old) ↦ inl (f, from (inr old))
          | inr later ↦ inr later
        ]
      ],
    )

-- the host's entry comes first
Seen-new :
    (h k : Str) (m n : Method) (table : Table)
    → Seen ((h, insert_method m []) ∷ table) k n ↔ (((h ≡ k) × (m ≡ n)) ⊎ Seen table k n)
Seen-new h k m n table =
    let (to, from) = one_method m n in
    (
      (λ s. elim s [ inl (f, one) ↦ inl (f, to one) | inr later ↦ inr later ]),
      λ s. elim s [ inl (f, g) ↦ inl (f, from g) | inr later ↦ inr later ],
    )

pub insert_host_iff :
    (h : Str) (m : Method) (table : Table) (k : Str) (n : Method)
    → Seen (insert_host h m table) k n ↔ (((h ≡ k) × (m ≡ n)) ⊎ Seen table k n)
unfolding insert_host
insert_host_iff h m [] k n = Seen-new h k m n []
insert_host_iff h m ((j, ms) ∷ table) k n = elim (Bool-cases (str_eq h j)) [
  | inl same ↦ rw same (Seen-same h j k m n ms table (str_eq→eq h j same))
  | inr other ↦ elim (Bool-cases (str_lt h j)) [
    | inl less ↦ rw (other, less) (Seen-new h k m n ((j, ms) ∷ table))
    | inr more ↦
        (let (to, from) = insert_host_iff h m table k n in
          rw (other, more)
            (
              (λ s. elim s [
                | inl here ↦ inr (inl here)
                | inr later ↦ elim (to later) [ inl new ↦ inl new | inr old ↦ inr (inr old) ]
              ]),
              λ s. elim s [
                | inl new ↦ inr (from (inl new))
                | inr before ↦ elim before [ inl here ↦ inl here | inr old ↦ inr (from (inr old)) ]
              ],
            ))
  ]
]
