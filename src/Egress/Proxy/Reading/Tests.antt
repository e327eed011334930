-- ===== src/Egress/Proxy/Reading/Tests.antt =====
-- A head in two reads, and a client that sends one byte at a time.
use zeptocapsule.Common.{
  ℕ, zero, suc, ◌+◌, ◌≤◌, ◌≡◌, ◌≢◌, refl, ap, true, some, none, List, [], ◌∷◌, length, arith,
}
use zeptocapsule.Common.Result.{ok}
use zeptocapsule.Text.{codes, starts_with}
use zeptocapsule.Egress.Proxy.Reading.{
  Read, max_header_bytes, has_end, read_until_double_crlf, read_until_double_crlf_bounds,
  read_until_double_crlf_ends, read_turn,
}

abbrev reads : List Read
reads = ok (codes "GET / HTTP/1.1\r\n") ∷ ok (codes "\r\nbody") ∷ []

two_reads : read_until_double_crlf [] reads [] ≡ some (ok (codes "GET / HTTP/1.1\r\n\r\nbody"))
unfolding read_until_double_crlf read_turn has_end starts_with
two_reads = refl

read_until_double_crlf_bounds_example :
    (has_end (codes "GET / HTTP/1.1\r\n\r\nbody") ≡ true)
    × (length (codes "GET / HTTP/1.1\r\n\r\nbody") ≤ max_header_bytes + 1024)
read_until_double_crlf_bounds_example =
    read_until_double_crlf_bounds [] reads [] (codes "GET / HTTP/1.1\r\n\r\nbody")
      (omega arith, (omega arith, tt)) (omega arith) two_reads

-- `n` reads of one byte
drips : ℕ → List Read
drips zero = []
drips (suc n) = ok (b'a' ∷ []) ∷ drips n

length-drips : (n : ℕ) → length (drips n) ≡ n
unfolding drips
length-drips zero = refl
length-drips (suc n) = ap suc (length-drips n)

read_until_double_crlf_ends_example : read_until_double_crlf [] (drips 16385) [] ≢ none
read_until_double_crlf_ends_example =
    read_until_double_crlf_ends [] (drips 16385) [] (omega arith)
      (omega (arith, length-drips 16385))
