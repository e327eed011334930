-- ===== src/Guest.antt =====
-- src/firecracker.rs and src/init_shim.rs: what the host tells the guest, in files and on the control channel.
pub mod Staging
pub mod Control
pub mod System
pub mod Config
pub mod Init
mod Tests
use zeptocapsule.Common.{Option, none, some, List, [], ◌∷◌, ◌++◌, map}
use zeptocapsule.Common.Result.{Result, ok, err, ◌>>=◌, ok_or}
use zeptocapsule.Text.{Str, codes, split, split_once}
use zeptocapsule.Text.Utf8.{Bytes, from_utf8, into_bytes}

-- host: what is written to a file of texts
unfoldable pub write_nul_delimited_strings : List Str → Bytes
write_nul_delimited_strings [] = []
write_nul_delimited_strings (value ∷ values) =
    into_bytes value ++ 0 ∷ write_nul_delimited_strings values

-- host: an entry of the environment
abbrev pub env_entry : Str × Str → Str
env_entry (key, value) = key ++ b'=' ∷ value

-- guest: the texts of the pieces between zeros, or the error of the first that is not UTF-8; an empty
-- piece is skipped
unfoldable pub decode_chunks : Str → List Bytes → Result Str (List Str)
decode_chunks error [] = ok []
decode_chunks error ([] ∷ chunks) = decode_chunks error chunks
decode_chunks error ((b ∷ chunk) ∷ chunks) = do
  value ← ok_or error (from_utf8 (b ∷ chunk))
  values ← decode_chunks error chunks
  ok (value ∷ values)

-- guest: the contents of the file, if there is one; `error` is the text of a decoding error
unfoldable pub read_nul_delimited_strings : Str → Option Bytes → Result Str (List Str)
read_nul_delimited_strings error none = ok []
read_nul_delimited_strings error (some bytes) = decode_chunks error (split (0 ∷ []) bytes)

abbrev cons_pair : Option (Str × Str) → List (Str × Str) → List (Str × Str)
cons_pair none pairs = pairs
cons_pair (some pair) pairs = pair ∷ pairs

-- guest: an entry without "=" is skipped
unfoldable pub pairs_of : List Str → List (Str × Str)
pairs_of [] = []
pairs_of (entry ∷ entries) = cons_pair (split_once (codes "=") entry) (pairs_of entries)

unfoldable pub read_nul_delimited_key_values : Str → Option Bytes → Result Str (List (Str × Str))
read_nul_delimited_key_values error file = do
  entries ← read_nul_delimited_strings error file
  ok (pairs_of entries)
