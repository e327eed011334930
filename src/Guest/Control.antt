-- ===== src/Guest/Control.antt =====
-- The control channel: signals to the guest, and the worker's exit status back.
pub mod Status
use zeptocapsule.Common.{
  ℕ, ◌-◌, ◌^◌, Bool, Option, none, some, List, [], ◌∷◌, ◌++◌, drop, length, ◌==◌, if◌then◌else◌,
}
use zeptocapsule.Text.{Str, codes, str_eq, trim, decimal, starts_with, scan_digits, parse_uint}
use zeptocapsule.Capsule.{Signal, terminate, kill}

-- host
unfoldable pub control_message : Signal → Str
control_message terminate = codes "TERMINATE\n"
control_message kill = codes "KILL\n"

-- guest: the signal that a line of the control channel forwards to the worker
unfoldable pub forwarded : Str → Option Signal
forwarded line =
    if str_eq (trim line) (codes "TERMINATE")
    then some terminate
    else if str_eq (trim line) (codes "KILL")
    then some kill
    else none

-- guest: how the worker ended; without a code and a signal it is signal 0
pub data Ended : Type 0 where
  with_code with_signal : ℕ → Ended

unfoldable pub exit_message : Ended → Str
exit_message (with_code code) = codes "EXIT " ++ (decimal code ++ codes "\n")
exit_message (with_signal signal) = codes "SIGNAL " ++ (decimal signal ++ codes "\n")

-- an `i32`
pub data I32 : Type 0 where
  pos neg : ℕ → I32

abbrev positive : Option ℕ → Option I32
positive none = none
positive (some n) = some (pos n)

abbrev negative : Option ℕ → Option I32
negative none = none
negative (some n) = some (neg n)

abbrev pub max_i32 : ℕ
max_i32 = 2 ^ 31 - 1

-- `s.parse::<i32>()`
unfoldable pub parse_i32 : Str → Option I32
parse_i32 [] = none
parse_i32 (c ∷ []) = positive (parse_uint max_i32 (c ∷ []))
parse_i32 (c ∷ d ∷ s) =
    if c == b'-'
    then negative (scan_digits (2 ^ 31) (d ∷ s) 0)
    else positive (parse_uint max_i32 (c ∷ d ∷ s))

pub data ControlStatus : Type 0 where
  exited signaled : I32 → ControlStatus
  unknown : ControlStatus

-- the number behind a prefix of the trimmed line
unfoldable pub number_after : Str → Str → Option I32
number_after prefix line =
    if starts_with line prefix then parse_i32 (trim (drop (length prefix) line)) else none

abbrev status_of : Option I32 → Option I32 → ControlStatus
status_of (some code) signal = exited code
status_of none (some signal) = signaled signal
status_of none none = unknown

unfoldable pub parse_exit_status : Str → ControlStatus
parse_exit_status line =
    status_of (number_after (codes "EXIT ") (trim line))
      (number_after (codes "SIGNAL ") (trim line))
