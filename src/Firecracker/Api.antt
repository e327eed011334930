-- ===== src/Firecracker/Api.antt =====
-- src/firecracker_api.rs and src/vsock.rs: the requests to Firecracker, and their responses.
use zeptocapsule.Common.{
  ℕ, ◌-◌, ◌^◌, Bool, true, false, ◌&&◌, Option, none, some, List, [], ◌∷◌, ◌++◌, ltb, leb,
  if◌then◌else◌, length, take,
}
use zeptocapsule.Common.Result.{Result, ok, err, ◌>>=◌, ◌>>◌, ok_or}
use zeptocapsule.Text.{
  Str, codes, decimal, starts_with, trim, split_once, eq_ignore_ascii_case, parse_uint,
}
use zeptocapsule.Text.Utf8.{Bytes, from_utf8, into_bytes}
use zeptocapsule.Text.Words.{lines, split_whitespace}
use zeptocapsule.Capsule.Backend.{KernelError, transport}
use zeptocapsule.Firecracker.System.{Exchange}

pub record ApiResponse : Type 0 where
  pub status : ℕ
  pub body : Str

unfoldable pub format_put_request : Str → Str → Str
format_put_request path body =
    codes "PUT "
    ++ (path
        ++ (codes
              " HTTP/1.1\r\nHost: localhost\r\nAccept: application/json\r\nContent-Type: application/json\r\nContent-Length: "
            ++ (decimal (length (into_bytes body)) ++ (codes "\r\n\r\n" ++ body))))

abbrev pub crlf_crlf : Bytes
crlf_crlf = 13 ∷ 10 ∷ 13 ∷ 10 ∷ []

-- the bytes up to and with the first empty line, and those behind it; `seen` are the last four, the
-- latest first
unfoldable pub split_head : (seen : Bytes) → Bytes → Option (Bytes × Bytes)
split_head seen [] = none
split_head seen (b ∷ bytes) =
    let rest = split_head (take 4 (b ∷ seen)) bytes in
    elim (starts_with (b ∷ seen) (10 ∷ 13 ∷ 10 ∷ 13 ∷ [])) [
      | true ↦ some (b ∷ [], bytes)
      | false ↦ elim rest [ none ↦ none | some (head, body) ↦ some (b ∷ head, body) ]
    ]

abbrev pub max_usize : ℕ
max_usize = 2 ^ 64 - 1

abbrev pub length_of : Option (Str × Str) → Option ℕ
length_of none = none
length_of (some (key, value)) =
    if eq_ignore_ascii_case (trim key) (codes "content-length")
    then parse_uint max_usize (trim value)
    else none

abbrev first_length : Option ℕ → ℕ → ℕ
first_length (some n) rest = n
first_length none rest = rest

-- `find_map` over the lines of the head, 0 if there is none
unfoldable pub content_length : List Str → ℕ
content_length [] = 0
content_length (line ∷ more) =
    first_length (length_of (split_once (codes ":") line)) (content_length more)

-- the first `n` bytes; an error where there are fewer
abbrev pub read_exact : Str → ℕ → Bytes → Result KernelError Bytes
read_exact closed n bytes =
    if ltb (length bytes) n
    then err (transport (codes "socket read body: " ++ closed))
    else ok (take n bytes)

abbrev pub second : List Str → Option Str
second [] = none
second (a ∷ []) = none
second (a ∷ b ∷ rest) = some b

abbrev pub first_line : List Str → Option Str
first_line [] = none
first_line (line ∷ rest) = some line

-- the texts of the errors of a decoding and of a number's parsing
pub record Texts : Type 0 where
  pub utf8 : Str
  pub number : Str

unfoldable pub parse_status : Texts → List Str → Result KernelError ℕ
parse_status texts head_lines = do
  line ← ok_or (transport (codes "empty response")) (first_line head_lines)
  code ← ok_or (transport (codes "missing status code")) (second (split_whitespace line))
  ok_or (transport (codes "invalid status: " ++ texts.number)) (parse_uint 65535 code)

-- the response in the bytes that come back
unfoldable pub read_response : Texts → (closed : Str) → Bytes → Result KernelError ApiResponse
unfolding split_head content_length parse_status
read_response texts closed sent = do
  parts ← ok_or (transport (codes "socket read header: " ++ closed)) (split_head [] sent)
  head ← ok_or (transport (codes "header utf8: " ++ texts.utf8)) (from_utf8 parts.0)
  bytes ← read_exact closed (content_length (lines head)) parts.1
  body ← ok_or (transport (codes "body utf8: " ++ texts.utf8)) (from_utf8 bytes)
  status ← parse_status texts (lines head)
  ok (record { status = status; body = body })

abbrev pub named : Str → Result Str (Unit {0}) → Result KernelError (Unit {0})
named what (ok t) = ok t
named what (err e) = err (transport (what ++ e))

-- `put`, of what the exchange comes to
unfoldable pub put : Texts → Exchange → Result KernelError ApiResponse
unfolding read_response
put texts x = do
  named (codes "unix socket connect: ") x.connected
  named (codes "socket write: ") x.written
  read_response texts x.closed x.sent

unfoldable pub put_expect_ok : Texts → (path : Str) → Exchange → Result KernelError ApiResponse
unfolding put
put_expect_ok texts path x = do
  resp ← put texts x
  if leb 200 resp.status && ltb resp.status 300
      then ok resp
      else err (
          transport (
            codes "Firecracker API "
            ++ path
            ++ codes " returned "
            ++ decimal resp.status
            ++ codes ": "
            ++ resp.body))

abbrev show_bool : Bool → Str
show_bool true = codes "true"
show_bool false = codes "false"

unfoldable pub machine_config_json : ℕ → ℕ → Str
machine_config_json vcpus mem_size_mib =
    codes "{\"vcpu_count\":"
    ++ decimal vcpus
    ++ codes ",\"mem_size_mib\":"
    ++ decimal mem_size_mib
    ++ codes "}"

unfoldable pub boot_source_json : Str → Str → Str
boot_source_json kernel_image_path boot_args =
    codes "{\"kernel_image_path\":\""
    ++ kernel_image_path
    ++ codes "\",\"boot_args\":\""
    ++ boot_args
    ++ codes "\"}"

unfoldable pub drive_json : Str → Str → Bool → Bool → Str
drive_json drive_id path is_root is_read_only =
    codes "{\"drive_id\":\""
    ++ drive_id
    ++ codes "\",\"path_on_host\":\""
    ++ path
    ++ codes "\",\"is_root_device\":"
    ++ show_bool is_root
    ++ codes ",\"is_read_only\":"
    ++ show_bool is_read_only
    ++ codes "}"

unfoldable pub vsock_json : Str → Str → ℕ → Str
vsock_json vsock_id uds_path guest_cid =
    codes "{\"vsock_id\":\""
    ++ vsock_id
    ++ codes "\",\"uds_path\":\""
    ++ uds_path
    ++ codes "\",\"guest_cid\":"
    ++ decimal guest_cid
    ++ codes "}"

unfoldable pub network_interface_json : Str → Str → Str
network_interface_json iface_id tap_name =
    codes "{\"iface_id\":\""
    ++ iface_id
    ++ codes "\",\"host_dev_name\":\""
    ++ tap_name
    ++ codes "\"}"

unfoldable pub action_json : Str → Str
action_json action_type = codes "{\"action_type\":\"" ++ action_type ++ codes "\"}"

-- of vsock.rs
unfoldable pub connect_request : ℕ → Str
connect_request port = codes "CONNECT " ++ decimal port ++ codes "\n"

unfoldable pub is_connect_ok : Str → Bool
is_connect_ok line = starts_with (trim line) (codes "OK")
