-- ===== src/Xfer/Remote.antt =====
-- The remote protocol of src/xfer.cpp, which a program on the console serves: commands and replies
-- behind the bytes "SRL1". A C string is the list of its characters, none of them 0, without the
-- final NUL, and `none` is a null pointer. Messages on `std::cerr` are left out.
pub mod Framing
use ftx.Base.{ℕ, zero, suc, ◌+◌, ◌-◌, ◌*◌, ◌^◌, Bool, false, ◌&&◌}
use ftx.Base.{List, [], ◌∷◌, ◌++◌, Option, none, some, length, leb, ltb, not, ◌==◌, if◌then◌else◌}
use ftx.Base.Words.{byte_of}
use ftx.Xfer.Link.{Answer, Link, Run, value, hang, M, bind, answer_read, write_rest}
use ftx.Xfer.Attempt.{Attempt, ◌>>=◌, ◌>>◌, return, fail, guard, either_way}

pub data Command : Type 0 where
  list : Command
  remove : Command
  crc : Command
  upload : Command
  mkdir : Command
  rmdir : Command
  rename : Command
  download : Command

abbrev pub command_code : Command → ℕ
command_code list = 1
command_code remove = 2
command_code crc = 3
command_code upload = 4
command_code mkdir = 5
command_code rmdir = 6
command_code rename = 7
command_code download = 8

-- The status is the byte that the device sent, which is not checked to be one of the four.
pub record Reply : Type 0 where
  pub status : ℕ
  pub payload : List ℕ

-- `RemoteIoStatus::OK`
abbrev pub status_ok : ℕ
status_ok = 0

abbrev pub magic : List ℕ
magic = 83 ∷ 82 ∷ 76 ∷ 49 ∷ []

-- `WriteAllToDevice`: true if everything is written, which an interrupt may prevent.
unfoldable pub write_all_to_device : List ℕ → Attempt (Unit {0})
write_all_to_device bytes l = bind (write_rest bytes l) λ rest l'. elim rest [
  | none ↦ value none l'
  | some [] ↦ value (some tt) l'
  | some (b ∷ bs) ↦ value none l'
]

-- The loop of `ReadExactFromDevice`: `left` bytes are missing, and the last `idle` reads gave none.
-- The bytes read by a call that fails are not used by any caller.
unfoldable pub read_loop : List Answer → ℕ → ℕ → ℕ → List ℕ → Attempt (List ℕ)
read_loop answers zero idle max_idle_cycles got l = value (some got) l
read_loop [] (suc left) idle max_idle_cycles got l = if l.interrupted then value none l else hang
read_loop (a ∷ more) (suc left) idle max_idle_cycles got l =
    let step = bind (answer_read (a ∷ more) (suc left) l) λ rc l'. elim rc [
      | none ↦ value none l'
      | some [] ↦
          let again = read_loop more (suc left) (suc idle) max_idle_cycles got l' in
          if leb max_idle_cycles (suc idle) then value none l' else again
      | some (b ∷ bs) ↦
          read_loop more (suc left - length (b ∷ bs)) 0 max_idle_cycles (got ++ (b ∷ bs)) l'
    ] in
    if l.interrupted then value none l else step

unfoldable pub read_exact_from_device : ℕ → ℕ → Attempt (List ℕ)
read_exact_from_device size max_idle_cycles l = read_loop l.answers size 0 max_idle_cycles [] l

-- The default of `max_idle_cycles`.
abbrev pub patience : ℕ
patience = 5000

unfoldable pub header : ℕ → ℕ → List ℕ
header code size = magic ++ (code ∷ byte_of size 8 ∷ byte_of size 0 ∷ [])

-- `if (payloadLen > 0 && !WriteAllToDevice(argument, payloadLen)) return false;`
unfoldable pub write_payload : List ℕ → Attempt (Unit {0})
write_payload [] = return tt
write_payload (b ∷ bs) = write_all_to_device (b ∷ bs)

-- `SendRemoteIoCommand`.
unfoldable pub send_remote_io_command : Command → Option (List ℕ) → Attempt (Unit {0})
send_remote_io_command command none = fail
send_remote_io_command command (some argument) = do
  guard (leb (length argument) 0xffff)
  write_all_to_device (header (command_code command) (length argument))
  write_payload argument

-- What `TryReadRemoteIoReply` returns: 1, 0 and -1.
pub data Tried : Type 0 where
  received : Reply → Tried
  nothing_came : Tried
  broken : Tried

unfoldable pub reply_payload : ℕ → ℕ → M Tried
reply_payload status zero l = value (received (record { status = status; payload = [] })) l
reply_payload status (suc size) l =
    either_way (read_exact_from_device (suc size) patience) broken
      (λ bytes. value (received (record { status = status; payload = bytes }))) l

-- The header's seven bytes.
unfoldable pub reply_header : List ℕ → M Tried
reply_header (m₀ ∷ m₁ ∷ m₂ ∷ m₃ ∷ status ∷ hi ∷ lo ∷ []) l =
    let rest = reply_payload status (hi * 2 ^ 8 + lo) l in
    if (m₀ == 83) && ((m₁ == 82) && ((m₂ == 76) && (m₃ == 49))) then rest else value broken l
reply_header bytes l = value broken l

unfoldable pub try_read_remote_io_reply : ℕ → M Tried
try_read_remote_io_reply header_idle_cycles =
    either_way (read_exact_from_device 7 header_idle_cycles) nothing_came reply_header

unfoldable pub as_reply : Tried → Option Reply
as_reply (received reply) = some reply
as_reply nothing_came = none
as_reply broken = none

unfoldable pub read_remote_io_reply : Attempt Reply
read_remote_io_reply l =
    bind (try_read_remote_io_reply patience l) λ tried l'. value (as_reply tried) l'

-- What is printed of a payload: a line feed is added to it if it does not end in one.
unfoldable pub as_lines : List ℕ → List ℕ
as_lines [] = []
as_lines (c ∷ []) = if c == 10 then c ∷ [] else c ∷ 10 ∷ []
as_lines (c ∷ d ∷ cs) = c ∷ as_lines (d ∷ cs)

-- `ExecuteRemoteIoCommand` after the command is sent, and the end of
-- `ExecuteRemoteIoRenameCommand`: what is printed, and whether the device answered that it is OK.
unfoldable pub finish_command : Attempt (Unit {0}) → M (List ℕ × Bool)
finish_command send =
    either_way (do send; read_remote_io_reply) ([], false)
      λ reply. value (as_lines reply.payload, reply.status == status_ok)

unfoldable pub execute_remote_io_command : Command → Option (List ℕ) → M (List ℕ × Bool)
execute_remote_io_command command argument =
    finish_command (send_remote_io_command command argument)

-- `SendRemoteIoRenameCommand`: the two paths with a NUL between them.
unfoldable pub send_remote_io_rename_command :
    Option (List ℕ) → Option (List ℕ) → Attempt (Unit {0})
send_remote_io_rename_command (some old_path) (some new_path) = do
  guard (leb (length old_path + 1 + length new_path) 0xffff)
  write_all_to_device (header (command_code rename) (length old_path + 1 + length new_path))
  write_all_to_device (old_path ++ (0 ∷ []))
  write_payload new_path
send_remote_io_rename_command none new_path = fail
send_remote_io_rename_command (some old_path) none = fail

unfoldable pub execute_remote_io_rename_command :
    Option (List ℕ) → Option (List ℕ) → M (List ℕ × Bool)
execute_remote_io_rename_command old_path new_path =
    finish_command (send_remote_io_rename_command old_path new_path)

unfoldable pub do_remove : Option (List ℕ) → M (List ℕ × Bool)
do_remove = execute_remote_io_command remove

unfoldable pub do_rename : Option (List ℕ) → Option (List ℕ) → M (List ℕ × Bool)
do_rename = execute_remote_io_rename_command

unfoldable pub do_mkdir : Option (List ℕ) → M (List ℕ × Bool)
do_mkdir = execute_remote_io_command mkdir

unfoldable pub do_rmdir : Option (List ℕ) → M (List ℕ × Bool)
do_rmdir = execute_remote_io_command rmdir

unfoldable pub do_crc : Option (List ℕ) → M (List ℕ × Bool)
do_crc = execute_remote_io_command crc
