-- ===== src/Xfer/Remote/Framing.antt =====
-- The frames of the remote protocol of src/xfer.cpp: `SendRemoteIoCommand`, `SendRemoteIoRenameCommand`
-- and `ReadRemoteIoReply` against a description of a frame that stands by itself.
use ftx.Base.{ℕ, zero, suc, ◌+◌, ◌*◌, ◌^◌, ◌≤◌, ◌≡◌, refl, sym, ◌∙◌, arith}
use ftx.Base.{Bool, true, false, ◌&&◌, List, [], ◌∷◌, ◌++◌, append-nil, append_assoc}
use ftx.Base.{some, length, length-append, leb, leb→le, ◌==◌, if◌then◌else◌}
use ftx.Base.Words.{byte_of}
use ftx.Xfer.Link.{Link, Run, value, hang, bind}
use ftx.Xfer.Attempt.{Attempt, ◌>>=◌, ◌>>◌, guard}
use ftx.Xfer.Remote.{Command, command_code, rename, Reply, header, patience}
use ftx.Xfer.Remote.{write_all_to_device, write_payload, send_remote_io_command}
use ftx.Xfer.Remote.{send_remote_io_rename_command, Tried, received, nothing_came, broken}
use ftx.Xfer.Remote.{reply_payload, reply_header, try_read_remote_io_reply, as_reply}
use ftx.Xfer.Remote.{read_remote_io_reply, read_exact_from_device}
use ftx.Xfer.Exchange.{Exchange, Exchange-nothing, Exchange-then, Ensures, OnSuccess}
use ftx.Xfer.Exchange.{
  OnSuccess-bind, OnSuccess-weaken, Ensures-either_way, write_all_to_device_lem,
}
use ftx.Xfer.Exchange.{write_payload_lem, read_exact_from_device_lem}

-- A frame: "SRL1", a byte that is a command or a status, a length of two bytes, and as many bytes.
abbrev pub Frame : ℕ → List ℕ → List ℕ → Type 0
Frame code payload wire =
    (hi : ℕ) × (lo : ℕ) × (wire ≡ (83 ∷ 82 ∷ 76 ∷ 49 ∷ code ∷ hi ∷ lo ∷ []) ++ payload)
    × (length payload ≡ hi * 256 + lo)

pub header-Frame :
    (code : ℕ) (payload : List ℕ)
    → length payload ≤ 0xffff
    → Frame code payload (header code (length payload) ++ payload)
unfolding header
header-Frame code payload h =
    (byte_of (length payload) 8, byte_of (length payload) 0, refl, omega arith)

pub Frame-at :
    (code code' : ℕ) (payload wire : List ℕ)
    → code ≡ code'
    → Frame code payload wire
    → Frame code' payload wire
Frame-at code code' payload wire e f = rw (sym e) f

pub OnSuccess-test :
    (Q : Unit {0} → Link → Type 0) (t : Bool) (l : Link)
    → (t ≡ true → Q tt l)
    → OnSuccess Q (guard t l)
OnSuccess-test Q true l h = h refl
OnSuccess-test Q false l h = tt

module _ {A : Type 0} (Q : A → Link → Type 0) where
  pub OnSuccess-guard :
      (t : Bool) (k : Attempt A) (l : Link)
      → (t ≡ true → OnSuccess Q (k l))
      → OnSuccess Q ((guard t >> k) l)
  unfolding ◌>>=◌
  OnSuccess-guard true k l h = h refl
  OnSuccess-guard false k l h = tt

-- What `SendRemoteIoCommand` has sent when it succeeds is one frame, with the command's code and
-- the whole argument; it has read nothing.
pub send_remote_io_command-Frame :
    (command : Command) (argument : List ℕ) (l : Link)
    → OnSuccess
        (λ _ l'.
          (wire : List ℕ) × Frame (command_code command) argument wire × Exchange l wire [] l')
        (send_remote_io_command command (some argument) l)
unfolding send_remote_io_command
send_remote_io_command-Frame command argument l =
    OnSuccess-guard _ (leb (length argument) 0xffff) _ l λ short.
      OnSuccess-bind (λ _ l'. Exchange l (header (command_code command) (length argument)) [] l') _
        (write_all_to_device (header (command_code command) (length argument)))
        (λ _. write_payload argument) l
        (write_all_to_device_lem (header (command_code command) (length argument)) l)
        (λ _ l' x.
          OnSuccess-weaken (λ _ l''. Exchange l' argument [] l'') _ _
            (write_payload_lem argument l')
            (λ _ l'' y. (
              header (command_code command) (length argument) ++ argument,
              header-Frame (command_code command) argument (leb→le _ _ short),
              Exchange-then l l' l'' _ argument [] [] x y,
            )))

rename_wire :
    (old_path new_path : List ℕ)
    → length old_path + 1 + length new_path ≤ 0xffff
    → (first : List ℕ) → first ≡ header 7 (length old_path + 1 + length new_path)
    → (l m : Link) → Exchange l (first ++ ((old_path ++ (0 ∷ [])) ++ new_path)) [] m
    → (wire : List ℕ) × Frame 7 (old_path ++ (0 ∷ new_path)) wire × Exchange l wire [] m
rename_wire old_path new_path h first e l m (es, ei) =
    let size : length (old_path ++ (0 ∷ new_path)) ≡ length old_path + 1 + length new_path =
      omega (arith, length-append old_path (0 ∷ new_path)) in
    (
      header 7 (length (old_path ++ (0 ∷ new_path))) ++ (old_path ++ (0 ∷ new_path)),
      header-Frame 7 (old_path ++ (0 ∷ new_path)) (omega arith),
      (es ∙ rw (e, size, append_assoc old_path (0 ∷ []) new_path) refl, ei),
    )

-- `DoRename`'s two paths travel as one argument, with a NUL between them.
pub send_remote_io_rename_command-Frame :
    (old_path new_path : List ℕ) (l : Link)
    → OnSuccess
        (λ _ l'.
          (wire : List ℕ) × Frame (command_code rename) (old_path ++ (0 ∷ new_path)) wire
          × Exchange l wire [] l')
        (send_remote_io_rename_command (some old_path) (some new_path) l)
unfolding send_remote_io_rename_command
send_remote_io_rename_command-Frame old_path new_path l =
    OnSuccess-guard _ (leb (length old_path + 1 + length new_path) 0xffff) _ l λ short.
      OnSuccess-bind (λ _ l'. Exchange l (header 7 (length old_path + 1 + length new_path)) [] l') _
        (write_all_to_device (header 7 (length old_path + 1 + length new_path)))
        (λ _. write_all_to_device (old_path ++ (0 ∷ [])) >> write_payload new_path) l
        (write_all_to_device_lem _ l)
        λ _ l' x.
          OnSuccess-bind (λ _ l''. Exchange l' (old_path ++ (0 ∷ [])) [] l'') _
            (write_all_to_device (old_path ++ (0 ∷ []))) (λ _. write_payload new_path) l'
            (write_all_to_device_lem (old_path ++ (0 ∷ [])) l')
            λ _ l'' y.
              OnSuccess-weaken (λ _ m. Exchange l'' new_path [] m) _ _
                (write_payload_lem new_path l'')
                λ _ m z. rename_wire old_path new_path (leb→le _ _ short) (header 7 _) refl l m (
                  Exchange-then l l' m _ _ [] [] x
                    (Exchange-then l' l'' m (old_path ++ (0 ∷ [])) new_path [] [] y z))

-- `Q` holds of the reply, if one was received.
abbrev pub IfReceived : (Reply → Link → Type 0) → Tried → Link → Type 0
IfReceived Q (received reply) l = Q reply l
IfReceived Q nothing_came l = Unit {0}
IfReceived Q broken l = Unit {0}

abbrev Payload : ℕ → ℕ → Link → Reply → Link → Type 0
Payload status size l r l' =
    (r.status ≡ status) × (length r.payload ≡ size) × Exchange l [] r.payload l'

reply_payload_lem :
    (status size : ℕ) (l : Link)
    → Ensures (IfReceived (Payload status size l)) (reply_payload status size l)
unfolding reply_payload
reply_payload_lem status zero l = (refl, refl, Exchange-nothing l)
reply_payload_lem status (suc size) l =
    Ensures-either_way (λ got l'. (length got ≡ suc size) × Exchange l [] got l') _
      (read_exact_from_device (suc size) patience) broken
      (λ bytes. value (received (record { status = status; payload = bytes }))) l
      (read_exact_from_device_lem (suc size) patience l) (λ l'. tt) (λ got l' (e, x). (refl, e, x))

-- What the bytes that were read, after `first`, make of a reply.
abbrev pub Answered : Link → List ℕ → Reply → Link → Type 0
Answered l first r l' =
    (wire : List ℕ) × Frame r.status r.payload wire
    × (first ++ l.incoming ≡ wire ++ l'.incoming)
    × (l'.sent ≡ l.sent)

pub IfReceived-weaken :
    (P Q : Reply → Link → Type 0) (r : Run Tried)
    → Ensures (IfReceived P) r
    → ((reply : Reply) (l : Link) → P reply l → Q reply l)
    → Ensures (IfReceived Q) r
IfReceived-weaken P Q (value (received reply) l) h w = w reply l h
IfReceived-weaken P Q (value nothing_came l) h w = tt
IfReceived-weaken P Q (value broken l) h w = tt
IfReceived-weaken P Q hang h w = tt

pub IfReceived-if :
    (Q : Reply → Link → Type 0) (t : Bool) (r : Run Tried) (l : Link)
    → (t ≡ true → Ensures (IfReceived Q) r)
    → Ensures (IfReceived Q) (if t then r else value broken l)
IfReceived-if Q true r l h = h refl
IfReceived-if Q false r l h = tt

magic_bytes :
    (a b c d : ℕ)
    → ((a == 83) && ((b == 82) && ((c == 76) && (d == 49)))) ≡ true
    → (a ≡ 83) × (b ≡ 82) × (c ≡ 76) × (d ≡ 49)
magic_bytes a b c d h = ground arith

reply_header_lem :
    (bytes : List ℕ) (l : Link)
    → length bytes ≡ 7
    → Ensures (IfReceived (Answered l bytes)) (reply_header bytes l)
unfolding reply_header
reply_header_lem (a ∷ b ∷ c ∷ d ∷ status ∷ hi ∷ lo ∷ []) l h =
    IfReceived-if (Answered l (a ∷ b ∷ c ∷ d ∷ status ∷ hi ∷ lo ∷ []))
      ((a == 83) && ((b == 82) && ((c == 76) && (d == 49))))
      (reply_payload status (hi * 2 ^ 8 + lo) l) l
      λ ok.
        IfReceived-weaken (Payload status (hi * 2 ^ 8 + lo) l) _ _
          (reply_payload_lem status (hi * 2 ^ 8 + lo) l)
          λ r l' (es, el, (xs, xi)).
            let (e₀, e₁, e₂, e₃) = magic_bytes a b c d ok in
            (
              (a ∷ b ∷ c ∷ d ∷ r.status ∷ hi ∷ lo ∷ []) ++ r.payload,
              (hi, lo, rw (e₀, e₁, e₂, e₃) refl, omega arith),
              rw (es, xi) refl,
              xs ∙ append-nil l.sent,
            )
reply_header_lem bytes l h = absurd (omega arith)

try_read_remote_io_reply_lem :
    (header_idle_cycles : ℕ) (l : Link)
    → Ensures (IfReceived (Answered l [])) (try_read_remote_io_reply header_idle_cycles l)
unfolding try_read_remote_io_reply
try_read_remote_io_reply_lem most l =
    Ensures-either_way (λ got l'. (length got ≡ 7) × Exchange l [] got l') _
      (read_exact_from_device 7 most) nothing_came reply_header l
      (read_exact_from_device_lem 7 most l) (λ l'. tt)
      (λ got l' (e, (es, ei)).
        IfReceived-weaken (Answered l' got) (Answered l []) _ (reply_header_lem got l' e)
          λ r l'' (wire, f, xi, xs). (wire, f, ei ∙ xi, xs ∙ es ∙ append-nil l.sent))

-- A reply that `ReadRemoteIoReply` accepts is what one frame carries, and the frame is all that it
-- takes of the bytes that have come.
pub read_remote_io_reply-Frame :
    (l : Link)
    → OnSuccess
        (λ r l'. (wire : List ℕ) × Frame r.status r.payload wire × Exchange l [] wire l')
        (read_remote_io_reply l)
unfolding read_remote_io_reply as_reply
read_remote_io_reply-Frame l =
    go (try_read_remote_io_reply patience l) (try_read_remote_io_reply_lem patience l)
  where
    go :
        (run : Run Tried)
        → Ensures (IfReceived (Answered l [])) run
        → OnSuccess
            (λ r l'. (wire : List ℕ) × Frame r.status r.payload wire × Exchange l [] wire l')
            (bind run λ tried l'. value (as_reply tried) l')
    go (value (received r) l') (wire, f, xi, xs) = (wire, f, (xs ∙ sym (append-nil l.sent), xi))
    go (value nothing_came l') h = tt
    go (value broken l') h = tt
    go hang h = tt
