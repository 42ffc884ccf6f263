-- ===== src/Usbdc/Loop.antt =====
-- `sc_check_usbdc` as a whole: it ends, or waits for the host, on every input; and what it does
-- on an upload and on a download.
use ftx.Base.{ℕ, zero, suc, ◌+◌, ◌%◌, ◌^◌, ◌≤◌, ◌<◌, ◌≡◌, ◌≢◌, arith}
use ftx.Base.{Bool, true, false, List, [], ◌∷◌, ◌++◌, length, ◌==◌, ◌||◌, if◌then◌else◌, bit_and}
use ftx.Base.Words.{be32}
use ftx.Usbdc.Machine.{Event, Saturn, Outcome, done, waiting, stuck, M, bind, ◌>>=◌, ◌>>◌, return}
use ftx.Usbdc.Machine.{update, peek, poke, take_byte, recv_byte, send_byte, recv_dword, send_dword}
use ftx.Usbdc.Machine.{recv_into, send_all}
use ftx.Usbdc.Words.{feed, sent}
use ftx.Usbdc.Transfer.{sum_of, verdict, IsPlainRead, do_upload_lem, do_download_lem}
use ftx.Usbdc.Handlers.{copy_word, fetch_word, source_bytes, do_download, sum_memory, recv_payload}
use ftx.Usbdc.Handlers.{do_upload, log_event, soft_reset, softres_all, do_execute, landing}
use ftx.Usbdc.Handlers.{do_exec_ext, do_send_buffer_address, do_copy_exec, dispatch, check_round}
use ftx.Usbdc.Handlers.{check_loop, sc_check_usbdc}

-- An outcome that is no fuel failure and leaves at most `n` bytes to come.
abbrev Sane : {A : Type 0} → ℕ → Outcome A → Type 0
Sane n (done a s) = length s.fifo_in ≤ n
Sane n waiting = Unit {0}
Sane n stuck = ⊥

-- An operation that takes no bytes back, wherever it starts.
abbrev Steady : {A : Type 0} → M A → Type 0
Steady m = (n : ℕ) (s : Saturn) → length s.fifo_in ≤ n → Sane n (m s)

Sane-bind :
    {A B : Type 0} (n : ℕ) (r : Outcome A) (f : A → M B)
    → Sane n r
    → ((a : A) → Steady (f a))
    → Sane n (bind r f)
Sane-bind n (done a s) f h k = k a n s h
Sane-bind n waiting f h k = tt
Sane-bind n stuck f h k = h

Steady-bind :
    {A B : Type 0} (m : M A) (f : A → M B) → Steady m → ((a : A) → Steady (f a)) → Steady (m >>= f)
Steady-bind m f h k n s le = Sane-bind n (m s) f (h n s le) k

Steady-if : {A : Type 0} (b : Bool) (m k : M A) → Steady m → Steady k → Steady (if b then m else k)
Steady-if true m k h g = h
Steady-if false m k h g = g

Sane-if :
    {A : Type 0} (n : ℕ) (b : Bool) (r q : Outcome A)
    → Sane n r
    → Sane n q
    → Sane n (if b then r else q)
Sane-if n true r q h g = h
Sane-if n false r q h g = g

take_byte-Sane :
    (bytes : List ℕ) (n : ℕ) (s : Saturn) → length bytes ≤ n → Sane n (take_byte bytes s)
take_byte-Sane [] n s le = tt
take_byte-Sane (b ∷ rest) n s le = omega arith

recv_byte-Steady : Steady recv_byte
unfolding recv_byte
recv_byte-Steady n s le = take_byte-Sane s.fifo_in n s le

send_byte-Steady : (b : ℕ) → Steady (send_byte b)
unfolding send_byte
send_byte-Steady b n s le = le

recv_dword-Steady : Steady recv_dword
unfolding recv_dword
recv_dword-Steady = Steady-bind _ _ recv_byte-Steady λ a.
    Steady-bind _ _ recv_byte-Steady
      λ b. Steady-bind _ _ recv_byte-Steady λ c. Steady-bind _ _ recv_byte-Steady λ d n s le. le

send_dword-Steady : (v : ℕ) → Steady (send_dword v)
unfolding send_dword
send_dword-Steady v = Steady-bind _ _ (send_byte-Steady _) λ _.
    Steady-bind _ _ (send_byte-Steady _)
      λ _. Steady-bind _ _ (send_byte-Steady _) λ _. send_byte-Steady _

recv_into-Steady : (left a : ℕ) → Steady (recv_into left a)
unfolding recv_into
recv_into-Steady zero a = λ n s le. le
recv_into-Steady (suc left) a =
    Steady-bind _ _ recv_byte-Steady λ b n s le.
      recv_into-Steady left ((a + 1) % 2 ^ 32) n (record s { mem = update s.mem a b }) le

send_all-Steady : (bytes : List ℕ) → Steady (send_all bytes)
unfolding send_all
send_all-Steady [] = λ n s le. le
send_all-Steady (b ∷ bs) = Steady-bind _ _ (send_byte-Steady b) λ _. send_all-Steady bs

fetch_word-Steady : (a len : ℕ) → Steady (fetch_word a len)
unfolding fetch_word copy_word
fetch_word-Steady a len n s le = ground arith

source_bytes-Steady : (a len : ℕ) → Steady (source_bytes a len)
unfolding source_bytes
source_bytes-Steady a len n s le = ground arith

sum_memory-Steady : (a len : ℕ) → Steady (sum_memory a len)
unfolding sum_memory
sum_memory-Steady a len n s le = le

copy_word-Steady : (k a b : ℕ) → Steady (copy_word k a b)
unfolding copy_word
copy_word-Steady k a b n s le = le

do_download-Steady : Steady do_download
unfolding do_download
do_download-Steady = Steady-bind _ _ recv_dword-Steady λ a. Steady-bind _ _ recv_dword-Steady λ len.
    Steady-bind _ _ (fetch_word-Steady a len) λ p.
      Steady-bind _ _ (source_bytes-Steady p len)
        λ bytes. Steady-bind _ _ (send_all-Steady bytes) λ _. send_byte-Steady _

recv_word-Steady :
    (len buffer a : ℕ)
    → Steady (do
      recv_into len buffer
      checksum ← sum_memory buffer len
      (if len == 2
          then copy_word 2 buffer (bit_and a 0xffff_fffe)
          else copy_word 4 buffer (bit_and a 0xffff_fffc))
      return checksum)
recv_word-Steady len buffer a = Steady-bind _ _ (recv_into-Steady len buffer) λ _.
    Steady-bind _ _ (sum_memory-Steady buffer len) λ checksum.
      Steady-bind _ _ (Steady-if (len == 2) _ _ (copy_word-Steady 2 _ _) (copy_word-Steady 4 _ _))
        λ _ n s le. le

recv_payload-Steady : (a len : ℕ) → Steady (recv_payload a len)
unfolding recv_payload
recv_payload-Steady a len n s le =
    Sane-if n ((len == 2) || (len == 4)) _ _ (recv_word-Steady len s.rw4_buffer a n s le)
      (Steady-bind _ _ (recv_into-Steady len a) (λ _. sum_memory-Steady a len) n s le)

do_upload-Steady : Steady do_upload
unfolding do_upload
do_upload-Steady = Steady-bind _ _ recv_dword-Steady λ a. Steady-bind _ _ recv_dword-Steady λ len.
    Steady-bind _ _ (recv_payload-Steady a len) λ checksum.
      Steady-bind _ _ recv_byte-Steady
        λ read. Steady-if (checksum == read) _ _ (send_byte-Steady 0) (send_byte-Steady 1)

log_event-Steady : (e : Event) → Steady (log_event e)
unfolding log_event
log_event-Steady e n s le = le

soft_reset-Steady : (flags : ℕ) → Steady (soft_reset flags)
unfolding soft_reset log_event
soft_reset-Steady flags n s le = ground arith

do_execute-Steady : Steady do_execute
unfolding do_execute
do_execute-Steady =
    Steady-bind _ _ recv_dword-Steady
      λ entry. Steady-bind _ _ (soft_reset-Steady softres_all) λ _. log_event-Steady _

landing-Steady : (exec : ℕ) → Steady (landing exec)
unfolding landing
landing-Steady exec n s le = ground arith

do_exec_ext-Steady : Steady do_exec_ext
unfolding do_exec_ext
do_exec_ext-Steady = Steady-bind _ _ recv_dword-Steady λ exec.
    Steady-bind _ _ (landing-Steady exec) λ p. Steady-bind _ _ recv_dword-Steady λ len.
      Steady-bind _ _ recv_dword-Steady λ flags. Steady-bind _ _ (recv_into-Steady len p) λ _.
        Steady-bind _ _ (sum_memory-Steady p len) λ checksum.
          Steady-bind _ _ recv_byte-Steady λ read.
            Steady-if (checksum == read) _ _
              (Steady-bind _ _ (send_byte-Steady 0)
                λ _. Steady-bind _ _ (soft_reset-Steady flags) λ _. log_event-Steady _)
              (send_byte-Steady 1)

do_send_buffer_address-Steady : Steady do_send_buffer_address
unfolding do_send_buffer_address
do_send_buffer_address-Steady n s le = send_dword-Steady s.exec_buffer n s le

do_copy_exec-Steady : Steady do_copy_exec
unfolding do_copy_exec
do_copy_exec-Steady = Steady-bind _ _ recv_dword-Steady λ tmp.
    Steady-bind _ _ recv_dword-Steady
      λ len. Steady-bind _ _ recv_dword-Steady λ exec. log_event-Steady _

then_return-Steady : (m : M (Unit {0})) (b : Bool) → Steady m → Steady (do m; return b)
then_return-Steady m b h = Steady-bind m _ h λ _ n s le. le

dispatch-Steady : (command : ℕ) (can_exit : Bool) → Steady (dispatch command can_exit)
unfolding dispatch
dispatch-Steady c e = Steady-if (c == 1) _ _ (then_return-Steady _ e do_download-Steady) (
    Steady-if (c == 2) _ _ (then_return-Steady _ e do_upload-Steady) (
      Steady-if (c == 3) _ _ (then_return-Steady _ true do_execute-Steady) (
        Steady-if (c == 4) _ _ (then_return-Steady _ false do_send_buffer_address-Steady) (
          Steady-if (c == 5) _ _ (then_return-Steady _ true do_copy_exec-Steady) (
            Steady-if (c == 6) _ _ (then_return-Steady _ false do_exec_ext-Steady) λ n s le. le)))))

-- A round takes the command byte at least.
round-Sane :
    (b : ℕ) (rest : List ℕ) (can_exit : Bool) (s : Saturn)
    → Sane (length rest) (check_round can_exit (feed s (b ∷ rest)))
unfolding check_round recv_byte
round-Sane b rest e s = dispatch-Steady b e (length rest) (feed s rest) (omega arith)

bind-ne-stuck :
    {A B : Type 0} (n : ℕ) (r : Outcome A) (f : A → M B)
    → Sane n r
    → ((a : A) (s : Saturn) → length s.fifo_in ≤ n → f a s ≢ stuck)
    → bind r f ≢ stuck
bind-ne-stuck n (done a s) f h k = k a s h
bind-ne-stuck n waiting f h k = λ p. cc
bind-ne-stuck n stuck f h k = absurd h

loop-ne-stuck :
    (fuel : ℕ) (can_exit : Bool) (bytes : List ℕ) (s : Saturn)
    → length bytes < fuel
    → check_loop fuel can_exit (feed s bytes) ≢ stuck
unfolding check_loop
loop-ne-stuck zero e bytes s h = absurd (omega arith)
loop-ne-stuck (suc fuel) true [] s h = λ p. cc
loop-ne-stuck (suc fuel) false [] s h = λ p. cc
loop-ne-stuck (suc fuel) e (b ∷ rest) s h =
    bind-ne-stuck (length rest) _ _ (round-Sane b rest e s) (elim [
      | true ↦ λ s' le p. cc
      | false ↦ λ s' le. loop-ne-stuck fuel false s'.fifo_in s' (omega arith)
    ])

-- From any state `sc_check_usbdc` comes to an end or waits for a byte: its fuel, one round for
-- each byte to come and one more, never runs out.
pub sc_check_usbdc-ne-stuck : (s : Saturn) → sc_check_usbdc s ≢ stuck
unfolding sc_check_usbdc
sc_check_usbdc-ne-stuck s = loop-ne-stuck (suc (length s.fifo_in)) true s.fifo_in s (omega arith)

-- An upload command and its block, of a length below 2^32 other than 2 and 4 bytes, to an address
-- below 2^32 from which it fits the address space, are one round, after which the loop ends, whatever
-- follows: the
-- block is in memory from its address on, all else in memory is as it was, and the one byte sent
-- back is 0 if the checksum received is that of the block and 1 if not.
pub sc_check_usbdc_upload :
    (s : Saturn) (a : ℕ) (bytes : List ℕ) (check : ℕ) (rest : List ℕ)
    → a + length bytes ≤ 2 ^ 32
    → length bytes < 2 ^ 32
    → a < 2 ^ 32
    → length bytes ≢ 2
    → length bytes ≢ 4
    → sc_check_usbdc (feed s (2 ∷ (be32 a ++ (be32 (length bytes) ++ (bytes ++ (check ∷ rest))))))
      ≡ done tt (record s {
        mem = poke s.mem a bytes;
        fifo_in = rest;
        fifo_out = s.fifo_out ++ (verdict bytes check ∷ []);
      })
unfolding sc_check_usbdc check_loop check_round recv_byte dispatch
sc_check_usbdc_upload s a bytes check rest h hl ha n2 n4 =
    rw (do_upload_lem s a bytes check rest h hl ha n2 n4)

-- A download command, for an address and a length below 2^32, the length other than 2 and 4 bytes
-- and the request not that of the version, is one round, after which the loop ends, whatever
-- follows: the bytes of
-- memory asked for are sent, then their checksum, and memory is as it was.
pub sc_check_usbdc_download :
    (s : Saturn) (a len : ℕ) (rest : List ℕ)
    → IsPlainRead a len
    → sc_check_usbdc (feed s (1 ∷ (be32 a ++ (be32 len ++ rest))))
      ≡ done tt (sent (feed s rest) (peek s.mem a len ++ (sum_of (peek s.mem a len) ∷ [])))
unfolding sc_check_usbdc check_loop check_round recv_byte dispatch
sc_check_usbdc_download s a len rest h = rw (do_download_lem s a len rest h)
