-- ===== src/Usbdc/Machine.antt =====
-- What the USB handlers of satcom_lib/sc_saturn.c act on: the Saturn's memory, the two ends of
-- the USB FIFO, the fields of `sc_internal_t` that they read, and a log of the control transfers
-- out of them. `recv_byte` and `send_byte` are `RecvByte` and `SendByte`: the first waits for a
-- byte, and with no byte to come it waits for ever.
use ftx.Base.{ℕ, zero, suc, ◌+◌, ◌*◌, ◌/◌, ◌%◌, ◌^◌, Bool, List, [], ◌∷◌, ◌++◌}
use ftx.Base.{◌==◌, if◌then◌else◌, bit_and, bit_or}

-- What a handler hands control to: the soft reset callback, a program's entry point, or
-- `sc_execute` with its four arguments.
pub data Event : Type 0 where
  soft_reset : ℕ → Event
  call : ℕ → Event
  execute : ℕ → ℕ → ℕ → ℕ → Event

abbrev pub Memory : Type 0
Memory = ℕ → ℕ

pub record Saturn : Type 0 where
  pub mem : Memory
  pub fifo_in : List ℕ
  pub fifo_out : List ℕ
  pub exec_buffer : ℕ
  pub rw4_buffer : ℕ
  pub has_soft_reset : Bool
  pub events : List Event

-- `waiting`: a `while` on the USB flags that no byte ends. `stuck`: a loop's fuel ran out, which
-- is no outcome of the code.
pub data Outcome (A : Type 0) : Type 0 where
  done : A → Saturn → Outcome A
  waiting : Outcome A
  stuck : Outcome A

abbrev pub M : Type 0 → Type 0
M A = Saturn → Outcome A

abbrev pub bind : {A B : Type 0} → Outcome A → (A → M B) → Outcome B
bind (done a s) f = f a s
bind waiting f = waiting
bind stuck f = stuck

infixl 5 ◌>>=◌ ◌>>◌
abbrev pub ◌>>=◌ : {A B : Type 0} → M A → (A → M B) → M B
◌>>=◌ m f s = bind (m s) f

abbrev pub ◌>>◌ : {B : Type 0} → M (Unit {0}) → M B → M B
m >> k = m >>= λ _. k

abbrev pub return : {A : Type 0} → A → M A
return a s = done a s

abbrev pub update : Memory → ℕ → ℕ → Memory
update mem a v x = if x == a then v else mem x

-- `len` bytes from `a` on; an address is 32 bits wide.
abbrev pub peek : Memory → ℕ → ℕ → List ℕ
peek mem a zero = []
peek mem a (suc n) = mem a ∷ peek mem ((a + 1) % 2 ^ 32) n

abbrev pub poke : Memory → ℕ → List ℕ → Memory
poke mem a [] = mem
poke mem a (b ∷ bs) = poke (update mem a b) ((a + 1) % 2 ^ 32) bs

abbrev pub take_byte : List ℕ → M ℕ
take_byte [] s = waiting
take_byte (b ∷ rest) s = done b (record s { fifo_in = rest })

unfoldable pub recv_byte : M ℕ
recv_byte s = take_byte s.fifo_in s

unfoldable pub send_byte : ℕ → M (Unit {0})
send_byte b s = done tt (record s { fifo_out = s.fifo_out ++ (b ∷ []) })

-- `(tmp << 8) | byte` on 32 bits.
unfoldable pub shift_in : ℕ → ℕ → ℕ
shift_in tmp byte = bit_or (tmp * 2 ^ 8 % 2 ^ 32) byte

unfoldable pub recv_dword : M ℕ
recv_dword = do
  a ← recv_byte
  b ← recv_byte
  c ← recv_byte
  d ← recv_byte
  return (shift_in (shift_in (shift_in a b) c) d)

unfoldable pub send_dword : ℕ → M (Unit {0})
send_dword value = do
  send_byte (bit_and (value / 2 ^ 24) 0xff)
  send_byte (bit_and (value / 2 ^ 16) 0xff)
  send_byte (bit_and (value / 2 ^ 8) 0xff)
  send_byte (bit_and (value / 2 ^ 0) 0xff)

-- `for(ii = 0; ii < len; ++ii) pData[ii] = USB_FIFO;`
unfoldable pub recv_into : ℕ → ℕ → M (Unit {0})
recv_into zero a = return tt
recv_into (suc left) a = do
  b ← recv_byte
  λ s. recv_into left ((a + 1) % 2 ^ 32) (record s { mem = update s.mem a b })

-- `for(ii = 0; ii < len; ++ii) USB_FIFO = pData[ii];`
unfoldable pub send_all : List ℕ → M (Unit {0})
send_all [] = return tt
send_all (b ∷ bs) = do send_byte b; send_all bs
