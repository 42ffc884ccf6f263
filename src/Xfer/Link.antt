-- ===== src/Xfer/Link.antt =====
-- The FTDI device as src/xfer.cpp sees it. libftdi is not modelled: its answers to
-- `ftdi_write_data` and `ftdi_read_data`, in the order of the calls, are a script, and with the
-- script at its end a call does not return. A call moves no more bytes than it is asked to; while
-- it runs, the user may interrupt the program, which sets `ftdi::g_interrupt_flag`.
use ftx.Base.{ℕ, min, Bool, ◌||◌}
use ftx.Base.{List, [], ◌∷◌, ◌++◌, Option, none, some, length, take, drop, if◌then◌else◌}

-- `failed`: a negative return value. `moved n raised`: up to `n` bytes, and whether the interrupt
-- flag is raised meanwhile.
pub data Answer : Type 0 where
  failed : Answer
  moved : ℕ → Bool → Answer

-- `recv_buf` is `RecvBuf[0]`, which outlives the calls.
pub record Link : Type 0 where
  pub answers : List Answer
  pub incoming : List ℕ
  pub sent : List ℕ
  pub interrupted : Bool
  pub recv_buf : ℕ

pub data Run (A : Type 0) : Type 0 where
  value : A → Link → Run A
  hang : Run A

abbrev pub M : Type 0 → Type 0
M A = Link → Run A

abbrev pub bind : {A B : Type 0} → Run A → (A → M B) → Run B
bind (value a l) f = f a l
bind hang f = hang

infixl 5 ◌>>=◌ ◌>>◌
abbrev pub ◌>>=◌ : {A B : Type 0} → M A → (A → M B) → M B
◌>>=◌ m f l = bind (m l) f

abbrev pub ◌>>◌ : {B : Type 0} → M (Unit {0}) → M B → M B
m >> k = m >>= λ _. k

abbrev pub return : {A : Type 0} → A → M A
return a l = value a l

-- `ftdi_write_data`; `none` is a negative status.
abbrev pub answer_write : List Answer → List ℕ → M (Option ℕ)
answer_write [] bytes l = hang
answer_write (failed ∷ more) bytes l = value none (record l { answers = more })
answer_write (moved n raised ∷ more) bytes l = value (some (min n (length bytes))) (record l {
  answers = more;
  sent = l.sent ++ take (min n (length bytes)) bytes;
  interrupted = l.interrupted || raised;
})

unfoldable pub ftdi_write_data : List ℕ → M (Option ℕ)
ftdi_write_data bytes l = answer_write l.answers bytes l

-- `ftdi_read_data`: the bytes that it delivers, none of them when its status is 0.
abbrev pub answer_read : List Answer → ℕ → M (Option (List ℕ))
answer_read [] size l = hang
answer_read (failed ∷ more) size l = value none (record l { answers = more })
answer_read (moved n raised ∷ more) size l = value (some (take (min n size) l.incoming)) (record l {
  answers = more;
  incoming = drop (min n size) l.incoming;
  interrupted = l.interrupted || raised;
})

unfoldable pub ftdi_read_data : ℕ → M (Option (List ℕ))
ftdi_read_data size l = answer_read l.answers size l

-- The loop that `WriteAllToDevice`, `DoUpload` and `DoSdUpload` share: write what is left until
-- nothing is, the write fails, or the flag is raised. The result is `none` on a failure, else
-- the bytes not written. It recurs on the script, one answer to a call.
unfoldable pub write_loop : List Answer → List ℕ → M (Option (List ℕ))
write_loop answers [] l = value (some []) l
write_loop [] (b ∷ bs) l = if l.interrupted then value (some (b ∷ bs)) l else hang
write_loop (a ∷ more) (b ∷ bs) l =
    let step =
      bind (answer_write (a ∷ more) (b ∷ bs) l)
        λ rc l'. elim rc [ none ↦ value none l' | some n ↦ write_loop more (drop n (b ∷ bs)) l' ] in
    if l.interrupted then value (some (b ∷ bs)) l else step

unfoldable pub write_rest : List ℕ → M (Option (List ℕ))
write_rest bytes l = write_loop l.answers bytes l
