-- ===== src/CircBuffer.antt =====
-- The debugger's circular buffer, satcom_lib/debugger/scd_circbuffer.inc.c: `scd_data_t` holds a
-- ring of bytes with a read and a write pointer, which the Saturn writes and the PC empties.
-- Pointers into the ring are indices of `rbuffer`, which `start_address` stands for; `unsigned
-- long` is 32 bits wide and `unsigned short` 16.
mod Ring
mod Queue
mod Drain
mod Refines
mod Tests
pub use ftx.Base.Words.{u32, sub32}
use ftx.Base.{ℕ, ◌+◌, ◌-◌, ◌*◌, ◌/◌, ◌%◌, ◌^◌, List, [], ◌++◌, length, take, drop}
use ftx.Base.{◌==◌, ltb, leb, if◌then◌else◌}

-- SCD_STRUCT_SIZE - SCD_PROMPT_SIZE - 32
abbrev pub rbuffer_size : ℕ
rbuffer_size = 3072 - 256 - 32

-- The fields of `scd_data_t` that the ring uses.
pub record ScdData : Type 0 where
  pub readptr : ℕ
  pub writeptr : ℕ
  pub buffer_size : ℕ
  pub rbuffer : List ℕ

-- `memcpy` of `data` to the index `off` of `buf`, inside of `buf`.
abbrev pub memcpy : ℕ → List ℕ → List ℕ → List ℕ
memcpy off input buf = take off buf ++ (input ++ drop (off + length input) buf)

unfoldable pub scd_cbinit : ScdData → ScdData
scd_cbinit d = record d { readptr = 0; writeptr = 0; buffer_size = rbuffer_size }

unfoldable pub cb_advance : ScdData → ℕ → List ℕ → ScdData
cb_advance d datalen stored =
    let ptr = u32 (d.writeptr + datalen) in
    record d {
      writeptr = (if leb d.buffer_size ptr then sub32 ptr d.buffer_size else ptr) % 2 ^ 16;
      rbuffer = stored;
    }

-- The write up to the end of the ring and on from its start.
unfoldable pub cb_store : ScdData → List ℕ → ℕ → List ℕ
cb_store d input datalen =
    let end_space = sub32 d.buffer_size d.writeptr in
    if leb datalen end_space
    then memcpy d.writeptr (take datalen input) d.rbuffer
    else memcpy 0 (take (sub32 datalen end_space) (drop end_space input))
        (memcpy d.writeptr (take end_space input) d.rbuffer)

unfoldable pub scd_cbwrite : List ℕ → ℕ → ScdData → ScdData
scd_cbwrite input datalen d =
    if leb d.readptr d.writeptr
    then if ltb (sub32 (u32 (sub32 d.buffer_size d.writeptr + d.readptr)) 1) (u32 (datalen + 1))
      then d
      else cb_advance d datalen (cb_store d input datalen)
    else if ltb (sub32 (sub32 d.readptr d.writeptr) 1) (u32 (datalen + 1))
    then d
    else cb_advance d datalen (memcpy d.writeptr (take datalen input) d.rbuffer)

unfoldable pub cb_scale : ScdData → ℕ → ℕ
cb_scale d free =
    let ret = u32 (free * 2 ^ 7) in if d.buffer_size == 0 then ret else ret / d.buffer_size

unfoldable pub scd_cbmemuse : ScdData → ℕ
scd_cbmemuse d =
    let ret =
      if d.writeptr == d.readptr
      then 0
      else if leb d.readptr d.writeptr
      then cb_scale d (sub32 (u32 (sub32 d.buffer_size d.writeptr + d.readptr)) 1)
      else cb_scale d (sub32 (sub32 d.readptr d.writeptr) 1) in
    sub32 128 ret % 2 ^ 8

-- The bytes read, `read_size` of them, and the structure after it.
unfoldable pub scd_cbread : ScdData → List ℕ × ScdData
scd_cbread d =
    let emptied : ScdData = record d { readptr = d.writeptr } in
    if d.writeptr == d.readptr
    then ([], d)
    else if ltb d.readptr d.writeptr
    then (take (sub32 d.writeptr d.readptr) (drop d.readptr d.rbuffer), emptied)
    else (
      take (sub32 d.buffer_size d.readptr) (drop d.readptr d.rbuffer) ++ take d.writeptr d.rbuffer,
      emptied,
    )
