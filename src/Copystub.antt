-- ===== src/Copystub.antt =====
-- The stub that moves a program in place and starts it, satcom_lib/copystub/copystub.c. It clears
-- the RAM around the program where the soft reset's flags ask for it. A pointer is a number below
-- 2^32, memory a function of it. The two `while` loops are on fuel, and `none` is fuel run out.
mod Move
mod Clear
mod Tests
pub use ftx.Base.Words.{u32, sub32}
use ftx.Base.{ℕ, zero, suc, ◌+◌, ◌-◌, ◌%◌, ◌^◌, Bool, true, false, ◌&&◌, not}
use ftx.Base.{Option, none, some, ◌==◌, ltb, if◌then◌else◌, bit_and}

abbrev pub Memory : Type 0
Memory = ℕ → ℕ

abbrev pub store : Memory → ℕ → ℕ → Memory
store mem a v x = if x == a then v else mem x

abbrev pub hram_stt : ℕ
hram_stt = 0x06004000

abbrev pub hram_end : ℕ
hram_end = 0x06100000

abbrev pub lram_stt : ℕ
lram_stt = 0x00200000

abbrev pub copystub_start_adress : ℕ
copystub_start_adress = 0x002FF800

abbrev pub lram_end : ℕ
lram_end = copystub_start_adress

-- SC_SOFTRES_LRAM and SC_SOFTRES_HRAM
abbrev pub softres_lram : ℕ
softres_lram = 2 ^ 1

abbrev pub softres_hram : ℕ
softres_hram = 2 ^ 0

abbrev pub clamp : ℕ → ℕ → ℕ → ℕ
clamp x low high = if ltb high x then high else if ltb x low then low else x

unfoldable pub copy_backward : ℕ → Memory → ℕ → ℕ → ℕ → Option Memory
copy_backward zero mem ptr1 ptr2 dst_stt = none
copy_backward (suc fuel) mem ptr1 ptr2 dst_stt =
    let rest =
      copy_backward fuel (store mem ptr2 (mem ptr1)) (sub32 ptr1 1) (sub32 ptr2 1) dst_stt in
    if u32 (ptr2 + 1) == dst_stt then some mem else rest

unfoldable pub copy_forward : ℕ → Memory → ℕ → ℕ → ℕ → Option Memory
copy_forward zero mem ptr1 ptr2 dst_end = none
copy_forward (suc fuel) mem ptr1 ptr2 dst_end =
    let rest =
      copy_forward fuel (store mem ptr2 (mem ptr1)) (u32 (ptr1 + 1)) (u32 (ptr2 + 1)) dst_end in
    if ptr2 == dst_end then some mem else rest

unfoldable pub copy_program : Memory → ℕ → ℕ → ℕ → Option Memory
copy_program mem src_stt len dst_stt =
    let dst_end = u32 (dst_stt + len) in
    if src_stt == dst_stt
    then some mem
    else if ltb src_stt dst_stt && ltb dst_stt (u32 (src_stt + len))
    then copy_backward (suc len) mem (sub32 (u32 (src_stt + len)) 1) (sub32 dst_end 1) dst_stt
    else copy_forward (suc len) mem src_stt dst_stt dst_end

-- for(length = ...; length; length--) *(ptr1++) = 0;
unfoldable pub erase : ℕ → ℕ → Memory → Memory
erase zero ptr1 mem = mem
erase (suc n) ptr1 mem = erase n (u32 (ptr1 + 1)) (store mem ptr1 0)

unfoldable pub erase_stt : Bool → Bool → ℕ → ℕ
erase_stt false false dst_end = lram_stt
erase_stt false true dst_end = clamp dst_end lram_stt lram_end
erase_stt true false dst_end = hram_stt
erase_stt true true dst_end = clamp dst_end hram_stt hram_end

unfoldable pub erase_end : Bool → Bool → ℕ → ℕ
erase_end false false dst_stt = clamp dst_stt lram_stt lram_end
erase_end false true dst_stt = lram_end
erase_end true false dst_stt = clamp dst_stt hram_stt hram_end
erase_end true true dst_stt = hram_end

-- One turn of the loops on `i` (which RAM) and `j` (which end of it), `false` for 0.
unfoldable pub erase_zone : Bool → Bool → Bool → ℕ → ℕ → Memory → Memory
erase_zone ram_clear i j dst_stt dst_end mem =
    let stt = erase_stt i j dst_end in
    if ram_clear then erase (sub32 (erase_end i j dst_stt) stt) stt mem else mem

unfoldable pub clear_ram : ℕ → ℕ → ℕ → Memory → Memory
clear_ram softres_flags dst_stt dst_end mem =
    let lram = not (bit_and softres_flags softres_lram == 0) in
    let hram = not (bit_and softres_flags softres_hram == 0) in
    let mem1 = erase_zone lram false false dst_stt dst_end mem in
    let mem2 = erase_zone lram false true dst_stt dst_end mem1 in
    let mem3 = erase_zone hram true false dst_stt dst_end mem2 in
    erase_zone hram true true dst_stt dst_end mem3

-- The memory when the program is called, and the address called.
unfoldable pub launch : ℕ → ℕ → ℕ → Option Memory → Option (Memory × ℕ)
launch softres_flags len dst_stt none = none
launch softres_flags len dst_stt (some mem) =
    some (clear_ram softres_flags dst_stt (u32 (dst_stt + len)) mem, dst_stt)

unfoldable pub copystub_main : ℕ → Memory → ℕ → ℕ → ℕ → Option (Memory × ℕ)
copystub_main softres_flags mem src_stt len dst_stt =
    launch softres_flags len dst_stt (copy_program mem src_stt len dst_stt)
