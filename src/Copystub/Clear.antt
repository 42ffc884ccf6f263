-- ===== src/Copystub/Clear.antt =====
-- What the stub clears: the RAM that the flags name, less the program just moved.
use mathlib.Core.Path.{fun_ext}
use ftx.Base.{ℕ, zero, suc, ◌+◌, ◌-◌, ◌^◌, ◌≤◌, ◌<◌, ◌≡◌, refl, ap, ◌∙◌, arith}
use ftx.Base.{Bool, true, false, ◌&&◌, ◌||◌, not, some, ◌==◌, ltb, leb, if◌then◌else◌, bit_and}
use ftx.Copystub.{
  Memory, store, u32, sub32, clamp, erase, erase_stt, erase_end, erase_zone, clear_ram,
}
use ftx.Copystub.{lram_stt, lram_end, hram_stt, hram_end, softres_lram, softres_hram}
use ftx.Copystub.{launch, copystub_main}
use ftx.Copystub.Move.{moved, copy_program-moved}

abbrev pub inside : ℕ → ℕ → ℕ → Bool
inside a stt end = leb stt a && ltb a end

if_twice :
    (b c : Bool) (x y : ℕ) → (if b then x else if c then x else y) ≡ (if b || c then x else y)
if_twice true c x y = refl
if_twice false c x y = refl

regroup :
    (hram lram in_hram in_lram in_program : Bool)
    → hram && (in_hram && not in_program) || lram && (in_lram && not in_program)
      ≡ not in_program && (lram && in_lram || hram && in_hram)
regroup hram lram in_hram in_lram in_program = ground arith

erase_lem :
    (n stt : ℕ) (mem : Memory) (a : ℕ)
    → stt + n < 2 ^ 32
    → erase n stt mem a ≡ (if inside a stt (stt + n) then 0 else mem a)
unfolding erase
erase_lem zero stt mem a h = ground arith
erase_lem (suc n) stt mem a h =
    let e : u32 (stt + 1) ≡ stt + 1 = omega arith in
    rw (e, erase_lem n (stt + 1) (store mem stt 0) a (omega arith)) (ground arith)

erase_between :
    (lo hi : ℕ) (mem : Memory) (a : ℕ)
    → lo ≤ hi
    → hi < 2 ^ 32
    → erase (sub32 hi lo) lo mem a ≡ (if inside a lo hi then 0 else mem a)
erase_between lo hi mem a h k =
    let e : sub32 hi lo ≡ hi - lo = omega arith in
    let f : lo + (hi - lo) ≡ hi = omega arith in
    rw e (rw (erase_lem (hi - lo) lo mem a (omega arith), f) refl)

-- The two zones of a RAM: what lies in it below the program, and above it.
module _ (lo hi dst_stt dst_end : ℕ) (range : lo < hi) (order : dst_stt ≤ dst_end) where
  both_zones :
      (a : ℕ)
      → inside a (clamp dst_end lo hi) hi || inside a lo (clamp dst_stt lo hi)
        ≡ inside a lo hi && not (inside a dst_stt dst_end)
  both_zones a = ground arith

  clamp_bounds : (x : ℕ) → (lo ≤ clamp x lo hi) × (clamp x lo hi ≤ hi)
  clamp_bounds x = (ground arith, ground arith)

  zones :
      hi < 2 ^ 32
      → (mem : Memory) (a : ℕ)
      → erase
          (sub32 hi (clamp dst_end lo hi))
          (clamp dst_end lo hi)
          (erase (sub32 (clamp dst_stt lo hi) lo) lo mem)
          a
        ≡ (if inside a lo hi && not (inside a dst_stt dst_end) then 0 else mem a)
  zones fits mem a =
      let c = clamp dst_stt lo hi in
      let d = clamp dst_end lo hi in
      erase_between d hi (erase (sub32 c lo) lo mem) a (clamp_bounds dst_end).1 fits
      ∙ ap (λ n. if inside a d hi then 0 else n)
          (erase_between lo c mem a (clamp_bounds dst_stt).0
            (omega (arith, (clamp_bounds dst_stt).1)))
      ∙ if_twice (inside a d hi) (inside a lo c) 0 (mem a)
      ∙ ap (λ b. if b then 0 else mem a) (both_zones a)

module _ (dst_stt dst_end : ℕ) (order : dst_stt ≤ dst_end) where
  lram_zones :
      (on : Bool) (mem : Memory) (a : ℕ)
      → erase_zone on false true dst_stt dst_end (erase_zone on false false dst_stt dst_end mem) a
        ≡ (if on && (inside a lram_stt lram_end && not (inside a dst_stt dst_end))
            then 0
            else mem a)
  unfolding erase_zone erase_stt erase_end
  lram_zones false mem a = refl
  lram_zones true mem a =
      zones lram_stt lram_end dst_stt dst_end (omega arith) order (omega arith) mem a

  hram_zones :
      (on : Bool) (mem : Memory) (a : ℕ)
      → erase_zone on true true dst_stt dst_end (erase_zone on true false dst_stt dst_end mem) a ≡ (
          if on && (inside a hram_stt hram_end && not (inside a dst_stt dst_end)) then 0 else mem a)
  unfolding erase_zone erase_stt erase_end
  hram_zones false mem a = refl
  hram_zones true mem a =
      zones hram_stt hram_end dst_stt dst_end (omega arith) order (omega arith) mem a

module _ (flags len dst_stt : ℕ) where
  -- Cleared: in a RAM that the flags name, outside of the program.
  unfoldable pub cleared : ℕ → Bool
  cleared a =
      not (inside a dst_stt (dst_stt + len))
      && ((not (bit_and flags softres_lram == 0) && inside a lram_stt lram_end)
          || (not (bit_and flags softres_hram == 0) && inside a hram_stt hram_end))

  clear_ram_lem :
      (mem : Memory)
      → dst_stt + len < 2 ^ 32
      → (a : ℕ) → clear_ram flags dst_stt (dst_stt + len) mem a ≡ (if cleared a then 0 else mem a)
  unfolding clear_ram cleared
  clear_ram_lem mem fits a =
      let lram = not (bit_and flags softres_lram == 0) in
      let hram = not (bit_and flags softres_hram == 0) in
      hram_zones dst_stt (dst_stt + len) (omega arith) hram _ a
      ∙ ap
          (λ n.
            if hram && (inside a hram_stt hram_end && not (inside a dst_stt (dst_stt + len)))
            then 0
            else n)
          (lram_zones dst_stt (dst_stt + len) (omega arith) lram mem a)
      ∙ if_twice _ _ 0 (mem a)
      ∙ ap (λ b. if b then 0 else mem a)
          (regroup hram lram (inside a hram_stt hram_end) (inside a lram_stt lram_end)
            (inside a dst_stt (dst_stt + len)))

-- The program stands at `dst_stt` as it stood at `src_stt`, whether or not the two overlap; what
-- the flags name of the high and the low RAM is 0 outside of it; all other memory is as it was;
-- and the program is called. Both ranges end below 2^32.
pub copystub_main_lem :
    (flags : ℕ) (mem : Memory) (src_stt len dst_stt : ℕ)
    → src_stt + len < 2 ^ 32
    → dst_stt + len < 2 ^ 32
    → copystub_main flags mem src_stt len dst_stt
      ≡ some (
        (λ a. if cleared flags len dst_stt a then 0 else moved mem src_stt len dst_stt a),
        dst_stt,
      )
unfolding copystub_main launch
copystub_main_lem flags mem src_stt len dst_stt fits fits' =
    let e : u32 (dst_stt + len) ≡ dst_stt + len = omega arith in
    rw (copy_program-moved mem src_stt len dst_stt fits fits', e)
      (ap (λ m. some (m, dst_stt))
        (fun_ext (clear_ram_lem flags len dst_stt (moved mem src_stt len dst_stt) fits')))
