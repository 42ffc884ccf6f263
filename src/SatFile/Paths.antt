-- ===== src/SatFile/Paths.antt =====
-- What `scf_filename_bufferize` keeps of a path, and that `scf_parent_path` and `scf_get_filename`
-- take a path apart.
use ftx.Base.{ℕ, zero, suc, ◌+◌, ◌-◌, ◌≤◌, ◌≡◌, ◌≢◌, refl, sym, ap, ◌∙◌, arith}
use ftx.Base.{true, false, List, [], ◌∷◌, ◌++◌, length, All, get_or, append_assoc}
use ftx.Base.{
  eqb_of_ne, ◌==◌, if◌then◌else◌, take-length-append, length-append, get_or-append_right,
  All-append,
}
use ftx.SatFile.Names.{is_slash, strlen}
use ftx.SatFile.Names.{
  filename_loop, scf_get_filename, fix_slashes, drop_last_slash, cut_at_slash, scf_parent_path,
}

-- The characters of a C string, and those that are no slash either way.
abbrev pub IsChar : ℕ → Type 0
IsChar c = c ≢ 0

abbrev pub IsPlain : ℕ → Type 0
IsPlain c = is_slash c ≡ false

pub strlen-append :
    (name more : List ℕ) → All IsChar name → strlen (name ++ (0 ∷ more)) ≡ length name
strlen-append [] more h = refl
strlen-append (c ∷ cs) more h =
    let e : (c == 0) ≡ false = eqb_of_ne c 0 h.0 in rw e (ap suc (strlen-append cs more h.1))

-- No slash among the characters passed: nothing is found.
filename_loop-plain :
    (n : ℕ) (name more found : List ℕ)
    → All IsPlain name
    → n ≤ length name
    → filename_loop n (name ++ more) found ≡ found
unfolding filename_loop
filename_loop-plain zero name more found h le = refl
filename_loop-plain (suc n) [] more found h le = absurd (omega arith)
filename_loop-plain (suc n) (c ∷ cs) more found h le =
    rw h.0 (filename_loop-plain n cs more found h.1 (omega arith))

filename_loop-last :
    (dir name more found : List ℕ) (slash n : ℕ)
    → is_slash slash ≡ true
    → All IsPlain name
    → length name ≡ suc n
    → filename_loop (length dir + suc n) (dir ++ (slash ∷ (name ++ more))) found ≡ name ++ more
unfolding filename_loop
filename_loop-last [] name more found slash n s h len =
    let e : 0 + suc n ≡ suc n = omega arith in
    rw e (rw s (filename_loop-plain n name more (name ++ more) h (omega arith)))
filename_loop-last (c ∷ dir) name more found slash n s h len =
    let e : suc (length dir) + suc n ≡ suc (length dir + suc n) = omega arith in
    rw e (filename_loop-last dir name more _ slash n s h len)

fix_slashes-append : (a b : List ℕ) → fix_slashes (a ++ b) ≡ fix_slashes a ++ fix_slashes b
unfolding fix_slashes
fix_slashes-append [] b = refl
fix_slashes-append (c ∷ a) b = ap (λ l. (if is_slash c then 47 else c) ∷ l) (fix_slashes-append a b)

fix_slashes-plain : (name : List ℕ) → All IsPlain name → fix_slashes name ≡ name
unfolding fix_slashes
fix_slashes-plain [] h = refl
fix_slashes-plain (c ∷ cs) h = rw h.0 (ap (λ l. c ∷ l) (fix_slashes-plain cs h.1))

plain_not : (c : ℕ) → IsPlain c → (c == 47) ≡ false
plain_not c h = ground arith

-- A character of a name without slashes is none.
plain_at : (name : List ℕ) (i : ℕ) → All IsPlain name → (get_or name i 0 == 47) ≡ false
plain_at [] i h = refl
plain_at (c ∷ cs) zero h = plain_not c h.0
plain_at (c ∷ cs) (suc i) h = plain_at cs i h.1

name_at :
    (dir name : List ℕ) (k : ℕ)
    → get_or (dir ++ (47 ∷ name)) (suc (length dir + k)) 0 ≡ get_or name k 0
name_at dir name k =
    let e : suc (length dir + k) - length dir ≡ suc k = omega arith in
    get_or-append_right dir (47 ∷ name) (suc (length dir + k)) 0 (omega arith)
    ∙ ap (λ i. get_or (47 ∷ name) i 0) e

slash_at : (dir name : List ℕ) → get_or (dir ++ (47 ∷ name)) (length dir) 0 ≡ 47
slash_at dir name =
    let e : length dir - length dir ≡ 0 = omega arith in
    get_or-append_right dir (47 ∷ name) (length dir) 0 (omega arith)
    ∙ ap (λ i. get_or (47 ∷ name) i 0) e

cut_at_slash-append :
    (k : ℕ) (dir name : List ℕ)
    → All IsPlain name
    → cut_at_slash (suc (length dir + k)) (dir ++ (47 ∷ name)) ≡ dir
unfolding cut_at_slash
cut_at_slash-append zero dir name h =
    let e : length dir + 0 ≡ length dir = omega arith in
    rw e (rw (slash_at dir name) (take-length-append dir (47 ∷ name)))
cut_at_slash-append (suc k) dir name h =
    let e : length dir + suc k ≡ suc (length dir + k) = omega arith in
    let not_here : (get_or (dir ++ (47 ∷ name)) (suc (length dir + k)) 0 == 47) ≡ false =
      ap (λ c. c == 47) (name_at dir name k) ∙ plain_at name k h in
    let not_first : (suc (length dir + k) == 0) ≡ false =
      eqb_of_ne (suc (length dir + k)) 0 (λ z. absurd (omega arith)) in
    rw e (rw not_here (rw not_first (cut_at_slash-append k dir name h)))

slash_char : (slash : ℕ) → is_slash slash ≡ true → IsChar slash
slash_char slash h z = ground arith

-- The parts of a path of a folder, a slash or backslash, and a name.
module _ (dir name more : List ℕ) (slash n : ℕ) (s : is_slash slash ≡ true)
    (dir_chars : All IsChar dir) (name_chars : All IsChar name) (plain : All IsPlain name)
    (len : length name ≡ suc n) where
  abbrev path : List ℕ
  path = dir ++ (slash ∷ name)

  joined : dir ++ (slash ∷ (name ++ (0 ∷ more))) ≡ path ++ (0 ∷ more)
  joined = sym (append_assoc dir (slash ∷ name) (0 ∷ more))

  path_len : length path ≡ suc (length dir + suc n)
  path_len = length-append dir (slash ∷ name) ∙ omega (arith, len)

  path_chars_len : strlen (path ++ (0 ∷ more)) ≡ length path
  path_chars_len =
      strlen-append path more
        (All-append IsChar dir (slash ∷ name) dir_chars (slash_char slash s, name_chars))

  get_filename_part : scf_get_filename (path ++ (0 ∷ more)) ≡ name ++ (0 ∷ more)
  unfolding scf_get_filename
  get_filename_part =
      let e : length path - 1 ≡ length dir + suc n = omega (arith, path_len) in
      rw path_chars_len
        (rw e (rw⁻¹ joined (filename_loop-last dir name (0 ∷ more) _ slash n s plain len)))

  last_kept : drop_last_slash (fix_slashes dir ++ (47 ∷ name)) ≡ fix_slashes dir ++ (47 ∷ name)
  unfolding drop_last_slash
  last_kept =
      let d = fix_slashes dir in
      let e : length (d ++ (47 ∷ name)) - 1 ≡ suc (length d + n) =
        omega (arith, length-append d (47 ∷ name), len) in
      rw e (rw (name_at d name n) (rw (plain_at name n plain) refl))

  slash_first : fix_slashes (slash ∷ name) ≡ 47 ∷ name
  unfolding fix_slashes
  slash_first = rw s (ap (λ l. 47 ∷ l) (fix_slashes-plain name plain))

  parent_path_part : scf_parent_path (path ++ (0 ∷ more)) ≡ fix_slashes dir
  unfolding scf_parent_path
  parent_path_part =
      let d = fix_slashes dir in
      let fixed : fix_slashes path ≡ d ++ (47 ∷ name) =
        fix_slashes-append dir (slash ∷ name) ∙ ap (λ l. d ++ l) slash_first in
      let e : length (d ++ (47 ∷ name)) ≡ suc (length d + suc n) =
        length-append d (47 ∷ name) ∙ omega (arith, len) in
      rw path_chars_len (
        rw (take-length-append path (0 ∷ more))
          (rw fixed (rw last_kept (rw e (cut_at_slash-append (suc n) d name plain)))))

-- A path of a folder, a slash or backslash, and a name that is not empty and has neither:
-- `scf_get_filename` points to the name, and `scf_parent_path` leaves the folder, with slashes for
-- its backslashes.
pub scf_get_filename-scf_parent_path :
    (dir name more : List ℕ) (slash n : ℕ)
    → is_slash slash ≡ true
    → All IsChar dir
    → All IsChar name
    → All IsPlain name
    → length name ≡ suc n
    → let path = dir ++ (slash ∷ (name ++ (0 ∷ more))) in
      (scf_get_filename path ≡ name ++ (0 ∷ more)) × (scf_parent_path path ≡ fix_slashes dir)
scf_get_filename-scf_parent_path dir name more slash n s dir_chars name_chars plain len =
    rw (joined dir name more slash n s dir_chars name_chars plain len) (
      get_filename_part dir name more slash n s dir_chars name_chars plain len,
      parent_path_part dir name more slash n s dir_chars name_chars plain len,
    )
