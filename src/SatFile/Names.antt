-- ===== src/SatFile/Names.antt =====
-- Paths and names of files, as C strings: lists of characters that a null character ends. Behind
-- its end a list reads as null characters.
use ftx.Base.{ℕ, zero, suc, ◌-◌, Bool, ◌&&◌, ◌||◌, List, [], ◌∷◌, ◌++◌}
use ftx.Base.{length, get_or, take, drop, replicate, ltb, ◌==◌, if◌then◌else◌}
use ftx.RomFs.{sc_toupper}

-- `SC_PATHNAME_MAXLEN`
abbrev pub pathname_maxlen : ℕ
pathname_maxlen = 96

abbrev pub is_slash : ℕ → Bool
is_slash c = (c == 47) || (c == 92)

abbrev pub to_slash : ℕ → ℕ
to_slash c = if c == 92 then 47 else c

-- `for(i=0; i<SC_PATHNAME_MAXLEN; i++)`, with the rounds left: what is copied, the null character
-- included where the string ends.
unfoldable pub copy_name : ℕ → List ℕ → List ℕ
copy_name zero name = []
copy_name (suc rounds) [] = 0 ∷ []
copy_name (suc rounds) (c ∷ cs) =
    let rest = copy_name rounds cs in if c == 0 then 0 ∷ [] else to_slash c ∷ rest

-- `filename_buff` behind the call.
unfoldable pub scf_filename_bufferize : List ℕ → List ℕ
scf_filename_bufferize filename =
    let copied = copy_name pathname_maxlen filename in
    let all = copied ++ replicate (pathname_maxlen - length copied) 0 in
    take (pathname_maxlen - 1) all ++ (0 ∷ [])

-- `strlen`
abbrev pub strlen : List ℕ → ℕ
strlen [] = 0
strlen (c ∷ cs) = if c == 0 then 0 else suc (strlen cs)

-- `for(i=0; i<(n-1); i++)`, with the rounds left: where the pointer that is returned points, as
-- the characters from there on.
unfoldable pub filename_loop : ℕ → List ℕ → List ℕ → List ℕ
filename_loop zero rest found = found
filename_loop (suc rounds) [] found = found
filename_loop (suc rounds) (c ∷ cs) found =
    filename_loop rounds cs (if is_slash c then cs else found)

unfoldable pub scf_get_filename : List ℕ → List ℕ
scf_get_filename path = filename_loop (strlen path - 1) path path

-- `path[i] = '/'` for each slash and backslash of the string, given without its end.
unfoldable pub fix_slashes : List ℕ → List ℕ
fix_slashes [] = []
fix_slashes (c ∷ cs) = (if is_slash c then 47 else c) ∷ fix_slashes cs

-- What is left of the string when its end is put at `path[n-1]`, if that is a slash.
unfoldable pub drop_last_slash : List ℕ → List ℕ
drop_last_slash path =
    let n = length path in if get_or path (n - 1) 0 == 47 then take (n - 1) path else path

-- `for(i=n-1; i>=0; i--)`, with `i + 1`.
unfoldable pub cut_at_slash : ℕ → List ℕ → List ℕ
cut_at_slash zero path = path
cut_at_slash (suc i) path =
    let rest = cut_at_slash i path in
    if get_or path i 0 == 47 then take i path else if i == 0 then [] else rest

-- The string that is left in `path`.
unfoldable pub scf_parent_path : List ℕ → List ℕ
scf_parent_path path =
    let fixed = drop_last_slash (fix_slashes (take (strlen path) path)) in
    cut_at_slash (length fixed) fixed

-- The characters of an extension: at most three, up to the end of the string.
unfoldable pub extension : ℕ → List ℕ → List ℕ
extension zero str = []
extension (suc rounds) [] = []
extension (suc rounds) (c ∷ cs) =
    let rest = extension rounds cs in if c == 0 then [] else sc_toupper c ∷ rest

-- `for(i=0; i<4; i++)`: the characters behind the next dot, or behind four.
unfoldable pub behind_dot : ℕ → List ℕ → List ℕ
behind_dot zero str = str
behind_dot (suc rounds) [] = []
behind_dot (suc rounds) (c ∷ cs) = let rest = behind_dot rounds cs in if c == 46 then cs else rest

unfoldable pub scf_compare_extension : List ℕ → List ℕ → Bool
scf_compare_extension str ext =
    let i = strlen str in
    let e1 = extension 3 (behind_dot 4 (if ltb 4 i then drop (i - 4) str else str)) in
    let e2 = extension 3 (if get_or ext 0 0 == 46 then drop 1 ext else ext) in
    (get_or e1 0 0 == get_or e2 0 0)
    && ((get_or e1 1 0 == get_or e2 1 0) && (get_or e1 2 0 == get_or e2 2 0))
