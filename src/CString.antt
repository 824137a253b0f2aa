-- ===== src/CString.antt =====
-- lib/string.c. A string is the list of its characters, none of which is 0; the null character that
-- ends it is not in the list. A pointer into a string is the number of characters before it; a
-- null pointer is `none`.
pub mod Compare
pub mod Token
pub mod Search
pub mod Copy
use oscourse_all_files.Common.{
  ℕ, zero, suc, ◌+◌, ◌-◌, ◌≤◌, ◌<◌, Bool, true, false, not, ◌&&◌, Option, none, some, List, [], ◌∷◌,
  ◌++◌, ltb, leb, ◌==◌, if◌then◌else◌, length, get_or, set, take, drop, All,
}

-- The sign of an `int` that compares.
pub data Sign : Type 0 where
  less equal greater : Sign

-- What a pointer to the characters left points to.
abbrev pub deref : List ℕ → ℕ
deref s = get_or s 0 0

abbrev pub differ_by : ℕ → ℕ → Sign
differ_by x y = if ltb x y then less else (if ltb y x then greater else equal)

-- The loop of `memcmp` with `size` bytes left.
pub memcmp : List ℕ → List ℕ → ℕ → Sign
memcmp a b zero = equal
memcmp a b (suc size) =
    let rest = memcmp (drop 1 a) (drop 1 b) size in
    if deref a == deref b then rest else (if ltb (deref b) (deref a) then greater else less)

pub strcmp : List ℕ → List ℕ → Sign
strcmp [] b = differ_by 0 (deref b)
strcmp (x ∷ a) b =
    let rest = strcmp a (drop 1 b) in
    if not (x == 0) && (x == deref b) then rest else differ_by x (deref b)

-- One character further.
abbrev pub further : Option ℕ → Option ℕ
further none = none
further (some i) = some (suc i)

abbrev pub is_found : Option ℕ → Bool
is_found none = false
is_found (some i) = true

pub memchr : List ℕ → ℕ → ℕ → Option ℕ
memchr block ch zero = none
memchr block ch (suc size) =
    let rest = memchr (drop 1 block) ch size in if deref block == ch then some 0 else further rest

pub strchr : List ℕ → ℕ → Option ℕ
strchr [] c = if 0 == c then some 0 else none
strchr (x ∷ string) c = let rest = strchr string c in if x == c then some 0 else further rest

pub strcspn : List ℕ → List ℕ → ℕ
strcspn [] stop = 0
strcspn (x ∷ string) stop =
    let rest = strcspn string stop in if is_found (strchr stop x) then 0 else suc rest

pub strspn : List ℕ → List ℕ → ℕ
strspn [] skip = 0
strspn (x ∷ string) skip =
    let rest = strspn string skip in if is_found (strchr skip x) then suc rest else 0

pub strpbrk : List ℕ → List ℕ → Option ℕ
strpbrk [] stop = none
strpbrk (x ∷ string) stop =
    let rest = strpbrk string stop in if is_found (strchr stop x) then some 0 else further rest

unfoldable pub strlen : List ℕ → ℕ
strlen string = length string

-- The loops of `strtok_r`: over the delimiters, and over the token.
pub skip_delimiters : List ℕ → List ℕ → List ℕ
skip_delimiters delimiters [] = []
skip_delimiters delimiters (x ∷ s) =
    let rest = skip_delimiters delimiters s in
    if is_found (strchr delimiters x) then rest else x ∷ s

pub split_token : List ℕ → List ℕ → List ℕ × List ℕ
split_token delimiters [] = ([], [])
split_token delimiters (x ∷ s) =
    let (token, rest) = split_token delimiters s in
    if is_found (strchr delimiters x) then ([], x ∷ s) else (x ∷ token, rest)

-- What the pointer is that is saved at the end of a token.
abbrev pub after_token : List ℕ → List ℕ
after_token [] = []
after_token (x ∷ s) = s

-- `strtok_r` after the delimiters at the start are skipped.
pub next_token : List ℕ → List ℕ → Option (List ℕ) × List ℕ
next_token delimiters [] = (none, [])
next_token delimiters (x ∷ s) =
    let (token, rest) = split_token delimiters (x ∷ s) in (some token, after_token rest)

-- `s` is the string, or the rest of it that `*save_ptr` points to. The token, and the new rest.
pub strtok_r : List ℕ → List ℕ → Option (List ℕ) × List ℕ
strtok_r s delimiters = next_token delimiters (skip_delimiters delimiters s)

-- How much `strlcpy` copies, for a size above 0.
abbrev pub copied : ℕ → ℕ → ℕ
copied src_len size = if ltb src_len (size - 1) then src_len else size - 1

-- `dst` is the memory from the pointer on. The length of the source, and the memory afterwards.
pub strlcpy : List ℕ → List ℕ → ℕ → ℕ × List ℕ
strlcpy dst src size =
    let src_len = strlen src in
    let dst_len = copied src_len size in
    if size == 0
    then (src_len, dst)
    else (src_len, set (take dst_len src ++ drop dst_len dst) dst_len 0)

-- The loop of `strnlen`.
pub strnlen : List ℕ → ℕ → ℕ
strnlen [] maxlen = 0
strnlen (x ∷ string) zero = 0
strnlen (x ∷ string) (suc maxlen) = suc (strnlen string maxlen)
