-- ===== src/Tests/Strings.antt =====
-- lib/string.c on short strings.
use oscourse_all_files.Common.{ℕ, ◌≡◌, ◌↔◌, List, [], ◌∷◌, arith}
use oscourse_all_files.CString.{strcmp, equal, strlen, strtok_r, strlcpy}
use oscourse_all_files.CString.Compare.{IsString, strcmp_equal, strcmp_lem, Compared}
use oscourse_all_files.CString.Token.{Tokenized, strtok_r_lem}
use oscourse_all_files.CString.Copy.{string_in, strlcpy_lem}

-- "abc", "abd" and " ab c", with 32 for the space.
abbrev abc : List ℕ
abc = 97 ∷ 98 ∷ 99 ∷ []

abbrev abd : List ℕ
abd = 97 ∷ 98 ∷ 100 ∷ []

abbrev spaced : List ℕ
spaced = 32 ∷ 97 ∷ 98 ∷ 32 ∷ 99 ∷ []

abc-IsString : IsString abc
abc-IsString = (omega arith, (omega arith, (omega arith, tt)))

abd-IsString : IsString abd
abd-IsString = (omega arith, (omega arith, (omega arith, tt)))

strcmp_equal_example : (strcmp abc abd ≡ equal) ↔ (abc ≡ abd)
strcmp_equal_example = strcmp_equal abc abd abc-IsString abd-IsString

strcmp_example : Compared abc abd (strcmp abc abd)
strcmp_example = strcmp_lem abc abd abc-IsString abd-IsString

strtok_r_example : Tokenized (32 ∷ []) spaced (strtok_r spaced (32 ∷ []))
strtok_r_example = strtok_r_lem (32 ∷ []) spaced

strlcpy_example :
    ((strlcpy (1 ∷ 1 ∷ 1 ∷ 1 ∷ []) abc 3).0 ≡ strlen abc)
    × (string_in (strlcpy (1 ∷ 1 ∷ 1 ∷ 1 ∷ []) abc 3).1 ≡ 97 ∷ 98 ∷ [])
    × ((strlcpy (1 ∷ 1 ∷ 1 ∷ 1 ∷ []) abc 3).1 ≡ 97 ∷ 98 ∷ 0 ∷ 1 ∷ [])
unfolding strlen
strlcpy_example = strlcpy_lem (1 ∷ 1 ∷ 1 ∷ 1 ∷ []) abc 3 abc-IsString (omega arith) (omega arith)
