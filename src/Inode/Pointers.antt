-- ===== src/Inode/Pointers.antt =====
-- Block numbers that file_grow of filesys/inode.c stores in memory.
use oscourse_all_files.Common.{
  ℕ, zero, suc, ◌+◌, ◌*◌, ◌≤◌, ◌<◌, ◌≡◌, ◌⊎◌, refl, ◌∙◌, ap, List, [], ◌∷◌, length, get_or, arith,
  two_32,
}
use oscourse_all_files.Cache.{copy_in, copy_out}
use oscourse_all_files.Cache.ReadWrite.{length-copy_in}
use oscourse_all_files.Block.{block_sector_size}
use oscourse_all_files.Inode.{word, bytes_of}
use oscourse_all_files.Inode.Word.{length-bytes_of, word-bytes_of, word_apart}
use oscourse_all_files.Inode.Grow.{set_words}

pub length-set_words :
    (bytes : List ℕ) (at : ℕ) (ws : List ℕ)
    → length bytes ≡ block_sector_size
    → at + 4 * length ws ≤ block_sector_size
    → length (set_words bytes at ws) ≡ block_sector_size
unfolding set_words
length-set_words bytes at [] long fits = long
length-set_words bytes at (w ∷ ws) long fits =
    length-set_words (copy_in bytes at (bytes_of w)) (at + 4) ws
      (length-copy_in bytes (bytes_of w) at long (omega (arith, length-bytes_of w))) (omega arith)

-- A word apart from the stored ones, and one of these.
pub set_words_apart :
    (bytes : List ℕ) (at : ℕ) (ws : List ℕ) (p : ℕ)
    → length bytes ≡ block_sector_size
    → at + 4 * length ws ≤ block_sector_size
    → (p + 4 ≤ at) ⊎ (at + 4 * length ws ≤ p)
    → word (copy_out (set_words bytes at ws) p 4) ≡ word (copy_out bytes p 4)
unfolding set_words
set_words_apart bytes at [] p long fits out = refl
set_words_apart bytes at (w ∷ ws) p long fits out =
    set_words_apart (copy_in bytes at (bytes_of w)) (at + 4) ws p
      (length-copy_in bytes (bytes_of w) at long (omega (arith, length-bytes_of w))) (omega arith)
      (omega arith)
    ∙ word_apart bytes at (bytes_of w) p (omega (arith, length-bytes_of w))
        (omega (arith, length-bytes_of w))

pub set_words_at :
    (bytes : List ℕ) (at : ℕ) (ws : List ℕ) (k : ℕ)
    → length bytes ≡ block_sector_size
    → at + 4 * length ws ≤ block_sector_size
    → k < length ws
    → get_or ws k 0 < two_32
    → word (copy_out (set_words bytes at ws) (at + k * 4) 4) ≡ get_or ws k 0
unfolding set_words
set_words_at bytes at [] k long fits h small = absurd (omega arith)
set_words_at bytes at (w ∷ ws) zero long fits h small =
    let long' = length-copy_in bytes (bytes_of w) at long (omega (arith, length-bytes_of w)) in
    let here : at + 0 * 4 ≡ at = omega arith in
    ap (λ p. word (copy_out (set_words (copy_in bytes at (bytes_of w)) (at + 4) ws) p 4)) here
    ∙ set_words_apart (copy_in bytes at (bytes_of w)) (at + 4) ws at long' (omega arith)
        (omega arith)
    ∙ word-bytes_of bytes at w (omega arith) small
set_words_at bytes at (w ∷ ws) (suc k) long fits h small =
    let long' = length-copy_in bytes (bytes_of w) at long (omega (arith, length-bytes_of w)) in
    let there : at + suc k * 4 ≡ at + 4 + k * 4 = omega arith in
    ap (λ p. word (copy_out (set_words (copy_in bytes at (bytes_of w)) (at + 4) ws) p 4)) there
    ∙ set_words_at (copy_in bytes at (bytes_of w)) (at + 4) ws k long' (omega arith) (omega arith)
        small
