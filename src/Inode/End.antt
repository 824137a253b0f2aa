-- ===== src/Inode/End.antt =====
-- The end of a file after a write, in filesys/inode.c.
use Prim.Native.Nat.{max}
use mathlib.Core.Path.{subst, sym}
use oscourse_all_files.Common.{
  ℕ, ◌+◌, ◌*◌, ◌/◌, ◌%◌, ◌^◌, ◌≤◌, ◌<◌, ◌≡◌, ◌≢◌, inl, inr, refl, ◌∙◌, ap, false, Bool-cases, ◌==◌,
  ==_refl, length, get_or, update, Result, ok, arith,
}
use oscourse_all_files.Block.{block_sector_size}
use oscourse_all_files.Cache.{copy_in, copy_out}
use oscourse_all_files.Cache.ReadWrite.{length-copy_in}
use oscourse_all_files.Inode.{SectorCache, Inode, word, bytes_of, less_signed, inode_resetlength}
use oscourse_all_files.Inode.Layout.{Disk, CacheLaws, word_at, block_of, file_length, file_byte}
use oscourse_all_files.Inode.Find.{inode_length_lem, bind_value, bind_state}
use oscourse_all_files.Inode.Frame.{
  block_count, IsInode, SameWay, HasBlocks, block_of_same, HasBlocks-same,
}
use oscourse_all_files.Inode.Word.{length-bytes_of, word-bytes_of, word_apart}
use oscourse_all_files.Inode.Update.{set_end}

-- The inode has as many blocks as it counts, or as its file has up to `o`.
pub record IsReady (size m : ℕ) (f : Disk) (sector o : ℕ) : Type 0 where
  pub short : file_length f sector < 2 ^ 31
  pub count : block_count f sector ≡ file_length f sector / block_sector_size + 1
  pub enough : m ≡ max (block_count f sector) (o / block_sector_size + 1)
  pub has : HasBlocks size f sector m

-- From disk `f` to `f'` the file has its end at `o`, if it ended before; its bytes are the same.
pub record Extends (size m : ℕ) (f f' : Disk) (sector o : ℕ) : Type 0 where
  pub inode : IsInode size f' sector
  pub counted : block_count f' sector ≡ m
  pub same : (k : ℕ) → k < m → block_of f' sector k ≡ block_of f sector k
  pub longer : file_length f' sector ≡ max (file_length f sector) o
  pub bytes : (i : ℕ) → i < m * block_sector_size → file_byte f' sector i ≡ file_byte f sector i
  pub others : (t : ℕ) → t ≢ sector → f' t ≡ f t

module _ {size : ℕ} {f : Disk} {sector m : ℕ} (v : HasBlocks size f sector m) (o : ℕ)
    (long : length (f sector) ≡ block_sector_size) (small : o < 2 ^ 31) where
  abbrev blocks : ℕ
  blocks = o / block_sector_size + 1

  -- The disk with the new length, and then with the new number of blocks.
  abbrev with_length : Disk
  with_length = update f sector (copy_in (f sector) 4 (bytes_of o))

  abbrev with_blocks : Disk
  with_blocks = update with_length sector (copy_in (with_length sector) 0 (bytes_of blocks))

  at_sector : with_length sector ≡ copy_in (f sector) 4 (bytes_of o)
  at_sector = rw (==_refl sector) refl

  at_sector_again : with_blocks sector ≡ copy_in (with_length sector) 0 (bytes_of blocks)
  at_sector_again = rw (==_refl sector) refl

  length-with_length : length (with_length sector) ≡ block_sector_size
  length-with_length =
      ap length at_sector
      ∙ length-copy_in (f sector) (bytes_of o) 4 long (omega (arith, length-bytes_of o))

  elsewhere : (t : ℕ) → t ≢ sector → with_blocks t ≡ f t
  elsewhere t ne = let e : (t == sector) ≡ false = ground (arith, ne) in rw e refl

  -- A word beyond the first two, and these two.
  word_beyond : (p : ℕ) → 4 ≤ p → word_at with_blocks sector p ≡ word_at with_length sector p
  word_beyond p h =
      ap (λ bs. word (copy_out bs p 4)) at_sector_again
      ∙ word_apart (with_length sector) 0 (bytes_of blocks) p
          (omega (arith, length-bytes_of blocks, length-with_length))
          (inr (omega (arith, length-bytes_of blocks)))

  pointer_same : (p : ℕ) → 8 ≤ p → word_at with_blocks sector p ≡ word_at f sector p
  pointer_same p h =
      word_beyond p (omega arith)
      ∙ ap (λ bs. word (copy_out bs p 4)) at_sector
      ∙ word_apart (f sector) 4 (bytes_of o) p (omega (arith, length-bytes_of o, long))
          (inr (omega (arith, length-bytes_of o)))

  new_length : file_length with_blocks sector ≡ o
  new_length =
      word_beyond 4 (omega arith)
      ∙ ap (λ bs. word (copy_out bs 4 4)) at_sector
      ∙ word-bytes_of (f sector) 4 o (omega (arith, long)) (omega arith)

  new_count : block_count with_blocks sector ≡ blocks
  new_count =
      ap (λ bs. word (copy_out bs 0 4)) at_sector_again
      ∙ word-bytes_of (with_length sector) 0 blocks (omega (arith, length-with_length))
          (omega arith)

  end-SameWay : (k : ℕ) → k < m → SameWay f with_blocks sector k
  end-SameWay k h = record {
    pointers = λ p lo hi. pointer_same p (omega arith);
    lists = λ t l. elsewhere t (v.lists k t h l);
  }

  end-Extends :
      IsReady size m f sector o → file_length f sector < o → Extends size m f with_blocks sector o
  end-Extends r beyond =
      let counts : block_count with_blocks sector ≡ m =
        omega (arith, new_count, r.count, r.enough) in
      record {
        inode = record {
          short = omega (arith, new_length);
          count = rw (new_length, new_count) refl;
          has =
              subst (HasBlocks size with_blocks sector) (sym counts) (HasBlocks-same v end-SameWay);
        };
        counted = counts;
        same = λ k h. block_of_same (end-SameWay k h);
        longer = omega (arith, new_length);
        bytes = λ i h.
            let k : ℕ = i / block_sector_size in
            let counted : k < m = omega arith in
            ap (λ t. get_or (with_blocks t) (i % block_sector_size) 0)
              (block_of_same (end-SameWay k counted))
            ∙ ap (λ bs. get_or bs (i % block_sector_size) 0)
                (elsewhere (block_of f sector k) (v.own k counted));
        others = elsewhere;
      }

module _ {cache : SectorCache} (laws : CacheLaws cache) (size m : ℕ) (f : Disk)
    (inode : Inode) where
  open cache use {State}
  open laws use {Holds}

  abbrev pub EndsAt : ℕ → Result State → Type 0
  EndsAt o r =
      (st' : State) × (f' : Disk) × (r ≡ ok st')
      × Holds size f' st'
      × Extends size m f f' inode.sector o

  pub set_end_lem :
      {st : State}
      → Holds size f st
      → (o : ℕ) → o < 2 ^ 31
      → IsReady size m f inode.sector o
      → EndsAt o (set_end cache st inode o)
  unfolding set_end inode_resetlength
  set_end_lem h o small ready =
      let v : HasBlocks size f inode.sector m = ready.has in
      let s : ℕ = inode.sector in
      let long : length (f s) ≡ block_sector_size = laws.length-sector h s v.in_range in
      let n : ℕ = o / block_sector_size + 1 in
      bind_value laws (EndsAt o) _ (inode_length_lem laws inode v.in_range h) (λ st1 h1.
        elim (Bool-cases (less_signed (file_length f s) o)) [
          | inl e ↦
              let beyond : file_length f s < o = ground (arith, ready.short) in
              rw e (
                bind_state laws (EndsAt o) _
                  (laws.write_lem h1 s 4 (bytes_of o) v.in_range (omega arith)
                    (omega (arith, length-bytes_of o)))
                  (λ st2 h2.
                    last
                      (laws.write_lem h2 s 0 (bytes_of n) v.in_range (omega arith)
                        (omega (arith, length-bytes_of n)))
                      (end-Extends v o long small ready beyond)))
          | inr e ↦
              let within : o ≤ file_length f s = ground (arith, ready.short) in
              rw e (st1, f, refl, h1, kept within)
        ])
    where
      last :
          {f2 : Disk} {r : Result State}
          → (st' : State) × (r ≡ ok st') × Holds size f2 st'
          → Extends size m f f2 inode.sector o
          → EndsAt o r
      last {f2} (st3, e3, h3) x = (st3, f2, e3, h3, x)

      kept : o ≤ file_length f inode.sector → Extends size m f f inode.sector o
      kept within = record {
        inode = record {
          short = ready.short;
          count = ready.count;
          has =
              let counts : m ≡ block_count f inode.sector =
                omega (arith, ready.count, ready.enough) in
              subst (HasBlocks size f inode.sector) counts ready.has;
        };
        counted = omega (arith, ready.count, ready.enough);
        same = λ k h. refl;
        longer = omega arith;
        bytes = λ _ _. refl;
        others = λ _ _. refl;
      }
