-- ===== src/Inode/Read.antt =====
-- inode_read_at of filesys/inode.c: the bytes of the file, up to its end.
use Prim.Native.Nat.{min}
use oscourse_all_files.Common.{
  ℕ, zero, suc, ◌+◌, ◌-◌, ◌*◌, ◌/◌, ◌%◌, ◌^◌, ◌≤◌, ◌<◌, ◌≡◌, refl, ◌∙◌, ap, ap₂, inl, inr, Bool,
  true, false, not, ◌||◌, List, [], ◌∷◌, ◌++◌, Result, ok, ◌>>=◌, ltb, ltb→lt, ◌==◌, Bool-cases,
  arith, take, drop, length, get_or,
}
use oscourse_all_files.Block.{block_sector_size}
use oscourse_all_files.Cache.{no_sector, copy_out}
use oscourse_all_files.Inode.{SectorCache, Inode, less_signed, chunk_of, read_loop, inode_read_at}
use oscourse_all_files.Inode.Layout.{
  Disk, CacheLaws, block_of, file_length, file_byte, file_bytes, IsBlock, IsFile,
}
use oscourse_all_files.Inode.Find.{Gives, and_then, byte_to_sector_lem, inode_length_lem}

take-drop :
    (xs : List ℕ) (j n : ℕ)
    → j < length xs
    → take (suc n) (drop j xs) ≡ get_or xs j 0 ∷ take n (drop (suc j) xs)
take-drop [] j n h = absurd (omega arith)
take-drop (x ∷ xs) zero n h = refl
take-drop (x ∷ xs) (suc j) n h = take-drop xs j n (omega arith)

or_true : (a : Bool) → (a || true) ≡ true
or_true true = refl
or_true false = refl

module _ (f : Disk) (s : ℕ) where
  file_bytes-split :
      (n m offset : ℕ)
      → file_bytes f s offset n ++ file_bytes f s (offset + n) m ≡ file_bytes f s offset (n + m)
  unfolding file_bytes
  file_bytes-split zero m offset =
      let start : offset + 0 ≡ offset = omega arith in
      let whole : 0 + m ≡ m = omega arith in rw (start, whole) refl
  file_bytes-split (suc n) m offset =
      ap (λ bs. file_byte f s offset ∷ bs)
        (ap (λ o. file_bytes f s (suc offset) n ++ file_bytes f s o m) shifted
          ∙ file_bytes-split n m (suc offset))
      ∙ ap (file_bytes f s offset) sum
    where
      shifted : offset + suc n ≡ suc offset + n
      shifted = omega arith

      sum : suc (n + m) ≡ suc n + m
      sum = omega arith

  -- Bytes of one sector.
  in_block :
      (k j n : ℕ)
      → length (f (block_of f s k)) ≡ block_sector_size
      → j + n ≤ block_sector_size
      → copy_out (f (block_of f s k)) j n ≡ file_bytes f s (k * block_sector_size + j) n
  unfolding file_bytes
  in_block k j zero long fits = refl
  in_block k j (suc n) long fits =
      let here : (k * block_sector_size + j) / block_sector_size ≡ k = omega arith in
      let at : (k * block_sector_size + j) % block_sector_size ≡ j = omega arith in
      take-drop (f (block_of f s k)) j n (omega arith)
      ∙ ap₂ (◌∷◌) (rw (here, at) refl)
          (in_block k (suc j) n long (omega arith) ∙ ap (λ o. file_bytes f s o n) (omega arith))

-- Within the file a chunk ends with the request, the sector or the file.
chunk_of_lem :
    (l size offset : ℕ)
    → l < 2 ^ 31
    → size < 2 ^ 31
    → offset < l
    → chunk_of l size offset
      ≡ min size (min (l - offset) (block_sector_size - offset % block_sector_size))
unfolding chunk_of
chunk_of_lem l size offset hl hs ho = ground arith

module _ {cache : SectorCache} (laws : CacheLaws cache) {size : ℕ} {f : Disk} (inode : Inode)
    (file : IsFile size f inode.sector) where
  open cache use {State}
  open laws use {Holds}

  abbrev l : ℕ
  l = file_length f inode.sector

  abbrev bytes_from : ℕ → ℕ → ℕ × List ℕ
  bytes_from offset n = (n, file_bytes f inode.sector offset n)

  -- What a round does with its chunk, before the other rounds.
  abbrev chunk_then : ℕ → State → ℕ → ℕ → ℕ → ℕ → Result ((ℕ × List ℕ) × State)
  chunk_then fuel st b n offset c =
      cache.read st b (offset % block_sector_size) c >>= λ (bytes, st).
      read_loop cache fuel st inode (n - c) (offset + c) >>= λ ((bytes_read, buffer), st).
      ok ((c + bytes_read, bytes ++ buffer), st)

  abbrev Reads : ℕ → Type 0
  Reads fuel =
      (st : State)
      → Holds size f st
      → (n offset : ℕ) → n < fuel
      → n < 2 ^ 31
      → offset < 2 ^ 31
      → Gives laws size f (read_loop cache fuel st inode n offset)
          (bytes_from offset (min n (l - offset)))

  abbrev sector_of : ℕ → ℕ
  sector_of offset = block_of f inode.sector (offset / block_sector_size)

  -- A chunk, and then the rest of the bytes.
  joined :
      (n offset c : ℕ)
      → length (f (sector_of offset)) ≡ block_sector_size
      → c ≤ n
      → c ≤ l - offset
      → offset % block_sector_size + c ≤ block_sector_size
      → (let rest : ℕ = min (n - c) (l - (offset + c)) in
          ◌≡◌ {A = ℕ × List ℕ}
            (
              c + rest,
              copy_out (f (sector_of offset)) (offset % block_sector_size) c
                  ++ file_bytes f inode.sector (offset + c) rest,
            )
            (bytes_from offset (min n (l - offset))))
  joined n offset c long by_n by_l by_sector =
      let k : ℕ = offset / block_sector_size in
      let m : ℕ = min (n - c) (l - (offset + c)) in
      let whole : c + m ≡ min n (l - offset) = omega arith in
      let start : k * block_sector_size + offset % block_sector_size ≡ offset = omega arith in
      ap₂ (λ (a : ℕ) (bs : List ℕ). (a, bs)) whole
        (ap (λ bs. bs ++ file_bytes f inode.sector (offset + c) m)
            (in_block f inode.sector k (offset % block_sector_size) c long by_sector
              ∙ ap (λ o. file_bytes f inode.sector o c) start)
          ∙ file_bytes-split f inode.sector c m offset
          ∙ ap (file_bytes f inode.sector offset) whole)

  more :
      (fuel : ℕ)
      → Reads fuel
      → {st : State} → Holds size f st
      → (n offset : ℕ) → n < 2 ^ 31
      → offset < l
      → (c : ℕ) → 0 < c
      → c ≤ n
      → n ≤ fuel
      → c ≤ l - offset
      → offset % block_sector_size + c ≤ block_sector_size
      → Gives laws size f
          (chunk_then fuel st (sector_of offset) n offset c)
          (bytes_from offset (min n (l - offset)))
  more fuel again h n offset hn within c pos by_n enough by_l by_sector =
      let block : IsBlock size f inode.sector (offset / block_sector_size) =
        file.blocks (offset / block_sector_size) (omega arith) in
      let long : length (f (sector_of offset)) ≡ block_sector_size =
        laws.length-sector h (sector_of offset) block.block in
      and_then laws _
        (laws.read_lem h (sector_of offset) (offset % block_sector_size) c block.block (omega arith)
          by_sector)
        (λ _ h1.
          and_then laws _
            (again _ h1 (n - c) (offset + c) (omega arith) (omega arith)
              (omega (arith, file.short)))
            (λ st h2. (st, ap (λ r. ok (r, st)) (joined n offset c long by_n by_l by_sector), h2)))

  read_loop_lem : (fuel : ℕ) → Reads fuel
  unfolding read_loop file_bytes
  read_loop_lem zero st h n offset hf hn ho = absurd (omega arith)
  read_loop_lem (suc fuel) st h n offset hf hn ho = elim (Bool-cases (less_signed 0 n)) [
    | inl e ↦ rw e (
        and_then laws _ (byte_to_sector_lem laws inode file.in_range file h offset ho) (λ _ h1.
          and_then laws _ (inode_length_lem laws inode file.in_range h1) (λ _ h2.
            elim (Bool-cases (ltb offset l)) [
              | inl e2 ↦
                  let within : offset < l = ltb→lt offset l e2 in
                  let block : IsBlock size f inode.sector (offset / block_sector_size) =
                    file.blocks (offset / block_sector_size) (omega arith) in
                  let c : ℕ = chunk_of l n offset in
                  let value : c
                      ≡ min n (min (l - offset) (block_sector_size - offset % block_sector_size)) =
                    chunk_of_lem l n offset file.short hn within in
                  let some_bytes : 0 < n = ground arith in
                  let positive : less_signed 0 c ≡ true = ground arith in
                  let found : (sector_of offset == no_sector) ≡ false =
                    ground (arith, block.block, laws.size_small h2) in
                  rw (e2, positive, found)
                    (more fuel (read_loop_lem fuel) h2 n offset hn within c (omega arith)
                      (omega arith) (omega arith) (omega arith) (omega arith))
              | inr e2 ↦
                  let none_left : min n (l - offset) ≡ 0 = ground arith in
                  rw (e2, or_true (not (less_signed 0 (chunk_of l n offset))), none_left)
                    (_, refl, h2)
            ])))
    | inr e ↦
        let none_left : min n (l - offset) ≡ 0 = ground arith in rw (e, none_left) (st, refl, h)
  ]

  -- On an inode with a block for each byte of its file, and for a position and a size below 2 ^ 31,
  -- `inode_read_at` returns the bytes of the file from the position on: as many as asked for, or as
  -- the file has from there. The disk is as before.
  pub inode_read_at_lem :
      {st : State}
      → Holds size f st
      → (n offset : ℕ) → n < 2 ^ 31
      → offset < 2 ^ 31
      → Gives laws size f
          (inode_read_at cache st inode n offset)
          (bytes_from offset (min n (l - offset)))
  unfolding inode_read_at
  inode_read_at_lem h n offset hn ho = read_loop_lem (suc n) _ h n offset (omega arith) hn ho
