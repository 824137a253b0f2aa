-- ===== src/Inode/Grow.antt =====
-- filesys/inode.c: the growth of a file by blocks from the free map.
-- `calloc` and `malloc` succeed. A block number that the source writes past the end of a list is
-- outside its memory; the model stops with `panic` there.
use oscourse_all_files.Common.{
  ℕ, zero, suc, ◌+◌, ◌-◌, ◌*◌, ◌/◌, ◌%◌, Bool, true, false, not, ◌&&◌, Option, none, some, List, [],
  ◌∷◌, Result, ok, hang, ◌>>=◌, ◌>>◌, assert, ltb, leb, ◌==◌, if◌then◌else◌, two_32, replicate,
}
use oscourse_all_files.Bitmap.{Bitmap}
use oscourse_all_files.Block.{block_sector_size}
use oscourse_all_files.Cache.{copy_in, copy_out}
use oscourse_all_files.FreeMap.{FreeMap, free_map_allocate}
use oscourse_all_files.Inode.{
  SectorCache, Inode, direct_blocks, inode_list, word, bytes_of, less_signed, sub_word, read_word,
}

abbrev pub add_word : ℕ → ℕ → ℕ
add_word a b = (a + b) % two_32

-- A sector of zeros, or a zeroed `struct inode_list`.
abbrev pub zeros : List ℕ
zeros = replicate block_sector_size 0

-- Words stored in memory from a byte on.
unfoldable pub set_words : List ℕ → ℕ → List ℕ → List ℕ
set_words bytes at [] = bytes
set_words bytes at (w ∷ ws) = set_words (copy_in bytes at (bytes_of w)) (at + 4) ws

abbrev get_word : List ℕ → ℕ → ℕ
get_word bytes at = word (copy_out bytes at 4)

module _ (cache : SectorCache) where
  open cache use {State, read, write}

  -- The cache and the free map.
  pub record FileSystem : Type 0 where
    pub cached : State
    pub free : FreeMap

  -- The variables of `file_grow`. `none` is a NULL list.
  pub record Growth : Type 0 where
    pub success : Bool
    pub temp : List ℕ
    pub linked : Option (List ℕ)
    pub dlinked : Option (List ℕ)
    pub newblocks : ℕ
    pub number_blocks : ℕ
    pub fs : FileSystem

  module _ (bitmap_write : Bitmap → State → Result (Bool × State)) where
    -- The loop of `inode_allocblocks` with `n` blocks to go: whether the last allocation
    -- succeeded, and the block numbers that are stored in `blockarray`.
    unfoldable pub alloc_loop : ℕ → Bool → FileSystem → Result ((Bool × List ℕ) × FileSystem)
    alloc_loop zero success fs = ok ((success, []), fs)
    alloc_loop (suc n) success fs = do
      (sector, free, st) ← free_map_allocate bitmap_write fs.free fs.cached 1
      elim sector [
        | none ↦ ok ((false, []), record { cached = st; free = free })
        | some b ↦ write st b zeros 0 >>= λ st.
            alloc_loop n true (record { cached = st; free = free }) >>= λ ((success, blocks), fs).
            ok ((success, b ∷ blocks), fs)
      ]

    unfoldable pub inode_allocblocks : ℕ → FileSystem → Result ((Bool × List ℕ) × FileSystem)
    inode_allocblocks num fs = alloc_loop (if less_signed 0 num then num else 0) false fs

    -- `file_grow` while the end of the file is in the direct blocks.
    unfoldable pub grow_direct : Growth → Result Growth
    grow_direct g =
        let room = direct_blocks - g.number_blocks in
        let loads =
          if ltb (add_word g.number_blocks g.newblocks) direct_blocks then g.newblocks else room in
        if ltb g.number_blocks direct_blocks
        then (inode_allocblocks loads g.fs >>= λ ((success, blocks), fs). ok (record g {
          success = success;
          temp = set_words g.temp (12 + g.number_blocks * 4) blocks;
          newblocks = sub_word g.newblocks loads;
          number_blocks = g.number_blocks + loads;
          fs = fs;
        }))
        else ok g

    -- The list of singly linked blocks: new for its first block, and read otherwise.
    pub grow_list : Growth → ℕ → Result (List ℕ × Growth)
    grow_list g index =
        let at = 12 + direct_blocks * 4 in
        if index == 0
        then (inode_allocblocks 1 g.fs >>= λ ((success, blocks), fs).
            ok (zeros, record g { success = success; temp = set_words g.temp at blocks; fs = fs }))
        else (read g.fs.cached (get_word g.temp at) 0 block_sector_size >>= λ (linked, st).
            ok (linked, record g { fs = record g.fs { cached = st } }))

    -- `file_grow` in the range of the singly linked blocks.
    unfoldable pub grow_single : Growth → Result Growth
    grow_single g =
        let index = g.number_blocks - direct_blocks in
        let loads =
          if less_signed inode_list (add_word index g.newblocks) then inode_list else g.newblocks in
        if ltb 0 g.newblocks && ltb g.number_blocks (direct_blocks + inode_list)
        then (grow_list g index >>= λ (linked, g).
            assert (leb (index + loads) inode_list)
            >> inode_allocblocks loads g.fs
            >>= λ ((success, blocks), fs). ok (record g {
              success = success;
              linked = some (set_words linked (index * 4) blocks);
              newblocks = sub_word g.newblocks loads;
              number_blocks = g.number_blocks + loads;
              fs = fs;
            }))
        else ok g

    -- The list of doubly linked blocks.
    pub grow_dlist : Growth → ℕ → Result (List ℕ × Growth)
    grow_dlist g index =
        let at = 12 + (direct_blocks + 1) * 4 in
        if index == 0
        then (inode_allocblocks 1 g.fs >>= λ ((success, blocks), fs).
            ok (zeros, record g { success = success; temp = set_words g.temp at blocks; fs = fs }))
        else (read g.fs.cached (get_word g.temp at) 0 block_sector_size >>= λ (dlinked, st).
            ok (dlinked, record g { fs = record g.fs { cached = st } }))

    -- The list with number `i` in the list of doubly linked blocks. `memory` is what malloc gives.
    pub grow_inner : List ℕ → Growth → ℕ → List ℕ → Result ((List ℕ × List ℕ) × Growth)
    grow_inner memory g index dlinked =
        let i = index / inode_list in
        if index % inode_list == 0
        then (assert (ltb i inode_list) >> inode_allocblocks 1 g.fs >>= λ ((success, blocks), fs).
            ok
              ((set_words dlinked (i * 4) blocks, memory), record g { success = success; fs = fs }))
        else (read g.fs.cached (get_word dlinked (i * 4)) 0 block_sector_size
            >>= λ (linkedtemp, st).
                ok ((dlinked, linkedtemp), record g { fs = record g.fs { cached = st } }))

    -- `loads` blocks for list `i`, from the entry `from` on; then the list is written.
    pub fill_list : Growth → List ℕ → List ℕ → ℕ → ℕ → ℕ → Result (List ℕ × Growth)
    fill_list g dlinked linkedtemp i from loads = do
      ((success, blocks), fs) ← inode_allocblocks loads g.fs
      let list = set_words linkedtemp (from * 4) blocks
      st ← write fs.cached (get_word dlinked (i * 4)) list 0
      ok (
        list,
        record g {
          success = success;
          newblocks = sub_word g.newblocks loads;
          number_blocks = add_word g.number_blocks loads;
          fs = record fs { cached = st };
        },
      )

    -- The `while` loop of `file_grow`, for at most `fuel` rounds. A count above the size of a list
    -- becomes that size, and `loads` stays as it is.
    pub fill_loop : ℕ → Growth → List ℕ → List ℕ → ℕ → ℕ → Result (List ℕ × Growth)
    fill_loop zero g dlinked linkedtemp i loads =
        if ltb 0 g.newblocks then hang else ok (dlinked, g)
    fill_loop (suc fuel) g dlinked linkedtemp i loads =
        let fits = not (less_signed inode_list g.newblocks) in
        let loads' = if fits then g.newblocks else loads in
        let g' = record g { newblocks = if fits then g.newblocks else inode_list } in
        if ltb 0 g.newblocks
        then (assert (ltb i inode_list) >> inode_allocblocks 1 g'.fs >>= λ ((success, blocks), fs).
            let dlinked' = set_words dlinked (i * 4) blocks in
            fill_list (record g' { success = success; fs = fs }) dlinked' linkedtemp i 0 loads'
            >>= λ (list, g''). fill_loop fuel g'' dlinked' list (i + 1) loads')
        else ok (dlinked, g)

    -- `file_grow` in the range of the doubly linked blocks. A second round leaves no block to add.
    unfoldable pub grow_double : List ℕ → Growth → Result Growth
    grow_double memory g =
        let index = g.number_blocks - (direct_blocks + inode_list) in
        let room = inode_list - index % inode_list in
        let loads = if leb g.newblocks room then g.newblocks else room in
        let last = direct_blocks + (1 + inode_list) * inode_list in
        if ltb 0 g.newblocks && ltb g.number_blocks last
        then (grow_dlist g index >>= λ (dlinked, g).
            grow_inner memory g index dlinked >>= λ ((dlinked, linkedtemp), g).
            fill_list g dlinked linkedtemp (index / inode_list) (index % inode_list) loads
            >>= λ (linkedtemp, g).
                fill_loop 2 g dlinked linkedtemp (index / inode_list + 1) loads >>= λ (dlinked, g).
                ok (record g { dlinked = some dlinked }))
        else ok g

    -- A list is written to the sector that the inode on the disk has for it.
    unfoldable pub save_list : FileSystem → Inode → ℕ → Option (List ℕ) → Result FileSystem
    save_list fs inode at none = ok fs
    save_list fs inode at (some list) = do
      (block, st) ← read_word cache fs.cached inode.sector at
      st ← write st block list 0
      ok (record fs { cached = st })

    unfoldable pub save_growth : Growth → Inode → Result FileSystem
    save_growth g inode = do
      st ← write g.fs.cached inode.sector g.temp 0
      let fs = record g.fs { cached = st }
      fs ← save_list fs inode (12 + direct_blocks * 4) g.linked
      save_list fs inode (12 + (direct_blocks + 1) * 4) g.dlinked

    -- Whether the file has grown to the block of `pos`.
    unfoldable pub file_grow : List ℕ → FileSystem → Inode → ℕ → Result (Bool × FileSystem)
    file_grow memory fs inode pos = do
      let number = pos / block_sector_size + 1
      (number_blocks, st) ← read_word cache fs.cached inode.sector 0
      (temp, st) ← read st inode.sector 0 block_sector_size
      let start : Growth = record {
        success = false;
        temp = temp;
        linked = none;
        dlinked = none;
        newblocks = sub_word number number_blocks;
        number_blocks = number_blocks;
        fs = record fs { cached = st };
      }
      if sub_word number number_blocks == 0
          then ok (false, record fs { cached = st })
          else (grow_direct start >>= λ g. grow_single g >>= λ g. grow_double memory g >>= λ g.
              if g.success then (save_growth g inode >>= λ fs. ok (true, fs)) else ok (false, g.fs))
