-- ===== src/Pmm.antt =====
-- kernel/mm/allocator/pmm.c: the physical memory manager, a bitmap with a bit for each block of
-- 4096 bytes. A set bit is a block in use.
pub mod View
pub mod Alloc
pub mod Region
pub mod Count
pub mod Init
mod Tests
use khazaros.Base.{
  ℕ, zero, suc, ◌+◌, ◌-◌, ◌*◌, ◌/◌, ◌%◌, ◌^◌, min, bit_and, bit_or, Bool, not, Option, none, some,
  ◌==◌, if◌then◌else◌,
}
use khazaros.Base.Search.{find_from}

abbrev pub block_size : ℕ
block_size = 4096

abbrev pub blocks_per_byte : ℕ
blocks_per_byte = 8

abbrev pub all_ones : ℕ
all_ones = 0xffff_ffff

-- The three statics. `word i` is the 32-bit word at `pmm_bitmap + i`: C checks no bound, so a
-- word past the bitmap is the memory that follows it.
pub record Pmm : Type 0 where
  pub word : ℕ → ℕ
  pub max_blocks : ℕ
  pub used_blocks : ℕ

abbrev pub set_word : (ℕ → ℕ) → ℕ → ℕ → ℕ → ℕ
set_word w i v j = if j == i then v else w j

pub bitmap_set : ℕ → Pmm → Pmm
bitmap_set bit s = record s {
  word = set_word s.word (bit / 32) (bit_or (s.word (bit / 32)) (2 ^ (bit % 32)));
}

pub bitmap_unset : ℕ → Pmm → Pmm
bitmap_unset bit s = record s {
  word = set_word s.word (bit / 32) (bit_and (s.word (bit / 32)) (2 ^ 32 - 1 - 2 ^ (bit % 32)));
}

pub bitmap_test : ℕ → Pmm → Bool
bitmap_test bit s = not (bit_and (s.word (bit / 32)) (2 ^ (bit % 32)) == 0)

-- The inner loop: the first clear bit of a word.
pub find_bit : ℕ → Option ℕ
find_bit w = find_from (λ j. bit_and w (2 ^ j) == 0) 32 0

-- The outer loop: `left` rounds from word `i` on. A word with no free bit goes to the next round.
pub find_word : (ℕ → ℕ) → (left i : ℕ) → Option ℕ
unfolding find_bit
find_word word zero i = none
find_word word (suc left) i =
    let rest = find_word word left (i + 1) in
    if word i == all_ones
    then rest
    else elim (find_bit (word i)) [ some j ↦ some (i * 32 + j) | none ↦ rest ]

-- -1 is `none`.
pub bitmap_find_first_free : Pmm → Option ℕ
bitmap_find_first_free s = find_word s.word (s.max_blocks / 32) 0

-- `memset(pmm_bitmap, 0xFF, count)` on the word at index `i`: as many of its four bytes, from the
-- low end, as the count reaches.
pub fill_ones : (ℕ → ℕ) → (count : ℕ) → ℕ → ℕ
fill_ones w count i =
    let bits = 8 * min 4 (count - 4 * i) in w i / 2 ^ bits * 2 ^ bits + (2 ^ bits - 1)

unfoldable pub init : (ℕ → ℕ) → (mem_size : ℕ) → Pmm
init memory mem_size =
    let max_blocks = mem_size / block_size in
    record {
      word = fill_ones memory (max_blocks / blocks_per_byte);
      max_blocks = max_blocks;
      used_blocks = max_blocks;
    }

-- `size_t` is 32 bits wide.
abbrev pub inc : ℕ → ℕ
inc n = (n + 1) % 2 ^ 32

abbrev pub dec : ℕ → ℕ
dec n = (n + (2 ^ 32 - 1)) % 2 ^ 32

pub init_loop : (blocks align : ℕ) → Pmm → Pmm
init_loop zero align s = s
init_loop (suc blocks) align s =
    let s' = bitmap_unset align s in
    init_loop blocks (inc align) (record s' { used_blocks = dec s'.used_blocks })

pub init_region : (base size : ℕ) → Pmm → Pmm
init_region base size s = bitmap_set 0 (init_loop (size / block_size) (base / block_size) s)

pub deinit_loop : (blocks align : ℕ) → Pmm → Pmm
deinit_loop zero align s = s
deinit_loop (suc blocks) align s =
    let s' = bitmap_set align s in
    deinit_loop blocks (inc align) (record s' { used_blocks = inc s'.used_blocks })

pub deinit_region : (base size : ℕ) → Pmm → Pmm
deinit_region base size s = deinit_loop (size / block_size) (base / block_size) s

-- The pointer is a number, 0 for `NULL`.
pub take_block : Pmm → Option ℕ → ℕ × Pmm
take_block s none = (0, s)
take_block s (some block) =
    let s' = bitmap_set block s in
    (block * block_size % 2 ^ 32, record s' { used_blocks = inc s'.used_blocks })

pub alloc_block : Pmm → ℕ × Pmm
unfolding take_block
alloc_block s = take_block s (bitmap_find_first_free s)

pub free_block : ℕ → Pmm → Pmm
free_block p s =
    let s' = bitmap_unset (p / block_size) s in record s' { used_blocks = dec s'.used_blocks }

pub get_block_count : Pmm → ℕ
get_block_count s = s.max_blocks

pub get_free_block_count : Pmm → ℕ
get_free_block_count s = (s.max_blocks + 2 ^ 32 - s.used_blocks) % 2 ^ 32
