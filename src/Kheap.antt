-- ===== src/Kheap.antt =====
-- kernel/mm/allocator/kheap.c: the kernel heap, a doubly linked list of blocks with a header before
-- each.
pub mod Blocks
pub mod Malloc
pub mod Fit
pub mod Merge
pub mod Free
pub mod Coalesce
pub mod Safety
mod Tests
use khazaros.Base.{
  ℕ, zero, suc, ◌+◌, ◌-◌, ◌*◌, ◌%◌, ◌^◌, bit_and, Bool, not, ◌&&◌, Option, none, some, ◌==◌, ltb,
  leb, if◌then◌else◌,
}

-- `header_t`, without the padding behind `is_free`
pub record Header : Type 0 where
  pub magic : ℕ
  pub size : ℕ
  pub is_free : ℕ
  pub next : ℕ
  pub prev : ℕ

abbrev pub kheap_magic : ℕ
kheap_magic = 0x1234_abcd

-- four words of 4 bytes, and a byte padded to 4
abbrev pub header_size : ℕ
header_size = 20

-- The memory as the headers that its addresses hold: what is read at an address that no header was
-- written to is arbitrary. Pointers are numbers, 0 for `NULL`.
abbrev pub Memory : Type 0
Memory = ℕ → Header

abbrev pub store : Memory → ℕ → Header → Memory
store m p h q = if q == p then h else m q

-- 32-bit sums and differences
abbrev pub add32 : ℕ → ℕ → ℕ
add32 a b = (a + b) % 2 ^ 32

abbrev pub sub32 : ℕ → ℕ → ℕ
sub32 a b = (a + (2 ^ 32 - b)) % 2 ^ 32

-- The block that `kheap_init` makes, after the pages are mapped.
pub init : Memory → (start size : ℕ) → Memory
init m start size =
    store m start (record {
      magic = kheap_magic;
      size = sub32 size header_size;
      is_free = 1;
      next = 0;
      prev = 0;
    })

-- `(size + 7) & ~7`
pub round_up : ℕ → ℕ
round_up size = bit_and (add32 size 7) 0xffff_fff8

-- `if (p) p->prev = q`
pub set_prev : Memory → (p q : ℕ) → Memory
set_prev m p q = if p == 0 then m else store m p (record (m p) { prev = q })

-- The writes of a new header `h` at `new_block`, behind `size` bytes of the block at `curr`.
pub link_block : Memory → (curr size new_block : ℕ) → Header → Memory
link_block m curr size new_block h =
    let m₁ = store m new_block h in
    let m₂ = set_prev m₁ (m₁ curr).next new_block in
    store m₂ curr (record (m₂ curr) { next = new_block; size = size })

-- The part of the block at `curr` behind `size` bytes becomes a block of its own.
pub split : Memory → (curr size : ℕ) → Memory
split m curr size = link_block m curr size (add32 (add32 curr header_size) size) (record {
  magic = kheap_magic;
  size = sub32 (sub32 (m curr).size size) header_size;
  is_free = 1;
  next = (m curr).next;
  prev = curr;
})

-- `p->is_free = v`
pub mark : Memory → (p v : ℕ) → Memory
mark m p v = store m p (record (m p) { is_free = v })

pub claim : Memory → (curr size : ℕ) → Memory
claim m curr size =
    let m' =
      if leb (add32 (add32 size header_size) 8) (m curr).size then split m curr size else m in
    mark m' curr 0

-- The walk over the list, on fuel: `none` where the fuel runs out.
pub malloc_loop : ℕ → Memory → (size curr : ℕ) → Option (ℕ × Memory)
malloc_loop zero m size curr = none
malloc_loop (suc fuel) m size curr =
    let rest = malloc_loop fuel m size (m curr).next in
    if curr == 0
    then some (0, m)
    else if not ((m curr).is_free == 0) && leb size (m curr).size
    then some (add32 curr header_size, claim m curr size)
    else rest

pub kmalloc : (fuel heap_start : ℕ) → Memory → ℕ → Option (ℕ × Memory)
kmalloc fuel heap_start m size =
    if size == 0 then some (0, m) else malloc_loop fuel m (round_up size) heap_start

-- `p && p->is_free`
pub is_free_block : Memory → ℕ → Bool
is_free_block m p = not (p == 0) && not ((m p).is_free == 0)

-- The block at `p` takes in the next one.
pub join_next : Memory → ℕ → Memory
join_next m p =
    let n = (m p).next in
    let m₁ = store m p (record (m p) {
      size = add32 (m p).size (add32 header_size (m n).size);
      next = (m n).next;
    }) in
    set_prev m₁ (m₁ p).next p

pub merge_next : Memory → ℕ → Memory
merge_next m p = if is_free_block m (m p).next then join_next m p else m

-- The block before `p` takes in the one at `p`.
pub join_prev : Memory → ℕ → Memory
join_prev m p =
    let q = (m p).prev in
    let m₁ = store m q (record (m q) {
      size = add32 (m q).size (add32 header_size (m p).size);
      next = (m p).next;
    }) in
    set_prev m₁ (m₁ p).next (m₁ p).prev

pub merge_prev : Memory → ℕ → Memory
merge_prev m p = if is_free_block m (m p).prev then join_prev m p else m

pub free_header : Memory → ℕ → Memory
free_header m p = merge_prev (merge_next (mark m p 1) p) p

pub kfree : Memory → ℕ → Memory
kfree m ptr =
    let p = sub32 ptr header_size in
    if ptr == 0
    then m
    else if not ((m p).magic == kheap_magic)
    then m
    else if not ((m p).is_free == 0)
    then m
    else free_header m p
