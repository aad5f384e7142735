-- ===== src/Pe.antt =====
-- The program loader `pe_load` of kernel/core/pe.c: its memory and what it reads of a file. The memory
-- is the physical one, reached by the page tables of the directory in use, so that pages of one frame
-- are one; an access to a page that is not mapped is a page fault, from which the loader does not come
-- back. The page tables themselves are apart from this memory, and whether a page may be written to is
-- not looked at. Additions of addresses and sizes wrap around in 32 bits, as in the code. A header's
-- fields are read once, in the order of the code; it reads some of them again, which differs only
-- where an image overwrites its own file.
pub mod Load
pub mod Reads
pub mod Keeps
pub mod Page
pub mod Directory
mod Tests
use khazaros.Base.{
  ℕ, zero, suc, ◌+◌, ◌-◌, ◌*◌, ◌/◌, ◌%◌, ◌^◌, Bool, true, false, not, ◌||◌, Option, none, some,
  ◌==◌, ltb, if◌then◌else◌,
}
use mathlib.Core.Option
use khazaros.LibK.Memory.{Bytes, store8}
use khazaros.Fat.{Io, pure, and_then, ◌>>=◌, ◌>>◌}
use khazaros.Vmm.{Vmm, is_present, frame_of, pde_at, pte_at}

-- The page tables, and the byte at each physical address.
pub record Loader : Type 0 where
  pub vmm : Vmm
  pub memory : Bytes

-- addition on `uint32_t`
abbrev pub add32 : ℕ → ℕ → ℕ
add32 a b = (a + b) % 2 ^ 32

-- The physical address of an address in the directory in use, `none` where its page is not mapped.
unfoldable pub locate : ℕ → Vmm → Option ℕ
locate a vmm =
    let pde = vmm.word (pde_at vmm a) in
    let pte = vmm.word (pte_at (frame_of pde) a) in
    if is_present pde
    then (if is_present pte then some (frame_of pte + a % 4096) else none)
    else none

unfoldable pub fetch : (a : ℕ) → Io Loader ℕ
unfolding locate
fetch a s = Option.map (λ p. (s.memory p, s)) (locate a s.vmm)

unfoldable pub put : (a v : ℕ) → Io Loader Unit
unfolding locate
put a v s = Option.map (λ p. (tt, record s { memory = store8 s.memory p v })) (locate a s.vmm)

-- `memset`, for `left` bytes from `a` on
unfoldable pub fill : (left a v : ℕ) → Io Loader Unit
unfolding put
fill zero a v = pure tt
fill (suc left) a v = do put a v; fill left (add32 a 1) v

unfoldable pub copy_dword : (dst src : ℕ) → Io Loader Unit
unfolding fetch put
copy_dword dst src = do
  b₀ ← fetch src
  b₁ ← fetch (add32 src 1)
  b₂ ← fetch (add32 src 2)
  b₃ ← fetch (add32 src 3)
  put dst b₀
  put (add32 dst 1) b₁
  put (add32 dst 2) b₂
  put (add32 dst 3) b₃

unfoldable pub copy_words : (left dst src : ℕ) → Io Loader Unit
unfolding copy_dword
copy_words zero dst src = pure tt
copy_words (suc left) dst src = do copy_dword dst src; copy_words left (add32 dst 4) (add32 src 4)

unfoldable pub copy_rest : (left dst src : ℕ) → Io Loader Unit
unfolding fetch put
copy_rest zero dst src = pure tt
copy_rest (suc left) dst src = do
  b ← fetch src
  put dst b
  copy_rest left (add32 dst 1) (add32 src 1)

-- `memcpy`
unfoldable pub copy : (dst src count : ℕ) → Io Loader Unit
unfolding copy_words copy_rest
copy dst src count = do
  copy_words (count / 4) dst src
  copy_rest (count % 4) (add32 dst (count / 4 * 4)) (add32 src (count / 4 * 4))

unfoldable pub fetch16 : (a : ℕ) → Io Loader ℕ
unfolding fetch
fetch16 a = do b₀ ← fetch a; b₁ ← fetch (add32 a 1); pure (b₀ + b₁ * 2 ^ 8)

unfoldable pub fetch32 : (a : ℕ) → Io Loader ℕ
unfolding fetch16
fetch32 a = do low ← fetch16 a; high ← fetch16 (add32 a 2); pure (low + high * 2 ^ 16)

-- What the headers say: `section_count`, `entry_point`, `image_base`, and where the section headers
-- stand in the file.
pub record Headers : Type 0 where
  pub section_count : ℕ
  pub entry_point : ℕ
  pub image_base : ℕ
  pub sections_addr : ℕ

-- The checks of the headers behind the signature. A `struct pe_header` has 24 bytes, a
-- `struct pe_section_header` 40.
unfoldable pub read_optional : (file_data file_size e_lfanew : ℕ) → Io Loader (Option Headers)
unfolding fetch16 fetch32
read_optional file_data file_size e_lfanew = do
  let pe_hdr = add32 file_data e_lfanew
  let opt_hdr_addr = add32 e_lfanew 24
  optional_header_size ← fetch16 (add32 pe_hdr 20)
  let opt_hdr = add32 file_data opt_hdr_addr
  let sections_addr = add32 opt_hdr_addr optional_header_size
  if ltb file_size sections_addr then pure none else do
    entry_point ← fetch32 (add32 opt_hdr 16)
    section_count ← fetch16 (add32 pe_hdr 6)
    if ltb file_size (add32 sections_addr (section_count * 40)) then pure none else do
      image_base ← fetch32 (add32 opt_hdr 28)
      pure (
          some (record {
            section_count = section_count;
            entry_point = entry_point;
            image_base = image_base;
            sections_addr = sections_addr;
          }))

-- The checks before anything is loaded. A `struct pe_dos_header` has 64 bytes.
unfoldable pub read_headers : (file_data file_size : ℕ) → Io Loader (Option Headers)
unfolding fetch16 fetch32 read_optional
read_headers file_data file_size = if (file_data == 0) || ltb file_size 64 then pure none else do
  e_magic ← fetch16 file_data
  if not (e_magic == 23117) then pure none else do
    e_lfanew ← fetch32 (add32 file_data 60)
    if ltb file_size (add32 e_lfanew 24) then pure none else do
      signature ← fetch32 (add32 file_data e_lfanew)
      if not (signature == 17744) then pure none else read_optional file_data file_size e_lfanew

-- The fields of a `struct pe_section_header` that are read.
pub record Section : Type 0 where
  pub virtual_size : ℕ
  pub virtual_address : ℕ
  pub raw_data_size : ℕ
  pub raw_data_pointer : ℕ

-- the section header at an address
unfoldable pub section_at : (a : ℕ) → Io Loader Section
unfolding fetch32
section_at a = do
  virtual_address ← fetch32 (add32 a 12)
  virtual_size ← fetch32 (add32 a 8)
  raw_data_pointer ← fetch32 (add32 a 20)
  raw_data_size ← fetch32 (add32 a 16)
  pure (record {
    virtual_size = virtual_size;
    virtual_address = virtual_address;
    raw_data_size = raw_data_size;
    raw_data_pointer = raw_data_pointer;
  })
