-- ===== src/Pe/Page.antt =====
-- The page that `pe_load` of kernel/core/pe.c adds to a directory.
use khazaros.Base.{
  ℕ, zero, suc, ◌+◌, ◌*◌, ◌/◌, ◌%◌, ◌^◌, ◌<◌, ◌≤◌, ◌≡◌, ◌≢◌, refl, sym, ap, ◌∙◌, arith, true, false,
  Option, some, ◌==◌, if◌then◌else◌, Bool-cases, inl, inr,
}
use mathlib.Core.Bool.{true≢false}
use khazaros.LibK.Memory.{Bytes, store8}
use khazaros.LibK.Copy.{within}
use khazaros.Pmm
use khazaros.Pmm.{Pmm}
use khazaros.Pmm.View.{taken}
use khazaros.Pmm.Alloc.{Allocates, alloc_block_lem}
use khazaros.Vmm.{Vmm, frame_of, is_present, pde_at, pte_at, get_phys, map_page}
use khazaros.Vmm.Space.{IsSpace, entry, Tables-taken}
use khazaros.Vmm.Map.{Maps, map_page_lem, get_phys-pmm}
use khazaros.Pe.{Loader, add32, locate, put, fill}
use khazaros.Pe.Load.{user_page, map_block, add_page}

-- A page whose frame is not 0 is mapped.
locate-get_phys :
    (a f : ℕ) (vmm : Vmm) → get_phys a vmm ≡ f → f ≢ 0 → locate a vmm ≡ some (f + a % 4096)
unfolding locate get_phys
locate-get_phys a f vmm e ne = elim (Bool-cases (is_present pde)) [
  | inl t ↦ elim (Bool-cases (is_present pte)) [
    | inl t' ↦ rw (t, t') (ap (λ x. some (x + a % 4096)) (rw (t, t') at e))
    | inr f' ↦ absurd (ne (sym (rw (t, f') at e)))
  ]
  | inr f' ↦ absurd (ne (sym (rw f' at e)))
]
  where
    pde : ℕ
    pde = vmm.word (pde_at vmm a)

    pte : ℕ
    pte = vmm.word (pte_at (frame_of pde) a)

-- The memory with `n` bytes of zero.
abbrev pub Zeroed : (at n : ℕ) → (m m' : Bytes) → Type 0
Zeroed at n m m' = (p : ℕ) → m' p ≡ (if within at n p then 0 else m p)

-- The run comes back, with the same tables.
record Fills (o : Option (Unit {0} × Loader)) (s : Loader) (at n : ℕ) : Type 0 where
  memory : Bytes
  run : o ≡ some (tt, record s { memory = memory })
  zeroed : Zeroed at n s.memory memory

module _ (virt phys : ℕ) (word : virt + 4096 ≤ 2 ^ 32) where
  fill-Fills :
      (n i a : ℕ) (s : Loader)
      → ((j : ℕ) → j < 4096 → locate (virt + j) s.vmm ≡ some (phys + j))
      → i + n ≤ 4096
      → (0 < n → a ≡ virt + i)
      → Fills (fill n a 0 s) s (phys + i) n
  unfolding fill put store8
  fill-Fills zero i a s there h at = record {
    memory = s.memory;
    run = refl;
    zeroed = λ p. ground arith;
  }
  fill-Fills (suc n) i a s there h at =
      let s₁ : Loader = record s { memory = store8 s.memory (phys + i) 0 } in
      let rest : Fills (fill n (add32 a 1) 0 s₁) s₁ (phys + (i + 1)) n =
        fill-Fills n (i + 1) (add32 a 1) s₁ there (omega arith)
          (λ pos. omega (arith, at (omega arith))) in
      let here : locate a s.vmm ≡ some (phys + i) =
        ap (λ x. locate x s.vmm) (at (omega arith)) ∙ there i (omega arith) in
      record {
        memory = rest.memory;
        run = rw here rest.run;
        zeroed = λ p. ground (arith, rest.zeroed p);
      }

-- What `pmm_alloc_block` returns, and the tables with it allocated.
abbrev pub frame_for : Vmm → ℕ
frame_for vmm = (Pmm.alloc_block vmm.pmm).0

abbrev pub with_frame : Vmm → Vmm
with_frame vmm = record vmm { pmm = (Pmm.alloc_block vmm.pmm).1 }

-- The run comes back with a new page: a frame that was free, all of it zero. No other page is mapped
-- to another frame, and no other byte of the memory is changed.
pub record AddsPage (virt : ℕ) (s : Loader) (o : Option (Unit {0} × Loader)) : Type 0 where
  pub after : Loader
  pub run : o ≡ some (tt, after)
  pub space : IsSpace after.vmm
  pub was_free : taken s.vmm.pmm (frame_for s.vmm / 4096) ≡ false
  pub maps : Maps virt (frame_for s.vmm) s.vmm after.vmm
  pub zeroed : Zeroed (frame_for s.vmm) 4096 s.memory after.memory

user_page-lt : user_page < 4096
user_page-lt = omega arith

-- On well-formed tables, for an address that is a multiple of 4096 and below 2^32, where
-- `pmm_alloc_block` does not return NULL and `vmm_map_page` then returns true, adding a page comes
-- back: the block was free and is the frame of the page in `vmm_get_phys`, every other page has the
-- frame it had, the tables stay well formed, and the frame is all zero and no other byte of the
-- memory has changed.
pub add_page-AddsPage :
    (virt : ℕ) (s : Loader)
    → virt < 2 ^ 32
    → virt % 4096 ≡ 0
    → IsSpace s.vmm
    → frame_for s.vmm ≢ 0
    → (map_page (frame_for s.vmm) virt user_page (with_frame s.vmm)).0 ≡ true
    → AddsPage virt s (add_page virt s)
unfolding add_page map_block
add_page-AddsPage virt s word al v some_frame mapped = elim (alloc_block_lem s.vmm.pmm) [
  | inl (full, e) ↦ absurd (some_frame (ap (λ r. r.0) e))
  | inr (b, a) ↦ by_block b a
]
  where
    phys : ℕ
    phys = frame_for s.vmm

    s₁ : Loader
    s₁ = map_block virt s

    by_block :
        (b : ℕ)
        → Allocates s.vmm.pmm b phys (Pmm.alloc_block s.vmm.pmm).1
        → AddsPage virt s (add_page virt s)
    by_block b a =
        elim (map_page_lem phys virt user_page aligned small word user_page-lt (with_frame s.vmm)
          v₁) [
            | inl (done, space, maps) ↦ by_map space maps
            | inr (failed, x, y, z) ↦ absurd (true≢false (sym mapped ∙ failed))
          ]
      where
        at : phys ≡ b * 4096
        at = omega (arith, a.pointer, a.in_bitmap, v.few_blocks)

        aligned : phys % 4096 ≡ 0
        aligned = omega (arith, at)

        small : phys < 2 ^ 32
        small = omega (arith, at, a.in_bitmap, v.few_blocks)

        v₁ : IsSpace (with_frame s.vmm)
        v₁ =
            Tables-taken s.vmm.pmm (Pmm.alloc_block s.vmm.pmm).1 s.vmm.current_directory
              (entry s.vmm) (entry s.vmm) 0 b phys v a

        by_map :
            IsSpace s₁.vmm
            → Maps virt phys (with_frame s.vmm) s₁.vmm
            → AddsPage virt s (add_page virt s)
        by_map space maps = record {
          after = record s₁ { memory = filled.memory };
          run = filled.run;
          space = space;
          was_free = rw block a.was_free;
          maps = λ w hw.
              maps w hw
              ∙ ap (λ t. if w / 4096 == virt / 4096 then phys else t)
                  (get_phys-pmm s.vmm (Pmm.alloc_block s.vmm.pmm).1 w);
          zeroed = λ p. filled.zeroed p ∙ ground arith;
        }
          where
            block : phys / 4096 ≡ b
            block = omega (arith, at)

            there : (j : ℕ) → j < 4096 → locate (virt + j) s₁.vmm ≡ some (phys + j)
            there j h =
                locate-get_phys (virt + j) phys s₁.vmm
                  (maps (virt + j) (omega arith) ∙ ground arith) some_frame
                ∙ ap (λ k. some (phys + k)) (omega arith)

            filled : Fills (fill 4096 virt 0 s₁) s₁ (phys + 0) 4096
            filled =
                fill-Fills virt phys (omega arith) 4096 0 virt s₁ there (omega arith)
                  (λ pos. omega arith)
