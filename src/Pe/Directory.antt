-- ===== src/Pe/Directory.antt =====
-- Which directory is in use after `pe_load` of kernel/core/pe.c, and what it returns.
use khazaros.Base.{
  ℕ, zero, suc, ◌+◌, ◌*◌, ◌/◌, ◌^◌, ◌<◌, ◌≡◌, refl, ap, ◌∙◌, Bool, true, false, not, Option, none,
  some, ◌==◌, ltb, if◌then◌else◌, Bool-cases, inl, inr, arith,
}
use khazaros.Fat.{Io, pure, and_then, ◌>>◌}
use khazaros.Vmm.{p2v, v2p, switch_directory}
use khazaros.Vmm.Free.{get_kernel_directory}
use khazaros.Pe.{Loader, add32, copy, Headers, read_headers, Section, section_at}
use khazaros.Pe.Load.{
  user_stack_base, add_pages, switch, switch_back, map_section, copy_section, load_section,
  load_sections, Loaded, load_image, load_from, pe_load,
}
use khazaros.Pe.Reads.{After, After-then, Same, read_headers-Reads, section_at-Reads}
use khazaros.Pe.Keeps.{
  Kernel, Reads-KeepsKernel, add_pages-KeepsKernel, switch-KeepsKernel, copy-KeepsKernel,
}

-- the entry point and the end of the stack
abbrev pub loaded_at : Headers → Loaded
loaded_at h = record { entry_point = add32 h.entry_point h.image_base; user_stack_top = 2952806400 }

module _ (k : ℕ) where
  -- The kernel's directory is that one, and in use.
  abbrev pub Back : {A : Type 0} → A → Loader → Type 0
  Back a s = (s.vmm.kernel_directory ≡ k) × (s.vmm.current_directory ≡ k)

  -- What is returned of an accepted image: nothing, or where it starts.
  abbrev pub IsLoaded : Headers → Option Loaded → Loader → Type 0
  IsLoaded h none s = Back tt s
  IsLoaded h (some l) s = Back l s × (l ≡ loaded_at h)

  module _ (word : k < 2 ^ 32) where
    switch_back-Back : (s : Loader) → s.vmm.kernel_directory ≡ k → After Back (switch_back s)
    unfolding switch_back switch get_kernel_directory switch_directory
    switch_back-Back s e = (e, ap (λ a. v2p (p2v a)) e ∙ omega arith)

    map_section-Back :
        (target_dir virt page_count : ℕ) (s : Loader)
        → s.vmm.kernel_directory ≡ k
        → After Back (map_section target_dir virt page_count s)
    unfolding map_section
    map_section-Back target_dir virt page_count s e =
        After-then (Kernel k) Back (switch (v2p target_dir) s) _
          (switch-KeepsKernel k (v2p target_dir) s e)
          λ u s₁ e₁.
            After-then (Kernel k) Back (add_pages page_count 0 virt s₁) (λ u. switch_back)
              (add_pages-KeepsKernel k page_count 0 virt s₁ e₁) λ u₂ s₂ e₂. switch_back-Back s₂ e₂

    copy_section-Back :
        (target_dir virt source size : ℕ) (s : Loader)
        → s.vmm.kernel_directory ≡ k
        → After Back (copy_section target_dir virt source size s)
    unfolding copy_section
    copy_section-Back target_dir virt source size s e =
        After-then (Kernel k) Back (switch (v2p target_dir) s) _
          (switch-KeepsKernel k (v2p target_dir) s e)
          λ u s₁ e₁.
            After-then (Kernel k) Back (copy virt source size s₁) (λ u. switch_back)
              (copy-KeepsKernel k virt source size s₁ e₁) λ u₂ s₂ e₂. switch_back-Back s₂ e₂

    load_section-Back :
        (file_data file_size target_dir image_base : ℕ) (section : Section) (s : Loader)
        → s.vmm.kernel_directory ≡ k
        → After Back (load_section file_data file_size target_dir image_base section s)
    unfolding load_section
    load_section-Back file_data file_size target_dir image_base section s e =
        After-then Back Back
          (map_section target_dir virt_addr (add32 section.virtual_size 4095 / 4096) s)
          (λ u. copied)
          (map_section-Back target_dir virt_addr (add32 section.virtual_size 4095 / 4096) s e)
          λ u s₁ b.
            elim (Bool-cases
              (ltb file_size (add32 section.raw_data_pointer section.raw_data_size))) [
                | inl t ↦ rw t b
                | inr f ↦ rw f (elim (Bool-cases (section.raw_data_size == 0)) [
                  | inl z ↦ rw z b
                  | inr nz ↦ rw nz (
                      After-then Back Back _ (λ u. pure true)
                        (copy_section-Back target_dir virt_addr _ section.raw_data_size s₁ b.0)
                        (λ u s₂ b₂. b₂))
                ])
              ]
      where
        virt_addr : ℕ
        virt_addr = add32 section.virtual_address image_base

        copied : Io Loader Bool
        copied =
            if ltb file_size (add32 section.raw_data_pointer section.raw_data_size)
            then pure false
            else if section.raw_data_size == 0
            then pure true
            else (do
              copy_section target_dir virt_addr (add32 file_data section.raw_data_pointer)
                  section.raw_data_size
              pure true)

    -- After the sections: where one was refused the kernel's directory is in use.
    abbrev Done : Bool → Loader → Type 0
    Done true s = s.vmm.kernel_directory ≡ k
    Done false s = Back tt s

    load_sections-Done :
        (left i file_data file_size target_dir : ℕ) (h : Headers) (s : Loader)
        → s.vmm.kernel_directory ≡ k
        → After Done (load_sections left i file_data file_size target_dir h s)
    unfolding load_sections
    load_sections-Done zero i file_data file_size target_dir h s e = e
    load_sections-Done (suc left) i file_data file_size target_dir h s e =
        After-then (Kernel k) Done (section_at at s) _
          (Reads-KeepsKernel k (section_at at) (section_at-Reads at) s e)
          λ section s₁ e₁.
            After-then Back Done
              (load_section file_data file_size target_dir h.image_base section s₁)
              (λ ok. if ok then rest else pure false)
              (load_section-Back file_data file_size target_dir h.image_base section s₁ e₁)
              λ ok s₂ b. elim (Bool-cases ok) [
                | inl t ↦
                    rw t (load_sections-Done left (i + 1) file_data file_size target_dir h s₂ b.0)
                | inr f ↦ rw f b
              ]
      where
        at : ℕ
        at = add32 file_data (h.sections_addr + 40 * i)

        rest : Io Loader Bool
        rest = load_sections left (i + 1) file_data file_size target_dir h

    load_image-IsLoaded :
        (file_data file_size target_dir : ℕ) (h : Headers) (s : Loader)
        → s.vmm.kernel_directory ≡ k
        → After (IsLoaded h) (load_image file_data file_size target_dir h s)
    unfolding load_image
    load_image-IsLoaded file_data file_size target_dir h s e =
        After-then Done (IsLoaded h)
          (load_sections h.section_count 0 file_data file_size target_dir h s)
          (λ ok. if not ok then pure none else with_stack)
          (load_sections-Done h.section_count 0 file_data file_size target_dir h s e) stack
      where
        with_stack : Io Loader (Option Loaded)
        with_stack = do map_section target_dir user_stack_base 4; pure (some (loaded_at h))

        stack :
            (ok : Bool) (s₁ : Loader)
            → Done ok s₁
            → After (IsLoaded h) ((if not ok then pure none else with_stack) s₁)
        stack false s₁ d = d
        stack true s₁ d =
            After-then Back (IsLoaded h) (map_section target_dir user_stack_base 4 s₁)
              (λ u. pure (some (loaded_at h))) (map_section-Back target_dir user_stack_base 4 s₁ d)
              λ u s₂ b. (b, refl)

-- What `pe_load` may do, by whether `target_dir` is `NULL` and by what reading the headers gives.
abbrev pub LoadOutcome :
    (k : ℕ)
    → (null : Bool) → Option (Option Headers × Loader)
    → Loader
    → Option (Option Loaded × Loader)
    → Type 0
LoadOutcome k true o s r = r ≡ some (none, s)
LoadOutcome k false none s r = r ≡ none
LoadOutcome k false (some (none, s₁)) s r = r ≡ some (none, s)
LoadOutcome k false (some (some h, s₁)) s r = After (IsLoaded k h) r

-- Where `target_dir` is `NULL` or the headers are refused, `pe_load` returns false and leaves the
-- whole state as it was. Where the headers are accepted, it ends in a page fault, or leaves the
-- kernel's directory, which it does not change, in use, and returns false, or the entry point of the
-- headers plus the image's base and the end of the 16 KiB of stack at 0xB0000000. Where reading the
-- headers is a page fault, so is the whole. The kernel's directory has a 32-bit address.
pub pe_load-directory :
    (file_data file_size target_dir : ℕ) (s : Loader)
    → s.vmm.kernel_directory < 2 ^ 32
    → LoadOutcome s.vmm.kernel_directory
        (target_dir == 0)
        (read_headers file_data file_size s)
        s
        (pe_load file_data file_size target_dir s)
unfolding pe_load load_from
pe_load-directory file_data file_size target_dir s word = elim (Bool-cases (target_dir == 0)) [
  | inl e ↦ rw e refl
  | inr ne ↦
      rw ne
        (by_headers (read_headers file_data file_size s) (read_headers-Reads file_data file_size s))
]
  where
    by_headers :
        (o : Option (Option Headers × Loader))
        → After (Same s) o
        → LoadOutcome s.vmm.kernel_directory false o s
            (and_then o (λ h. load_from h file_data file_size target_dir))
    by_headers none e = refl
    by_headers (some (none, s₁)) e = ap (λ t. some (none, t)) e
    by_headers (some (some h, s₁)) e =
        load_image-IsLoaded s.vmm.kernel_directory word file_data file_size target_dir h s₁
          (ap (λ (t : Loader). t.vmm.kernel_directory) e)
