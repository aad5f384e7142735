-- ===== src/Vmm/Init/Outcome.antt =====
-- What `vmm_init` of kernel/mm/paging/vmm.c returns and leaves.
use khazaros.Base.{
  ℕ, ◌+◌, ◌-◌, ◌*◌, ◌/◌, ◌^◌, ◌<◌, ◌≤◌, ◌≡◌, ◌⊎◌, refl, sym, ap, ◌∙◌, Bool, true, false, ◌&&◌,
  arith, ◌==◌, ltb, leb, if◌then◌else◌, Bool-cases, inl, inr, ==→eq, ==→ne,
}
use khazaros.Pmm
use khazaros.Pmm.{Pmm}
use khazaros.Pmm.View.{taken}
use khazaros.Pmm.Alloc.{Allocates, alloc_block_lem}
use khazaros.Vmm.{Vmm, get_phys, switch_directory}
use khazaros.Vmm.Space.{IsSpace}
use khazaros.Vmm.Init.{map_range, new_directory, init}
use khazaros.Vmm.{kernel_virt_base}
use khazaros.Vmm.Init.Ranges.{Covers, IsOut, Ranged, map_range-Ranged, new_directory-Ranged}

-- the first megabyte, where nothing else is mapped
abbrev low_map : ℕ → ℕ
low_map w = if leb 0 w && ltb w (0 + (0 + 4096 * 256)) then w / 4096 * 4096 - 0 else 0

-- what `vmm_init` maps: the first megabyte, and 128 megabytes behind 0xC0000000
unfoldable pub kernel_map : ℕ → ℕ
kernel_map w =
    if leb kernel_virt_base w && ltb w (kernel_virt_base + 134217728)
    then w / 4096 * 4096 - kernel_virt_base
    else if ltb w 1048576
    then w / 4096 * 4096
    else 0

-- What `vmm_init` returns, and the state that it leaves.
abbrev pub InitOutcome : Vmm → Bool × Vmm → Type 0
InitOutcome s (done, s') =
    ((done ≡ true)
      × IsSpace s'
      × (s'.kernel_directory ≡ s'.current_directory)
      × (((w : ℕ) → w < 2 ^ 32 → get_phys w s' ≡ kernel_map w) ⊎ IsOut s'))
    ⊎ ((done ≡ false) × IsOut s)

Covers-next :
    (before : ℕ → ℕ) (s : Vmm)
    → ((w : ℕ) → w < 2 ^ 32 → get_phys w s ≡ before w)
    → Covers kernel_virt_base 0 before s
Covers-next before s h w b = ground (arith, h w b)

-- The second loop starts where the first has ended.
Ranged-next :
    (pd n : ℕ) (before : ℕ → ℕ) (s : Vmm)
    → Ranged pd 0 n before s
    → Ranged pd kernel_virt_base 0
        (λ w. if leb 0 w && ltb w (0 + n) then w / 4096 * 4096 - 0 else before w)
        s
Ranged-next pd n before s r = record {
  space = r.space;
  zero_taken = r.zero_taken;
  kernel = r.kernel;
  current = r.current;
  covers = elim r.covers [ inl c ↦ inl (Covers-next _ s c) | inr out ↦ inr out ];
}

switched :
    (pd n : ℕ) (before : ℕ → ℕ) (s : Vmm)
    → Ranged pd kernel_virt_base n before s
    → switch_directory pd s ≡ s
unfolding switch_directory
switched pd n before s r = rw (sym r.current) refl

-- Both loops.
loops-Ranged :
    (s : Vmm) (b pt : ℕ) (pmm : Pmm)
    → s.pmm.max_blocks ≤ 2 ^ 20
    → taken s.pmm 0 ≡ true
    → Allocates s.pmm b pt pmm
    → Ranged pt kernel_virt_base
        (0 + 4096 * 32768)
        low_map
        (map_range 32768 0 kernel_virt_base (map_range 256 0 0 (new_directory pt pmm s)))
loops-Ranged s b pt pmm few t a =
    map_range-Ranged 32768 pt kernel_virt_base 0 low_map _ (omega arith) (omega arith) (omega arith)
      (Ranged-next pt (0 + 4096 * 256) (λ w. 0) _
        (map_range-Ranged 256 pt 0 0 (λ w. 0) _ (omega arith) (omega arith) (omega arith)
          (new_directory-Ranged s b pt pmm few t a)))

covers-kernel_map :
    (w : ℕ)
    → (if leb kernel_virt_base w && ltb w (kernel_virt_base + (0 + 4096 * 32768))
        then w / 4096 * 4096 - kernel_virt_base
        else low_map w)
      ≡ kernel_map w
unfolding kernel_map
covers-kernel_map w = ground arith

-- With at most 2^20 blocks, of which the first is in use: `vmm_init` returns false only where no
-- block is left for the directory. Where it returns true the tables are well formed, the kernel's
-- directory is the current one, and the pages it maps are the first megabyte, each to itself, and
-- the 128 megabytes from 0xC0000000 on, to the frames from 0 on, and no others; or the memory has
-- run out of blocks for the tables, which the code does not report.
pub init_lem : (s : Vmm) → s.pmm.max_blocks ≤ 2 ^ 20 → taken s.pmm 0 ≡ true → InitOutcome s (init s)
unfolding init
init_lem s few t = elim (Bool-cases ((Pmm.alloc_block s.pmm).0 == 0)) [
  | inl e ↦ rw e (inr (refl, ==→eq _ _ e))
  | inr ne ↦ elim (alloc_block_lem s.pmm) [
    | inl (full, e) ↦ absurd (==→ne _ _ ne (ap (λ r. r.0) e))
    | inr (b, a) ↦
        let r = loops-Ranged s b (Pmm.alloc_block s.pmm).0 (Pmm.alloc_block s.pmm).1 few t a in
        rw (ne, switched _ _ low_map _ r)
          (inl (
            refl,
            r.space,
            r.kernel ∙ sym r.current,
            elim r.covers [ inl c ↦ inl (λ w h. c w h ∙ covers-kernel_map w) | inr out ↦ inr out ],
          ))
  ]
]
