-- ===== src/Pe/Keeps.antt =====
-- The parts of `pe_load` of kernel/core/pe.c that leave the kernel's directory the one it was.
use khazaros.Base.{ℕ, zero, suc, ◌+◌, ◌*◌, ◌/◌, ◌%◌, ◌≡◌, ap, ◌∙◌, Option, none, some}
use mathlib.Core.Option
use khazaros.LibK.Memory.{store8}
use khazaros.Fat.{Io, ◌>>=◌}
use khazaros.Pmm
use khazaros.Vmm.{switch_directory}
use khazaros.Vmm.Init.Ranges.{map_page-directories}
use khazaros.Pe.{Loader, add32, locate, fetch, put, fill, copy_dword, copy_words, copy_rest, copy}
use khazaros.Pe.Load.{user_page, map_block, add_page, add_pages, switch}
use khazaros.Pe.Reads.{After, After-then, Same, Reads, fetch-Reads}

-- The kernel's directory is that one.
abbrev pub Kernel : (k : ℕ) → {A : Type 0} → A → Loader → Type 0
Kernel k a s = s.vmm.kernel_directory ≡ k

abbrev pub KeepsKernel : (k : ℕ) → {A : Type 0} → Io Loader A → Type 0
KeepsKernel k m = (s : Loader) → s.vmm.kernel_directory ≡ k → After (Kernel k) (m s)

module _ (k : ℕ) where
  KeepsKernel-then :
      {A B : Type 0} (m : Io Loader A) (f : A → Io Loader B)
      → KeepsKernel k m
      → ((a : A) → KeepsKernel k (f a))
      → KeepsKernel k (m >>= f)
  KeepsKernel-then m f h g s e =
      After-then (Kernel k) (Kernel k) (m s) f (h s e) (λ a s' e'. g a s' e')

  pub Reads-KeepsKernel : {A : Type 0} (m : Io Loader A) → Reads m → KeepsKernel k m
  Reads-KeepsKernel m h s e = same (m s) (h s)
    where
      same : {A : Type 0} (o : Option (A × Loader)) → After (Same s) o → After (Kernel k) o
      same none u = tt
      same (some (a, s')) q = ap (λ (t : Loader). t.vmm.kernel_directory) q ∙ e

  put-KeepsKernel : (a v : ℕ) → KeepsKernel k (put a v)
  unfolding put
  put-KeepsKernel a v s e = stored (locate a s.vmm)
    where
      stored :
          (o : Option ℕ)
          → After (Kernel k) (Option.map (λ p. (tt, record s { memory = store8 s.memory p v })) o)
      stored none = tt
      stored (some p) = e

  fill-KeepsKernel : (left a v : ℕ) → KeepsKernel k (fill left a v)
  unfolding fill
  fill-KeepsKernel zero a v = λ s e. e
  fill-KeepsKernel (suc left) a v =
      KeepsKernel-then (put a v) (λ u. fill left (add32 a 1) v) (put-KeepsKernel a v)
        λ u. fill-KeepsKernel left (add32 a 1) v

  fetch-KeepsKernel : (a : ℕ) → KeepsKernel k (fetch a)
  fetch-KeepsKernel a = Reads-KeepsKernel (fetch a) (fetch-Reads a)

  copy_dword-KeepsKernel : (dst src : ℕ) → KeepsKernel k (copy_dword dst src)
  unfolding copy_dword
  copy_dword-KeepsKernel dst src = KeepsKernel-then (fetch _) _ (fetch-KeepsKernel _) λ b₀.
      KeepsKernel-then (fetch _) _ (fetch-KeepsKernel _) λ b₁.
        KeepsKernel-then (fetch _) _ (fetch-KeepsKernel _) λ b₂.
          KeepsKernel-then (fetch _) _ (fetch-KeepsKernel _) λ b₃.
            KeepsKernel-then (put _ _) _ (put-KeepsKernel _ _) λ u₀.
              KeepsKernel-then (put _ _) _ (put-KeepsKernel _ _)
                λ u₁. KeepsKernel-then (put _ _) _ (put-KeepsKernel _ _) λ u₂. put-KeepsKernel _ _

  copy_words-KeepsKernel : (left dst src : ℕ) → KeepsKernel k (copy_words left dst src)
  unfolding copy_words
  copy_words-KeepsKernel zero dst src = λ s e. e
  copy_words-KeepsKernel (suc left) dst src =
      KeepsKernel-then (copy_dword dst src) (λ u. copy_words left (add32 dst 4) (add32 src 4))
        (copy_dword-KeepsKernel dst src)
        λ u. copy_words-KeepsKernel left (add32 dst 4) (add32 src 4)

  copy_rest-KeepsKernel : (left dst src : ℕ) → KeepsKernel k (copy_rest left dst src)
  unfolding copy_rest
  copy_rest-KeepsKernel zero dst src = λ s e. e
  copy_rest-KeepsKernel (suc left) dst src =
      KeepsKernel-then (fetch src) _ (fetch-KeepsKernel src) λ b.
        KeepsKernel-then (put dst b) (λ u. copy_rest left (add32 dst 1) (add32 src 1))
          (put-KeepsKernel dst b) λ u. copy_rest-KeepsKernel left (add32 dst 1) (add32 src 1)

  pub copy-KeepsKernel : (dst src count : ℕ) → KeepsKernel k (copy dst src count)
  unfolding copy
  copy-KeepsKernel dst src count =
      KeepsKernel-then (copy_words (count / 4) dst src)
        (λ u. copy_rest (count % 4) (add32 dst (count / 4 * 4)) (add32 src (count / 4 * 4)))
        (copy_words-KeepsKernel (count / 4) dst src)
        λ u.
          copy_rest-KeepsKernel (count % 4) (add32 dst (count / 4 * 4)) (add32 src (count / 4 * 4))

  add_page-KeepsKernel : (virt : ℕ) → KeepsKernel k (add_page virt)
  unfolding add_page map_block
  add_page-KeepsKernel virt s e = fill-KeepsKernel 4096 virt 0 (map_block virt s) (
      (map_page-directories (Pmm.alloc_block s.vmm.pmm).0 virt user_page
        (record (s.vmm) { pmm = (Pmm.alloc_block s.vmm.pmm).1 })).0
      ∙ e)

  pub add_pages-KeepsKernel : (left j virt : ℕ) → KeepsKernel k (add_pages left j virt)
  unfolding add_pages
  add_pages-KeepsKernel zero j virt = λ s e. e
  add_pages-KeepsKernel (suc left) j virt =
      KeepsKernel-then (add_page (add32 virt (j * 4096))) (λ u. add_pages left (j + 1) virt)
        (add_page-KeepsKernel (add32 virt (j * 4096))) λ u. add_pages-KeepsKernel left (j + 1) virt

  pub switch-KeepsKernel : (dir : ℕ) → KeepsKernel k (switch dir)
  unfolding switch switch_directory
  switch-KeepsKernel dir s e = e
