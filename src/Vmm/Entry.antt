-- ===== src/Vmm/Entry.antt =====
-- What an entry says: the frame in its upper 20 bits, the present flag in its lowest.
use khazaros.Base.{ℕ, ◌+◌, ◌*◌, ◌/◌, ◌%◌, ◌^◌, ◌<◌, ◌≡◌, ap, ◌∙◌, bit_or, true, arith, ◌==◌}
use khazaros.Base.Bits.{
  bit_and-low, bit_and-shift, bit_or-fields, bit_or-low, bit_or_bound, bit_or-odd,
}
use khazaros.Vmm.{pt_index, frame_of, is_present, make_entry}

pub pt_index_lem : (virt : ℕ) → pt_index virt ≡ virt / 2 ^ 12 % 1024
unfolding pt_index
pt_index_lem virt = bit_and-low 10 (virt / 2 ^ 12)

pub pt_index-lt : (virt : ℕ) → pt_index virt < 1024
pt_index-lt virt = omega (arith, pt_index_lem virt)

pub frame_of_lem : (e : ℕ) → e < 2 ^ 32 → frame_of e ≡ e / 4096 * 4096
unfolding frame_of
frame_of_lem e h =
    bit_and-shift 12 e 0xf_ffff ∙ ap (λ t. t * 4096) (bit_and-low 20 (e / 4096) ∙ omega arith)

pub is_present_lem : (e : ℕ) → is_present e ≡ (e % 2 == 1)
unfolding is_present
is_present_lem e = ground (arith, bit_and-low 1 e)

module _ (frame flags : ℕ) (aligned : frame % 4096 ≡ 0) (small : flags < 4096) where
  make_entry_lem : make_entry frame flags ≡ frame + bit_or flags 1
  unfolding make_entry
  make_entry_lem =
      ap (λ t. bit_or t 1)
        (ap (λ t. bit_or t flags) whole ∙ bit_or-fields 12 (frame / 4096) flags small)
      ∙ bit_or-low 12 (frame / 4096) flags 1 small (omega arith)
      ∙ omega arith
    where
      whole : frame ≡ frame / 4096 * 2 ^ 12
      whole = omega arith

  pub is_present-make_entry : is_present (make_entry frame flags) ≡ true
  is_present-make_entry =
      is_present_lem (make_entry frame flags) ∙ ground (arith, make_entry_lem, bit_or-odd flags)

  pub frame_of-make_entry : frame < 2 ^ 32 → frame_of (make_entry frame flags) ≡ frame
  frame_of-make_entry word =
      frame_of_lem (make_entry frame flags) (omega (arith, make_entry_lem, bound))
      ∙ omega (arith, make_entry_lem, bound)
    where
      bound : bit_or flags 1 < 4096
      bound = bit_or_bound 12 flags 1 small (omega arith)
