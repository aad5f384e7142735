-- ===== src/Net/Arp/Cache.antt =====
-- The address cache is a map of at most eight addresses.
use khazaros.Base.{
  ℕ, ◌<◌, ◌≡◌, ◌≢◌, refl, sym, ap, ◌∙◌, true, false, none, some, arith, ◌==◌, if◌then◌else◌,
  Bool-cases, Option-cases, inl, inr, ==-refl, ne→==,
}
use khazaros.Base.Search.{
  find_from, IsFirst, find_from-some, find_from-none, find_from-hit, find_from-miss,
}
use khazaros.Base.Window.{put}
use khazaros.Net.Link.{Mac}
use khazaros.Net.Arp.{
  ArpCache, is_for, is_empty, empty_slot, put_slot, arp_cache_put, entry_mac, arp_lookup,
}

-- No two entries are for one address.
abbrev pub IsArp : ArpCache → Type 0
IsArp c = (ip i j : ℕ) → i < 8 → j < 8 → is_for ip c i ≡ true → is_for ip c j ≡ true → i ≡ j

-- the slot that `arp_cache_put` writes
abbrev pub slot : (ip : ℕ) → ArpCache → ℕ
slot ip c = put_slot (find_from (is_for ip c) 8 0) c

-- An entry of a cache is what a lookup of its address finds.
lookup-entry :
    (ip i : ℕ) (c : ArpCache)
    → IsArp c
    → i < 8
    → is_for ip c i ≡ true
    → arp_lookup ip c ≡ some (c i).mac
unfolding arp_lookup entry_mac
lookup-entry ip i c unique lt here = rw (find_from-hit (is_for ip c) 8 0 first) refl
  where
    first : IsFirst (is_for ip c) 8 0 i
    first = record {
      from = omega arith;
      below = omega arith;
      passes = here;
      earlier = λ k a b. elim (Bool-cases (is_for ip c k)) [
        | inl same ↦ absurd (omega (arith, unique ip k i (omega arith) lt same here))
        | inr other ↦ other
      ];
    }

lookup-absent :
    (ip : ℕ) (c : ArpCache) → ((k : ℕ) → k < 8 → is_for ip c k ≡ false) → arp_lookup ip c ≡ none
unfolding arp_lookup entry_mac
lookup-absent ip c none_for =
    rw (find_from-miss (is_for ip c) 8 0 (λ k a b. none_for k (omega arith))) refl

slot_small : (ip : ℕ) (c : ArpCache) → slot ip c < 8
unfolding put_slot empty_slot
slot_small ip c = elim (Option-cases (find_from (is_for ip c) 8 0)) [
  | inr (i, here) ↦ rw here (find_from-some (is_for ip c) 8 0 here).below
  | inl absent ↦ rw absent (elim (Option-cases (find_from (is_empty c) 8 0)) [
    | inl full ↦ rw full (omega arith)
    | inr (i, free) ↦ rw free (find_from-some (is_empty c) 8 0 free).below
  ])
]

-- no entry but the one that is written is for the address
slot_only : (ip k : ℕ) (c : ArpCache) → IsArp c → k < 8 → is_for ip c k ≡ true → k ≡ slot ip c
unfolding put_slot empty_slot
slot_only ip k c unique lt here = elim (Option-cases (find_from (is_for ip c) 8 0)) [
  | inr (i, found) ↦ rw found (
      unique ip k i lt (find_from-some (is_for ip c) 8 0 found).below here
        (find_from-some (is_for ip c) 8 0 found).passes)
  | inl absent ↦
      absurd (ground (arith, find_from-none (is_for ip c) 8 0 absent k (omega arith) lt, here))
]

-- which entries are for an address afterwards
is_for-put :
    (other ip k : ℕ) (mac : Mac) (c : ArpCache)
    → is_for other (arp_cache_put ip mac c) k
      ≡ (if k == slot ip c then ip == other else is_for other c k)
unfolding arp_cache_put put is_for
is_for-put other ip k mac c = elim (Bool-cases (k == slot ip c)) [
  | inl here ↦ rw here refl
  | inr elsewhere ↦ rw elsewhere refl
]

module _ (ip : ℕ) (mac : Mac) (c : ArpCache) (unique : IsArp c) where
  -- `arp_cache_put` keeps a cache with one entry for each address.
  pub arp_cache_put-IsArp : IsArp (arp_cache_put ip mac c)
  arp_cache_put-IsArp other i j lt_i lt_j here_i here_j = ground (
    arith,
    is_for-put other ip i mac c,
    is_for-put other ip j mac c,
    here_i,
    here_j,
    unique other i j lt_i lt_j,
    λ (e : ip ≡ other). slot_only other i c unique lt_i,
    λ (e : ip ≡ other). slot_only other j c unique lt_j,
  )

  entry-put : (arp_cache_put ip mac c (slot ip c)).mac ≡ mac
  unfolding arp_cache_put put
  entry-put = rw (==-refl (slot ip c)) refl

  entry-put_other : (k : ℕ) → k ≢ slot ip c → arp_cache_put ip mac c k ≡ c k
  unfolding arp_cache_put put
  entry-put_other k ne = rw (ne→== k (slot ip c) ne) refl

  -- In a cache with one entry for each address, a lookup of an address that was just put finds
  -- what was put.
  pub arp_lookup-put : arp_lookup ip (arp_cache_put ip mac c) ≡ some mac
  arp_lookup-put =
      lookup-entry ip (slot ip c) (arp_cache_put ip mac c) arp_cache_put-IsArp (slot_small ip c)
        (is_for-put ip ip (slot ip c) mac c ∙ rw (==-refl (slot ip c)) (==-refl ip))
      ∙ ap some entry-put

  -- In a cache with one entry for each address, a lookup of another address than the one that was
  -- just put finds what it found before, unless its entry was in the slot that the new one goes
  -- to: then it finds nothing.
  pub arp_lookup-put_other :
      (other : ℕ)
      → other ≢ ip
      → arp_lookup other (arp_cache_put ip mac c)
        ≡ (if is_for other c (slot ip c) then none else arp_lookup other c)
  arp_lookup-put_other other ne = elim (Bool-cases (is_for other c (slot ip c))) [
    | inl evicted ↦ rw evicted (
        lookup-absent other (arp_cache_put ip mac c) λ k lt. ground (
          arith,
          is_for-put other ip k mac c,
          ne,
          unique other k (slot ip c) lt (slot_small ip c),
          evicted,
        ))
    | inr kept ↦ rw kept (elim (Option-cases (find_from (is_for other c) 8 0)) [
      | inl absent ↦
          lookup-absent other (arp_cache_put ip mac c) (λ k lt. ground (
            arith,
            is_for-put other ip k mac c,
            ne,
            find_from-none (is_for other c) 8 0 absent k (omega arith) lt,
          ))
          ∙ sym (
              lookup-absent other c
                λ k lt. find_from-none (is_for other c) 8 0 absent k (omega arith) lt)
      | inr (i, found) ↦
          let first = find_from-some (is_for other c) 8 0 found in
          lookup-entry other i (arp_cache_put ip mac c) arp_cache_put-IsArp first.below (
            is_for-put other ip i mac c
            ∙ ground (arith, ne, kept, first.passes, λ (e : i ≡ slot ip c). ap (is_for other c) e))
          ∙ ap (λ e. some e.mac)
              (entry-put_other i
                (λ e. absurd (ground (arith, kept, first.passes, ap (is_for other c) e))))
          ∙ sym (lookup-entry other i c unique first.below first.passes)
    ])
  ]
