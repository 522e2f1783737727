-- ===== src/MemRegion/Region/Construct.antt =====
-- The constructor of `MemRegion`: when it succeeds, and what it establishes.
use mm_mem.Base.{
  ℕ, ◌+◌, ◌/◌, ◌^◌, ◌≤◌, ◌<◌, ◌≡◌, refl, ◌⊎◌, lt→ltb, none, some, arith, ltb, if◌then◌else◌,
}
use native.Mathlib.Nat.{div-mul-le_self}
use mm_mem.Base.Returns.{Returns, returns}
use mm_mem.Base.Int.{ℤ}
use mm_mem.MemRegion.Region.{Os, div_or_trap, alloc_native, construct}
use mm_mem.MemRegion.Tour.{IsRegion}

pub div_or_trap-pos : (a b : ℕ) → 0 < b → div_or_trap a b ≡ some (a / b)
unfolding div_or_trap
div_or_trap-pos a b h = ground arith

-- The page size that is used: a page larger than the active size is replaced by 4096 bytes.
abbrev pub used_page : (active_size page_size : ℕ) → ℕ
used_page active_size page_size = if ltb active_size page_size then 4096 else page_size

module _ (os : Os) (size active page line mem_type : ℕ) (huge : ℤ) where
  -- With a page size or a line size of zero the constructor traps.
  pub construct-zero :
      (page ≡ 0) ⊎ (line ≡ 0) → construct os size active page line mem_type huge ≡ none
  unfolding construct div_or_trap
  construct-zero z = ground arith

  -- When the allocation of a positive size succeeds within the address space, the constructor with
  -- a positive page size, a line of at least 8 bytes and an active size within the size gives a
  -- well-formed region with the documented counts.
  pub construct-IsRegion :
      (a real : ℕ)
      → 0 < size
      → 0 < page
      → 8 ≤ line
      → active ≤ size
      → a + size < 2 ^ 64
      → alloc_native os mem_type huge size ≡ some (a, real)
      → Returns
          (λ r.
            IsRegion r a
            × (r.size ≡ size)
            × (r.active_size ≡ active)
            × (r.line_size ≡ line)
            × (r.page_size ≡ used_page active page)
            × (r.num_active_pages ≡ active / used_page active page)
            × (r.num_lines_in_page ≡ used_page active page / line)
            × (r.real_size ≡ real))
          (construct os size active page line mem_type huge)
  unfolding construct
  construct-IsRegion a real pos page_pos wide within fits got =
      let used = used_page active page in
      let used_pos : 0 < used = ground arith in
      let line_pos : 0 < line = omega arith in
      rw
        (
          div_or_trap-pos size page page_pos,
          div_or_trap-pos active page page_pos,
          div_or_trap-pos page line line_pos,
          div_or_trap-pos size used used_pos,
          div_or_trap-pos active used used_pos,
          div_or_trap-pos used line line_pos,
          lt→ltb 0 size pos,
          got,
        )
        (returns (
          record {
            located = refl;
            fits = fits;
            within = within;
            pages = div-mul-le_self active used;
            lines = div-mul-le_self used line;
            wide = wide;
          },
          refl,
          refl,
          refl,
          refl,
          refl,
          refl,
          refl,
        ))
