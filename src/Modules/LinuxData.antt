-- ===== src/Modules/LinuxData.antt =====
-- What `get_module_data` gives, and the segments that it covers.
use libhat.Prelude.{
  ℕ, ◌+◌, ◌%◌, ◌^◌, ◌<◌, ◌≤◌, ltb, ◌≡◌, List, [], ◌∷◌, All, map, if◌then◌else◌, arith,
}
use native.Mathlib.Nat.{mod-eq_of_lt}
use libhat.Modules.Spans.{ByteSpan, Section}
use libhat.Modules.Visit.{keep, while_true-keep-map}
use libhat.Modules.Linux.{
  Phdr, ModuleImplementation, segment_end, max_end, get_module_data, to_segment, for_each_segment,
}

-- The largest end is no less than each, and than where the loop began.
max_end-le :
    (max : ℕ) (headers : List Phdr)
    → (max ≤ max_end max headers) × All (λ h. segment_end h ≤ max_end max headers) headers
unfolding max_end
max_end-le max [] = (omega arith, tt)
max_end-le max (h ∷ headers) =
    let next = if ltb max (segment_end h) then segment_end h else max in
    let rest = max_end-le next headers in
    let grows = next-le max (segment_end h) in
    (omega (arith, rest.0, grows.0), (omega (arith, rest.0, grows.1), rest.1))
  where
    next-le : (a b : ℕ) → (a ≤ (if ltb a b then b else a)) × (b ≤ (if ltb a b then b else a))
    next-le a b = ground arith

module _ (m : ModuleImplementation) where
  -- The segments do not wrap round.
  abbrev pub Fits : Phdr → Type 0
  Fits h = m.base_address + (h.p_vaddr + h.p_memsz) < 2 ^ 64

  -- The bytes lie in those of the module.
  abbrev pub IsInModule : Section → Type 0
  IsInModule s =
      (ByteSpan.address (get_module_data m) ≤ ByteSpan.address (Section.bytes s))
      × (ByteSpan.address (Section.bytes s) + ByteSpan.size (Section.bytes s)
          ≤ ByteSpan.address (get_module_data m) + ByteSpan.size (get_module_data m))

  segments-IsInModule :
      (headers : List Phdr)
      → All Fits headers
      → All (λ h. segment_end h ≤ max_end 0 m.program_headers) headers
      → All IsInModule (map (to_segment m.base_address) headers)
  unfolding get_module_data to_segment
  segments-IsInModule [] fits ends = tt
  segments-IsInModule (h ∷ headers) fits ends =
      let begins : (m.base_address + h.p_vaddr) % 2 ^ 64 ≡ m.base_address + h.p_vaddr =
        mod-eq_of_lt (omega (arith, fits.0)) in
      let end : segment_end h ≡ h.p_vaddr + h.p_memsz = mod-eq_of_lt (omega (arith, fits.0)) in
      (
        rw begins (omega arith, omega (arith, end, ends.0)),
        segments-IsInModule headers fits.1 ends.1,
      )

  -- If no program header wraps round behind the base address, the bytes of every segment that
  -- `for_each_segment` visits on Linux lie in the bytes of `get_module_data`.
  pub get_module_data-for_each_segment :
      All Fits m.program_headers → All IsInModule (for_each_segment m keep [])
  unfolding for_each_segment
  get_module_data-for_each_segment fits =
      rw (while_true-keep-map (to_segment m.base_address) [] m.program_headers)
        (segments-IsInModule m.program_headers fits (max_end-le 0 m.program_headers).1)
