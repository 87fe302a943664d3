-- ===== src/Modules/MachO.antt =====
-- src/os/mac/Process.cpp: `module_implementation` and the members of `hat::process::module`, which read the
-- load commands of an image in memory, of 64 bits.
use libhat.Prelude.{
  ℕ, zero, suc, ◌+◌, ◌-◌, ◌%◌, ◌^◌, ◌==◌, ltb, Bool, true, false, not, ◌&&◌, ◌||◌, if◌then◌else◌,
  List, [], ◌∷◌, ◌++◌, tabulate, length, get_or,
}
use libhat.Protector.Flags.{read, write, execute}
use libhat.Scanner.Context.{Memory}
use libhat.Scanner.ScanResult.{read_bytes}
use libhat.Modules.Names.{name_eq, starts_with, ends_with}
use libhat.Modules.Spans.{ByteSpan, no_bytes, is_empty, Section, has_bit, with_prot, before_zero}

abbrev pub lc_segment : ℕ
lc_segment = 0x19

-- MH_MAGIC_64 and MH_CIGAM_64.
abbrev pub is_valid_header : Memory → ℕ → Bool
is_valid_header mem header =
    not (header == 0)
    && (read_bytes mem 4 header == 0xFEEDFACF || read_bytes mem 4 header == 0xCFFAEDFE)

-- `to_hat_prot`: VM_PROT_READ is 1, VM_PROT_WRITE 2 and VM_PROT_EXECUTE 4.
abbrev pub to_hat_prot : ℕ → ℕ
to_hat_prot prot = with_prot prot 4 execute (with_prot prot 2 write (with_prot prot 1 read 0))

-- The fields of `segment_command_64` and `section_64`.
module _ (mem : Memory) (at : ℕ) where
  abbrev pub segname : List ℕ
  segname = before_zero (tabulate 16 (λ i. mem (at + 8 + i)))

  abbrev pub vmaddr : ℕ
  vmaddr = read_bytes mem 8 (at + 24)

  abbrev pub vmsize : ℕ
  vmsize = read_bytes mem 8 (at + 32)

  abbrev pub initprot : ℕ
  initprot = read_bytes mem 4 (at + 60)

  abbrev pub nsects : ℕ
  nsects = read_bytes mem 4 (at + 64)

  abbrev pub sectname : List ℕ
  sectname = before_zero (tabulate 16 (λ i. mem (at + i)))

  abbrev pub section_addr : ℕ
  section_addr = read_bytes mem 8 (at + 32)

  abbrev pub section_size : ℕ
  section_size = read_bytes mem 8 (at + 40)

  abbrev pub section_flags : ℕ
  section_flags = read_bytes mem 4 (at + 64)

module _ {ℓ} {S : Type ℓ} (mem : Memory) where
  -- The loop of `for_each_segment` from the load command at an address on; the callback gets the address of a
  -- segment command. The result says whether it went on to the end.
  unfoldable pub segment_loop : (S → ℕ → S × Bool) → ℕ → ℕ → S → S × Bool
  segment_loop callback zero cmd s = (s, true)
  segment_loop callback (suc n) cmd s =
      let next = cmd + read_bytes mem 4 (cmd + 4) in
      let (s', go_on) = callback s cmd in
      let skipped = segment_loop callback n next s in
      let visited = segment_loop callback n next s' in
      if read_bytes mem 4 cmd == lc_segment
        && not (vmsize mem cmd == 0)
        && not (initprot mem cmd == 0)
      then (if go_on then visited else (s', false))
      else skipped

  -- `module_implementation::for_each_segment`.
  unfoldable pub each_segment : ℕ → (S → ℕ → S × Bool) → S → S × Bool
  each_segment header callback s =
      segment_loop callback (read_bytes mem 4 (header + 16)) (header + 32) s

  -- The loop over the sections of a segment, from the one at an address on.
  unfoldable pub section_loop : (S → ℕ × ℕ → S × Bool) → ℕ → ℕ → ℕ → S → S × Bool
  section_loop callback seg zero sec s = (s, true)
  section_loop callback seg (suc n) sec s =
      let (s', go_on) = callback s (seg, sec) in
      let skipped = section_loop callback seg n (sec + 80) s in
      let visited = section_loop callback seg n (sec + 80) s' in
      if section_addr mem sec == 0 then skipped else (if go_on then visited else (s', false))

  -- `module_implementation::for_each_section`.
  unfoldable pub each_section : ℕ → (S → ℕ × ℕ → S × Bool) → S → S × Bool
  each_section header callback s =
      each_segment header (λ s' seg. section_loop callback seg (nsects mem seg) (seg + 72) s') s

-- The test of `get_section_data` for "SEGMENT,SECTION".
unfoldable pub is_qualified : List ℕ → List ℕ → List ℕ → Bool
is_qualified name segment section =
    length name == length segment + length section + 1
    && starts_with name segment
    && get_or name (length segment) 0 == b','
    && ends_with name section

-- "__TEXT,__text"
abbrev pub text_text : List ℕ
text_text =
    b'_' ∷ b'_' ∷ b'T' ∷ b'E' ∷ b'X' ∷ b'T' ∷ b',' ∷ b'_' ∷ b'_' ∷ b't' ∷ b'e' ∷ b'x' ∷ b't' ∷ []

-- `vmaddr_slide` is the difference as a number of 64 bits.
module _ (mem : Memory) (header slide : ℕ) where
  abbrev pub section_bytes : ℕ → ByteSpan
  section_bytes sec = record {
    address = (section_addr mem sec + slide) % 2 ^ 64;
    size = section_size mem sec;
  }

  -- The callback of `module::get_section_data`.
  unfoldable pub match_section : List ℕ → ByteSpan → ℕ × ℕ → ByteSpan × Bool
  match_section name found (seg, sec) =
      if is_qualified name (segname mem seg) (sectname mem sec) || name_eq (sectname mem sec) name
      then (section_bytes sec, false)
      else (found, true)

  unfoldable pub get_section_data : List ℕ → ByteSpan
  get_section_data name = (each_section mem header (match_section name) no_bytes).0

  -- The callback of `module::get_executable_data`; S_ATTR_PURE_INSTRUCTIONS is 0x80000000.
  unfoldable pub match_code : ByteSpan → ℕ × ℕ → ByteSpan × Bool
  match_code found (seg, sec) =
      let prot = initprot mem seg in
      if has_bit prot 1
        && not (has_bit prot 2)
        && has_bit prot 4
        && has_bit (section_flags mem sec) 0x80000000
      then (section_bytes sec, false)
      else (found, true)

  -- What the loop finds is `data`, and what is returned is an empty span.
  unfoldable pub get_executable_data : ByteSpan
  get_executable_data =
      let text = get_section_data text_text in
      let found : ByteSpan = (each_section mem header match_code no_bytes).0 in
      if not (is_empty text) then text else no_bytes

  -- `module::get_module_data`.
  abbrev pub segment_offset : ℕ → ℕ
  segment_offset seg =
      let offset = (slide + (2 ^ 64 - header % 2 ^ 64)) % 2 ^ 64 in
      (vmaddr mem seg + vmsize mem seg + offset) % 2 ^ 64

  unfoldable pub get_module_data : ByteSpan
  get_module_data =
      let max : ℕ =
        (each_segment mem header
          (λ m seg. (if ltb m (segment_offset seg) then segment_offset seg else m, true)) 0).0 in
      record { address = header; size = max }

  -- `module::for_each_section` and `module::for_each_segment`.
  unfoldable pub for_each_section {ℓ} : {S : Type ℓ} → (S → List ℕ × Section → S × Bool) → S → S
  for_each_section callback s =
      (each_section mem header
        (λ s' (seg, sec). callback s' (
          segname mem seg ++ b',' ∷ sectname mem sec,
          record { bytes = section_bytes sec; prot = to_hat_prot (initprot mem seg) },
        ))
        s).0

  unfoldable pub for_each_segment {ℓ} : {S : Type ℓ} → (S → Section → S × Bool) → S → S
  for_each_segment callback s =
      (each_segment mem header
        (λ s' seg. callback s' (record {
          bytes = record { address = (vmaddr mem seg + slide) % 2 ^ 64; size = vmsize mem seg };
          prot = to_hat_prot (initprot mem seg);
        }))
        s).0
