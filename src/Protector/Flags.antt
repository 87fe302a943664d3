-- ===== src/Protector/Flags.antt =====
-- include/libhat/memory.hpp: `hat::protection` and its operators; the `to_system_prot` functions of
-- src/os/linux, src/os/mac and src/os/win32. A protection is its `std::uint8_t`.
use libhat.Prelude.{
  ℕ, ◌<◌, bit_and, bit_or, bit_xor, ◌==◌, ◌≡◌, refl, Bool, true, not, ◌&&◌, if◌then◌else◌,
  holds_below, holds_below_sound, ==_iff,
}

abbrev pub read : ℕ
read = 1

abbrev pub write : ℕ
write = 2

abbrev pub execute : ℕ
execute = 4

-- `operator|`, `operator&` and `operator^`, and the assignments that they give.
abbrev pub protection_or : ℕ → ℕ → ℕ
protection_or lhs rhs = bit_or lhs rhs

abbrev pub protection_and : ℕ → ℕ → ℕ
protection_and lhs rhs = bit_and lhs rhs

abbrev pub protection_xor : ℕ → ℕ → ℕ
protection_xor lhs rhs = bit_xor lhs rhs

-- `static_cast<bool>(flags & flag)`.
abbrev pub grants : ℕ → ℕ → Bool
grants flags flag = not (protection_and flags flag == 0)

-- src/os/linux: `PROT_READ` is 1, `PROT_WRITE` 2 and `PROT_EXEC` 4; src/os/mac: the same with `VM_PROT_`.
unfoldable pub to_system_prot : ℕ → ℕ
to_system_prot flags =
    let prot0 = if grants flags read then bit_or 0 1 else 0 in
    let prot1 = if grants flags write then bit_or prot0 2 else prot0 in
    if grants flags execute then bit_or prot1 4 else prot1

-- src/os/win32: `PAGE_EXECUTE_READWRITE`, `PAGE_EXECUTE_READ`, `PAGE_EXECUTE`, `PAGE_READWRITE`,
-- `PAGE_READONLY` and `PAGE_NOACCESS`.
unfoldable pub to_system_prot_win32 : ℕ → ℕ
to_system_prot_win32 flags =
    let r = grants flags read in
    let w = grants flags write in
    let x = grants flags execute in
    if x && w
    then 0x40
    else if x && r
    then 0x20
    else if x
    then 0x10
    else if w
    then 0x04
    else if r
    then 0x02
    else 0x01

-- The documented meaning of the page constants: the accesses that each allows.
abbrev pub page_flags : ℕ → ℕ
page_flags page =
    if page == 0x40
    then 7
    else if page == 0x20
    then 5
    else if page == 0x10
    then 4
    else if page == 0x04
    then 3
    else if page == 0x02
    then 1
    else 0

to_system_prot_win32_table :
    holds_below 256 (λ flags.
      protection_and (protection_and flags 7) (page_flags (to_system_prot_win32 flags))
      == protection_and flags 7)
    ≡ true
unfolding holds_below to_system_prot_win32
to_system_prot_win32_table = refl

-- For every value of the type, the page constant of `to_system_prot` on Windows allows each access
-- that was asked for.
to_system_prot_win32_lem :
    (flags : ℕ)
    → flags < 256
    → protection_and (protection_and flags 7) (page_flags (to_system_prot_win32 flags))
      ≡ protection_and flags 7
to_system_prot_win32_lem flags lt =
    (==_iff _ _).0 (holds_below_sound 256 _ flags to_system_prot_win32_table lt)
