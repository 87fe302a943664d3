-- ===== src/Examples/Handles.antt =====
-- The C interface at concrete inputs.
use libhat.Prelude.{
  Bool-cases, subst, ℕ, ◌≡◌, refl, Bool, true, ltb, List, [], ◌∷◌, none, some, arith, inl, inr,
  ◌==◌,
}
use mathlib.Core.Option.{some_inj}
use libhat.Scanner.Context.{x1}
use libhat.Bindings.Objects.{Heap, FfiObject, signature_object, module_object, set_at}
use libhat.Bindings.Calls.{
  to_cpp_align, libhat_create_signature, can_read, is_buffer, libhat_find_pattern,
}
use libhat.Bindings.IsHeap.{IsHeap, IsObject, IsFresh, IsMade, libhat_create_signature-IsMade}
use libhat.Bindings.Freed.{IsFreed, libhat_free-IsFreed}
use libhat.Bindings.Scan.{IsScan, libhat_find_pattern-IsScan}
use libhat.Bindings.Answered.{IsAnswered, libhat_find_pattern-IsAnswered}
use libhat.Examples.Machines.{
  counting, counting-IsBytes, five_seven, five_seven-IsSignature, desktop,
}

-- A heap with a signature at 16 and a module at 32; new objects are at 48.
abbrev pub heap : Heap
heap =
    set_at (set_at (λ p. none) 16 (some (signature_object five_seven))) 32
      (some (module_object 4096))

pub heap-IsHeap : IsHeap heap
heap-IsHeap = record { null_free = refl; objects = objects }
  where
    objects : (p : ℕ) (o : FfiObject) → heap p ≡ some o → IsObject o
    objects p o h = elim (Bool-cases (p == 32)) [
      | inl e ↦
          let same : module_object 4096 ≡ o = some_inj.0 (rw e at h) in
          subst IsObject same (record { magic_eq = refl; payload_ok = refl })
      | inr e ↦ elim (Bool-cases (p == 16)) [
        | inl f ↦
            let same : signature_object five_seven ≡ o = some_inj.0 (rw (e, f) at h) in
            subst IsObject same
              (record { magic_eq = refl; payload_ok = (refl, five_seven-IsSignature) })
        | inr f ↦ let absent : none ≡ some o = rw (e, f) at h in absurd (cc absent)
      ]
    ]

abbrev pub allocate : Heap → ℕ
allocate h = 48

pub allocate-IsFresh : IsFresh heap (allocate heap)
allocate-IsFresh = (λ e. omega (arith, e), refl)

-- "05 ? 07"
abbrev text : List ℕ
text = b'0' ∷ b'5' ∷ b' ' ∷ b'?' ∷ b' ' ∷ b'0' ∷ b'7' ∷ []

libhat_create_signature-IsMade_example :
    IsMade heap (libhat_create_signature allocate heap (some (λ i. i)) (some (λ i. 0xFF)) 3 true)
libhat_create_signature-IsMade_example =
    libhat_create_signature-IsMade allocate heap (some (λ i. i)) (λ i. 0xFF) 3 true allocate-IsFresh
      heap-IsHeap (λ i. omega arith)

libhat_free-IsFreed_example : IsFreed heap 16
libhat_free-IsFreed_example =
    libhat_free-IsFreed heap 16 (signature_object five_seven) heap-IsHeap refl

pub known_align : to_cpp_align 1 ≡ some x1
unfolding to_cpp_align
known_align = refl

-- Only 1000 bytes can be read.
abbrev low_memory : ℕ → Bool
low_memory a = ltb a 1000

whole_buffer : is_buffer low_memory 64 600 ≡ true
unfolding can_read is_buffer
whole_buffer = refl

libhat_find_pattern-IsScan_example :
    IsScan counting heap five_seven x1 64 600
      (libhat_find_pattern desktop low_memory counting heap 16 64 600 true 1 0)
libhat_find_pattern-IsScan_example =
    libhat_find_pattern-IsScan desktop low_memory counting counting-IsBytes heap heap-IsHeap 16 64
      600 1 0 five_seven x1 refl refl whole_buffer known_align

libhat_find_pattern-IsAnswered_example :
    IsAnswered heap 32 64 600 true 1
      (libhat_find_pattern desktop low_memory counting heap 32 64 600 true 1 0)
libhat_find_pattern-IsAnswered_example =
    libhat_find_pattern-IsAnswered desktop low_memory counting heap 32 64 600 1 0 true
      counting-IsBytes heap-IsHeap (inr (module_object 4096, refl)) (inr whole_buffer)
