-- ===== src/Stack.antt =====
-- src/stack.c on POSIX with guard pages, and mt_stack_t of src/runtime_internal.h. The page size, what
-- mmap gives for a size (`none` is MAP_FAILED) and whether mprotect works are arguments; the caller
-- passes the address of a stack inside a task, which is never NULL.
pub mod Bounds
use microthread.Base.{
  ℕ, ◌+◌, ◌-◌, ◌*◌, ◌%◌, Bool, true, false, Option, none, some, List, [], ◌∷◌, ◌==◌, ◌&&◌, ltb,
  if◌then◌else◌,
}
use microthread.State.{Ptr, word_mod, Code}

-- MT_DEFAULT_STACK_SIZE and MT_MIN_STACK_SIZE
abbrev pub default_size : ℕ
default_size = 64 * 1024

abbrev pub min_size : ℕ
min_size = 16 * 1024

-- what sysconf told, `none` for an answer that is not positive
abbrev pub page_size : Option ℕ → ℕ
page_size none = 4096
page_size (some page) = page

-- on a `size_t`
unfoldable pub round_up : ℕ → ℕ → ℕ
round_up value align =
    let rem = value % align in
    if align == 0 then value else (if rem == 0 then value else (value + (align - rem)) % word_mod)

pub data AllocKind : Type 0 where
  alloc_none alloc_mmap alloc_malloc : AllocKind

pub record Stack : Type 0 where
  pub mapping : Ptr
  pub mapping_size : ℕ
  pub usable : Ptr
  pub usable_size : ℕ
  pub guard_size : ℕ
  pub alloc_kind : AllocKind

-- `memset(stack, 0, sizeof(*stack))`
abbrev pub no_stack : Stack
no_stack = record {
  mapping = none;
  mapping_size = 0;
  usable = none;
  usable_size = 0;
  guard_size = 0;
  alloc_kind = AllocKind.alloc_none;
}

-- The mappings of the process, each an address and a size. mmap adds one; munmap takes away what
-- lies there with that size.
pub record Mapping : Type 0 where
  pub address : ℕ
  pub size : ℕ

unfoldable pub munmap : List Mapping → ℕ → ℕ → List Mapping
munmap [] address size = []
munmap (m ∷ ms) address size =
    if m.address == address && m.size == size then ms else m ∷ munmap ms address size

-- mt_stack_alloc once the size is known to be large enough
unfoldable pub stack_map : ℕ → (ℕ → Ptr) → Bool → List Mapping → ℕ → (Code × Stack) × List Mapping
unfolding round_up munmap
stack_map page mmap protects held size =
    let usable = round_up size page in
    let total = (usable + page) % word_mod in
    elim (mmap total) [
      | none ↦ ((Code.err_nomem, no_stack), held)
      | some mapping ↦
          let mapped = record { address = mapping; size = total } ∷ held in
          if protects
          then (
            (
              Code.ok,
              record {
                mapping = some mapping;
                mapping_size = total;
                usable = some (mapping + page);
                usable_size = usable;
                guard_size = page;
                alloc_kind = AllocKind.alloc_mmap;
              },
            ),
            mapped,
          )
          else ((Code.err, no_stack), munmap mapped mapping total)
    ]

unfoldable pub stack_alloc : ℕ → (ℕ → Ptr) → Bool → List Mapping → ℕ → (Code × Stack) × List Mapping
unfolding stack_map
stack_alloc page mmap protects held requested =
    let size = if requested == 0 then default_size else requested in
    if ltb size min_size
    then ((Code.err_invalid, no_stack), held)
    else stack_map page mmap protects held size

-- mt_stack_free; the kind MALLOC is never set in this configuration
unfoldable pub stack_free : List Mapping → Stack → Stack × List Mapping
unfolding munmap
stack_free held s =
    let mapped : List Mapping = elim s.alloc_kind [
      | AllocKind.alloc_mmap ↦ elim s.mapping [
        | none ↦ held
        | some mapping ↦ if ltb 0 s.mapping_size then munmap held mapping s.mapping_size else held
      ]
      | _ ↦ held
    ] in
    (no_stack, mapped)

-- mt_stack_context_base and mt_stack_context_size
abbrev pub stack_context : Stack → Ptr × ℕ
stack_context s = (s.usable, s.usable_size)
