-- ===== src/Hmalloc/Libc.antt =====
-- The functions that hmalloc.c calls: those of the kernel, libc and jemalloc, over a world that holds
-- `errno`. `IsLibc` states what their manuals document, over the blocks of the world in any order, and
-- over its mappings, the newest first.
use hmsdk.Base.{ℕ, ◌+◌, ◌<◌, ◌≤◌, ◌≡◌, ◌≢◌, ◌-◌, ◌^◌, Bool, false, Option, List, ◌∷◌}
use hmsdk.Base.Int.{ℤ, pos}
use hmsdk.Hmalloc.Bag.{Bag, add}

-- The arguments of `mmap` behind the address and the length.
pub record MapFlags : Type 0 where
  pub prot : ℕ
  pub flags : ℕ
  pub fd : ℕ
  pub offset : ℕ

-- The flags of jemalloc: `MALLOCX_ALIGN`, `MALLOCX_ARENA`, `MALLOCX_TCACHE_NONE`.
pub record Flags : Type 0 where
  pub align : Option ℕ
  pub arena : Option ℕ
  pub tcache_none : Bool

-- `MAP_FAILED`, which is `(void *) -1`.
abbrev pub map_failed : ℕ
map_failed = 2 ^ 64 - 1

-- A function that returns a pointer or a number, 0 for a null pointer.
abbrev pub Call : Type 0 → Type 0 → Type 0
Call W A = W → A × W

pub record Libc (W : Type 0) : Type 0 where
  pub errno : W → ℕ
  pub set_errno : ℕ → W → W
  pub enomem : ℕ
  pub einval : ℕ
  -- `PROT_READ | PROT_WRITE` and `MAP_PRIVATE | MAP_ANON`
  pub prot_read_write : ℕ
  pub map_private_anon : ℕ
  -- `MAP_FIXED` is among the flags of a mapping
  pub is_fixed : ℕ → Bool
  pub mmap : ℕ → ℕ → MapFlags → Call W ℕ
  -- The address, the length, the mode, the 64-bit word that the pointer to the mask points to, and
  -- `maxnode`.
  pub mbind : ℕ → ℕ → ℤ → ℕ → ℕ → Call W ℤ
  pub munmap : ℕ → ℕ → Call W ℤ
  pub malloc : ℕ → Call W ℕ
  pub free : ℕ → W → W
  pub realloc : ℕ → ℕ → Call W ℕ
  pub aligned_alloc : ℕ → ℕ → Call W ℕ
  -- from the old `*memptr`: the result and the new `*memptr`
  pub posix_memalign : ℕ → ℕ → ℕ → Call W (ℕ × ℕ)
  pub malloc_usable_size : ℕ → W → ℕ
  pub memset : ℕ → ℕ → ℕ → W → W
  pub mallocx : ℕ → Flags → Call W ℕ
  pub dallocx : ℕ → Flags → W → W
  pub rallocx : ℕ → ℕ → Flags → Call W ℕ
  pub sallocx : ℕ → Flags → W → ℕ
  pub numa_max_possible_node : W → ℕ
  -- `mallctl("arenas.create", …)` with the hooks: the error and the index
  pub arenas_create : Call W (ℤ × ℕ)

pub record IsLibc {W : Type 0} (c : Libc W) : Type 0 where
  pub mappings : W → List (ℕ × ℕ)
  -- the mode and the nodes that the kernel has been told for the mapping at an address
  pub policy : W → ℕ → ℤ × ℕ
  pub blocks : W → Bag
  pub load : W → ℕ → ℕ
  pub errno-set_errno : (e : ℕ) (w : W) → c.errno (c.set_errno e w) ≡ e
  pub blocks-set_errno : (e : ℕ) (w : W) → blocks (c.set_errno e w) ≡ blocks w
  pub mappings-set_errno : (e : ℕ) (w : W) → mappings (c.set_errno e w) ≡ mappings w
  pub is_fixed-map_private_anon : c.is_fixed c.map_private_anon ≡ false
  -- Without `MAP_FIXED`, which discards the mappings that it overlaps.
  pub mmap_fails :
      (addr length : ℕ) (f : MapFlags) (w : W)
      → c.is_fixed f.flags ≡ false
      → (c.mmap addr length f w).0 ≡ map_failed
      → mappings (c.mmap addr length f w).1 ≡ mappings w
  pub mmap_maps :
      (addr length : ℕ) (f : MapFlags) (w : W)
      → c.is_fixed f.flags ≡ false
      → (c.mmap addr length f w).0 ≢ map_failed
      → mappings (c.mmap addr length f w).1 ≡ ((c.mmap addr length f w).0, length) ∷ mappings w
  pub mappings-mbind :
      (addr length : ℕ) (mode : ℤ) (mask maxnode : ℕ) (w : W)
      → mappings (c.mbind addr length mode mask maxnode w).1 ≡ mappings w
  -- The manual gives the mask `maxnode` bits, and Linux reads one less of them: this is for masks for
  -- which both agree, and for at most 64 bits, above which the kernel reads behind the word.
  pub mbind_binds :
      (addr length : ℕ) (mode : ℤ) (mask maxnode : ℕ) (w : W)
      → length ≢ 0
      → maxnode ≤ 64
      → mask < 2 ^ (maxnode - 1)
      → (c.mbind addr length mode mask maxnode w).0 ≡ pos 0
      → policy (c.mbind addr length mode mask maxnode w).1 addr ≡ (mode, mask)
  pub munmap_fails :
      (addr length : ℕ) (w : W)
      → (c.munmap addr length w).0 ≢ pos 0
      → mappings (c.munmap addr length w).1 ≡ mappings w
  pub mappings-munmap :
      (addr length : ℕ) (w : W) {others : List (ℕ × ℕ)}
      → (c.munmap addr length w).0 ≡ pos 0
      → mappings w ≡ (addr, length) ∷ others
      → mappings (c.munmap addr length w).1 ≡ others
  -- A failed `mallocx` gives a null pointer. A request of 0 bytes, which the manual leaves open, is
  -- taken like any other.
  pub mallocx_fails :
      (size : ℕ) (f : Flags) (w : W)
      → (c.mallocx size f w).0 ≡ 0
      → blocks (c.mallocx size f w).1 ≡ blocks w
  pub mallocx_allocates :
      (size : ℕ) (f : Flags) (w : W)
      → (c.mallocx size f w).0 ≢ 0
      → blocks (c.mallocx size f w).1 ≡ add (c.mallocx size f w).0 (blocks w)
  pub blocks-dallocx :
      (ptr : ℕ) (f : Flags) (w : W) {others : Bag}
      → blocks w ≡ add ptr others
      → blocks (c.dallocx ptr f w) ≡ others
  -- A failed `rallocx` leaves the block as it was.
  pub rallocx_fails :
      (ptr size : ℕ) (f : Flags) (w : W)
      → (c.rallocx ptr size f w).0 ≡ 0
      → blocks (c.rallocx ptr size f w).1 ≡ blocks w
  pub rallocx_moves :
      (ptr size : ℕ) (f : Flags) (w : W) (others : Bag)
      → (c.rallocx ptr size f w).0 ≢ 0
      → blocks w ≡ add ptr others
      → blocks (c.rallocx ptr size f w).1 ≡ add (c.rallocx ptr size f w).0 others
  pub blocks-memset : (ptr byte size : ℕ) (w : W) → blocks (c.memset ptr byte size w) ≡ blocks w
  pub load-memset :
      (ptr byte size i : ℕ) (w : W) → i < size → load (c.memset ptr byte size w) (ptr + i) ≡ byte
