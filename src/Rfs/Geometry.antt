-- ===== src/Rfs/Geometry.antt =====
-- The shape of an ext2 volume: rfs/source_RFS/ex2_block_types.c, the superblock constants and the
-- arithmetic on block, group and inode numbers, with rfs/headers_RFS/ext2_block_types.h.
-- A `uint32_t` is a native number and its wrap-around is written out by `u32`.
pub mod Sizes
pub mod Inodes
pub mod Powers
pub mod Groups
use la_liga_de_la_justicia.Base.{
  ℕ, zero, suc, ◌+◌, ◌-◌, ◌*◌, ◌/◌, ◌%◌, ◌^◌, Bool, true, false, ◌||◌, Option, none, some, ltb,
  ◌==◌, if◌then◌else◌,
}

abbrev pub u32 : ℕ → ℕ
u32 n = n % 4294967296

abbrev pub u64 : ℕ → ℕ
u64 n = n % 18446744073709551616

-- The fields of `SuperBlock_t` that the server reads or writes.
pub record SuperBlock : Type 0 where
  pub total_number_inodes_fs : ℕ
  pub total_number_blocks_fs : ℕ
  pub total_unallocated_blocks : ℕ
  pub total_unallocated_inodes : ℕ
  pub shift_number_block_size : ℕ
  pub blocks_per_group : ℕ
  pub inodes_per_group : ℕ

-- `struct Superblock_constants`, the global `Super_constants`.
pub record Geometry : Type 0 where
  pub total_number_inodes_fs : ℕ
  pub total_number_blocks_fs : ℕ
  pub blocks_per_group : ℕ
  pub inodes_per_group : ℕ
  pub block_size : ℕ
  pub total_groups : ℕ
  pub gdt_start : ℕ

-- The fields of `Group_Descriptor_t` that the server reads or writes.
pub record GroupDescriptor : Type 0 where
  pub bitmap_block_address : ℕ
  pub bitmap_inode_address : ℕ
  pub start_inode_table : ℕ
  pub unallocated_blocks : ℕ
  pub unallocated_inodes : ℕ
  pub number_directories_group : ℕ

abbrev pub superblock_start : ℕ
superblock_start = 1024

-- A `NULL` superblock is `none`.
unfoldable pub get_block_size : Option SuperBlock → ℕ
get_block_size none = 0
get_block_size (some s) = u32 (1024 * 2 ^ s.shift_number_block_size)

-- `lround (a / b)` of two `uint32_t` taken as doubles: halves are rounded up, and the quotient of
-- two such numbers is never near enough to a half for the double's rounding to matter.
unfoldable pub lround_div : ℕ → ℕ → ℕ
lround_div a b = (2 * a + b) / (2 * b)

unfoldable pub get_total_groups : Option SuperBlock → ℕ
unfolding lround_div
get_total_groups none = 0
get_total_groups (some s) =
    let groups_through_blocks = lround_div s.total_number_blocks_fs s.blocks_per_group in
    let groups_through_inodes = lround_div s.total_number_inodes_fs s.inodes_per_group in
    if ltb groups_through_blocks groups_through_inodes
    then groups_through_inodes
    else groups_through_blocks

-- `SuperBlock_read` with its `static bool set`: the constants are filled in by the first call only.
unfoldable pub super_block_read : SuperBlock → Bool × Geometry → Bool × Geometry
unfolding get_block_size get_total_groups
super_block_read s (true, g) = (true, g)
super_block_read s (false, g) =
    let size = get_block_size (some s) in
    (
      true,
      record {
        total_number_inodes_fs = s.total_number_inodes_fs;
        total_number_blocks_fs = s.total_number_blocks_fs;
        blocks_per_group = s.blocks_per_group;
        inodes_per_group = s.inodes_per_group;
        block_size = size;
        total_groups = get_total_groups (some s);
        gdt_start = if size == 1024 then u32 (superblock_start + size) else size;
      },
    )

unfoldable pub size_in_blocks : Geometry → ℕ → ℕ
size_in_blocks g bytes =
    let blocks = bytes / g.block_size in if ltb 0 (bytes % g.block_size) then blocks + 1 else blocks

unfoldable pub get_gdt_size : Geometry → ℕ
unfolding size_in_blocks
get_gdt_size g = size_in_blocks g (u32 (32 * g.total_groups))

-- `while (base < number) base *= base;` on `uint64_t`, with fuel.
unfoldable pub square_up : ℕ → ℕ → ℕ → ℕ
square_up zero number base = base
square_up (suc fuel) number base =
    let rest = square_up fuel number (u64 (base * base)) in if ltb base number then rest else base

unfoldable pub is_power : ℕ → ℕ → Bool
unfolding square_up
is_power number base = square_up number number base == number

unfoldable pub is_sparse : ℕ → Bool
unfolding is_power
is_sparse n = (n == 0) || ((n == 1) || (is_power n 3 || (is_power n 5 || is_power n 7)))

unfoldable pub inode_locate_group : Geometry → ℕ → ℕ
inode_locate_group g n = u32 (n + 4294967295) / g.inodes_per_group

unfoldable pub inode_get_local_index : Geometry → ℕ → ℕ
inode_get_local_index g n = u32 (n + 4294967295) % g.inodes_per_group

unfoldable pub inode_table_size : Geometry → ℕ
unfolding size_in_blocks
inode_table_size g = size_in_blocks g (u32 (128 * g.inodes_per_group))

unfoldable pub group_number : Geometry → GroupDescriptor → ℕ
group_number g d = u32 (d.bitmap_block_address + 4294967295) / g.blocks_per_group

unfoldable pub data_blocks_in_group : Geometry → GroupDescriptor → ℕ
unfolding group_number inode_table_size is_sparse get_gdt_size
data_blocks_in_group g d =
    let data_blocks = u32 (g.blocks_per_group + 4294967296 * 2 - 2 - u32 (inode_table_size g)) in
    let n = group_number g d in
    if n == 0
    then 8109
    else if is_sparse n
    then u32 (data_blocks + 4294967296 - u32 (1 + get_gdt_size g))
    else data_blocks
