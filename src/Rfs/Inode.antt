-- ===== src/Rfs/Inode.antt =====
-- The inode of a file, `inode_t` of rfs/headers_RFS/ext2_block_types.h, as far as the operations on files
-- read and write it, and the functions of rfs/source_RFS/file_operations.c that set it up.
use la_liga_de_la_justicia.Base.{ℕ, ◌+◌, ◌/◌, ◌%◌, ◌==◌, if◌then◌else◌, Bool}
use la_liga_de_la_justicia.Rfs.Geometry.{Geometry}
use la_liga_de_la_justicia.Rfs.DataBlocks.{Pointers}
use la_liga_de_la_justicia.Rfs.Image.{Image, update}

pub record Inode : Type 0 where
  pub mode : ℕ
  pub size : ℕ
  pub links_count : ℕ
  pub blocks : ℕ
  pub pointers : Pointers

abbrev pub no_pointers : Pointers
no_pointers = record {
  pointer_data_0 = λ _. 0;
  pointer_data_1 = 0;
  pointer_data_2 = 0;
  pointer_data_3 = 0;
}

-- `EXT2_IFREG` and `EXT2_IFDIR`; `mode | flag` and `mode & flag` on the bits of the file type.
abbrev pub ifreg : ℕ
ifreg = 32768

abbrev pub ifdir : ℕ
ifdir = 16384

abbrev pub has_flag : (mode flag : ℕ) → Bool
has_flag mode flag = mode / flag % 2 == 1

abbrev pub with_flag : (mode flag : ℕ) → ℕ
with_flag mode flag = if has_flag mode flag then mode else mode + flag

abbrev pub set_file_inode : ℕ → Inode
set_file_inode mode = record {
  mode = with_flag mode ifreg;
  size = 0;
  links_count = 1;
  blocks = 0;
  pointers = no_pointers;
}

abbrev pub clear_inode : Inode
clear_inode = record { mode = 0; size = 0; links_count = 0; blocks = 0; pointers = no_pointers }

-- `setDirInode`: the directory is counted in group `inode_number / INODES_PER_GROUP`, which for the last
-- inode of a group is the next group.
unfoldable pub set_dir_inode :
    {Bits : Type 0} → Geometry → (mode inode_number : ℕ) → Image Bits → Inode × Image Bits
set_dir_inode g mode inode_number fs =
    let group = inode_number / g.inodes_per_group in
    let d = fs.descriptor group in
    let d' = record d { number_directories_group = (d.number_directories_group + 1) % 65536 } in
    (
      record {
        mode = with_flag mode ifdir;
        size = g.block_size;
        links_count = 1;
        blocks = g.block_size / 512;
        pointers = no_pointers;
      },
      record fs { descriptor = update fs.descriptor group d' },
    )
