-- ===== src/Filesystem.antt =====
-- filesystem.c: the FAT32 volume, its allocation table and positions in files;
-- Filesystem/Open.antt, Filesystem/Directory.antt and Filesystem/Files.antt have the rest. The disk behind ata_read_sectors and ata_write_sectors, which the
-- repository does not hold, is the parameter `Ata`; a sector is the list of its bytes, of which the
-- buffers hold 512, and what lies past a buffer reads as 0. Errors of type `int` are carried on to 64
-- bits; strings are lists of bytes without their NUL.
pub mod Files
pub mod Open
pub mod Directory
pub mod Fat
pub mod Allocate
mod Tests
use Prim.Native.Nat.{bit_and, bit_or}
use curnel.Prelude.{
  ℕ, zero, suc, ◌+◌, ◌-◌, ◌*◌, ◌/◌, ◌%◌, ◌^◌, Bool, true, false, not, ◌&&◌, ◌||◌, Option, none,
  some, List, [], ◌∷◌, ◌++◌, length, get_or, set, take, drop, ltb, leb, ◌==◌, if◌then◌else◌, u32,
  sub32, int_word,
}

-- `ata_read_sectors` of one sector, with `none` for an error, and `ata_write_sectors` of one sector,
-- with the disk that it leaves and whether it succeeded.
pub record Ata : Type 1 where
  pub Disk : Type 0
  pub ata_read_sectors : Disk → ℕ → Option (List ℕ)
  pub ata_write_sectors : Disk → ℕ → List ℕ → Disk × Bool

-- `fs_info_t`
pub record FsInfo : Type 0 where
  pub device : ℕ
  pub partition_start : ℕ
  pub fat_start : ℕ
  pub data_start : ℕ
  pub root_cluster : ℕ
  pub sectors_per_cluster : ℕ
  pub bytes_per_sector : ℕ
  pub bytes_per_cluster : ℕ
  pub mounted : Bool

-- `fs_dirent_t`
pub record Dirent : Type 0 where
  pub name : List ℕ
  pub size : ℕ
  pub flags : ℕ
  pub cluster : ℕ
  pub modified_time : ℕ
  pub created_time : ℕ

-- `fs_file_t`
pub record File : Type 0 where
  pub dirent : Dirent
  pub position : ℕ
  pub current_cluster : ℕ
  pub device : ℕ

abbrev pub fs_file : ℕ
fs_file = 1

abbrev pub fs_directory : ℕ
fs_directory = 2

abbrev fat32_signature : ℕ
fat32_signature = 0x28

abbrev pub fat32_eoc : ℕ
fat32_eoc = 0x0fff_fff8

abbrev pub fs_success : ℕ
fs_success = 0

abbrev pub fs_error : ℕ
fs_error = 2 ^ 64 - 1

abbrev pub fs_not_found : ℕ
fs_not_found = 2 ^ 64 - 2

abbrev pub fs_not_mounted : ℕ
fs_not_mounted = 2 ^ 64 - 3

abbrev pub byte : List ℕ → ℕ → ℕ
byte sector i = get_or sector i 0

-- `*((uint16_t*)(sector + i))`
abbrev pub get16 : List ℕ → ℕ → ℕ
get16 sector i = byte sector i + byte sector (i + 1) * 2 ^ 8

-- `*((uint32_t*)(sector + i))`
abbrev pub get32 : List ℕ → ℕ → ℕ
get32 sector i = get16 sector i + get16 sector (i + 2) * 2 ^ 16

-- `*((uint32_t*)(sector + i)) = w`
abbrev pub put32 : List ℕ → ℕ → ℕ → List ℕ
put32 sector i w =
    set (set (set (set sector i (w % 256)) (i + 1) (w / 2 ^ 8 % 256)) (i + 2) (w / 2 ^ 16 % 256))
      (i + 3) (w / 2 ^ 24 % 256)

-- The sector of the table that has the entry of a cluster, and the place of the entry there.
abbrev pub fat_sector : FsInfo → ℕ → ℕ
fat_sector fs_info cluster = u32 (fs_info.fat_start + u32 (cluster * 4) / fs_info.bytes_per_sector)

abbrev pub entry_offset : FsInfo → ℕ → ℕ
entry_offset fs_info cluster = u32 (cluster * 4) % fs_info.bytes_per_sector

pub fat32_cluster_to_lba : FsInfo → ℕ → ℕ
fat32_cluster_to_lba fs_info cluster =
    u32 (fs_info.data_start + sub32 cluster 2 * fs_info.sectors_per_cluster)

pub fs_init : FsInfo
fs_init = record {
  device = 0;
  partition_start = 0;
  fat_start = 0;
  data_start = 0;
  root_cluster = 0;
  sectors_per_cluster = 0;
  bytes_per_sector = 0;
  bytes_per_cluster = 0;
  mounted = false;
}

-- What `fs_mount` takes from the boot sector.
abbrev analyse : FsInfo → List ℕ → FsInfo
analyse fs_info boot =
    let fat_start = u32 (fs_info.partition_start + get16 boot 14) in
    record fs_info {
      bytes_per_sector = get16 boot 11;
      sectors_per_cluster = byte boot 13;
      bytes_per_cluster = u32 (get16 boot 11 * byte boot 13);
      root_cluster = get32 boot 44;
      fat_start = fat_start;
      data_start = u32 (fat_start + u32 (byte boot 16 * get32 boot 36));
      mounted = true;
    }

fs_unmount : FsInfo → FsInfo × ℕ
fs_unmount fs_info = (record fs_info { mounted = false }, fs_success)

module _ (a : Ata) where
  pub fat32_read_fat_entry : FsInfo → a.Disk → ℕ → ℕ
  fat32_read_fat_entry fs_info disk cluster =
      elim (a.ata_read_sectors disk (fat_sector fs_info cluster)) [
        | none ↦ 0
        | some sector ↦ get32 sector (entry_offset fs_info cluster) % 2 ^ 28
      ]

  -- The two fields of an entry: the upper 4 bits stay.
  pub fat32_write_fat_entry : FsInfo → a.Disk → ℕ → ℕ → a.Disk × ℕ
  fat32_write_fat_entry fs_info disk cluster value =
      elim (a.ata_read_sectors disk (fat_sector fs_info cluster)) [
        | none ↦ (disk, fs_error)
        | some sector ↦
            let i = entry_offset fs_info cluster in
            let w = get32 sector i / 2 ^ 28 * 2 ^ 28 + value % 2 ^ 28 in
            let (disk', written) =
              a.ata_write_sectors disk (fat_sector fs_info cluster) (put32 sector i w) in
            (disk', if written then fs_success else fs_error)
      ]

  fs_mount : FsInfo → a.Disk → ℕ → FsInfo × ℕ
  fs_mount fs_info disk device =
      let started = record fs_info { device = device } in
      elim (a.ata_read_sectors disk 0) [
        | none ↦ (started, fs_error)
        | some mbr ↦
            let found = record started { partition_start = get32 mbr (0x1be + 0x08) } in
            elim (a.ata_read_sectors disk found.partition_start) [
              | none ↦ (found, fs_error)
              | some boot ↦
                  if byte boot 66 == fat32_signature
                  then (analyse found boot, fs_success)
                  else (found, fs_error)
            ]
      ]

  -- The loop of `fat32_allocate_cluster` over the entries of a sector, with `left` entries to look at.
  pub free_entry : FsInfo → List ℕ → ℕ → ℕ → ℕ → Option ℕ
  free_entry fs_info sector fat_sector zero i = none
  free_entry fs_info sector fat_sector (suc left) i =
      let cluster = u32 (fat_sector * fs_info.bytes_per_sector + i) / 4 in
      let rest = free_entry fs_info sector fat_sector left (i + 4) in
      if (get32 sector i % 2 ^ 28 == 0) && leb 2 cluster then some cluster else rest

  -- Its loop over the sectors of the table, with `left` sectors to look at.
  pub free_cluster : FsInfo → a.Disk → ℕ → ℕ → Option ℕ
  free_cluster fs_info disk zero fat_sector = none
  free_cluster fs_info disk (suc left) fat_sector =
      let rest = free_cluster fs_info disk left (fat_sector + 1) in
      elim (a.ata_read_sectors disk (u32 (fs_info.fat_start + fat_sector))) [
        | none ↦ none
        | some sector ↦
            elim (free_entry fs_info sector fat_sector ((fs_info.bytes_per_sector + 3) / 4) 0) [
              | some cluster ↦ some cluster
              | none ↦ rest
            ]
      ]

  pub fat32_allocate_cluster : FsInfo → a.Disk → a.Disk × ℕ
  fat32_allocate_cluster fs_info disk =
      if not fs_info.mounted
      then (disk, 0)
      else elim (free_cluster fs_info disk (sub32 fs_info.data_start fs_info.fat_start) 0) [
        | none ↦ (disk, 0)
        | some cluster ↦ ((fat32_write_fat_entry fs_info disk cluster fat32_eoc).0, cluster)
      ]

pub fs_close : File → ℕ
fs_close file = fs_success

pub fs_seek : FsInfo → File → ℕ → File × ℕ
fs_seek fs_info file position = if not fs_info.mounted then (file, fs_not_mounted) else (
  record file { position = if ltb file.dirent.size position then file.dirent.size else position },
  fs_success,
)

fs_tell : File → ℕ
fs_tell file = int_word file.position

fs_eof : File → Bool
fs_eof file = leb file.dirent.size file.position
