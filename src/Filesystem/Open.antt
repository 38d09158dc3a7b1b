-- ===== src/Filesystem/Open.antt =====
-- Names, directory entries and fs_open of filesystem.c.
use Prim.Native.Nat.{bit_and, bit_or}
use curnel.Prelude.{
  ℕ, zero, suc, ◌+◌, ◌*◌, ◌/◌, ◌^◌, Bool, true, false, not, ◌||◌, Option, none, some, List, [], ◌∷◌,
  ◌++◌, take, drop, ◌==◌, if◌then◌else◌, u32,
}
use curnel.Filesystem.{
  Ata, FsInfo, Dirent, File, fs_file, fs_directory, fs_success, fs_error, fs_not_found,
  fs_not_mounted, byte, get16, get32, fat32_cluster_to_lba,
}

-- The value of `strcmp` is a difference of characters; its callers test it for 0.
strcmp_eq : List ℕ → List ℕ → Bool
strcmp_eq [] [] = true
strcmp_eq [] (y ∷ ys) = false
strcmp_eq (x ∷ xs) [] = false
strcmp_eq (x ∷ xs) (y ∷ ys) = if x == y then strcmp_eq xs ys else false

-- The loop that skips the slashes at the start of a path.
skip_slashes : List ℕ → List ℕ
skip_slashes [] = []
skip_slashes (c ∷ cs) = if c == 47 then skip_slashes cs else c ∷ cs

-- The loops that copy the characters of a name but blanks.
unpadded : List ℕ → List ℕ
unpadded [] = []
unpadded (c ∷ cs) = if c == 32 then unpadded cs else c ∷ unpadded cs

-- `short_name` of a directory entry
short_name : List ℕ → List ℕ
short_name entry =
    unpadded (take 8 entry)
    ++ (if byte entry 8 == 32 then [] else 46 ∷ unpadded (take 3 (drop 8 entry)))

-- A string of C ends at its first NUL.
c_string : List ℕ → List ℕ
c_string [] = []
c_string (c ∷ cs) = if c == 0 then [] else c ∷ c_string cs

-- The directory entry that an entry of 32 bytes holds. `fs_open` clears the rest of the structure.
pub dirent_of : List ℕ → Dirent
dirent_of entry = record {
  name = c_string (short_name entry);
  size = get32 entry 28;
  flags = if bit_and (byte entry 11) 0x10 == 0 then fs_file else fs_directory;
  cluster = bit_or (get16 entry 20 * 2 ^ 16) (get16 entry 26);
  modified_time = 0;
  created_time = 0;
}

-- A deleted entry, and one of a long name.
abbrev pub skipped : List ℕ → Bool
skipped entry = (byte entry 0 == 0xe5) || (byte entry 11 == 0x0f)

-- The loop over the entries of a sector, with `left` entries to look at, from place `j` on.
scan_sector : List ℕ → List ℕ → ℕ → ℕ → Option Dirent
scan_sector filename sector zero j = none
scan_sector filename sector (suc left) j =
    let entry = take 32 (drop j sector) in
    let rest = scan_sector filename sector left (j + 32) in
    if byte entry 0 == 0
    then none
    else if skipped entry
    then rest
    else if strcmp_eq (c_string (short_name entry)) filename
    then some (dirent_of entry)
    else rest

module _ (a : Ata) where
  -- The loop of `fs_open` over the sectors of the root cluster; the end of the entries of one sector is
  -- followed by the next sector. `none` for an error of the disk.
  scan_root : FsInfo → a.Disk → List ℕ → ℕ → ℕ → ℕ → Option (Option Dirent)
  scan_root fs_info disk filename sector_lba zero i = some none
  scan_root fs_info disk filename sector_lba (suc left) i =
      let rest = scan_root fs_info disk filename sector_lba left (i + 1) in
      elim (a.ata_read_sectors disk (u32 (sector_lba + i))) [
        | none ↦ none
        | some sector ↦
            elim (scan_sector filename sector ((fs_info.bytes_per_sector + 31) / 32) 0) [
              | some dirent ↦ some (some dirent)
              | none ↦ rest
            ]
      ]

  -- `file` is what the structure holds when no file is found.
  pub fs_open : FsInfo → a.Disk → List ℕ → File → File × ℕ
  fs_open fs_info disk path file =
      if not fs_info.mounted
      then (file, fs_not_mounted)
      else if strcmp_eq path (47 ∷ [])
      then (
        record {
          dirent = record {
            name = 47 ∷ [];
            size = 0;
            flags = fs_directory;
            cluster = fs_info.root_cluster;
            modified_time = 0;
            created_time = 0;
          };
          position = 0;
          current_cluster = fs_info.root_cluster;
          device = fs_info.device;
        },
        fs_success,
      )
      else elim (scan_root fs_info disk (skip_slashes path)
          (fat32_cluster_to_lba fs_info fs_info.root_cluster) fs_info.sectors_per_cluster 0) [
            | none ↦ (file, fs_error)
            | some none ↦ (file, fs_not_found)
            | some (some dirent) ↦ (
              record {
                dirent = dirent;
                position = 0;
                current_cluster = dirent.cluster;
                device = fs_info.device;
              },
              fs_success,
            )
          ]
