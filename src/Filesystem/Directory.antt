-- ===== src/Filesystem/Directory.antt =====
-- fs_opendir, fs_readdir and fs_closedir of filesystem.c. A result `none` stands for a loop that has
-- used up its fuel.
use curnel.Prelude.{
  ℕ, zero, suc, ◌+◌, ◌-◌, ◌*◌, ◌/◌, ◌%◌, not, ◌&&◌, Option, none, some, List, take, drop, leb, ◌==◌,
  if◌then◌else◌, u32,
}
use curnel.Filesystem.{
  Ata, FsInfo, Dirent, File, byte, fs_success, fat32_eoc, fs_error, fs_not_mounted,
  fat32_cluster_to_lba, fat32_read_fat_entry, fs_close,
}
use curnel.Filesystem.Open.{skipped, dirent_of, fs_open}
use curnel.Filesystem.Files.{is_directory}

-- The local variables of `fs_readdir`.
pub record Cursor : Type 0 where
  pub cluster : ℕ
  pub sector_idx : ℕ
  pub entry_idx : ℕ
  pub sector : List ℕ

-- What a call of `fs_readdir` leaves.
pub record Listing : Type 0 where
  pub dir : File
  pub dirent : Dirent
  pub result : ℕ

-- A call that gives no entry.
abbrev pub failed : File → Dirent → ℕ → Listing
failed dir dirent code = record { dir = dir; dirent = dirent; result = code }

module _ (a : Ata) where
  pub fs_opendir : FsInfo → a.Disk → List ℕ → File → File × ℕ
  fs_opendir fs_info disk path dir =
      let (dir', result) = fs_open a fs_info disk path dir in
      (dir', if (result == fs_success) && not (is_directory dir') then fs_error else result)

  -- The loop that goes to the cluster of the sector; none within at the end of the chain.
  skip_sectors : FsInfo → a.Disk → ℕ → File → ℕ → ℕ → Option (File × Option (ℕ × ℕ))
  skip_sectors fs_info disk zero dir cluster sector_idx = none
  skip_sectors fs_info disk (suc fuel) dir cluster sector_idx =
      let next = fat32_read_fat_entry a fs_info disk cluster in
      let dir' = record dir { current_cluster = next } in
      let rest =
        skip_sectors fs_info disk fuel dir' next (sector_idx - fs_info.sectors_per_cluster) in
      if not (leb fs_info.sectors_per_cluster sector_idx)
      then some (dir, some (cluster, sector_idx))
      else if leb fat32_eoc next
      then some (dir, none)
      else rest

  -- Reading the sector of a cluster into the buffer.
  load_sector : FsInfo → a.Disk → ℕ → ℕ → Option Cursor
  load_sector fs_info disk cluster sector_idx =
      elim (a.ata_read_sectors disk (u32 (fat32_cluster_to_lba fs_info cluster + sector_idx))) [
        | none ↦ none
        | some sector ↦
            some (record {
              cluster = cluster;
              sector_idx = sector_idx;
              entry_idx = 0;
              sector = sector;
            })
      ]

  -- The step to the next entry, before the entry is looked at: the buffer may have the next sector then.
  step_entry : FsInfo → a.Disk → File → Cursor → File × Option Cursor
  step_entry fs_info disk dir cursor =
      let moved = record dir { position = u32 (dir.position + 32) } in
      let next = fat32_read_fat_entry a fs_info disk cursor.cluster in
      if not (leb fs_info.bytes_per_sector (u32 ((cursor.entry_idx + 1) * 32)))
      then (moved, some (record cursor { entry_idx = cursor.entry_idx + 1 }))
      else if not (leb fs_info.sectors_per_cluster (cursor.sector_idx + 1))
      then (moved, load_sector fs_info disk cursor.cluster (cursor.sector_idx + 1))
      else if leb fat32_eoc next
      then (moved, none)
      else (record moved { current_cluster = next }, load_sector fs_info disk next 0)

  -- The loop over the entries.
  next_entry : FsInfo → a.Disk → ℕ → File → Dirent → Cursor → Option Listing
  next_entry fs_info disk zero dir dirent cursor = none
  next_entry fs_info disk (suc fuel) dir dirent cursor =
      let (dir', stepped) = step_entry fs_info disk dir cursor in
      elim stepped [
        | none ↦ some (record { dir = dir'; dirent = dirent; result = fs_error })
        | some cursor' ↦
            let entry = take 32 (drop (cursor.entry_idx * 32) cursor'.sector) in
            let rest = next_entry fs_info disk fuel dir' dirent cursor' in
            let found = dirent_of entry in
            if byte entry 0 == 0
            then some (record { dir = dir'; dirent = dirent; result = fs_error })
            else if skipped entry
            then rest
            else some (record {
              dir = dir';
              dirent = record dirent {
                name = found.name;
                size = found.size;
                flags = found.flags;
                cluster = found.cluster;
              };
              result = fs_success;
            })
      ]

  -- `fuel` is for the way to the cluster and for the loop over the entries.
  fs_readdir : FsInfo → a.Disk → ℕ → File → Dirent → Option Listing
  fs_readdir fs_info disk fuel dir dirent =
      let start =
        skip_sectors fs_info disk fuel dir dir.current_cluster
          (dir.position / fs_info.bytes_per_sector) in
      if not fs_info.mounted
      then some (failed dir dirent fs_not_mounted)
      else if not (is_directory dir)
      then some (failed dir dirent fs_error)
      else elim start [
        | none ↦ none
        | some (dir', none) ↦ some (failed dir' dirent fs_error)
        | some (dir', some (cluster, sector_idx)) ↦
            elim (load_sector fs_info disk cluster sector_idx) [
              | none ↦ some (failed dir' dirent fs_error)
              | some cursor ↦
                  next_entry fs_info disk fuel dir' dirent
                    (record cursor { entry_idx = dir.position % fs_info.bytes_per_sector / 32 })
            ]
      ]

fs_closedir : File → ℕ
fs_closedir dir = fs_close dir
