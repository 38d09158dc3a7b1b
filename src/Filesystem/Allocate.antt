-- ===== src/Filesystem/Allocate.antt =====
-- fat32_allocate_cluster of filesystem.c.
use curnel.Prelude.{ℕ, ◌+◌, ◌*◌, ◌/◌, ◌%◌, ◌^◌, ◌<◌, ◌≤◌, ◌≡◌, Option, some, List, u32, sub32}
use curnel.Filesystem.{Ata, FsInfo, get32, free_cluster}
use curnel.Filesystem.Fat.{IsDisk}
use curnel.Filesystem.Fat

module _ (a : Ata) (law : IsDisk a) (fs_info : FsInfo) (size : fs_info.bytes_per_sector ≡ 512)
    (start : fs_info.fat_start < 2 ^ 31) where
  -- A place in a sector whose entry is free and stands for a cluster.
  record Free (sector : List ℕ) (number i c : ℕ) : Type 0 where
    place : ℕ
    from : i ≤ place
    aligned : place % 4 ≡ 0
    named : c ≡ u32 (number * fs_info.bytes_per_sector + place) / 4
    unused : get32 sector place % 2 ^ 28 ≡ 0
    second : 2 ≤ c

  entry_cluster : ℕ → ℕ → ℕ
  entry_cluster number i = u32 (number * fs_info.bytes_per_sector + i) / 4

  entries : ℕ
  entries = (fs_info.bytes_per_sector + 3) / 4

  -- A sector of the table that has a free entry for a cluster.
  abbrev Found : a.Disk → ℕ → ℕ → Type 0
  Found disk number c =
      (sector : List ℕ) × (a.ata_read_sectors disk (u32 (fs_info.fat_start + number)) ≡ some sector)
      × (f : Free sector number 0 c) × (f.place < 0 + entries * 4)

  module _ (disk : a.Disk) (bounded : sub32 fs_info.data_start fs_info.fat_start ≤ 2 ^ 21) where
    abbrev found : Option ℕ
    found = free_cluster a fs_info disk (sub32 fs_info.data_start fs_info.fat_start) 0
