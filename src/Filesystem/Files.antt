-- ===== src/Filesystem/Files.antt =====
-- fs_read and fs_write of filesystem.c. A result `none` stands for a loop that has used up its fuel.
pub mod Read
pub mod Seek
use Prim.Native.Nat.{bit_and}
use curnel.Prelude.{
  ℕ, zero, suc, ◌+◌, ◌-◌, ◌*◌, ◌/◌, ◌%◌, ◌^◌, Bool, true, false, not, ◌&&◌, ◌||◌, Option, none,
  some, List, [], ◌∷◌, ◌++◌, length, take, drop, min, ltb, leb, ◌==◌, if◌then◌else◌, u32, u64,
  int_word,
}
use curnel.Filesystem.{
  Ata, FsInfo, File, byte, fs_success, fs_directory, fat32_eoc, fs_error, fs_not_mounted,
  fat32_cluster_to_lba, fat32_read_fat_entry, fat32_write_fat_entry, fat32_allocate_cluster,
}

-- What a call of `fs_read` leaves: the file, the bytes that it has written to the buffer, its result.
pub record ReadResult : Type 0 where
  pub file : File
  pub buffer : List ℕ
  pub result : ℕ

pub record WriteResult (a : Ata) : Type 0 where
  pub disk : a.Disk
  pub file : File
  pub result : ℕ

abbrev pub advance : File → ℕ → File
advance file n = record file { position = u32 (file.position + n) }

abbrev pub is_directory : File → Bool
is_directory file = not (bit_and file.dirent.flags fs_directory == 0)

-- The result of a call that reads nothing.
abbrev pub unread : File → ℕ → ReadResult
unread file code = record { file = file; buffer = []; result = code }

-- `n` bytes from byte `i` on
abbrev pub slice : List ℕ → ℕ → ℕ → List ℕ
slice sector i zero = []
slice sector i (suc n) = byte sector i ∷ slice sector (i + 1) n

-- `memcpy(sector + offset, src, length src)`
abbrev overwrite : List ℕ → ℕ → List ℕ → List ℕ
overwrite sector offset src = take offset sector ++ (src ++ drop (offset + length src) sector)

module _ (a : Ata) where
  -- The loop of `fs_read` that goes to the cluster of the position; `some none` at the end of the chain.
  pub seek_cluster : FsInfo → a.Disk → ℕ → ℕ → ℕ → ℕ → Option (Option ℕ)
  seek_cluster fs_info disk zero position cluster pos = none
  seek_cluster fs_info disk (suc fuel) position cluster pos =
      let next = fat32_read_fat_entry a fs_info disk cluster in
      let rest =
        seek_cluster fs_info disk fuel position next (u32 (pos + fs_info.bytes_per_cluster)) in
      if not (leb (u32 (pos + fs_info.bytes_per_cluster)) position)
      then some (some cluster)
      else if leb fat32_eoc next
      then some none
      else rest

  -- The reading loop, with the bytes read so far; `size` is for the result.
  pub read_loop : FsInfo → a.Disk → ℕ → File → List ℕ → ℕ → ℕ → ℕ → ℕ → Option ReadResult
  read_loop fs_info disk zero file buffer size cluster cluster_pos bytes_left = none
  read_loop fs_info disk (suc fuel) file buffer size cluster cluster_pos bytes_left =
      let sector_lba = fat32_cluster_to_lba fs_info cluster in
      let sector_offset = cluster_pos / fs_info.bytes_per_sector in
      let offset = cluster_pos % fs_info.bytes_per_sector in
      let sector_bytes = min (fs_info.bytes_per_sector - offset) bytes_left in
      let left = bytes_left - sector_bytes in
      let cluster_pos' = u32 (cluster_pos + sector_bytes) in
      let next = fat32_read_fat_entry a fs_info disk cluster in
      let file' = advance file sector_bytes in
      if bytes_left == 0
      then some (record { file = file; buffer = buffer; result = int_word (size - bytes_left) })
      else elim (a.ata_read_sectors disk (u32 (sector_lba + sector_offset))) [
        | none ↦ some (record { file = file; buffer = buffer; result = fs_error })
        | some sector ↦
            let buffer' = buffer ++ slice sector offset sector_bytes in
            let same = read_loop fs_info disk fuel file' buffer' size cluster cluster_pos' left in
            let onward = read_loop fs_info disk fuel file' buffer' size next 0 left in
            if not (leb fs_info.bytes_per_cluster cluster_pos')
            then same
            else if leb fat32_eoc next && ltb 0 left
            then some (record { file = file'; buffer = buffer'; result = int_word (size - left) })
            else onward
      ]

  -- `fuel` is for the way to the cluster and for the reading loop.
  pub fs_read : FsInfo → a.Disk → ℕ → File → ℕ → Option ReadResult
  fs_read fs_info disk fuel file size =
      let position = file.position in
      let count =
        if ltb file.dirent.size (u64 (position + size))
        then file.dirent.size - position
        else size in
      if not fs_info.mounted
      then some (unread file fs_not_mounted)
      else if is_directory file
      then some (unread file fs_error)
      else if leb file.dirent.size position
      then some (unread file 0)
      else elim (seek_cluster fs_info disk fuel position file.dirent.cluster 0) [
        | none ↦ none
        | some none ↦ some (unread file 0)
        | some (some cluster) ↦
            read_loop fs_info disk fuel file [] count cluster (position % fs_info.bytes_per_cluster)
              count
      ]

  -- The table gets a new cluster behind `prev`; 0 for no cluster.
  extend : FsInfo → a.Disk → ℕ → a.Disk × ℕ
  extend fs_info disk prev =
      let (disk', cluster) = fat32_allocate_cluster a fs_info disk in
      if cluster == 0
      then (disk', 0)
      else ((fat32_write_fat_entry a fs_info disk' prev cluster).0, cluster)

  -- The loop of `fs_write` that goes to the cluster of the position, and makes those that are missing;
  -- none within for no cluster.
  make_cluster : FsInfo → a.Disk → ℕ → ℕ → ℕ → ℕ → Option (a.Disk × Option ℕ)
  make_cluster fs_info disk zero position cluster pos = none
  make_cluster fs_info disk (suc fuel) position cluster pos =
      let next = fat32_read_fat_entry a fs_info disk cluster in
      let pos' = u32 (pos + fs_info.bytes_per_cluster) in
      let (disk', made) = extend fs_info disk cluster in
      let onward = make_cluster fs_info disk fuel position next pos' in
      let behind = make_cluster fs_info disk' fuel position made pos' in
      if not (leb pos' position)
      then some (disk, some cluster)
      else if not (leb fat32_eoc next)
      then onward
      else if made == 0
      then some (disk', none)
      else behind

  -- The size of the file after the writing loop.
  finish_write : a.Disk → File → ℕ → WriteResult a
  finish_write disk file result = record {
    disk = disk;
    file =
        if ltb file.dirent.size file.position
        then record file { dirent = record file.dirent { size = file.position } }
        else file;
    result = result;
  }

  -- The writing loop, with `src` for the bytes that are left.
  write_rounds : FsInfo → a.Disk → ℕ → File → ℕ → ℕ → ℕ → List ℕ → Option (WriteResult a)
  write_rounds fs_info disk zero file size cluster cluster_pos src = none
  write_rounds fs_info disk (suc fuel) file size cluster cluster_pos src =
      let lba =
        u32 (fat32_cluster_to_lba fs_info cluster + cluster_pos / fs_info.bytes_per_sector) in
      let offset = cluster_pos % fs_info.bytes_per_sector in
      let sector_bytes = min (fs_info.bytes_per_sector - offset) (length src) in
      let left = drop sector_bytes src in
      let cluster_pos' = u32 (cluster_pos + sector_bytes) in
      let file' = advance file sector_bytes in
      if length src == 0
      then some (finish_write disk file (int_word (size - length src)))
      else elim (a.ata_read_sectors disk lba) [
        | none ↦ some (record { disk = disk; file = file; result = fs_error })
        | some sector ↦
            let (disk', written) =
              a.ata_write_sectors disk lba (overwrite sector offset (take sector_bytes src)) in
            let next = fat32_read_fat_entry a fs_info disk' cluster in
            let (disk'', made) = extend fs_info disk' cluster in
            let same = write_rounds fs_info disk' fuel file' size cluster cluster_pos' left in
            let onward = write_rounds fs_info disk' fuel file' size next 0 left in
            let behind = write_rounds fs_info disk'' fuel file' size made 0 left in
            if not written
            then some (record { disk = disk'; file = file; result = fs_error })
            else if not (leb fs_info.bytes_per_cluster cluster_pos')
            then same
            else if not (leb fat32_eoc next && ltb 0 (length left))
            then onward
            else if made == 0
            then some (finish_write disk'' file' (int_word (size - length left)))
            else behind
      ]

  -- The first cluster of a file that has none yet; 0 for no cluster.
  first_cluster : FsInfo → a.Disk → File → a.Disk × File × ℕ
  first_cluster fs_info disk file =
      let (disk', cluster) = fat32_allocate_cluster a fs_info disk in
      if not (file.dirent.cluster == 0)
      then (disk, file, file.dirent.cluster)
      else if cluster == 0
      then (disk', file, 0)
      else (
        disk',
        record file {
          dirent = record file.dirent { cluster = cluster };
          current_cluster = cluster;
        },
        cluster,
      )

  pub fs_write : FsInfo → a.Disk → ℕ → File → List ℕ → Option (WriteResult a)
  fs_write fs_info disk fuel file src =
      let (disk', file', cluster) = first_cluster fs_info disk file in
      if not fs_info.mounted
      then some (record { disk = disk; file = file; result = fs_not_mounted })
      else if is_directory file
      then some (record { disk = disk; file = file; result = fs_error })
      else if cluster == 0
      then some (record { disk = disk'; file = file'; result = fs_error })
      else elim (make_cluster fs_info disk' fuel file.position cluster 0) [
        | none ↦ none
        | some (disk'', none) ↦ some (record { disk = disk''; file = file'; result = fs_error })
        | some (disk'', some c) ↦
            write_rounds fs_info disk'' fuel file' (length src) c
              (file.position % fs_info.bytes_per_cluster) src
      ]
