-- ===== src/Filesystem/Tests.antt =====
-- filesystem.c on a disk that is held in memory.
use curnel.Prelude.{
  ℕ, ◌+◌, ◌-◌, ◌%◌, ◌^◌, ◌<◌, ◌≡◌, inl, inr, refl, sym, ap, ◌∙◌, Bool, true, false, ◌&&◌, none,
  some, List, [], ◌∷◌, subst, length, replicate, drop, min, All, Bool-cases, ltb, ◌==◌,
  if◌then◌else◌, arith, ==_iff, ==_refl,
}
use curnel.Filesystem.{Ata, FsInfo, File, fat32_read_fat_entry, fat32_write_fat_entry, fs_success}
use curnel.Filesystem.Fat.{IsSector, IsDisk, fat32_read_fat_entry-fat32_write_fat_entry}
use curnel.Filesystem.Files.{fs_read}
use curnel.Filesystem.Files.Read
use curnel.Filesystem.Files.Read.{IsVolume}
use curnel.Filesystem.Files.Seek.{fs_read-bytes_from}

abbrev all_bytes : List ℕ → Bool
all_bytes [] = true
all_bytes (b ∷ bs) = ltb b 256 && all_bytes bs

abbrev sound : List ℕ → Bool
sound sector = (length sector == 512) && all_bytes sector

abbrev memory_ata : Ata
memory_ata = record {
  Disk = ℕ → List ℕ;
  ata_read_sectors = λ disk lba. if sound (disk lba) then some (disk lba) else none;
  ata_write_sectors = λ disk lba sector. ((λ n. if n == lba then sector else disk n), sound sector);
}

all_bytes-All : (bs : List ℕ) → all_bytes bs ≡ true → All (λ b. b < 256) bs
all_bytes-All [] h = tt
all_bytes-All (b ∷ bs) h =
    (ground (arith, h), all_bytes-All bs (right (ltb b 256) (all_bytes bs) h))
  where
    right : (x y : Bool) → (x && y) ≡ true → y ≡ true
    right true y h = h
    right false y h = absurd (cc h)

read_if :
    (sector s : List ℕ)
    → (if sound s then some s else none) ≡ some sector
    → (s ≡ sector) × (sound s ≡ true)
read_if sector s e = elim (Bool-cases (sound s)) [
  | inl on ↦ (cc (on, e), on)
  | inr off ↦ absurd (cc (off, e))
]

sound-IsSector : (s : List ℕ) → sound s ≡ true → IsSector s
sound-IsSector s h = elim (Bool-cases (length s == 512)) [
  | inl long ↦
      ((==_iff (length s) 512).0 long, all_bytes-All s (ap (λ b. b && all_bytes s) (sym long) ∙ h))
  | inr off ↦ absurd (cc (ap (λ b. b && all_bytes s) (sym off) ∙ h))
]

memory_ata-IsDisk : IsDisk memory_ata
memory_ata-IsDisk = record {
  sized = λ disk lba sector e.
      let (same, h) = read_if sector (disk lba) e in
      subst IsSector same (sound-IsSector (disk lba) h);
  stored = λ disk lba sector h. rw (==_refl lba) (rw h refl);
  apart = λ disk lba other sector far.
      let miss : (other == lba) ≡ false = ground (arith, far) in rw miss refl;
}

abbrev volume : FsInfo
volume = record {
  device = 0;
  partition_start = 0;
  fat_start = 1;
  data_start = 3;
  root_cluster = 2;
  sectors_per_cluster = 2;
  bytes_per_sector = 512;
  bytes_per_cluster = 1024;
  mounted = true;
}

abbrev empty_disk : ℕ → List ℕ
empty_disk _ = replicate 512 0

writes : (fat32_write_fat_entry memory_ata volume empty_disk 5 9).1 ≡ fs_success
unfolding fat32_write_fat_entry
writes = refl

fat32_read_fat_entry-fat32_write_fat_entry_example :
    fat32_read_fat_entry memory_ata volume
      (fat32_write_fat_entry memory_ata volume empty_disk 5 9).0
      6
    ≡ (if 6 == 5 then 9 % 2 ^ 28 else fat32_read_fat_entry memory_ata volume empty_disk 6)
fat32_read_fat_entry-fat32_write_fat_entry_example =
    fat32_read_fat_entry-fat32_write_fat_entry memory_ata memory_ata-IsDisk volume refl
      (omega arith) empty_disk 5 6 9 (omega arith) (omega arith) writes

volume-IsVolume : IsVolume volume
volume-IsVolume = record {
  sector_size = refl;
  cluster_size = refl;
  positive = omega arith;
  small = omega arith;
}

abbrev sevens : ℕ → List ℕ
sevens _ = replicate 512 7

sevens-reads :
    (lba : ℕ) → (sector : List ℕ) × (memory_ata.ata_read_sectors sevens lba ≡ some sector)
sevens-reads lba = (replicate 512 7, refl)

abbrev short_file : File
short_file = record {
  dirent = record {
    name = [];
    size = 1500;
    flags = 1;
    cluster = 2;
    modified_time = 0;
    created_time = 0;
  };
  position = 1400;
  current_cluster = 2;
  device = 0;
}

fs_read-bytes_from_example :
    fs_read memory_ata volume sevens 2000 short_file 300
    ≡ Read.outcome memory_ata volume sevens volume-IsVolume sevens-reads short_file [] (
        drop 1400 (
          Read.bytes_from memory_ata volume sevens volume-IsVolume sevens-reads 2 0
            (1400 + min 300 (1500 - 1400))))
fs_read-bytes_from_example =
    fs_read-bytes_from memory_ata volume sevens volume-IsVolume sevens-reads short_file 300 2000
      refl refl (omega arith) (omega arith) (omega arith) (omega arith)
