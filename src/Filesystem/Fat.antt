-- ===== src/Filesystem/Fat.antt =====
-- The allocation table in filesystem.c: fat32_write_fat_entry and fat32_allocate_cluster, seen through
-- fat32_read_fat_entry.
use curnel.Prelude.{
  ℕ, ◌+◌, ◌*◌, ◌/◌, ◌%◌, ◌^◌, ◌<◌, ◌≡◌, ◌≢◌, inl, inr, refl, sym, ap, subst, ◌∙◌, Bool, true, none,
  some, List, length, set, length-set, get_or-set_self, get_or-set_ne, get_or-All, All, Bool-cases,
  Option-cases, ◌==◌, if◌then◌else◌, u32, arith, ==_iff,
}
use curnel.Filesystem.{
  Ata, FsInfo, byte, get32, put32, fat_sector, entry_offset, fs_success, fs_error,
  fat32_read_fat_entry, fat32_write_fat_entry,
}

abbrev pub IsSector : List ℕ → Type 0
IsSector sector = (length sector ≡ 512) × All (λ b. b < 256) sector

-- What the file system relies on: sectors have 512 bytes; a sector that was written is read back; and
-- the others stay as they were.
pub record IsDisk (a : Ata) : Type 0 where
  pub sized :
      (disk : a.Disk) (lba : ℕ) (sector : List ℕ)
      → a.ata_read_sectors disk lba ≡ some sector
      → IsSector sector
  pub stored :
      (disk : a.Disk) (lba : ℕ) (sector : List ℕ)
      → (a.ata_write_sectors disk lba sector).1 ≡ true
      → a.ata_read_sectors (a.ata_write_sectors disk lba sector).0 lba ≡ some sector
  pub apart :
      (disk : a.Disk) (lba other : ℕ) (sector : List ℕ)
      → other ≢ lba
      → a.ata_read_sectors (a.ata_write_sectors disk lba sector).0 other
        ≡ a.ata_read_sectors disk other

byte-set :
    (sector : List ℕ) (i j b : ℕ)
    → i < length sector
    → byte (set sector i b) j ≡ (if j == i then b else byte sector j)
byte-set sector i j b low = elim (Bool-cases (j == i)) [
  | inl hit ↦
      let same : j ≡ i = (==_iff j i).0 hit in
      rw hit (ap (byte (set sector i b)) same ∙ get_or-set_self sector i b 0 low)
  | inr miss ↦ rw miss (get_or-set_ne sector i j b 0 (λ e. ground arith))
]

-- Bytes that are written are read back, and the others stay.
byte-put32 :
    (sector : List ℕ) (i j w : ℕ)
    → i + 3 < length sector
    → byte (put32 sector i w) j ≡ (
        if j == i + 3
        then w / 2 ^ 24 % 256
        else if j == i + 2
        then w / 2 ^ 16 % 256
        else if j == i + 1
        then w / 2 ^ 8 % 256
        else if j == i
        then w % 256
        else byte sector j)
byte-put32 sector i j w low =
    let s1 = set sector i (w % 256) in
    let s2 = set s1 (i + 1) (w / 2 ^ 8 % 256) in
    let s3 = set s2 (i + 2) (w / 2 ^ 16 % 256) in
    let l1 : length s1 ≡ length sector = length-set sector i _ in
    let l2 : length s2 ≡ length s1 = length-set s1 (i + 1) _ in
    let l3 : length s3 ≡ length s2 = length-set s2 (i + 2) _ in
    rw
      (
        byte-set s3 (i + 3) j (w / 2 ^ 24 % 256) (omega (arith, l1, l2, l3)),
        byte-set s2 (i + 2) j (w / 2 ^ 16 % 256) (omega (arith, l1, l2)),
        byte-set s1 (i + 1) j (w / 2 ^ 8 % 256) (omega (arith, l1)),
        byte-set sector i j (w % 256) (omega arith),
      )
      refl

get32-put32_self :
    (sector : List ℕ) (i w : ℕ)
    → i + 3 < length sector
    → w < 2 ^ 32
    → get32 (put32 sector i w) i ≡ w
get32-put32_self sector i w low word =
    let b0 : byte (put32 sector i w) i ≡ w % 256 = byte-put32 sector i i w low ∙ ground arith in
    let b1 : byte (put32 sector i w) (i + 1) ≡ w / 2 ^ 8 % 256 =
      byte-put32 sector i (i + 1) w low ∙ ground arith in
    let b2 : byte (put32 sector i w) (i + 2) ≡ w / 2 ^ 16 % 256 =
      byte-put32 sector i (i + 2) w low ∙ ground arith in
    let b3 : byte (put32 sector i w) (i + 2 + 1) ≡ w / 2 ^ 24 % 256 =
      byte-put32 sector i (i + 2 + 1) w low ∙ ground arith in
    omega (arith, b0, b1, b2, b3)

get32-put32_ne :
    (sector : List ℕ) (i j w : ℕ)
    → i + 3 < length sector
    → i % 4 ≡ 0
    → j % 4 ≡ 0
    → j ≢ i
    → get32 (put32 sector i w) j ≡ get32 sector j
get32-put32_ne sector i j w low hi hj far =
    let b0 : byte (put32 sector i w) j ≡ byte sector j =
      byte-put32 sector i j w low ∙ ground (arith, far) in
    let b1 : byte (put32 sector i w) (j + 1) ≡ byte sector (j + 1) =
      byte-put32 sector i (j + 1) w low ∙ ground (arith, far) in
    let b2 : byte (put32 sector i w) (j + 2) ≡ byte sector (j + 2) =
      byte-put32 sector i (j + 2) w low ∙ ground (arith, far) in
    let b3 : byte (put32 sector i w) (j + 2 + 1) ≡ byte sector (j + 2 + 1) =
      byte-put32 sector i (j + 2 + 1) w low ∙ ground (arith, far) in
    omega (arith, b0, b1, b2, b3)

get32_bound : (sector : List ℕ) (i : ℕ) → All (λ b. b < 256) sector → get32 sector i < 2 ^ 32
get32_bound sector i h =
    let b = λ (k : ℕ). get_or-All (λ x. x < 256) sector k 0 (omega arith) h in
    omega (arith, b i, b (i + 1), b (i + 2), b (i + 2 + 1))

-- The entries of two clusters stand in different places.
places :
    (fs_info : FsInfo) (c d : ℕ)
    → fs_info.bytes_per_sector ≡ 512
    → c < 2 ^ 28
    → d < 2 ^ 28
    → fs_info.fat_start < 2 ^ 31
    → fat_sector fs_info d ≡ fat_sector fs_info c
    → entry_offset fs_info d ≡ entry_offset fs_info c
    → d ≡ c
places fs_info c d size hc hd start same place =
    let s : u32 (fs_info.fat_start + u32 (d * 4) / 512)
        ≡ u32 (fs_info.fat_start + u32 (c * 4) / 512) =
      subst
        (λ b. u32 (fs_info.fat_start + u32 (d * 4) / b) ≡ u32 (fs_info.fat_start + u32 (c * 4) / b))
        size same in
    let p : u32 (d * 4) % 512 ≡ u32 (c * 4) % 512 =
      subst (λ b. u32 (d * 4) % b ≡ u32 (c * 4) % b) size place in
    omega (arith, s, p)

module _ (a : Ata) (law : IsDisk a) (fs_info : FsInfo) (size : fs_info.bytes_per_sector ≡ 512)
    (start : fs_info.fat_start < 2 ^ 31) where
  -- The entry of a cluster in its sector.
  abbrev entry_in : List ℕ → ℕ → ℕ
  entry_in sector d = get32 sector (entry_offset fs_info d) % 2 ^ 28

  pub read_entry :
      (disk : a.Disk) (d : ℕ) (sector : List ℕ)
      → a.ata_read_sectors disk (fat_sector fs_info d) ≡ some sector
      → fat32_read_fat_entry a fs_info disk d ≡ entry_in sector d
  unfolding fat32_read_fat_entry
  read_entry disk d sector e =
      ap (λ r. elim r as (λ _. ℕ) [ none ↦ 0 | some s ↦ get32 s (entry_offset fs_info d) % 2 ^ 28 ])
        e

  same_read :
      (disk disk' : a.Disk) (d : ℕ)
      → a.ata_read_sectors disk' (fat_sector fs_info d)
        ≡ a.ata_read_sectors disk (fat_sector fs_info d)
      → fat32_read_fat_entry a fs_info disk' d ≡ fat32_read_fat_entry a fs_info disk d
  unfolding fat32_read_fat_entry
  same_read disk disk' d e =
      ap (λ r. elim r as (λ _. ℕ) [ none ↦ 0 | some s ↦ get32 s (entry_offset fs_info d) % 2 ^ 28 ])
        e

  abbrev new_word : List ℕ → ℕ → ℕ → ℕ
  new_word sector c value = get32 sector (entry_offset fs_info c) / 2 ^ 28 * 2 ^ 28 + value % 2 ^ 28

  abbrev new_sector : List ℕ → ℕ → ℕ → List ℕ
  new_sector sector c value = put32 sector (entry_offset fs_info c) (new_word sector c value)

  offset_room : (c : ℕ) → (entry_offset fs_info c % 4 ≡ 0) × (entry_offset fs_info c + 3 < 512)
  offset_room c =
      let place : entry_offset fs_info c ≡ u32 (c * 4) % 512 = ap (λ b. u32 (c * 4) % b) size in
      (omega (arith, place), omega (arith, place))

  entry_in-new_sector_self :
      (sector : List ℕ) (c value : ℕ)
      → IsSector sector
      → entry_in (new_sector sector c value) c ≡ value % 2 ^ 28
  entry_in-new_sector_self sector c value (long, bytes) =
      let bound = get32_bound sector (entry_offset fs_info c) bytes in
      let read =
        get32-put32_self sector (entry_offset fs_info c) (new_word sector c value)
          (omega (arith, (offset_room c).1, long)) (omega (arith, bound)) in
      omega (arith, read)

  entry_in-new_sector_ne :
      (sector : List ℕ) (c d value : ℕ)
      → IsSector sector
      → entry_offset fs_info d ≢ entry_offset fs_info c
      → entry_in (new_sector sector c value) d ≡ entry_in sector d
  entry_in-new_sector_ne sector c d value (long, bytes) far =
      ap (λ w. w % 2 ^ 28)
        (get32-put32_ne sector (entry_offset fs_info c) (entry_offset fs_info d)
          (new_word sector c value) (omega (arith, (offset_room c).1, long)) (offset_room c).0
          (offset_room d).0 far)

  abbrev put : a.Disk → ℕ → ℕ → List ℕ → a.Disk × Bool
  put disk c value sector =
      a.ata_write_sectors disk (fat_sector fs_info c) (new_sector sector c value)

  write_unread :
      (disk : a.Disk) (c value : ℕ)
      → a.ata_read_sectors disk (fat_sector fs_info c) ≡ none
      → fat32_write_fat_entry a fs_info disk c value ≡ (disk, fs_error)
  unfolding fat32_write_fat_entry
  write_unread disk c value e = rw (e, fat32_write_fat_entry) refl

  write_read :
      (disk : a.Disk) (c value : ℕ) (sector : List ℕ)
      → a.ata_read_sectors disk (fat_sector fs_info c) ≡ some sector
      → fat32_write_fat_entry a fs_info disk c value ≡ (
        (put disk c value sector).0,
        if (put disk c value sector).1 then fs_success else fs_error,
      )
  unfolding fat32_write_fat_entry
  write_read disk c value sector e = rw (e, fat32_write_fat_entry) refl

  -- A call that succeeds has written the new sector.
  write_done :
      (disk : a.Disk) (c value : ℕ)
      → (fat32_write_fat_entry a fs_info disk c value).1 ≡ fs_success
      → (sector : List ℕ) × (a.ata_read_sectors disk (fat_sector fs_info c) ≡ some sector)
        × ((put disk c value sector).1 ≡ true)
        × ((fat32_write_fat_entry a fs_info disk c value).0 ≡ (put disk c value sector).0)
  write_done disk c value done =
      elim (Option-cases (a.ata_read_sectors disk (fat_sector fs_info c))) [
        | inl e ↦ absurd (error (sym (ap (λ r. r.1) (write_unread disk c value e)) ∙ done))
        | inr (sector, e) ↦
            let code = ap (λ r. r.1) (write_read disk c value sector e) in
            elim (Bool-cases ((put disk c value sector).1)) [
              | inl on ↦ (sector, e, on, ap (λ r. r.0) (write_read disk c value sector e))
              | inr off ↦
                  absurd (
                    error
                      (ap (λ b. if b then fs_success else fs_error) (sym off) ∙ sym code ∙ done))
            ]
      ]
    where
      error : fs_error ≢ fs_success
      error e = omega (arith, e)

  -- After a call of `fat32_write_fat_entry` that succeeds, on a disk that keeps what is written and a
  -- volume with sectors of 512 bytes and its table below sector 2 ^ 31, for clusters below 2 ^ 28: the
  -- entry of its cluster reads as the lower 28 bits of the value, and every other entry reads as before.
  pub fat32_read_fat_entry-fat32_write_fat_entry :
      (disk : a.Disk) (c d value : ℕ)
      → c < 2 ^ 28
      → d < 2 ^ 28
      → (fat32_write_fat_entry a fs_info disk c value).1 ≡ fs_success
      → fat32_read_fat_entry a fs_info (fat32_write_fat_entry a fs_info disk c value).0 d
        ≡ (if d == c then value % 2 ^ 28 else fat32_read_fat_entry a fs_info disk d)
  fat32_read_fat_entry-fat32_write_fat_entry disk c d value hc hd done =
      let (sector, e, written, left) = write_done disk c value done in
      let disk' = (put disk c value sector).0 in
      let lba = fat_sector fs_info c in
      let whole = law.sized disk lba sector e in
      let stored : a.ata_read_sectors disk' lba ≡ some (new_sector sector c value) =
        law.stored disk lba (new_sector sector c value) written in
      ap (λ x. fat32_read_fat_entry a fs_info x d) left ∙ elim (Bool-cases (d == c)) [
        | inl hit ↦
            let same : d ≡ c = (==_iff d c).0 hit in
            rw hit (
              ap (fat32_read_fat_entry a fs_info disk') same
              ∙ read_entry disk' c (new_sector sector c value) stored
              ∙ entry_in-new_sector_self sector c value whole)
        | inr miss ↦
            let far : d ≢ c = ground arith in
            rw miss (elim (Bool-cases (fat_sector fs_info d == lba)) [
              | inr other ↦ same_read disk disk' d (
                  law.apart disk lba (fat_sector fs_info d) (new_sector sector c value)
                    (ground arith))
              | inl one ↦
                  let here : fat_sector fs_info d ≡ lba =
                    (==_iff (fat_sector fs_info d) lba).0 one in
                  read_entry disk' d (new_sector sector c value)
                    (ap (a.ata_read_sectors disk') here ∙ stored)
                  ∙ entry_in-new_sector_ne sector c d value whole
                      (λ p. far (places fs_info c d size hc hd start here p))
                  ∙ sym (read_entry disk d sector (ap (a.ata_read_sectors disk) here ∙ e))
            ])
      ]
