-- ===== src/Filesystem/Files/Read.antt =====
-- fs_read of filesystem.c against a reading of one byte at a time.
use curnel.Prelude.{
  ℕ, zero, suc, ◌+◌, ◌-◌, ◌*◌, ◌/◌, ◌%◌, ◌^◌, ◌<◌, ◌≤◌, ◌≡◌, inl, inr, refl, sym, ap, ap₂, ◌∙◌,
  true, false, ◌&&◌, Option, some, List, [], ◌∷◌, ◌++◌, length, length-append, min, Bool-cases, ltb,
  leb, ◌==◌, if◌then◌else◌, u32, int_word, arith,
}
use mathlib.Core.List.{append_assoc, append-nil}
use curnel.Filesystem.{
  Ata, FsInfo, File, byte, fat32_eoc, fat32_cluster_to_lba, fat32_read_fat_entry,
}
use curnel.Filesystem.Files.{ReadResult, advance, slice, read_loop}

-- The geometry for which the buffers are made.
pub record IsVolume (fs_info : FsInfo) : Type 0 where
  pub sector_size : fs_info.bytes_per_sector ≡ 512
  pub cluster_size : fs_info.bytes_per_cluster ≡ 512 * fs_info.sectors_per_cluster
  pub positive : 0 < fs_info.sectors_per_cluster
  pub small : fs_info.bytes_per_cluster < 2 ^ 31

module _ (a : Ata) (fs_info : FsInfo) (disk : a.Disk) (v : IsVolume fs_info)
    (reads : (lba : ℕ) → (sector : List ℕ) × (a.ata_read_sectors disk lba ≡ some sector)) where
  abbrev sector_of : ℕ → ℕ → List ℕ
  sector_of cluster r = (reads (u32 (fat32_cluster_to_lba fs_info cluster + r / 512))).0

  abbrev pub next : ℕ → ℕ
  next cluster = fat32_read_fat_entry a fs_info disk cluster

  -- At most `n` bytes of a file, one at a time, from byte `r` of a cluster on, to the end of its chain.
  pub bytes_from : ℕ → ℕ → ℕ → List ℕ
  bytes_from cluster r zero = []
  bytes_from cluster r (suc n) =
      let here = bytes_from cluster (r + 1) n in
      let behind = bytes_from (next cluster) 0 n in
      byte (sector_of cluster r) (r % 512)
      ∷ (if ltb (r + 1) fs_info.bytes_per_cluster
          then here
          else if leb fat32_eoc (next cluster)
          then []
          else behind)

  -- What follows byte `r` of a cluster.
  abbrev pub after : ℕ → ℕ → ℕ → List ℕ
  after cluster r n =
      if ltb r fs_info.bytes_per_cluster
      then bytes_from cluster r n
      else if leb fat32_eoc (next cluster)
      then []
      else bytes_from (next cluster) 0 n

  pub bytes_from-suc :
      (cluster r n : ℕ)
      → bytes_from cluster r (suc n)
        ≡ byte (sector_of cluster r) (r % 512) ∷ after cluster (r + 1) n
  unfolding bytes_from
  bytes_from-suc cluster r n = refl

  pub after_inside :
      (cluster r n : ℕ) → r < fs_info.bytes_per_cluster → after cluster r n ≡ bytes_from cluster r n
  after_inside cluster r n low =
      let test : ltb r fs_info.bytes_per_cluster ≡ true = ground arith in rw test refl

  -- The bytes of one sector, then what follows them.
  bytes_from-slice :
      (cluster r n m : ℕ)
      → r < fs_info.bytes_per_cluster
      → r % 512 + n ≤ 512
      → 0 < n
      → bytes_from cluster r (n + m)
        ≡ slice (sector_of cluster r) (r % 512) n ++ after cluster (r + n) m
  bytes_from-slice cluster r zero m low room some_byte = absurd (omega arith)
  bytes_from-slice cluster r (suc zero) m low room some_byte =
      let count : 1 + m ≡ suc m = omega arith in
      ap (bytes_from cluster r) count ∙ bytes_from-suc cluster r m
  bytes_from-slice cluster r (suc (suc n)) m low room some_byte =
      let count : suc (suc n) + m ≡ suc (suc n + m) = omega arith in
      let inside : r + 1 < fs_info.bytes_per_cluster = omega (arith, v.cluster_size) in
      let sector : (r + 1) / 512 ≡ r / 512 = omega arith in
      let offset : (r + 1) % 512 ≡ r % 512 + 1 = omega arith in
      let place : r + 1 + suc n ≡ r + suc (suc n) = omega arith in
      let rest = bytes_from-slice cluster (r + 1) (suc n) m inside (omega arith) (omega arith) in
      ap (bytes_from cluster r) count
      ∙ bytes_from-suc cluster r (suc n + m)
      ∙ ap (λ x. byte (sector_of cluster r) (r % 512) ∷ x)
          (after_inside cluster (r + 1) (suc n + m) inside
            ∙ rest
            ∙ ap₂
                (λ x y.
                  slice (reads (u32 (fat32_cluster_to_lba fs_info cluster + x))).0 y (suc n)
                  ++ after cluster (r + 1 + suc n) m)
                sector offset
            ∙ ap (λ x. slice (sector_of cluster r) (r % 512 + 1) (suc n) ++ after cluster x m)
                place)

  -- The outcome of a reading loop that comes to have these bytes.
  abbrev pub outcome : File → List ℕ → List ℕ → Option ReadResult
  outcome file buffer bytes = some (record {
    file = advance file (length bytes);
    buffer = buffer ++ bytes;
    result = int_word (length buffer + length bytes);
  })

  pub outcome-nil :
      (file : File) (buffer : List ℕ)
      → file.position < 2 ^ 32
      → outcome file buffer []
        ≡ some (record { file = file; buffer = buffer; result = int_word (length buffer) })
  outcome-nil file buffer word =
      let same : u32 (file.position + 0) ≡ file.position = omega arith in
      let none_more : length buffer + 0 ≡ length buffer = omega arith in
      rw (same, append-nil buffer, none_more) refl

  outcome-append :
      (file : File) (buffer xs ys : List ℕ)
      → outcome (advance file (length xs)) (buffer ++ xs) ys ≡ outcome file buffer (xs ++ ys)
  outcome-append file buffer xs ys =
      let total : length (buffer ++ xs) + length ys ≡ length buffer + length (xs ++ ys) =
        omega (arith, length-append buffer xs, length-append xs ys) in
      let place : u32 (u32 (file.position + length xs) + length ys)
          ≡ u32 (file.position + length (xs ++ ys)) =
        omega (arith, length-append xs ys) in
      rw (total, place, append_assoc buffer xs ys) refl

  -- One turn of the reading loop, which reads `n` bytes of a sector.
  module _ (fuel : ℕ) (file : File) (buffer : List ℕ) (size cluster r left : ℕ) where
    abbrev n : ℕ
    n = min (512 - r % 512) (suc left)

    abbrev read : List ℕ
    read = slice (sector_of cluster r) (r % 512) n

    abbrev loop : Option ReadResult
    loop = read_loop a fs_info disk (suc fuel) file buffer size cluster r (suc left)

    module _ (low : r < fs_info.bytes_per_cluster) where
      found :
          a.ata_read_sectors disk (u32 (fat32_cluster_to_lba fs_info cluster + r / 512))
          ≡ some (sector_of cluster r)
      found = (reads (u32 (fat32_cluster_to_lba fs_info cluster + r / 512))).1

      place : u32 (r + n) ≡ r + n
      place = omega (arith, v.small)

      more : (suc left == 0) ≡ false
      more = ground arith

      turn_same :
          leb fs_info.bytes_per_cluster (r + n) ≡ false
          → loop
            ≡ read_loop a fs_info disk fuel
                (advance file n)
                (buffer ++ read)
                size
                cluster
                (r + n)
                (suc left - n)
      unfolding read_loop
      turn_same test =
          simp v.sector_size (rw found (simp v.sector_size (rw (more, place, test) refl)))

      turn_end :
          leb fs_info.bytes_per_cluster (r + n) ≡ true
          → (leb fat32_eoc (next cluster) && ltb 0 (suc left - n)) ≡ true
          → loop
            ≡ some (record {
              file = advance file n;
              buffer = buffer ++ read;
              result = int_word (size - (suc left - n));
            })
      unfolding read_loop
      turn_end test last =
          simp v.sector_size (rw found (simp v.sector_size (rw (more, place, test, last) refl)))

      turn_next :
          leb fs_info.bytes_per_cluster (r + n) ≡ true
          → (leb fat32_eoc (next cluster) && ltb 0 (suc left - n)) ≡ false
          → loop
            ≡ read_loop a fs_info disk fuel
                (advance file n)
                (buffer ++ read)
                size
                (next cluster)
                0
                (suc left - n)
      unfolding read_loop
      turn_next test last =
          simp v.sector_size (rw found (simp v.sector_size (rw (more, place, test, last) refl)))

  length-slice : (sector : List ℕ) (i n : ℕ) → length (slice sector i n) ≡ n
  length-slice sector i zero = refl
  length-slice sector i (suc n) = ap suc (length-slice sector (i + 1) n)

  read_loop_end :
      (fuel : ℕ) (file : File) (buffer : List ℕ) (size cluster r : ℕ)
      → read_loop a fs_info disk (suc fuel) file buffer size cluster r 0
        ≡ some (record { file = file; buffer = buffer; result = int_word (size - 0) })
  unfolding read_loop
  read_loop_end fuel file buffer size cluster r = refl

  outcome_stop :
      (file : File) (buffer : List ℕ) (size left : ℕ)
      → file.position < 2 ^ 32
      → left + length buffer ≡ size
      → some (record { file = file; buffer = buffer; result = int_word (size - left) })
        ≡ outcome file buffer []
  outcome_stop file buffer size left word sum =
      let count : size - left ≡ length buffer = omega arith in
      rw count (sym (outcome-nil file buffer word))

  chain_end :
      (cluster n : ℕ)
      → (leb fat32_eoc (next cluster) && ltb 0 n) ≡ true
      → [] ≡ (if leb fat32_eoc (next cluster) then [] else bytes_from (next cluster) 0 n)
  chain_end cluster n last = elim (Bool-cases (leb fat32_eoc (next cluster))) [
    | inl end ↦ rw end refl
    | inr on ↦ absurd (ground (arith, last, on))
  ]

  chain_on :
      (cluster n : ℕ)
      → (leb fat32_eoc (next cluster) && ltb 0 n) ≡ false
      → bytes_from (next cluster) 0 n
        ≡ (if leb fat32_eoc (next cluster) then [] else bytes_from (next cluster) 0 n)
  unfolding bytes_from
  chain_on cluster n on = elim (Bool-cases (leb fat32_eoc (next cluster))) [
    | inr behind ↦ rw behind refl
    | inl end ↦
        let nothing : n ≡ 0 = ground (arith, on, end) in
        rw end (ap (bytes_from (next cluster) 0) nothing)
  ]

  -- The reading loop, with fuel for one turn a byte, comes to have the bytes that follow.
  pub read_loop-bytes_from :
      (fuel : ℕ) (file : File) (buffer : List ℕ) (size cluster r left : ℕ)
      → left < fuel
      → r < fs_info.bytes_per_cluster
      → left + length buffer ≡ size
      → file.position < 2 ^ 32
      → read_loop a fs_info disk fuel file buffer size cluster r left
        ≡ outcome file buffer (bytes_from cluster r left)
  unfolding bytes_from
  read_loop-bytes_from zero file buffer size cluster r left enough low sum word =
      absurd (omega arith)
  read_loop-bytes_from (suc fuel) file buffer size cluster r zero enough low sum word =
      read_loop_end fuel file buffer size cluster r ∙ outcome_stop file buffer size 0 word sum
  read_loop-bytes_from (suc fuel) file buffer size cluster r (suc left) enough low sum word =
      let n = min (512 - r % 512) (suc left) in
      let m = suc left - n in
      let read = slice (sector_of cluster r) (r % 512) n in
      let total : suc left ≡ n + m = omega arith in
      let bytes : bytes_from cluster r (suc left) ≡ read ++ after cluster (r + n) m =
        ap (bytes_from cluster r) total
        ∙ bytes_from-slice cluster r n m low (omega arith) (omega arith) in
      let file' = advance file n in
      let advanced : file' ≡ advance file (length read) =
        ap (advance file) (sym (length-slice (sector_of cluster r) (r % 512) n)) in
      let kept : m + length (buffer ++ read) ≡ size =
        omega (arith, length-append buffer read, length-slice (sector_of cluster r) (r % 512) n) in
      let whole : (ys : List ℕ)
          → ys ≡ after cluster (r + n) m
          → outcome file' (buffer ++ read) ys
            ≡ outcome file buffer (bytes_from cluster r (suc left)) =
        λ ys e.
          ap (λ f. outcome f (buffer ++ read) ys) advanced
          ∙ outcome-append file buffer read ys
          ∙ ap (outcome file buffer) (ap (λ x. read ++ x) e ∙ sym bytes) in
      elim (Bool-cases (leb fs_info.bytes_per_cluster (r + n))) [
        | inr short ↦
            let inside : r + n < fs_info.bytes_per_cluster = ground arith in
            turn_same fuel file buffer size cluster r left low short
            ∙ read_loop-bytes_from fuel file' (buffer ++ read) size cluster (r + n) m (omega arith)
                inside kept (omega arith)
            ∙ whole (bytes_from cluster (r + n) m) (sym (after_inside cluster (r + n) m inside))
        | inl full ↦
            let outside : ltb (r + n) fs_info.bytes_per_cluster ≡ false = ground arith in
            elim (Bool-cases (leb fat32_eoc (next cluster) && ltb 0 m)) [
              | inl last ↦
                  turn_end fuel file buffer size cluster r left low full last
                  ∙ outcome_stop file' (buffer ++ read) size m (omega arith) kept
                  ∙ whole [] (rw outside (chain_end cluster m last))
              | inr on ↦
                  turn_next fuel file buffer size cluster r left low full on
                  ∙ read_loop-bytes_from fuel file' (buffer ++ read) size (next cluster) 0 m
                      (omega arith) (omega arith) kept (omega arith)
                  ∙ whole (bytes_from (next cluster) 0 m) (rw outside (chain_on cluster m on))
            ]
      ]
