-- ===== src/Filesystem/Files/Seek.antt =====
-- fs_read of filesystem.c as a whole, from the position of the file on.
use curnel.Prelude.{
  ℕ, zero, suc, ◌+◌, ◌-◌, ◌*◌, ◌%◌, ◌^◌, ◌<◌, ◌≤◌, ◌≡◌, ◌⊎◌, inl, inr, refl, sym, ap, ◌∙◌, true,
  false, Option, none, some, List, [], ◌∷◌, drop, min, Bool-cases, ltb, leb, if◌then◌else◌, u32,
  u64, arith,
}
use native.Mathlib.Nat.{add-mul, mul-add-mod_self_right, mod-eq_of_lt}
use curnel.Filesystem.{Ata, FsInfo, File, fat32_eoc, fat32_cluster_to_lba, fat32_read_fat_entry}
use curnel.Filesystem.Files.{unread, is_directory, seek_cluster, read_loop, fs_read}
use curnel.Filesystem.Files.Read.{IsVolume}
use curnel.Filesystem.Files.Read

drop_nil : (n : ℕ) → ◌≡◌ {A = List ℕ} (drop n []) []
drop_nil zero = refl
drop_nil (suc n) = refl

drop-add : (m n : ℕ) (xs : List ℕ) → drop (m + n) xs ≡ drop n (drop m xs)
drop-add zero n xs = ap (λ k. drop k xs) (omega arith)
drop-add (suc m) n [] =
    let sum : suc m + n ≡ suc (m + n) = omega arith in ap (λ k. drop k []) sum ∙ sym (drop_nil n)
drop-add (suc m) n (x ∷ xs) =
    let sum : suc m + n ≡ suc (m + n) = omega arith in
    ap (λ k. drop k (x ∷ xs)) sum ∙ drop-add m n xs

module _ (a : Ata) (fs_info : FsInfo) (disk : a.Disk) (v : IsVolume fs_info)
    (reads : (lba : ℕ) → (sector : List ℕ) × (a.ata_read_sectors disk lba ≡ some sector)) where
  abbrev bytes : ℕ → ℕ → ℕ → List ℕ
  bytes = Read.bytes_from a fs_info disk v reads

  abbrev rest : ℕ → ℕ → ℕ → List ℕ
  rest = Read.after a fs_info disk v reads

  abbrev next : ℕ → ℕ
  next = Read.next a fs_info disk v reads

  abbrev big : ℕ
  big = fs_info.bytes_per_cluster

  -- What stays of a cluster and its chain after bytes of the cluster are left out.
  drop-bytes :
      (n cluster r m : ℕ)
      → r + suc n ≤ big
      → drop (suc n) (bytes cluster r (suc n + m)) ≡ rest cluster (r + suc n) m
  drop-bytes zero cluster r m low =
      let count : 1 + m ≡ suc m = omega arith in
      ap (λ k. drop 1 (bytes cluster r k)) count
      ∙ ap (drop 1) (Read.bytes_from-suc a fs_info disk v reads cluster r m)
  drop-bytes (suc n) cluster r m low =
      let count : suc (suc n) + m ≡ suc (suc n + m) = omega arith in
      let place : r + 1 + suc n ≡ r + suc (suc n) = omega arith in
      ap (λ k. drop (suc (suc n)) (bytes cluster r k)) count
      ∙ ap (drop (suc (suc n))) (Read.bytes_from-suc a fs_info disk v reads cluster r (suc n + m))
      ∙ ap (drop (suc n))
          (Read.after_inside a fs_info disk v reads cluster (r + 1) (suc n + m) (omega arith))
      ∙ drop-bytes n cluster (r + 1) m (omega arith)
      ∙ ap (λ k. rest cluster k m) place

  drop-inside : (cluster r m : ℕ) → r < big → drop r (bytes cluster 0 (r + m)) ≡ bytes cluster r m
  drop-inside cluster zero m low = ap (bytes cluster 0) (omega arith)
  drop-inside cluster (suc r) m low =
      drop-bytes r cluster 0 m (omega arith)
      ∙ ap (λ k. rest cluster k m) (omega arith)
      ∙ Read.after_inside a fs_info disk v reads cluster (suc r) m low

  abbrev beyond : ℕ → ℕ → List ℕ
  beyond cluster m = if leb fat32_eoc (next cluster) then [] else bytes (next cluster) 0 m

  drop-cluster :
      (cluster d m : ℕ)
      → drop (big + d) (bytes cluster 0 (big + d + m)) ≡ drop d (beyond cluster (d + m))
  drop-cluster cluster d m =
      let last = big - 1 in
      let whole : suc last ≡ big = omega (arith, v.cluster_size, v.positive) in
      let count : big + d + m ≡ suc last + (d + m) = omega (arith, whole) in
      let end : 0 + suc last ≡ big = omega (arith, whole) in
      let outside : ltb big big ≡ false = ground arith in
      drop-add big d (bytes cluster 0 (big + d + m))
      ∙ ap (drop d) (
          ap (λ k. drop big (bytes cluster 0 k)) count
          ∙ ap (λ k. drop k (bytes cluster 0 (suc last + (d + m)))) (sym whole)
          ∙ drop-bytes last cluster 0 (d + m) (omega (arith, whole))
          ∙ ap (λ k. rest cluster k (d + m)) end
          ∙ rw outside refl)

  seek_stop :
      (fuel position cluster pos : ℕ)
      → u32 (pos + big) ≡ pos + big
      → leb (pos + big) position ≡ false
      → seek_cluster a fs_info disk (suc fuel) position cluster pos ≡ some (some cluster)
  unfolding seek_cluster
  seek_stop fuel position cluster pos fits short = rw (fits, short) refl

  seek_end :
      (fuel position cluster pos : ℕ)
      → u32 (pos + big) ≡ pos + big
      → leb (pos + big) position ≡ true
      → leb fat32_eoc (next cluster) ≡ true
      → seek_cluster a fs_info disk (suc fuel) position cluster pos ≡ some none
  unfolding seek_cluster
  seek_end fuel position cluster pos fits long end = rw (fits, long, end) refl

  seek_on :
      (fuel position cluster pos : ℕ)
      → u32 (pos + big) ≡ pos + big
      → leb (pos + big) position ≡ true
      → leb fat32_eoc (next cluster) ≡ false
      → seek_cluster a fs_info disk (suc fuel) position cluster pos
        ≡ seek_cluster a fs_info disk fuel position (next cluster) (pos + big)
  unfolding seek_cluster
  seek_on fuel position cluster pos fits long on = rw (fits, long, on) refl

  -- Where the way to a position ends, and what is left of the bytes from the cluster on.
  abbrev Sought : ℕ → ℕ → ℕ → ℕ → Option (Option ℕ) → Type 0
  Sought cluster pos d m o =
      ((o ≡ some none) × (drop d (bytes cluster 0 (d + m)) ≡ []))
      ⊎ ((found k r : ℕ) × (o ≡ some (some found))
          × (pos + d ≡ pos + k * big + r)
          × (r < big)
          × (drop d (bytes cluster 0 (d + m)) ≡ bytes found r m))

  seek_cluster-Sought :
      (fuel cluster pos d m : ℕ)
      → d < fuel
      → pos + d + big < 2 ^ 32
      → Sought cluster pos d m (seek_cluster a fs_info disk fuel (pos + d) cluster pos)
  seek_cluster-Sought zero cluster pos d m enough small = absurd (omega arith)
  seek_cluster-Sought (suc fuel) cluster pos d m enough small =
      let fits : u32 (pos + big) ≡ pos + big = omega arith in
      elim (Bool-cases (leb (pos + big) (pos + d))) [
        | inr short ↦
            let low : d < big = ground arith in
            inr (
              cluster,
              0,
              d,
              seek_stop fuel (pos + d) cluster pos fits short,
              omega arith,
              low,
              drop-inside cluster d m low,
            )
        | inl long ↦
            let d' = d - big in
            let split : d ≡ big + d' = ground arith in
            let left : drop d (bytes cluster 0 (d + m)) ≡ drop d' (beyond cluster (d' + m)) =
              ap (λ k. drop k (bytes cluster 0 (k + m))) split ∙ drop-cluster cluster d' m in
            elim (Bool-cases (leb fat32_eoc (next cluster))) [
              | inl end ↦
                  inl
                    (seek_end fuel (pos + d) cluster pos fits long end, left ∙ rw end (drop_nil d'))
              | inr on ↦
                  let walk = seek_on fuel (pos + d) cluster pos fits long on in
                  let sum : pos + d ≡ pos + big + d' = omega (arith, split) in
                  let again : drop d (bytes cluster 0 (d + m))
                      ≡ drop d' (bytes (next cluster) 0 (d' + m)) =
                    left ∙ rw on refl in
                  let go =
                    walk
                    ∙ ap (λ k. seek_cluster a fs_info disk fuel k (next cluster) (pos + big)) sum in
                  elim (seek_cluster-Sought fuel (next cluster) (pos + big) d' m
                    (omega (arith, split, v.cluster_size, v.positive)) (omega (arith, split))) [
                      | inl (e, nothing) ↦ inl (go ∙ e, again ∙ nothing)
                      | inr (found, k, r, e, at, low, some_bytes) ↦ inr (
                        found,
                        k + 1,
                        r,
                        go ∙ e,
                        omega (arith, sum, at, add-mul k 1 big),
                        low,
                        again ∙ some_bytes,
                      )
                    ]
            ]
      ]

  mod-Sought : (d k r : ℕ) → 0 + d ≡ 0 + k * big + r → r < big → d % big ≡ r
  mod-Sought d k r at low =
      let sum : d ≡ k * big + r = omega (arith, at) in
      ap (λ x. x % big) sum ∙ mul-add-mod_self_right k big r ∙ mod-eq_of_lt low

  module _ (file : File) (size fuel : ℕ) (mounted : fs_info.mounted ≡ true)
      (plain : is_directory file ≡ false) (before : file.position < file.dirent.size)
      (word : file.dirent.size < 2 ^ 31) (request : size < 2 ^ 63)
      (enough : file.position + size < fuel) where
    abbrev count : ℕ
    count = min size (file.dirent.size - file.position)

    abbrev way : Option (Option ℕ)
    way = seek_cluster a fs_info disk fuel file.position file.dirent.cluster 0

    fs_read-count :
        (if ltb file.dirent.size (u64 (file.position + size))
          then file.dirent.size - file.position
          else size)
        ≡ count
    fs_read-count = ground arith

    zero_more : 0 + file.position ≡ file.position
    zero_more = omega arith

    fs_read_end : way ≡ some none → fs_read a fs_info disk fuel file size ≡ some (unread file 0)
    unfolding fs_read seek_cluster
    fs_read_end e =
        let inside : leb file.dirent.size file.position ≡ false = ground arith in
        rw (mounted, plain, inside, e) refl

    fs_read_found :
        (cluster : ℕ)
        → way ≡ some (some cluster)
        → fs_read a fs_info disk fuel file size
          ≡ read_loop a fs_info disk fuel file [] count cluster (file.position % big) count
    unfolding fs_read seek_cluster read_loop fat32_read_fat_entry fat32_cluster_to_lba
    fs_read_found cluster e =
        let inside : leb file.dirent.size file.position ≡ false = ground arith in
        rw (mounted, plain, inside, e, fs_read-count) refl

    -- On a mounted volume with sectors of 512 bytes and clusters of whole sectors below 2 ^ 31 bytes, all
    -- of which can be read, `fs_read` of less than 2 ^ 63 bytes of a file below 2 ^ 31 bytes that is no
    -- directory, at a position before its end, with fuel for every byte on the way, comes to what a
    -- reading of one byte at a time from the start of the file has behind the position: it gives these
    -- bytes and their number, at most as many as were asked for and as the file still has, fewer where
    -- its chain of clusters ends, and moves the position by it.
    pub fs_read-bytes_from :
        fs_read a fs_info disk fuel file size
        ≡ Read.outcome a fs_info disk v reads file []
            (drop file.position (bytes file.dirent.cluster 0 (file.position + count)))
    fs_read-bytes_from =
        let same : seek_cluster a fs_info disk fuel (0 + file.position) file.dirent.cluster 0
            ≡ way =
          ap (λ k. seek_cluster a fs_info disk fuel k file.dirent.cluster 0) zero_more in
        elim (seek_cluster-Sought fuel file.dirent.cluster 0 file.position count (omega arith)
          (omega (arith, v.small))) [
            | inl (e, nothing) ↦
                fs_read_end (sym same ∙ e)
                ∙ sym (Read.outcome-nil a fs_info disk v reads file [] (omega arith))
                ∙ ap (Read.outcome a fs_info disk v reads file []) (sym nothing)
            | inr (found, k, r, e, at, low, some_bytes) ↦
                fs_read_found found (sym same ∙ e)
                ∙ ap (λ x. read_loop a fs_info disk fuel file [] count found x count)
                    (mod-Sought file.position k r at low)
                ∙ Read.read_loop-bytes_from a fs_info disk v reads fuel file [] count found r count
                    (omega arith) low (omega arith) (omega arith)
                ∙ ap (Read.outcome a fs_info disk v reads file []) (sym some_bytes)
          ]
