-- ===== src/Paging/Kmalloc.antt =====
-- The pages of the kernel in paging.c: kmalloc_page, kmalloc_pages, kfree_page and kfree_pages.
use curnel.Prelude.{ℕ, zero, suc, ◌+◌, ◌-◌, ◌*◌, ◌==◌, if◌then◌else◌, u64}
use curnel.Paging.{
  Paging, page_size, page_writable, pmm_alloc_page, pmm_free_page, paging_map_page,
  paging_unmap_page, paging_get_physical_address,
}

pub kmalloc_page : Paging → Paging × ℕ
kmalloc_page s =
    let (s', phys_addr) = pmm_alloc_page s in
    if phys_addr == 0
    then (s', 0)
    else (let (t, virt_addr) = paging_map_page s' phys_addr s'.kernel_heap page_writable in
        if virt_addr == 0
        then (pmm_free_page t phys_addr, 0)
        else (record t { kernel_heap = u64 (t.kernel_heap + page_size) }, virt_addr))

kfree_page : Paging → ℕ → Paging
kfree_page s a =
    let phys_addr = paging_get_physical_address s a in
    if phys_addr == 0 then s else pmm_free_page (paging_unmap_page s a) phys_addr

-- The loop of `kfree_pages`, with `left` pages to go, from page `i` on.
free_from : Paging → ℕ → ℕ → ℕ → Paging
free_from s a zero i = s
free_from s a (suc left) i = free_from (kfree_page s (u64 (a + i * page_size))) a left (i + 1)

kfree_pages : Paging → ℕ → ℕ → Paging
kfree_pages s a count = free_from s a count 0

-- The loop of `kmalloc_pages`, with `left` pages to go, from page `i` on.
map_from : Paging → ℕ → ℕ → ℕ → Paging × ℕ
map_from s first_page zero i = (s, first_page)
map_from s first_page (suc left) i =
    let (s', phys_addr) = pmm_alloc_page s in
    if phys_addr == 0
    then (kfree_pages s' first_page i, 0)
    else (let (t, virt_addr) =
          paging_map_page s' phys_addr (u64 (first_page + i * page_size)) page_writable in
        let rest = map_from t first_page left (i + 1) in
        if virt_addr == 0 then (kfree_pages (pmm_free_page t phys_addr) first_page i, 0) else rest)

kmalloc_pages : Paging → ℕ → Paging × ℕ
kmalloc_pages s count =
    let (s', first_page) = kmalloc_page s in
    if first_page == 0 then (s', 0) else map_from s' first_page (count - 1) 1
