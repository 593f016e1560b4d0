-- ===== src/Stats/Arithmetic.antt =====
-- The figures on the memory that `get_ram_stats` reports.
use sistemas_operativos.Prelude.{ℕ, ◌+◌, ◌-◌, ◌*◌, ◌/◌, ◌^◌, ◌≤◌, ◌<◌, ◌≡◌, refl, arith}
use native.Mathlib.Nat.{div-lt_iff_lt-mul}
use sistemas_operativos.Stats.{
  SysInfo, ulong_sub, ulong_mul, page_size, cached_mem, used_mem, total_mem, percentage_used,
}

pub ulong_sub-le : (a b : ℕ) → b ≤ a → a < 2 ^ 64 → ulong_sub a b ≡ a - b
ulong_sub-le a b le h = omega arith

-- The kernel counts in pages, and its counters are consistent: the buffers are pages of files,
-- and the free pages and the pages of files are pages of the memory, whose size in bytes fits.
pub record Consistent (inf : SysInfo) (file_pages : ℕ) : Type 0 where
  pub in_pages : inf.mem_unit ≡ page_size
  pub buffers : inf.bufferram ≤ file_pages
  pub pages : inf.freeram + file_pages ≤ inf.totalram
  pub fits : inf.totalram * page_size < 2 ^ 64

cached_mem-Consistent :
    (inf : SysInfo) (file_pages : ℕ)
    → Consistent inf file_pages
    → cached_mem inf file_pages ≡ (file_pages - inf.bufferram) * page_size
unfolding cached_mem
cached_mem-Consistent inf file_pages c =
    rw (ulong_sub-le file_pages inf.bufferram c.buffers (omega (arith, c.pages, c.fits)))
      (omega (arith, c.pages, c.fits))

ulong_sub-ulong_sub :
    (total free buffers cached : ℕ)
    → free + buffers + cached ≤ total
    → total < 2 ^ 64
    → ulong_sub (ulong_sub (ulong_sub total free) buffers) cached ≡ total - free - buffers - cached
ulong_sub-ulong_sub total free buffers cached le h =
    rw
      (
        ulong_sub-le total free (omega arith) h,
        ulong_sub-le (total - free) buffers (omega arith) (omega arith),
      )
      (ulong_sub-le (total - free - buffers) cached (omega arith) (omega arith))

pub used_mem-Consistent :
    (inf : SysInfo) (file_pages : ℕ)
    → Consistent inf file_pages
    → used_mem inf (cached_mem inf file_pages)
      ≡ (inf.totalram - inf.freeram - inf.bufferram - (file_pages - inf.bufferram)) * page_size
unfolding used_mem
used_mem-Consistent inf file_pages c =
    rw
      (
        cached_mem-Consistent inf file_pages c,
        c.in_pages,
        pages_of,
        ulong_sub-ulong_sub inf.totalram inf.freeram inf.bufferram (file_pages - inf.bufferram)
            (omega (arith, c.pages, c.buffers)) (omega (arith, c.fits)),
      )
      (omega (arith, c.fits))
  where
    pages_of : (file_pages - inf.bufferram) * page_size / page_size ≡ file_pages - inf.bufferram
    pages_of = omega arith

-- If the kernel counts in pages and its counters are consistent, what is used, what is free, the
-- buffers and the cache add up to the memory.
pub used_mem-sum :
    (inf : SysInfo) (file_pages : ℕ)
    → Consistent inf file_pages
    → used_mem inf (cached_mem inf file_pages)
        + inf.freeram * page_size
        + inf.bufferram * page_size
        + cached_mem inf file_pages
      ≡ total_mem inf
unfolding used_mem cached_mem total_mem
used_mem-sum inf file_pages c =
    rw (used_mem-Consistent inf file_pages c, cached_mem-Consistent inf file_pages c, c.in_pages)
      (omega (arith, c.pages, c.buffers, c.fits))

div-le_100 : (a b : ℕ) → 0 < b → a ≤ b * 100 → a / b ≤ 100
div-le_100 a b pos h =
    omega (arith, (div-lt_iff_lt-mul {k = b} {x = a} {y = 101} pos).1 (omega arith))

used_mem-le :
    (inf : SysInfo) (file_pages : ℕ)
    → Consistent inf file_pages
    → used_mem inf (cached_mem inf file_pages) ≤ inf.totalram * page_size
used_mem-le inf file_pages c = rw (used_mem-Consistent inf file_pages c) (omega arith)

-- Under the same conditions, if the memory is not empty and a hundred times its size does not
-- overflow, the percentage of the memory that is used is at most 100, and it is rounded down.
pub percentage_used-le :
    (inf : SysInfo) (file_pages used : ℕ)
    → Consistent inf file_pages
    → 0 < inf.totalram
    → inf.totalram * page_size * 100 < 2 ^ 64
    → used ≡ used_mem inf (cached_mem inf file_pages)
    → (percentage_used inf used ≡ used * 100 / total_mem inf) × (percentage_used inf used ≤ 100)
unfolding percentage_used total_mem
percentage_used-le inf file_pages used c pos fits e = (
  rw small refl,
  rw (small, total)
      (div-le_100 (used * 100) (inf.totalram * page_size) (omega (arith, pos))
        (omega (arith, e, used_mem-le inf file_pages c))),
)
  where
    small : ulong_mul used 100 ≡ used * 100
    small = omega (arith, e, used_mem-le inf file_pages c)

    total : total_mem inf ≡ inf.totalram * page_size
    total = rw c.in_pages (omega (arith, c.fits))

pub total_mem-lt : (inf : SysInfo) → total_mem inf < 2 ^ 64
unfolding total_mem
total_mem-lt inf = omega arith

pub used_mem-lt : (inf : SysInfo) (cached : ℕ) → used_mem inf cached < 2 ^ 64
unfolding used_mem
used_mem-lt inf cached = omega arith

pub cached_mem-lt : (inf : SysInfo) (file_pages : ℕ) → cached_mem inf file_pages < 2 ^ 64
unfolding cached_mem
cached_mem-lt inf file_pages = omega arith
