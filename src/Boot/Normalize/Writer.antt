-- ===== src/Boot/Normalize/Writer.antt =====
-- What `RegionWriter::emit` adds to the regions written so far.
use makopa_os.Common.{
  ℕ, ◌+◌, ◌*◌, ◌%◌, ◌<◌, ◌≤◌, ◌≡◌, refl, ◌&&◌, Bool, Option, none, some, List, [], ◌∷◌, arith, ltb,
  leb, if◌then◌else◌, length, ok, u64_mod, rev_append,
}
use makopa_os.Boot.{page_size, memory_mmio, MemoryRegionV1}
use makopa_os.Boot.Ranges.{LaidOut, limit}
use makopa_os.Boot.Normalize.{RegionWriter, emit, append_region, region_end}

-- `p` lies in the pages that start at `start`.
abbrev pub covers : ℕ → ℕ → ℕ → Bool
covers start page_count p = leb start p && ltb p (start + page_count * page_size)

-- The kind of the first region that holds the address.
abbrev pub kind_at : List MemoryRegionV1 → ℕ → Option ℕ
kind_at [] p = none
kind_at (r ∷ rs) p = if covers r.physical_start r.page_count p then some r.kind else kind_at rs p

-- Regions in descending order, each laid out, the first of them ending at `mark` or below.
abbrev pub LaidBelow : ℕ → List MemoryRegionV1 → Type 0
LaidBelow mark [] = Unit {0}
LaidBelow mark (r ∷ rs) =
    (limit r ≤ mark)
    × (0 < r.page_count)
    × (r.physical_start % page_size ≡ 0)
    × (r.kind ≤ memory_mmio)
    × (r.attributes ≡ 0)
    × (limit r < u64_mod)
    × LaidBelow r.physical_start rs

pub LaidBelow-mono : (m n : ℕ) (rs : List MemoryRegionV1) → m ≤ n → LaidBelow m rs → LaidBelow n rs
LaidBelow-mono m n [] h b = tt
LaidBelow-mono m n (r ∷ rs) h b = ground (arith, b)

pub kind_at-above :
    (mark p : ℕ) (rs : List MemoryRegionV1) → LaidBelow mark rs → mark ≤ p → kind_at rs p ≡ none
kind_at-above mark p [] b h = refl
kind_at-above mark p (r ∷ rs) b h = ground (arith, kind_at-above r.physical_start p rs)

pub kind_at-below :
    (low p : ℕ) (rs : List MemoryRegionV1) → LaidOut low rs → p < low → kind_at rs p ≡ none
kind_at-below low p [] b h = refl
kind_at-below low p (r ∷ rs) b h = ground (arith, kind_at-below (limit r) p rs)

LaidOut-mono : (m n : ℕ) (rs : List MemoryRegionV1) → m ≤ n → LaidOut n rs → LaidOut m rs
LaidOut-mono m n [] h l = tt
LaidOut-mono m n (r ∷ rs) h l = ground (arith, l)

pub LaidOut-rev_append :
    (mark : ℕ) (ws rs : List MemoryRegionV1)
    → LaidBelow mark ws
    → LaidOut mark rs
    → LaidOut 0 (rev_append ws rs)
LaidOut-rev_append mark [] rs b l = LaidOut-mono 0 mark rs (omega arith) l
LaidOut-rev_append mark (w ∷ ws) rs b l =
    let after = LaidOut-mono (limit w) mark rs (ground arith) l in
    LaidOut-rev_append w.physical_start ws (w ∷ rs) (ground arith) (ground (arith, after))

abbrev pub or_else : Option ℕ → Option ℕ → Option ℕ
or_else none o = o
or_else (some k) o = some k

pub kind_at-rev_append :
    (mark p : ℕ) (ws rs : List MemoryRegionV1)
    → LaidBelow mark ws
    → kind_at (rev_append ws rs) p ≡ or_else (kind_at ws p) (kind_at rs p)
kind_at-rev_append mark p [] rs b = refl
kind_at-rev_append mark p (w ∷ ws) rs b =
    ground (
      arith,
      kind_at-rev_append w.physical_start p ws (w ∷ rs),
      kind_at-above w.physical_start p ws,
    )

-- The writer's regions end at `mark` or below, and there is room for them.
pub record IsWritten (mark : ℕ) (w : RegionWriter) : Type 0 where
  pub laid : LaidBelow mark w.written
  pub room : length w.written ≤ w.capacity

-- A range of whole pages of a known kind.
pub record IsPages (start end kind : ℕ) : Type 0 where
  pub starts : start % page_size ≡ 0
  pub ends : end % page_size ≡ 0
  pub known : kind ≤ memory_mmio
  pub small : end < u64_mod
  pub ordered : start ≤ end

-- The range that a call adds is the only change.
pub record IsEmitted (start end kind : ℕ) (w w' : RegionWriter) : Type 0 where
  pub written : IsWritten end w'
  pub same : w'.capacity ≡ w.capacity
  pub kinds :
      (p : ℕ)
      → kind_at w'.written p ≡ (if leb start p && ltb p end then some kind else kind_at w.written p)

pub emit_written :
    (rs : List MemoryRegionV1) (capacity : ℕ) (w' : RegionWriter) (mark start end kind : ℕ)
    → LaidBelow mark rs
    → length rs ≤ capacity
    → IsPages start end kind
    → mark ≤ start
    → emit (record { written = rs; capacity = capacity }) start end kind ≡ ok w'
    → IsEmitted start end kind (record { written = rs; capacity = capacity }) w'
unfolding emit append_region region_end
emit_written [] capacity w' mark start end kind b room p h e = record {
  written = record { laid = ground (arith, p); room = ground arith };
  same = ground arith;
  kinds = λ q. ground (arith, p);
}
emit_written (r ∷ rs) capacity w' mark start end kind b room p h e = record {
  written = record { laid = ground (arith, p); room = ground arith };
  same = ground arith;
  kinds = λ q. ground (arith, p, kind_at-above r.physical_start q rs);
}
