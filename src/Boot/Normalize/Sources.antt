-- ===== src/Boot/Normalize/Sources.antt =====
-- The loop of `normalize_memory_regions` over the firmware's regions.
use makopa_os.Common.{
  ok_injective, ℕ, ◌+◌, ◌*◌, ◌<◌, ◌≤◌, ◌≡◌, refl, sym, ◌∙◌, subst, ◌&&◌, Option, none, some, List,
  [], ◌∷◌, arith, ltb, leb, if◌then◌else◌, ok, Bool-cases, Result-cases, inl, inr,
}
use makopa_os.Boot.{page_size}
use makopa_os.Boot.Normalize.{
  RegionWriter, SourceMemoryRegion, MemoryRegionOverride, emit, region_end, replace_in,
  checked_region_end, normalize_sources,
}
use makopa_os.Boot.Normalize.Writer.{
  covers, kind_at, IsWritten, IsPages, emit_written, LaidBelow-mono, kind_at-above,
}
use makopa_os.Boot.Normalize.Rounds.{replace_in_lem}
use makopa_os.Boot.Normalize.Overrides.{OverridesFrom, override_at, or_kind}

-- The kind of the first firmware region that holds the address.
abbrev pub source_at : List SourceMemoryRegion → ℕ → Option ℕ
source_at [] p = none
source_at (s ∷ ss) p =
    if covers s.physical_start s.page_count p then some s.kind else source_at ss p

-- What the memory map has to say of an address: the kind of the override that holds it, else that of
-- the source, and nothing outside every source.
abbrev pub overlay : Option ℕ → Option ℕ → Option ℕ
overlay none o = none
overlay (some kind) o = some (or_kind kind o)

abbrev source_limit : SourceMemoryRegion → ℕ
source_limit s = s.physical_start + s.page_count * page_size

source_checked :
    (s : SourceMemoryRegion) (end : ℕ)
    → checked_region_end s.physical_start s.page_count s.kind ≡ ok end
    → (end ≡ source_limit s) × IsPages s.physical_start (source_limit s) s.kind
unfolding checked_region_end region_end
source_checked s end e = (
  ground arith,
  record {
    starts = ground arith;
    ends = ground arith;
    known = ground arith;
    small = ground arith;
    ordered = ground arith;
  },
)

-- Inversion of one round.
record SourceRound (start mark : ℕ) (os : List MemoryRegionOverride) (s : SourceMemoryRegion)
    (ss : List SourceMemoryRegion) (w w' : RegionWriter) : Type 0 where
  pub cursor : ℕ
  pub ps : List MemoryRegionOverride
  pub replaced : RegionWriter
  pub finished : RegionWriter
  pub pages : IsPages s.physical_start (source_limit s) s.kind
  pub later : mark ≤ s.physical_start
  pub replaces :
      replace_in s.kind (source_limit s) s.physical_start os w ≡ ok (cursor, ps, replaced)
  pub finishes : emit replaced cursor (source_limit s) s.kind ≡ ok finished
  pub rest :
      normalize_sources (some s.physical_start) (some (source_limit s)) ps ss finished ≡ ok w'

source_round :
    (start mark : ℕ) (os : List MemoryRegionOverride) (s : SourceMemoryRegion)
    (ss : List SourceMemoryRegion) (w w' : RegionWriter)
    → normalize_sources (some start) (some mark) os (s ∷ ss) w ≡ ok w'
    → SourceRound start mark os s ss w w'
unfolding normalize_sources
source_round start mark os s ss w w' e =
    elim (Result-cases (checked_region_end s.physical_start s.page_count s.kind)) [
      | inr (x, bad) ↦ absurd (ground arith)
      | inl (end, good) ↦
          let (limit, pages) = source_checked s end good in
          let good' = rw limit at good in
          elim (Result-cases (replace_in s.kind (source_limit s) s.physical_start os w)) [
            | inr (x, bad) ↦ absurd (ground arith)
            | inl ((cursor, ps, replaced), replaces) ↦
                elim (Result-cases (emit replaced cursor (source_limit s) s.kind)) [
                  | inr (x, bad) ↦ absurd (ground arith)
                  | inl (finished, finishes) ↦ record {
                    cursor = cursor;
                    ps = ps;
                    replaced = replaced;
                    finished = finished;
                    pages = pages;
                    later = ground arith;
                    replaces = replaces;
                    finishes = finishes;
                    rest = ground arith;
                  }
                ]
          ]
    ]

-- One round has written the whole source region, and nothing else.
record IsCovered (os : List MemoryRegionOverride) (s : SourceMemoryRegion)
    (ps : List MemoryRegionOverride) (w finished : RegionWriter) : Type 0 where
  pub written : IsWritten (source_limit s) finished
  pub same : finished.capacity ≡ w.capacity
  pub kinds :
      (p : ℕ)
      → kind_at finished.written p ≡ (
          if covers s.physical_start s.page_count p
          then some (or_kind s.kind (override_at os p))
          else kind_at w.written p)
  pub later : (p : ℕ) → source_limit s ≤ p → override_at ps p ≡ override_at os p
  pub ahead : OverridesFrom 0 ps

source-IsCovered :
    (start mark : ℕ) (os : List MemoryRegionOverride) (s : SourceMemoryRegion)
    (ss : List SourceMemoryRegion) (w w' : RegionWriter)
    → IsWritten mark w
    → OverridesFrom 0 os
    → (round : SourceRound start mark os s ss w w') → IsCovered os s round.ps w round.finished
source-IsCovered start mark os s ss w w' i l round =
    let reached : IsWritten s.physical_start w = record {
      laid = LaidBelow-mono mark s.physical_start w.written round.later i.laid;
      room = i.room;
    } in
    let r =
      replace_in_lem s.kind (source_limit s) s.physical_start os w round.cursor round.ps
        round.replaced reached round.pages l round.replaces in
    let f =
      emit_written round.replaced.written round.replaced.capacity round.finished round.cursor
        round.cursor (source_limit s) s.kind r.written.laid r.written.room
        (record {
          starts = r.whole;
          ends = round.pages.ends;
          known = round.pages.known;
          small = round.pages.small;
          ordered = r.within;
        })
        (omega arith) round.finishes in
    record {
      written = f.written;
      same = f.same ∙ r.same;
      kinds = λ p. ground (arith, f.kinds p, r.kinds p, r.forward, r.within, r.clear p);
      later = r.later;
      ahead = r.ahead;
    }

-- Every region is written in its place.
pub record IsNormalized (mark : ℕ) (os : List MemoryRegionOverride) (ss : List SourceMemoryRegion)
    (w w' : RegionWriter) : Type 0 where
  pub top : ℕ
  pub before : (p : ℕ) → p < mark → source_at ss p ≡ none
  pub written : IsWritten top w'
  pub same : w'.capacity ≡ w.capacity
  pub kinds :
      (p : ℕ)
      → kind_at w'.written p
        ≡ (if ltb p mark then kind_at w.written p else overlay (source_at ss p) (override_at os p))

kinds_of_rounds :
    (p mark low limit kind : ℕ) (final first start source old new : Option ℕ)
    → mark ≤ low
    → low ≤ limit
    → (final ≡ (if ltb p limit then first else overlay source new))
    → (first ≡ (if leb low p && ltb p limit then some (or_kind kind old) else start))
    → (limit ≤ p → new ≡ old)
    → (p < limit → source ≡ none)
    → (mark ≤ p → start ≡ none)
    → final ≡ (
        if ltb p mark
        then start
        else overlay (if leb low p && ltb p limit then some kind else source) old)
kinds_of_rounds p mark low limit kind final first start source old new h₁ h₂ e₁ e₂ later past
      above =
    elim (Bool-cases (ltb p limit)) [
      | inl below ↦ ground (arith, past (ground arith))
      | inr beyond ↦ ground (arith, later (ground arith))
    ]

normalize_sources-some :
    (start mark : ℕ) (os : List MemoryRegionOverride) (ss : List SourceMemoryRegion)
    (w w' : RegionWriter)
    → IsWritten mark w
    → OverridesFrom 0 os
    → normalize_sources (some start) (some mark) os ss w ≡ ok w'
    → IsNormalized mark os ss w w'
unfolding normalize_sources
normalize_sources-some start mark os [] w w' i l e =
    subst (λ v. IsNormalized mark os [] w v) (ok_injective e)
      (record {
        top = mark;
        before = λ p h. refl;
        written = i;
        same = refl;
        kinds = λ p. ground (arith, kind_at-above mark p w.written i.laid);
      })
normalize_sources-some start mark os (s ∷ ss) w w' i l e =
    let round = source_round start mark os s ss w w' e in
    let c = source-IsCovered start mark os s ss w w' i l round in
    let n =
      normalize_sources-some s.physical_start (source_limit s) round.ps ss round.finished w'
        c.written c.ahead round.rest in
    record {
      top = n.top;
      before = λ p h. ground (arith, n.before p, round.later);
      written = n.written;
      same = n.same ∙ c.same;
      kinds = λ p.
          kinds_of_rounds p mark s.physical_start (source_limit s) s.kind (kind_at w'.written p)
            (kind_at round.finished.written p) (kind_at w.written p) (source_at ss p)
            (override_at os p) (override_at round.ps p) round.later round.pages.ordered (n.kinds p)
            (c.kinds p) (c.later p) (n.before p) (kind_at-above mark p w.written i.laid);
    }

none_is_zero :
    (os : List MemoryRegionOverride) (ss : List SourceMemoryRegion) (w : RegionWriter)
    → normalize_sources none none os ss w ≡ normalize_sources (some 0) (some 0) os ss w
unfolding normalize_sources
none_is_zero os [] w = refl
none_is_zero os (s ∷ ss) w = ground arith

pub normalize_sources_lem :
    (os : List MemoryRegionOverride) (ss : List SourceMemoryRegion) (w w' : RegionWriter)
    → IsWritten 0 w
    → OverridesFrom 0 os
    → normalize_sources none none os ss w ≡ ok w'
    → IsNormalized 0 os ss w w'
normalize_sources_lem os ss w w' i l e =
    normalize_sources-some 0 0 os ss w w' i l (sym (none_is_zero os ss w) ∙ e)
