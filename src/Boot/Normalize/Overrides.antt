-- ===== src/Boot/Normalize/Overrides.antt =====
-- The inner loop of `normalize_memory_regions`: what one override changes in a source region.
use makopa_os.Common.{
  ◌∙◌, subst, ℕ, ◌+◌, ◌*◌, ◌%◌, ◌<◌, ◌≤◌, ◌≡◌, refl, ◌&&◌, Option, none, some, List, [], ◌∷◌, arith,
  ltb, leb, if◌then◌else◌, ok, u64_mod, Bool-cases, min, max, inl, inr,
}
use makopa_os.Boot.{page_size, memory_mmio}
use makopa_os.Boot.Normalize.{
  RegionWriter, MemoryRegionOverride, emit, region_end, validate_overrides, checked_region_end,
}
use makopa_os.Boot.Normalize.Writer.{covers, kind_at, IsWritten, IsPages, emit_written}

-- The end of an override, as a number without a bound.
abbrev pub override_end : MemoryRegionOverride → ℕ
override_end o = o.physical_start + o.page_count * page_size

-- Overrides from `low` on: whole pages of a known kind, in order, apart, and within 64 bits.
abbrev pub OverridesFrom : ℕ → List MemoryRegionOverride → Type 0
OverridesFrom low [] = Unit {0}
OverridesFrom low (o ∷ os) =
    (low ≤ o.physical_start)
    × (0 < o.page_count)
    × (o.physical_start % page_size ≡ 0)
    × (o.kind ≤ memory_mmio)
    × (override_end o < u64_mod)
    × OverridesFrom (override_end o) os

-- The kind that the first override at the address gives it.
abbrev pub override_at : List MemoryRegionOverride → ℕ → Option ℕ
override_at [] p = none
override_at (o ∷ os) p =
    if covers o.physical_start o.page_count p then some o.kind else override_at os p

pub OverridesFrom-mono :
    (m n : ℕ) (os : List MemoryRegionOverride) → m ≤ n → OverridesFrom n os → OverridesFrom m os
OverridesFrom-mono m n [] h l = tt
OverridesFrom-mono m n (o ∷ os) h l = ground (arith, l)

pub override_at-below :
    (low p : ℕ) (os : List MemoryRegionOverride)
    → OverridesFrom low os
    → p < low
    → override_at os p ≡ none
override_at-below low p [] l h = refl
override_at-below low p (o ∷ os) l h = ground (arith, override_at-below (override_end o) p os)

validate_overrides-some :
    (start end : ℕ) (os : List MemoryRegionOverride)
    → start ≤ end
    → validate_overrides (some start) (some end) os ≡ ok tt
    → OverridesFrom end os
unfolding validate_overrides checked_region_end region_end
validate_overrides-some start end [] h e = tt
validate_overrides-some start end (o ∷ os) h e =
    ground (arith, validate_overrides-some o.physical_start (override_end o) os)

pub validate_overrides_lem :
    (os : List MemoryRegionOverride) → validate_overrides none none os ≡ ok tt → OverridesFrom 0 os
unfolding validate_overrides checked_region_end region_end
validate_overrides_lem [] e = tt
validate_overrides_lem (o ∷ os) e =
    ground (arith, validate_overrides-some o.physical_start (override_end o) os)

-- The override's kind where there is one.
abbrev pub or_kind : ℕ → Option ℕ → ℕ
or_kind kind none = kind
or_kind kind (some k) = k

-- The loop has written what lies between the cursor's two places, and no override meets the rest.
pub record IsReplaced (kind source_end cursor : ℕ) (os : List MemoryRegionOverride)
    (w : RegionWriter) (cursor' : ℕ) (os' : List MemoryRegionOverride) (w' : RegionWriter)
    : Type 0 where
  pub forward : cursor ≤ cursor'
  pub within : cursor' ≤ source_end
  pub whole : cursor' % page_size ≡ 0
  pub written : IsWritten cursor' w'
  pub same : w'.capacity ≡ w.capacity
  pub kinds :
      (p : ℕ)
      → kind_at w'.written p ≡ (
          if leb cursor p && ltb p cursor'
          then some (or_kind kind (override_at os p))
          else kind_at w.written p)
  pub clear : (p : ℕ) → cursor' ≤ p → p < source_end → override_at os p ≡ none
  pub later : (p : ℕ) → source_end ≤ p → override_at os' p ≡ override_at os p
  pub ahead : OverridesFrom 0 os'

-- The loop stops where it is.
pub stopped :
    (kind source_end cursor : ℕ) (os : List MemoryRegionOverride) (w : RegionWriter)
    → IsWritten cursor w
    → IsPages cursor source_end kind
    → OverridesFrom 0 os
    → ((p : ℕ) → cursor ≤ p → p < source_end → override_at os p ≡ none)
    → IsReplaced kind source_end cursor os w cursor os w
stopped kind source_end cursor os w i p l clear = record {
  forward = omega arith;
  within = p.ordered;
  whole = p.starts;
  written = i;
  same = refl;
  kinds = λ q. ground arith;
  clear = clear;
  later = λ q h. refl;
  ahead = l;
}

-- The loop leaves an override behind that ends at the cursor or before it.
pub passed :
    (kind source_end cursor : ℕ) (o : MemoryRegionOverride) (os : List MemoryRegionOverride)
    (w : RegionWriter) (cursor' : ℕ) (os' : List MemoryRegionOverride) (w' : RegionWriter)
    → override_end o ≤ cursor
    → cursor ≤ source_end
    → IsReplaced kind source_end cursor os w cursor' os' w'
    → IsReplaced kind source_end cursor (o ∷ os) w cursor' os' w'
passed kind source_end cursor o os w cursor' os' w' h ordered r =
    let gone : (p : ℕ) → cursor ≤ p → override_at (o ∷ os) p ≡ override_at os p =
      λ p above. ground arith in
    record {
      forward = r.forward;
      within = r.within;
      whole = r.whole;
      written = r.written;
      same = r.same;
      kinds = λ p. elim (Bool-cases (leb cursor p && ltb p cursor')) [
        | inl inside ↦ ground (arith, r.kinds p, gone p)
        | inr outside ↦ ground (arith, r.kinds p)
      ];
      clear = λ p above below.
          ground (arith, r.clear p above below, gone p (ground (arith, r.forward)));
      later = λ p above. ground (arith, r.later p above, gone p (omega arith));
      ahead = r.ahead;
    }

-- The loop writes the gap before an override and the override as far as the source goes.
pub record IsStep (kind source_end cursor : ℕ) (o : MemoryRegionOverride) (w w' : RegionWriter)
    : Type 0 where
  pub written : IsWritten (min (override_end o) source_end) w'
  pub same : w'.capacity ≡ w.capacity
  pub kinds :
      (p : ℕ)
      → kind_at w'.written p ≡ (
          if leb cursor p && ltb p (min (override_end o) source_end)
          then some (if leb o.physical_start p then o.kind else kind)
          else kind_at w.written p)

pub IsStep-of_emits :
    (kind source_end cursor : ℕ) (o : MemoryRegionOverride) (w before after : RegionWriter)
    → IsWritten cursor w
    → IsPages cursor source_end kind
    → OverridesFrom 0 (o ∷ [])
    → cursor < override_end o
    → o.physical_start < source_end
    → emit w cursor (max o.physical_start cursor) kind ≡ ok before
    → emit before (max o.physical_start cursor) (min (override_end o) source_end) o.kind ≡ ok after
    → IsStep kind source_end cursor o w after
IsStep-of_emits kind source_end cursor o w before after i p l past early e₁ e₂ =
    let gap =
      emit_written w.written w.capacity before cursor cursor (max o.physical_start cursor) kind
        i.laid i.room
        (record {
          starts = p.starts;
          ends = ground (arith, p, l);
          known = p.known;
          small = ground (arith, p, l);
          ordered = ground arith;
        })
        (omega arith) e₁ in
    let filled =
      emit_written before.written before.capacity after (max o.physical_start cursor)
        (max o.physical_start cursor) (min (override_end o) source_end) o.kind gap.written.laid
        gap.written.room
        (record {
          starts = ground (arith, p, l);
          ends = ground (arith, p, l);
          known = ground (arith, l);
          small = ground (arith, p, l);
          ordered = ground (arith, p);
        })
        (omega arith) e₂ in
    record {
      written = filled.written;
      same = filled.same ∙ gap.same;
      kinds = λ q. ground (arith, gap.kinds q, filled.kinds q);
    }

-- The override ends inside the source region and the loop goes on.
pub step_then :
    (kind source_end cursor : ℕ) (o : MemoryRegionOverride) (os : List MemoryRegionOverride)
    (w after : RegionWriter) (cursor' : ℕ) (os' : List MemoryRegionOverride) (w' : RegionWriter)
    → OverridesFrom 0 (o ∷ os)
    → cursor < override_end o
    → override_end o ≤ source_end
    → IsStep kind source_end cursor o w after
    → IsReplaced kind source_end (override_end o) os after cursor' os' w'
    → IsReplaced kind source_end cursor (o ∷ os) w cursor' os' w'
step_then kind source_end cursor o os w after cursor' os' w' l past inside step r = record {
  forward = omega (arith, r.forward);
  within = r.within;
  whole = r.whole;
  written = r.written;
  same = r.same ∙ step.same;
  kinds = λ p.
      ground (arith, r.kinds p, step.kinds p, r.forward, override_at-below (override_end o) p os);
  clear = λ p above below. ground (arith, r.clear p above below, r.forward);
  later = λ p above. ground (arith, r.later p above);
  ahead = r.ahead;
}

-- The override reaches beyond the source region, and stays for the next one.
pub step_stop :
    (kind source_end cursor : ℕ) (o : MemoryRegionOverride) (os : List MemoryRegionOverride)
    (w after : RegionWriter)
    → IsPages cursor source_end kind
    → OverridesFrom 0 (o ∷ os)
    → source_end < override_end o
    → IsStep kind source_end cursor o w after
    → IsReplaced kind source_end cursor (o ∷ os) w source_end (o ∷ os) after
step_stop kind source_end cursor o os w after pages l beyond step = record {
  forward = pages.ordered;
  within = omega arith;
  whole = pages.ends;
  written = subst (λ (m : ℕ). IsWritten m after) meets step.written;
  same = step.same;
  kinds = λ p. ground (arith, step.kinds p, override_at-below (override_end o) p os);
  clear = λ p above below. absurd (omega arith);
  later = λ p above. refl;
  ahead = l;
}
  where
    meets : min (override_end o) source_end ≡ source_end
    meets = ground arith

pub override_ends :
    (o : MemoryRegionOverride)
    → OverridesFrom 0 (o ∷ [])
    → region_end o.physical_start o.page_count ≡ ok (override_end o)
unfolding region_end
override_ends o l = ground arith
