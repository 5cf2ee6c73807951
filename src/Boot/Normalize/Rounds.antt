-- ===== src/Boot/Normalize/Rounds.antt =====
-- The inner loop of `normalize_memory_regions`: what one source region becomes.
use makopa_os.Common.{
  sym, ok_injective, ◌∙◌, subst, Result, ◌>>=◌, ℕ, ◌≡◌, refl, Bool, true, false, List, [], ◌∷◌,
  arith, leb, ◌==◌, if◌then◌else◌, ok, err, Bool-cases, min, max, Result-cases, inl, inr,
}
use makopa_os.Boot.Normalize.{
  RegionWriter, MemoryRegionOverride, NormalizeError, emit, region_end, replace_in,
}
use makopa_os.Boot.Normalize.Writer.{IsWritten, IsPages}
use makopa_os.Boot.Normalize.Overrides.{
  override_end, OverridesFrom, OverridesFrom-mono, override_at-below, IsReplaced, stopped, passed,
  IsStep-of_emits, step_then, step_stop, override_ends,
}

-- Inversion of two writes with a test after them.
two_writes :
    {R : Type 0} (first : Result NormalizeError RegionWriter)
    (second : RegionWriter → Result NormalizeError RegionWriter) (last : Bool)
    (rest stop : RegionWriter → Result NormalizeError R) (r : R)
    → (do before ← first; after ← second before; (if last then rest after else stop after)) ≡ ok r
    → (before : RegionWriter) × (after : RegionWriter) × (first ≡ ok before)
      × (second before ≡ ok after)
      × (last ≡ true → rest after ≡ ok r)
      × (last ≡ false → stop after ≡ ok r)
two_writes (err x) second last rest stop r e = absurd (cc)
two_writes (ok before) second last rest stop r e = elim (Result-cases (second before)) [
  | inl (after, e₂) ↦ (before, after, refl, e₂, (λ h. ground arith), (λ h. ground arith))
  | inr (x, bad) ↦ absurd (ground arith)
]

-- One round that writes, its tests decided.
replace_in_round :
    (kind source_end cursor : ℕ) (o : MemoryRegionOverride) (os : List MemoryRegionOverride)
    (w : RegionWriter)
    → region_end o.physical_start o.page_count ≡ ok (override_end o)
    → leb (override_end o) cursor ≡ false
    → leb source_end o.physical_start ≡ false
    → replace_in kind source_end cursor (o ∷ os) w ≡ (do
      before ← emit w cursor (max o.physical_start cursor) kind
      after ← emit before (max o.physical_start cursor) (min (override_end o) source_end) o.kind
      (if min (override_end o) source_end == override_end o
          then replace_in kind source_end (min (override_end o) source_end) os after
          else ok (min (override_end o) source_end, o ∷ os, after)))
unfolding replace_in
replace_in_round kind source_end cursor o os w ends past early = rw (ends, past, early) refl

ended :
    (kind source_end cursor : ℕ) (os : List MemoryRegionOverride) (w : RegionWriter)
    (t t' : ℕ × List MemoryRegionOverride × RegionWriter)
    → ◌≡◌ {A = Result NormalizeError (ℕ × List MemoryRegionOverride × RegionWriter)} (ok t) (ok t')
    → IsReplaced kind source_end cursor os w t.0 t.1 t.2
    → IsReplaced kind source_end cursor os w t'.0 t'.1 t'.2
ended kind source_end cursor os w t t' e r =
    subst
      (λ (u : ℕ × List MemoryRegionOverride × RegionWriter).
        IsReplaced kind source_end cursor os w u.0 u.1 u.2)
      (ok_injective e) r

replace_in_writes :
    (kind source_end cursor : ℕ) (o : MemoryRegionOverride) (os : List MemoryRegionOverride)
    (w : RegionWriter) (cursor' : ℕ) (os' : List MemoryRegionOverride) (w' : RegionWriter)
    → IsWritten cursor w
    → IsPages cursor source_end kind
    → OverridesFrom 0 (o ∷ os)
    → region_end o.physical_start o.page_count ≡ ok (override_end o)
    → leb (override_end o) cursor ≡ false
    → leb source_end o.physical_start ≡ false
    → replace_in kind source_end cursor (o ∷ os) w ≡ ok (cursor', os', w')
    → ((after : RegionWriter)
        → IsWritten (override_end o) after
        → IsPages (override_end o) source_end kind
        → replace_in kind source_end (override_end o) os after ≡ ok (cursor', os', w')
        → IsReplaced kind source_end (override_end o) os after cursor' os' w')
    → IsReplaced kind source_end cursor (o ∷ os) w cursor' os' w'
replace_in_writes kind source_end cursor o os w cursor' os' w' i p l ends past early e ih =
    let (before, after, e₁, e₂, more, last) =
      two_writes (emit w cursor (max o.physical_start cursor) kind)
        (λ b. emit b (max o.physical_start cursor) (min (override_end o) source_end) o.kind)
        (min (override_end o) source_end == override_end o)
        (λ a. replace_in kind source_end (min (override_end o) source_end) os a)
        (λ a. ok (min (override_end o) source_end, o ∷ os, a)) (cursor', os', w')
        (sym (replace_in_round kind source_end cursor o os w ends past early) ∙ e) in
    let step =
      IsStep-of_emits kind source_end cursor o w before after i p (ground (arith, l)) (ground arith)
        (ground arith) e₁ e₂ in
    elim (Bool-cases (min (override_end o) source_end == override_end o)) [
      | inl inside ↦
          let meets : min (override_end o) source_end ≡ override_end o = ground arith in
          step_then kind source_end cursor o os w after cursor' os' w' l (ground arith)
            (ground arith) step
            (ih after (subst (λ (m : ℕ). IsWritten m after) meets step.written)
              (record {
                starts = ground (arith, l);
                ends = p.ends;
                known = p.known;
                small = p.small;
                ordered = ground arith;
              })
              (subst (λ (m : ℕ). replace_in kind source_end m os after ≡ ok (cursor', os', w'))
                meets (more inside)))
      | inr beyond ↦
          let meets : min (override_end o) source_end ≡ source_end = ground arith in
          ended kind source_end cursor (o ∷ os) w (source_end, o ∷ os, after) (cursor', os', w')
            (subst
              (λ (m : ℕ).
                ◌≡◌ {A = Result NormalizeError (ℕ × List MemoryRegionOverride × RegionWriter)}
                  (ok (m, o ∷ os, after)) (ok (cursor', os', w')))
              meets (last beyond))
            (step_stop kind source_end cursor o os w after p l (ground arith) step)
    ]

pub replace_in_lem :
    (kind source_end cursor : ℕ) (os : List MemoryRegionOverride) (w : RegionWriter) (cursor' : ℕ)
    (os' : List MemoryRegionOverride) (w' : RegionWriter)
    → IsWritten cursor w
    → IsPages cursor source_end kind
    → OverridesFrom 0 os
    → replace_in kind source_end cursor os w ≡ ok (cursor', os', w')
    → IsReplaced kind source_end cursor os w cursor' os' w'
unfolding replace_in
replace_in_lem kind source_end cursor [] w cursor' os' w' i p l e = ground arith
replace_in_lem kind source_end cursor (o ∷ os) w cursor' os' w' i p l e =
    let ends = override_ends o (ground (arith, l)) in
    let later = OverridesFrom-mono 0 (override_end o) os (omega arith) l.5 in
    elim (Bool-cases (leb (override_end o) cursor)) [
      | inl gone ↦
          passed kind source_end cursor o os w cursor' os' w' (ground arith) p.ordered
            (replace_in_lem kind source_end cursor os w cursor' os' w' i p later (ground arith))
      | inr past ↦ elim (Bool-cases (leb source_end o.physical_start)) [
        | inl late ↦
            ended kind source_end cursor (o ∷ os) w (cursor, o ∷ os, w) (cursor', os', w')
              (sym (rw (ends, past, late) refl) ∙ e)
              (stopped kind source_end cursor (o ∷ os) w i p l
                (λ q above below. ground (arith, override_at-below (override_end o) q os)))
        | inr early ↦
            replace_in_writes kind source_end cursor o os w cursor' os' w' i p l ends past early e
              (λ after i' p' e'.
                replace_in_lem kind source_end (override_end o) os after cursor' os' w' i' p' later
                  e')
      ]
    ]
