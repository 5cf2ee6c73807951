-- ===== src/Examples/Frames.antt =====
-- The frame allocator on a memory map of three usable pages and a reserved one.
use makopa_os.Common.{
  ℕ, ◌≡◌, ◌≤◌, ◌⊎◌, ◌&&◌, ◌/=◌, true, false, err, refl, List, [], ◌∷◌, ok, ◌+◌, length, any, arith,
}
use makopa_os.Boot.{MemoryRegionV1}
use makopa_os.Frames.{
  FrameAllocator, new, allocate_frame, free_frame, freed_list, find_insertion, joins_left,
  insert_frame, contains_frame, extent_end, exhausted,
}
use makopa_os.Frames.Initialization.{
  InitError, initialize, validate_and_count_extents, count_extents, fill, fill_region,
}
use makopa_os.Frames.Extents.{has_frame, IsFrame}
use makopa_os.Frames.Filling.{offers}
use makopa_os.Frames.Coverage.{initialize_lem, initialize_refused}
use makopa_os.Frames.Allocation.{
  IsSound, allocate_frame_lem, allocate_frame_taken, allocate_frame_exhausted,
}
use makopa_os.Frames.Release.{free_frame_lem}
use makopa_os.Frames.Acceptance.{free_frame_accepts}
use makopa_os.Frames.Ownership.{allocate, release, run, started, times, as_number, initialize-run}

abbrev memory_map : List MemoryRegionV1
memory_map =
    record { physical_start = 4096; page_count = 2; kind = 1; attributes = 0 }
    ∷ record { physical_start = 12288; page_count = 1; kind = 2; attributes = 0 }
    ∷ record { physical_start = 16384; page_count = 1; kind = 1; attributes = 0 }
    ∷ []

abbrev allocator : FrameAllocator
allocator = record {
  managed =
      record { physical_start = 4096; page_count = 2 }
      ∷ record { physical_start = 16384; page_count = 1 }
      ∷ [];
  free =
      record { physical_start = 4096; page_count = 2 }
      ∷ record { physical_start = 16384; page_count = 1 }
      ∷ [];
}

initialized : initialize new memory_map ≡ (allocator, ok tt)
unfolding initialize validate_and_count_extents count_extents fill fill_region extent_end
initialized = refl

allocator-IsSound : IsSound allocator
allocator-IsSound = record {
  separated = ground arith;
  managed_runs = ground arith;
  within = λ f i h. h;
}

-- One frame handed out.
abbrev one_out : FrameAllocator
one_out = record allocator {
  free =
      record { physical_start = 8192; page_count = 1 }
      ∷ record { physical_start = 16384; page_count = 1 }
      ∷ [];
}

one_out-IsSound : IsSound one_out
unfolding allocate_frame
one_out-IsSound = (allocate_frame_taken allocator 4096 allocator-IsSound refl).4

initialize_lem_example : length (initialize new memory_map).0.free ≤ 1024
unfolding initialize validate_and_count_extents count_extents fill fill_region extent_end
initialize_lem_example = (initialize_lem new memory_map refl).4

-- A map whose region is not aligned.
refused_map :
    (initialize allocator
      (record { physical_start = 1; page_count = 1; kind = 1; attributes = 0 } ∷ [])).0
    ≡ allocator
unfolding initialize validate_and_count_extents count_extents
refused_map =
    initialize_refused allocator
      (record { physical_start = 1; page_count = 1; kind = 1; attributes = 0 } ∷ [])
      InitError.unaligned refl

allocate_frame_lem_example :
    let a' = (allocate_frame one_out).0 in
    ((f : ℕ) × ((allocate_frame one_out).1 ≡ ok f)
      × (has_frame one_out.free f ≡ true)
      × ((g : ℕ) → has_frame one_out.free g ≡ true → f ≤ g)
      × ((g : ℕ) → IsFrame g → has_frame a'.free g ≡ (has_frame one_out.free g && g /= f))
      × (a'.managed ≡ one_out.managed)
      × IsSound a')
    ⊎ (((allocate_frame one_out).1 ≡ err exhausted)
        × (a' ≡ one_out)
        × ((g : ℕ) → has_frame one_out.free g ≡ false))
allocate_frame_lem_example = allocate_frame_lem one_out one_out-IsSound

no_frame_left : (allocate_frame new).0 ≡ new
unfolding allocate_frame
no_frame_left =
    (allocate_frame_exhausted new exhausted
      (record { separated = tt; managed_runs = tt; within = λ f i h. h }) refl).1

free_frame_lem_example : IsSound (free_frame one_out 4096).0
unfolding free_frame freed_list find_insertion joins_left insert_frame contains_frame extent_end
free_frame_lem_example = (free_frame_lem one_out 4096 one_out-IsSound refl).5

free_frame_accepts_example : (free_frame one_out 4096).1 ≡ ok tt
unfolding has_frame contains_frame extent_end
free_frame_accepts_example =
    free_frame_accepts one_out 4096 one_out-IsSound refl refl refl (omega arith)

initialize-run_example :
    as_number (
        has_frame
          (run
            (started new memory_map)
            (allocate ∷ allocate ∷ release 4096 ∷ allocate ∷ [])).allocator.free
          4096)
      + times 4096
          (run (started new memory_map) (allocate ∷ allocate ∷ release 4096 ∷ allocate ∷ [])).out
    ≡ as_number (any (offers 4096) memory_map)
unfolding initialize validate_and_count_extents count_extents fill fill_region extent_end
initialize-run_example =
    initialize-run new memory_map (allocate ∷ allocate ∷ release 4096 ∷ allocate ∷ []) 4096 refl
      refl
