-- ===== src/Manifest/Acceptance.antt =====
-- The manifests that `LaunchManifestV1::validate` accepts.
use makopa_os.Common.{
  ℕ, zero, suc, ◌<◌, ◌≤◌, ◌≡◌, ◌↔◌, refl, true, List, [], ◌∷◌, arith, ok, length,
}
use makopa_os.Abi.{
  right_submit_approval, object_type_approval_broker, approval_broker_object_id,
  fixed_object_generation,
}
use makopa_os.Manifest.{
  LaunchRouteV1, LaunchManifestV1, default_route, is_default_route, registered_launch_manifest,
  validate_routes, validate, expected_workload_generation,
}

default_route_unique : (r : LaunchRouteV1) → is_default_route r ≡ true → r ≡ default_route
default_route_unique r h = grind arith

-- A second route that passes names the object of the first one.
one_route_only :
    (g count : ℕ) (r : LaunchRouteV1) (routes : List LaunchRouteV1)
    → 0 < length routes
    → validate_routes g [] (suc (suc count)) (r ∷ routes) ≡ ok tt
    → ⊥
unfolding validate_routes
one_route_only g count r [] k e = omega (arith, k)
one_route_only g count r (r' ∷ routes) k e = ground arith

abbrev approval_route : LaunchRouteV1
approval_route = record {
  object_type = object_type_approval_broker;
  reserved = 0;
  object_id = approval_broker_object_id;
  object_generation = fixed_object_generation;
  rights = right_submit_approval;
}

one_route :
    (g : ℕ) (r r₁ r₂ r₃ : LaunchRouteV1)
    → validate_routes g [] 1 (r ∷ r₁ ∷ r₂ ∷ r₃ ∷ []) ≡ ok tt
    → (r ≡ approval_route)
      × (r₁ ≡ default_route)
      × (r₂ ≡ default_route)
      × (r₃ ≡ default_route)
      × (g ≡ fixed_object_generation)
unfolding validate_routes
one_route g r r₁ r₂ r₃ e = (
  grind arith,
  default_route_unique r₁ (ground arith),
  default_route_unique r₂ (ground arith),
  default_route_unique r₃ (ground arith),
  ground arith,
)

-- The parts of the header and the identity.
validate-ok :
    (m : LaunchManifestV1) (w g available : ℕ)
    → validate m w g available ≡ ok tt
    → (m.schema_version ≡ 1)
      × (m.byte_size ≡ 184)
      × (m.manifest_id ≡ 1)
      × (m.principal_id ≡ 1)
      × (m.target_task_id ≡ 2)
      × (m.target_generation ≡ 5)
      × (m.image_id ≡ 1)
      × (m.reserved ≡ 0)
      × (w ≡ 5)
      × (0 < m.route_count)
      × (m.route_count ≤ available)
      × (validate_routes g [] m.route_count m.routes ≡ ok tt)
unfolding validate
validate-ok m w g available e = ground arith

manifest_unique :
    (m : LaunchManifestV1) (w g available : ℕ) (r r₁ r₂ r₃ : LaunchRouteV1) (count : ℕ)
    → m.routes ≡ r ∷ r₁ ∷ r₂ ∷ r₃ ∷ []
    → m.route_count ≡ suc count
    → validate m w g available ≡ ok tt
    → (m ≡ registered_launch_manifest)
      × (w ≡ expected_workload_generation)
      × (g ≡ fixed_object_generation)
      × (0 < available)
manifest_unique m w g available r r₁ r₂ r₃ (suc count) shape n e =
    let (a, b, c, d, f, h, i, j, k, l, o, routes) = validate-ok m w g available e in
    absurd (one_route_only g count r (r₁ ∷ r₂ ∷ r₃ ∷ []) (omega arith) (rw (shape, n) at routes))
manifest_unique m w g available r r₁ r₂ r₃ zero shape n e =
    let (a, b, c, d, f, h, i, j, k, l, o, routes) = validate-ok m w g available e in
    let (first, second, third, fourth, generation) =
      one_route g r r₁ r₂ r₃ (rw (shape, n) at routes) in
    (grind arith, k, generation, omega arith)

four_of :
    (rs : List LaunchRouteV1)
    → length rs ≡ 4
    → (r r₁ r₂ r₃ : LaunchRouteV1) × (rs ≡ r ∷ r₁ ∷ r₂ ∷ r₃ ∷ [])
four_of [] h = absurd (omega (arith, h))
four_of (r ∷ []) h = absurd (omega (arith, h))
four_of (r ∷ r₁ ∷ []) h = absurd (omega (arith, h))
four_of (r ∷ r₁ ∷ r₂ ∷ []) h = absurd (omega (arith, h))
four_of (r ∷ r₁ ∷ r₂ ∷ r₃ ∷ []) h = (r, r₁, r₂, r₃, refl)
four_of (r ∷ r₁ ∷ r₂ ∷ r₃ ∷ r₄ ∷ rs) h = absurd (omega (arith, h))

count_of : (n : ℕ) → 0 < n → (count : ℕ) × (n ≡ suc count)
count_of zero h = absurd (omega (arith, h))
count_of (suc n) h = (n, refl)

-- The kernel accepts one manifest only, the registered one, and only for the fixed generations of
-- the workload and of the broker and with a free slot for its route: a second route is always
-- refused.
pub manifest_accepted_iff :
    (m : LaunchManifestV1) (workload_generation broker_generation available_slots : ℕ)
    → length m.routes ≡ 4
    → (validate m workload_generation broker_generation available_slots ≡ ok tt) ↔ (
        (m ≡ registered_launch_manifest)
        × (workload_generation ≡ expected_workload_generation)
        × (broker_generation ≡ fixed_object_generation)
        × (0 < available_slots))
manifest_accepted_iff m w g available four = (
  λ e.
      let (r, r₁, r₂, r₃, shape) = four_of m.routes four in
      let (a, b, c, d, f, h, i, j, k, positive, o, routes) = validate-ok m w g available e in
      let (count, n) = count_of m.route_count positive in
      manifest_unique m w g available r r₁ r₂ r₃ count shape n e,
  λ (same, w_is, g_is, room).
      rw (same, w_is, g_is) (unfold validate validate_routes in ground arith),
)
