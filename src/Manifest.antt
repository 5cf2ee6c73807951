-- ===== src/Manifest.antt =====
-- crates/task-runtime/src/lib.rs: the launch manifest and the one that the kernel registers.
pub mod Acceptance
use makopa_os.Common.{
  ℕ, zero, suc, ◌||◌, ◌&&◌, not, Bool, true, false, List, [], ◌∷◌, ltb, ◌==◌, ◌/=◌, any, Result, ok,
  err, ◌>>=◌, ◌>>◌, reject_if,
}
use makopa_os.Abi.{
  receiver_task_id, right_submit_approval, object_type_approval_broker, approval_broker_object_id,
  fixed_object_generation,
}

abbrev pub manifest_schema_version : ℕ
manifest_schema_version = 1

abbrev pub manifest_byte_size : ℕ
manifest_byte_size = 184

abbrev pub manifest_route_count_max : ℕ
manifest_route_count_max = 4

abbrev pub manifest_identity : ℕ
manifest_identity = 1

abbrev pub principal_identity : ℕ
principal_identity = 1

abbrev pub workload_image_identity : ℕ
workload_image_identity = 1

abbrev pub expected_workload_generation : ℕ
expected_workload_generation = 5

pub record LaunchRouteV1 : Type 0 where
  pub object_type : ℕ  -- u32
  pub reserved : ℕ  -- u32
  pub object_id : ℕ
  pub object_generation : ℕ
  pub rights : ℕ

pub record LaunchManifestV1 : Type 0 where
  pub schema_version : ℕ  -- u32
  pub byte_size : ℕ  -- u32
  pub manifest_id : ℕ
  pub principal_id : ℕ
  pub target_task_id : ℕ
  pub target_generation : ℕ
  pub image_id : ℕ
  pub route_count : ℕ  -- u32
  pub reserved : ℕ  -- u32
  pub routes : List LaunchRouteV1  -- four of them

abbrev pub default_route : LaunchRouteV1
default_route = record {
  object_type = 0;
  reserved = 0;
  object_id = 0;
  object_generation = 0;
  rights = 0;
}

abbrev pub is_default_route : LaunchRouteV1 → Bool
is_default_route r =
    r.object_type == 0
    && r.reserved == 0
    && r.object_id == 0
    && r.object_generation == 0
    && r.rights == 0

abbrev pub registered_launch_manifest : LaunchManifestV1
registered_launch_manifest = record {
  schema_version = manifest_schema_version;
  byte_size = manifest_byte_size;
  manifest_id = manifest_identity;
  principal_id = principal_identity;
  target_task_id = receiver_task_id;
  target_generation = expected_workload_generation;
  image_id = workload_image_identity;
  route_count = 1;
  reserved = 0;
  routes =
      record {
        object_type = object_type_approval_broker;
        reserved = 0;
        object_id = approval_broker_object_id;
        object_generation = fixed_object_generation;
        rights = right_submit_approval;
      }
      ∷ default_route
      ∷ default_route
      ∷ default_route
      ∷ [];
}

pub data ManifestError : Type 0 where
  invalid_header invalid_identity invalid_target excess_routes missing_route : ManifestError
  invalid_route duplicate_route insufficient_capacity nonzero_unused_route : ManifestError

-- The test that `validate` makes of an earlier route.
abbrev pub names_same_object : LaunchRouteV1 → LaunchRouteV1 → Bool
names_same_object route earlier =
    earlier.object_type == route.object_type
    && earlier.object_id == route.object_id
    && earlier.object_generation == route.object_generation

-- The loop over the first `count` routes and the test of the others. `earlier` holds the routes that
-- the loop has passed.
unfoldable pub validate_routes :
    ℕ → List LaunchRouteV1 → ℕ → List LaunchRouteV1 → Result ManifestError (Unit {0})
validate_routes broker_generation earlier zero routes =
    reject_if (any (λ r. not (is_default_route r)) routes) nonzero_unused_route
validate_routes broker_generation earlier (suc count) [] = ok tt
validate_routes broker_generation earlier (suc count) (route ∷ routes) =
    let rest = validate_routes broker_generation (route ∷ earlier) count routes in
    do
      reject_if
          (route.reserved /= 0
            || route.object_type /= object_type_approval_broker
            || route.object_id /= approval_broker_object_id
            || route.object_generation /= broker_generation
            || broker_generation /= fixed_object_generation
            || route.rights /= right_submit_approval)
          invalid_route
      reject_if (any (names_same_object route) earlier) duplicate_route
      rest

-- `LaunchManifestV1::validate`.
unfoldable pub validate : LaunchManifestV1 → ℕ → ℕ → ℕ → Result ManifestError (Unit {0})
unfolding validate_routes
validate m workload_generation broker_generation available_slots = do
  reject_if
      (m.schema_version /= manifest_schema_version
        || m.byte_size /= manifest_byte_size
        || m.reserved /= 0)
      invalid_header
  reject_if
      (m.manifest_id /= manifest_identity
        || m.principal_id /= principal_identity
        || m.image_id /= workload_image_identity
        || m.manifest_id == 0
        || m.principal_id == 0
        || m.image_id == 0)
      invalid_identity
  reject_if
      (m.target_task_id /= receiver_task_id
        || m.target_generation /= workload_generation
        || workload_generation /= expected_workload_generation)
      invalid_target
  reject_if (ltb manifest_route_count_max m.route_count) excess_routes
  reject_if (m.route_count == 0) missing_route
  reject_if (ltb available_slots m.route_count) insufficient_capacity
  validate_routes broker_generation [] m.route_count m.routes
