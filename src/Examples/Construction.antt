-- ===== src/Examples/Construction.antt =====
-- The publication of a runtime with and without a fault.
use makopa_os.Common.{◌≡◌, refl, none, some, ok}
use makopa_os.Capabilities.Handle.{decode, from_parts}
use makopa_os.Capabilities.Rights.{valid_rights}
use makopa_os.Capabilities.Table
use makopa_os.Contexts.{initial}
use makopa_os.Contexts
use makopa_os.Journal.{building_journal}
use makopa_os.Runtime.State.{Runtime}
use makopa_os.Runtime.Queue.{contains}
use makopa_os.Runtime.Validate.{validate, validate_slot}
use makopa_os.Runtime.Supervised.{
  validate_supervised, validate_launch, validate_broker, validate_effect,
}
use makopa_os.Runtime.Construction.{
  unpublished, unpublished_supervised, publish_initial, publish_supervisor, new_supervised,
}
use makopa_os.Runtime.Construction.Published.{
  IsPublished, publish_initial-IsPublished, publish_supervisor-IsPublished,
}
use makopa_os.Runtime.Construction.Started.{started, new_supervised_iff}
use makopa_os.Runtime.Journaled.{JournaledRuntime}
use makopa_os.Runtime.Journaled.Lifecycle.{publish_journaled}
use makopa_os.Runtime.Journaled.Publication
use makopa_os.Runtime.Journaled.Publication.{publish_journaled-IsPublished}
use makopa_os.Examples.Runtime.{context_of}

abbrev two_built : Runtime
unfolding unpublished
two_built = unpublished (context_of 1 4) (context_of 2 5)

-- The fault stands before the second handle, so that the first is taken back.
publish_initial-IsPublished_example : IsPublished (publish_initial two_built (some 1))
publish_initial-IsPublished_example = publish_initial-IsPublished two_built (some 1)

abbrev supervised_built : Runtime
unfolding unpublished_supervised
supervised_built = unpublished_supervised (context_of 1 4) (context_of 2 5)

publish_supervisor-IsPublished_example : IsPublished (publish_supervisor supervised_built none)
publish_supervisor-IsPublished_example = publish_supervisor-IsPublished supervised_built none

abbrev journaled_built : JournaledRuntime
unfolding building_journal
journaled_built = record { runtime = supervised_built; journal = building_journal }

publish_journaled-IsPublished_example :
    Publication.IsPublished (publish_journaled journaled_built (some 5))
publish_journaled-IsPublished_example = publish_journaled-IsPublished journaled_built (some 5)

abbrev started_runtime : Runtime
unfolding Contexts.clear_dead initial
started_runtime = started (context_of 1 4) (context_of 2 5)

started_runtime_valid : validate started_runtime ≡ ok tt
unfolding validate validate_slot validate_supervised validate_launch validate_broker validate_effect
    Table.validate valid_rights Table.snapshot decode contains Contexts.clear_dead initial
    from_parts
started_runtime_valid = refl

new_supervised_iff_example : new_supervised (context_of 1 4) (context_of 2 5) ≡ ok started_runtime
unfolding started_runtime
new_supervised_iff_example =
    (new_supervised_iff (context_of 1 4) (context_of 2 5) started_runtime).1
      (refl, refl, refl, refl, refl, refl, started_runtime_valid, refl)
