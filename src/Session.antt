-- ===== src/Session.antt =====
-- The state of a synchronization session (pkg/synchronization/controller.go, state.pb.go,
-- endpoint.go) and the defaults of its configuration (version.go, of the one session version).
pub mod Saving
pub mod Cycle
pub mod Quiet
pub mod Halts
pub mod Losses
pub mod Kept
use mutagen.Base.{
  ℕ, Bytes, Bool, true, false, ◌&&◌, not, Option, none, some, List, [], if◌then◌else◌, ◌||◌,
}
use mutagen.Entry.{Entry, nil}
use mutagen.Entry.Measure.{Problem}
use mutagen.Change.{Change, Conflict}
use mutagen.Reconcile.{
  Mode, default_mode, two_way_safe, two_way_resolved, one_way_safe, one_way_replica,
}

-- `Status`, as far as the synchronization loop sets it.
pub data Status : Type 0 where
  disconnected watching scanning waiting_for_rescan reconciling staging_alpha staging_beta
        transitioning saving halted_on_root_emptied halted_on_root_deletion
        halted_on_root_type_change :
      Status

-- The errors of `synchronize`, named for their messages, and a panic.
pub data SyncError : Type 0 where
  unable_to_load_archive invalid_archive cancelled_during_polling alpha_polling_error
        beta_polling_error cancelled_during_scanning alpha_scan_error beta_scan_error
        cancelled_during_rescan_wait halted_for_safety unable_to_begin_staging_on_alpha
        incorrect_subset_of_alpha unable_to_stage_on_alpha unable_to_begin_staging_on_beta
        incorrect_subset_of_beta unable_to_stage_on_beta unable_to_propagate_changes_to_ancestor
        new_ancestor_is_invalid unable_to_save_ancestor unable_to_apply_changes_to_alpha
        unable_to_apply_changes_to_beta panicked :
      SyncError

pub data PermissionsMode : Type 0 where
  default_permissions portable_permissions manual_permissions : PermissionsMode

pub data Syntax : Type 0 where
  default_syntax mutagen_syntax docker_syntax : Syntax

pub data WatchMode : Type 0 where
  default_watch portable_watch force_poll_watch no_watch : WatchMode

-- The parts of the configurations that the loop reads.
pub record Configuration : Type 0 where
  pub synchronization_mode : Mode
  pub ignore_syntax : Syntax
  pub permissions_mode : PermissionsMode
  pub alpha_watch_mode : WatchMode
  pub beta_watch_mode : WatchMode

-- The mode in effect: `DefaultSynchronizationMode` where none is configured.
unfoldable pub effective_mode : Mode → Mode
effective_mode default_mode = two_way_safe
effective_mode two_way_safe = two_way_safe
effective_mode two_way_resolved = two_way_resolved
effective_mode one_way_safe = one_way_safe
effective_mode one_way_replica = one_way_replica

-- Whether the ignore syntax in effect is Docker's: `DefaultIgnoreSyntax` is Mutagen's.
abbrev pub is_docker : Syntax → Bool
is_docker docker_syntax = true
is_docker _ = false

-- Whether the permissions mode in effect is the portable one: `DefaultPermissionsMode` is.
abbrev pub is_portable : PermissionsMode → Bool
is_portable manual_permissions = false
is_portable _ = true

-- Whether polling is disabled: `DefaultWatchMode` is the portable one.
abbrev pub disables_polling : WatchMode → Bool
disables_polling no_watch = true
disables_polling _ = false

-- `Snapshot`
pub record Snapshot : Type 0 where
  pub content : Entry
  pub preserves_executability : Bool
  pub directories : ℕ
  pub files : ℕ
  pub symbolic_links : ℕ
  pub total_file_size : ℕ

-- `EndpointState`, without the progress of staging.
pub record EndpointState : Type 0 where
  pub scanned : Bool
  pub directories : ℕ
  pub files : ℕ
  pub symbolic_links : ℕ
  pub total_file_size : ℕ
  pub scan_problems : List Problem
  pub transition_problems : List Problem

-- `State`, as far as the synchronization loop sets it.
pub record State : Type 0 where
  pub status : Status
  pub last_error : Option SyncError
  pub successful_cycles : ℕ
  pub conflicts : List Conflict
  pub alpha_state : EndpointState
  pub beta_state : EndpointState

-- What `Scan` returns.
pub record Scanned : Type 0 where
  pub snapshot : Snapshot
  pub scan_failed : Bool
  pub try_again : Bool

-- What `Transition` returns.
pub record Transitioned : Type 0 where
  pub results : List Entry
  pub problems : List Problem
  pub missing_files : Bool
  pub transition_failed : Bool

-- `Endpoint`: its methods change a world of any type, and pass on signatures and a receiver of any
-- type. `Stage` returns nothing where it fails, `Supply` whether it succeeds.
pub record Endpoint (W R : Type 0) : Type 0 where
  pub scan : Entry → Bool → W → Scanned × W
  pub stage : List Bytes → List (Option Bytes) → W → Option (List Bytes × R) × W
  pub supply : List Bytes → R → W → Bool × W
  pub transition : List Change → W → Transitioned × W

-- The variables of the loop: the archive is the content of its file, and a flush request is a mark.
pub record Loop (W : Type 0) : Type 0 where
  pub skip_polling : Bool
  pub skipping_due_to_scan_error : Bool
  pub skipping_due_to_missing_files : Bool
  pub flush_request : Bool
  pub ancestor : Entry
  pub archive : Entry
  pub state : State
  pub world : W

-- How polling ends.
pub data Trigger : Type 0 where
  endpoint_event flush_requested polling_cancelled alpha_poll_failed beta_poll_failed : Trigger

-- What one round meets beside the endpoints.
pub record Circumstances : Type 0 where
  pub trigger : Trigger
  pub cancelled_in_scan : Bool
  pub cancelled_in_wait : Bool
  pub save_fails : Bool

-- A round goes on to the next one where there is no error.
pub record SyncRound (W : Type 0) : Type 0 where
  pub exit : Option SyncError
  pub after : Loop W
