-- ===== src/Tracking.antt =====
-- pkg/state/tracker.go: the index that polls wait on. A critical section of the code is a function
-- here; the channel of a request is its entry in the list of responses, under the request's number.
pub mod Steps
pub mod Reachable
use mutagen.Base.{
  ℕ, Bool, true, false, Option, none, some, List, [], ◌∷◌, ◌++◌, ◌==◌, nat_eq, add_u64,
  if◌then◌else◌,
}

-- `pollRequest`, with a number for its address.
pub record PollRequest : Type 0 where
  pub id : ℕ
  pub previous_index : ℕ

-- `pollResponse`, with the number of its request.
pub record PollResponse : Type 0 where
  pub request : ℕ
  pub index : ℕ
  pub terminated : Bool

-- `waits` says that the tracking loop is in `change.Wait`, `done` that `trackDone` is closed.
pub record Tracker : Type 0 where
  pub index : ℕ
  pub terminated : Bool
  pub poll_requests : List PollRequest
  pub responses : List PollResponse
  pub waits : Bool
  pub done : Bool

-- `ErrTrackingTerminated` and `context.Canceled`
pub data PollError : Type 0 where
  tracking_terminated canceled : PollError

-- `NewTracker`, with the loop started.
unfoldable pub new_tracker : Tracker
new_tracker = record {
  index = 1;
  terminated = false;
  poll_requests = [];
  responses = [];
  waits = false;
  done = false;
}

-- `change.Signal`
abbrev pub signal : Tracker → Tracker
signal t = record t { waits = false }

-- The responses to all requests.
abbrev pub respond_all : PollResponse → List PollRequest → List PollResponse
respond_all response [] = []
respond_all response (r ∷ rs) = record response { request = r.id } ∷ respond_all response rs

-- The responses to the requests that saw another index, and the requests that saw this one.
abbrev pub respond : ℕ → List PollRequest → List PollResponse
respond index [] = []
respond index (r ∷ rs) =
    let rest = respond index rs in
    if r.previous_index == index
    then rest
    else record { request = r.id; index = index; terminated = false } ∷ rest

abbrev pub keep : ℕ → List PollRequest → List PollRequest
keep index [] = []
keep index (r ∷ rs) =
    let rest = keep index rs in if r.previous_index == index then r ∷ rest else rest

-- A round of the loop of `track`, up to its wait or its return.
unfoldable pub track_round : Tracker → Tracker
track_round t =
    if t.terminated
    then record t {
      responses =
          respond_all (record { request = 0; index = t.index; terminated = true }) t.poll_requests
          ++ t.responses;
      poll_requests = [];
      done = true;
    }
    else record t {
      responses = respond t.index t.poll_requests ++ t.responses;
      poll_requests = keep t.index t.poll_requests;
      waits = true;
    }

-- `Terminate`, before its wait for the loop to exit.
unfoldable pub terminate : Tracker → Tracker
terminate t = signal (record t { terminated = true })

-- The increment of the index.
abbrev pub next_index : ℕ → ℕ
next_index index = if add_u64 index 1 == 0 then 1 else add_u64 index 1

-- `NotifyOfChange`
unfoldable pub notify_of_change : Tracker → Tracker
notify_of_change t = if t.terminated then t else signal (record t { index = next_index t.index })

-- What a poll returns.
pub record Polled : Type 0 where
  pub seen : ℕ
  pub error : Option PollError

-- `WaitForChange` up to its select, with the number of its request; `none` where it goes on to wait.
unfoldable pub wait_for_change : ℕ → ℕ → Tracker → Option Polled × Tracker
wait_for_change id previous_index t =
    if previous_index == 0
    then (
      some (record {
        seen = t.index;
        error = if t.terminated then some tracking_terminated else none;
      }),
      t,
    )
    else if t.terminated
    then (some (record { seen = t.index; error = some tracking_terminated }), t)
    else (
      none,
      signal (record t {
        poll_requests = record { id = id; previous_index = previous_index } ∷ t.poll_requests;
      }),
    )

abbrev pub delete : ℕ → List PollRequest → List PollRequest
delete id [] = []
delete id (r ∷ rs) = let rest = delete id rs in if r.id == id then rest else r ∷ rest

-- The cancellation of a poll.
unfoldable pub cancel : ℕ → Tracker → Polled × Tracker
cancel id t = (
  record { seen = t.index; error = some canceled },
  record t { poll_requests = delete id t.poll_requests },
)

-- What a poll returns for a response.
unfoldable pub receive : PollResponse → Polled
receive r = record {
  seen = r.index;
  error = if r.terminated then some tracking_terminated else none;
}
