-- ===== src/Sync/Backoff.antt =====
-- The back-off of the synchronisation (sync.go): per channel after Status 5, for the calendar after
-- rounds of replayed pages, and for all channels after transient failures. A time is a number of
-- nanoseconds; `now` is what the clock reads when the function runs.
use eas_bridge.Prelude.{
  ℕ, ◌+◌, ◌-◌, ◌*◌, ◌≤◌, ◌<◌, suc, String, ◌≡◌, ◌∙◌, ap, Bool, true, false, not, ◌||◌, Option, none,
  some, List, [], ◌∷◌, arith, if◌then◌else◌, leb, ltb, ◌==◌,
}
use eas_bridge.Dict.{Dict, get, put, remove, get_or, get-put_self, get-remove_self}
use eas_bridge.Mail.Collect.{
  SyncError, canceled, deadline_exceeded, end_of_file, network, http_error, status, too_many_pages,
  other_error, is_status_5,
}

abbrev pub second : ℕ
second = 1000000000

abbrev pub minute : ℕ
minute = 60 * 1000000000

pub record FolderBackoff : Type 0 where
  pub failures : ℕ
  pub next_retry : ℕ
  pub last_skip_log : ℕ

abbrev pub no_backoff : FolderBackoff
no_backoff = record { failures = 0; next_retry = 0; last_skip_log = 0 }

pub record TransientBackoff : Type 0 where
  pub failures : ℕ
  pub next_retry : ℕ
  pub last_skip_log : ℕ
  pub last_err : Option SyncError

abbrev pub no_transient : TransientBackoff
no_transient = record { failures = 0; next_retry = 0; last_skip_log = 0; last_err = none }

-- syncBackoffSteps and calendarReplayBackoffSteps, at the index `min(failures, 4) - 1`
unfoldable pub backoff_step : ℕ → ℕ
backoff_step failures =
    if leb failures 1
    then minute
    else if failures == 2
    then 5 * minute
    else if failures == 3
    then 15 * minute
    else 30 * minute

-- transientEASBackoffSteps
unfoldable pub transient_step : ℕ → ℕ
transient_step failures =
    if leb failures 1
    then 5 * second
    else if failures == 2
    then 30 * second
    else if failures == 3
    then 2 * minute
    else 5 * minute

-- backoffRemaining; `time.Until` below zero is answered by 0
unfoldable pub backoff_remaining : ℕ → String → Dict FolderBackoff → ℕ
backoff_remaining now key b = elim (get b key) [ none ↦ 0 | some f ↦ f.next_retry - now ]

-- skipBackoff: the answer, and the time of the log line.
unfoldable pub skip_backoff : ℕ → String → Dict FolderBackoff → Bool × Dict FolderBackoff
unfolding backoff_remaining
skip_backoff now key b = if backoff_remaining now key b == 0 then (false, b) else elim (get b key) [
  | none ↦ (true, b)
  | some f ↦ (
    true,
    if leb (10 * minute) (now - f.last_skip_log)
        then put b key (record f { last_skip_log = now })
        else b,
  )
]

-- trackSyncResult: success clears, Status 5 climbs, any other error leaves the channel as it is.
unfoldable pub track_sync_result :
    ℕ → String → Option SyncError → Dict FolderBackoff → Dict FolderBackoff
unfolding is_status_5 backoff_step
track_sync_result now key none b = remove b key
track_sync_result now key (some e) b =
    if not (is_status_5 e)
    then b
    else let f = get_or no_backoff b key in
      put b key
        (record f { failures = f.failures + 1; next_retry = now + backoff_step (f.failures + 1) })

-- isTransientEASError
unfoldable pub is_transient : SyncError → Bool
is_transient canceled = false
is_transient deadline_exceeded = true
is_transient end_of_file = true
is_transient network = true
is_transient (http_error n) = n == 429 || leb 500 n
is_transient (status n) = false
is_transient too_many_pages = false
is_transient other_error = false

-- trackTransientEASResult
unfoldable pub track_transient : ℕ → Option SyncError → TransientBackoff → TransientBackoff
unfolding is_transient transient_step
track_transient now none t = no_transient
track_transient now (some e) t =
    if not (is_transient e)
    then t
    else if ltb now t.next_retry
    then record t { last_err = some e }
    else record t {
      failures = t.failures + 1;
      next_retry = now + transient_step (t.failures + 1);
      last_err = some e;
    }

-- transientBackoffError: the time that is left, if any, and the time of the log line.
unfoldable pub transient_backoff : ℕ → TransientBackoff → Option ℕ × TransientBackoff
transient_backoff now t = if leb t.next_retry now then (none, t) else (
  some (t.next_retry - now),
  if leb minute (now - t.last_skip_log) then record t { last_skip_log = now } else t,
)

-- trackCalendarReplayResult and calendarReplayBackoffRemaining
unfoldable pub track_replay : ℕ → Bool → FolderBackoff → FolderBackoff
unfolding backoff_step
track_replay now stalled f =
    if not stalled
    then no_backoff
    else record f { failures = f.failures + 1; next_retry = now + backoff_step (f.failures + 1) }

unfoldable pub replay_remaining : ℕ → FolderBackoff → ℕ
replay_remaining now f = f.next_retry - now

unfoldable pub skip_replay : ℕ → FolderBackoff → Bool × FolderBackoff
unfolding replay_remaining
skip_replay now f = if replay_remaining now f == 0 then (false, f) else (
  true,
  if leb (10 * minute) (now - f.last_skip_log) then record f { last_skip_log = now } else f,
)

-- The results of one channel at the times given, one after the other.
unfoldable pub track_all :
    String → List (ℕ × Option SyncError) → Dict FolderBackoff → Dict FolderBackoff
unfolding track_sync_result
track_all key [] b = b
track_all key ((now, r) ∷ rest) b = track_all key rest (track_sync_result now key r b)

-- `n` results Status 5 at the times of the list.
abbrev pub failing : List ℕ → List (ℕ × Option SyncError)
failing [] = []
failing (t ∷ ts) = (t, some (status 5)) ∷ failing ts

abbrev pub length_of : List ℕ → ℕ
length_of [] = 0
length_of (t ∷ ts) = suc (length_of ts)

abbrev pub last_of : ℕ → List ℕ → ℕ
last_of t [] = t
last_of t (u ∷ us) = last_of u us

module _ (key : String) where
  after_failure :
      (now : ℕ) (b : Dict FolderBackoff)
      → get (track_sync_result now key (some (status 5)) b) key
        ≡ some (record (get_or no_backoff b key) {
          failures = (get_or no_backoff b key).failures + 1;
          next_retry = now + backoff_step ((get_or no_backoff b key).failures + 1);
        })
  unfolding track_sync_result is_status_5
  after_failure now b = get-put_self b key _

  failures-track :
      (now : ℕ) (b : Dict FolderBackoff)
      → (get_or no_backoff (track_sync_result now key (some (status 5)) b) key).failures
        ≡ (get_or no_backoff b key).failures + 1
  failures-track now b =
      ap (λ o. (elim o as (λ x. FolderBackoff) [ none ↦ no_backoff | some v ↦ v ]).failures)
        (after_failure now b)

  counted :
      (now : ℕ) (ts : List ℕ) (b : Dict FolderBackoff) (n now' : ℕ)
      → (get_or no_backoff b key).failures ≡ n
      → backoff_remaining now' key (track_all key (failing (now ∷ ts)) b)
        ≡ (last_of now ts + backoff_step (n + length_of (now ∷ ts))) - now'
  unfolding track_all backoff_remaining
  counted now [] b n now' e =
      ap (λ o. elim o as (λ x. ℕ) [ none ↦ 0 | some f ↦ f.next_retry - now' ]) (after_failure now b)
      ∙ ap (λ m. (now + backoff_step (m + 1)) - now') e
  counted now (u ∷ us) b n now' e =
      let b' = track_sync_result now key (some (status 5)) b in
      let sum : n + 1 + length_of (u ∷ us) ≡ n + length_of (now ∷ u ∷ us) = omega arith in
      counted u us b' (n + 1) now' (failures-track now b ∙ ap (λ m. m + 1) e)
      ∙ ap (λ m. (last_of u us + backoff_step m) - now') sum

  -- After a success and then one or more results Status 5, the channel waits from the last of them for
  -- the step that their number gives, whatever the back-off was before.
  pub backoff_remaining-track_all :
      (reset now : ℕ) (ts : List ℕ) (b : Dict FolderBackoff) (now' : ℕ)
      → backoff_remaining now' key (track_all key ((reset, none) ∷ failing (now ∷ ts)) b)
        ≡ (last_of now ts + backoff_step (length_of (now ∷ ts))) - now'
  unfolding track_all track_sync_result
  backoff_remaining-track_all reset now ts b now' =
      let sum : 0 + length_of (now ∷ ts) ≡ length_of (now ∷ ts) = omega arith in
      counted now ts (remove b key) 0 now' (
        ap (λ o. (elim o as (λ x. FolderBackoff) [ none ↦ no_backoff | some v ↦ v ]).failures)
          (get-remove_self b key))
      ∙ ap (λ m. (last_of now ts + backoff_step m) - now') sum

-- A wait is never more than 30 minutes, and never shorter after one more failure.
backoff_step_bounds :
    (n : ℕ) → (backoff_step n ≤ backoff_step (n + 1)) × (backoff_step n ≤ 30 * minute)
unfolding backoff_step
backoff_step_bounds n = ground arith

-- While the breaker is open, failures of requests that were already in flight neither extend the
-- pause nor count as further outages.
pub track_transient_open :
    (now now' : ℕ) (e : SyncError) (t : TransientBackoff)
    → now < t.next_retry
    → ((track_transient now (some e) t).failures ≡ t.failures)
      × ((transient_backoff now' (track_transient now (some e) t)).0 ≡ (transient_backoff now' t).0)
unfolding track_transient transient_backoff
track_transient_open now now' e t h = ground arith
