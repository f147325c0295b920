-- ===== src/Mail/Collect.antt =====
-- The loop over the pages of syncMailOnce (sync.go). The client and the reset of the sync key are
-- parameters: `fetch` answers the next request of the world `W`, `reset` clears the key.
use eas_bridge.Prelude.{
  ℕ, ◌+◌, ◌-◌, ◌≤◌, zero, suc, String, ◌≡◌, refl, Bool, true, false, not, ◌&&◌, Option, none, some,
  List, [], ◌++◌, arith, if◌then◌else◌, leb, Bool-cases, inl, inr, ◌==◌,
}
use eas_bridge.Eas.{EmailItem}

-- The errors that the synchronisation tells apart.
pub data SyncError : Type 0 where
  canceled : SyncError
  deadline_exceeded : SyncError
  end_of_file : SyncError
  network : SyncError
  http_error : ℕ → SyncError
  status : ℕ → SyncError
  too_many_pages : SyncError
  other_error : SyncError

-- `eas.IsStatusCode(err, 5)`
unfoldable pub is_status_5 : SyncError → Bool
is_status_5 (status n) = n == 5
is_status_5 e = false

pub record EmailPage : Type 0 where
  pub added : List EmailItem
  pub changed : List EmailItem
  pub deleted : List String
  pub more_available : Bool

pub data Reply : Type 0 where
  page : EmailPage → Reply
  failed : SyncError → Reply

-- What the pages added, changed and deleted so far.
pub record Changes : Type 0 where
  pub added : List EmailItem
  pub changed : List EmailItem
  pub deleted : List String

abbrev pub no_changes : Changes
no_changes = record { added = []; changed = []; deleted = [] }

unfoldable pub with_page : EmailPage → Changes → Changes
with_page p c = record {
  added = c.added ++ p.added;
  changed = c.changed ++ p.changed;
  deleted = c.deleted ++ p.deleted;
}

pub data Collected (W : Type 0) : Type 0 where
  collected : Option SyncError → Changes → W → Collected W
  out_of_fuel : Collected W

unfoldable pub ended : {W : Type 0} → Collected W → Bool
ended (collected e c w) = true
ended out_of_fuel = false

module _ {W : Type 0} (fetch : W → Reply × W) (reset : W → W) where
  unfoldable pub collect : ℕ → ℕ → Bool → Changes → W → Collected W
  unfolding is_status_5 with_page
  collect zero n retried c w = out_of_fuel
  collect (suc fuel) n retried c w = elim (leb 500 n) [
    | true ↦ collected (some too_many_pages) c w
    | false ↦
        let r = fetch w in
        elim (r.0) [
          | failed e ↦ elim (is_status_5 e && not retried) [
            | true ↦ collect fuel 0 true no_changes (reset (r.1))
            | false ↦ collected (some e) c (r.1)
          ]
          | page p ↦ elim (p.more_available) [
            | true ↦ collect fuel (n + 1) retried (with_page p c) (r.1)
            | false ↦ collected none (with_page p c) (r.1)
          ]
        ]
  ]

  rounds_left : ℕ → Bool → ℕ
  rounds_left n retried = 501 - n + (if retried then 0 else 501)

  abbrev Ends : ℕ → Type 0
  Ends fuel =
      (n : ℕ) (retried : Bool) (c : Changes) (w : W)
      → n ≤ 500
      → rounds_left n retried ≤ fuel
      → ended (collect fuel n retried c w) ≡ true

  -- One round, on the answer of the server.
  round-Ends :
      (fuel n : ℕ) (retried : Bool) (c : Changes) (r : Reply × W)
      → Ends fuel
      → n + 1 ≤ 500
      → rounds_left n retried ≤ suc fuel
      → ended (elim (r.0) as (λ x. Collected W) [
        | failed e ↦ elim (is_status_5 e && not retried) as (λ x. Collected W) [
          | true ↦ collect fuel 0 true no_changes (reset (r.1))
          | false ↦ collected (some e) c (r.1)
        ]
        | page p ↦ elim (p.more_available) as (λ x. Collected W) [
          | true ↦ collect fuel (n + 1) retried (with_page p c) (r.1)
          | false ↦ collected none (with_page p c) (r.1)
        ]
      ])
        ≡ true
  unfolding rounds_left ended
  round-Ends fuel n retried c (failed e, w) ih le room =
      elim (Bool-cases (is_status_5 e && not retried)) [
        | inl h ↦ rw h (ih 0 true no_changes (reset w) (omega arith) (ground (arith, h)))
        | inr h ↦ rw h refl
      ]
  round-Ends fuel n retried c (page p, w) ih le room = elim (Bool-cases (p.more_available)) [
    | inl h ↦ rw h (ih (n + 1) retried (with_page p c) w le (omega (arith, room)))
    | inr h ↦ rw h refl
  ]

  collect-Ends : (fuel : ℕ) → Ends fuel
  unfolding collect rounds_left ended
  collect-Ends zero n retried c w le room = ground arith
  collect-Ends (suc fuel) n retried c w le room = elim (Bool-cases (leb 500 n)) [
    | inl h ↦ rw (h, ended, collect) refl
    | inr h ↦
        rw (h, ended, collect)
          (round-Ends fuel n retried c (fetch w) (collect-Ends fuel) (ground arith) room)
  ]

  -- The loop of one synchronisation ends within 1002 rounds, whatever the server answers: 501 rounds
  -- with the old key and, after one reset, 501 with a new one.
  pub collect_terminates :
      (fuel : ℕ) (w : W) → 1002 ≤ fuel → ended (collect fuel 0 false no_changes w) ≡ true
  unfolding rounds_left
  collect_terminates fuel w room = collect-Ends fuel 0 false no_changes w (omega arith) room
