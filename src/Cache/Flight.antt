-- ===== src/Cache/Flight.antt =====
-- flightGroup (cache.go): at most one call of a key runs, and who comes meanwhile waits for its result.
-- Each critical section of the mutex is one step; a sequence of steps is an interleaving of the
-- callers. The result of `fn` and the end of a waiter's context are not part of it.
use eas_bridge.Prelude.{
  ℕ, suc, String, ◌≡◌, true, false, Option, none, some, List, [], ◌∷◌, arith, str_eq, eq_iff,
  contains, Distinct, if◌then◌else◌, Option-cases, inl, inr,
}
use eas_bridge.Dict.{Dict, empty, get, put, remove, has, get-put, get-remove, get-empty}

-- The calls by key, each with its number, and the keys whose function runs.
pub record FlightGroup : Type 0 where
  pub calls : Dict ℕ
  pub next_call : ℕ
  pub running : List String

unfoldable pub no_flights : FlightGroup
no_flights = record { calls = empty; next_call = 0; running = [] }

-- The first section of DoContext: the call to wait for, or `none` where the caller runs the function.
unfoldable pub enter : String → FlightGroup → Option ℕ × FlightGroup
enter key g = elim (get g.calls key) [
  | some call ↦ (some call, g)
  | none ↦ (
    none,
    record {
      calls = put g.calls key g.next_call;
      next_call = suc g.next_call;
      running = key ∷ g.running;
    },
  )
]

unfoldable pub without_key : String → List String → List String
without_key key [] = []
without_key key (k ∷ ks) = let rest = without_key key ks in if str_eq k key then rest else k ∷ rest

-- The deferred section, which the caller that ran the function goes through when it is done.
unfoldable pub leave : String → FlightGroup → FlightGroup
unfolding without_key
leave key g = record g { calls = remove g.calls key; running = without_key key g.running }

-- What the callers may do next: only a call that runs can end.
pub data Steps : FlightGroup → Type 0 where
  start : Steps no_flights
  entered : (key : String) → {g : FlightGroup} → Steps g → Steps (enter key g).1
  left :
      (key : String)
      → {g : FlightGroup} → contains key g.running ≡ true
      → Steps g
      → Steps (leave key g)

-- The keys that run are those of the map, none of them twice.
pub record IsSingle (g : FlightGroup) : Type 0 where
  pub agrees : (k : String) → contains k g.running ≡ has g.calls k
  pub single : Distinct g.running

contains-without_key :
    (key k : String) (ks : List String)
    → contains k (without_key key ks) ≡ (if str_eq key k then false else contains k ks)
unfolding without_key
contains-without_key key k [] = ground arith
contains-without_key key k (j ∷ ks) =
    ground (arith, contains-without_key key k ks, eq_iff j key, eq_iff j k, eq_iff key k)

without_key-Distinct :
    (key : String) (ks : List String) → Distinct ks → Distinct (without_key key ks)
unfolding without_key
without_key-Distinct key [] d = tt
without_key-Distinct key (k ∷ ks) d =
    ground (arith, without_key-Distinct key ks d.1, contains-without_key key k ks, eq_iff key k)

enter-IsSingle : (key : String) (g : FlightGroup) → IsSingle g → IsSingle (enter key g).1
unfolding enter
enter-IsSingle key g s = elim (Option-cases (get g.calls key)) [
  | inr (c, p) ↦ rw (p, enter) s
  | inl p ↦
      rw (p, enter)
        (record {
          agrees = λ k. ground (arith, s.agrees k, get-put g.calls key k g.next_call);
          single = (ground (arith, s.agrees key, p), s.single);
        })
]

leave-IsSingle : (key : String) (g : FlightGroup) → IsSingle g → IsSingle (leave key g)
unfolding leave
leave-IsSingle key g s = record {
  agrees = λ k.
      ground (arith, s.agrees k, get-remove g.calls key k, contains-without_key key k g.running);
  single = without_key-Distinct key g.running s.single;
}

start-IsSingle : IsSingle no_flights
unfolding no_flights
start-IsSingle = record { agrees = λ k. ground (arith, get-empty {V = ℕ} k); single = tt }

-- However the callers interleave, no key ever has two running calls, and a caller joins a call exactly
-- where one of its key runs.
pub Steps-IsSingle : (g : FlightGroup) → Steps g → IsSingle g
Steps-IsSingle _ start = start-IsSingle
Steps-IsSingle _ (entered key {g} s) = enter-IsSingle key g (Steps-IsSingle g s)
Steps-IsSingle _ (left key {g} r s) = leave-IsSingle key g (Steps-IsSingle g s)
