-- ===== src/Store/Uids/Allocation.antt =====
-- What the allocation loop of `assignUIDs` does to the reverse table.
use eas_bridge.Prelude.{
  ℕ, ◌+◌, ◌≤◌, ◌<◌, ◌^◌, String, ◌≡◌, ◌≢◌, none, some, List, [], ◌∷◌, arith, str_eq, eq_iff,
  eq_refl, if◌then◌else◌, contains, length, Option-cases, inl, inr, true, Bool-cases,
}
use eas_bridge.Dict.{get, get-put}
use eas_bridge.Eas.{EmailItem}
use eas_bridge.Store.Uids.{Alloc, allocate_item, allocate}

-- The reverse table gives distinct UIDs, from 1 on and below the counter.
pub record IsGood (a : Alloc) : Type 0 where
  pub inj : (k j : String) (u : ℕ) → get a.sid_map k ≡ some u → get a.sid_map j ≡ some u → k ≡ j
  pub low : (k : String) (u : ℕ) → get a.sid_map k ≡ some u → 1 ≤ u
  pub high : (k : String) (u : ℕ) → get a.sid_map k ≡ some u → u < a.next_uid
  pub pos : 1 ≤ a.next_uid

-- How the table after a part of the loop stands to the table before it.
pub record Extends (a b : Alloc) : Type 0 where
  pub keeps : (k : String) (u : ℕ) → get a.sid_map k ≡ some u → get b.sid_map k ≡ some u
  pub fresh :
      (k : String) (u : ℕ) → get a.sid_map k ≡ none → get b.sid_map k ≡ some u → a.next_uid ≤ u
  pub grows : a.next_uid ≤ b.next_uid

module _ (it : EmailItem) (a : Alloc) where
  get-allocate_item :
      (k : String)
      → get (allocate_item it a).sid_map k ≡ elim (get a.sid_map it.server_id) [
        | some u ↦ get a.sid_map k
        | none ↦ if str_eq it.server_id k then some a.next_uid else get a.sid_map k
      ]
  unfolding allocate_item
  get-allocate_item k = ground (arith, get-put a.sid_map it.server_id k a.next_uid)

  allocate_item-next :
      a.next_uid + 1 < 2 ^ 32
      → (a.next_uid ≤ (allocate_item it a).next_uid)
        × ((allocate_item it a).next_uid ≤ a.next_uid + 1)
  unfolding allocate_item
  allocate_item-next h = ground arith

  allocate_item-next_new :
      a.next_uid + 1 < 2 ^ 32
      → get a.sid_map it.server_id ≡ none
      → (allocate_item it a).next_uid ≡ a.next_uid + 1
  unfolding allocate_item
  allocate_item-next_new h e = ground arith

  allocate_item-IsGood : a.next_uid + 1 < 2 ^ 32 → IsGood a → IsGood (allocate_item it a)
  allocate_item-IsGood h g = record {
    inj = λ k j u p q. ground (
      arith,
      get-allocate_item k,
      get-allocate_item j,
      g.inj k j u,
      g.high k u,
      g.high j u,
      eq_iff it.server_id k,
      eq_iff it.server_id j,
    );
    low = λ k u p. ground (arith, get-allocate_item k, g.low k u, g.pos);
    high = λ k u p.
        ground
          (arith, get-allocate_item k, g.high k u, allocate_item-next h, allocate_item-next_new h);
    pos = omega (arith, allocate_item-next h, g.pos);
  }

  allocate_item-Extends : a.next_uid + 1 < 2 ^ 32 → Extends a (allocate_item it a)
  allocate_item-Extends h = record {
    keeps = λ k u p. ground (arith, get-allocate_item k, eq_iff it.server_id k);
    fresh = λ k u p q. ground (arith, get-allocate_item k);
    grows = (allocate_item-next h).0;
  }

  allocate_item_covers : get (allocate_item it a).sid_map it.server_id ≢ none
  allocate_item_covers = λ e. ground (arith, get-allocate_item it.server_id, eq_refl it.server_id)

pub Extends-refl : (a : Alloc) → Extends a a
Extends-refl a = record { keeps = λ k u p. p; fresh = λ k u p q. cc; grows = omega arith }

pub Extends-trans : {a b c : Alloc} → Extends a b → Extends b c → Extends a c
Extends-trans {b} x y = record {
  keeps = λ k u p. y.keeps k u (x.keeps k u p);
  fresh = λ k u p q. elim (Option-cases (get b.sid_map k)) [
    | inl e ↦ omega (arith, y.fresh k u e q, x.grows)
    | inr (v, e) ↦ ground (arith, x.fresh k u p, y.keeps k v e)
  ];
  grows = omega (arith, x.grows, y.grows);
}

unfoldable pub server_ids : List EmailItem → List String
server_ids [] = []
server_ids (it ∷ its) = it.server_id ∷ server_ids its

pub allocate-IsGood :
    (its : List EmailItem) (a : Alloc)
    → a.next_uid + length its < 2 ^ 32
    → IsGood a
    → IsGood (allocate its a)
unfolding allocate
allocate-IsGood [] a h g = g
allocate-IsGood (it ∷ its) a h g =
    allocate-IsGood its (allocate_item it a) (omega (arith, allocate_item-next it a (omega arith)))
      (allocate_item-IsGood it a (omega arith) g)

pub allocate-Extends :
    (its : List EmailItem) (a : Alloc)
    → a.next_uid + length its < 2 ^ 32
    → Extends a (allocate its a)
unfolding allocate
allocate-Extends [] a h = Extends-refl a
allocate-Extends (it ∷ its) a h = Extends-trans (allocate_item-Extends it a (omega arith)) (
    allocate-Extends its (allocate_item it a)
      (omega (arith, allocate_item-next it a (omega arith))))

-- Every item of the batch has a UID in the end.
pub allocate_covers :
    (its : List EmailItem) (a : Alloc) (k : String)
    → a.next_uid + length its < 2 ^ 32
    → contains k (server_ids its) ≡ true
    → get (allocate its a).sid_map k ≢ none
unfolding allocate server_ids
allocate_covers [] a k h c = cc
allocate_covers (it ∷ its) a k h c =
    let rest : (allocate_item it a).next_uid + length its < 2 ^ 32 =
      omega (arith, allocate_item-next it a (omega arith)) in
    elim (Bool-cases (str_eq it.server_id k)) [
      | inl here ↦ λ e. elim (Option-cases (get (allocate_item it a).sid_map it.server_id)) [
        | inl missing ↦ allocate_item_covers it a missing
        | inr (u, found) ↦ ground (
          arith,
          eq_iff it.server_id k,
          (allocate-Extends its (allocate_item it a) rest).keeps k u,
        )
      ]
      | inr there ↦ allocate_covers its (allocate_item it a) k rest (ground arith)
    ]
