-- ===== src/Txn/LockManager/Available.antt =====
-- When a lock is sure to be granted.
use crustydb_labs_cs378_spri.Prelude.{
  ℕ, ◌≤◌, ◌++◌, ◌≡◌, ap, ◌∙◌, subst, inl, inr, true, Option-cases, some, List, [], ◌∷◌, arith,
  nat_eq, beq_refl, length, contains, Distinct, ok, update,
}
use crustydb_labs_cs378_spri.Common.Ids.{ValueId, value_id_eq, Permissions, read_only, read_write}
use crustydb_labs_cs378_spri.Txn.LockManager.{
  Lock, LockManager, page_ids, acquire_lock, acquire_tracked, acquire_new, acquire_held,
  acquire_read, acquire_shared, acquire_write, push_page, set_lock, track, upgrade,
}
use crustydb_labs_cs378_spri.Txn.LockManager.Invariant.{holders, Inv, track-Inv}
use crustydb_labs_cs378_spri.Txn.LockManager.Acquire.{tracked}

-- A list that is not empty, has nothing twice and nothing but `t`.
just_one :
    (xs : List ℕ) (t : ℕ)
    → 1 ≤ length xs
    → Distinct xs
    → ((u : ℕ) → contains xs u ≡ true → u ≡ t)
    → xs ≡ t ∷ []
unfolding contains
just_one [] t h d only = absurd (omega arith)
just_one (x ∷ []) t h d only = ap (λ y. y ∷ []) (only x (rw (beq_refl x)))
just_one (x ∷ y ∷ xs) t h (dx, d) only = absurd (
    ground (
      arith,
      nat_eq.beq_iff y x,
      only x (rw (beq_refl x)),
      only y (ground (arith, beq_refl y)),
      dx,
    ))

acquire_new-granted :
    (m : LockManager) (t : ℕ) (p : ValueId) (perm : Permissions) (ps : List ValueId)
    → m.txn_locks t ≡ some ps
    → (n : LockManager) × (acquire_new m t p perm ≡ ok (true, n))
unfolding acquire_new push_page set_lock
acquire_new-granted m t p perm ps h = (
  record m {
    pid_lock = update m.pid_lock p (record { vid = p; txn = t ∷ []; lock_type = perm });
    txn_locks = update m.txn_locks t (ps ++ p ∷ []);
  },
  rw h,
)

acquire_read-granted :
    (m : LockManager) (t : ℕ) (p : ValueId) (l : Lock) (kind : Permissions)
    → contains l.txn t ≡ true
    → acquire_read m t p l kind ≡ ok (true, m)
unfolding acquire_read acquire_shared
acquire_read-granted m t p l read_only h = rw h
acquire_read-granted m t p l read_write h = rw h

-- Its one holder is granted a lock of either kind.
acquire_held-granted :
    (m : LockManager) (t : ℕ) (p : ValueId) (l : Lock) (perm : Permissions)
    → l.txn ≡ t ∷ []
    → (n : LockManager) × (acquire_held m t p l perm ≡ ok (true, n))
unfolding acquire_held acquire_write contains
acquire_held-granted m t p l read_only h =
    (m, acquire_read-granted m t p l l.lock_type (rw (h, beq_refl t)))
acquire_held-granted m t p l read_write h =
    (set_lock m p (record l { lock_type = upgrade l.lock_type }), rw (h, beq_refl t))

acquire_tracked-granted :
    (m : LockManager) (t : ℕ) (p : ValueId) (perm : Permissions) (ps : List ValueId)
    → Inv m
    → m.txn_locks t ≡ some ps
    → ((u : ℕ) → contains (holders m p) u ≡ true → u ≡ t)
    → (n : LockManager) × (acquire_tracked m t p perm ≡ ok (true, n))
unfolding acquire_tracked holders
acquire_tracked-granted m t p perm ps v h only = elim (Option-cases (m.pid_lock p)) [
  | inl e ↦ rw (e, acquire_tracked) (acquire_new-granted m t p perm ps h)
  | inr (l, e) ↦
      let held : holders m p ≡ l.txn = rw (e, holders) in
      rw (e, acquire_tracked)
        (acquire_held-granted m t p l perm (
          just_one l.txn t (v.sound p l e).occupied (subst Distinct held (v.holders_distinct p))
            (λ u c. only u (ap (λ xs. contains xs u) held ∙ c))))
]

-- A transaction is granted a lock, of either kind, on every page that no other transaction holds,
-- whether it holds the page already or not.
pub acquire_lock-granted :
    (m : LockManager) (t : ℕ) (p : ValueId) (perm : Permissions)
    → Inv m
    → ((u : ℕ) → contains (holders m p) u ≡ true → u ≡ t)
    → (n : LockManager) × (acquire_lock m t p perm ≡ ok (true, n))
unfolding acquire_lock holders track
acquire_lock-granted m t p perm v only =
    acquire_tracked-granted (track m t) t p perm (page_ids m t) (track-Inv m t v) (tracked m t) only
