-- ===== src/Txn/LockManager/Acquire.antt =====
-- What `acquire_lock` does to a state, and when it grants a lock.
use crustydb_labs_cs378_spri.Prelude.{
  ◌&&◌, ap, subst, ℕ, ◌≡◌, refl, inl, inr, Bool-cases, Option-cases, ◌==◌, Bool, true, false, none,
  some, List, [], ◌∷◌, ◌++◌, arith, nat_eq, beq_refl, length, length-append, contains,
  contains-snoc, Outcome, ok, update,
}
use crustydb_labs_cs378_spri.Common.Ids.{
  ValueId, value_id_eq, value_id_beq_iff, Permissions, read_only, read_write,
}
use crustydb_labs_cs378_spri.Txn.LockManager.{
  Lock, LockManager, page_ids, acquire_lock, acquire_tracked, acquire_new, acquire_held,
  acquire_read, acquire_shared, acquire_write, set_lock, track, upgrade,
}
use crustydb_labs_cs378_spri.Txn.LockManager.Invariant.{
  holders, IsSound, Inv, joined_lock, Added, Upgraded, Kept-Inv, Added-Inv, track-Inv,
}

-- What a call may do to the tracked state, by what is asked for: nothing, one new holder, or the upgrade
-- of the lock of its one holder.
pub data Change (m : LockManager) (t : ℕ) (p : ValueId) : Permissions → LockManager → Type 0 where
  kept : {perm : Permissions} → Change m t p perm m
  added : {perm : Permissions} {n : LockManager} → Added m t p perm n → Change m t p perm n
  upgraded : {n : LockManager} → Upgraded m t p n → Change m t p read_write n

Change-Inv :
    {m n : LockManager} {t : ℕ} {p : ValueId} {perm : Permissions}
    → Change m t p perm n
    → Inv m
    → Inv n
Change-Inv kept v = v
Change-Inv (upgraded u) v = Kept-Inv u.lists v
Change-Inv (added a) v = Added-Inv a v

-- The transaction holds the page, and alone if it may write.
pub data Holds (m : LockManager) (t : ℕ) (p : ValueId) : Permissions → Type 0 where
  reading : contains (holders m p) t ≡ true → Holds m t p read_only
  writing :
      (l : Lock)
      → m.pid_lock p ≡ some l
      → l.lock_type ≡ read_write
      → l.txn ≡ t ∷ []
      → Holds m t p read_write

abbrev pub Granted : LockManager → ℕ → ValueId → Permissions → Bool → Type 0
Granted n t p perm b = b ≡ true → Holds n t p perm

sole_holder : (xs : List ℕ) (t : ℕ) → length xs ≡ 1 → contains xs t ≡ true → xs ≡ t ∷ []
unfolding contains
sole_holder [] t h c = absurd (omega arith)
sole_holder (x ∷ []) t h c = ground (arith, nat_eq.beq_iff x t)
sole_holder (x ∷ y ∷ xs) t h c = absurd (omega arith)

-- A call that returns, with the state that it leaves and what it grants.
abbrev Returns : LockManager → ℕ → ValueId → Permissions → Outcome (Bool × LockManager) → Type 0
Returns m t p perm r =
    (b : Bool) × (n : LockManager) × (r ≡ ok (b, n))
    × Change m t p perm n
    × Granted n t p perm b
    × (b ≡ false → n ≡ m)

pub set_lock-IsSound :
    (m : LockManager) (p : ValueId) (l : Lock)
    → ((q : ValueId) (k : Lock) → m.pid_lock q ≡ some k → IsSound k)
    → IsSound l
    → (q : ValueId) (k : Lock) → update m.pid_lock p l q ≡ some k
    → IsSound k
set_lock-IsSound m p l all s q k e = elim (Bool-cases (p == q)) [
  | inl d ↦ (let same_lock : l ≡ k = ground arith in subst IsSound same_lock s)
  | inr d ↦ all q k (rw d at e)
]

-- The lock is put in, and the page is recorded with the transaction.
abbrev with_holder : LockManager → ℕ → ValueId → List ValueId → Lock → LockManager
with_holder m t p pages l = record m {
  pid_lock = update m.pid_lock p l;
  txn_locks = update m.txn_locks t (pages ++ p ∷ []);
}

-- The one who joins a lock is among its holders.
with_holder_holds :
    (m : LockManager) (t : ℕ) (p : ValueId) (pages : List ValueId) (l : Lock) (xs : List ℕ)
    → l.txn ≡ xs ++ t ∷ []
    → contains (holders (with_holder m t p pages l) p) t ≡ true
unfolding holders
with_holder_holds m t p pages l xs e =
    ground (arith, value_id_beq_iff p p, contains-snoc xs t t, nat_eq.beq_iff t t)

with_holder-Added :
    (m : LockManager) (t : ℕ) (p : ValueId) (pages : List ValueId) (perm : Permissions) (l : Lock)
    → Inv m
    → m.txn_locks t ≡ some pages
    → l.txn ≡ holders m p ++ t ∷ []
    → l ≡ joined_lock p t perm (m.pid_lock p)
    → ((k : Lock) → m.pid_lock p ≡ some k → (k.lock_type ≡ read_only) × (perm ≡ read_only))
    → contains (holders m p) t ≡ false
    → IsSound l
    → Added m t p perm (with_holder m t p pages l)
unfolding page_ids holders
with_holder-Added m t p pages perm l v known txn is_l shared fresh s = record {
  fresh = fresh;
  here = rw (beq_refl p) (ap some is_l);
  others = λ q d. rw d refl;
  shared = shared;
  pages = λ u. ground (arith, nat_eq.beq_iff t u);
  held = λ q. ground (arith, value_id_beq_iff p q);
  sound = set_lock-IsSound m p l v.sound s;
}

written-lock_type : (l : Lock) → upgrade l.lock_type ≡ read_write
unfolding upgrade
written-lock_type l = ground arith

-- The cases of a call, at a transaction that is tracked.
module _ (m : LockManager) (t : ℕ) (p : ValueId) {pages : List ValueId} (v : Inv m)
    (known : m.txn_locks t ≡ some pages) where
  acquire_new-Returns :
      (perm : Permissions) → m.pid_lock p ≡ none → Returns m t p perm (acquire_new m t p perm)
  unfolding acquire_new holders contains
  acquire_new-Returns perm e = (
    true,
    with_holder m t p pages (first perm),
    rw known,
    added (
        with_holder-Added m t p pages perm (first perm) v known (ground arith) (rw e refl)
          (λ k f. cc) (ground arith) (omega arith)),
    first_Holds perm,
    λ f. cc,
  )
    where
      first : Permissions → Lock
      first k = record { vid = p; txn = t ∷ []; lock_type = k }

      first_Holds : (k : Permissions) → Granted (with_holder m t p pages (first k)) t p k true
      first_Holds read_only _ = reading (with_holder_holds m t p pages (first read_only) [] refl)
      first_Holds read_write _ = writing (first read_write) (rw (beq_refl p)) refl refl

  acquire_shared-Returns :
      (l : Lock)
      → m.pid_lock p ≡ some l
      → l.lock_type ≡ read_only
      → Returns m t p read_only (acquire_shared m t p l)
  unfolding acquire_shared holders
  acquire_shared-Returns l e s = elim (Bool-cases (contains l.txn t)) [
    | inl h ↦ (true, m, rw h, kept, λ _. reading (ground arith), λ f. refl)
    | inr h ↦ (
      true,
      with_holder m t p pages (record l { txn = l.txn ++ t ∷ [] }),
      rw (h, known),
      added (
          with_holder-Added m t p pages read_only _ v known (ground arith) (rw e refl)
            (λ k f. (ground arith, refl)) (ground arith)
            (record {
              occupied = omega (arith, length-append l.txn (t ∷ []));
              exclusive = ground arith;
            })),
      λ _. reading (with_holder_holds m t p pages _ l.txn refl),
      λ f. cc,
    )
  ]

  acquire_read-Returns :
      (l : Lock) (kind : Permissions)
      → m.pid_lock p ≡ some l
      → l.lock_type ≡ kind
      → Returns m t p read_only (acquire_read m t p l kind)
  unfolding acquire_read holders
  acquire_read-Returns l read_write e s =
      (contains l.txn t, m, refl, kept, λ c. reading (ground arith), λ f. refl)
  acquire_read-Returns l read_only e s = acquire_shared-Returns l e s

  acquire_write-Returns :
      (l : Lock) → m.pid_lock p ≡ some l → Returns m t p read_write (acquire_write m t p l)
  unfolding acquire_write holders page_ids
  acquire_write-Returns l e = elim (Bool-cases (length l.txn == 1 && contains l.txn t)) [
    | inl h ↦ (
      true,
      set_lock m p written,
      rw h,
      upgraded (record {
        lists = record {
          pages = λ u. refl;
          held = λ q. ground (arith, value_id_beq_iff p q);
          sound = set_lock-IsSound m p written v.sound (ground arith);
        };
        here = (l, e, alone h, rw (beq_refl p, alone h, written-lock_type l) refl);
        others = λ q d. rw d refl;
      }),
      λ _. writing written (rw (beq_refl p)) (written-lock_type l) (alone h),
      λ f. cc,
    )
    | inr h ↦ (false, m, rw h, kept, λ c. cc, λ f. refl)
  ]
    where
      written : Lock
      written = record l { lock_type = upgrade l.lock_type }

      alone : (length l.txn == 1 && contains l.txn t) ≡ true → l.txn ≡ t ∷ []
      alone h = sole_holder l.txn t (ground arith) (ground arith)

  acquire_held-Returns :
      (l : Lock) (perm : Permissions)
      → m.pid_lock p ≡ some l
      → Returns m t p perm (acquire_held m t p l perm)
  unfolding acquire_held
  acquire_held-Returns l read_only e = acquire_read-Returns l l.lock_type e refl
  acquire_held-Returns l read_write e = acquire_write-Returns l e

  acquire_tracked-Returns : (perm : Permissions) → Returns m t p perm (acquire_tracked m t p perm)
  unfolding acquire_tracked
  acquire_tracked-Returns perm = elim (Option-cases (m.pid_lock p)) [
    | inl e ↦ rw (e, acquire_tracked) (acquire_new-Returns perm e)
    | inr (l, e) ↦ rw (e, acquire_tracked) (acquire_held-Returns l perm e)
  ]

pub tracked : (m : LockManager) (t : ℕ) → (track m t).txn_locks t ≡ some (page_ids m t)
unfolding track
tracked m t = rw (beq_refl t)

-- In a state that satisfies the invariant `acquire_lock` never panics, and the state that it leaves
-- satisfies the invariant again. It is the one in which the transaction is tracked, or that one with the
-- transaction as a new holder of the page, of a new lock of the kind asked for or, to read, of a lock that
-- is shared and stays so, or that one with the lock of the page, held by the transaction alone, turned into
-- one for writing, as was asked; every other lock is the same in kind and holders. If the call returned
-- `true`, the transaction holds the page: alone and for writing, if it is to write. If it returned `false`,
-- the state is the one in which the transaction is tracked.
pub acquire_lock-Inv :
    (m : LockManager) (t : ℕ) (p : ValueId) (perm : Permissions)
    → Inv m
    → (b : Bool) × (n : LockManager) × (acquire_lock m t p perm ≡ ok (b, n))
      × Inv n
      × Change (track m t) t p perm n
      × Granted n t p perm b
      × (b ≡ false → n ≡ track m t)
unfolding acquire_lock
acquire_lock-Inv m t p perm v =
    let w = track-Inv m t v in
    let (b, n, e, c, g, u) = acquire_tracked-Returns (track m t) t p w (tracked m t) perm in
    (b, n, e, Change-Inv c w, c, g, u)
