-- ===== src/Txn/LockManager.antt =====
-- Page locks: txn_manager/src/lockmanager.rs. `HashMap` is the function of its entries; a call gives
-- the new state next to what it returns, and a call that can only panic gives an `Outcome` of both.
pub mod Invariant
pub mod Acquire
pub mod Exclusion
pub mod Release
pub mod Available
mod Tests
use crustydb_labs_cs378_spri.Prelude.{
  ℕ, Bool, true, false, ◌&&◌, Option, none, some, List, [], ◌∷◌, ◌++◌, ◌==◌, nat_eq, length,
  contains, without, if◌then◌else◌, Outcome, ok, err, panic, ◌>>=◌, unwrap, crusty_error, update,
  delete,
}
use crustydb_labs_cs378_spri.Common.Ids.{ValueId, value_id_eq, Permissions, read_only, read_write}

pub record Lock : Type 0 where
  pub vid : ValueId
  pub txn : List ℕ
  pub lock_type : Permissions

pub record LockManager : Type 0 where
  pub pid_lock : ValueId → Option Lock
  pub txn_locks : ℕ → Option (List ValueId)

-- `new`, and what `clear` leaves.
unfoldable pub new : LockManager
new = record { pid_lock = λ _. none; txn_locks = λ _. none }

unfoldable pub clear : LockManager → LockManager
unfolding new
clear m = new

unfoldable pub page_ids : LockManager → ℕ → List ValueId
page_ids m tid = elim (m.txn_locks tid) [ some v ↦ v | none ↦ [] ]

-- `self.txn_locks.entry(tid).or_default()`
pub track : LockManager → ℕ → LockManager
unfolding page_ids
track m tid = record m { txn_locks = update m.txn_locks tid (page_ids m tid) }

-- `self.txn_locks.get_mut(&tid).unwrap().push(pid)`
pub push_page : LockManager → ℕ → ValueId → Outcome LockManager
push_page m tid pid = do
  pages ← unwrap (m.txn_locks tid)
  ok (record m { txn_locks = update m.txn_locks tid (pages ++ pid ∷ []) })

pub set_lock : LockManager → ValueId → Lock → LockManager
set_lock m pid lock = record m { pid_lock = update m.pid_lock pid lock }

pub upgrade : Permissions → Permissions
upgrade read_only = read_write
upgrade read_write = read_write

-- No lock exists on the page.
pub acquire_new : LockManager → ℕ → ValueId → Permissions → Outcome (Bool × LockManager)
unfolding set_lock push_page
acquire_new m tid pid perm = do
  m' ← push_page (set_lock m pid (record { vid = pid; txn = tid ∷ []; lock_type = perm })) tid pid
  ok (true, m')

-- A shared lock gains a holder, unless the transaction holds it.
pub acquire_shared : LockManager → ℕ → ValueId → Lock → Outcome (Bool × LockManager)
unfolding set_lock push_page
acquire_shared m tid pid lock = if contains lock.txn tid then ok (true, m) else (do
  m' ← push_page (set_lock m pid (record lock { txn = lock.txn ++ tid ∷ [] })) tid pid
  ok (true, m'))

pub acquire_read : LockManager → ℕ → ValueId → Lock → Permissions → Outcome (Bool × LockManager)
unfolding acquire_shared
acquire_read m tid pid lock read_write = ok (contains lock.txn tid, m)
acquire_read m tid pid lock read_only = acquire_shared m tid pid lock

-- Only the one holder gets the page for writing; its lock is upgraded.
pub acquire_write : LockManager → ℕ → ValueId → Lock → Outcome (Bool × LockManager)
unfolding set_lock upgrade
acquire_write m tid pid lock =
    if length lock.txn == 1 && contains lock.txn tid
    then ok (true, set_lock m pid (record lock { lock_type = upgrade lock.lock_type }))
    else ok (false, m)

pub acquire_held : LockManager → ℕ → ValueId → Lock → Permissions → Outcome (Bool × LockManager)
unfolding acquire_read acquire_write
acquire_held m tid pid lock read_only = acquire_read m tid pid lock lock.lock_type
acquire_held m tid pid lock read_write = acquire_write m tid pid lock

pub acquire_tracked : LockManager → ℕ → ValueId → Permissions → Outcome (Bool × LockManager)
unfolding acquire_new acquire_held
acquire_tracked m tid pid perm = elim (m.pid_lock pid) [
  | none ↦ acquire_new m tid pid perm
  | some lock ↦ acquire_held m tid pid lock perm
]

unfoldable pub acquire_lock : LockManager → ℕ → ValueId → Permissions → Outcome (Bool × LockManager)
unfolding track acquire_tracked
acquire_lock m tid pid perm = acquire_tracked (track m tid) tid pid perm

-- The lock without the transaction: gone, if the transaction was its one holder.
pub drop_holder : LockManager → ℕ → ValueId → Lock → LockManager
unfolding set_lock
drop_holder m tid pid lock =
    if length lock.txn == 1
    then record m { pid_lock = delete m.pid_lock pid }
    else set_lock m pid (record lock { txn = without lock.txn tid })

pub release_held :
    LockManager → ℕ → ValueId → List ValueId → Option Lock → Outcome (Unit {0}) × LockManager
unfolding drop_holder
release_held m tid pid pages none = (err (crusty_error "No locks on ValueId"), m)
release_held m tid pid pages (some lock) =
    if contains lock.txn tid
    then (
      ok tt,
      record (drop_holder m tid pid lock) {
        txn_locks = update m.txn_locks tid (without pages pid);
      },
    )
    else (err (crusty_error "TXN does not hold lock"), m)

unfoldable pub release_lock : LockManager → ℕ → ValueId → Outcome (Unit {0}) × LockManager
unfolding release_held
release_lock m tid pid = elim (m.txn_locks tid) [
  | none ↦ (err (crusty_error "Releasing lock from unknown TXN"), m)
  | some pages ↦ release_held m tid pid pages (m.pid_lock pid)
]

-- The loop stops at the first error; what was released before it stays released.
unfoldable pub release_pages : LockManager → ℕ → List ValueId → Outcome (Unit {0}) × LockManager
release_pages m tid [] = (ok tt, m)
release_pages m tid (p ∷ ps) =
    let r = release_lock m tid p in
    elim r.0 [ ok _ ↦ release_pages r.1 tid ps | err e ↦ (err e, r.1) | panic ↦ (panic, r.1) ]

pub release_nonempty : LockManager → ℕ → List ValueId → Outcome (Unit {0}) × LockManager
unfolding release_pages
release_nonempty m tid [] = (err (crusty_error "Releasing locks from unknown TXN"), m)
release_nonempty m tid (p ∷ ps) = release_pages m tid (p ∷ ps)

unfoldable pub release_locks : LockManager → ℕ → Outcome (Unit {0}) × LockManager
unfolding release_nonempty page_ids
release_locks m tid = release_nonempty m tid (page_ids m tid)
