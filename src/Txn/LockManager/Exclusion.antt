-- ===== src/Txn/LockManager/Exclusion.antt =====
-- What a granted lock promises to its holder.
use crustydb_labs_cs378_spri.Prelude.{ℕ, ◌≡◌, ◌≢◌, false, arith, nat_eq, contains, ok}
use crustydb_labs_cs378_spri.Common.Ids.{ValueId, value_id_eq, Permissions, read_only, read_write}
use crustydb_labs_cs378_spri.Txn.LockManager.{LockManager, acquire_lock, track}
use crustydb_labs_cs378_spri.Txn.LockManager.Acquire.{Holds, writing}

-- While a transaction holds a page for writing, no other transaction is granted a lock on it, of
-- either kind, and the refusal leaves every lock as it was.
pub acquire_lock_excluded :
    (m : LockManager) (t u : ℕ) (p : ValueId) (perm : Permissions)
    → Holds m t p read_write
    → t ≢ u
    → acquire_lock m u p perm ≡ ok (false, track m u)
unfolding acquire_lock contains
acquire_lock_excluded m t u p read_only (writing l e w o) d = ground (arith, nat_eq.beq_iff t u)
acquire_lock_excluded m t u p read_write (writing l e w o) d = ground (arith, nat_eq.beq_iff t u)
