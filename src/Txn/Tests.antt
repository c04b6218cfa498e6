-- ===== src/Txn/Tests.antt =====
-- A transaction that commits.
use crustydb_labs_cs378_spri.Prelude.{◌≡◌, err, transaction_not_active}
use crustydb_labs_cs378_spri.Txn.Transaction.{
  terminated, begin, commit, tid, commits, Step-terminated,
}

Step-terminated_example :
    ((commit (begin 7)).1.state ≡ terminated)
    × ((commit (begin 7)).1.id ≡ (begin 7).id)
    × (tid (commit (begin 7)).1 ≡ err transaction_not_active)
Step-terminated_example = Step-terminated (commits (begin 7))
