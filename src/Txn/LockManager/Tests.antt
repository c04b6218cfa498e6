-- ===== src/Txn/LockManager/Tests.antt =====
-- Runs of the lock manager, and the theorems at concrete states.
use crustydb_labs_cs378_spri.Prelude.{
  ℕ, nat_eq, ◌≡◌, refl, ◌≢◌, Bool, true, false, [], ◌∷◌, arith, contains, Outcome, ok, err, panic,
  subst, sym, ap, CrustyError, ◌⊎◌,
}
use crustydb_labs_cs378_spri.Common.Ids.{ValueId, value_id_eq, new_page, read_only, read_write}
use crustydb_labs_cs378_spri.Txn.LockManager.{
  LockManager, new, page_ids, acquire_lock, track, release_lock, release_locks,
}
use crustydb_labs_cs378_spri.Txn.LockManager.Invariant.{Inv, holders, Removed, new-Inv}
use crustydb_labs_cs378_spri.Txn.LockManager.Acquire.{
  Change, Granted, Holds, writing, acquire_lock-Inv,
}
use crustydb_labs_cs378_spri.Txn.LockManager.Exclusion.{acquire_lock_excluded}
use crustydb_labs_cs378_spri.Txn.LockManager.Available.{acquire_lock-granted}
use crustydb_labs_cs378_spri.Txn.LockManager.Release.{
  release_lock_cases, Cleared, release_locks-Cleared,
}

abbrev page : ValueId
unfolding new_page
page = new_page 1 1

abbrev state_of : Outcome (Bool × LockManager) → LockManager
state_of (ok (b, m)) = m
state_of (err e) = new
state_of panic = new

-- Transaction 7 has locked the page for writing.
written : LockManager
unfolding new acquire_lock
written = state_of (acquire_lock new 7 page read_write)

written-Inv : Inv written
unfolding written page
written-Inv =
    let (b, m, e, i, c, g, u) = acquire_lock-Inv new 7 page read_write new-Inv in
    subst Inv (sym (ap state_of e)) i

written-Holds : Holds written 7 page read_write
unfolding written page
written-Holds = writing (record { vid = page; txn = 7 ∷ []; lock_type = read_write }) refl refl refl

-- Two readers share a page, and neither is then allowed to write.
abbrev two_readers : LockManager
unfolding new acquire_lock
two_readers =
    state_of (acquire_lock (state_of (acquire_lock new 1 page read_only)) 2 page read_only)

two_readers_listed : (page_ids two_readers 1 ≡ page ∷ []) × (page_ids two_readers 2 ≡ page ∷ [])
unfolding acquire_lock page_ids contains new page
two_readers_listed = (refl, refl)

abbrev granted : Outcome (Bool × LockManager) → Bool
granted (ok (b, m)) = b
granted _ = false

no_upgrade : granted (acquire_lock two_readers 1 page read_write) ≡ false
unfolding acquire_lock new contains page
no_upgrade = refl

acquire_lock-Inv_example :
    (b : Bool) × (n : LockManager) × (acquire_lock new 7 page read_write ≡ ok (b, n))
    × Inv n
    × Change (track new 7) 7 page read_write n
    × Granted n 7 page read_write b
    × (b ≡ false → n ≡ track new 7)
acquire_lock-Inv_example = acquire_lock-Inv new 7 page read_write new-Inv

acquire_lock_excluded_example : acquire_lock written 9 page read_only ≡ ok (false, track written 9)
acquire_lock_excluded_example =
    acquire_lock_excluded written 7 9 page read_only written-Holds (omega arith)

release_lock_cases_example :
    ((contains (page_ids written 7) page ≡ true)
      × ((n : LockManager) × (release_lock written 7 page ≡ (ok tt, n))
          × Removed written 7 page n
          × Inv n))
    ⊎ ((contains (page_ids written 7) page ≡ false)
        × ((e : CrustyError) × (release_lock written 7 page ≡ (err e, written))))
release_lock_cases_example = release_lock_cases written 7 page written-Inv

held : page_ids written 7 ≢ []
unfolding written page_ids
held e = cc

release_locks-Cleared_example :
    (n : LockManager) × (release_locks written 7 ≡ (ok tt, n)) × Cleared 7 written n
release_locks-Cleared_example = release_locks-Cleared 7 written written-Inv held

no_holder : (u : ℕ) → contains (holders new page) u ≡ true → u ≡ 7
unfolding holders new contains
no_holder u h = cc

acquire_lock-granted_example :
    (n : LockManager) × (acquire_lock new 7 page read_write ≡ ok (true, n))
acquire_lock-granted_example = acquire_lock-granted new 7 page read_write new-Inv no_holder
