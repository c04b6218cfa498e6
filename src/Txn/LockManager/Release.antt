-- ===== src/Txn/LockManager/Release.antt =====
-- What `release_lock` and `release_locks` do to a state.
use crustydb_labs_cs378_spri.Prelude.{
  ℕ, ◌≡◌, refl, sym, ap, ◌∙◌, ◌⊎◌, inl, inr, ◌≢◌, Bool-cases, Option-cases, if◌then◌else◌, ◌==◌,
  true, false, Option, none, some, List, [], ◌∷◌, arith, nat_eq, beq_refl, length, contains,
  Distinct, ◌+◌, without, without_absent, without_idem, ok, err, CrustyError, crusty_error, update,
}
use crustydb_labs_cs378_spri.Common.Ids.{ValueId, value_id_eq, value_id_beq_iff}
use crustydb_labs_cs378_spri.Txn.LockManager.{
  Lock, LockManager, page_ids, release_lock, release_pages, release_locks, release_nonempty,
  drop_holder,
}
use crustydb_labs_cs378_spri.Txn.LockManager.Invariant.{holders, IsSound, Inv, Removed, Removed-Inv}
use crustydb_labs_cs378_spri.Txn.LockManager.Acquire.{set_lock-IsSound}

-- The sole holder of a lock.
without_sole : (xs : List ℕ) (t : ℕ) → length xs ≡ 1 → contains xs t ≡ true → without xs t ≡ []
unfolding contains without
without_sole [] t h c = refl
without_sole (x ∷ []) t h c = ground arith
without_sole (x ∷ y ∷ xs) t h c = absurd (omega arith)

-- Of several holders, none named twice, one stays.
length-without :
    (xs : List ℕ) (t : ℕ)
    → Distinct xs
    → contains xs t ≡ true
    → length (without xs t) + 1 ≡ length xs
unfolding contains without
length-without [] t d c = cc
length-without (x ∷ xs) t d c =
    ground (arith, length-without xs t d.1, without_absent xs t, nat_eq.beq_iff x t)

module _ (m : LockManager) (t : ℕ) (p : ValueId) (v : Inv m) where
  drop_holder-IsSound :
      (l : Lock)
      → m.pid_lock p ≡ some l
      → contains l.txn t ≡ true
      → (q : ValueId) (k : Lock) → (drop_holder m t p l).pid_lock q ≡ some k
      → IsSound k
  unfolding drop_holder holders
  drop_holder-IsSound l e c q k f = elim (Bool-cases (length l.txn == 1)) [
    | inl sole ↦ v.sound q k (ground (arith, value_id_beq_iff p q))
    | inr several ↦
        set_lock-IsSound m p (record l { txn = without l.txn t }) v.sound
          (record {
            occupied = ground (arith, length-without l.txn t distinct c);
            exclusive = λ w. ground (arith, s.exclusive w);
          })
          q k (rw several at f)
  ]
    where
      s : IsSound l
      s = v.sound p l e

      distinct : Distinct l.txn
      distinct = rw (e, holders) at (v.holders_distinct p)

  drop_holder-holders :
      (l : Lock)
      → m.pid_lock p ≡ some l
      → contains l.txn t ≡ true
      → (q : ValueId)
      → holders (drop_holder m t p l) q ≡ (if p == q then without (holders m q) t else holders m q)
  unfolding drop_holder holders
  drop_holder-holders l e c q = ground (arith, without_sole l.txn t, value_id_beq_iff p q)

  drop_holder-others :
      (l : Lock)
      → (q : ValueId) → (p == q) ≡ false
      → (drop_holder m t p l).pid_lock q ≡ m.pid_lock q
  unfolding drop_holder
  drop_holder-others l q d = elim (Bool-cases (length l.txn == 1)) [
    | inl sole ↦ rw (sole, d) refl
    | inr several ↦ rw (several, d) refl
  ]

  -- A lock that is left keeps its kind.
  drop_holder-here :
      (l : Lock)
      → (k : Lock) → (drop_holder m t p l).pid_lock p ≡ some k
      → k ≡ record { vid = l.vid; txn = without l.txn t; lock_type = l.lock_type }
  unfolding drop_holder
  drop_holder-here l k g = elim (Bool-cases (length l.txn == 1)) [
    | inl sole ↦ (let gone : none ≡ some k = rw (sole, beq_refl p) at g in cc)
    | inr several ↦
        (let left : some (record l { txn = without l.txn t }) ≡ some k =
            rw (several, beq_refl p) at g in
          ground arith)
  ]

  dropped : List ValueId → Lock → LockManager
  dropped ps l = record (drop_holder m t p l) { txn_locks = update m.txn_locks t (without ps p) }

  linked_here : (l : Lock) → m.pid_lock p ≡ some l → contains (page_ids m t) p ≡ contains l.txn t
  unfolding holders
  linked_here l f = v.linked t p ∙ rw (f, holders)

  dropped-Removed :
      (ps : List ValueId) (l : Lock)
      → m.txn_locks t ≡ some ps
      → m.pid_lock p ≡ some l
      → contains l.txn t ≡ true
      → Removed m t p (dropped ps l)
  unfolding dropped page_ids holders
  dropped-Removed ps l e f c = record {
    pages = λ u. ground (arith, nat_eq.beq_iff t u);
    held = drop_holder-holders l f c;
    others = drop_holder-others l;
    here = λ k g. (l, f, drop_holder-here l k g);
    sound = drop_holder-IsSound l f c;
  }

  -- A lock that is held is released.
  release_lock-Removed :
      contains (page_ids m t) p ≡ true
      → (n : LockManager) × (release_lock m t p ≡ (ok tt, n)) × Removed m t p n
  unfolding release_lock page_ids holders contains dropped
  release_lock-Removed held = elim (Option-cases (m.txn_locks t)) [
    | inl e ↦ absurd (ground arith)
    | inr (ps, e) ↦ elim (Option-cases (m.pid_lock p)) [
      | inl f ↦ absurd (ground (arith, v.linked t p))
      | inr (l, f) ↦
          let c : contains l.txn t ≡ true = sym (linked_here l f) ∙ held in
          (dropped ps l, rw (e, release_lock, f, c), dropped-Removed ps l e f c)
    ]
  ]

  -- In a state that satisfies the invariant, `release_lock` succeeds exactly on a page that the transaction
  -- holds: then the transaction is out of the holders of this page and the page out of its list, the lock,
  -- if others hold it, is of the kind it was, every other list and lock is the same, and the invariant
  -- holds again. Else the call returns an error and changes nothing.
  pub release_lock_cases :
      ((contains (page_ids m t) p ≡ true)
        × ((n : LockManager) × (release_lock m t p ≡ (ok tt, n)) × Removed m t p n × Inv n))
      ⊎ ((contains (page_ids m t) p ≡ false)
          × ((e : CrustyError) × (release_lock m t p ≡ (err e, m))))
  unfolding release_lock
  release_lock_cases = elim (Bool-cases (contains (page_ids m t) p)) [
    | inl held ↦ let (n, e, r) = release_lock-Removed held in inl (held, (n, e, r, Removed-Inv r v))
    | inr free ↦ inr (free, refused (m.txn_locks t) (m.pid_lock p) refl refl free)
  ]
    where
      refused :
          (o : Option (List ValueId)) (k : Option Lock)
          → m.txn_locks t ≡ o
          → m.pid_lock p ≡ k
          → contains (page_ids m t) p ≡ false
          → (e : CrustyError) × (release_lock m t p ≡ (err e, m))
      refused none k a b free =
          (crusty_error "Releasing lock from unknown TXN", rw (a, release_lock))
      refused (some ps) none a b free =
          (crusty_error "No locks on ValueId", rw (a, release_lock, b))
      refused (some ps) (some l) a b free = (
        crusty_error "TXN does not hold lock",
        rw (a, release_lock, b, sym (linked_here l b) ∙ free),
      )

module _ (t : ℕ) where
  -- The state after all the pages of the transaction are released.
  pub record Cleared (m n : LockManager) : Type 0 where
    pub inv : Inv n
    pub gone : page_ids n t ≡ []
    pub others : (u : ℕ) → (t == u) ≡ false → page_ids n u ≡ page_ids m u
    pub held : (q : ValueId) → holders n q ≡ without (holders m q) t

  Cleared-Removed :
      {m k n : LockManager} {p : ValueId} → Removed m t p k → Cleared k n → Cleared m n
  Cleared-Removed {m} {k} {n} {p} r c = record {
    inv = c.inv;
    gone = c.gone;
    others = λ u d. c.others u d ∙ r.pages u ∙ (rw d);
    held = λ q. c.held q ∙ ap (λ xs. without xs t) (r.held q) ∙ twice q (Bool-cases (p == q));
  }
    where
      twice :
          (q : ValueId)
          → ((p == q) ≡ true) ⊎ ((p == q) ≡ false)
          → without (if p == q then without (holders m q) t else holders m q) t
            ≡ without (holders m q) t
      twice q (inl d) = rw d (without_idem (holders m q) t)
      twice q (inr d) = rw d

  head_held : (p : ValueId) (ps : List ValueId) → contains (p ∷ ps) p ≡ true
  unfolding contains
  head_held p ps = rw (beq_refl p)

  tail_left :
      {m : LockManager} (p : ValueId) (ps : List ValueId)
      → page_ids m t ≡ p ∷ ps
      → Inv m
      → (if t == t then without (page_ids m t) p else page_ids m t) ≡ ps
  unfolding without
  tail_left {m} p ps e v =
      rw (beq_refl t, e, beq_refl p) (without_absent ps p (rw e at (v.pages_distinct t)).0)

  release_pages-cons :
      (m : LockManager) {k : LockManager} (p : ValueId) (ps : List ValueId)
      → release_lock m t p ≡ (ok tt, k)
      → release_pages m t (p ∷ ps) ≡ release_pages k t ps
  unfolding release_pages
  release_pages-cons m p ps a = rw (a, release_pages) (ap (λ r. release_pages r.1 t ps) a)

  release_pages-Cleared :
      (m : LockManager) (ps : List ValueId)
      → Inv m
      → page_ids m t ≡ ps
      → (n : LockManager) × (release_pages m t ps ≡ (ok tt, n)) × Cleared m n
  unfolding release_pages contains without
  release_pages-Cleared m [] v e = (
    m,
    refl,
    record {
      inv = v;
      gone = e;
      others = λ u d. refl;
      held = λ q. sym (without_absent (holders m q) t (sym (v.linked t q) ∙ rw e));
    },
  )
  release_pages-Cleared m (p ∷ ps) v e =
      let (k, a, r) = release_lock-Removed m t p v (rw e (head_held p ps)) in
      let (n, b, c) =
        release_pages-Cleared k ps (Removed-Inv r v) (r.pages t ∙ tail_left p ps e v) in
      (n, release_pages-cons m p ps a ∙ b, Cleared-Removed r c)

  -- A transaction that holds pages gets rid of all of them at once, in a state that satisfies the
  -- invariant: the call succeeds, no page is left in the list of the transaction, every other list
  -- is as it was, and of the holders of every page exactly this transaction is gone.
  pub release_locks-Cleared :
      (m : LockManager)
      → Inv m
      → page_ids m t ≢ []
      → (n : LockManager) × (release_locks m t ≡ (ok tt, n)) × Cleared m n
  unfolding release_locks
  release_locks-Cleared m v some_held = go (page_ids m t) refl
    where
      go :
          (ps : List ValueId)
          → page_ids m t ≡ ps
          → (n : LockManager) × (release_nonempty m t ps ≡ (ok tt, n)) × Cleared m n
      go [] e = absurd (some_held e)
      go (p ∷ ps) e = release_pages-Cleared m (p ∷ ps) v e
