-- ===== src/Txn/LockManager/Invariant.antt =====
-- What holds of every state of the lock manager.
use crustydb_labs_cs378_spri.Prelude.{
  ℕ, ◌≤◌, ◌≡◌, refl, sym, ap, ◌∙◌, ◌⊎◌, inl, inr, Bool-cases, if◌then◌else◌, ◌==◌, true, false,
  Option, none, some, List, [], ◌∷◌, ◌++◌, arith, nat_eq, length, contains, without, Distinct,
  Distinct-snoc, Distinct-without, contains-snoc, contains-without,
}
use crustydb_labs_cs378_spri.Common.Ids.{
  ValueId, value_id_eq, value_id_beq_iff, Permissions, read_only, read_write,
}
use crustydb_labs_cs378_spri.Txn.LockManager.{Lock, LockManager, new, page_ids, track}

-- The transactions that hold a lock on the page.
unfoldable pub holders : LockManager → ValueId → List ℕ
holders m pid = elim (m.pid_lock pid) [ some l ↦ l.txn | none ↦ [] ]

-- A lock has a holder, and a lock for writing has one only.
pub record IsSound (l : Lock) : Type 0 where
  pub occupied : 1 ≤ length l.txn
  pub exclusive : l.lock_type ≡ read_write → length l.txn ≡ 1

-- The two maps tell the same story, with nothing in it twice.
pub record Inv (m : LockManager) : Type 0 where
  pub linked :
      (tid : ℕ) (pid : ValueId) → contains (page_ids m tid) pid ≡ contains (holders m pid) tid
  pub pages_distinct : (tid : ℕ) → Distinct (page_ids m tid)
  pub holders_distinct : (pid : ValueId) → Distinct (holders m pid)
  pub sound : (pid : ValueId) (l : Lock) → m.pid_lock pid ≡ some l → IsSound l

pub new-Inv : Inv new
unfolding new page_ids holders contains
new-Inv = record {
  linked = λ tid pid. refl;
  pages_distinct = λ tid. tt;
  holders_distinct = λ pid. tt;
  sound = λ pid l e. cc;
}

pub page_ids-track : (m : LockManager) (t u : ℕ) → page_ids (track m t) u ≡ page_ids m u
unfolding page_ids track
page_ids-track m t u = ground (arith, nat_eq.beq_iff t u)

pub track-Inv : (m : LockManager) (t : ℕ) → Inv m → Inv (track m t)
unfolding holders track
track-Inv m t v = record {
  linked = λ u pid. rw (page_ids-track m t u) (v.linked u pid);
  pages_distinct = λ u. rw (page_ids-track m t u) (v.pages_distinct u);
  holders_distinct = v.holders_distinct;
  sound = v.sound;
}

-- `n` differs from `m` in no list of pages and in no list of holders.
pub record Kept (m n : LockManager) : Type 0 where
  pub pages : (u : ℕ) → page_ids n u ≡ page_ids m u
  pub held : (q : ValueId) → holders n q ≡ holders m q
  pub sound : (q : ValueId) (l : Lock) → n.pid_lock q ≡ some l → IsSound l

-- The lock of a page that a transaction joins: a new one of the kind it asks for, or the one that is
-- there, of the kind it has.
abbrev pub joined_lock : ValueId → ℕ → Permissions → Option Lock → Lock
joined_lock p t perm none = record { vid = p; txn = t ∷ []; lock_type = perm }
joined_lock p t perm (some l) = record {
  vid = l.vid;
  txn = l.txn ++ t ∷ [];
  lock_type = l.lock_type;
}

-- In `n` the transaction `t` is one more holder of the page `p`, and every other lock is the same. It
-- joins a lock that is there only to read, next to readers.
pub record Added (m : LockManager) (t : ℕ) (p : ValueId) (perm : Permissions) (n : LockManager)
    : Type 0 where
  pub fresh : contains (holders m p) t ≡ false
  pub here : n.pid_lock p ≡ some (joined_lock p t perm (m.pid_lock p))
  pub others : (q : ValueId) → (p == q) ≡ false → n.pid_lock q ≡ m.pid_lock q
  pub shared : (l : Lock) → m.pid_lock p ≡ some l → (l.lock_type ≡ read_only) × (perm ≡ read_only)
  pub pages : (u : ℕ) → page_ids n u ≡ (if t == u then page_ids m u ++ p ∷ [] else page_ids m u)
  pub held : (q : ValueId) → holders n q ≡ (if p == q then holders m q ++ t ∷ [] else holders m q)
  pub sound : (q : ValueId) (l : Lock) → n.pid_lock q ≡ some l → IsSound l

-- In `n` the sole holder `t` of the page `p` has a lock for writing, and every other lock is the same.
pub record Upgraded (m : LockManager) (t : ℕ) (p : ValueId) (n : LockManager) : Type 0 where
  pub lists : Kept m n
  pub here :
      (l : Lock) × (m.pid_lock p ≡ some l)
      × (l.txn ≡ t ∷ [])
      × (n.pid_lock p ≡ some (record { vid = l.vid; txn = t ∷ []; lock_type = read_write }))
  pub others : (q : ValueId) → (p == q) ≡ false → n.pid_lock q ≡ m.pid_lock q

-- In `n` the transaction `t` no longer holds the page `p`. Every lock that is left is of the kind it was.
pub record Removed (m : LockManager) (t : ℕ) (p : ValueId) (n : LockManager) : Type 0 where
  pub pages : (u : ℕ) → page_ids n u ≡ (if t == u then without (page_ids m u) p else page_ids m u)
  pub held : (q : ValueId) → holders n q ≡ (if p == q then without (holders m q) t else holders m q)
  pub others : (q : ValueId) → (p == q) ≡ false → n.pid_lock q ≡ m.pid_lock q
  pub here :
      (k : Lock)
      → n.pid_lock p ≡ some k
      → (l : Lock) × (m.pid_lock p ≡ some l)
        × (k ≡ record { vid = l.vid; txn = without l.txn t; lock_type = l.lock_type })
  pub sound : (q : ValueId) (l : Lock) → n.pid_lock q ≡ some l → IsSound l

pub Kept-Inv : {m n : LockManager} → Kept m n → Inv m → Inv n
Kept-Inv k v = record {
  linked = λ u q. rw (k.pages u, k.held q) (v.linked u q);
  pages_distinct = λ u. rw (k.pages u) (v.pages_distinct u);
  holders_distinct = λ q. rw (k.held q) (v.holders_distinct q);
  sound = k.sound;
}

pub Added-Inv :
    {m n : LockManager} {t : ℕ} {p : ValueId} {perm : Permissions}
    → Added m t p perm n
    → Inv m
    → Inv n
Added-Inv {m} {n} {t} {p} a v = record {
  linked = λ u q. rw (a.pages u, a.held q) (link u q (Bool-cases (t == u)) (Bool-cases (p == q)));
  pages_distinct = λ u. rw (a.pages u) (pages u (Bool-cases (t == u)));
  holders_distinct = λ q. rw (a.held q) (held q (Bool-cases (p == q)));
  sound = a.sound;
}
  where
    link :
        (u : ℕ) (q : ValueId)
        → ((t == u) ≡ true) ⊎ ((t == u) ≡ false)
        → ((p == q) ≡ true) ⊎ ((p == q) ≡ false)
        → contains (if t == u then page_ids m u ++ p ∷ [] else page_ids m u) q
          ≡ contains (if p == q then holders m q ++ t ∷ [] else holders m q) u
    link u q (inl d) (inl e) =
        rw (d, e, contains-snoc (page_ids m u) p q, contains-snoc (holders m q) t u, d, e) refl
    link u q (inl d) (inr e) = rw (d, e, contains-snoc (page_ids m u) p q, e) (v.linked u q)
    link u q (inr d) (inl e) = rw (d, e, contains-snoc (holders m q) t u, d) (v.linked u q)
    link u q (inr d) (inr e) = rw (d, e) (v.linked u q)

    pages :
        (u : ℕ)
        → ((t == u) ≡ true) ⊎ ((t == u) ≡ false)
        → Distinct (if t == u then page_ids m u ++ p ∷ [] else page_ids m u)
    pages u (inl d) = rw d (
        Distinct-snoc (page_ids m u) p
          (v.linked u p ∙ ap (contains (holders m p)) (sym ((nat_eq.beq_iff t u).0 d)) ∙ a.fresh)
          (v.pages_distinct u))
    pages u (inr d) = rw d (v.pages_distinct u)

    held :
        (q : ValueId)
        → ((p == q) ≡ true) ⊎ ((p == q) ≡ false)
        → Distinct (if p == q then holders m q ++ t ∷ [] else holders m q)
    held q (inl e) = rw e (
        Distinct-snoc (holders m q) t
          (ap (λ r. contains (holders m r) t) (sym ((value_id_beq_iff p q).0 e)) ∙ a.fresh)
          (v.holders_distinct q))
    held q (inr e) = rw e (v.holders_distinct q)

pub Removed-Inv : {m n : LockManager} {t : ℕ} {p : ValueId} → Removed m t p n → Inv m → Inv n
Removed-Inv {m} {n} {t} {p} r v = record {
  linked = λ u q. rw (r.pages u, r.held q) (link u q (Bool-cases (t == u)) (Bool-cases (p == q)));
  pages_distinct = λ u. rw (r.pages u) (pages u (Bool-cases (t == u)));
  holders_distinct = λ q. rw (r.held q) (held q (Bool-cases (p == q)));
  sound = r.sound;
}
  where
    link :
        (u : ℕ) (q : ValueId)
        → ((t == u) ≡ true) ⊎ ((t == u) ≡ false)
        → ((p == q) ≡ true) ⊎ ((p == q) ≡ false)
        → contains (if t == u then without (page_ids m u) p else page_ids m u) q
          ≡ contains (if p == q then without (holders m q) t else holders m q) u
    link u q (inl d) (inl e) =
        rw (d, e, contains-without (page_ids m u) p q, contains-without (holders m q) t u, d, e)
          refl
    link u q (inl d) (inr e) = rw (d, e, contains-without (page_ids m u) p q, e) (v.linked u q)
    link u q (inr d) (inl e) = rw (d, e, contains-without (holders m q) t u, d) (v.linked u q)
    link u q (inr d) (inr e) = rw (d, e) (v.linked u q)

    pages :
        (u : ℕ)
        → ((t == u) ≡ true) ⊎ ((t == u) ≡ false)
        → Distinct (if t == u then without (page_ids m u) p else page_ids m u)
    pages u (inl d) = rw d (Distinct-without (page_ids m u) p (v.pages_distinct u))
    pages u (inr d) = rw d (v.pages_distinct u)

    held :
        (q : ValueId)
        → ((p == q) ≡ true) ⊎ ((p == q) ≡ false)
        → Distinct (if p == q then without (holders m q) t else holders m q)
    held q (inl e) = rw e (Distinct-without (holders m q) t (v.holders_distinct q))
    held q (inr e) = rw e (v.holders_distinct q)
