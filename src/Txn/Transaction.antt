-- ===== src/Txn/Transaction.antt =====
-- The states of a transaction: txn_manager/src/transactions.rs.
use crustydb_labs_cs378_spri.Prelude.{
  ℕ, ◌≡◌, Bool, true, false, ◌||◌, not, arith, Outcome, ok, err, transaction_not_active,
  if◌then◌else◌,
}

pub data TxnState : Type 0 where
  active partially_committed committed failed aborted terminated : TxnState

pub record Transaction : Type 0 where
  pub id : ℕ
  pub state : TxnState

-- The derived `PartialEq`.
abbrev pub state_beq : TxnState → TxnState → Bool
state_beq active active = true
state_beq partially_committed partially_committed = true
state_beq committed committed = true
state_beq failed failed = true
state_beq aborted aborted = true
state_beq terminated terminated = true
state_beq _ _ = false

-- `new`, at an identifier drawn from the counter.
unfoldable pub begin : ℕ → Transaction
begin tid = record { id = tid; state = active }

unfoldable pub tid : Transaction → Outcome ℕ
tid t = if not (state_beq t.state active) then err transaction_not_active else ok t.id

-- The two tests are joined by `||`, as in the source.
unfoldable pub complete : Transaction → Outcome (Unit {0}) × Transaction
complete t =
    if not (state_beq t.state partially_committed) || not (state_beq t.state failed)
    then (ok tt, record t { state = terminated })
    else (ok tt, t)

unfoldable pub commit : Transaction → Outcome (Unit {0}) × Transaction
unfolding complete
commit t = complete (record t { state = partially_committed })

unfoldable pub abort : Transaction → Outcome (Unit {0}) × Transaction
unfolding complete
abort t = complete (record t { state = failed })

-- What a client does with a transaction.
pub data Step : Transaction → Transaction → Type 0 where
  commits : (t : Transaction) → Step t (commit t).1
  aborts : (t : Transaction) → Step t (abort t).1
  completes : (t : Transaction) → Step t (complete t).1

-- The guard of `complete` never fails: from every state it ends the transaction, without an error,
-- and keeps its identifier.
pub complete-terminated :
    (t : Transaction) → complete t ≡ (ok tt, record { id = t.id; state = terminated })
unfolding complete
complete-terminated t = ground arith

-- One step of any kind leaves a transaction that is terminated, has the same identifier, and no
-- longer gives it out.
pub Step-terminated :
    {t u : Transaction}
    → Step t u
    → (u.state ≡ terminated) × (u.id ≡ t.id) × (tid u ≡ err transaction_not_active)
unfolding commit abort complete tid
Step-terminated (commits t) = ground arith
Step-terminated (aborts t) = ground arith
Step-terminated (completes t) = ground arith
