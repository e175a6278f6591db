-- ===== src/Graph/Transaction.antt =====
-- `MemoryGraphStore.transaction`.
use writ_ai.Prelude.{true, false, ◌≡◌, arith}
use writ_ai.Exec.{Exec, ok}
use writ_ai.Graph.{Store, transaction}

module _ {A : Type 0} (body : Exec Store A) (s : Store) where
  abbrev inside : Store
  inside = record s { in_transaction = true }

  -- A block that returns keeps what the body wrote, with the flag cleared.
  pub transaction_commit :
      (a : A)
      → s.in_transaction ≡ false
      → (body inside).0 ≡ ok a
      → transaction body s ≡ (ok a, record (body inside).1 { in_transaction = false })
  unfolding transaction
  transaction_commit a outer done = ground arith
