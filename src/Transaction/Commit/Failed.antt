-- ===== src/Transaction/Commit/Failed.antt =====
-- `trans_commit` of src/transaction/commit.c, when one of its steps fails.
use lib_apg.Base.{◌≡◌, false, Allocs}
use lib_apg.Transaction.{TransError, Trans}
use lib_apg.Transaction.Commit.{World}
use lib_apg.Transaction.Commit.Run.{is_ok}
use lib_apg.Transaction.Commit.Laws.{SameDb, IsDatabase}
use lib_apg.Transaction.Commit.Restored.{IsPlan}

module _ {W K B C : Type 0} (os : World W K B C) (laws : IsDatabase os) (t : Trans) (w0 : W)
    (plan : IsPlan os t w0) where
  abbrev Kept : TransError × Trans × W × Allocs → Type 0
  Kept r = is_ok r.0 ≡ false → SameDb os r.2 w0
