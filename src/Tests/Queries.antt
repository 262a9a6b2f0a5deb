-- ===== src/Tests/Queries.antt =====
-- Runs of the queries of src/db.
use lib_apg.Base.{◌≡◌, refl, false, List, [], ◌∷◌, some, none}
use lib_apg.CString.{str_eq}
use lib_apg.Package.{VerOp}
use lib_apg.Transaction.{PackageFile}
use lib_apg.Db.{db_get_orphans}
use lib_apg.Db.Orphans.{orphans, db_get_orphans-orphans}
use lib_apg.Tests.Transactions.{lib_name, app_name, lib_package, app_package, installed_package}

-- The application needs the library.
abbrev unasked : List PackageFile
unasked =
    record lib_package { installed_by_hand = false }
    ∷ record app_package { installed_by_hand = false }
    ∷ []

unasked_run : orphans unasked unasked ≡ app_name ∷ []
unfolding str_eq
unasked_run = refl

-- A package that depends on itself is not listed.
self_run :
    orphans
      (record (installed_package lib_name
          (record { name = lib_name; op = VerOp.any; version = none } ∷ [])) {
            installed_by_hand = false;
          }
        ∷ [])
      (record (installed_package lib_name
          (record { name = lib_name; op = VerOp.any; version = none } ∷ [])) {
            installed_by_hand = false;
          }
        ∷ [])
    ≡ []
unfolding str_eq
self_run = refl

db_get_orphans-orphans_example : (db_get_orphans (some unasked) []).0 ≡ orphans unasked unasked
db_get_orphans-orphans_example = db_get_orphans-orphans unasked
