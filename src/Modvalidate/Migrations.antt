-- ===== src/Modvalidate/Migrations.antt =====
-- internal/modvalidate/migrations.go: the files of a migrations directory, and their ledger.
pub mod Ledger
use kiban.Shared.{
  String, Bool, true, false, not, ◌&&◌, Option, none, some, List, [], ◌∷◌, ◌++◌, map, ◌==◌,
  string_eq, if◌then◌else◌, flat_map, contains, lookup, put, sort,
}
use kiban.Modvalidate.Errors.{
  Rule, ValidationError, errf, migration_filename, migration_order, migration_checksum,
}
use kiban.Modvalidate.Artifacts.{MigrationFile}
use kiban.Modvalidate.Sql.Bytes.{Bytes, codes}
use kiban.Modvalidate.Sql.Clauses.{Outcome, problems, panics}
use kiban.Modvalidate.Sql.Scan.{scan_migration}

-- The number of a file name, the first group of `migrationFilenamePattern`, or `none`.
module _ (number_of : String → Option String) (key : String) where
  -- the loop over the files: their numbers in order, and the errors; `seen` is `seenNum`
  unfoldable pub number_files :
      List String → List MigrationFile → List ValidationError × List String
  number_files seen [] = ([], [])
  number_files seen (mf ∷ files) = elim (number_of mf.name) [
    | none ↦
        (let (errs, numbers) = number_files seen files in
          (errf key migration_filename ++ errs, numbers))
    | some num ↦
        (let (errs, numbers) = number_files (num ∷ seen) files in
          ((if contains num seen then errf key migration_order else []) ++ errs, num ∷ numbers))
  ]

  abbrev same_list : List String → List String → Bool
  same_list [] [] = true
  same_list [] (y ∷ ys) = false
  same_list (x ∷ xs) [] = false
  same_list (x ∷ xs) (y ∷ ys) = x == y && same_list xs ys

  -- the comparison with the sorted numbers, which stops at the first difference
  abbrev check_order : List String → List ValidationError
  check_order numbers = if same_list (sort numbers) numbers then [] else errf key migration_order

  -- the entry of a file in the ledger
  abbrev pub check_recorded : List (String × String) → MigrationFile → List ValidationError
  check_recorded ledger mf = elim (lookup mf.name ledger) [
    | none ↦ errf key migration_checksum
    | some shipped ↦ if shipped == mf.checksum then [] else errf key migration_checksum
  ]

  -- an entry of the ledger that has no file
  abbrev pub check_on_disk : List MigrationFile → String → List ValidationError
  check_on_disk files name =
      if contains name (map (λ (mf : MigrationFile). mf.name) files)
      then []
      else errf key migration_checksum

  -- the errors of the names and numbers, which come first
  abbrev pub check_numbers : List MigrationFile → List ValidationError
  check_numbers files = let (errs, numbers) = number_files [] files in errs ++ check_order numbers

  -- `validateMigrationLayout`, with the ledger that `loadChecksumLedger` reads
  unfoldable pub validate_migration_layout :
      Option (List (String × String)) → List MigrationFile → List ValidationError
  validate_migration_layout none files = check_numbers files ++ errf key migration_checksum
  validate_migration_layout (some ledger) files =
      check_numbers files
      ++ flat_map (check_recorded ledger) files
      ++ flat_map (check_on_disk files) (sort (map (λ (e : String × String). e.0) ledger))

  abbrev add_scan : List ValidationError → Outcome → Option (List ValidationError)
  add_scan errs (problems rules) =
      some (errs ++ map (λ rule. record { module_key = key; rule = rule }) rules)
  add_scan errs panics = none

  -- the scans of the files, one after the other; `none` for a panic
  unfoldable pub scan_files :
      List ValidationError → List MigrationFile → Option (List ValidationError)
  scan_files errs [] = some errs
  scan_files errs (mf ∷ files) =
      elim (add_scan errs (scan_migration (codes key) mf.checksum mf.contents)) [
        | none ↦ none
        | some more ↦ scan_files more files
      ]

  -- `validateMigrations`
  unfoldable pub validate_migrations :
      Option (List (String × String)) → List MigrationFile → Option (List ValidationError)
  validate_migrations ledger files = scan_files (validate_migration_layout ledger files) files

-- `WriteChecksumLedgerDir`: the ledger that is written for the files
unfoldable pub write_checksum_ledger : List MigrationFile → List (String × String)
write_checksum_ledger [] = []
write_checksum_ledger (mf ∷ files) = put mf.name mf.checksum (write_checksum_ledger files)
