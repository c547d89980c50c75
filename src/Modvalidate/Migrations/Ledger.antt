-- ===== src/Modvalidate/Migrations/Ledger.antt =====
-- The checksum ledger that migrations.go writes is the one that it accepts.
use mathlib.Core.List.{append-nil}
use kiban.Shared.{
  String, Bool, true, false, Option, none, some, List, [], ◌∷◌, ◌++◌, map, ◌==◌, string_eq,
  if◌then◌else◌, flat_map, contains, lookup, put, sort, mem_of_sort, ◌≡◌, ◌⊎◌, refl, sym, ap, ◌∙◌,
  inl, inr, Memᴰ, map-Mem, lookup-put, beq-cases, Bool-cases, beq_self,
}
use kiban.Modvalidate.Errors.{ValidationError, errf, migration_checksum}
use kiban.Modvalidate.Artifacts.{MigrationFile}
use kiban.Modvalidate.Migrations.{
  check_numbers, check_recorded, check_on_disk, validate_migration_layout, write_checksum_ledger,
}

abbrev pub names : List MigrationFile → List String
names files = map (λ (mf : MigrationFile). mf.name) files

-- The files of a directory have different names.
abbrev pub AreDistinct : List MigrationFile → Type 0
AreDistinct [] = Unit
AreDistinct (mf ∷ files) = (contains mf.name (names files) ≡ false) × AreDistinct files

contains-Mem : (a : String) (xs : List String) → Memᴰ a xs → contains a xs ≡ true
unfolding contains
contains-Mem a [] m = elim m [ ]
contains-Mem a (x ∷ xs) (Memᴰ.head e) = rw (← e, beq_self a) refl
contains-Mem a (x ∷ xs) (Memᴰ.tail m) = elim (Bool-cases (x == a)) [
  | inl t ↦ rw t refl
  | inr f ↦ rw f (contains-Mem a xs m)
]

flat_map-none :
    {A : Type 0} (f : A → List ValidationError) (xs : List A)
    → ((x : A) → Memᴰ x xs → f x ≡ [])
    → flat_map f xs ≡ []
flat_map-none f [] h = refl
flat_map-none f (x ∷ xs) h =
    ap (λ r. r ++ flat_map f xs) (h x (Memᴰ.head refl))
    ∙ flat_map-none f xs (λ y m. h y (Memᴰ.tail m))

-- A file's checksum is recorded under its name.
recorded :
    (mf : MigrationFile) (files : List MigrationFile)
    → AreDistinct files
    → Memᴰ mf files
    → lookup mf.name (write_checksum_ledger files) ≡ some mf.checksum
unfolding write_checksum_ledger
recorded mf [] d m = elim m [ ]
recorded mf (x ∷ files) d (Memᴰ.head e) =
    lookup-put x.name mf.name x.checksum (write_checksum_ledger files)
    ∙ ap (λ b. if b then some x.checksum else lookup mf.name (write_checksum_ledger files))
        (ap (λ (y : MigrationFile). x.name == y.name) e ∙ beq_self x.name)
    ∙ ap (λ (y : MigrationFile). some y.checksum) (sym e)
recorded mf (x ∷ files) d (Memᴰ.tail m) =
    lookup-put x.name mf.name x.checksum (write_checksum_ledger files)
    ∙ ap (λ b. if b then some x.checksum else lookup mf.name (write_checksum_ledger files)) other
    ∙ recorded mf files d.1 m
  where
    other : (x.name == mf.name) ≡ false
    other = elim (beq-cases x.name mf.name) [
      | inr f ↦ f
      | inl (e, t) ↦ cc (
          sym d.0
          ∙ ap (λ n. contains n (names files)) e
          ∙ contains-Mem mf.name (names files) (map-Mem (λ (y : MigrationFile). y.name) mf files m))
    ]

abbrev keys : List (String × String) → List String
keys m = map (λ (e : String × String). e.0) m

put-keys :
    (j k v : String) (m : List (String × String))
    → Memᴰ j (keys (put k v m))
    → (j ≡ k) ⊎ Memᴰ j (keys m)
unfolding put
put-keys j k v [] (Memᴰ.head e) = inl e
put-keys j k v [] (Memᴰ.tail m) = elim m [ ]
put-keys j k v ((i, w) ∷ m) h = by_test (i == k) h (put-keys j k v m)
  where
    by_test :
        (b : Bool)
        → Memᴰ j (keys (if b then (k, v) ∷ m else (i, w) ∷ put k v m))
        → (Memᴰ j (keys (put k v m)) → (j ≡ k) ⊎ Memᴰ j (keys m))
        → (j ≡ k) ⊎ Memᴰ j (keys ((i, w) ∷ m))
    by_test true (Memᴰ.head e) ih = inl e
    by_test true (Memᴰ.tail n) ih = inr (Memᴰ.tail n)
    by_test false (Memᴰ.head e) ih = inr (Memᴰ.head e)
    by_test false (Memᴰ.tail n) ih = elim (ih n) [
      | inl e ↦ inl e
      | inr later ↦ inr (Memᴰ.tail later)
    ]

-- The ledger names files only.
ledger_names :
    (j : String) (files : List MigrationFile)
    → Memᴰ j (keys (write_checksum_ledger files))
    → Memᴰ j (names files)
unfolding write_checksum_ledger
ledger_names j [] m = elim m [ ]
ledger_names j (mf ∷ files) m =
    elim (put-keys j mf.name mf.checksum (write_checksum_ledger files) m) [
      | inl e ↦ Memᴰ.head e
      | inr n ↦ Memᴰ.tail (ledger_names j files n)
    ]

-- Against the ledger that is written for the files themselves, whose names are distinct, the
-- validation of the migration layout leaves only the errors of names and numbers.
pub validate_migration_layout-write :
    (number_of : String → Option String) (key : String) (files : List MigrationFile)
    → AreDistinct files
    → validate_migration_layout number_of key (some (write_checksum_ledger files)) files
      ≡ check_numbers number_of key files
unfolding validate_migration_layout
validate_migration_layout-write number_of key files d =
    ap
      (λ r.
        (check_numbers number_of key files ++ r)
        ++ flat_map (check_on_disk number_of key files) (sort (keys (write_checksum_ledger files))))
      all_recorded
    ∙ ap (λ r. (check_numbers number_of key files ++ []) ++ r) all_there
    ∙ append-nil (check_numbers number_of key files ++ [])
    ∙ append-nil (check_numbers number_of key files)
  where
    all_recorded : flat_map (check_recorded number_of key (write_checksum_ledger files)) files ≡ []
    all_recorded =
        flat_map-none (check_recorded number_of key (write_checksum_ledger files)) files (λ mf m.
          ap
            (λ o. elim o [
              | none ↦ errf key migration_checksum
              | some shipped ↦ if shipped == mf.checksum then [] else errf key migration_checksum
            ])
            (recorded mf files d m)
          ∙ ap (λ b. if b then [] else errf key migration_checksum) (beq_self mf.checksum))

    all_there :
        flat_map (check_on_disk number_of key files) (sort (keys (write_checksum_ledger files)))
        ≡ []
    all_there =
        flat_map-none (check_on_disk number_of key files)
          (sort (keys (write_checksum_ledger files)))
          (λ j m.
            ap (λ b. if b then [] else errf key migration_checksum)
              (contains-Mem j (names files)
                (ledger_names j files (mem_of_sort j (keys (write_checksum_ledger files)) m))))
