-- ===== src/Modvalidate/Catalog/Duplicates.antt =====
-- `reportDuplicates` of catalog.go blames exactly the modules that share a value.
use mathlib.Core.List.{append_assoc, append-nil}
use kiban.Shared.{
  ◌≤◌, String, Bool, true, false, none, some, List, [], ◌∷◌, ◌++◌, map, ◌==◌, string_eq,
  if◌then◌else◌, flat_map, lookup, put, sort, sort-Mem, length, ◌≡◌, ◌↔◌, refl, sym, ap, ◌∙◌, subst,
  inl, inr, Memᴰ, map-Mem, mem_of_map, flat_map-Mem, mem_of_flat_map, mem-lookup, lookup-put,
  beq-cases, Bool-cases, Option-cases, arith,
}
use kiban.Modvalidate.Errors.{Rule, ValidationError}
use kiban.Modvalidate.Catalog.{
  Occurrence, Occurrences, owners_in, add_occ, add_all, report_value, report_duplicates,
}

abbrev error : String → Rule → ValidationError
error key rule = record { module_key = key; rule = rule }

-- The modules that claim a value, in the order of their claims.
abbrev pub owners_of : String → List Occurrence → List String
owners_of v [] = []
owners_of v (o ∷ os) = if o.value == v then o.module_key ∷ owners_of v os else owners_of v os

owners_in-put :
    (k v : String) (owners : List String) (m : Occurrences)
    → owners_in v (put k owners m) ≡ (if k == v then owners else owners_in v m)
owners_in-put k v owners m =
    ap (λ o. elim o [ none ↦ [] | some os ↦ os ]) (lookup-put k v owners m) ∙ by_test (k == v)
  where
    by_test :
        (b : Bool)
        → (elim (if b then some owners else lookup v m) [ none ↦ [] | some os ↦ os ])
          ≡ (if b then owners else owners_in v m)
    by_test true = refl
    by_test false = refl

add_occ_empty : (o : Occurrence) (m : Occurrences) → (o.value == "") ≡ true → add_occ o m ≡ m
unfolding add_occ
add_occ_empty o m h = rw h refl

add_occ_named :
    (o : Occurrence) (m : Occurrences)
    → (o.value == "") ≡ false
    → add_occ o m ≡ put o.value (owners_in o.value m ++ o.module_key ∷ []) m
unfolding add_occ
add_occ_named o m h = rw h refl

abbrev after_claim : String → Occurrence → List String → List String
after_claim v o owners = if o.value == v then owners ++ o.module_key ∷ [] else owners

owners_in-add :
    (v : String) (o : Occurrence) (m : Occurrences)
    → (v == "") ≡ false
    → owners_in v (add_occ o m) ≡ after_claim v o (owners_in v m)
owners_in-add v o m h = elim (Bool-cases (o.value == "")) [
  | inl e ↦
      ap (owners_in v) (add_occ_empty o m e)
      ∙ sym (ap (λ b. if b then owners_in v m ++ o.module_key ∷ [] else owners_in v m) (other e))
  | inr f ↦
      ap (owners_in v) (add_occ_named o m f)
      ∙ owners_in-put o.value v (owners_in o.value m ++ o.module_key ∷ []) m
      ∙ at_value
]
  where
    other : (o.value == "") ≡ true → (o.value == v) ≡ false
    other e = elim (beq-cases o.value v) [
      | inr f ↦ f
      | inl (p, t) ↦ cc (sym h ∙ ap (λ x. x == "") (sym p) ∙ e)
    ]

    at_value :
        (if o.value == v then owners_in o.value m ++ o.module_key ∷ [] else owners_in v m)
        ≡ after_claim v o (owners_in v m)
    at_value = elim (beq-cases o.value v) [
      | inr f ↦
          ap (λ b. if b then owners_in o.value m ++ o.module_key ∷ [] else owners_in v m) f
          ∙ sym (ap (λ b. if b then owners_in v m ++ o.module_key ∷ [] else owners_in v m) f)
      | inl (p, t) ↦
          ap (λ x. if o.value == v then owners_in x m ++ o.module_key ∷ [] else owners_in v m) p
    ]

claim_append :
    (b : Bool) (key : String) (owners later : List String)
    → (if b then owners ++ key ∷ [] else owners) ++ later
      ≡ owners ++ (if b then key ∷ later else later)
claim_append true key owners later = append_assoc owners (key ∷ []) later
claim_append false key owners later = refl

owners_in-add_all :
    (v : String) (os : List Occurrence) (m : Occurrences)
    → (v == "") ≡ false
    → owners_in v (add_all os m) ≡ owners_in v m ++ owners_of v os
unfolding add_all
owners_in-add_all v [] m h = sym (append-nil (owners_in v m))
owners_in-add_all v (o ∷ os) m h =
    owners_in-add_all v os (add_occ o m) h
    ∙ ap (λ x. x ++ owners_of v os) (owners_in-add v o m h)
    ∙ claim_append (o.value == v) o.module_key (owners_in v m) (owners_of v os)

-- The empty value has no owners.
add_all-unowned :
    (os : List Occurrence) (m : Occurrences)
    → owners_in "" m ≡ []
    → owners_in "" (add_all os m) ≡ []
unfolding add_all
add_all-unowned [] m h = h
add_all-unowned (o ∷ os) m h = add_all-unowned os (add_occ o m) (elim (Bool-cases (o.value == "")) [
  | inl e ↦ ap (owners_in "") (add_occ_empty o m e) ∙ h
  | inr f ↦
      ap (owners_in "") (add_occ_named o m f)
      ∙ owners_in-put o.value "" (owners_in o.value m ++ o.module_key ∷ []) m
      ∙ ap (λ b. if b then owners_in o.value m ++ o.module_key ∷ [] else owners_in "" m) f
      ∙ h
])

-- Several owners are all blamed, and nobody else.
report_value-Mem :
    (rule : Rule) (key : String) (owners : List String)
    → Memᴰ (error key rule) (report_value rule owners) ↔ (Memᴰ key owners × (2 ≤ length owners))
unfolding report_value
report_value-Mem rule key [] = (λ m. elim m [ ], λ h. elim h.0 [ ])
report_value-Mem rule key (a ∷ []) = (λ m. elim m [ ], λ h. absurd (omega (arith, h.1)))
report_value-Mem rule key (a ∷ b ∷ owners) = (
  λ m.
      (let (k, n, e) = mem_of_map (λ k. error k rule) (error key rule) (a ∷ b ∷ owners) m in
        (
          subst (λ x. Memᴰ x (a ∷ b ∷ owners)) (sym (ap (λ (x : ValidationError). x.module_key) e))
              n,
          omega arith,
        )),
  λ h. map-Mem (λ k. error k rule) key (a ∷ b ∷ owners) h.0,
)

owned :
    (v : String) (occs : Occurrences) (key : String)
    → Memᴰ key (owners_in v occs)
    → Memᴰ v (map (λ (o : String × List String). o.0) occs)
owned v occs key m = elim (Option-cases (lookup v occs)) [
  | inl e ↦ elim (subst (λ o. Memᴰ key (elim o [ none ↦ [] | some os ↦ os ])) e m) [ ]
  | inr (os, e) ↦ map-Mem (λ (o : String × List String). o.0) (v, os) occs (mem-lookup v occs e)
]

-- Whether a value is claimed by the module, and by another claim.
abbrev pub IsShared : List Occurrence → String → String → Type 0
IsShared os key v = ((v == "") ≡ false) × Memᴰ key (owners_of v os) × (2 ≤ length (owners_of v os))

-- The modules that are blamed for a duplicate are exactly those that claim a value, not empty,
-- which has at least two claims.
pub report_duplicates-Mem :
    (rule : Rule) (os : List Occurrence) (key : String)
    → Memᴰ (error key rule) (report_duplicates rule (add_all os []))
      ↔ ((v : String) × IsShared os key v)
unfolding report_duplicates lookup
report_duplicates-Mem rule os key = (blamed, blame)
  where
    blamed :
        Memᴰ (error key rule) (
          flat_map
            (λ v. report_value rule (owners_in v (add_all os [])))
            (sort (map (λ (o : String × List String). o.0) (add_all os []))))
        → (v : String) × IsShared os key v
    blamed m =
        (let (v, n, h) =
            mem_of_flat_map (λ v. report_value rule (owners_in v (add_all os []))) (error key rule)
              _ m in
          elim (beq-cases v "") [
            | inl (e, t) ↦
                elim ((report_value-Mem rule key _).0 (
                  subst (λ x. Memᴰ (error key rule) (report_value rule x))
                    (ap (λ x. owners_in x (add_all os [])) e ∙ add_all-unowned os [] refl) h)).0 [ ]
            | inr f ↦
                (let (k, two) = (report_value-Mem rule key _).0 (
                    subst (λ x. Memᴰ (error key rule) (report_value rule x))
                      (owners_in-add_all v os [] f) h) in
                  (v, (f, k, two)))
          ])

    blame :
        ((v : String) × IsShared os key v)
        → Memᴰ (error key rule) (
            flat_map
              (λ v. report_value rule (owners_in v (add_all os [])))
              (sort (map (λ (o : String × List String). o.0) (add_all os []))))
    blame (v, (f, k, two)) =
        (let same = owners_in-add_all v os [] f in
          flat_map-Mem (λ v. report_value rule (owners_in v (add_all os []))) v (error key rule) _
            (sort-Mem v _ (owned v (add_all os []) key (subst (Memᴰ key) (sym same) k)))
            (subst (λ x. Memᴰ (error key rule) (report_value rule x)) (sym same)
              ((report_value-Mem rule key (owners_of v os)).1 (k, two))))
