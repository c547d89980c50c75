-- ===== src/Modvalidate/Sql/Listed.antt =====
-- `allRefs` of sqlscan.go lists every qualified reference.
use kiban.Shared.{
  ℕ, zero, suc, ◌≤◌, Bool, true, false, ◌&&◌, List, [], ◌∷◌, ◌==◌, if◌then◌else◌, length, ◌≡◌, ◌≢◌,
  refl, sym, subst, ◌⊎◌, inl, inr, Memᴰ, Bool-cases, beq-cases, arith,
}
use kiban.Modvalidate.Sql.Bytes.{bytes_eq}
use kiban.Modvalidate.Sql.Tokens.{TokKind, ident, string, number, punct, Token}
use kiban.Modvalidate.Sql.Refs.{
  has_ident_kind, has_punct_kind, is_ident, is_punct, drop, SchemaRef, dot_ident, second_text,
  is_qualified, refs_upto,
}

-- `r` stands among the tokens as `schema . name`, and is not the tail of a longer name; the flag says
-- whether a dot stands before the tokens.
abbrev pub Occurs : SchemaRef → Bool → List Token → Type 0
Occurs r dotted [] = ⊥
Occurs r dotted (t ∷ ts) =
    (dotted ≡ false)
      × (is_ident t ≡ true)
      × (dot_ident ts ≡ true)
      × (r ≡ record { schema = t.text; name = second_text ts })
    ⊎ Occurs r (is_punct b'.' t) ts

dot-not_ident : (t : Token) → is_punct b'.' t ≡ true → is_ident t ≡ true → ⊥
dot-not_ident t = by_kind t.kind
  where
    by_kind :
        (k : TokKind)
        → (has_punct_kind k && t.text == b'.' ∷ []) ≡ true
        → has_ident_kind k ≡ true
        → ⊥
    by_kind ident h e = cc h
    by_kind string h e = cc h
    by_kind number h e = cc h
    by_kind punct h e = cc e

and-left : (a b : Bool) → (a && b) ≡ true → a ≡ true
and-left true b h = refl
and-left false b h = h

-- A dot and a name hold no occurrence of their own.
Occurs-behind :
    (r : SchemaRef) (dotted : Bool) (d u : Token) (ts : List Token)
    → dot_ident (d ∷ u ∷ ts) ≡ true
    → Occurs r dotted (d ∷ u ∷ ts)
    → Occurs r (is_punct b'.' u) ts
Occurs-behind r dotted d u ts h (inl (n, i, e, s)) =
    absurd (dot-not_ident d (and-left (is_punct b'.' d) (is_ident u) h) i)
Occurs-behind r dotted d u ts h (inr (inl (n, i, e, s))) =
    cc (n, and-left (is_punct b'.' d) (is_ident u) h)
Occurs-behind r dotted d u ts h (inr (inr o)) = o

-- What a loop lists from a point on, where the next tokens are skipped.
refs_skip :
    (k : ℕ) (ts : List Token)
    → refs_upto (length ts) k ts ≡ refs_upto (length (drop k ts)) 0 (drop k ts)
unfolding refs_upto
refs_skip zero ts = refl
refs_skip (suc k) [] = refl
refs_skip (suc k) (t ∷ ts) = refs_skip k ts

Mem-if :
    (r q : SchemaRef) (b : Bool) (rest : List SchemaRef)
    → Memᴰ r rest
    → Memᴰ r (if b then q ∷ rest else rest)
Mem-if r q true rest m = Memᴰ.tail m
Mem-if r q false rest m = m

pub qualified : (r : SchemaRef) → r.schema ≢ [] → is_qualified r ≡ true
qualified r h = elim (beq-cases r.schema []) [ inl (e, t) ↦ absurd (h e) | inr f ↦ rw f ]

abbrev pub pair : Token → List Token → SchemaRef
pair t ts = record { schema = t.text; name = second_text ts }

abbrev pub steps : List Token → ℕ
steps ts = if dot_ident (drop 2 ts) then 4 else 2

upto_plain :
    (n : ℕ) (t : Token) (ts : List Token)
    → is_ident t ≡ false
    → refs_upto (suc n) 0 (t ∷ ts) ≡ refs_upto n 0 ts
unfolding refs_upto
upto_plain n t ts h = rw h

upto_unqualified :
    (n : ℕ) (t : Token) (ts : List Token)
    → is_ident t ≡ true
    → dot_ident ts ≡ false
    → refs_upto (suc n) 0 (t ∷ ts) ≡ refs_upto n 0 ts
unfolding refs_upto
upto_unqualified n t ts h k = rw (h, k)

upto_qualified :
    (n : ℕ) (t : Token) (ts : List Token)
    → is_ident t ≡ true
    → dot_ident ts ≡ true
    → refs_upto (suc n) 0 (t ∷ ts) ≡ (
        if is_qualified (pair t ts)
        then pair t ts ∷ refs_upto n (steps ts) ts
        else refs_upto n (steps ts) ts)
unfolding refs_upto
upto_qualified n t ts h k = rw (h, k)

-- The reference at the head of the tokens is listed.
head-Mem :
    (r : SchemaRef) (rest : List SchemaRef) (q : SchemaRef)
    → r.schema ≢ []
    → r ≡ q
    → Memᴰ r (if is_qualified q then q ∷ rest else rest)
head-Mem r rest q h e =
    subst (λ x. Memᴰ r (if is_qualified x then x ∷ rest else rest)) e
      (rw (qualified r h) (Memᴰ.head refl))

Occurs-drop :
    (r : SchemaRef) (dotted : Bool) (ts : List Token)
    → dot_ident ts ≡ true
    → Occurs r dotted ts
    → (later : Bool) × Occurs r later (drop 2 ts)
Occurs-drop r dotted [] h o = absurd o
Occurs-drop r dotted (d ∷ []) h o = cc h
Occurs-drop r dotted (d ∷ u ∷ ts) h o = (is_punct b'.' u, Occurs-behind r dotted d u ts h o)

drop-drop : (ts : List Token) → drop 4 ts ≡ drop 2 (drop 2 ts)
drop-drop [] = refl
drop-drop (a ∷ []) = refl
drop-drop (a ∷ b ∷ ts) = refl

pub length-drop : (k : ℕ) (ts : List Token) → length (drop k ts) ≤ length ts
length-drop zero ts = omega arith
length-drop (suc k) [] = omega arith
length-drop (suc k) (t ∷ ts) = omega (arith, length-drop k ts)

-- No occurrence is lost in the tokens that a reference takes.
pub Occurs-steps :
    (r : SchemaRef) (dotted : Bool) (ts : List Token)
    → dot_ident ts ≡ true
    → Occurs r dotted ts
    → (later : Bool) × Occurs r later (drop (steps ts) ts)
Occurs-steps r dotted ts h o =
    (let (b, p) = Occurs-drop r dotted ts h o in
      elim (Bool-cases (dot_ident (drop 2 ts))) [
        | inr f ↦ rw f (b, p)
        | inl e ↦ rw (e, drop-drop ts) (Occurs-drop r b (drop 2 ts) e p)
      ])

module _ (r : SchemaRef) (q : r.schema ≢ []) where
  listed :
      (n : ℕ) (dotted : Bool) (ts : List Token)
      → length ts ≤ n
      → Occurs r dotted ts
      → Memᴰ r (refs_upto (length ts) 0 ts)
  listed n dotted [] h o = absurd o
  listed zero dotted (t ∷ ts) h o = absurd (omega arith)
  listed (suc n) dotted (t ∷ ts) h (inl (b, i, e, s)) =
      subst (Memᴰ r) (sym (upto_qualified (length ts) t ts i e)) (head-Mem r _ (pair t ts) q s)
  listed (suc n) dotted (t ∷ ts) h (inr o) = elim (Bool-cases (is_ident t)) [
    | inr f ↦
        subst (Memᴰ r) (sym (upto_plain (length ts) t ts f))
          (listed n (is_punct b'.' t) ts (omega arith) o)
    | inl i ↦ elim (Bool-cases (dot_ident ts)) [
      | inr f ↦
          subst (Memᴰ r) (sym (upto_unqualified (length ts) t ts i f))
            (listed n (is_punct b'.' t) ts (omega arith) o)
      | inl e ↦ subst (Memᴰ r) (sym (upto_qualified (length ts) t ts i e)) (
          Mem-if r (pair t ts) _ _ (
            subst (Memᴰ r) (sym (refs_skip (steps ts) ts)) (
              let (b, p) = Occurs-steps r (is_punct b'.' t) ts e o in
              listed n b (drop (steps ts) ts) (omega (arith, length-drop (steps ts) ts)) p)))
    ]
  ]

  -- Every qualified reference among the tokens is listed.
  pub refs_upto-Mem :
      (dotted : Bool) (ts : List Token) → Occurs r dotted ts → Memᴰ r (refs_upto (length ts) 0 ts)
  refs_upto-Mem dotted ts o = listed (length ts) dotted ts (omega arith) o
