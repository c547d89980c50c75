-- ===== src/Engine/Batch.antt =====
-- internal/authz/engine/batch.go: `BatchCan`. Workers share one memo and keep their own visited
-- nodes and cuts; which worker takes which item is any assignment. A check is one step here.
use kiban.Shared.{
  ℕ, ◌≡◌, refl, ◌∙◌, Bool, true, false, List, [], ◌∷◌, if◌then◌else◌, ◌==◌, nat_eq, beq-cases, inl,
  inr,
}
use kiban.Engine.Eval.{
  Node, Env, State, Memo, sync_map_memo, Answer, answer, check, enough_fuel, check_in_company,
}
use kiban.Engine.Grants.{Holds, Grants}
use kiban.Engine.Decides.{Says, MemoIsRight, Decides}
use kiban.Engine.Company.{Compatible, compatible}
use kiban.Engine.Check.{check-ChecksRight, no_memo, check_in_company-Says}

-- The fields of a worker's `evalCtx` that it does not share.
pub record Worker : Type 0 where
  pub visiting : List Node
  pub cuts : ℕ

pub record Pool : Type 0 where
  pub memo : Memo
  pub workers : ℕ → Worker

-- The `evalCtx` of worker `w`.
abbrev pub view : Pool → ℕ → State
view p w = record {
  memo_kind = sync_map_memo;
  memo = p.memo;
  visiting = (p.workers w).visiting;
  cuts = (p.workers w).cuts;
}

-- One item taken off the channel by worker `w`.
unfoldable pub work : Env → ℕ → Node → Pool → Answer × Pool
work en w n p =
    let (a, s) = check en enough_fuel n 0 (view p w) in
    let own' : Worker = record { visiting = s.visiting; cuts = s.cuts } in
    (a, record { memo = s.memo; workers = λ v. if v == w then own' else p.workers v })

-- The items in the order of the channel, each with the worker that takes it; a result stands at its
-- item's own index.
unfoldable pub work_all : Env → List (ℕ × Node) → Pool → List (Node × Answer)
work_all en [] p = []
work_all en ((w, n) ∷ jobs) p = let (a, p') = work en w n p in (n, a) ∷ work_all en jobs p'

-- A batch is bound to no company.
abbrev pub plain : Env → Env
plain en = record en { company_id = "" }

unfoldable pub batch_can : Env → List (ℕ × Node) → List (Node × Answer)
batch_can en jobs =
    work_all (plain en) jobs
      (record { memo = []; workers = λ v. record { visiting = []; cuts = 0 } })

-- Between two items: the memo is right, and no worker has a node in progress.
record IsIdle (en : Env) (p : Pool) : Type 0 where
  memo_right : MemoIsRight en p.memo
  at_rest : (w : ℕ) → (p.workers w).visiting ≡ []

abbrev pub IsRight : Env → Node × Answer → Type 0
IsRight en (n, a) = (b : Bool) → a ≡ answer b → Says b (Grants en n)

module _ (en : Env) (w : ℕ) (n : Node) (p : Pool) (idle : IsIdle en p) where
  work-Decides :
      Decides en (view p w) (Grants en n) (Holds en [] n) (check en enough_fuel n 0 (view p w))
  work-Decides = check-ChecksRight en enough_fuel [] n 0 (view p w) (idle.at_rest w) idle.memo_right

  work-IsIdle : IsIdle en (work en w n p).1
  unfolding work
  work-IsIdle = record {
    memo_right = work-Decides.memo_right;
    at_rest = λ v. elim (beq-cases v w) [
      | inl (_, t) ↦ rw t (work-Decides.visiting_kept ∙ idle.at_rest w)
      | inr f ↦ rw f (idle.at_rest v)
    ];
  }

  work-IsRight : IsRight en (n, (work en w n p).0)
  unfolding work
  work-IsRight true e = work-Decides.sound e
  work-IsRight false e = work-Decides.complete e

-- The results stand in the order of the items, and each is right.
abbrev pub AllRight : Env → List (ℕ × Node) → List (Node × Answer) → Type 0
AllRight en [] [] = Unit
AllRight en ((w, n) ∷ jobs) ((m, a) ∷ rs) = (m ≡ n) × IsRight en (n, a) × AllRight en jobs rs
AllRight en _ _ = ⊥

work_all-AllRight :
    (en : Env) (jobs : List (ℕ × Node)) (p : Pool)
    → IsIdle en p
    → AllRight en jobs (work_all en jobs p)
unfolding work_all
work_all-AllRight en [] p i = tt
work_all-AllRight en ((w, n) ∷ jobs) p i =
    (refl, work-IsRight en w n p i, work_all-AllRight en jobs _ (work-IsIdle en w n p i))

start-IsIdle :
    (en : Env) → IsIdle en (record { memo = []; workers = λ v. record { visiting = []; cuts = 0 } })
start-IsIdle en = record { memo_right = no_memo en; at_rest = λ w. refl }

batch_can-AllRight :
    (en : Env) (jobs : List (ℕ × Node)) → AllRight (plain en) jobs (batch_can en jobs)
unfolding batch_can
batch_can-AllRight en jobs = work_all-AllRight (plain en) jobs _ (start-IsIdle (plain en))

-- Each result is its item's, and compatible with the one of `Check` for the item.
abbrev pub AllAgree : Env → List (ℕ × Node) → List (Node × Answer) → Type 0
AllAgree en [] [] = Unit
AllAgree en ((w, n) ∷ jobs) ((m, a) ∷ rs) =
    (m ≡ n) × Compatible a (check_in_company en n) × AllAgree en jobs rs
AllAgree en _ _ = ⊥

agree_of_right :
    (en : Env) (jobs : List (ℕ × Node)) (rs : List (Node × Answer))
    → AllRight en jobs rs
    → AllAgree en jobs rs
agree_of_right en [] [] h = tt
agree_of_right en [] (r ∷ rs) h = h
agree_of_right en ((w, n) ∷ jobs) [] h = h
agree_of_right en ((w, n) ∷ jobs) ((m, a) ∷ rs) (e, right, hs) = (
  e,
  compatible a _ right (check_in_company-Says en n) (λ g. g) (λ g. g),
  agree_of_right en jobs rs hs,
)

-- Under any assignment of the items to workers, a batch returns one result for each item, in
-- their order, and with the shared memo each answer is the one that a check of its own gives,
-- wherever both answer.
pub batch_can-AllAgree :
    (en : Env) (jobs : List (ℕ × Node)) → AllAgree (plain en) jobs (batch_can en jobs)
batch_can-AllAgree en jobs = agree_of_right (plain en) jobs _ (batch_can-AllRight en jobs)
