-- ===== src/Service/Decisions/Batch.antt =====
-- What a batch answers (`BatchCheck` in internal/service/batchcheck.go).
use workspace.Base.{
  ℕ, ◌≡◌, Bool, true, false, Option, none, some, List, [], ◌∷◌, ◌⊎◌, Result, ok, err, Error,
}
use workspace.Authz.State.{Backstops}
use workspace.Service.Access.{Principal, Service}
use workspace.Service.Decisions.{check_permission, BatchCheckItem, BatchCheckResult, is_isolated}
use workspace.Store.State.{Store}

-- What an item's own Check says: a decision, or an error that concerns that item alone.
abbrev pub Says : Result Bool → BatchCheckResult → Type 0
Says o r =
    ((o ≡ ok r.allowed) × (r.error ≡ none))
    ⊎ ((e : Error) × (o ≡ err e)
        × (is_isolated e ≡ true)
        × (r.error ≡ some e)
        × (r.allowed ≡ false))

module _ (sv : Service) (now : ℕ) (st : Store) (p : Principal) (collector : Option Backstops) where
  abbrev answer : BatchCheckItem → Result Bool
  answer it = check_permission sv now st p collector it.on it.subject_user_id []

  abbrev pub AllSay : List BatchCheckItem → List BatchCheckResult → Type 0
  AllSay [] [] = Unit
  AllSay (it ∷ its) (r ∷ rs) =
      Says (check_permission sv now st p collector it.on it.subject_user_id []) r × AllSay its rs
  AllSay _ _ = ⊥
