-- ===== src/Service/Rules.antt =====
-- What an operation leaves behind, for each answer: the rules of its monad.
use workspace.Base.{
  ℕ, String, ◌≡◌, refl, ap, ◌∙◌, subst, ok-injective, Bool, true, false, Option, none, some, Result,
  ok, err, Error, if◌then◌else◌, lookup,
}
use workspace.Base.Tables.{shard}
use workspace.Authz.State.{Action, pure, raise, lift, ◌>>=◌}
use workspace.Service.Types.{Workspace}
use workspace.Service.Access.{
  Principal, Service, allowed, require_workspace, find_row, is_not_found,
}
use workspace.Store.Keys.{scope}
use workspace.Store.State.{Store, Op}
use workspace.Store.Workspaces.{found, get_workspace}

-- `Q` of a value and its store, and `P` of the store that an error leaves
abbrev pub Post : {S A : Type 0} → (S → Type 0) → (A → S → Type 0) → Result A × S → Type 0
Post P Q (ok a, st) = Q a st
Post P Q (err e, st) = P st

abbrev pub Keeps : {S A : Type 0} → (S → Type 0) → Result A × S → Type 0
Keeps P o = P o.1

pub if-Keeps :
    {S A : Type 0} (P : S → Type 0) (b : Bool) (f g : Action S A) (st : S)
    → (b ≡ true → Keeps P (f st))
    → (b ≡ false → Keeps P (g st))
    → Keeps P (if◌then◌else◌ {A = Action S A} b f g st)
if-Keeps P true f g st h k = h refl
if-Keeps P false f g st h k = k refl

pub Post-Keeps :
    {S A : Type 0} (P : S → Type 0) (Q : A → S → Type 0) (o : Result A × S)
    → Post P Q o
    → ((a : A) (st : S) → Q a st → P st)
    → Keeps P o
Post-Keeps P Q (ok a, st) h k = k a st h
Post-Keeps P Q (err e, st) h k = h

pub Keeps-Post :
    {S A : Type 0} (P : S → Type 0) (o : Result A × S) → Keeps P o → Post P (λ _ st. P st) o
Keeps-Post P (ok a, st) h = h
Keeps-Post P (err e, st) h = h

-- `_, err := m; return b`
pub pure-Keeps :
    {S A B : Type 0} (P : S → Type 0) (m : Action S A) (b : B) (st : S)
    → Keeps P (m st)
    → Keeps P ((m >>= λ _. pure b) st)
pure-Keeps {S} {A} {B} P m b st h = by_result (m st) h
  where
    by_result :
        (o : Result A × S)
        → Keeps P o
        → Keeps P (elim o.0 as (λ _. Result B × S) [ ok a ↦ (ok b, o.1) | err e ↦ raise e o.1 ])
    by_result (ok a, st') k = k
    by_result (err e, st') k = k

-- two parts that succeed one after the other
pub then-ok :
    {S A B : Type 0} (m : Action S A) (f : A → Action S B) {st st' st'' : S} {a : A} {b : B}
    → m st ≡ (ok a, st')
    → f a st' ≡ (ok b, st'')
    → (m >>= f) st ≡ (ok b, st'')
then-ok m f {st} first second = ap (λ o. ((λ _. o) >>= f) st) first ∙ second

pub find_row-found : {A : Type 0} (o : Option A) (st : Store) → find_row (found o) st ≡ (ok o, st)
unfolding find_row is_not_found
find_row-found none st = refl
find_row-found (some a) st = refl

module _ {S A B : Type 0} (P : S → Type 0) where
  -- a bind whose first part is known
  pub bind-Keeps :
      (Q : A → S → Type 0) (m : Action S A) (f : A → Action S B) (st : S)
      → Post P Q (m st)
      → ((a : A) (st' : S) → Q a st' → Keeps P (f a st'))
      → Keeps P ((m >>= f) st)
  bind-Keeps Q m f st h k = by_result (m st) h
    where
      by_result :
          (o : Result A × S)
          → Post P Q o
          → Keeps P (elim o.0 as (λ _. Result B × S) [ ok a ↦ f a o.1 | err e ↦ raise e o.1 ])
      by_result (ok a, st') h = k a st' h
      by_result (err e, st') h = h

  pub lift-Keeps :
      (r : Result A) (f : A → Action S B) (st : S)
      → P st
      → ((a : A) → r ≡ ok a → Keeps P (f a st))
      → Keeps P ((lift r >>= f) st)
  lift-Keeps (ok a) f st h k = k a refl
  lift-Keeps (err e) f st h k = h

module _ {A B : Type 0} (P : Store → Type 0) where
  pub found-Keeps :
      (o : Option A) (f : A → Op B) (st : Store)
      → P st
      → ((a : A) → o ≡ some a → Keeps P (f a st))
      → Keeps P ((found o >>= f) st)
  found-Keeps none f st h k = h
  found-Keeps (some a) f st h k = k a refl

  pub find_row-Keeps :
      (o : Option A) (f : Option A → Op B) (st : Store)
      → ((x : Option A) → o ≡ x → Keeps P (f x st))
      → Keeps P ((find_row (found o) >>= f) st)
  unfolding find_row is_not_found
  find_row-Keeps none f st k = k none refl
  find_row-Keeps (some a) f st k = k (some a) refl

module _ {B : Type 0} (P : Store → Type 0) (sv : Service) (now : ℕ) (p : Principal) where
  pub allowed-Keeps :
      (workspace rel : String) (f : Bool → Op B) (st : Store)
      → P st
      → ((b : Bool) → Keeps P (f b st))
      → Keeps P ((allowed sv now p workspace rel >>= f) st)
  unfolding allowed
  allowed-Keeps workspace rel f st h k = lift-Keeps P _ f st h (λ b _. k b)

  pub require-Keeps :
      (workspace rel : String) (f : Workspace → Op B) (st : Store)
      → P st
      → ((w : Workspace)
          → lookup workspace (shard (scope p.project_id p.tenant_id) st.workspaces) ≡ some w
          → Keeps P (f w st))
      → Keeps P ((require_workspace sv now p workspace rel >>= f) st)
  unfolding require_workspace get_workspace allowed
  require-Keeps workspace rel f st h k =
      by_row (lookup workspace (shard (scope p.project_id p.tenant_id) st.workspaces)) k
    where
      by_grant :
          (w : Workspace) (r : Result Bool)
          → Keeps P (f w st)
          → Keeps P (
              ((lift r >>= λ (granted : Bool).
              if granted then pure w else raise Error.permission_denied)
                  >>= f)
                st)
      by_grant w (ok true) k = k
      by_grant w (ok false) k = h
      by_grant w (err e) k = h

      by_row :
          (o : Option Workspace)
          → ((w : Workspace) → o ≡ some w → Keeps P (f w st))
          → Keeps P (
              ((found o >>= λ w.
              (allowed sv now p workspace rel >>= λ (granted : Bool).
              if granted then pure w else raise Error.permission_denied))
                  >>= f)
                st)
      by_row none k = h
      by_row (some w) k = by_grant w (allowed sv now p workspace rel st).0 (k w refl)

-- what a value that is answered comes with; an error says nothing
abbrev pub Answers : {S A : Type 0} → (A → S → Type 0) → Result A × S → Type 0
Answers Q (ok a, st) = Q a st
Answers Q (err e, st) = Unit

module _ {S B : Type 0} (Q : B → S → Type 0) where
  pub if-Answers :
      (b : Bool) (f g : Action S B) (st : S)
      → (b ≡ true → Answers Q (f st))
      → (b ≡ false → Answers Q (g st))
      → Answers Q (if◌then◌else◌ {A = Action S B} b f g st)
  if-Answers true f g st h k = h refl
  if-Answers false f g st h k = k refl

  pub answered : (o : Result B × S) (b : B) → Answers Q o → o.0 ≡ ok b → Q b o.1
  answered (ok a, st) b h e = subst (λ x. Q x st) (ok-injective e) h
  answered (err x, st) b h e = absurd (cc)

module _ {S A B : Type 0} (Q : B → S → Type 0) where
  pub lift-Answers :
      (r : Result A) (f : A → Action S B) (st : S)
      → ((a : A) → r ≡ ok a → Answers Q (f a st))
      → Answers Q ((lift r >>= f) st)
  lift-Answers (ok a) f st k = k a refl
  lift-Answers (err e) f st k = tt

  pub bind-Answers :
      (R : A → S → Type 0) (m : Action S A) (f : A → Action S B) (st : S)
      → Answers R (m st)
      → ((a : A) (st' : S) → R a st' → Answers Q (f a st'))
      → Answers Q ((m >>= f) st)
  bind-Answers R m f st h k = by_result (m st) h
    where
      by_result :
          (o : Result A × S)
          → Answers R o
          → Answers Q (elim o.0 as (λ _. Result B × S) [ ok a ↦ f a o.1 | err e ↦ raise e o.1 ])
      by_result (ok a, st') h = k a st' h
      by_result (err e, st') h = tt
