-- ===== src/Service/Decisions/Grants.antt =====
-- What a Check of the service grants (`Check` in internal/service/authz.go).
use workspace.Base.{
  ℕ, String, ◌≡◌, refl, sym, ap, ◌∙◌, subst, Bool, true, false, ◌||◌, Option, some, List, [], ◌∷◌,
  map, arith, ◌==◌, if◌then◌else◌, Result, ok, err, Error, and_then, and_then-ok, ok-injective,
}
use workspace.Base.Int.{ℤ, is_positive}
use workspace.Base.Tables.{values, filter, shard}
use workspace.Authz.Condition.{Fields}
use workspace.Authz.Model.{SubjectSet, Tuple}
use workspace.Authz.State.{Backstops}
use workspace.Authz.Engine.{Engine, new_engine, with_max_reads, with_max_list_objects}
use workspace.Authz.Keys.{IsPlain}
use workspace.Authz.Check.{check_with_model}
use workspace.Authz.Check.Rules.{PlainSet, PlainSets, PlainStore}
use workspace.Authz.Check.Guarantees.{user_request, check_with_model-grants}
use workspace.Authz.Decision.{Decides}
use workspace.Service.Access.{
  Principal, Resolved, Service, region_servable, model_or_default, engine_of, model_for,
  map_budget_err,
}
use workspace.Service.Decisions.{servable, is_incomplete, check_in, check_permission}
use workspace.Store.Keys.{scope}
use workspace.Store.State.{Store}
use workspace.Store.Tuples.{list_subjects, list_object_ids}

-- Each userset that a stored tuple grants to has an unambiguous key.
abbrev pub PlainTuples : List Tuple → Type 0
PlainTuples [] = Unit
PlainTuples (t ∷ ts) = PlainSet t.subject.set × PlainTuples ts

PlainSets-filter :
    (q : Tuple → Bool) (ts : List Tuple)
    → PlainTuples ts
    → PlainSets (map (λ (t : Tuple). t.subject) (filter q ts))
unfolding filter
PlainSets-filter q [] h = tt
PlainSets-filter q (t ∷ ts) (h, hs) = by_test (q t) (PlainSets-filter q ts hs)
  where
    by_test :
        (b : Bool)
        → PlainSets (map (λ (t : Tuple). t.subject) (filter q ts))
        → PlainSets (map (λ (t : Tuple). t.subject) (if b then t ∷ filter q ts else filter q ts))
    by_test true rest = (h, rest)
    by_test false rest = rest

unbudgeted : (o : Result Bool) → map_budget_err o ≡ ok true → o ≡ ok true
unfolding map_budget_err
unbudgeted (ok b) h = h
unbudgeted (err e) h = absurd (no_error e h)
  where
    no_error : (e : Error) → map_budget_err {A = Bool} (err e) ≡ ok true → ⊥
    no_error e h = ground (arith, h)

reader-with_max_reads : (e : Engine) (n : ℤ) → (with_max_reads e n).reader ≡ e.reader
unfolding with_max_reads
reader-with_max_reads e n = by_test (is_positive n)
  where
    by_test : (b : Bool) → (if b then record e { max_reads = n } else e).reader ≡ e.reader
    by_test true = refl
    by_test false = refl

reader-with_max_list_objects : (e : Engine) (n : ℤ) → (with_max_list_objects e n).reader ≡ e.reader
unfolding with_max_list_objects
reader-with_max_list_objects e n = by_test (is_positive n)
  where
    by_test : (b : Bool) → (if b then record e { max_list_objects = n } else e).reader ≡ e.reader
    by_test true = refl
    by_test false = refl

-- What a decision needs: a project that resolves, that this instance serves and that is not
-- suspended, and a derivation.
pub record Granted (sv : Service) (now : ℕ) (st : Store) (p : Principal) (u : SubjectSet)
    (user : String) (context : Fields) : Type 0 where
  pub project : Resolved
  pub resolves : sv.resolve p.project_id ≡ ok project
  pub is_servable : region_servable sv project ≡ ok tt
  pub is_active : project.suspended ≡ false
  pub derived :
      Decides
        (user_request
          (engine_of sv now st)
          (model_or_default project)
          p.project_id
          p.tenant_id
          user
          context)
        u
        true

module _ (sv : Service) (now : ℕ) (st : Store) (p : Principal) (collector : Option Backstops)
    (u : SubjectSet) (user : String) (context : Fields)
    (stored : PlainTuples (values (shard (scope p.project_id p.tenant_id) st.tuples)))
    (plain : IsPlain u) where
  -- the engine reads the tuples of the store, whatever its budgets
  reads_store :
      (v : SubjectSet)
      → (engine_of sv now st).reader p.project_id p.tenant_id v
        ≡ (list_subjects now p.project_id p.tenant_id v.namespace v.object_id v.relation st).0
  unfolding engine_of new_engine
  reads_store v =
      ap (λ f. f p.project_id p.tenant_id v)
        (reader-with_max_list_objects (with_max_reads base sv.max_check_reads) sv.max_list_objects
          ∙ reader-with_max_reads base sv.max_check_reads)
    where
      base : Engine
      base =
          new_engine (model_for sv)
            (λ project tenant w.
              (list_subjects now project tenant w.namespace w.object_id w.relation st).0)
            (some λ project tenant namespace. (list_object_ids now project tenant namespace st).0)
            sv.library

  store_plain :
      (res : Resolved)
      → PlainStore (
          user_request
            (engine_of sv now st)
            (model_or_default res)
            p.project_id
            p.tenant_id
            user
            context)
  unfolding list_subjects
  store_plain res v ss h =
      subst PlainSets (ok-injective (sym (reads_store v) ∙ h)) (PlainSets-filter _ _ stored)

  granted_in :
      (res : Resolved)
      → check_in sv now st p collector res u user context ≡ ok true
      → (res.suspended ≡ false)
        × Decides
            (user_request
              (engine_of sv now st)
              (model_or_default res)
              p.project_id
              p.tenant_id
              user
              context)
            u
            true
  unfolding check_in
  granted_in res h = by_status res.suspended refl h
    where
      by_status :
          (b : Bool)
          → res.suspended ≡ b
          → (if b
              then ok false
              else map_budget_err
                  (check_with_model
                    (engine_of sv now st)
                    (model_or_default res)
                    p.project_id
                    p.tenant_id
                    u
                    user
                    context
                    res.max_check_reads
                    collector).0)
            ≡ ok true
          → (b ≡ false)
            × Decides
                (user_request
                  (engine_of sv now st)
                  (model_or_default res)
                  p.project_id
                  p.tenant_id
                  user
                  context)
                u
                true
      by_status true e h = absurd (cc)
      by_status false e h = (
        refl,
        check_with_model-grants (engine_of sv now st) (model_or_default res) p.project_id
            p.tenant_id u user context res.max_check_reads collector (store_plain res) plain
            (unbudgeted _ h),
      )

  -- A Check of the service grants only in a project that resolves, that is in a region that this
  -- instance serves and that is not suspended, and only if a finite derivation from the rules of the
  -- project's model and the tuples stored in its scope shows that the user is in the userset; if the
  -- stored usersets and the asked one have unambiguous keys.
  pub check_permission-Granted :
      check_permission sv now st p collector u user context ≡ ok true
      → Granted sv now st p u user context
  unfolding check_permission servable
  check_permission-Granted h = by_arguments (is_incomplete u || user == "") h
    where
      by_arguments :
          (b : Bool)
          → (if b
              then err Error.invalid_argument
              else and_then
                  (servable sv p)
                  λ res. check_in sv now st p collector res u user context)
            ≡ ok true
          → Granted sv now st p u user context
      by_arguments true h = absurd (cc)
      by_arguments false h =
          let (res, gate, answer) = and_then-ok _ _ h in
          let (found, resolves, rest) = and_then-ok _ _ gate in
          let (_, here, same) = and_then-ok _ _ rest in
          let is_res : found ≡ res = ok-injective same in
          let (active, derived) = granted_in res answer in
          record {
            project = res;
            resolves = resolves ∙ ap ok is_res;
            is_servable = subst (λ r. region_servable sv r ≡ ok tt) is_res here;
            is_active = active;
            derived = derived;
          }
