-- ===== src/Service/Projects/Requests.antt =====
-- The requests on projects, and the resolutions between them, in one process
-- (internal/service/projects.go).
use workspace.Base.{
  ℕ, String, ◌≡◌, refl, sym, ap, ◌∙◌, subst, true, false, not, Option, none, some, ◌==◌, arith,
  eq_iff, if◌then◌else◌, Result, ok, err, Error, lookup, ◌⊎◌, inl, inr,
}
use workspace.Base.Int.{ℤ, pos}
use workspace.Base.Tables.{put}
use workspace.Base.Tables.Lookup.{lookup-put}
use workspace.Authz.Model.{Model}
use workspace.Authz.State.{pure, lift, ◌>>=◌, ◌>>◌}
use workspace.Service.Types.{Project}
use workspace.Service.Access.{find_row}
use workspace.Service.Rules.{Keeps, Keeps-Post, if-Keeps, lift-Keeps, bind-Keeps, find_row-found}
use workspace.Service.Resolver.{Node, resolution, invalidate}
use workspace.Service.Resolver.Entries.{Entries-remove}
use workspace.Service.Resolver.Fresh.{IsFresh, Coherent}
use workspace.Service.Resolver.Size.{SizedNode, remove-Sized}
use workspace.Service.Projects.{
  ModelJson, validate_project, new_project, register_project, Patch, validate_patch, patched,
  patch_project, on_store, put_project, invalidated, seed, seed_if_missing, ensure_default_project,
}
use workspace.Store.State.{Store, Op}
use workspace.Store.Workspaces.{found, create_project, get_project, update_project}

-- A coherent process whose cache is within its cap.
abbrev pub Tidy : Node → Type 0
Tidy n = SizedNode n × Coherent n

-- the process with a project's row, and without what was cached of it
unfoldable pub with_project : Project → Node → Node
unfolding put invalidate
with_project p n = record {
  store = record (n.store) { projects = put p.id p n.store.projects };
  resolver = invalidate p.id n.resolver;
}

with_project-Tidy : (p : Project) (n : Node) → Tidy n → Tidy (with_project p n)
unfolding with_project invalidate
with_project-Tidy p n (size, c) = (
  remove-Sized p.id n.resolver size,
  Entries-remove (IsFresh n.store) (IsFresh (with_project p n).store) p.id n.resolver.cache
      (λ j e other h. h ∙ ap resolution (sym (elsewhere j other))) c,
)
  where
    elsewhere :
        (j : String)
        → (j == p.id) ≡ false
        → lookup j (put p.id p n.store.projects) ≡ lookup j n.store.projects
    elsewhere j other =
        ground (arith, lookup-put p.id j p n.store.projects, eq_iff p.id j, eq_iff j p.id, other)

-- a write of a row that succeeds puts it under its id, and one that fails leaves the store
abbrev pub Writes : Project → Op (Unit {0}) → Type 0
Writes p write =
    (st : Store)
    → (write st ≡ (ok tt, record st { projects = put p.id p st.projects }))
      ⊎ ((e : Error) × (write st ≡ (err e, st)))

create_project-Writes : (p : Project) → Writes p (create_project p)
unfolding create_project
create_project-Writes p st = by_row (lookup p.id st.projects)
  where
    by_row :
        (o : Option Project)
        → ((if◌then◌else◌ {A = Result (Unit {0}) × Store}
              (elim o [ none ↦ false | some _ ↦ true ])
              (err Error.already_exists, st)
              (ok tt, record st { projects = put p.id p st.projects }))
            ≡ (ok tt, record st { projects = put p.id p st.projects }))
          ⊎ ((e : Error) × ((if◌then◌else◌ {A = Result (Unit {0}) × Store}
                  (elim o [ none ↦ false | some _ ↦ true ])
                  (err Error.already_exists, st)
                  (ok tt, record st { projects = put p.id p st.projects }))
                ≡ (err e, st)))
    by_row none = inl refl
    by_row (some _) = inr (Error.already_exists, refl)

update_project-Writes : (p : Project) → Writes p (update_project p)
unfolding update_project
update_project-Writes p st = by_row (lookup p.id st.projects)
  where
    by_row :
        (o : Option Project)
        → ((if◌then◌else◌ {A = Result (Unit {0}) × Store}
              (not (elim o [ none ↦ false | some _ ↦ true ]))
              (err Error.not_found, st)
              (ok tt, record st { projects = put p.id p st.projects }))
            ≡ (ok tt, record st { projects = put p.id p st.projects }))
          ⊎ ((e : Error) × ((if◌then◌else◌ {A = Result (Unit {0}) × Store}
                  (not (elim o [ none ↦ false | some _ ↦ true ]))
                  (err Error.not_found, st)
                  (ok tt, record st { projects = put p.id p st.projects }))
                ≡ (err e, st)))
    by_row none = inr (Error.not_found, refl)
    by_row (some _) = inl refl

put_project-Keeps :
    (write : Op (Unit {0})) (p : Project) (n : Node)
    → Writes p write
    → Tidy n
    → Keeps Tidy (put_project write p n)
unfolding put_project with_project invalidate
put_project-Keeps write p n writes h = by_write (write n.store) (writes n.store)
  where
    by_write :
        (o : Result (Unit {0}) × Store)
        → (o ≡ (ok tt, record (n.store) { projects = put p.id p n.store.projects }))
          ⊎ ((e : Error) × (o ≡ (err e, n.store)))
        → Keeps Tidy
            (((λ (m : Node). (o.0, record m { store = o.1 })) >> invalidated p.id >> pure p) n)
    by_write o (inl e) =
        subst
          (λ o.
            Keeps Tidy
              (((λ (m : Node). (o.0, record m { store = o.1 })) >> invalidated p.id >> pure p) n))
          (sym e) (with_project-Tidy p n h)
    by_write o (inr (x, e)) =
        subst
          (λ o.
            Keeps Tidy
              (((λ (m : Node). (o.0, record m { store = o.1 })) >> invalidated p.id >> pure p) n))
          (sym e) h

module _ (json : ModelJson) (now : ℕ) (n : Node) (h : Tidy n) where
  pub register_project-Keeps :
      (id name region : String) (model : Option Model) (reads : ℤ)
      → Keeps Tidy (register_project json now id name region model reads n)
  unfolding register_project
  register_project-Keeps id name region model reads =
      let p : Project = new_project now id name region model reads in
      lift-Keeps Tidy (validate_project json id region model reads)
        (λ _. put_project (create_project p) p) n h
        λ _ _. put_project-Keeps (create_project p) p n (create_project-Writes p) h

  -- a read of a row leaves the process as it is
  read-Keeps : {A : Type 0} (o : Option A) → Keeps Tidy (on_store (found o) n)
  read-Keeps none = h
  read-Keeps (some _) = h

  pub patch_project-Keeps : (id : String) (c : Patch) → Keeps Tidy (patch_project json now id c n)
  unfolding patch_project get_project
  patch_project-Keeps id c =
      bind-Keeps Tidy (λ _ m. Tidy m) (lift (validate_patch json id c) >> on_store (get_project id))
        (λ p. put_project (update_project (patched now c p)) (patched now c p)) n
        (Keeps-Post Tidy ((lift (validate_patch json id c) >> on_store (get_project id)) n) (
          lift-Keeps Tidy (validate_patch json id c) (λ _. on_store (get_project id)) n h
            λ _ _. read-Keeps (lookup id n.store.projects)))
        λ p m k.
          put_project-Keeps (update_project (patched now c p)) (patched now c p) m
            (update_project-Writes (patched now c p)) k

  seed_if_missing-Keeps :
      (region id : String) (o : Option Project)
      → Keeps Tidy (seed_if_missing json now region id o n)
  unfolding seed_if_missing seed
  seed_if_missing-Keeps region id (some p) = h
  seed_if_missing-Keeps region id none = register_project-Keeps id "Default" "" none (pos 0)

  pub ensure_default_project-Keeps :
      (region id : String) → Keeps Tidy (ensure_default_project json now region id n)
  unfolding ensure_default_project get_project
  ensure_default_project-Keeps region id =
      if-Keeps Tidy (id == "") (pure tt)
        (on_store (find_row (get_project id)) >>= seed_if_missing json now region id) n (λ _. h)
        λ _.
          subst
            (λ o. Keeps Tidy (
              ((λ (m : Node). (o.0, record m { store = o.1 }))
                  >>= seed_if_missing json now region id)
                n))
            (sym (find_row-found (lookup id n.store.projects) n.store))
            (seed_if_missing-Keeps region id (lookup id n.store.projects))
