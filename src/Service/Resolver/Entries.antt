-- ===== src/Service/Resolver/Entries.antt =====
-- What every entry of the resolver's cache satisfies (internal/service/projects.go).
use workspace.Base.{
  ℕ, String, ◌≡◌, refl, sym, subst, Bool, true, false, some, [], ◌∷◌, ◌==◌, ltb, length, eq_iff,
  if◌then◌else◌, Dict, lookup,
}
use workspace.Base.Tables.{put, remove, retain}
use workspace.Service.Resolver.{Cached, Resolver, drop_until, evict, store_cached}

-- every entry of a cache, under its key
abbrev pub Entries : (String → Cached → Type 0) → Dict Cached → Type 0
Entries P [] = Unit
Entries P ((k, e) ∷ m) = P k e × Entries P m

-- a weaker property of each entry
pub Entries-map :
    (P Q : String → Cached → Type 0) (m : Dict Cached)
    → ((j : String) (e : Cached) → P j e → Q j e)
    → Entries P m
    → Entries Q m
Entries-map P Q [] f h = tt
Entries-map P Q ((j, e) ∷ m) f (h, hs) = (f j e h, Entries-map P Q m f hs)

module _ (P : String → Cached → Type 0) where
  Entries-put :
      (k : String) (e : Cached) (m : Dict Cached) → P k e → Entries P m → Entries P (put k e m)
  unfolding put
  Entries-put k e [] h hs = (h, tt)
  Entries-put k e ((j, x) ∷ m) h (hx, hs) = by_key (j == k) refl (Entries-put k e m h hs)
    where
      by_key :
          (b : Bool)
          → (j == k) ≡ b
          → Entries P (put k e m)
          → Entries P (if b then (j, e) ∷ m else (j, x) ∷ put k e m)
      by_key true same rest = (subst (λ x. P x e) (sym ((eq_iff j k).0 same)) h, hs)
      by_key false other rest = (hx, rest)

  -- the entries of other keys are left
  pub Entries-remove :
      (Q : String → Cached → Type 0) (k : String) (m : Dict Cached)
      → ((j : String) (e : Cached) → (j == k) ≡ false → P j e → Q j e)
      → Entries P m
      → Entries Q (remove k m)
  unfolding remove
  Entries-remove Q k [] f h = tt
  Entries-remove Q k ((j, x) ∷ m) f (hx, hs) = by_key (j == k) refl (Entries-remove Q k m f hs)
    where
      by_key :
          (b : Bool)
          → (j == k) ≡ b
          → Entries Q (remove k m)
          → Entries Q (if b then remove k m else (j, x) ∷ remove k m)
      by_key true same rest = rest
      by_key false other rest = (f j x other hx, rest)

  Entries-retain : (p : Cached → Bool) (m : Dict Cached) → Entries P m → Entries P (retain p m)
  unfolding retain
  Entries-retain p [] h = tt
  Entries-retain p ((j, x) ∷ m) (hx, hs) = by_test (p x) (Entries-retain p m hs)
    where
      by_test :
          (b : Bool)
          → Entries P (retain p m)
          → Entries P (if b then (j, x) ∷ retain p m else retain p m)
      by_test true rest = (hx, rest)
      by_test false rest = rest

  Entries-drop_until : (max : ℕ) (m : Dict Cached) → Entries P m → Entries P (drop_until max m)
  unfolding drop_until
  Entries-drop_until max [] h = tt
  Entries-drop_until max ((j, x) ∷ m) (hx, hs) =
      by_test (ltb (length ((j, x) ∷ m)) max) (Entries-drop_until max m hs)
    where
      by_test :
          (b : Bool)
          → Entries P (drop_until max m)
          → Entries P (if b then (j, x) ∷ m else drop_until max m)
      by_test true rest = (hx, hs)
      by_test false rest = rest

  pub Entries-store_cached :
      (now : ℕ) (k : String) (e : Cached) (r : Resolver)
      → P k e
      → Entries P r.cache
      → Entries P (store_cached now k e r).cache
  unfolding store_cached evict
  Entries-store_cached now k e r h hs =
      Entries-put k e (if ltb (length r.cache) r.max then r.cache else evict now r) h
        (by_test (ltb (length r.cache) r.max))
    where
      by_test : (b : Bool) → Entries P (if b then r.cache else evict now r)
      by_test true = hs
      by_test false = Entries-drop_until r.max _ (Entries-retain _ r.cache hs)

  pub Entries-lookup :
      (k : String) (e : Cached) (m : Dict Cached) → Entries P m → lookup k m ≡ some e → P k e
  unfolding lookup
  Entries-lookup k e [] h f = absurd (cc)
  Entries-lookup k e ((j, x) ∷ m) (hx, hs) f = by_key (j == k) refl f (Entries-lookup k e m hs)
    where
      by_key :
          (b : Bool)
          → (j == k) ≡ b
          → (if b then some x else lookup k m) ≡ some e
          → (lookup k m ≡ some e → P k e)
          → P k e
      by_key true same f rest =
          let is_e : x ≡ e = cc in subst (P k) is_e (subst (λ i. P i x) ((eq_iff j k).0 same) hx)
      by_key false other f rest = rest f
