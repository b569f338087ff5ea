-- ===== src/Cache/Fresh.antt =====
-- Where the documents that the cache of src/cache.rs gives come from, over any sequence of operations.
use anml_client_rust.Common.{
  ℕ, ◌-◌, ◌≤◌, ◌∙◌, false, Option, none, some, List, [], ◌∷◌, ◌≡◌, ◌≢◌, ◌⊎◌, inl, inr, refl, subst,
  ◌==◌, leb, length, retain, Text, text_eq, text_eq_iff, text_instance, All, All-retain, All-map,
  arith, Bool-cases, Option-cases,
}
use anml_client_rust.Common.Assoc
use anml_client_rust.Document.{AnmlDocument}
use anml_client_rust.Cache.{
  CacheEntry, CacheInner, with_config, is_expired, get, is_live, evict_expired, make_room,
  insert_with_ttl, insert, invalidate, clear, extract_ttl,
}
use anml_client_rust.Cache.Capacity.{
  Operation, looked_up, inserted, inserted_with_ttl, invalidated, evicted, cleared, perform,
}

-- The cache after the operations, the newest first.
abbrev pub after : List Operation → CacheInner → CacheInner
after [] c = c
after (o ∷ os) c = perform o (after os c)

abbrev pub own_or : ℕ → Option ℕ → ℕ
own_or default_ttl none = default_ttl
own_or default_ttl (some ttl) = ttl

abbrev pub stored : ℕ → AnmlDocument → ℕ → CacheEntry
stored now doc ttl = record { document = doc; inserted_at = now; ttl = ttl }

-- One of the operations stored the entry under the URL, and since then the URL was not
-- invalidated, the cache was not cleared, and no eviction found the entry expired.
abbrev pub Came : ℕ → List Operation → Text × CacheEntry → Type 0
Came d [] (url, e) = ⊥
Came d (looked_up now u ∷ os) (url, e) = Came d os (url, e)
Came d (inserted now u doc ∷ os) (url, e) =
    ((u ≡ url) × (stored now doc (own_or d (extract_ttl doc)) ≡ e)) ⊎ Came d os (url, e)
Came d (inserted_with_ttl now u doc ttl ∷ os) (url, e) =
    ((u ≡ url) × (stored now doc ttl ≡ e)) ⊎ Came d os (url, e)
Came d (invalidated u ∷ os) (url, e) = (u ≢ url) × Came d os (url, e)
Came d (evicted now ∷ os) (url, e) = (is_expired now e ≡ false) × Came d os (url, e)
Came d (cleared ∷ os) (url, e) = ⊥

module _ {κ} (P : Text × CacheEntry → Type κ) where
  All-remove :
      (u : Text) (m : List (Text × CacheEntry))
      → All P m
      → All (λ ke. (u ≢ ke.0) × P ke) (Assoc.remove u m)
  All-remove u [] h = tt
  All-remove u ((k, e) ∷ m) (h, hs) = elim (Bool-cases (text_eq k u)) [
    | inl same ↦ rw same (All-remove u m hs)
    | inr other ↦ rw other ((λ p. ground (arith, text_eq_iff k u, p, other), h), All-remove u m hs)
  ]

  All-get :
      (url : Text) (m : List (Text × CacheEntry)) (e : CacheEntry)
      → All P m
      → Assoc.get url m ≡ some e
      → P (url, e)
  All-get url [] e h found = ground (arith, found)
  All-get url ((k, w) ∷ m) e (h, hs) found = elim (Bool-cases (text_eq k url)) [
    | inl same ↦
        let e' : w ≡ e = ground (arith, (rw same at found)) in
        subst (λ u. P (u, e)) ((text_eq_iff k url).0 same) (subst (λ x. P (k, x)) e' h)
    | inr other ↦ All-get url m e hs (rw other at found)
  ]

module _ {κ} (P : Text × CacheEntry → Type κ) where
  All-dropped : (u : Text) (m : List (Text × CacheEntry)) → All P m → All P (Assoc.remove u m)
  All-dropped u [] h = tt
  All-dropped u ((k, e) ∷ m) (h, hs) = elim (Bool-cases (text_eq k u)) [
    | inl same ↦ rw same (All-dropped u m hs)
    | inr other ↦ rw other (h, All-dropped u m hs)
  ]

  get-All : (now : ℕ) (u : Text) (c : CacheInner) → All P c.entries → All P (get now u c).0.entries
  unfolding get
  get-All now u c h = elim (Option-cases (Assoc.get u c.entries)) [
    | inl missing ↦ rw (get, missing) h
    | inr (e, found) ↦ elim (Bool-cases (is_expired now e)) [
      | inl old ↦ rw (get, found, old) (All-dropped u c.entries h)
      | inr young ↦ rw (get, found, young) h
    ]
  ]

  make_room-All : (now : ℕ) (c : CacheInner) → All P c.entries → All P (make_room now c).entries
  unfolding make_room evict_expired
  make_room-All now c h = elim (Bool-cases (leb c.max_entries (length c.entries))) [
    | inl full ↦ rw (make_room, full) (All-retain P (is_live now) c.entries h)
    | inr room ↦ rw (make_room, room) h
  ]

  insert_with_ttl-All :
      (now : ℕ) (u : Text) (doc : AnmlDocument) (ttl : ℕ) (c : CacheInner)
      → All P c.entries
      → P (u, stored now doc ttl)
      → All P (insert_with_ttl now u doc ttl c).entries
  unfolding insert_with_ttl
  insert_with_ttl-All now u doc ttl c h new = elim (Bool-cases (ttl == 0)) [
    | inl zero_ttl ↦ rw (insert_with_ttl, zero_ttl) h
    | inr lives ↦ elim (Bool-cases (leb c.max_entries (length (make_room now c).entries))) [
      | inl full ↦ rw (insert_with_ttl, lives, full) (make_room-All now c h)
      | inr room ↦
          rw (insert_with_ttl, lives, room)
            (new, All-dropped u (make_room now c).entries (make_room-All now c h))
    ]
  ]

  evicted-All :
      (now : ℕ) (m : List (Text × CacheEntry))
      → All P m
      → All (λ ke. (is_expired now ke.1 ≡ false) × P ke) (retain (is_live now) m)
  evicted-All now [] h = tt
  evicted-All now ((k, e) ∷ m) (h, hs) = elim (Bool-cases (is_expired now e)) [
    | inl old ↦ rw old (evicted-All now m hs)
    | inr young ↦ rw young ((young, h), evicted-All now m hs)
  ]

insert_lem :
    (now : ℕ) (u : Text) (doc : AnmlDocument) (c : CacheInner)
    → insert now u doc c ≡ insert_with_ttl now u doc (own_or c.default_ttl (extract_ttl doc)) c
unfolding insert
insert_lem now u doc c = elim (Option-cases (extract_ttl doc)) [
  | inl none_own ↦ rw (insert, none_own) refl
  | inr (ttl, own) ↦ rw (insert, own) refl
]

insert_with_ttl-default_ttl :
    (now : ℕ) (u : Text) (doc : AnmlDocument) (ttl : ℕ) (c : CacheInner)
    → (insert_with_ttl now u doc ttl c).default_ttl ≡ c.default_ttl
unfolding insert_with_ttl make_room evict_expired
insert_with_ttl-default_ttl now u doc ttl c = ground arith

get-default_ttl :
    (now : ℕ) (u : Text) (c : CacheInner) → (get now u c).0.default_ttl ≡ c.default_ttl
unfolding get
get-default_ttl now u c = ground arith

perform-default_ttl : (o : Operation) (c : CacheInner) → (perform o c).default_ttl ≡ c.default_ttl
unfolding invalidate evict_expired clear
perform-default_ttl (looked_up now u) c = get-default_ttl now u c
perform-default_ttl (inserted now u doc) c =
    rw (insert_lem now u doc c) (insert_with_ttl-default_ttl now u doc _ c)
perform-default_ttl (inserted_with_ttl now u doc ttl) c =
    insert_with_ttl-default_ttl now u doc ttl c
perform-default_ttl (invalidated u) c = refl
perform-default_ttl (evicted now) c = refl
perform-default_ttl cleared c = refl

module _ (d max_entries : ℕ) where
  abbrev cached : List Operation → CacheInner
  cached os = after os (with_config d max_entries)

  cached-default_ttl : (os : List Operation) → (cached os).default_ttl ≡ d
  cached-default_ttl [] = refl
  cached-default_ttl (o ∷ os) = perform-default_ttl o (cached os) ∙ cached-default_ttl os

  cached-Came : (os : List Operation) → All (Came d os) (cached os).entries
  unfolding invalidate evict_expired clear
  cached-Came [] = tt
  cached-Came (looked_up now u ∷ os) = get-All (Came d os) now u (cached os) (cached-Came os)
  cached-Came (inserted now u doc ∷ os) =
      rw (insert_lem now u doc (cached os), cached-default_ttl os)
        (insert_with_ttl-All (Came d (inserted now u doc ∷ os)) now u doc _ (cached os)
          (All-map (Came d os) _ (cached os).entries (λ ke h. inr h) (cached-Came os))
          (inl (refl, refl)))
  cached-Came (inserted_with_ttl now u doc ttl ∷ os) =
      insert_with_ttl-All (Came d (inserted_with_ttl now u doc ttl ∷ os)) now u doc ttl (cached os)
        (All-map (Came d os) _ (cached os).entries (λ ke h. inr h) (cached-Came os))
        (inl (refl, refl))
  cached-Came (invalidated u ∷ os) = All-remove (Came d os) u (cached os).entries (cached-Came os)
  cached-Came (evicted now ∷ os) = evicted-All (Came d os) now (cached os).entries (cached-Came os)
  cached-Came (cleared ∷ os) = tt

  -- After any operations on a new cache, a lookup gives a document only if one of them stored it
  -- under that URL, no longer ago than its time to live, which is the document's own, the given or the
  -- default one; and since then the URL was not invalidated and the cache was not cleared.
  pub get-Came :
      (os : List Operation) (later : ℕ) (url : Text) (doc : AnmlDocument)
      → (get later url (cached os)).1 ≡ some doc
      → (e : CacheEntry) × Came d os (url, e) × (e.document ≡ doc) × (later - e.inserted_at ≤ e.ttl)
  unfolding get is_expired
  get-Came os later url doc h = elim (Option-cases (Assoc.get url (cached os).entries)) [
    | inl missing ↦ ground (arith, (rw (get, missing) at h))
    | inr (e, found) ↦ elim (Bool-cases (is_expired later e)) [
      | inl old ↦ ground (arith, (rw (get, found, old) at h))
      | inr young ↦ (
        e,
        All-get (Came d os) url (cached os).entries e (cached-Came os) found,
        ground (arith, (rw (get, found, young) at h)),
        ground (arith, young),
      )
    ]
  ]
