-- ===== src/Cache/Capacity.antt =====
-- The invariant of the cache of src/cache.rs, over any sequence of its operations.
use anml_client_rust.Common.{
  ℕ, ◌≤◌, List, [], ◌∷◌, ◌≡◌, refl, ◌∙◌, ap, inl, inr, ◌==◌, leb, length, retain, length-retain-le,
  Text, text_eq_refl, text_instance, arith, Bool-cases, Option-cases,
}
use anml_client_rust.Common.Assoc
use anml_client_rust.Document.{AnmlDocument}
use anml_client_rust.Cache.{
  CacheEntry, CacheInner, with_config, is_expired, get, is_live, evict_expired, make_room,
  insert_with_ttl, insert, invalidate, clear, extract_ttl,
}
use anml_client_rust.Cache.Lookups.{IsMap, live_entry, get-retain}

pub data Operation : Type 0 where
  looked_up : ℕ → Text → Operation
  inserted : ℕ → Text → AnmlDocument → Operation
  inserted_with_ttl : ℕ → Text → AnmlDocument → ℕ → Operation
  invalidated : Text → Operation
  evicted : ℕ → Operation
  cleared : Operation

abbrev pub perform : Operation → CacheInner → CacheInner
perform (looked_up now url) c = (get now url c).0
perform (inserted now url doc) c = insert now url doc c
perform (inserted_with_ttl now url doc ttl) c = insert_with_ttl now url doc ttl c
perform (invalidated url) c = invalidate url c
perform (evicted now) c = evict_expired now c
perform cleared c = clear c

abbrev pub perform_all : List Operation → CacheInner → CacheInner
perform_all [] c = c
perform_all (o ∷ os) c = perform_all os (perform o c)

-- A cache of this size, with one entry at most for each URL.
pub record IsCache (max_entries : ℕ) (c : CacheInner) : Type 0 where
  pub same_size : c.max_entries ≡ max_entries
  pub few : length c.entries ≤ max_entries
  pub map : IsMap c.entries

IsMap-remove : (url : Text) (m : List (Text × CacheEntry)) → IsMap m → IsMap (Assoc.remove url m)
IsMap-remove url [] h = tt
IsMap-remove url ((k, e) ∷ m) (fresh, h) =
    ground (arith, IsMap-remove url m h, Assoc.get-remove url k m)

IsMap-retain : (now : ℕ) (m : List (Text × CacheEntry)) → IsMap m → IsMap (retain (is_live now) m)
IsMap-retain now [] h = tt
IsMap-retain now ((k, e) ∷ m) (fresh, h) = elim (Bool-cases (is_expired now e)) [
  | inl old ↦ rw old (IsMap-retain now m h)
  | inr young ↦ rw young (get-retain now k m h ∙ ap (live_entry now) fresh, IsMap-retain now m h)
]

module _ (n : ℕ) (c : CacheInner) (h : IsCache n c) where
  removed : (url : Text) → IsCache n (record c { entries = Assoc.remove url c.entries })
  removed url = record {
    same_size = h.same_size;
    few = omega (arith, h.few, Assoc.length-remove-le url c.entries);
    map = IsMap-remove url c.entries h.map;
  }

  retained : (now : ℕ) → IsCache n (record c { entries = retain (is_live now) c.entries })
  retained now = record {
    same_size = h.same_size;
    few = omega (arith, h.few, length-retain-le (is_live now) c.entries);
    map = IsMap-retain now c.entries h.map;
  }

  make_room-IsCache : (now : ℕ) → IsCache n (make_room now c)
  unfolding make_room evict_expired
  make_room-IsCache now = elim (Bool-cases (leb c.max_entries (length c.entries))) [
    | inl full ↦ rw (full, make_room) (retained now)
    | inr room ↦ rw (room, make_room) h
  ]

  insert_with_ttl-IsCache :
      (now : ℕ) (url : Text) (doc : AnmlDocument) (ttl : ℕ)
      → IsCache n (insert_with_ttl now url doc ttl c)
  unfolding insert_with_ttl
  insert_with_ttl-IsCache now url doc ttl =
      let r = make_room-IsCache now in
      elim (Bool-cases (ttl == 0)) [
        | inl zero_ttl ↦ rw (zero_ttl, insert_with_ttl) h
        | inr lives ↦ elim (Bool-cases (leb c.max_entries (length (make_room now c).entries))) [
          | inl full ↦ rw (lives, full, insert_with_ttl) r
          | inr room ↦
              rw (lives, room, insert_with_ttl)
                (record {
                  same_size = h.same_size;
                  few =
                      ground
                        (arith, h.same_size, Assoc.length-remove-le url (make_room now c).entries);
                  map = (
                    Assoc.get-remove url url (make_room now c).entries ∙ rw (text_eq_refl url) refl,
                    IsMap-remove url (make_room now c).entries r.map,
                  );
                })
        ]
      ]

  perform-IsCache : (o : Operation) → IsCache n (perform o c)
  unfolding get insert invalidate evict_expired clear
  perform-IsCache (looked_up now url) = elim (Option-cases (Assoc.get url c.entries)) [
    | inl missing ↦ rw (missing, get, perform) h
    | inr (e, held) ↦ elim (Bool-cases (is_expired now e)) [
      | inl old ↦ rw (held, old, get, perform) (removed url)
      | inr young ↦ rw (held, young, get, perform) h
    ]
  ]
  perform-IsCache (inserted now url doc) = elim (Option-cases (extract_ttl doc)) [
    | inl default ↦
        rw (default, insert, perform) (insert_with_ttl-IsCache now url doc c.default_ttl)
    | inr (ttl, own) ↦ rw (own, insert, perform) (insert_with_ttl-IsCache now url doc ttl)
  ]
  perform-IsCache (inserted_with_ttl now url doc ttl) = insert_with_ttl-IsCache now url doc ttl
  perform-IsCache (invalidated url) = removed url
  perform-IsCache (evicted now) = retained now
  perform-IsCache cleared = record { same_size = h.same_size; few = omega arith; map = tt }

perform_all-IsCache_from :
    (n : ℕ) (os : List Operation) (c : CacheInner) → IsCache n c → IsCache n (perform_all os c)
perform_all-IsCache_from n [] c h = h
perform_all-IsCache_from n (o ∷ os) c h =
    perform_all-IsCache_from n os (perform o c) (perform-IsCache n c h o)

-- After any sequence of operations on a new cache, at whatever times, it has at most `max_entries`
-- entries, expired ones included, and at most one for each URL.
pub perform_all-IsCache :
    (default_ttl max_entries : ℕ) (os : List Operation)
    → IsCache max_entries (perform_all os (with_config default_ttl max_entries))
perform_all-IsCache default_ttl max_entries os =
    perform_all-IsCache_from max_entries os (with_config default_ttl max_entries)
      (record { same_size = refl; few = omega arith; map = tt })
