-- ===== src/Cache/Lookups.antt =====
-- What a lookup in the cache of src/cache.rs finds after the other operations.
use anml_client_rust.Common.{
  ℕ, ◌-◌, ◌≤◌, Bool, not, ◌&&◌, Option, none, some, List, [], ◌∷◌, ◌≡◌, refl, sym, ◌∙◌, ap, inl,
  inr, ◌==◌, ltb, leb, if◌then◌else◌, length, retain, length-retain-le, Text, text_eq, text_eq_iff,
  text_instance, arith, Bool-cases, Option-cases,
}
use anml_client_rust.Common.Assoc
use anml_client_rust.Document.{AnmlDocument}
use anml_client_rust.Cache.{
  CacheEntry, CacheInner, is_expired, get, is_live, evict_expired, make_room, insert_with_ttl,
}

-- Each URL has one entry at most.
abbrev pub IsMap : List (Text × CacheEntry) → Type 0
IsMap [] = Unit
IsMap ((k, e) ∷ m) = (Assoc.get k m ≡ none) × IsMap m

-- The entry, if there is one and it has not expired.
abbrev pub live_entry : ℕ → Option CacheEntry → Option CacheEntry
live_entry now none = none
live_entry now (some e) = if is_expired now e then none else some e

pub get-retain :
    (now : ℕ) (url : Text) (m : List (Text × CacheEntry))
    → IsMap m
    → Assoc.get url (retain (is_live now) m) ≡ live_entry now (Assoc.get url m)
get-retain now url [] h = refl
get-retain now url ((k, e) ∷ m) (fresh, h) = elim (Bool-cases (text_eq k url)) [
  | inl same ↦ elim (Bool-cases (is_expired now e)) [
    | inl old ↦
        rw (same, old)
          (get-retain now url m h
            ∙ ap (live_entry now) (rw ((text_eq_iff k url).0 same) at fresh)
            ∙ refl)
    | inr young ↦ rw (same, young) (rw same refl)
  ]
  | inr other ↦ elim (Bool-cases (is_expired now e)) [
    | inl old ↦ rw (other, old) (get-retain now url m h)
    | inr young ↦ rw (other, young) (rw other (get-retain now url m h))
  ]
]

abbrev document_of : Option CacheEntry → Option AnmlDocument
document_of none = none
document_of (some e) = some e.document

get_lem :
    (now : ℕ) (url : Text) (c : CacheInner)
    → (get now url c).1 ≡ document_of (live_entry now (Assoc.get url c.entries))
unfolding get
get_lem now url c = elim (Option-cases (Assoc.get url c.entries)) [
  | inl missing ↦ rw (missing, get) refl
  | inr (e, held) ↦ elim (Bool-cases (is_expired now e)) [
    | inl old ↦ rw (held, old, get) refl
    | inr young ↦ rw (held, young, get) refl
  ]
]

live_entry-later :
    (now later : ℕ) (o : Option CacheEntry)
    → now ≤ later
    → live_entry later (live_entry now o) ≡ live_entry later o
unfolding is_expired
live_entry-later now later none h = refl
live_entry-later now later (some e) h = ground arith

make_room_invisible :
    (now later : ℕ) (url : Text) (c : CacheInner)
    → IsMap c.entries
    → now ≤ later
    → live_entry later (Assoc.get url (make_room now c).entries)
      ≡ live_entry later (Assoc.get url c.entries)
unfolding make_room evict_expired
make_room_invisible now later url c m h = elim (Bool-cases (leb c.max_entries (length c.entries))) [
  | inl full ↦
      rw (full, make_room)
        (ap (live_entry later) (get-retain now url c.entries m)
          ∙ live_entry-later now later (Assoc.get url c.entries) h)
  | inr room ↦ rw (room, make_room) refl
]

-- Whether the entries that have not expired leave room for one more.
abbrev pub has_room : ℕ → CacheInner → Bool
has_room now c = ltb (length (retain (is_live now) c.entries)) c.max_entries

room_made :
    (now : ℕ) (c : CacheInner)
    → leb c.max_entries (length (make_room now c).entries) ≡ not (has_room now c)
unfolding make_room evict_expired
room_made now c = ground (arith, length-retain-le (is_live now) c.entries)

get-make_room :
    (now later : ℕ) (url : Text) (c : CacheInner)
    → IsMap c.entries
    → now ≤ later
    → (get later url (make_room now c)).1 ≡ (get later url c).1
get-make_room now later url c m h =
    get_lem later url (make_room now c)
    ∙ ap document_of (make_room_invisible now later url c m h)
    ∙ sym (get_lem later url c)

stored :
    (now later : ℕ) (url other : Text) (document : AnmlDocument) (ttl : ℕ) (c : CacheInner)
    (m : List (Text × CacheEntry))
    → (get later other (record c {
      entries = Assoc.insert url (record { document = document; inserted_at = now; ttl = ttl }) m;
    })).1
      ≡ (if text_eq url other
          then (if leb (later - now) ttl then some document else none)
          else document_of (live_entry later (Assoc.get other m)))
unfolding is_expired
stored now later url other document ttl c m =
    let e : CacheEntry = record { document = document; inserted_at = now; ttl = ttl } in
    get_lem later other _
    ∙ ap (λ o. document_of (live_entry later o)) (Assoc.get-insert url other e m)
    ∙ elim (Bool-cases (text_eq url other)) [
      | inl same ↦ rw same (ground arith)
      | inr differ ↦ rw differ refl
    ]

-- Later lookups after an insertion into a cache with one entry at most for each URL. If the time to live is not zero, and the entries that have not
-- expired leave room, the URL gives the document until its time to live is over. Otherwise, and for
-- every other URL, a lookup gives what it would have given without the insertion; so neither a time
-- to live of zero nor a full cache takes away an older document of the URL.
pub get-insert_with_ttl :
    (now later : ℕ) (url other : Text) (document : AnmlDocument) (ttl : ℕ) (c : CacheInner)
    → IsMap c.entries
    → now ≤ later
    → (get later other (insert_with_ttl now url document ttl c)).1 ≡ (
        if not (ttl == 0) && has_room now c && text_eq url other
        then (if leb (later - now) ttl then some document else none)
        else (get later other c).1)
unfolding insert_with_ttl is_expired
get-insert_with_ttl now later url other document ttl c m h = elim (Bool-cases (ttl == 0)) [
  | inl zero_ttl ↦ rw (zero_ttl, insert_with_ttl) refl
  | inr lives ↦ elim (Bool-cases (has_room now c)) [
    | inr full ↦
        rw (lives, full, room_made now c ∙ ap not full, insert_with_ttl)
          (get-make_room now later other c m h)
    | inl room ↦
        rw (lives, room, room_made now c ∙ ap not room, insert_with_ttl)
          (stored now later url other document ttl c (make_room now c).entries
            ∙ rw (make_room_invisible now later other c m h, get_lem later other c) refl)
  ]
]
