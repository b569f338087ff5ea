-- ===== src/Discovery/Records/Pairs.antt =====
-- The entries that `discover_dns_sd` of src/discovery/dns_sd.rs reads from TXT records.
use anml_client_rust.Common.{
  Bool, true, false, ◌&&◌, ◌||◌, Option, none, some, List, [], ◌∷◌, ◌++◌, ◌≡◌, refl, sym, ap, ◌∙◌,
  ◌↔◌, ◌⊎◌, inl, inr, Text, text_eq, text_eq_iff, text_instance, codes, trim, split, split_once,
  Member, arith, Bool-cases, Option-cases,
}
use anml_client_rust.Common.Assoc
use anml_client_rust.Client.Fetch.{or_empty}
use anml_client_rust.Discovery.Records.{
  Entries, no_entries, add_entry, entry_loop, record_loop, entries_of,
}

-- The name and the value on the two sides of the first equals sign, without the spaces around them.
abbrev pub entry_pairs : List Text → List (Text × Text)
entry_pairs [] = []
entry_pairs (entry ∷ entries) = elim (split_once b'=' entry) [
  | none ↦ entry_pairs entries
  | some (k, v) ↦ (trim k, trim v) ∷ entry_pairs entries
]

-- The pairs of the records, in their order.
abbrev pub record_pairs : List Text → List (Text × Text)
record_pairs [] = []
record_pairs (txt ∷ records) = entry_pairs (split b' ' txt) ++ record_pairs records

-- The pairs, the last one first, before the table.
abbrev pub newest_first : List (Text × Text) → List (Text × Text) → List (Text × Text)
newest_first [] table = table
newest_first (p ∷ ps) table = newest_first ps (p ∷ table)

abbrev pub version_entry : Text × Text
version_entry = (codes "v", codes "anml1")

newest_first-++ :
    (ps qs table : List (Text × Text))
    → newest_first (ps ++ qs) table ≡ newest_first qs (newest_first ps table)
newest_first-++ [] qs table = refl
newest_first-++ (p ∷ ps) qs table = newest_first-++ ps qs (p ∷ table)

entry_loop-metadata :
    (entries : List Text) (es : Entries)
    → (entry_loop entries es).metadata ≡ newest_first (entry_pairs entries) es.metadata
unfolding entry_loop add_entry
entry_loop-metadata [] es = refl
entry_loop-metadata (entry ∷ entries) es = elim (Option-cases (split_once b'=' entry)) [
  | inl unread ↦ rw (entry_loop, entry_pairs, unread) (entry_loop-metadata entries es)
  | inr ((k, v), read) ↦
      rw (entry_loop, entry_pairs, read)
        (entry_loop-metadata entries (add_entry (trim k) (trim v) es))
]

pub record_loop-metadata :
    (records : List Text) (es : Entries)
    → (record_loop records es).metadata ≡ newest_first (record_pairs records) es.metadata
unfolding record_loop
record_loop-metadata [] es = refl
record_loop-metadata (txt ∷ records) es =
    record_loop-metadata records (entry_loop (split b' ' txt) es)
    ∙ ap (newest_first (record_pairs records)) (entry_loop-metadata (split b' ' txt) es)
    ∙ sym (newest_first-++ (entry_pairs (split b' ' txt)) (record_pairs records) es.metadata)

-- The version and the path are those of the table.
abbrev pub IsRead : Entries → Type 0
IsRead es =
    ((es.found_version ≡ true) ↔ Member version_entry es.metadata)
    × (es.path ≡ or_empty (Assoc.get (codes "path") es.metadata))

pair_path : {a b c d : Text} → a ≡ c → b ≡ d → ◌≡◌ {A = Text × Text} (a, b) (c, d)
pair_path p q = λ i. (p i, q i)

found_or :
    {key value : Text} {M : Type 0} (is_key is_value found : Bool)
    → (is_key ≡ true) ↔ (key ≡ codes "v")
    → (is_value ≡ true) ↔ (value ≡ codes "anml1")
    → (found ≡ true) ↔ M
    → (found || (is_key && is_value) ≡ true) ↔ ((version_entry ≡ (key, value)) ⊎ M)
found_or is_key is_value true k v f = (λ h. inr (f.0 refl), λ h. refl)
found_or true true false k v f = (λ h. inl (pair_path (sym (k.0 refl)) (sym (v.0 refl))), λ h. refl)
found_or true false false k v f =
    (λ h. ground (arith, h), λ m. elim m [ inl e ↦ v.1 (sym (ap (λ p. p.1) e)) | inr x ↦ f.1 x ])
found_or false is_value false k v f =
    (λ h. ground (arith, h), λ m. elim m [ inl e ↦ k.1 (sym (ap (λ p. p.0) e)) | inr x ↦ f.1 x ])

add_entry-IsRead : (key value : Text) (es : Entries) → IsRead es → IsRead (add_entry key value es)
unfolding add_entry
add_entry-IsRead key value es (version, path) = (
  found_or (text_eq key (codes "v")) (text_eq value (codes "anml1")) es.found_version
      (text_eq_iff key (codes "v")) (text_eq_iff value (codes "anml1")) version,
  elim (Bool-cases (text_eq key (codes "path"))) [
    | inl is_path ↦ rw is_path refl
    | inr other ↦ rw other path
  ],
)

entry_loop-IsRead :
    (entries : List Text) (es : Entries) → IsRead es → IsRead (entry_loop entries es)
unfolding entry_loop
entry_loop-IsRead [] es h = h
entry_loop-IsRead (entry ∷ entries) es h = elim (Option-cases (split_once b'=' entry)) [
  | inl unread ↦ rw (entry_loop, unread) (entry_loop-IsRead entries es h)
  | inr ((k, v), read) ↦
      rw (entry_loop, read)
        (entry_loop-IsRead entries (add_entry (trim k) (trim v) es)
          (add_entry-IsRead (trim k) (trim v) es h))
]

record_loop-IsRead :
    (records : List Text) (es : Entries) → IsRead es → IsRead (record_loop records es)
unfolding record_loop
record_loop-IsRead [] es h = h
record_loop-IsRead (txt ∷ records) es h =
    record_loop-IsRead records (entry_loop (split b' ' txt) es)
      (entry_loop-IsRead (split b' ' txt) es h)

pub entries_of-IsRead : (answer : Option (List Text)) → IsRead (entries_of answer)
entries_of-IsRead none = ((λ h. ground (arith, h), λ m. absurd m), refl)
entries_of-IsRead (some records) =
    record_loop-IsRead records no_entries ((λ h. ground (arith, h), λ m. absurd m), refl)

pub newest_first-Member :
    (x : Text × Text) (ps table : List (Text × Text))
    → Member x (newest_first ps table) ↔ (Member x ps ⊎ Member x table)
newest_first-Member x [] table =
    (λ m. inr m, λ m. elim m [ inl none_left ↦ absurd none_left | inr t ↦ t ])
newest_first-Member x (p ∷ ps) table = grind (arith, newest_first-Member x ps (p ∷ table))
