-- ===== src/MemoryClient/Cache.antt =====
-- `InMemoryCache`. Clock readings are microseconds, a time to live is in seconds.
use claude_library.Prelude.{
  ℕ, ◌+◌, ◌*◌, String, ◌≡◌, ◌⊎◌, inl, inr, refl, sym, ◌∙◌, ◌&&◌, Option, none, some, List, [], ◌∷◌,
  arith, ltb, leb, if◌then◌else◌, length, Bool-cases, Option-cases,
}
use claude_library.Prelude.Key.{string_key}
use claude_library.Prelude.Dict.{Dict, lookup, insert, erase, lookup-erase}

-- An entry is a text with the time at which it expires.
pub record InMemoryCache : Type 0 where
  pub entries : Dict String (String × ℕ)
  pub cleanup_interval : ℕ
  pub access_count : ℕ

abbrev pub empty_cache : ℕ → InMemoryCache
empty_cache n = record { entries = []; cleanup_interval = n; access_count = 0 }

unfoldable pub set : ℕ → String → String → ℕ → InMemoryCache → InMemoryCache
set now key value ttl_seconds c = record c {
  entries = insert key (value, now + ttl_seconds * 1000000) c.entries;
}

expired_keys : ℕ → Dict String (String × ℕ) → List String
expired_keys now [] = []
expired_keys now ((key, entry) ∷ d) =
    let rest = expired_keys now d in if ltb entry.1 now then key ∷ rest else rest

erase_all : List String → Dict String (String × ℕ) → Dict String (String × ℕ)
erase_all [] d = d
erase_all (k ∷ ks) d = erase_all ks (erase k d)

-- The number of entries that are removed, with the cache.
unfoldable pub cleanup : ℕ → InMemoryCache → ℕ × InMemoryCache
unfolding expired_keys erase_all
cleanup now c =
    let keys = expired_keys now c.entries in
    (length keys, record c { entries = erase_all keys c.entries })

-- The head of `get`: every so many accesses the cache is cleaned.
unfoldable pub count_access : ℕ → InMemoryCache → InMemoryCache
unfolding cleanup
count_access now c =
    let counted = record c { access_count = c.access_count + 1 } in
    let cleaned = (cleanup now counted).1 in
    if ltb 0 c.cleanup_interval && leb c.cleanup_interval counted.access_count
    then record cleaned { access_count = 0 }
    else counted

unfoldable pub get : ℕ → String → InMemoryCache → Option String × InMemoryCache
unfolding count_access
get now key c =
    let d = count_access now c in
    elim (lookup key d.entries) [
      | none ↦ (none, d)
      | some e ↦
          if ltb e.1 now then (none, record d { entries = erase key d.entries }) else (some e.0, d)
    ]

-- A cache that has lost entries, and has no others.
abbrev pub KeepsOrLoses : Dict String (String × ℕ) → Dict String (String × ℕ) → Type 0
KeepsOrLoses before after =
    (key : String) → (lookup key after ≡ lookup key before) ⊎ (lookup key after ≡ none)

erase-KeepsOrLoses : (k : String) (d : Dict String (String × ℕ)) → KeepsOrLoses d (erase k d)
erase-KeepsOrLoses k d key = ground (arith, lookup-erase k key d)

erase_all-KeepsOrLoses :
    (ks : List String) (d : Dict String (String × ℕ)) → KeepsOrLoses d (erase_all ks d)
unfolding erase_all
erase_all-KeepsOrLoses [] d key = inl refl
erase_all-KeepsOrLoses (k ∷ ks) d key =
    let one = erase-KeepsOrLoses k d key in
    let rest = erase_all-KeepsOrLoses ks (erase k d) key in ground (arith, one, rest)

count_access-KeepsOrLoses :
    (now : ℕ) (c : InMemoryCache) → KeepsOrLoses c.entries (count_access now c).entries
unfolding count_access cleanup
count_access-KeepsOrLoses now c key =
    ground (arith, erase_all-KeepsOrLoses (expired_keys now c.entries) c.entries key)

-- Neither a look-up nor the cleaning that goes with it changes an entry: some are removed.
pub get-KeepsOrLoses :
    (now : ℕ) (k : String) (c : InMemoryCache) → KeepsOrLoses c.entries (get now k c).1.entries
unfolding get
get-KeepsOrLoses now k c key =
    let d = count_access now c in
    let one = count_access-KeepsOrLoses now c key in
    let two = erase-KeepsOrLoses k d.entries key in ground (arith, one, two)

was_there :
    (k : String) (d e : Dict String (String × ℕ)) (x : String × ℕ)
    → KeepsOrLoses d e
    → lookup k e ≡ some x
    → lookup k d ≡ some x
was_there k d e x h f = elim (h k) [ inl same ↦ sym same ∙ f | inr lost ↦ absurd (cc (lost, f)) ]

-- A look-up finds nothing, or the text of the entry that was there before.
pub get_found :
    (now : ℕ) (k : String) (c : InMemoryCache)
    → ((get now k c).0 ≡ none)
      ⊎ ((x : String × ℕ) × (lookup k c.entries ≡ some x) × ((get now k c).0 ≡ some x.0))
unfolding get
get_found now k c =
    let d = count_access now c in
    elim (Option-cases (lookup k d.entries)) [
      | inl e ↦ inl (ground (arith, e))
      | inr (x, e) ↦
          let before = was_there k c.entries d.entries x (count_access-KeepsOrLoses now c) e in
          elim (Bool-cases (ltb x.1 now)) [
            | inl f ↦ inl (ground (arith, e, f))
            | inr f ↦ inr (x, before, ground (arith, e, f))
          ]
    ]
