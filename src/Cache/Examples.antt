-- ===== src/Cache/Examples.antt =====
-- langserver/cache.go: the theorems on a cache that is a list of entries and evicts none.
use go_langserver.Common.{
  List, Option, [], any, arith, false, if◌then◌else◌, none, refl, some, true, ℕ, ◌==◌, ◌∷◌, ◌≡◌,
  ◌⊎◌,
}
use go_langserver.Cache.{Lru, CacheKey, eq_key, unready, hit, miss, Process, get_locked, wait_value}
use go_langserver.Cache.Isolation.{eq_key_iff}
use go_langserver.Cache.Filling.{Run, idle, missed, hit_served}

abbrev Entries : Type 0
Entries = List (CacheKey × ℕ)

abbrev find_entry : Entries → CacheKey → Option ℕ
find_entry [] k = none
find_entry ((key, v) ∷ s) k = if eq_key key k then some v else find_entry s k

abbrev remove_entries : Entries → CacheKey → Entries
remove_entries [] k = []
remove_entries ((key, v) ∷ s) k =
    let rest = remove_entries s k in if eq_key k key then rest else (key, v) ∷ rest

abbrev entry_keys : Entries → List CacheKey
entry_keys [] = []
entry_keys ((key, v) ∷ s) = key ∷ entry_keys s

remove_entries_lem :
    (s : Entries) (k j : CacheKey)
    → find_entry (remove_entries s k) j ≡ (if eq_key k j then none else find_entry s j)
remove_entries_lem [] k j = ground arith
remove_entries_lem ((key, v) ∷ s) k j =
    ground (arith, remove_entries_lem s k j, eq_key_iff k key, eq_key_iff key j, eq_key_iff k j)

entry_keys_complete :
    (s : Entries) (k : CacheKey) (v : ℕ)
    → find_entry s k ≡ some v
    → any (eq_key k) (entry_keys s) ≡ true
entry_keys_complete [] k v h = absurd cc
entry_keys_complete ((key, w) ∷ s) k v h =
    ground (arith, entry_keys_complete s k v, eq_key_iff k key, eq_key_iff key k)

add_found : (s : Entries) (k : CacheKey) (v : ℕ) → find_entry ((k, v) ∷ s) k ≡ some v
add_found s k v = ground (arith, eq_key_iff k k)

add_others :
    (s : Entries) (k j : CacheKey) (v w : ℕ)
    → eq_key k j ≡ false
    → find_entry ((k, v) ∷ s) j ≡ some w
    → find_entry s j ≡ some w
add_others s k j v w e h = rw e at h

abbrev entry_cache : Lru ℕ
entry_cache = record {
  State = Entries;
  get = λ s k. (find_entry s k, s);
  add = λ s k v. (k, v) ∷ s;
  remove = remove_entries;
  keys = entry_keys;
  peek = find_entry;
  get_peek = λ s k. refl;
  peek-get = λ s k j. refl;
  peek-add = add_found;
  add_old = add_others;
  peek-remove = remove_entries_lem;
  keys_complete = entry_keys_complete;
}

abbrev shared_key : CacheKey
shared_key = record { id = 2; k = 7 }

abbrev empty : Process entry_cache ℕ
empty = record { c = []; value = λ v. unready; next = 0 }

abbrev filling : Process entry_cache ℕ
filling = (get_locked entry_cache 2 7 empty).0

first_missed : get_locked entry_cache 2 7 empty ≡ (filling, miss 0)
unfolding get_locked
first_missed = refl

filling-Run : Run entry_cache filling (0 ∷ [])
filling-Run = missed 2 7 0 first_missed (idle empty (λ k. refl) refl)

second_hit : get_locked entry_cache 2 7 filling ≡ (filling, hit 0)
unfolding get_locked eq_key
second_hit = refl

hit_served_example :
    ((result : Option ℕ) × (wait_value entry_cache 0 filling ≡ some result))
    ⊎ (any (λ q. q == 0) (0 ∷ []) ≡ true)
hit_served_example =
    hit_served entry_cache {p = filling} {p' = filling} {fs = 0 ∷ []} 2 7 0 filling-Run second_hit
