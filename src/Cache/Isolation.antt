-- ===== src/Cache/Isolation.antt =====
-- langserver/cache.go: Purge on the cache that several handlers share.
use go_langserver.Common.{
  List, Option-cases, [], any, arith, if◌then◌else◌, inl, inr, none, true, ℕ, ◌&&◌, ◌==◌, ◌↔◌, ◌∙◌,
  ◌∷◌, ◌≡◌,
}
use go_langserver.Cache.{Lru, CacheKey, eq_key, purge_keys, purge}

pub eq_key_iff : (a b : CacheKey) → (eq_key a b ≡ true) ↔ (a ≡ b)
unfolding eq_key
eq_key_iff a b = ground arith

module _ (L : Lru ℕ) where
  peek-purge_keys :
      (id : ℕ) (keys : List CacheKey) (s : L.State) (k : CacheKey)
      → L.peek (purge_keys L id keys s) k
        ≡ (if k.id == id && any (eq_key k) keys then none else L.peek s k)
  unfolding purge_keys
  peek-purge_keys id [] s k = ground arith
  peek-purge_keys id (key ∷ keys) s k = ground (
    arith,
    peek-purge_keys id keys (if key.id == id then L.remove s key else s) k,
    L.peek-remove s key k,
    eq_key_iff key k,
    eq_key_iff k key,
  )

  -- Purge removes every entry of its own cache, and no entry of another one.
  pub peek-purge :
      (id : ℕ) (s : L.State) (k : CacheKey)
      → L.peek (purge L id s) k ≡ (if k.id == id then none else L.peek s k)
  unfolding purge
  peek-purge id s k = elim (Option-cases (L.peek s k)) [
    | inl e ↦ peek-purge_keys id (L.keys s) s k ∙ rw e (ground arith)
    | inr (v, e) ↦ peek-purge_keys id (L.keys s) s k ∙ rw (L.keys_complete s k v e) (ground arith)
  ]
