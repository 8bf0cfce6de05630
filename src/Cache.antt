-- ===== src/Cache.antt =====
-- langserver/cache.go: the typecheck and symbol caches on a shared LRU cache. The LRU cache
-- (hashicorp/golang-lru) is the interface `Lru`, with the behaviour that its documentation states;
-- the metrics are left out. A key is a number, which stands for the `interface{}` that callers give.
pub mod Isolation
pub mod Filling
pub mod Examples
use go_langserver.Common.{
  Bool, List, Option, [], any, false, if◌then◌else◌, none, some, true, ℕ, ◌&&◌, ◌+◌, ◌==◌, ◌∷◌, ◌≡◌,
}

pub record CacheKey : Type 0 where
  pub id : ℕ
  pub k : ℕ

unfoldable pub eq_key : CacheKey → CacheKey → Bool
eq_key a b = a.id == b.id && a.k == b.k

-- The cache that the process shares: `get` also returns the cache, whose order it may change, and
-- `add` may evict any entries.
pub record Lru (V : Type 0) : Type 1 where
  pub State : Type 0
  pub get : State → CacheKey → Option V × State
  pub add : State → CacheKey → V → State
  pub remove : State → CacheKey → State
  pub keys : State → List CacheKey
  -- what a `get` would find
  pub peek : State → CacheKey → Option V
  pub get_peek : (s : State) (k : CacheKey) → (get s k).0 ≡ peek s k
  pub peek-get : (s : State) (k j : CacheKey) → peek (get s k).1 j ≡ peek s j
  pub peek-add : (s : State) (k : CacheKey) (v : V) → peek (add s k v) k ≡ some v
  -- adding a key brings in no other one
  pub add_old :
      (s : State) (k j : CacheKey) (v w : V)
      → eq_key k j ≡ false
      → peek (add s k v) j ≡ some w
      → peek s j ≡ some w
  pub peek-remove :
      (s : State) (k j : CacheKey) → peek (remove s k) j ≡ (if eq_key k j then none else peek s j)
  -- every key that is found is listed
  pub keys_complete :
      (s : State) (k : CacheKey) (v : V) → peek s k ≡ some v → any (eq_key k) (keys s) ≡ true

-- A cacheValue: `ready` once its channel is closed, with the value of `fill`, or none if `fill`
-- panicked.
pub data CacheValue (A : Type 0) : Type 0 where
  unready : CacheValue A
  ready : Option A → CacheValue A

-- What the locked part of Get leaves to do: to wait for a value, or to fill a new one.
pub data Lookup : Type 0 where
  hit : ℕ → Lookup
  miss : ℕ → Lookup

module _ (L : Lru ℕ) where
  open L use {State}

  -- The process: the shared LRU cache holds pointers to the values.
  pub record Process (A : Type 0) : Type 0 where
    pub c : State
    pub value : ℕ → CacheValue A
    pub next : ℕ

  module _ {A : Type 0} where
    -- Get up to the end of the locked part; `id` is the boundedCache's.
    unfoldable pub get_locked : ℕ → ℕ → Process A → Process A × Lookup
    get_locked id k p =
        let key : CacheKey = record { id = id; k = k } in
        let (found, c') = L.get p.c key in
        elim found [
          | some v ↦ (record p { c = c' }, hit v)
          | none ↦ (
            record {
              c = L.add c' key p.next;
              value = λ q. if q == p.next then unready else p.value q;
              next = p.next + 1;
            },
            miss p.next,
          )
        ]

    -- `v.value = fill()` and the deferred `close(v.ready)`
    unfoldable pub fill_value : ℕ → Option A → Process A → Process A
    fill_value v result p = record p { value = λ q. if q == v then ready result else p.value q }

    -- `<-v.ready` and `return v.value`: none while the channel is open
    unfoldable pub wait_value : ℕ → Process A → Option (Option A)
    wait_value v p = elim (p.value v) [ unready ↦ none | ready a ↦ some a ]

  -- The loop of Purge over the keys.
  unfoldable pub purge_keys : ℕ → List CacheKey → State → State
  purge_keys id [] s = s
  purge_keys id (key ∷ keys) s = purge_keys id keys (if key.id == id then L.remove s key else s)

  -- Purge as one step; the mutex is the handler's own, so a Get of another handler could come in between.
  unfoldable pub purge : ℕ → State → State
  unfolding purge_keys
  purge id s = purge_keys id (L.keys s) s
