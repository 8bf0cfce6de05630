-- ===== src/Cache/Filling.antt =====
-- langserver/cache.go: Get under concurrency. A goroutine that misses adds an unready value and
-- fills it later; one that hits waits for the value.
use mathlib.Core.Path.{subst}
use go_langserver.Cache.Isolation.{peek-purge, eq_key_iff}
use go_langserver.Common.{
  All, All-map, All_both, All_split, List, Option, [], any, ap, arith, if◌then◌else◌, inl, inr,
  none, refl, some, sym, true, ℕ, ◌++◌, ◌+◌, ◌<◌, ◌==◌, ◌∙◌, ◌∷◌, ◌≡◌, ◌≢◌, ◌⊎◌,
}
use go_langserver.Cache.{
  Lru, CacheKey, unready, hit, miss, Process, get_locked, fill_value, purge, wait_value, CacheValue,
  ready,
}

abbrev key_of : ℕ → ℕ → CacheKey
key_of id k = record { id = id; k = k }

abbrev Among : ℕ → List ℕ → Type 0
Among v fs = any (λ q. q == v) fs ≡ true

abbrev Distinct : List ℕ → Type 0
Distinct [] = Unit
Distinct (v ∷ fs) = All (λ q. q ≢ v) fs × Distinct fs

Distinct-split :
    (xs : List ℕ) (v : ℕ) (ys : List ℕ)
    → Distinct (xs ++ v ∷ ys)
    → All (λ q. q ≢ v) (xs ++ ys) × Distinct (xs ++ ys)
Distinct-split [] v ys (u, d) = (u, d)
Distinct-split (x ∷ xs) v ys (u, d) =
    let (w, d') = Distinct-split xs v ys d in
    let (ne, u') = All_split (λ q. q ≢ x) xs v ys u in ((λ e. ne (sym e), w), (u', d'))

Among-split :
    (xs : List ℕ) (v w : ℕ) (ys : List ℕ) → w ≢ v → Among w (xs ++ v ∷ ys) → Among w (xs ++ ys)
Among-split [] v w ys ne h = ground arith
Among-split (x ∷ xs) v w ys ne h = ground (arith, Among-split xs v w ys ne)

module _ (L : Lru ℕ) {A : Type 0} where
  -- The states of a process, with the values that are being filled: lookups, the ends of fills and
  -- purges follow one another in any order.
  pub data Run : Process L A → List ℕ → Type 0 where
    idle : (p : Process L A) → ((k : CacheKey) → L.peek p.c k ≡ none) → p.next ≡ 0 → Run p []
    found :
        {p p' : Process L A} {fs : List ℕ} (id k v : ℕ)
        → get_locked L id k p ≡ (p', hit v)
        → Run p fs
        → Run p' fs
    missed :
        {p p' : Process L A} {fs : List ℕ} (id k v : ℕ)
        → get_locked L id k p ≡ (p', miss v)
        → Run p fs
        → Run p' (v ∷ fs)
    filled :
        {p : Process L A} (xs : List ℕ) (v : ℕ) (ys : List ℕ) (result : Option A)
        → Run p (xs ++ v ∷ ys)
        → Run (fill_value L v result p) (xs ++ ys)
    purged :
        {p : Process L A} {fs : List ℕ} (id : ℕ)
        → Run p fs
        → Run (record p { c = purge L id p.c }) fs

  -- Every value is either being filled by exactly one goroutine, or ready.
  record IsSound (p : Process L A) (fs : List ℕ) : Type 0 where
    known : (k : CacheKey) (v : ℕ) → L.peek p.c k ≡ some v → v < p.next
    waiting : (v : ℕ) → v < p.next → (p.value v ≡ unready) → Among v fs
    filling : All (λ v. (v < p.next) × (p.value v ≡ unready)) fs
    distinct : Distinct fs

  -- What the locked part of Get does, by the state of the cache.
  get_hit :
      (id k v : ℕ) (p p' : Process L A)
      → get_locked L id k p ≡ (p', hit v)
      → (L.peek p.c (record { id = id; k = k }) ≡ some v)
        × (p' ≡ record p { c = (L.get p.c (record { id = id; k = k })).1 })
  unfolding get_locked
  get_hit id k v p p' h = ground (arith, L.get_peek p.c (record { id = id; k = k }))

  get_miss :
      (id k v : ℕ) (p p' : Process L A)
      → get_locked L id k p ≡ (p', miss v)
      → (v ≡ p.next)
        × (p' ≡ record {
          c = L.add (L.get p.c (record { id = id; k = k })).1 (record { id = id; k = k }) p.next;
          value = λ q. if q == p.next then unready else p.value q;
          next = p.next + 1;
        })
  unfolding get_locked
  get_miss id k v p p' h = ground (arith, L.get_peek p.c (record { id = id; k = k }))

  found-IsSound :
      (id k v : ℕ) (p p' : Process L A) (fs : List ℕ)
      → get_locked L id k p ≡ (p', hit v)
      → IsSound p fs
      → IsSound p' fs
  found-IsSound id k v p p' fs h s =
      subst (λ q. IsSound q fs) (sym (get_hit id k v p p' h).1)
        (record {
          known = λ j w e. s.known j w (sym (L.peek-get p.c (key_of id k) j) ∙ e);
          waiting = s.waiting;
          filling = s.filling;
          distinct = s.distinct;
        })

  added : ℕ → ℕ → Process L A → Process L A
  added id k p = record {
    c = L.add (L.get p.c (key_of id k)).1 (key_of id k) p.next;
    value = λ q. if q == p.next then unready else p.value q;
    next = p.next + 1;
  }

  added-IsSound :
      (id k : ℕ) (p : Process L A) (fs : List ℕ)
      → IsSound p fs
      → IsSound (added id k p) (p.next ∷ fs)
  unfolding added
  added-IsSound id k p fs s = record {
    known = λ j w e. ground (
      arith,
      eq_key_iff (key_of id k) j,
      L.peek-add (L.get p.c (key_of id k)).1 (key_of id k) p.next,
      L.add_old (L.get p.c (key_of id k)).1 (key_of id k) j p.next w,
      L.peek-get p.c (key_of id k) j,
      s.known j w,
    );
    waiting = λ w lt e. ground (arith, s.waiting w);
    filling = (
      (omega arith, ground arith),
      All-map _ _ fs (λ q h. (omega arith, ground arith)) s.filling,
    );
    distinct = (All-map _ _ fs (λ q h. omega arith) s.filling, s.distinct);
  }

  missed-IsSound :
      (id k v : ℕ) (p p' : Process L A) (fs : List ℕ)
      → get_locked L id k p ≡ (p', miss v)
      → IsSound p fs
      → IsSound p' (v ∷ fs)
  unfolding added
  missed-IsSound id k v p p' fs h s =
      let (e, f) = get_miss id k v p p' h in
      rw e (subst (λ q. IsSound q (p.next ∷ fs)) (sym f) (added-IsSound id k p fs s))

  filled-IsSound :
      (p : Process L A) (xs : List ℕ) (v : ℕ) (ys : List ℕ) (result : Option A)
      → IsSound p (xs ++ v ∷ ys)
      → IsSound (fill_value L v result p) (xs ++ ys)
  unfolding fill_value
  filled-IsSound p xs v ys result s =
      let (other, distinct) = Distinct-split xs v ys s.distinct in
      let (here, rest) = All_split _ xs v ys s.filling in
      record {
        known = s.known;
        waiting = λ w lt e. ground (arith, s.waiting w, Among-split xs v w ys);
        filling =
            All-map _ _ (xs ++ ys) (λ q h. (h.1.0, ground arith))
              (All_both _ _ (xs ++ ys) other rest);
        distinct = distinct;
      }

  purged-IsSound :
      (p : Process L A) (fs : List ℕ) (id : ℕ)
      → IsSound p fs
      → IsSound (record p { c = purge L id p.c }) fs
  purged-IsSound p fs id s = record {
    known = λ j w e. ground (arith, peek-purge L id p.c j, s.known j w);
    waiting = s.waiting;
    filling = s.filling;
    distinct = s.distinct;
  }

  Run-IsSound : {p : Process L A} {fs : List ℕ} → Run p fs → IsSound p fs
  Run-IsSound (idle p none_known none_used) = record {
    known = λ j w e. cc (none_known j);
    waiting = λ w lt e. absurd (omega arith);
    filling = tt;
    distinct = tt;
  }
  Run-IsSound (found id k v e r) = found-IsSound id k v _ _ _ e (Run-IsSound r)
  Run-IsSound (missed id k v e r) = missed-IsSound id k v _ _ _ e (Run-IsSound r)
  Run-IsSound (filled xs v ys result r) = filled-IsSound _ xs v ys result (Run-IsSound r)
  Run-IsSound (purged id r) = purged-IsSound _ _ id (Run-IsSound r)

  -- A lookup that hits a value finds it ready, or one goroutine is still going to fill it: no
  -- goroutine waits for a value that nobody fills.
  pub hit_served :
      {p p' : Process L A} {fs : List ℕ} (id k v : ℕ)
      → Run p fs
      → get_locked L id k p ≡ (p', hit v)
      → ((result : Option A) × (wait_value L v p' ≡ some result)) ⊎ Among v fs
  hit_served {p} {p'} {fs} id k v r h =
      let s = Run-IsSound r in
      let s' = found-IsSound id k v p p' fs h s in
      let known : v < p.next = s.known (key_of id k) v (get_hit id k v p p' h).0 in
      served p' (p'.value v) refl
        (s'.waiting v (rw (ap (λ (q : Process L A). q.next) (get_hit id k v p p' h).1) known))
    where
      served :
          (q : Process L A) (x : CacheValue A)
          → q.value v ≡ x
          → (q.value v ≡ unready → Among v fs)
          → ((result : Option A) × (wait_value L v q ≡ some result)) ⊎ Among v fs
      served q unready e f = inr (f e)
      served q (ready a) e f = inl (a, unfold wait_value in rw (e, wait_value))

  -- A value is filled once: where a fill ends, its value was not ready before, and from then on it
  -- is being filled by nobody.
  filled_once :
      {p : Process L A} (xs : List ℕ) (v : ℕ) (ys : List ℕ)
      → Run p (xs ++ v ∷ ys)
      → (wait_value L v p ≡ none) × All (λ q. q ≢ v) (xs ++ ys)
  filled_once {p} xs v ys r =
      let s = Run-IsSound r in
      let (here, _) = All_split _ xs v ys s.filling in
      (unfold wait_value in rw (here.1, wait_value), (Distinct-split xs v ys s.distinct).0)
