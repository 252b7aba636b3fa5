-- ===== src/Nats/Stores.antt =====
-- A key-value field as a map from keys to values, and the life of a subscription.
use xtemplate.Prelude.{
  ◌≡◌, ◌⊎◌, inl, inr, refl, ◌∙◌, ap, arith, true, Option, none, some, List, [], ◌∷◌, Text, text_eq,
  if◌then◌else◌,
}
use xtemplate.Prelude.Errors.{Error, ok}
use xtemplate.Nats.{
  Client, listening, Subscription, leave, close, Step, context_ends, leaves, closes, elsewhere,
  kv_put, kv_get, kv_delete, kv_purge,
}

-- A change of a store.
data Change : Type 0 where
  put : Text → Text → Change
  delete purge : Text → Change

abbrev Map : Type 0
Map = Text → Option Text

abbrev update : Text → Option Text → Map → Map
update key v m other = if text_eq key other then v else m other

-- What the change does to the map if it succeeds.
abbrev applied : Change → Map → Map
applied (put key value) m = update key (some value) m
applied (delete key) m = update key none m
applied (purge key) m = update key none m

abbrev after : Option Error → Change → Map → Map
after none c m = applied c m
after (some e) c m = m

module _ {W : Type 0} (o : Client W) where
  change : Change → W → W × Option Error
  unfolding kv_put kv_delete kv_purge
  change (put key value) w = kv_put o key value w
  change (delete key) w = kv_delete o key w
  change (purge key) w = kv_purge o key w

  changes : List Change → W → W
  unfolding change
  changes [] w = w
  changes (c ∷ cs) w = changes cs (change c w).0

  -- The changes that succeed, applied to a map.
  map_of : List Change → W → Map → Map
  unfolding change
  map_of [] w m = m
  map_of (c ∷ cs) w m = let r = change c w in map_of cs r.0 (after r.1 c m)

  -- The store behaves as a map: `view` is what it holds, an operation that fails changes nothing, and
  -- `get` reads it.
  record IsStore (view : W → Map) : Type 0 where
    putting :
        (k v t : Text) (w : W)
        → view (kv_put o k v w).0 t ≡ after (kv_put o k v w).1 (put k v) (view w) t
    deleting :
        (k t : Text) (w : W)
        → view (kv_delete o k w).0 t ≡ after (kv_delete o k w).1 (delete k) (view w) t
    purging :
        (k t : Text) (w : W)
        → view (kv_purge o k w).0 t ≡ after (kv_purge o k w).1 (purge k) (view w) t
    getting : (k v : Text) (w : W) → view w k ≡ some v → (kv_get o k w).1 ≡ ok v

  change-view :
      (view : W → Map) (c : Change) (w : W) (t : Text)
      → IsStore view
      → view (change c w).0 t ≡ after (change c w).1 c (view w) t
  unfolding change
  change-view view (put k v) w t s = s.putting k v t w
  change-view view (delete k) w t s = s.deleting k t w
  change-view view (purge k) w t s = s.purging k t w

  after-same :
      (e : Option Error) (c : Change) (m n : Map) (t : Text)
      → m t ≡ n t
      → after e c m t ≡ after e c n t
  after-same none (put k v) m n t h = ap (λ o. if text_eq k t then some v else o) h
  after-same none (delete k) m n t h = ap (λ o. if text_eq k t then none else o) h
  after-same none (purge k) m n t h = ap (λ o. if text_eq k t then none else o) h
  after-same (some e) c m n t h = h

  changes-map_of :
      (view : W → Map) (cs : List Change) (w : W) (m : Map)
      → IsStore view
      → ((t : Text) → view w t ≡ m t)
      → (t : Text) → view (changes cs w) t ≡ map_of cs w m t
  unfolding changes map_of
  changes-map_of view [] w m s same t = same t
  changes-map_of view (c ∷ cs) w m s same t =
      changes-map_of view cs (change c w).0 (after (change c w).1 c m) s
        (λ u. change-view view c w u s ∙ after-same (change c w).1 c (view w) m u (same u)) t

  -- However many values are put, deleted and purged through a key-value field, each of which may fail,
  -- `Get` then gives for every key the value that the operations that succeeded, as changes of a map,
  -- leave it with. It is assumed of the store that an operation that fails changes nothing.
  stored :
      (view : W → Map) (cs : List Change) (w : W) (key value : Text)
      → IsStore view
      → map_of cs w (view w) key ≡ some value
      → (kv_get o key (changes cs w)).1 ≡ ok value
  stored view cs w key value s held =
      s.getting key value (changes cs w)
        (changes-map_of view cs w (view w) s (λ t. refl) key ∙ held)

-- The states that a subscription comes to.
data Reach {W : Type 0} (o : Client W) (s : Subscription W) : Subscription W → Type 0 where
  here : Reach o s s
  next : {t u : Subscription W} → Reach o s t → Step o t u → Reach o s u

-- The goroutine of `Subscribe` leaves the subscription and closes the channel only once the context of
-- the request is done.
listens_until_done :
    {W : Type 0} (o : Client W) (s u : Subscription W)
    → s.channel ≡ listening
    → Reach o s u
    → (u.channel ≡ listening) ⊎ (u.done ≡ true)
unfolding leave close
listens_until_done o s u h here = inl h
listens_until_done o s u h (next rs context_ends) = inr refl
listens_until_done o s u h (next rs (leaves on ended)) = inr ended
listens_until_done o s u h (next rs (closes off)) =
    ground (arith, off, listens_until_done o s _ h rs)
listens_until_done o s u h (next rs (elsewhere w)) = listens_until_done o s _ h rs
