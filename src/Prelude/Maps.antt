-- ===== src/Prelude/Maps.antt =====
-- A Go map with string keys as an association list: the first entry of a key is its value.
use swash.Prelude.Tests.{if◌then◌else◌}
use swash.Prelude.Text.{Bytes, same, same_iff, same_refl}
use mathlib.Core.Path.{◌≡◌, refl}
use mathlib.Core.List.{List, [], ◌∷◌}
use mathlib.Core.Option.{Option, none, some}
use native.Mathlib.Omega.{arith}

abbrev pub Map : Type 0 → Type 0
Map V = List (Bytes × V)

-- The fields of an event, `map[string]string`.
abbrev pub Fields : Type 0
Fields = Map Bytes

abbrev pub or_else {ℓ} : {A : Type ℓ} → Option A → Option A → Option A
or_else none b = b
or_else (some a) b = some a

module _ {V : Type 0} where
  -- `v, ok := m[key]`.
  unfoldable pub find : Bytes → Map V → Option V
  find key [] = none
  find key ((k, v) ∷ m) = if same k key then some v else find key m

  -- `m[key] = v`.
  unfoldable pub put : Map V → Bytes → V → Map V
  put [] key v = (key, v) ∷ []
  put ((k, w) ∷ m) key v = if same k key then (key, v) ∷ m else (k, w) ∷ put m key v

  -- `delete(m, key)`.
  unfoldable pub remove : Map V → Bytes → Map V
  remove [] key = []
  remove ((k, w) ∷ m) key = if same k key then remove m key else (k, w) ∷ remove m key

  -- `maps.Copy(dst, src)`.
  unfoldable pub copy : Map V → Map V → Map V
  unfolding put
  copy dst [] = dst
  copy dst ((k, v) ∷ src) = put (copy dst src) k v

  pub find-put :
      (m : Map V) (key k : Bytes) (v : V)
      → find k (put m key v) ≡ (if same key k then some v else find k m)
  unfolding find put
  find-put [] key k v = refl
  find-put ((j, w) ∷ m) key k v =
      ground (arith, same_iff j key, same_iff key k, same_iff j k, find-put m key k v)

  pub find-remove :
      (m : Map V) (key k : Bytes) → find k (remove m key) ≡ (if same key k then none else find k m)
  unfolding find remove
  find-remove [] key k = ground arith
  find-remove ((j, w) ∷ m) key k =
      ground (arith, same_iff j key, same_iff key k, same_iff j k, find-remove m key k)

  -- The source's entries win over those of the target.
  pub find-copy :
      (dst src : Map V) (k : Bytes) → find k (copy dst src) ≡ or_else (find k src) (find k dst)
  unfolding find copy
  find-copy dst [] k = refl
  find-copy dst ((j, v) ∷ src) k =
      ground (arith, find-put (copy dst src) j k v, find-copy dst src k)

  pub find-copy_nil : (m : Map V) (k : Bytes) → find k (copy [] m) ≡ find k m
  find-copy_nil m k = rw find-copy (none_last (find k m))
    where
      none_last : (o : Option V) → or_else o (find k []) ≡ o
      none_last none = unfold find in refl
      none_last (some v) = refl

pub ruleset map_laws = (find-put, find-remove, find-copy_nil, same_refl)
