-- ===== src/Base/Map.antt =====
-- Hash maps as association lists. The order of the entries stands for the map's iteration order,
-- which the program may not rely on; every lemma holds for each order. No code is modelled here.
use mathlib.Core.Logic.{ite, if_pos, if_neg, ◌≢◌, inl, inr}
use mathlib.Core.Bool.{Bool}
use mathlib.Core.Option.{Option, none, some}
use mathlib.Core.List.{List, [], ◌∷◌}
use mathlib.Core.Path.{◌≡◌, refl, sym, ap, ◌∙◌}
use native.Mathlib.Omega.{arith}
use Prim.Native.Nat.{◌+◌, ◌≤◌, ◌<◌}
use reticulum_sdk.Base.Lists.{length}
use reticulum_sdk.Base.Tests.{if◌then◌else◌, Bool-cases}

module _ {K V : Type 0} (dec : Discrete K) where
  unfoldable pub get : K → List (K × V) → Option V
  get k [] = none
  get k (e ∷ m) = ite (dec e.0 k) (some e.1) (get k m)

  unfoldable pub remove : K → List (K × V) → List (K × V)
  remove k [] = []
  remove k (e ∷ m) = ite (dec e.0 k) (remove k m) (e ∷ remove k m)

  abbrev pub insert : K → V → List (K × V) → List (K × V)
  insert k v m = (k, v) ∷ remove k m

  -- `get_mut`, and a change of the value that it finds.
  unfoldable pub update : K → (V → V) → List (K × V) → List (K × V)
  update k f [] = []
  update k f (e ∷ m) = ite (dec e.0 k) ((e.0, f e.1) ∷ m) (e ∷ update k f m)

  -- No key twice: the representation invariant of a hash map.
  abbrev pub Unique : List (K × V) → Type 0
  Unique [] = Unit {0}
  Unique (e ∷ m) = (get e.0 m ≡ none) × Unique m

  pub get-remove : (j k : K) (m : List (K × V)) → get j (remove k m) ≡ ite (dec k j) none (get j m)
  unfolding get remove
  get-remove j k [] = ground arith
  get-remove j k (e ∷ m) = ground (arith, get-remove j k m)

  pub get-insert :
      (j k : K) (v : V) (m : List (K × V)) → get j (insert k v m) ≡ ite (dec k j) (some v) (get j m)
  unfolding get
  get-insert j k v m = ground (arith, get-remove j k m)

  pub get-insert_self : (k : K) (v : V) (m : List (K × V)) → get k (insert k v m) ≡ some v
  get-insert_self k v m = get-insert k k v m ∙ if_pos (dec k k) refl _ _

  pub get-insert_ne : (j k : K) (v : V) (m : List (K × V)) → k ≢ j → get j (insert k v m) ≡ get j m
  get-insert_ne j k v m h = get-insert j k v m ∙ if_neg (dec k j) h _ _

  pub get-remove_self : (k : K) (m : List (K × V)) → get k (remove k m) ≡ none
  get-remove_self k m = get-remove k k m ∙ if_pos (dec k k) refl _ _

  pub get-remove_ne : (j k : K) (m : List (K × V)) → k ≢ j → get j (remove k m) ≡ get j m
  get-remove_ne j k m h = get-remove j k m ∙ if_neg (dec k j) h _ _

  abbrev pub mapped : (V → V) → Option V → Option V
  mapped f none = none
  mapped f (some v) = some (f v)

  pub get-update :
      (j k : K) (f : V → V) (m : List (K × V))
      → get j (update k f m) ≡ ite (dec k j) (mapped f (get j m)) (get j m)
  unfolding get update
  get-update j k f [] = ground arith
  get-update j k f (e ∷ m) = ground (arith, get-update j k f m)

  pub length-update : (k : K) (f : V → V) (m : List (K × V)) → length (update k f m) ≡ length m
  unfolding update
  length-update k f [] = refl
  length-update k f (e ∷ m) = ground (arith, length-update k f m)

  pub length-remove-le : (k : K) (m : List (K × V)) → length (remove k m) ≤ length m
  unfolding remove
  length-remove-le k [] = omega arith
  length-remove-le k (e ∷ m) = ground (arith, length-remove-le k m)

  pub length-remove_present :
      (k : K) (m : List (K × V)) (v : V) → get k m ≡ some v → length (remove k m) < length m
  unfolding get remove
  length-remove_present k [] v h = cc
  length-remove_present k (e ∷ m) v h =
      ground (arith, length-remove-le k m, length-remove_present k m v)

  remove_absent : (k : K) (m : List (K × V)) → get k m ≡ none → remove k m ≡ m
  unfolding get remove
  remove_absent k [] h = refl
  remove_absent k (e ∷ m) h = ground (arith, remove_absent k m)

  -- The size of a map counts its keys.
  pub length-remove-Unique :
      (k : K) (m : List (K × V)) (v : V)
      → Unique m
      → get k m ≡ some v
      → length (remove k m) + 1 ≡ length m
  unfolding get remove
  length-remove-Unique k [] v u h = cc
  length-remove-Unique k (e ∷ m) v u h = elim (dec e.0 k) [
    | yes same ↦
        let gone : remove k m ≡ m = remove_absent k m (ap (λ x. get x m) (sym same) ∙ u.0) in
        rw (if_pos (dec e.0 k) same, gone) (omega arith)
    | no other ↦
        rw (if_neg (dec e.0 k) other)
          (omega (arith, length-remove-Unique k m v u.1 (sym (if_neg (dec e.0 k) other _ _) ∙ h)))
  ]

  pub remove-Unique : (k : K) (m : List (K × V)) → Unique m → Unique (remove k m)
  unfolding remove
  remove-Unique k [] u = tt
  remove-Unique k (e ∷ m) u = elim (dec e.0 k) [
    | yes same ↦ rw (if_pos (dec e.0 k) same) (remove-Unique k m u.1)
    | no other ↦
        rw (if_neg (dec e.0 k) other)
          (get-remove_ne e.0 k m (λ q. other (sym q)) ∙ u.0, remove-Unique k m u.1)
  ]

  pub insert-Unique : (k : K) (v : V) (m : List (K × V)) → Unique m → Unique (insert k v m)
  insert-Unique k v m u = (get-remove_self k m, remove-Unique k m u)

  get-update-none :
      (j k : K) (f : V → V) (m : List (K × V)) → get j m ≡ none → get j (update k f m) ≡ none
  get-update-none j k f m h = ground (arith, get-update j k f m)

  pub update-Unique : (k : K) (f : V → V) (m : List (K × V)) → Unique m → Unique (update k f m)
  unfolding update
  update-Unique k f [] u = tt
  update-Unique k f (e ∷ m) u = elim (dec e.0 k) [
    | yes same ↦ rw (if_pos (dec e.0 k) same) u
    | no other ↦
        rw (if_neg (dec e.0 k) other) (get-update-none e.0 k f m u.0, update-Unique k f m u.1)
  ]

-- `retain`
module _ {K V : Type 0} (keep : K → V → Bool) where
  unfoldable pub retain : List (K × V) → List (K × V)
  retain [] = []
  retain (e ∷ m) = if keep e.0 e.1 then e ∷ retain m else retain m

  pub length-retain-le : (m : List (K × V)) → length (retain m) ≤ length m
  unfolding retain
  length-retain-le [] = omega arith
  length-retain-le (e ∷ m) = ground (arith, length-retain-le m)

  module _ (dec : Discrete K) where
    abbrev pub kept : K → Option V → Option V
    kept k none = none
    kept k (some v) = if keep k v then some v else none

    get-retain-none : (k : K) (m : List (K × V)) → get dec k m ≡ none → get dec k (retain m) ≡ none
    unfolding get retain
    get-retain-none k [] h = refl
    get-retain-none k (e ∷ m) h = ground (arith, get-retain-none k m)

    -- What `retain` leaves under a key, by the test on what was there.
    pub get-retain :
        (k : K) (m : List (K × V)) → Unique dec m → get dec k (retain m) ≡ kept k (get dec k m)
    unfolding get retain
    get-retain k [] u = refl
    get-retain k (e ∷ m) u = elim (dec e.0 k) [
      | yes same ↦
          let gone = get-retain-none k m (ap (λ x. get dec x m) (sym same) ∙ u.0) in
          ground (arith, gone)
      | no other ↦ ground (arith, get-retain k m u.1)
    ]

    pub retain-Unique : (m : List (K × V)) → Unique dec m → Unique dec (retain m)
    unfolding retain
    retain-Unique [] u = tt
    retain-Unique (e ∷ m) u = elim (Bool-cases (keep e.0 e.1)) [
      | inl stays ↦ rw stays (get-retain-none e.0 m u.0, retain-Unique m u.1)
      | inr goes ↦ rw goes (retain-Unique m u.1)
    ]
