-- ===== src/DashMap.antt =====
-- The map of the `dashmap` crate, as src/registry.rs uses it: an interface with the documented
-- behaviour of `get`, of `entry(k).and_modify(f).or_insert(v)` and of `iter`. Each of these calls
-- holds the entry's lock, so it is one step. `assoc_map` shows that the interface can be met.
use orbshred.Prelude.{
  ◌≡◌, refl, ◌↔◌, Bool, true, Option, none, some, List, [], ◌∷◌, arith, if◌then◌else◌,
}

-- What an entry holds after `and_modify(f).or_insert(v)`.
abbrev pub modify_or {ℓ} : {V : Type ℓ} → (V → V) → V → Option V → V
modify_or f v none = v
modify_or f v (some x) = f x

-- `same` decides equality.
abbrev pub Decides : {K : Type 0} → (K → K → Bool) → Type 0
Decides {K} same = (a b : K) → (same a b ≡ true) ↔ (a ≡ b)

module _ {K V : Type 0} (same : K → K → Bool) where
  -- The value at the first entry whose key is `k`.
  abbrev pub lookup_by : K → List (K × V) → Option V
  lookup_by k [] = none
  lookup_by k ((j, v) ∷ m) = if same j k then some v else lookup_by k m

  abbrev pub upsert_by : K → (V → V) → V → List (K × V) → List (K × V)
  upsert_by k f v [] = (k, v) ∷ []
  upsert_by k f v ((j, w) ∷ m) = if same j k then (j, f w) ∷ m else (j, w) ∷ upsert_by k f v m

  pub lookup_by-upsert_by :
      Decides same
      → (k j : K) (f : V → V) (v : V) (m : List (K × V))
      → lookup_by j (upsert_by k f v m)
        ≡ (if same k j then some (modify_or f v (lookup_by k m)) else lookup_by j m)
  lookup_by-upsert_by d k j f v [] = refl
  lookup_by-upsert_by d k j f v ((i, w) ∷ m) =
      ground (arith, d i k, d i j, d k j, lookup_by-upsert_by d k j f v m)

pub record DashMap (K V : Type 0) (same : K → K → Bool) : Type 1 where
  pub Map : Type 0
  pub empty : Map
  pub get : K → Map → Option V
  pub upsert : K → (V → V) → V → Map → Map
  pub entries : Map → List (K × V)
  pub get-empty : (k : K) → get k empty ≡ none
  pub get-upsert :
      (k j : K) (f : V → V) (v : V) (m : Map)
      → get j (upsert k f v m) ≡ (if same k j then some (modify_or f v (get k m)) else get j m)
  pub lookup_by-entries : (k : K) (m : Map) → lookup_by same k (entries m) ≡ get k m

abbrev pub assoc_map : {K V : Type 0} (same : K → K → Bool) → Decides same → DashMap K V same
assoc_map {K} {V} same d = record {
  Map = List (K × V);
  empty = [];
  get = lookup_by same;
  upsert = upsert_by same;
  entries = λ m. m;
  get-empty = λ k. refl;
  get-upsert = lookup_by-upsert_by same d;
  lookup_by-entries = λ k m. refl;
}
