-- ===== src/Setup/Ids.antt =====
-- src/main.rs:150-257: every active source has an id of its own and a name under that id.
use Prim.Native.String.{String}
use orbshred.Prelude.{
  ℕ, suc, ◌+◌, ◌≤◌, ◌<◌, ◌≡◌, refl, ◌∙◌, inl, inr, Option, none, some, List, [], ◌∷◌, ◌++◌, arith,
  ◌==◌, if◌then◌else◌, Bool-cases, ==_iff, ==_self,
}
use orbshred.DashMap.{lookup_by, upsert_by, lookup_by-upsert_by, modify_or}
use orbshred.Registry.{SourceId, same_id}
use orbshred.Setup.{Names, Started, Setup, add_shred, add_entry_source}

-- How often an id stands in a list.
unfoldable pub uses : SourceId → Names → ℕ
uses i [] = 0
uses i ((j, n) ∷ l) = if j == i then suc (uses i l) else uses i l

pub uses-append : (i : SourceId) (l m : Names) → uses i (l ++ m) ≡ uses i l + uses i m
unfolding uses
uses-append i [] m = omega arith
uses-append i ((j, n) ∷ l) m = ground (arith, uses-append i l m)

-- How many active sources have the id.
abbrev pub sources_with : SourceId → Setup → ℕ
sources_with i s = uses i s.active_shred_sources + uses i s.active_entry_sources

-- The list gives the id the name that the name table has.
abbrev pub NamedIn : Names → Names → Type 0
NamedIn names [] = Unit {0}
NamedIn names ((i, n) ∷ l) = (lookup_by same_id i names ≡ some n) × NamedIn names l

-- No id is used twice, ids are below `b`, and every active source is in the name table under its id.
pub record IsNumbered (b : ℕ) (s : Setup) : Type 0 where
  pub once : (i : SourceId) → sources_with i s ≤ 1
  pub below : (i : SourceId) → b ≤ i → sources_with i s ≡ 0
  pub shreds_named : NamedIn s.source_names s.active_shred_sources
  pub entries_named : NamedIn s.source_names s.active_entry_sources

NamedIn-append : (names l m : Names) → NamedIn names l → NamedIn names m → NamedIn names (l ++ m)
NamedIn-append names [] m f g = g
NamedIn-append names ((i, n) ∷ l) m f g = (f.0, NamedIn-append names l m f.1 g)

-- A name for an unused id changes no other.
NamedIn-upsert_by :
    (id : SourceId) (name : String) (names l : Names)
    → uses id l ≡ 0
    → NamedIn names l
    → NamedIn (upsert_by same_id id (λ _. name) name names) l
unfolding uses
NamedIn-upsert_by id name names [] u f = tt
NamedIn-upsert_by id name names ((i, n) ∷ l) u f = elim (Bool-cases (i == id)) [
  | inl hit ↦ absurd (ground (arith, u, hit))
  | inr miss ↦ (
    lookup_by-upsert_by same_id ==_iff id i (λ _. name) name names ∙ ground (arith, miss, f.0),
    NamedIn-upsert_by id name names l (ground (arith, u, miss)) f.1,
  )
]

new_name :
    (id : SourceId) (name : String) (names : Names)
    → lookup_by same_id id (upsert_by same_id id (λ _. name) name names) ≡ some name
new_name id name names =
    lookup_by-upsert_by same_id ==_iff id id (λ _. name) name names
    ∙ rw (==_self id) (named (lookup_by same_id id names))
  where
    named : (o : Option String) → some (modify_or (λ _. name) name o) ≡ some name
    named none = refl
    named (some m) = refl

pub add_shred-IsNumbered :
    (b c : ℕ) (id : SourceId) (name : String) (s : Setup)
    → sources_with id s ≡ 0
    → id < c
    → b ≤ c
    → IsNumbered b s
    → IsNumbered c (add_shred id name s)
unfolding add_shred uses
add_shred-IsNumbered b c id name s u h le n = record {
  once = λ i. ground (arith, uses-append i s.active_shred_sources ((id, name) ∷ []), n.once i, u);
  below = λ i k. ground (arith, uses-append i s.active_shred_sources ((id, name) ∷ []), n.below i);
  shreds_named =
      NamedIn-append _ s.active_shred_sources ((id, name) ∷ [])
        (NamedIn-upsert_by id name s.source_names s.active_shred_sources (omega (arith, u))
          n.shreds_named)
        (new_name id name s.source_names, tt);
  entries_named =
      NamedIn-upsert_by id name s.source_names s.active_entry_sources (omega (arith, u))
        n.entries_named;
}

pub add_entry_source-IsNumbered :
    (b c : ℕ) (id : SourceId) (name : String) (s : Setup)
    → sources_with id s ≡ 0
    → id < c
    → b ≤ c
    → IsNumbered b s
    → IsNumbered c (add_entry_source id name s)
unfolding add_entry_source uses
add_entry_source-IsNumbered b c id name s u h le n = record {
  once = λ i. ground (arith, uses-append i s.active_entry_sources ((id, name) ∷ []), n.once i, u);
  below = λ i k. ground (arith, uses-append i s.active_entry_sources ((id, name) ∷ []), n.below i);
  entries_named =
      NamedIn-append _ s.active_entry_sources ((id, name) ∷ [])
        (NamedIn-upsert_by id name s.source_names s.active_entry_sources (omega (arith, u))
          n.entries_named)
        (new_name id name s.source_names, tt);
  shreds_named =
      NamedIn-upsert_by id name s.source_names s.active_shred_sources (omega (arith, u))
        n.shreds_named;
}

-- The sources do not depend on the next id nor on what was started.
pub IsNumbered-next :
    (b c next : ℕ) (rs : List Started) (s : Setup)
    → b ≤ c
    → IsNumbered b s
    → IsNumbered c (record s { next_id = next; started = rs })
IsNumbered-next b c next rs s h n = record {
  once = n.once;
  below = λ i k. n.below i (omega arith);
  shreds_named = n.shreds_named;
  entries_named = n.entries_named;
}
