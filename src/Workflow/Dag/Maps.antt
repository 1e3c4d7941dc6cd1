-- ===== src/Workflow/Dag/Maps.antt =====
-- The dicts that the resolver builds from the steps: `step_map` and `in_degrees`.
use sccsos.Prelude.{
  ◌∙◌, ◌≤◌, ℕ, ◌+◌, String, ◌≡◌, refl, false, ◌||◌, inl, inr, Option, none, some, List, [], ◌∷◌,
  All, length, has, str_eq, arith, eq_iff, eq_refl, Bool-cases, subst,
}
use sccsos.Prelude.Dict.{Dict, get, put, keys, get-put}
use sccsos.Prelude.Sets.{count, bit, Unique}
use sccsos.Workflow.Definition.{WorkflowStepDef, ids}
use sccsos.Workflow.Dag.{
  map_from, step_map, contains, degrees_from, in_degrees, zero_degree, is_waiting,
}

contains-map_from :
    (k : String) (m : Dict WorkflowStepDef) (ss : List WorkflowStepDef)
    → contains k (map_from m ss) ≡ (has k (ids ss) || contains k m)
unfolding map_from
contains-map_from k m [] = refl
contains-map_from k m (s ∷ ss) =
    ground (arith, contains-map_from k (put s.id s m) ss, get-put s.id k s m)

pub contains-step_map :
    (k : String) (ss : List WorkflowStepDef) → contains k (step_map ss) ≡ has k (ids ss)
unfolding step_map get
contains-step_map k ss = ground (arith, contains-map_from k [] ss)

-- The last step of an id is the one that the map holds; where ids are unique it is any of that id.
abbrev pub Holds : Dict WorkflowStepDef → List WorkflowStepDef → Type 0
Holds m = All (λ s. get s.id m ≡ some s)

map_from_old :
    (k : String) (m : Dict WorkflowStepDef) (ss : List WorkflowStepDef)
    → has k (ids ss) ≡ false
    → get k (map_from m ss) ≡ get k m
unfolding map_from
map_from_old k m [] h = refl
map_from_old k m (s ∷ ss) h = ground (arith, map_from_old k (put s.id s m) ss, get-put s.id k s m)

map_from-Holds :
    (m : Dict WorkflowStepDef) (ss : List WorkflowStepDef)
    → Unique (ids ss)
    → Holds (map_from m ss) ss
unfolding map_from
map_from-Holds m [] u = tt
map_from-Holds m (s ∷ ss) u = (
  ground (arith, map_from_old s.id (put s.id s m) ss u.0, get-put s.id s.id s m, eq_refl s.id),
  map_from-Holds (put s.id s m) ss u.1,
)

pub step_map-Holds : (ss : List WorkflowStepDef) → Unique (ids ss) → Holds (step_map ss) ss
unfolding step_map
step_map-Holds ss u = map_from-Holds [] ss u

-- A property of all steps holds of each step that the map gives, which has the id asked for.
module _ (P : WorkflowStepDef → Type 0) where
  abbrev AtKeys : Dict WorkflowStepDef → Type 0
  AtKeys m = (k : String) (s : WorkflowStepDef) → get k m ≡ some s → P s × (s.id ≡ k)

  map_from-AtKeys :
      (m : Dict WorkflowStepDef) (ss : List WorkflowStepDef)
      → AtKeys m
      → All P ss
      → AtKeys (map_from m ss)
  unfolding map_from
  map_from-AtKeys m [] h a = h
  map_from-AtKeys m (s ∷ ss) h a = map_from-AtKeys (put s.id s m) ss (λ k t e. put_at k t e) a.1
    where
      put_at : (k : String) (t : WorkflowStepDef) → get k (put s.id s m) ≡ some t → P t × (t.id ≡ k)
      put_at k t e = elim (Bool-cases (str_eq s.id k)) [
        | inl same ↦
            let q : s ≡ t = ground (arith, get-put s.id k s m) in
            (subst P q a.0, ground (arith, eq_iff s.id k))
        | inr other ↦ h k t (ground (arith, get-put s.id k s m))
      ]

  pub step_map_at :
      (ss : List WorkflowStepDef) (k : String) (s : WorkflowStepDef)
      → All P ss
      → get k (step_map ss) ≡ some s
      → P s × (s.id ≡ k)
  unfolding step_map get
  step_map_at ss k s a e = map_from-AtKeys [] ss (λ j t none_there. ground arith) a k s e

-- A degree is the number of dependencies of the step that the map holds.
abbrev size_of : Option WorkflowStepDef → Option ℕ
size_of none = none
size_of (some s) = some (length s.depends_on)

degrees_from-eq :
    (d : Dict ℕ) (m : Dict WorkflowStepDef) (ss : List WorkflowStepDef)
    → ((k : String) → get k d ≡ size_of (get k m))
    → (k : String) → get k (degrees_from d ss) ≡ size_of (get k (map_from m ss))
unfolding degrees_from map_from
degrees_from-eq d m [] h k = h k
degrees_from-eq d m (s ∷ ss) h k =
    degrees_from-eq (put s.id (length s.depends_on) d) (put s.id s m) ss
      (λ j. ground (arith, h j, get-put s.id j (length s.depends_on) d, get-put s.id j s m)) k

pub get-in_degrees :
    (k : String) (ss : List WorkflowStepDef) → get k (in_degrees ss) ≡ size_of (get k (step_map ss))
unfolding in_degrees step_map get
get-in_degrees k ss = degrees_from-eq [] [] ss (λ j. refl) k

pub contains-in_degrees :
    (k : String) (ss : List WorkflowStepDef) → contains k (in_degrees ss) ≡ has k (ids ss)
contains-in_degrees k ss = ground (arith, get-in_degrees k ss, contains-step_map k ss)

-- The keys of a dict that `put` builds are there once each.
pub has-keys : (k : String) {V : Type 0} (d : Dict V) → has k (keys d) ≡ contains k d
unfolding get
has-keys k [] = refl
has-keys k ((j, v) ∷ d) = ground (arith, has-keys k d)

has-keys-put :
    (j k : String) {V : Type 0} (v : V) (d : Dict V)
    → has j (keys (put k v d)) ≡ (has j (keys d) || str_eq k j)
unfolding put
has-keys-put j k v [] = ground arith
has-keys-put j k v ((i, w) ∷ d) =
    ground (arith, has-keys-put j k v d, eq_iff i k, eq_iff i j, eq_iff k j)

not-has-keys-put :
    (j k : String) {V : Type 0} (v : V) (d : Dict V)
    → has j (keys d) ≡ false
    → str_eq j k ≡ false
    → has j (keys (put k v d)) ≡ false
not-has-keys-put j k v d h other = ground (arith, has-keys-put j k v d, eq_iff j k, eq_iff k j)

put-Unique :
    (k : String) {V : Type 0} (v : V) (d : Dict V) → Unique (keys d) → Unique (keys (put k v d))
unfolding put
put-Unique k v [] u = (refl, tt)
put-Unique k v ((j, w) ∷ d) u = elim (Bool-cases (str_eq j k)) [
  | inl same ↦ rw same u
  | inr other ↦ rw other (not-has-keys-put j k v d u.0 other, put-Unique k v d u.1)
]

degrees_from-Unique :
    (d : Dict ℕ) (ss : List WorkflowStepDef) → Unique (keys d) → Unique (keys (degrees_from d ss))
unfolding degrees_from
degrees_from-Unique d [] u = u
degrees_from-Unique d (s ∷ ss) u =
    degrees_from-Unique (put s.id (length s.depends_on) d) ss
      (put-Unique s.id (length s.depends_on) d u)

count-zero_degree_none :
    (k : String) (d : Dict ℕ) → has k (keys d) ≡ false → count k (zero_degree d) ≡ 0
unfolding zero_degree
count-zero_degree_none k [] h = refl
count-zero_degree_none k ((j, n) ∷ d) h = ground (arith, count-zero_degree_none k d)

count-zero_degree :
    (k : String) (d : Dict ℕ)
    → Unique (keys d)
    → count k (zero_degree d) + bit (is_waiting k d) ≡ bit (contains k d)
unfolding zero_degree get
count-zero_degree k [] u = omega arith
count-zero_degree k ((j, n) ∷ d) u =
    ground (arith, count-zero_degree k d u.1, count-zero_degree_none k d, has-keys k d, eq_iff j k)

-- A step is queued at the start, or it waits; the queued ones are those with no dependencies.
pub count-start :
    (k : String) (ss : List WorkflowStepDef)
    → count k (zero_degree (in_degrees ss)) + bit (is_waiting k (in_degrees ss))
      ≡ bit (has k (ids ss))
unfolding in_degrees
count-start k ss =
    rw (← contains-in_degrees k ss)
      (count-zero_degree k (in_degrees ss) (degrees_from-Unique [] ss tt))

pub has-keys-step_map :
    (k : String) (ss : List WorkflowStepDef) → has k (keys (step_map ss)) ≡ has k (ids ss)
has-keys-step_map k ss = has-keys k (step_map ss) ∙ contains-step_map k ss

length-put : (k : String) {V : Type 0} (v : V) (d : Dict V) → length (put k v d) ≤ length d + 1
unfolding put
length-put k v [] = omega arith
length-put k v ((j, w) ∷ d) = ground (arith, length-put k v d)

length-degrees_from :
    (d : Dict ℕ) (ss : List WorkflowStepDef) → length (degrees_from d ss) ≤ length d + length ss
unfolding degrees_from
length-degrees_from d [] = omega arith
length-degrees_from d (s ∷ ss) = omega (
  arith,
  length-degrees_from (put s.id (length s.depends_on) d) ss,
  length-put s.id (length s.depends_on) d,
)

pub length-in_degrees : (ss : List WorkflowStepDef) → length (in_degrees ss) ≤ length ss
unfolding in_degrees
length-in_degrees ss = omega (arith, length-degrees_from [] ss)
