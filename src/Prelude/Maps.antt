-- ===== src/Prelude/Maps.antt =====
-- Maps from numbers as lists of entries; keys come in the order of their insertion.
use Prim.Native.Nat.{ℕ, ◌≤◌}
use mathlib.Core.Path.{◌≡◌, refl, sym, ap, ◌∙◌}
use mathlib.Core.Logic.{inl, inr}
use mathlib.Core.Bool.{Bool, true, false, ◌&&◌, ◌||◌, not}
use mathlib.Core.Option.{Option, none, some}
use mathlib.Core.List.{List, [], ◌∷◌, ◌++◌}
use native.Mathlib.Omega.{arith}
use browshare.Prelude.Tests.{◌==◌, if◌then◌else◌, Bool-cases}
use browshare.Prelude.Lists.{All, length, includes}

module _ {V : Type 0} where
  -- `map.get(key)`, `map.set(key, value)`, `map.delete(key)`
  abbrev pub get : ℕ → List (ℕ × V) → Option V
  get k [] = none
  get k ((j, v) ∷ m) = if j == k then some v else get k m

  abbrev pub put : ℕ → V → List (ℕ × V) → List (ℕ × V)
  put k v [] = (k, v) ∷ []
  put k v ((j, w) ∷ m) = if j == k then (k, v) ∷ m else (j, w) ∷ put k v m

  abbrev pub delete : ℕ → List (ℕ × V) → List (ℕ × V)
  delete k [] = []
  delete k ((j, w) ∷ m) = if j == k then m else (j, w) ∷ delete k m

module _ {V : Type 0} (P : ℕ × V → Type 0) where
  pub All-delete : (k : ℕ) (m : List (ℕ × V)) → All P m → All P (delete k m)
  All-delete k [] h = tt
  All-delete k ((j, v) ∷ m) (first, h) = elim (Bool-cases (j == k)) [
    | inl e ↦ rw e h
    | inr e ↦ rw e ((first, All-delete k m h))
  ]

  pub All-put : (k : ℕ) (v : V) (m : List (ℕ × V)) → P (k, v) → All P m → All P (put k v m)
  All-put k v [] new h = (new, tt)
  All-put k v ((j, w) ∷ m) new (first, h) = elim (Bool-cases (j == k)) [
    | inl e ↦ rw e ((new, h))
    | inr e ↦ rw e ((first, All-put k v m new h))
  ]

  pub All-get : (k : ℕ) (v : V) (m : List (ℕ × V)) → All P m → get k m ≡ some v → P (k, v)
  All-get k v [] h e = cc
  All-get k v ((j, w) ∷ m) (first, h) e = elim (Bool-cases (j == k)) [
    | inl same ↦
        let found : ◌≡◌ {A = Option V} (some w) (some v) = rw same at e in
        let key : j ≡ k = ground arith in let value : w ≡ v = cc in rw⁻¹ (key, value) first
    | inr other ↦ let found : get k m ≡ some v = rw other at e in All-get k v m h found
  ]

pub delete-length : {V : Type 0} (k : ℕ) (m : List (ℕ × V)) → length (delete k m) ≤ length m
delete-length k [] = omega arith
delete-length k ((l, v) ∷ m) = elim (Bool-cases (l == k)) [
  | inl e ↦ rw e (omega arith)
  | inr e ↦ rw e (omega (arith, delete-length k m))
]

self : (k : ℕ) → (k == k) ≡ true
self k = ground arith

module _ {V : Type 0} where
  pub get-put : (k : ℕ) (v : V) (m : List (ℕ × V)) → get k (put k v m) ≡ some v
  get-put k v [] = rw (self k) refl
  get-put k v ((j, w) ∷ m) = elim (Bool-cases (j == k)) [
    | inl e ↦ rw (e, self k) refl
    | inr e ↦ rw (e, e) (get-put k v m)
  ]

  pub get-put_other :
      (k l : ℕ) (v : V) (m : List (ℕ × V)) → (l == k) ≡ false → get l (put k v m) ≡ get l m
  get-put_other k l v [] ne = let other : (k == l) ≡ false = ground arith in rw other refl
  get-put_other k l v ((j, w) ∷ m) ne = elim (Bool-cases (j == k)) [
    | inl e ↦
        let other : (k == l) ≡ false = ground arith in
        let old : (j == l) ≡ false = ground arith in rw (e, other, old) refl
    | inr e ↦ rw e (ap (λ o. if j == l then some w else o) (get-put_other k l v m ne))
  ]

  pub get-delete_other :
      (k l : ℕ) (m : List (ℕ × V)) → (l == k) ≡ false → get l (delete k m) ≡ get l m
  get-delete_other k l [] ne = refl
  get-delete_other k l ((j, w) ∷ m) ne = elim (Bool-cases (j == k)) [
    | inl e ↦ let old : (j == l) ≡ false = ground arith in rw (e, old) refl
    | inr e ↦ rw e (ap (λ o. if j == l then some w else o) (get-delete_other k l m ne))
  ]

module _ {V W : Type 0} (f : V → W) where
  abbrev pub map_values : List (ℕ × V) → List (ℕ × W)
  map_values [] = []
  map_values ((k, v) ∷ m) = (k, f v) ∷ map_values m

  pub map_values-put :
      (k : ℕ) (v : V) (m : List (ℕ × V)) → map_values (put k v m) ≡ put k (f v) (map_values m)
  map_values-put k v [] = refl
  map_values-put k v ((j, w) ∷ m) = elim (Bool-cases (j == k)) [
    | inl e ↦ rw e refl
    | inr e ↦ rw e (ap (λ x. (j, f w) ∷ x) (map_values-put k v m))
  ]

  pub map_values-delete :
      (k : ℕ) (m : List (ℕ × V)) → map_values (delete k m) ≡ delete k (map_values m)
  map_values-delete k [] = refl
  map_values-delete k ((j, w) ∷ m) = elim (Bool-cases (j == k)) [
    | inl e ↦ rw e refl
    | inr e ↦ rw e (ap (λ x. (j, f w) ∷ x) (map_values-delete k m))
  ]

-- A change of an entry that is there.
module _ {V : Type 0} where
  abbrev pub update : ℕ → (V → V) → List (ℕ × V) → List (ℕ × V)
  update k f [] = []
  update k f ((j, v) ∷ m) = if j == k then (j, f v) ∷ m else (j, v) ∷ update k f m

  abbrev pub keys : List (ℕ × V) → List ℕ
  keys [] = []
  keys ((k, v) ∷ m) = k ∷ keys m

  pub get-update :
      (k : ℕ) (f : V → V) (v : V) (m : List (ℕ × V))
      → get k m ≡ some v
      → get k (update k f m) ≡ some (f v)
  get-update k f v [] h = cc
  get-update k f v ((j, w) ∷ m) h = elim (Bool-cases (j == k)) [
    | inl e ↦
        let found : ◌≡◌ {A = Option V} (some w) (some v) = rw e at h in
        rw (e, e) (ap (λ o. elim o as (λ _. Option V) [ none ↦ none | some x ↦ some (f x) ]) found)
    | inr e ↦ let further : get k m ≡ some v = rw e at h in rw (e, e) (get-update k f v m further)
  ]

  pub get-update_other :
      (k l : ℕ) (f : V → V) (m : List (ℕ × V)) → (l == k) ≡ false → get l (update k f m) ≡ get l m
  get-update_other k l f [] ne = refl
  get-update_other k l f ((j, w) ∷ m) ne = elim (Bool-cases (j == k)) [
    | inl e ↦ let old : (j == l) ≡ false = ground arith in rw (e, old) refl
    | inr e ↦ rw e (ap (λ o. if j == l then some w else o) (get-update_other k l f m ne))
  ]

  -- No key stands twice.
  abbrev pub Unique : List (ℕ × V) → Type 0
  Unique [] = Unit
  Unique ((k, v) ∷ m) = (get k m ≡ none) × Unique m

  pub Unique-put : (k : ℕ) (v : V) (m : List (ℕ × V)) → Unique m → Unique (put k v m)
  Unique-put k v [] u = (refl, tt)
  Unique-put k v ((j, w) ∷ m) (first, u) = elim (Bool-cases (j == k)) [
    | inl e ↦ let same : j ≡ k = ground arith in rw e ((ap (λ i. get i m) (sym same) ∙ first, u))
    | inr e ↦ rw e ((get-put_other k j v m e ∙ first, Unique-put k v m u))
  ]

  pub Unique-delete : (k : ℕ) (m : List (ℕ × V)) → Unique m → Unique (delete k m)
  Unique-delete k [] u = tt
  Unique-delete k ((j, w) ∷ m) (first, u) = elim (Bool-cases (j == k)) [
    | inl e ↦ rw e u
    | inr e ↦ rw e ((get-delete_other k j m e ∙ first, Unique-delete k m u))
  ]

  pub Unique-update : (k : ℕ) (f : V → V) (m : List (ℕ × V)) → Unique m → Unique (update k f m)
  Unique-update k f [] u = tt
  Unique-update k f ((j, w) ∷ m) (first, u) = elim (Bool-cases (j == k)) [
    | inl e ↦ rw e ((first, u))
    | inr e ↦ rw e ((get-update_other k j f m e ∙ first, Unique-update k f m u))
  ]

  pub get-delete : (k : ℕ) (m : List (ℕ × V)) → Unique m → get k (delete k m) ≡ none
  get-delete k [] u = refl
  get-delete k ((j, w) ∷ m) (first, u) = elim (Bool-cases (j == k)) [
    | inl e ↦ let same : j ≡ k = ground arith in rw e (ap (λ i. get i m) (sym same) ∙ first)
    | inr e ↦ rw (e, e) (get-delete k m u)
  ]

abbrev pub add_number : ℕ → List ℕ → List ℕ
add_number n ns = if includes ns n then ns else ns ++ n ∷ []

abbrev pub remove_number : ℕ → List ℕ → List ℕ
remove_number n [] = []
remove_number n (m ∷ ms) = if m == n then remove_number n ms else m ∷ remove_number n ms

swap : (a b c : Bool) → (a || (b || c)) ≡ (b || (a || c))
swap true true c = refl
swap true false c = refl
swap false b c = refl

includes-last : (ns : List ℕ) (n k : ℕ) → includes (ns ++ n ∷ []) k ≡ ((n == k) || includes ns k)
includes-last [] n k = refl
includes-last (m ∷ ns) n k =
    ap (λ b. (m == k) || b) (includes-last ns n k) ∙ swap (m == k) (n == k) (includes ns k)

pub includes-add :
    (n k : ℕ) (ns : List ℕ) → includes (add_number n ns) k ≡ ((n == k) || includes ns k)
includes-add n k ns = elim (Bool-cases (includes ns n)) [
  | inl h ↦ rw h (elim (Bool-cases (n == k)) [
    | inl e ↦ let same : n ≡ k = ground arith in rw e (ap (λ i. includes ns i) (sym same) ∙ h)
    | inr e ↦ rw e refl
  ])
  | inr h ↦ rw h (includes-last ns n k)
]

pub includes-remove :
    (n k : ℕ) (ns : List ℕ) → includes (remove_number n ns) k ≡ (not (n == k) && includes ns k)
includes-remove n k [] = elim (Bool-cases (n == k)) [ inl e ↦ rw e refl | inr e ↦ rw e refl ]
includes-remove n k (m ∷ ns) = elim (Bool-cases (m == n)) [
  | inl e ↦
      let same : m ≡ n = ground arith in
      rw e (
        includes-remove n k ns
        ∙ rw same (elim (Bool-cases (n == k)) [ inl h ↦ rw h refl | inr h ↦ rw h refl ]))
  | inr e ↦ rw e (
      ap (λ b. (m == k) || b) (includes-remove n k ns) ∙ elim (Bool-cases (n == k)) [
        | inl h ↦ let other : (m == k) ≡ false = ground arith in rw (h, other) refl
        | inr h ↦ rw h refl
      ])
]

pub put-put : {V : Type 0} (k : ℕ) (v : V) (m : List (ℕ × V)) → put k v (put k v m) ≡ put k v m
put-put k v [] = rw (self k) refl
put-put k v ((j, w) ∷ m) = elim (Bool-cases (j == k)) [
  | inl e ↦ rw (e, self k) refl
  | inr e ↦ rw (e, e) (ap (λ x. (j, w) ∷ x) (put-put k v m))
]

-- What holds of every entry that `get` finds.
pub All-found :
    {V : Type 0} (P : ℕ × V → Type 0) (m : List (ℕ × V))
    → Unique m
    → ((k : ℕ) (v : V) → get k m ≡ some v → P (k, v))
    → All P m
All-found P [] u h = tt
All-found P ((j, w) ∷ m) (first, u) h = (
  h j w (rw (self j) refl),
  All-found P m u (λ k v found. h k v (elim (Bool-cases (j == k)) [
    | inl e ↦
        let same : j ≡ k = ground arith in
        let absent : get k m ≡ none = ap (λ i. get i m) (sym same) ∙ first in cc
    | inr e ↦ rw e found
  ])),
)
