-- ===== src/Base/Dict.antt =====
-- `BTreeMap` with text keys: the entries in the order of their keys.
use Prim.Native.Nat.{compare, Ordering}
use mathlib.Core.Path.{◌≡◌, refl}
use mathlib.Core.Bool.{Bool, true, false}
use mathlib.Core.Option.{Option, none, some}
use mathlib.Core.List.{List, [], ◌∷◌}
use native.Mathlib.Omega.{arith}
use ffhn.Base.Tests.{if◌then◌else◌, same, list_eq, nat_eq, same_list_iff}
use ffhn.Base.Errors.{Text}

-- `Ord for str`: the bytes, first difference first.
unfoldable pub cmp_text : Text → Text → Ordering
cmp_text [] [] = Ordering.eq
cmp_text [] (b ∷ t) = Ordering.lt
cmp_text (a ∷ s) [] = Ordering.gt
cmp_text (a ∷ s) (b ∷ t) = elim (compare a b) [
  | Ordering.eq ↦ cmp_text s t
  | Ordering.lt ↦ Ordering.lt
  | Ordering.gt ↦ Ordering.gt
]

cmp_text-eq : (s t : Text) → cmp_text s t ≡ Ordering.eq → s ≡ t
unfolding cmp_text
cmp_text-eq [] [] h = refl
cmp_text-eq [] (b ∷ t) h = cc
cmp_text-eq (a ∷ s) [] h = cc
cmp_text-eq (a ∷ s) (b ∷ t) h = ground (arith, cmp_text-eq s t)

cmp_text_refl : (s : Text) → cmp_text s s ≡ Ordering.eq
unfolding cmp_text
cmp_text_refl [] = refl
cmp_text_refl (a ∷ s) = ground (arith, cmp_text_refl s)

abbrev pub Dict {ℓ} : Type ℓ → Type ℓ
Dict V = List (Text × V)

module _ {ℓ} {V : Type ℓ} where
  abbrev pub get : Text → Dict V → Option V
  get k [] = none
  get k ((j, w) ∷ m) = if same j k then some w else get k m

  unfoldable pub insert_at : Ordering → Text → V → Text × V → Dict V → Dict V → Dict V
  insert_at Ordering.lt k v e m rest = (k, v) ∷ e ∷ m
  insert_at Ordering.eq k v e m rest = (k, v) ∷ m
  insert_at Ordering.gt k v e m rest = e ∷ rest

  unfoldable pub insert : Text → V → Dict V → Dict V
  unfolding insert_at cmp_text
  insert k v [] = (k, v) ∷ []
  insert k v ((j, w) ∷ m) = insert_at (cmp_text k j) k v (j, w) m (insert k v m)

  abbrev pub contains_key : Text → Dict V → Bool
  contains_key k m = elim (get k m) [ none ↦ false | some v ↦ true ]

  pub get-insert :
      (j k : Text) (v : V) (m : Dict V)
      → get j (insert k v m) ≡ (if same k j then some v else get j m)
  unfolding insert insert_at
  get-insert j k v [] = refl
  get-insert j k v ((i, w) ∷ m) = ground (
    arith,
    cmp_text-eq k i,
    cmp_text_refl k,
    same_list_iff i j,
    same_list_iff k j,
    same_list_iff k i,
    get-insert j k v m,
  )
