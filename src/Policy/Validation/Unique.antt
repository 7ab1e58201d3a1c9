-- ===== src/Policy/Validation/Unique.antt =====
-- policy/condition.rs: the identifiers of validated conditions are distinct.
use ffhn.Base.{
  ◌≡◌, refl, Bool, true, false, Bool-cases, inl, inr, List, [], ◌∷◌, any, same, list_eq, nat_eq,
  same_list_iff, arith,
}
use ffhn.Base.Errors.{Text, ok, refuse_if, >>=-eq-ok, refused}
use ffhn.Policy.Types.{DeclaredType, TypeParams, Condition, ValueLib}
use ffhn.Policy.Validation.{
  invalid_condition_id, new_condition_id, validate_predicate, validate_each, validate_conditions,
}

abbrev pub is_declared : Text → List Condition → Bool
is_declared id conditions = any (λ k. same id k.condition_id) conditions

-- No condition has the identifier of a later one.
unfoldable pub AreDistinct : List Condition → Type 0
AreDistinct [] = Unit
AreDistinct (k ∷ rest) = (is_declared k.condition_id rest ≡ false) × AreDistinct rest

-- An identifier that `ConditionId::new` accepts is the text itself.
pub new_condition_id-eq-ok : (name : Text) {id : Text} → new_condition_id name ≡ ok id → name ≡ id
unfolding new_condition_id
new_condition_id-eq-ok name h = elim (Bool-cases (invalid_condition_id name)) [
  | inl e ↦ ground (arith, e, h)
  | inr e ↦ ground (arith, e, h)
]

module _ (lib : ValueLib) where
  each_unseen :
      (declared : DeclaredType) (params : TypeParams) (seen : List Text)
      (conditions : List Condition) (id : Text)
      → validate_each lib declared params seen conditions ≡ ok tt
      → any (same id) seen ≡ true
      → is_declared id conditions ≡ false
  unfolding validate_each
  each_unseen declared params seen [] id h known = refl
  each_unseen declared params seen (k ∷ rest) id h known =
      let (_, e₁, h₁) = >>=-eq-ok (refuse_if (any (same k.condition_id) seen) _) _ h in
      let (_, _, h₂) = >>=-eq-ok (validate_predicate lib declared params k) _ h₁ in
      let unseen : any (same k.condition_id) seen ≡ false = refused _ _ e₁ in
      let others = each_unseen declared params (k.condition_id ∷ seen) rest id h₂ in
      elim (Bool-cases (same id k.condition_id)) [
        | inl e ↦
            let one = (same_list_iff id k.condition_id).0 e in absurd (cc (one, known, unseen))
        | inr e ↦ ground (arith, e, known, others)
      ]

  each_distinct :
      (declared : DeclaredType) (params : TypeParams) (seen : List Text)
      (conditions : List Condition)
      → validate_each lib declared params seen conditions ≡ ok tt
      → AreDistinct conditions
  unfolding validate_each AreDistinct
  each_distinct declared params seen [] h = tt
  each_distinct declared params seen (k ∷ rest) h =
      let (_, e₁, h₁) = >>=-eq-ok (refuse_if (any (same k.condition_id) seen) _) _ h in
      let (_, _, h₂) = >>=-eq-ok (validate_predicate lib declared params k) _ h₁ in
      let itself : same k.condition_id k.condition_id ≡ true =
        (same_list_iff k.condition_id k.condition_id).1 refl in
      (
        each_unseen declared params (k.condition_id ∷ seen) rest k.condition_id h₂
            (ground (arith, itself)),
        each_distinct declared params (k.condition_id ∷ seen) rest h₂,
      )

  -- The conditions that `validate_conditions` accepts have distinct identifiers.
  pub validate_conditions-AreDistinct :
      (declared : DeclaredType) (params : TypeParams) (conditions : List Condition)
      → validate_conditions lib declared params conditions ≡ ok tt
      → AreDistinct conditions
  unfolding validate_conditions
  validate_conditions-AreDistinct declared params conditions h =
      each_distinct declared params [] conditions h
