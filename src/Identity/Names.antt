-- ===== src/Identity/Names.antt =====
-- The grammar of node identifiers: groups of letters and digits, one separator between two groups.
use ffhn.Base.{ℕ, ◌≡◌, ◌≤◌, ◌↔◌, ◌⊎◌, inl, inr, refl, true, false, [], ◌∷◌, length, ◌==◌, arith}
use ffhn.Base.Errors.{Text}
use ffhn.Identity.{is_alphanumeric, is_separator, node_id_loop, is_valid_node_id}

-- `[a-z0-9]+([-_][a-z0-9]+)*`, read from the left: in front of a group, and inside one.
mutual
  pub data StartsGroup : Text → Type 0 where
    first : {c : ℕ} {rest : Text} → is_alphanumeric c ≡ true → InGroup rest → StartsGroup (c ∷ rest)

  pub data InGroup : Text → Type 0 where
    stop : InGroup []
    more : {c : ℕ} {rest : Text} → is_alphanumeric c ≡ true → InGroup rest → InGroup (c ∷ rest)
    separate : {c : ℕ} {rest : Text} → is_separator c ≡ true → StartsGroup rest → InGroup (c ∷ rest)

empty_start : node_id_loop true [] ≡ true → ⊥
unfolding node_id_loop
empty_start h = cc (h)

pub disjoint : (c : ℕ) → is_alphanumeric c ≡ true → is_separator c ≡ false
unfolding is_alphanumeric is_separator
disjoint c h = ground arith

step_first :
    (c : ℕ) (rest : Text)
    → node_id_loop true (c ∷ rest) ≡ true
    → (is_alphanumeric c ≡ true) × (node_id_loop false rest ≡ true)
unfolding node_id_loop
step_first c rest h = ground (arith, disjoint c)

step_inside :
    (c : ℕ) (rest : Text)
    → node_id_loop false (c ∷ rest) ≡ true
    → ((is_alphanumeric c ≡ true) × (node_id_loop false rest ≡ true))
      ⊎ ((is_separator c ≡ true) × (node_id_loop true rest ≡ true))
unfolding node_id_loop
step_inside c rest h = ground (arith, disjoint c)

mutual
  starts : (v : Text) → node_id_loop true v ≡ true → StartsGroup v
  starts [] h = absurd (empty_start h)
  starts (c ∷ rest) h = let (a, k) = step_first c rest h in first a (inside rest k)

  inside : (v : Text) → node_id_loop false v ≡ true → InGroup v
  inside [] h = stop
  inside (c ∷ rest) h = elim (step_inside c rest h) [
    | inl (a, k) ↦ more a (inside rest k)
    | inr (s, k) ↦ separate s (starts rest k)
  ]

mutual
  unfolding node_id_loop

  starts-accepted : {v : Text} → StartsGroup v → node_id_loop true v ≡ true
  starts-accepted (first {c} {rest} a g) = ground (arith, disjoint c a, inside-accepted g)

  inside-accepted : {v : Text} → InGroup v → node_id_loop false v ≡ true
  inside-accepted stop = refl
  inside-accepted (more {c} {rest} a g) = ground (arith, disjoint c a, inside-accepted g)
  inside-accepted (separate {c} {rest} s g) = ground (arith, disjoint c, starts-accepted g)

nonempty : {v : Text} → StartsGroup v → (length v == 0) ≡ false
nonempty (first {c} {rest} a g) = ground arith

-- An identifier is accepted exactly if it has at most 64 bytes and is made of nonempty groups of
-- lowercase letters and digits, each two of them separated by one `-` or `_`.
pub is_valid_node_id-grammar :
    (v : Text) → (is_valid_node_id v ≡ true) ↔ ((length v ≤ 64) × StartsGroup v)
unfolding is_valid_node_id
is_valid_node_id-grammar v = (
  λ h. (ground arith, starts v (ground arith)),
  λ (b, g). ground (arith, nonempty g, starts-accepted g),
)
