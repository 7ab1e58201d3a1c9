-- ===== src/Delivery/RouteId.antt =====
-- graph/delivery_config.rs: the identifiers of delivery routes, and their grammar.
use ffhn.Base.{
  ℕ, Option, none, some, Bool, true, false, ◌&&◌, ◌||◌, not, [], ◌∷◌, all, length, leb, ◌==◌,
  if◌then◌else◌, ◌≡◌, refl, arith,
}
use ffhn.Base.Errors.{Text, CoreResult, contract, ok, err}
use ffhn.Base.Texts.{contains, is_some, map_option, split_once}
use ffhn.Identity.Names.{disjoint}
use ffhn.Identity.{is_alphanumeric, is_separator, is_valid_node_id, node_id_loop}

abbrev pub valid_byte : ℕ → Bool
valid_byte byte = is_alphanumeric byte || is_separator byte

-- `value.as_bytes()[0]`, which `valid_id` reads of a text that is not empty.
abbrev pub first_is_alphanumeric : Text → Bool
first_is_alphanumeric [] = false
first_is_alphanumeric (byte ∷ rest) = is_alphanumeric byte

-- `ends_with(['-', '_'])`.
abbrev pub ends_with_separator : Text → Bool
ends_with_separator [] = false
ends_with_separator (byte ∷ []) = is_separator byte
ends_with_separator (byte ∷ next ∷ rest) = ends_with_separator (next ∷ rest)

unfoldable pub valid_id : Text → Bool
unfolding is_alphanumeric is_separator
valid_id value =
    not (length value == 0)
    && leb (length value) 64
    && all valid_byte value
    && first_is_alphanumeric value
    && not (ends_with_separator value)
    && not (contains (b'-' ∷ b'-' ∷ []) value)
    && not (contains (b'_' ∷ b'_' ∷ []) value)
    && not (contains (b'-' ∷ b'_' ∷ []) value)
    && not (contains (b'_' ∷ b'-' ∷ []) value)

-- `GraphRouteId::new`.
unfoldable pub new_route_id : Text → CoreResult Text
new_route_id value =
    if valid_id value
    then ok value
    else err (
        contract
          "route_id must use lowercase letters or digits separated only by one internal '-' or '_' and be at most 64 bytes")

abbrev head_is : ℕ → Text → Bool
head_is b [] = false
head_is b (byte ∷ rest) = byte == b

abbrev head_is_separator : Text → Bool
head_is_separator [] = false
head_is_separator (byte ∷ rest) = is_separator byte

is_some-map : {A B : Type 0} (f : A → B) (o : Option A) → is_some (map_option f o) ≡ is_some o
is_some-map f none = refl
is_some-map f (some a) = refl

contains-step :
    (a b c : ℕ) (v : Text)
    → contains (a ∷ b ∷ []) (c ∷ v) ≡ ((a == c && head_is b v) || contains (a ∷ b ∷ []) v)
contains-step a b c [] = ground arith
contains-step a b c (d ∷ v) = ground (
  arith,
  is_some-map {B = Text × Text} (λ parts. (c ∷ parts.0, parts.1)) (split_once (a ∷ b ∷ []) (d ∷ v)),
)

head-separator : (v : Text) → head_is_separator v ≡ (head_is b'-' v || head_is b'_' v)
unfolding is_separator
head-separator [] = refl
head-separator (d ∷ v) = refl

-- No two separators stand next to each other.
no_pairs : Text → Bool
no_pairs v =
    not (contains (b'-' ∷ b'-' ∷ []) v)
    && not (contains (b'_' ∷ b'_' ∷ []) v)
    && not (contains (b'-' ∷ b'_' ∷ []) v)
    && not (contains (b'_' ∷ b'-' ∷ []) v)

no_pairs-step :
    (c : ℕ) (v : Text)
    → no_pairs (c ∷ v) ≡ (not (is_separator c && head_is_separator v) && no_pairs v)
unfolding no_pairs is_separator
no_pairs-step c v = ground (
  arith,
  contains-step b'-' b'-' c v,
  contains-step b'_' b'_' c v,
  contains-step b'-' b'_' c v,
  contains-step b'_' b'-' c v,
  head-separator v,
)

-- The conditions of `valid_id` on a text that starts inside a group.
well_separated : Text → Bool
well_separated v = all valid_byte v && not (ends_with_separator v) && no_pairs v

mutual
  unfolding node_id_loop well_separated no_pairs

  loop-inside : (v : Text) → node_id_loop false v ≡ well_separated v
  loop-inside [] = refl
  loop-inside (c ∷ []) = ground (arith, disjoint c)
  loop-inside (c ∷ d ∷ v) =
      ground (arith, disjoint c, no_pairs-step c (d ∷ v), loop-inside (d ∷ v), loop-start (d ∷ v))

  loop-start : (v : Text) → node_id_loop true v ≡ (first_is_alphanumeric v && well_separated v)
  loop-start [] = refl
  loop-start (c ∷ []) = ground (arith, disjoint c)
  loop-start (c ∷ d ∷ v) = ground (arith, disjoint c, no_pairs-step c (d ∷ v), loop-inside (d ∷ v))

-- The identifiers that `GraphRouteId::new` accepts with nine tests on the whole text are those that
-- `SourceId::new` and `MeasurementId::new` accept with one loop over the bytes.
pub valid_id-is_valid_node_id : (v : Text) → valid_id v ≡ is_valid_node_id v
unfolding valid_id is_valid_node_id well_separated no_pairs
valid_id-is_valid_node_id v = ground (arith, loop-start v)
