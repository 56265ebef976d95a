-- ===== src/Codecs/Patterns.antt =====
-- lc-lib/codecs/patterncollection.go. Go's regular expressions are a parameter: `compile` is
-- `regexp.Compile`, and a compiled expression is what `MatchString` answers.
use native.Mathlib.Nat.{zero-add}
use log_courier.Common.{
  ap, ◌∙◌, ◌≢◌, ◌||◌, ◌≤◌, ℕ, suc, ◌+◌, ◌≤◌, ◌<◌, ◌≡◌, refl, Bool, true, false, not, ◌&&◌, ◌||◌,
  List, [], ◌∷◌, Option, none, some, length, arith, leb, ◌==◌, if◌then◌else◌,
}
use log_courier.Codecs.{Text}

abbrev pub Regexp : Type 0
Regexp = Text → Bool

pub record PatternInstance : Type 0 where
  pub matcher : Regexp
  pub negate : Bool

pub record PatternCollection : Type 0 where
  pub patterns : List PatternInstance
  pub required_matches : ℕ

-- The values of the option `match`; all other texts are `other`.
pub data MatchOption : Type 0 where
  unset any all other : MatchOption

pub data Result {ℓ} (A : Type ℓ) : Type ℓ where
  ok : A → Result A
  no_patterns bad_pattern unknown_match panic : Result A

xor : Bool → Bool → Bool
xor true b = not b
xor false b = b

-- `pattern[0]` panics on an empty pattern.
strip_prefix : Text → Option (Bool × Text)
strip_prefix [] = none
strip_prefix (c ∷ rest) =
    some
      (if c == b'!' then (true, rest) else if c == b'=' then (false, rest) else (false, c ∷ rest))

unfoldable pub compile_all : (Text → Option Regexp) → List Text → Result (List PatternInstance)
unfolding strip_prefix
compile_all compile [] = ok []
compile_all compile (pattern ∷ patterns) = elim (strip_prefix pattern) [
  | none ↦ panic
  | some (negate, rest) ↦ elim (compile rest) [
    | none ↦ bad_pattern
    | some matcher ↦ elim (compile_all compile patterns) [
      | ok instances ↦ ok (record { matcher = matcher; negate = negate } ∷ instances)
      | no_patterns ↦ no_patterns
      | bad_pattern ↦ bad_pattern
      | unknown_match ↦ unknown_match
      | panic ↦ panic
    ]
  ]
]

required : MatchOption → ℕ → Option ℕ
required unset n = some 1
required any n = some 1
required all n = some n
required other n = none

finish : MatchOption → ℕ → Result (List PatternInstance) → Result PatternCollection
unfolding required
finish option n (ok instances) = elim (required option n) [
  | none ↦ unknown_match
  | some r ↦ ok (record { patterns = instances; required_matches = r })
]
finish option n no_patterns = no_patterns
finish option n bad_pattern = bad_pattern
finish option n unknown_match = unknown_match
finish option n panic = panic

unfoldable pub set : (Text → Option Regexp) → List Text → MatchOption → Result PatternCollection
unfolding compile_all finish
set compile [] option = no_patterns
set compile (pattern ∷ patterns) option =
    finish option (length (pattern ∷ patterns)) (compile_all compile (pattern ∷ patterns))

-- `pattern.negate == pattern.matcher.MatchString(text)` is a failed match.
unfoldable pub holds : PatternInstance → Text → Bool
unfolding xor
holds p text = xor p.negate (p.matcher text)

unfoldable pub match_from : ℕ → ℕ → List PatternInstance → Text → Bool
unfolding holds
match_from required count [] text = false
match_from required count (p ∷ patterns) text =
    let rest = match_from required (if holds p text then count + 1 else count) patterns text in
    if holds p text && (count + 1 == required) then true else rest

-- `none` is the panic of a collection that was never set.
unfoldable pub match : PatternCollection → Text → Option Bool
unfolding match_from
match c text = elim c.patterns [
  | [] ↦ none
  | p ∷ patterns ↦ some (match_from c.required_matches 0 (p ∷ patterns) text)
]

abbrev pub count_holds : List PatternInstance → Text → ℕ
count_holds [] text = 0
count_holds (p ∷ patterns) text =
    if holds p text then suc (count_holds patterns text) else count_holds patterns text

match_from_count :
    (required count : ℕ) (patterns : List PatternInstance) (text : Text)
    → count < required
    → match_from required count patterns text ≡ leb required (count + count_holds patterns text)
unfolding match_from
match_from_count required count [] text h = ground arith
match_from_count required count (p ∷ patterns) text h = ground (
  arith,
  match_from_count required (count + 1) patterns text,
  match_from_count required count patterns text h,
)

length-compile_all :
    (compile : Text → Option Regexp) (patterns : List Text) (instances : List PatternInstance)
    → compile_all compile patterns ≡ ok instances
    → length instances ≡ length patterns
unfolding compile_all
length-compile_all compile [] [] e = refl
length-compile_all compile [] (p ∷ instances) e = cc
length-compile_all compile (pattern ∷ patterns) [] e = ground arith
length-compile_all compile (pattern ∷ patterns) (p ∷ instances) e =
    ground (arith, length-compile_all compile patterns instances)

abbrev pub any_holds : List PatternInstance → Text → Bool
any_holds [] text = false
any_holds (p ∷ patterns) text = holds p text || any_holds patterns text

abbrev pub all_hold : List PatternInstance → Text → Bool
all_hold [] text = true
all_hold (p ∷ patterns) text = holds p text && all_hold patterns text

count_holds-le :
    (patterns : List PatternInstance) (text : Text) → count_holds patterns text ≤ length patterns
count_holds-le [] text = omega arith
count_holds-le (p ∷ patterns) text = ground (arith, count_holds-le patterns text)

any_holds_count :
    (patterns : List PatternInstance) (text : Text)
    → leb 1 (count_holds patterns text) ≡ any_holds patterns text
any_holds_count [] text = refl
any_holds_count (p ∷ patterns) text = ground (arith, any_holds_count patterns text)

all_hold_count :
    (patterns : List PatternInstance) (text : Text)
    → leb (length patterns) (count_holds patterns text) ≡ all_hold patterns text
all_hold_count [] text = refl
all_hold_count (p ∷ patterns) text =
    ground (arith, all_hold_count patterns text, count_holds-le patterns text)

-- What the option `match` asks of the patterns.
abbrev pub wanted : MatchOption → List PatternInstance → Text → Bool
wanted all patterns text = all_hold patterns text
wanted _ patterns text = any_holds patterns text

finish_inverse :
    (option : MatchOption) (n : ℕ) (r : Result (List PatternInstance)) (c : PatternCollection)
    → finish option n r ≡ ok c
    → (r ≡ ok c.patterns) × (required option n ≡ some c.required_matches)
unfolding finish required
finish_inverse unset n (ok instances) c e = ground arith
finish_inverse any n (ok instances) c e = ground arith
finish_inverse all n (ok instances) c e = ground arith
finish_inverse other n (ok instances) c e = cc
finish_inverse option n no_patterns c e = cc
finish_inverse option n bad_pattern c e = cc
finish_inverse option n unknown_match c e = cc
finish_inverse option n panic c e = cc

match_lem :
    (required : ℕ) (patterns : List PatternInstance) (text : Text)
    → 0 < required
    → 0 < length patterns
    → match (record { patterns = patterns; required_matches = required }) text
      ≡ some (leb required (count_holds patterns text))
unfolding match
match_lem required [] text h k = absurd (omega arith)
match_lem required (p ∷ patterns) text h k =
    ap some (match_from_count required 0 (p ∷ patterns) text h ∙ rw zero-add)

match-wanted :
    (option : MatchOption) (n : ℕ) (c : PatternCollection) (text : Text)
    → required option n ≡ some c.required_matches
    → length c.patterns ≡ n
    → 0 < n
    → (match c text ≡ some (wanted option c.patterns text)) × (option ≢ other)
unfolding required
match-wanted unset n c text e l h = (
  ground (arith, match_lem c.required_matches c.patterns text, any_holds_count c.patterns text),
  λ p. cc,
)
match-wanted any n c text e l h = (
  ground (arith, match_lem c.required_matches c.patterns text, any_holds_count c.patterns text),
  λ p. cc,
)
match-wanted all n c text e l h = (
  ground (arith, match_lem c.required_matches c.patterns text, all_hold_count c.patterns text),
  λ p. cc,
)
match-wanted other n c text e l h = cc

-- A collection that was set answers every text: with "all" whether each of its patterns holds, with
-- "any" and by default whether one does. It has one pattern for each that was given.
pub set-match :
    (compile : Text → Option Regexp) (patterns : List Text) (option : MatchOption) (text : Text)
    (c : PatternCollection)
    → set compile patterns option ≡ ok c
    → (match c text ≡ some (wanted option c.patterns text))
      × (length c.patterns ≡ length patterns)
      × (option ≢ other)
unfolding set
set-match compile [] option text c e = cc
set-match compile (pattern ∷ patterns) option text c e =
    let (compiled, r) = finish_inverse option _ (compile_all compile (pattern ∷ patterns)) c e in
    let l = length-compile_all compile (pattern ∷ patterns) c.patterns compiled in
    let (answer, known) =
      match-wanted option (length (pattern ∷ patterns)) c text r l (omega arith) in
    (answer, l, known)
