-- ===== src/Harvester/Fields.antt =====
-- The event that lc-lib/harvester/harvester.go makes of a line (eventCallback).
pub mod Lookups
use log_courier.Common.{
  ℕ, Bool, true, false, List, [], ◌∷◌, ◌++◌, Option, none, some, Assoc, lookup, insert, String,
  string_eq, if◌then◌else◌,
}
use log_courier.Codecs.{Text, Emitted}

-- The values of an event: `[]string` is `strings`, and `opaque` stands for any other type of a
-- field of the configuration.
pub data Value : Type 0 where
  text : Text → Value
  number : ℕ → Value
  strings : List Text → Value
  opaque : ℕ → Value

abbrev pub Event : Type 0
Event = Assoc String Value

pub record Settings : Type 0 where
  pub host : Text
  pub path : Text
  pub timezone : Text
  pub add_host_field : Bool
  pub add_path_field : Bool
  pub add_offset_field : Bool
  pub add_timezone_field : Bool
  pub global_fields : Event
  pub fields : Event

abbrev pub split_line : Text
split_line = b's' ∷ b'p' ∷ b'l' ∷ b'i' ∷ b't' ∷ b'l' ∷ b'i' ∷ b'n' ∷ b'e' ∷ []

unfoldable pub add_if : Bool → String → Value → Event → Event
add_if true key value event = insert key value event
add_if false key value event = event

-- The range over a map of the configuration, each of whose entries is assigned.
unfoldable pub add_all : Event → Event → Event
add_all [] event = event
add_all ((key, value) ∷ more) event = add_all more (insert key value event)

-- The tag of a line that was split: what there is under "tags".
unfoldable pub tagged : Option Value → Event → Event
tagged none event = insert "tags" (strings (split_line ∷ [])) event
tagged (some (strings tags)) event = insert "tags" (strings (tags ++ split_line ∷ [])) event
tagged (some (text t)) event = event
tagged (some (number n)) event = event
tagged (some (opaque n)) event = event

unfoldable pub base_event : Settings → Emitted → Event
unfolding add_if add_all
base_event s e =
    let event₁ = ("message", text e.text) ∷ [] in
    let event₂ = add_if s.add_host_field "host" (text s.host) event₁ in
    let event₃ = add_if s.add_path_field "path" (text s.path) event₂ in
    let event₄ = add_if s.add_offset_field "offset" (number e.start_offset) event₃ in
    let event₅ = add_if s.add_timezone_field "timezone" (text s.timezone) event₄ in
    add_all s.fields (add_all s.global_fields event₅)

unfoldable pub make_event : Settings → (split : Bool) → Emitted → Event
unfolding base_event tagged
make_event s split e =
    let event = base_event s e in if split then tagged (lookup "tags" event) event else event
