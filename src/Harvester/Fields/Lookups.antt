-- ===== src/Harvester/Fields/Lookups.antt =====
-- What each key of an event has (lc-lib/harvester/harvester.go, eventCallback).
use log_courier.Common.{
  ◌≡◌, refl, sym, ap, ◌∙◌, inl, inr, Bool, true, false, ◌&&◌, [], ◌∷◌, ◌++◌, Option, none, some,
  arith, lookup, insert, String, string_eq, lookup-insert, if◌then◌else◌, Bool-cases,
}
use log_courier.Codecs.{Emitted}
use log_courier.Harvester.Fields.{
  Value, text, number, strings, opaque, Event, Settings, split_line, add_if, add_all, tagged,
  base_event, make_event,
}

-- Each key once, as in a map of the configuration.
abbrev pub IsMap : Event → Type 0
IsMap [] = Unit {0}
IsMap ((key, value) ∷ more) = (lookup key more ≡ none) × IsMap more

abbrev pub over : Option Value → Option Value → Option Value
over none below = below
over (some value) below = some value

abbrev pub is : String → String → Bool
is = string_eq.beq

-- The fields of the harvester itself.
abbrev pub own_field : Settings → Emitted → String → Option Value
own_field s e key =
    if is "timezone" key && s.add_timezone_field
    then some (text s.timezone)
    else if is "offset" key && s.add_offset_field
    then some (number e.start_offset)
    else if is "path" key && s.add_path_field
    then some (text s.path)
    else if is "host" key && s.add_host_field
    then some (text s.host)
    else if is "message" key
    then some (text e.text)
    else none

-- The fields of the stream stand over the global ones, and these over the harvester's.
abbrev pub found : Settings → Emitted → String → Option Value
found s e key = over (lookup key s.fields) (over (lookup key s.global_fields) (own_field s e key))

-- What a tag makes of the tags.
abbrev pub tags_of : Option Value → Option Value
tags_of none = some (strings (split_line ∷ []))
tags_of (some (strings tags)) = some (strings (tags ++ split_line ∷ []))
tags_of (some (text t)) = some (text t)
tags_of (some (number n)) = some (number n)
tags_of (some (opaque n)) = some (opaque n)

lookup-add_if :
    (b : Bool) (key k : String) (value : Value) (event : Event)
    → lookup k (add_if b key value event) ≡ (if is key k && b then some value else lookup k event)
unfolding add_if
lookup-add_if true key k value event = lookup-insert key k value event ∙ ground arith
lookup-add_if false key k value event = ground arith

lookup-add_all :
    (k : String) (m event : Event)
    → IsMap m
    → lookup k (add_all m event) ≡ over (lookup k m) (lookup k event)
unfolding add_all lookup
lookup-add_all k [] event unique = refl
lookup-add_all k ((key, value) ∷ m) event (absent, unique) =
    lookup-add_all k m (insert key value event) unique
    ∙ ap (over (lookup k m)) (lookup-insert key k value event)
    ∙ elim (Bool-cases (is key k)) [
      | inl e ↦ rw (e) (
          ap (λ (o : Option Value). over o (some value))
            (ap (λ j. lookup j m) (sym ((string_eq.beq_iff key k).0 e)) ∙ absent))
      | inr n ↦ rw (n) refl
    ]

-- One of the harvester's fields over the event so far.
lookup-own :
    (b : Bool) (key k : String) (value : Value) (event : Event) (below : Option Value)
    → lookup k event ≡ below
    → lookup k (add_if b key value event) ≡ (if is key k && b then some value else below)
lookup-own b key k value event below e =
    lookup-add_if b key k value event ∙ ap (λ o. if is key k && b then some value else o) e

lookup-base_event :
    (s : Settings) (e : Emitted) (k : String)
    → IsMap s.fields
    → IsMap s.global_fields
    → lookup k (base_event s e) ≡ found s e k
unfolding base_event lookup
lookup-base_event s e k own global =
    let event₁ : Event = ("message", text e.text) ∷ [] in
    let event₂ = add_if s.add_host_field "host" (text s.host) event₁ in
    let event₃ = add_if s.add_path_field "path" (text s.path) event₂ in
    let event₄ = add_if s.add_offset_field "offset" (number e.start_offset) event₃ in
    let event₅ = add_if s.add_timezone_field "timezone" (text s.timezone) event₄ in
    lookup-add_all k s.fields (add_all s.global_fields event₅) own
    ∙ ap (over (lookup k s.fields)) (
        lookup-add_all k s.global_fields event₅ global
        ∙ ap (over (lookup k s.global_fields)) (
            lookup-own s.add_timezone_field "timezone" k (text s.timezone) event₄ _ (
              lookup-own s.add_offset_field "offset" k (number e.start_offset) event₃ _ (
                lookup-own s.add_path_field "path" k (text s.path) event₂ _
                  (lookup-own s.add_host_field "host" k (text s.host) event₁ _ refl)))))

kept :
    (k : String) (value : Value) (event : Event)
    → lookup "tags" event ≡ some value
    → lookup k event ≡ (if is "tags" k then some value else lookup k event)
kept k value event e = elim (Bool-cases (is "tags" k)) [
  | inl t ↦ rw (t) (ap (λ j. lookup j event) (sym ((string_eq.beq_iff "tags" k).0 t)) ∙ e)
  | inr n ↦ rw (n) refl
]

lookup-tagged :
    (k : String) (tags : Option Value) (event : Event)
    → lookup "tags" event ≡ tags
    → lookup k (tagged tags event) ≡ (if is "tags" k then tags_of tags else lookup k event)
unfolding tagged
lookup-tagged k none event e = lookup-insert "tags" k _ event
lookup-tagged k (some (strings tags)) event e = lookup-insert "tags" k _ event
lookup-tagged k (some (text t)) event e = kept k (text t) event e
lookup-tagged k (some (number n)) event e = kept k (number n) event e
lookup-tagged k (some (opaque n)) event e = kept k (opaque n) event e

-- What an event has under any key, if no map of the configuration has a key twice: the field of the
-- stream's configuration, else the global field, else the harvester's own field of this name where it
-- is asked for, and the text of the line under "message". For a line that was split, "splitline" is added
-- to the tags that there are, if they are a list of strings, and is the only tag if there are none; tags of
-- another type stay without it.
pub lookup-make_event :
    (s : Settings) (split : Bool) (e : Emitted) (k : String)
    → IsMap s.fields
    → IsMap s.global_fields
    → lookup k (make_event s split e)
      ≡ (if is "tags" k && split then tags_of (found s e "tags") else found s e k)
unfolding make_event
lookup-make_event s true e k own global =
    let tags = lookup-base_event s e "tags" own global in
    lookup-tagged k (lookup "tags" (base_event s e)) (base_event s e) refl
    ∙ rw (tags, lookup-base_event s e k own global) (ground arith)
lookup-make_event s false e k own global = lookup-base_event s e k own global ∙ ground arith
