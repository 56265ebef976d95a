-- ===== src/Spooler/Limits.antt =====
-- The sizes of the spools that lc-lib/spooler/spooler.go sends.
use log_courier.Common.{
  ℕ, ◌+◌, ◌≤◌, ◌<◌, ◌≡◌, ◌⊎◌, refl, ap, inl, inr, true, false, Bool-cases, List, [], ◌∷◌, ◌++◌,
  length, length-append, leb, ◌&&◌, arith, leb→le,
}
use log_courier.Core.{EventDescriptor}
use log_courier.Spooler.{
  General, Spooler, Choice, Input, Outcome, going, stopped, waiting, taken, reconfigured, configure,
  and_then, reset_timer, fresh_spool, send_spool, queue,
}
use log_courier.Spooler.Order.{IsSteady}

-- The bytes of a spool, each event with its header.
unfoldable pub bytes_of : List EventDescriptor → ℕ
bytes_of [] = 0
bytes_of (e ∷ es) = length e.payload + 4 + bytes_of es

-- A spool within the limits of the configuration. An event that is too large on its own is sent on
-- its own.
pub record Fits (c : General) (spool : List EventDescriptor) : Type 0 where
  pub some_event : 1 ≤ length spool
  pub size : length spool ≤ c.spool_size
  pub bytes : (length spool ≡ 1) ⊎ (bytes_of spool < c.spool_max_bytes)

abbrev pub AllFit : General → List (List EventDescriptor) → Type 0
AllFit c [] = Unit {0}
AllFit c (spool ∷ spools) = Fits c spool × AllFit c spools

-- No configuration comes in the loop.
abbrev pub IsQuiet : List Input → Type 0
IsQuiet [] = Unit {0}
IsQuiet (configure _ _ _ ∷ inputs) = ⊥
IsQuiet (_ ∷ inputs) = IsQuiet inputs

-- Between two rounds.
pub record IsValid (c : General) (s : Spooler) : Type 0 where
  pub config : s.config ≡ c
  pub capacity : s.capacity ≡ c.spool_size
  pub room : length s.spool < c.spool_size
  pub counted : s.spool_size ≡ bytes_of s.spool
  pub fits : (length s.spool ≤ 1) ⊎ (bytes_of s.spool < c.spool_max_bytes)
  pub sent : AllFit c s.output

abbrev pub Within : General → Outcome → Type 0
Within c (going s cs) = IsValid c s × IsSteady cs
Within c (stopped s) = AllFit c s.output
Within c (waiting s) = AllFit c s.output

abbrev pub sent_by : Outcome → List (List EventDescriptor)
sent_by (going s cs) = s.output
sent_by (stopped s) = s.output
sent_by (waiting s) = s.output

bytes_of-append : (xs ys : List EventDescriptor) → bytes_of (xs ++ ys) ≡ bytes_of xs + bytes_of ys
unfolding bytes_of
bytes_of-append [] ys = omega arith
bytes_of-append (x ∷ xs) ys = omega (arith, bytes_of-append xs ys)

AllFit-append :
    (c : General) (spools : List (List EventDescriptor)) (spool : List EventDescriptor)
    → AllFit c spools
    → Fits c spool
    → AllFit c (spools ++ spool ∷ [])
AllFit-append c [] spool f g = (g, tt)
AllFit-append c (x ∷ xs) spool f g = (f.0, AllFit-append c xs spool f.1 g)

-- A call that goes on leaves the spooler empty.
abbrev pub IsEmptied : General → Outcome → Type 0
IsEmptied c (going s cs) = IsValid c s × (s.spool ≡ []) × IsSteady cs
IsEmptied c (stopped s) = AllFit c s.output
IsEmptied c (waiting s) = AllFit c s.output

pub send_spool-IsEmptied :
    (c : General) (cs : List Choice) (s : Spooler)
    → s.config ≡ c
    → 0 < c.spool_size
    → Fits c s.spool
    → AllFit c s.output
    → IsSteady cs
    → IsEmptied c (send_spool cs s)
unfolding send_spool fresh_spool bytes_of
send_spool-IsEmptied c [] s e p f a h = a
send_spool-IsEmptied c (Choice.shutdown ∷ cs) s e p f a h = a
send_spool-IsEmptied c (reconfigured _ _ _ ∷ cs) s e p f a h = elim h [ ]
send_spool-IsEmptied c (taken ∷ cs) s e p f a h = (
  record {
    config = e;
    capacity = ap (λ g. g.spool_size) e;
    room = p;
    counted = refl;
    fits = inl (omega arith);
    sent = AllFit-append c s.output s.spool a f;
  },
  refl,
  h,
)

pub and_then-Within :
    (c : General) (r : Outcome) (f : Spooler → Spooler)
    → IsEmptied c r
    → ((s : Spooler) → IsValid c s → s.spool ≡ [] → IsValid c (f s))
    → Within c (and_then r (λ s cs. going (f s) cs))
unfolding and_then
and_then-Within c (going s cs) f (v, e, h) k = (k s v e, h)
and_then-Within c (stopped s) f v k = v
and_then-Within c (waiting s) f v k = v

pub IsEmptied-Within : (c : General) (r : Outcome) → IsEmptied c r → Within c r
IsEmptied-Within c (going s cs) (v, e, h) = (v, h)
IsEmptied-Within c (stopped s) v = v
IsEmptied-Within c (waiting s) v = v

pub reset_timer-IsValid :
    (c : General) (now : ℕ) (s : Spooler) → IsValid c s → IsValid c (reset_timer now s)
unfolding reset_timer
reset_timer-IsValid c now s v = record {
  config = v.config;
  capacity = v.capacity;
  room = v.room;
  counted = v.counted;
  fits = v.fits;
  sent = v.sent;
}

pub Fits-of :
    (c : General) (s : Spooler) → IsValid c s → leb 1 (length s.spool) ≡ true → Fits c s.spool
Fits-of c s v h = record {
  some_event = leb→le _ _ h;
  size = omega (arith, v.room);
  bytes = elim v.fits [ inl one ↦ inl (omega (arith, leb→le _ _ h)) | inr small ↦ inr small ];
}

bytes_of-queue :
    (grow : ℕ → ℕ) (c : General) (e : EventDescriptor) (s : Spooler)
    → IsValid c s
    → (queue grow e s).spool_size ≡ bytes_of (queue grow e s).spool
unfolding queue bytes_of
bytes_of-queue grow c e s v = omega (arith, bytes_of-append s.spool (e ∷ []), v.counted)

pub length-queue :
    (grow : ℕ → ℕ) (e : EventDescriptor) (s : Spooler)
    → length (queue grow e s).spool ≡ length s.spool + 1
unfolding queue
length-queue grow e s = omega (arith, length-append s.spool (e ∷ []))

pub capacity-queue :
    (grow : ℕ → ℕ) (c : General) (e : EventDescriptor) (s : Spooler)
    → IsValid c s
    → (queue grow e s).capacity ≡ c.spool_size
unfolding queue
capacity-queue grow c e s v = ground (arith, v.room, v.capacity)

-- The spool with one more event, which the spooler sends at once if it is full.
pub queue-small :
    (grow : ℕ → ℕ) (c : General) (e : EventDescriptor) (s : Spooler)
    → IsValid c s
    → (leb 1 (length s.spool) && leb s.config.spool_max_bytes (s.spool_size + length e.payload + 4))
      ≡ false
    → (length (queue grow e s).spool ≤ 1) ⊎ (bytes_of (queue grow e s).spool < c.spool_max_bytes)
unfolding queue bytes_of
queue-small grow c e s v h =
    let l = length-append s.spool (e ∷ []) in
    let b = bytes_of-append s.spool (e ∷ []) in
    let m = ap (λ g. g.spool_max_bytes) v.config in
    elim (Bool-cases (leb 1 (length s.spool))) [
      | inl some_event ↦ inr (ground (arith, b, m, v.counted))
      | inr no_event ↦ inl (ground (arith, l))
    ]

pub queue-IsValid :
    (grow : ℕ → ℕ) (c : General) (e : EventDescriptor) (s : Spooler)
    → IsValid c s
    → length s.spool + 1 < c.spool_size
    → (length (queue grow e s).spool ≤ 1) ⊎ (bytes_of (queue grow e s).spool < c.spool_max_bytes)
    → IsValid c (queue grow e s)
queue-IsValid grow c e s v room fits = record {
  config = unfold queue in v.config;
  capacity = capacity-queue grow c e s v;
  room = omega (arith, length-queue grow e s);
  counted = bytes_of-queue grow c e s v;
  fits = fits;
  sent = unfold queue in v.sent;
}

pub queue-Fits :
    (grow : ℕ → ℕ) (c : General) (e : EventDescriptor) (s : Spooler)
    → IsValid c s
    → (length (queue grow e s).spool ≤ 1) ⊎ (bytes_of (queue grow e s).spool < c.spool_max_bytes)
    → Fits c (queue grow e s).spool
queue-Fits grow c e s v fits = record {
  some_event = omega (arith, length-queue grow e s);
  size = omega (arith, length-queue grow e s, v.room);
  bytes = elim fits [
    | inl one ↦ inl (omega (arith, length-queue grow e s))
    | inr small ↦ inr small
  ];
}

pub requeue-IsValid :
    (grow : ℕ → ℕ) (c : General) (e : EventDescriptor) (now : ℕ) (s : Spooler)
    → 1 < c.spool_size
    → IsValid c s
    → s.spool ≡ []
    → IsValid c (queue grow e (reset_timer now s))
requeue-IsValid grow c e now s large v empty =
    let v' = reset_timer-IsValid c now s v in
    let l : length (reset_timer now s).spool ≡ 0 = unfold reset_timer in ap length empty in
    queue-IsValid grow c e (reset_timer now s) v' (omega arith)
      (inl (omega (arith, length-queue grow e (reset_timer now s))))
