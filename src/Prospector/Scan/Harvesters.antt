-- ===== src/Prospector/Scan/Harvesters.antt =====
-- The harvesters of an info start and end in turns (lc-lib/prospector): the parts of a look at a
-- file.
use log_courier.Common.{
  ℕ, ◌<◌, ◌≤◌, ◌≡◌, refl, sym, ap, ◌∙◌, Bool, true, false, List, [], ◌∷◌, Option, none, some, arith,
  ◌==◌, ==_lem, if-Both, if◌then◌else◌,
}
use log_courier.Prospector.Info.{
  FileInfo, Error, ProspectorInfo, FinishStatus, set_error, set_stat, set_harvester_stopped,
}
use log_courier.Prospector.State.{
  Prospector, Action, launch, finish, set_info, alloc, act, poll, start_harvester_with_offset,
}

-- Whether the last that was done to an info's harvester is its start.
abbrev pub is_launched : ℕ → List Action → Bool
is_launched id [] = false
is_launched id (launch j offset ∷ actions) = if j == id then true else is_launched id actions
is_launched id (finish j ∷ actions) = if j == id then false else is_launched id actions
is_launched id (_ ∷ actions) = is_launched id actions

-- Each start finds no harvester of the info, and each end finds one.
abbrev pub IsAlternating : List Action → Type 0
IsAlternating [] = Unit
IsAlternating (launch id offset ∷ actions) =
    (is_launched id actions ≡ false) × IsAlternating actions
IsAlternating (finish id ∷ actions) = (is_launched id actions ≡ true) × IsAlternating actions
IsAlternating (_ ∷ actions) = IsAlternating actions

pub record IsTurned (infos : ℕ → ProspectorInfo) (actions : List Action) (allocated : ℕ)
    : Type 0 where
  pub turns : IsAlternating actions
  pub now : (id : ℕ) → (infos id).running ≡ is_launched id actions
  pub fresh : (id : ℕ) → allocated ≤ id → is_launched id actions ≡ false

abbrev pub Turns : Prospector → Type 0
Turns p = IsTurned p.infos p.actions p.allocated

-- A change of an info that keeps its harvester.
pub same-Turns :
    (id : ℕ) (info : ProspectorInfo) (p : Prospector)
    → info.running ≡ (p.infos id).running
    → Turns p
    → Turns (set_info id info p)
unfolding set_info
same-Turns id info p r h = record {
  turns = h.turns;
  now = λ j.
      if-Both (λ i. i.running ≡ is_launched j p.actions) (id == j) info (p.infos j)
        (λ e. r ∙ h.now id ∙ ap (λ x. is_launched x p.actions) (==_lem id j e)) (λ e. h.now j);
  fresh = h.fresh;
}

pub alloc-Turns :
    (info : ProspectorInfo) (p : Prospector) → info.running ≡ false → Turns p → Turns (alloc info p)
unfolding alloc set_info
alloc-Turns info p r h =
    let h' =
      same-Turns p.allocated info p
        (r ∙ sym (h.fresh p.allocated (omega arith)) ∙ sym (h.now p.allocated)) h in
    record { turns = h'.turns; now = h'.now; fresh = λ j b. h'.fresh j (omega arith) }

pub start-Turns :
    (id offset : ℕ) (p : Prospector)
    → id < p.allocated
    → (p.infos id).running ≡ false
    → Turns p
    → Turns (start_harvester_with_offset id offset p)
unfolding start_harvester_with_offset act set_info
start-Turns id offset p b r h = record {
  turns = (sym (h.now id) ∙ r, h.turns);
  now = λ j. ground (arith, h.now j);
  fresh = λ j c. ground (arith, h.fresh j c);
}

set_error-running :
    (last : Option FileInfo) (e : Option Error) (info : ProspectorInfo)
    → (set_stat last (set_error e info)).running ≡ info.running
unfolding set_stat set_error
set_error-running none none info = refl
set_error-running none (some e) info = refl
set_error-running (some last) none info = refl
set_error-running (some last) (some e) info = refl

stopped-running :
    (status : FinishStatus) (info : ProspectorInfo)
    → (set_harvester_stopped status info).running ≡ false
unfolding set_harvester_stopped
stopped-running status info = set_error-running status.last_stat status.error _

pub poll-Turns :
    (answer : Option FinishStatus) (id : ℕ) (p : Prospector) → Turns p → Turns (poll answer id p)
unfolding poll act set_info
poll-Turns none id p h = h
poll-Turns (some status) id p h =
    let info = set_harvester_stopped status (p.infos id) in
    if-Both Turns (p.infos id).running (act (finish id) (set_info id info p)) p
      (λ e. record {
        turns = (sym (h.now id) ∙ e, h.turns);
        now = λ j. ground (arith, h.now j, stopped-running status (p.infos id));
        fresh = λ j c. ground (arith, h.fresh j c);
      })
      (λ e. h)
