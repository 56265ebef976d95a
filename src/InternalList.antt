-- ===== src/InternalList.antt =====
-- lc-lib/internallist/list.go: the doubly linked ring on a heap. An element is a number, 0 is the
-- root of the list, and none is nil. An element is of one list only, as in the code each kind of
-- list has an element of its own in what it lists; `listed` is that `e.list` is that list.
pub mod Links
pub mod Rings
pub mod Operations
pub mod Lists
mod Tests
use log_courier.Common.{
  ℕ, suc, ◌-◌, Bool, true, false, not, ◌&&◌, ◌||◌, List, [], ◌∷◌, Option, none, some, ◌==◌,
  if◌then◌else◌,
}

pub record Ring : Type 0 where
  pub next : ℕ → Option ℕ
  pub prev : ℕ → Option ℕ
  pub listed : ℕ → Bool
  pub len : ℕ

abbrev pub root : ℕ
root = 0

-- The zero value.
unfoldable pub zero_list : Ring
zero_list = record { next = λ e. none; prev = λ e. none; listed = λ e. false; len = 0 }

unfoldable pub set_next : ℕ → Option ℕ → Ring → Ring
set_next e n r = record r { next = λ x. if e == x then n else r.next x }

unfoldable pub set_prev : ℕ → Option ℕ → Ring → Ring
set_prev e p r = record r { prev = λ x. if e == x then p else r.prev x }

unfoldable pub set_listed : ℕ → Bool → Ring → Ring
set_listed e b r = record r { listed = λ x. if e == x then b else r.listed x }

unfoldable pub init : Ring → Ring
unfolding set_next set_prev
init r = record (set_prev root (some root) (set_next root (some root) r)) { len = 0 }

unfoldable pub lazy_init : Ring → Ring
unfolding init
lazy_init r = elim (r.next root) [ none ↦ init r | some n ↦ r ]

-- `insert`, with what `at.next` is; none is the panic on a nil pointer.
unfoldable pub link : (e at : ℕ) (n : Option ℕ) → Ring → Option Ring
unfolding set_next set_prev set_listed
link e at none r = none
link e at (some n) r =
    let r' =
      set_listed e true (
        set_prev n (some e)
          (set_next e (some n) (set_prev e (some at) (set_next at (some e) r)))) in
    some (record r' { len = suc r.len })

unfoldable pub insert : (e at : ℕ) → Ring → Option Ring
unfolding link
insert e at r = link e at (r.next at) r

-- `remove`, with what `e.prev` and `e.next` are.
unfoldable pub unlink : (e : ℕ) (p n : Option ℕ) → Ring → Option Ring
unfolding set_next set_prev set_listed
unlink e (some p) (some n) r =
    let r' =
      set_listed e false
        (set_prev e none (set_next e none (set_prev n (some p) (set_next p (some n) r)))) in
    some (record r' { len = r.len - 1 })
unlink e _ _ r = none

-- `Remove`.
unfoldable pub remove : ℕ → Ring → Option Ring
unfolding unlink
remove e r = if r.listed e then unlink e (r.prev e) (r.next e) r else some r

unfoldable pub push_front : ℕ → Ring → Option Ring
unfolding lazy_init insert
push_front e r = insert e root (lazy_init r)

unfoldable pub push_back : ℕ → Ring → Option Ring
unfolding lazy_init insert
push_back e r = elim ((lazy_init r).prev root) [ none ↦ none | some at ↦ insert e at (lazy_init r) ]

unfoldable pub insert_after : (e mark : ℕ) → Ring → Option Ring
unfolding insert
insert_after e mark r = if r.listed mark then insert e mark r else some r

unfoldable pub move_after : (e mark : ℕ) → Ring → Option Ring
unfolding unlink insert
move_after e mark r =
    if r.listed e && not (e == mark) && r.listed mark
    then elim (unlink e (r.prev e) (r.next e) r) [ none ↦ none | some r' ↦ insert e mark r' ]
    else some r

unfoldable pub front : Ring → Option ℕ
front r = if r.len == 0 then none else r.next root
